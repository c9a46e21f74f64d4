-- ===== src/Config/Invs/Sizes.antt =====
-- src/configparser.cpp: how many specifications an invariant has that is parsed.
use Prim.Native.String.{String}
use text.Mathlib.Text.{◌==◌ as str_eq}
use neo.Base.{
  ℕ, Bool, true, false, List, [], ◌∷◌, none, some, length, leb, ◌==◌, All, Named, ◌≡◌, ◌≤◌, inl,
  inr, refl, subst, arith,
}
use neo.Base.Partial.{guard, >>=-eq-some}
use neo.Objects.{Node}
use neo.Invariant.Counts.{ReachCounts}
use neo.Plankton.Checks.{Kind, reachability_inv, reply_reachability_inv, waypoint_inv}
use neo.Process.Injection.Kept.{some-inj, if_split}
use neo.Config.Text.{Text}
use neo.Config.Invs.{
  SingleConfig, InvConfig, ParsedSingle, Parsed, single, conditional_inv, consistency_inv, targets,
  specs_of, with_one, with_some, parse_reachability, parse_replyreachability, parse_waypoint,
  parse_loop, parse_onerequest, parse_loadbalance, parse_basic, is_basic, parse_correlated,
  parse_subs, bounded, parse_inv, parse_invariants,
}

abbrev IsOne : ParsedSingle → Type 0
IsOne i = length i.conn_specs ≡ 1

abbrev pub Sized : ℕ → Parsed → Type 0
Sized max (single i) = (1 ≤ length i.conn_specs) × (length i.conn_specs ≤ max)
Sized max (conditional_inv subs) = All (λ i. length i.conn_specs ≡ 1) subs
Sized max (consistency_inv subs) = All (λ i. length i.conn_specs ≡ 1) subs

guard-eq : (b : Bool) (u : Unit {0}) → guard b ≡ some u → b ≡ true
guard-eq true u e = refl
guard-eq false u e = absurd (ground arith)

none-some {ℓ} : {A : Type ℓ} (a : A) → none ≡ some a → ⊥
none-some a e = cc

module _ (text : Text) (nodes : List (Named Node)) (max : ℕ)
    (disp : SingleConfig → ReachCounts → Bool) where
  with_one-IsOne :
      (c : SingleConfig) (k : Kind) (i : ParsedSingle)
      → with_one text nodes max disp c k ≡ some i
      → IsOne i
  with_one-IsOne c k i e =
      let (specs, _, e1) = >>=-eq-some (specs_of text nodes max disp c) _ e in
      let (u, g, e2) = >>=-eq-some (guard (length specs == 1)) _ e1 in
      let b = guard-eq (length specs == 1) u g in
      subst IsOne (some-inj (record { kind = k; conn_specs = specs }) i e2) (ground (arith, b))

  with_some-le :
      (c : SingleConfig) (k : Kind) (i : ParsedSingle)
      → with_some text nodes max disp c k ≡ some i
      → 1 ≤ length i.conn_specs
  with_some-le c k i e =
      let (specs, _, e1) = >>=-eq-some (specs_of text nodes max disp c) _ e in
      let (u, g, e2) = >>=-eq-some (guard (leb 1 (length specs))) _ e1 in
      let b = guard-eq (leb 1 (length specs)) u g in
      subst (λ x. 1 ≤ length x.conn_specs) (some-inj (record { kind = k; conn_specs = specs }) i e2)
        (ground (arith, b))

  parse_basic-IsOne :
      (t : String) (c : SingleConfig) (i : ParsedSingle)
      → parse_basic text nodes max disp t c ≡ some i
      → IsOne i
  unfolding parse_reachability parse_replyreachability parse_waypoint parse_loop
  parse_basic-IsOne t c i e = elim (if_split (str_eq t "reachability") _ _ i e) [
    | inl f ↦
        let (r, _, f1) = >>=-eq-some c.target_node _ f in
        let (b, _, f2) = >>=-eq-some c.reachable _ f1 in
        with_one-IsOne c (reachability_inv (targets text nodes max disp r) b) i f2
    | inr e1 ↦ elim (if_split (str_eq t "reply-reachability") _ _ i e1) [
      | inl f ↦
          let (r, _, f1) = >>=-eq-some c.target_node _ f in
          let (b, _, f2) = >>=-eq-some c.reachable _ f1 in
          with_one-IsOne c (reply_reachability_inv (targets text nodes max disp r) b) i f2
      | inr e2 ↦ elim (if_split (str_eq t "waypoint") _ _ i e2) [
        | inl f ↦
            let (r, _, f1) = >>=-eq-some c.target_node _ f in
            let (b, _, f2) = >>=-eq-some c.pass_through _ f1 in
            with_one-IsOne c (waypoint_inv (targets text nodes max disp r) b) i f2
        | inr e3 ↦ elim (if_split (str_eq t "loop") _ _ i e3) [
          | inl f ↦ with_one-IsOne c _ i f
          | inr f ↦ absurd (none-some i f)
        ]
      ]
    ]
  ]

  parse_correlated-IsOne :
      (cs : List SingleConfig) (is : List ParsedSingle)
      → parse_correlated text nodes max disp cs ≡ some is
      → All IsOne is
  unfolding parse_correlated
  parse_correlated-IsOne [] is e = subst (All IsOne) (some-inj [] is e) tt
  parse_correlated-IsOne (c ∷ cs) is e =
      let (t, _, e1) = >>=-eq-some c.type_name _ e in
      let (i, f, e2) = >>=-eq-some (parse_basic text nodes max disp t c) _ e1 in
      let (_, _, e3) = >>=-eq-some (guard (leb (length i.conn_specs) max)) _ e2 in
      let (rest, g, e4) = >>=-eq-some (parse_correlated text nodes max disp cs) _ e3 in
      subst (All IsOne) (some-inj (i ∷ rest) is e4)
        (parse_basic-IsOne t c i f, parse_correlated-IsOne cs rest g)

  bounded-Sized :
      (i : ParsedSingle) (r : Parsed)
      → 1 ≤ length i.conn_specs
      → bounded text nodes max disp i ≡ some r
      → Sized max r
  bounded-Sized i r le e =
      let (u, g, e1) = >>=-eq-some (guard (leb (length i.conn_specs) max)) _ e in
      let b = guard-eq (leb (length i.conn_specs) max) u g in
      subst (Sized max) (some-inj (single i) r e1) (le, ground (arith, b))

  onerequest-le :
      (c : SingleConfig) (i : ParsedSingle)
      → parse_onerequest text nodes max disp c ≡ some i
      → 1 ≤ length i.conn_specs
  unfolding parse_onerequest
  onerequest-le c i e = let (r, _, f) = >>=-eq-some c.target_node _ e in with_some-le c _ i f

  loadbalance-le :
      (c : SingleConfig) (i : ParsedSingle)
      → parse_loadbalance text nodes max disp c ≡ some i
      → 1 ≤ length i.conn_specs
  unfolding parse_loadbalance
  loadbalance-le c i e = let (r, _, f) = >>=-eq-some c.target_node _ e in with_some-le c _ i f

  subs-IsOne :
      (c : InvConfig) (is : List ParsedSingle)
      → parse_subs text nodes max disp c ≡ some is
      → All IsOne is
  subs-IsOne c is e =
      let (cs, _, f) = >>=-eq-some c.correlated_invariants _ e in parse_correlated-IsOne cs is f

  parse_inv-Sized :
      (c : InvConfig) (r : Parsed) → parse_inv text nodes max disp c ≡ some r → Sized max r
  unfolding parse_inv
  parse_inv-Sized c r e =
      let (t, _, e1) = >>=-eq-some c.keys.type_name _ e in
      elim (if_split (is_basic text nodes max disp t) _ _ r e1) [
        | inl f ↦
            let (i, g, k) = >>=-eq-some (parse_basic text nodes max disp t c.keys) _ f in
            let one = parse_basic-IsOne t c.keys i g in bounded-Sized i r (omega (arith, one)) k
        | inr e2 ↦ elim (if_split (str_eq t "one-request") _ _ r e2) [
          | inl f ↦
              let (i, g, k) = >>=-eq-some (parse_onerequest text nodes max disp c.keys) _ f in
              bounded-Sized i r (onerequest-le c.keys i g) k
          | inr e3 ↦ elim (if_split (str_eq t "loadbalance") _ _ r e3) [
            | inl f ↦
                let (i, g, k) = >>=-eq-some (parse_loadbalance text nodes max disp c.keys) _ f in
                bounded-Sized i r (loadbalance-le c.keys i g) k
            | inr e4 ↦ elim (if_split (str_eq t "conditional") _ _ r e4) [
              | inl f ↦
                  let (subs, g, k) = >>=-eq-some (parse_subs text nodes max disp c) _ f in
                  subst (Sized max) (some-inj (conditional_inv subs) r k) (subs-IsOne c subs g)
              | inr e5 ↦ elim (if_split (str_eq t "consistency") _ _ r e5) [
                | inl f ↦
                    let (subs, g, k) = >>=-eq-some (parse_subs text nodes max disp c) _ f in
                    subst (Sized max) (some-inj (consistency_inv subs) r k) (subs-IsOne c subs g)
                | inr f ↦ absurd (none-some r f)
              ]
            ]
          ]
        ]
      ]

  -- Every invariant that is parsed has from one to `max` specifications of connections, or each of
  -- its sub-invariants has exactly one.
  pub parse_invariants-Sized :
      (cs : List InvConfig) (is : List Parsed)
      → parse_invariants text nodes max disp cs ≡ some is
      → All (Sized max) is
  unfolding parse_invariants
  parse_invariants-Sized [] is e = subst (All (Sized max)) (some-inj [] is e) tt
  parse_invariants-Sized (c ∷ cs) is e =
      let (i, f, e1) = >>=-eq-some (parse_inv text nodes max disp c) _ e in
      let (rest, g, e2) = >>=-eq-some (parse_invariants text nodes max disp cs) _ e1 in
      subst (All (Sized max)) (some-inj (i ∷ rest) is e2)
        (parse_inv-Sized c i f, parse_invariants-Sized cs rest g)
