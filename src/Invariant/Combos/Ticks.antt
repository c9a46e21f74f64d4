-- ===== src/Invariant/Combos/Ticks.antt =====
-- src/invariant/invariant.cpp: which sub-invariants have connections after `set_conns`.
use neo.Base.{
  suc, Bool, true, false, not, List, [], ◌∷◌, ◌++◌, some, All, length, ◌==◌, ◌≡◌, inl, inr, refl,
  sym, ap, ◌∙◌, subst, arith, Bool-cases,
}
use neo.Base.Partial.{guard, >>=-eq-some}
use neo.Process.Injection.Kept.{if_then, if_else}
use neo.Conn.Connection.{Connection}
use neo.Conn.Matrix.{reset, get_next_conns}
use neo.Invariant.Combos.{Simple, Source, correlated, is_empty, set_own, set_first, set_conns}

some-inj {ℓ} : {A : Type ℓ} (a b : A) → some a ≡ some b → a ≡ b
some-inj a b e = cc

-- The sub-invariant has no connections, and its combinations begin again.
abbrev pub Restarted : Simple → Type 0
Restarted p = (p.conns ≡ []) × (p.conn_matrix.traversed_all ≡ false)

nil_of_is_empty : (cs : List Connection) → not (is_empty cs) ≡ false → cs ≡ []
nil_of_is_empty [] h = refl
nil_of_is_empty (c ∷ cs) h = absurd cc

set_own-conns :
    (p : Simple) (r : Bool × Simple) → set_own p ≡ some r → r.0 ≡ not (is_empty r.1.conns)
unfolding set_own
set_own-conns p r e =
    let (q, _, f) = >>=-eq-some (get_next_conns p.conn_matrix) _ e in
    subst (λ x. x.0 ≡ not (is_empty x.1.conns))
      (some-inj (not (is_empty q.0), record p { conns = q.0; conn_matrix = q.1 }) r f) refl

-- What the loop leaves: one sub-invariant has a connection, those before it have none, and those
-- after it are as they were; or all have none.
abbrev pub Ticked : List Simple → Bool → List Simple → Type 0
Ticked ps true qs =
    (before : List Simple) × (q : Simple) × (p : Simple) × (after : List Simple) × (qs
      ≡ before ++ q ∷ after)
    × All Restarted before
    × (length q.conns ≡ 1)
    × (old : List Simple) × (ps ≡ old ++ p ∷ after)
    × (length old ≡ length before)
Ticked ps false qs = All Restarted qs × (length qs ≡ length ps)

Ticked-carry :
    (p q : Simple) (ps qs : List Simple) (b : Bool)
    → Restarted q
    → Ticked ps b qs
    → Ticked (p ∷ ps) b (q ∷ qs)
Ticked-carry p q ps qs true h (before, x, y, after, e, all, one, old, f, n) = (
  q ∷ before,
  x,
  y,
  after,
  ap (λ l. q ∷ l) e,
  (h, all),
  one,
  p ∷ old,
  ap (λ l. p ∷ l) f,
  ap suc n,
)
Ticked-carry p q ps qs false h (all, n) = ((h, all), ap suc n)

set_first-Ticked :
    (ps : List Simple) (r : Bool × List Simple) → set_first ps ≡ some r → Ticked ps r.0 r.1
unfolding set_first
set_first-Ticked [] r e = subst (λ x. Ticked [] x.0 x.1) (some-inj (false, []) r e) (tt, refl)
set_first-Ticked (p ∷ ps) r e =
    let (x, ex, e1) = >>=-eq-some (set_own p) _ e in
    let known = set_own-conns p x ex in
    elim (Bool-cases x.0) [
      | inl b ↦
          let (_, one, e2) =
            >>=-eq-some (guard (length x.1.conns == 1)) _ (if_then x.0 _ _ r b e1) in
          subst (λ y. Ticked (p ∷ ps) y.0 y.1) (some-inj (true, x.1 ∷ ps) r e2)
            ([], x.1, p, ps, refl, tt, ground (arith, one), [], refl, refl)
      | inr b ↦
          let (y, ey, e2) = >>=-eq-some (set_first ps) _ (if_else x.0 _ _ r b e1) in
          let q : Simple = record x.1 { conn_matrix = reset x.1.conn_matrix } in
          subst (λ z. Ticked (p ∷ ps) z.0 z.1) (some-inj (y.0, q ∷ y.1) r e2)
            (Ticked-carry p q ps y.1 y.0 (nil_of_is_empty x.1.conns (sym known ∙ b), refl)
              (set_first-Ticked ps y ey))
    ]

-- When `set_conns` has taken the next combination of an invariant with sub-invariants, exactly one of
-- these has moved, to a single connection. Those before it have no connections, and those after it
-- are untouched. Where it has taken none, no sub-invariant has a connection.
pub set_conns-Ticked :
    (ps : List Simple) (b : Bool) (source : Source)
    → set_conns (correlated ps) ≡ some (b, source)
    → (qs : List Simple) × (source ≡ correlated qs) × Ticked ps b qs
unfolding set_conns
set_conns-Ticked ps b source e =
    let (r, er, f) = >>=-eq-some (set_first ps) _ e in
    let same = some-inj (r.0, correlated r.1) (b, source) f in
    (
      r.1,
      sym (ap (λ x. x.1) same),
      subst (λ c. Ticked ps c r.1) (ap (λ x. x.0) same) (set_first-Ticked ps r er),
    )
