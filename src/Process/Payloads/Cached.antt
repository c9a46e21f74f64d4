-- ===== src/Process/Payloads/Cached.antt =====
-- src/payloadmgr.cpp: the map of payloads gives what would be made.
use neo.Base.{
  ℕ, Bool, true, false, not, ◌&&◌, ◌==◌, List, [], ◌∷◌, Option, none, some, if◌then◌else◌, All, ◌≡◌,
  ◌≢◌, refl, sym, ap, ◌∙◌, subst, Bool-cases, inl, inr, ◌⊎◌, arith,
}
use neo.Base.Partial.{>>=-eq-some}
use neo.Ip.Address.{IPv4Address}
use neo.Ec.Range.{EcPtr}
use neo.Payload.{Payload}
use neo.Model.{State}
use neo.Process.Payloads.{
  PayloadKey, same_key, key_of, Entry, find_payload, make_payload, or_make, get_payload_from_model,
}

same_key-eq : (a b : PayloadKey) → same_key a b ≡ true → a ≡ b
same_key-eq a b h =
    let x : a.dst_ip_ec ≡ b.dst_ip_ec = ground arith in
    let y : a.dst_port ≡ b.dst_port = ground arith in
    let z : a.proto_state ≡ b.proto_state = ground arith in cc

some-inj {ℓ} : {A : Type ℓ} (a b : A) → some a ≡ some b → a ≡ b
some-inj a b e = cc

module _ (to_string : ℕ → List ℕ) (representative_addr : EcPtr → Option IPv4Address) where
  abbrev make : PayloadKey → Option Payload
  make k = make_payload to_string representative_addr k

  -- Each payload of the map is the one that is made for its key.
  abbrev pub Consistent : List Entry → Type 0
  Consistent es = All (λ e. make_payload to_string representative_addr e.key ≡ some e.payload) es

  find_payload-make :
      (k : PayloadKey) (es : List Entry) (p : Payload)
      → Consistent es
      → find_payload k es ≡ some p
      → make k ≡ some p
  unfolding find_payload
  find_payload-make k [] p h f = absurd cc
  find_payload-make k (e ∷ es) p h f = elim (Bool-cases (same_key k e.key)) [
    | inl c ↦
        let found : some e.payload ≡ some p =
          subst (λ b. (if b then some e.payload else find_payload k es) ≡ some p) c f in
        subst (λ x. make x ≡ some p) (sym (same_key-eq k e.key c)) (h.0 ∙ found)
    | inr c ↦
        find_payload-make k es p h.1
          (subst (λ b. (if b then some e.payload else find_payload k es) ≡ some p) c f)
  ]

  abbrev Made : PayloadKey → Payload × List Entry → Type 0
  Made k r = (make k ≡ some r.0) × Consistent r.1

  or_make-Made :
      (k : PayloadKey) (es : List Entry) (o : Option Payload) (r : Payload × List Entry)
      → Consistent es
      → find_payload k es ≡ o
      → or_make to_string representative_addr k es o ≡ some r
      → Made k r
  or_make-Made k es (some p) r h f e =
      subst (Made k) (some-inj (p, es) r e) (find_payload-make k es p h f, h)
  or_make-Made k es none r h f e =
      let (p, m, g) = >>=-eq-some (make k) _ e in
      subst (Made k) (some-inj (p, record { key = k; payload = p } ∷ es) r g) (m, (m, h))

  if_cases :
      (b : Bool) (x y : Option (Payload × List Entry)) (r : Payload × List Entry)
      → (if b then x else y) ≡ some r
      → ((b ≡ true) × (x ≡ some r)) ⊎ ((b ≡ false) × (y ≡ some r))
  if_cases true x y r e = inl (refl, e)
  if_cases false x y r e = inr (refl, e)

  four_or_six : (x : ℕ) → (not (x == 4) && not (x == 6)) ≡ false → (x ≡ 4) ⊎ (x ≡ 6)
  four_or_six x h = ground arith

  neither : (x : ℕ) → (not (x == 4) && not (x == 6)) ≡ true → (x ≢ 4) × (x ≢ 6)
  neither x h = (λ e. ground arith, λ e. ground arith)

  -- With a consistent map, the state of a request or a reply has the payload that is made for its key,
  -- and the map stays consistent; any other state has no payload, and the map stays as it is.
  pub get_payload_from_model-Consistent :
      (s : State) (es after : List Entry) (p : Payload)
      → Consistent es
      → get_payload_from_model to_string representative_addr s es ≡ some (p, after)
      → ((((key_of s).proto_state ≡ 4) ⊎ ((key_of s).proto_state ≡ 6))
          × (make_payload to_string representative_addr (key_of s) ≡ some p)
          × Consistent after)
        ⊎ (((key_of s).proto_state ≢ 4) × ((key_of s).proto_state ≢ 6) × (p ≡ none) × (after ≡ es))
  unfolding get_payload_from_model
  get_payload_from_model-Consistent s es after p h e =
      let k = key_of s in
      elim (if_cases (not (k.proto_state == 4) && not (k.proto_state == 6)) _ _ (p, after) e) [
        | inl (c, f) ↦
            let same = some-inj (none, es) (p, after) f in
            let n = neither k.proto_state c in
            inr (n.0, n.1, sym (ap (λ r. r.0) same), sym (ap (λ r. r.1) same))
        | inr (c, f) ↦
            let m = or_make-Made k es (find_payload k es) (p, after) h refl f in
            inl (four_or_six k.proto_state c, m.0, m.1)
      ]
