-- ===== src/Routing/Table/Lookup.antt =====
-- src/routingtable.cpp: `lookup` of an address is the longest prefix match.
use neo.Base.{
  ℕ, true, false, [], ◌∷◌, none, some, ◌≡◌, refl, All, Memᴰ, Bool-cases, inl, inr, if◌then◌else◌,
  arith, sym, ap, ◌∙◌, subst, ◌≤◌, ◌⊎◌, Option-cases,
}
use neo.Ip.Address.{IPv4Address}
use neo.Ip.Network.{contains}
use neo.Routing.Route.{Route, lt}
use neo.Routing.Table.{RoutingTable, equivalent, equal_range, first_match, lookup}
use neo.Routing.Table.Order.{IsValid, SameDist, keep-true, keep-false}

-- No route of the table that contains the address has a longer prefix.
abbrev Longest : IPv4Address → ℕ → Route → Type 0
Longest dst n s = contains s.network dst ≡ true → s.network.prefix ≤ n

not-lt : (s r : Route) → lt s r ≡ false → s.network.prefix ≤ r.network.prefix
not-lt s r h = ground arith

All-Longest :
    (dst : IPv4Address) (r : Route) (rs : RoutingTable)
    → All (λ s. (lt s r ≡ false) × SameDist r s) rs
    → All (Longest dst r.network.prefix) rs
All-Longest dst r [] h = tt
All-Longest dst r (s ∷ rs) h = ((λ _. not-lt s r h.0.0), All-Longest dst r rs h.1)

hit :
    (dst : IPv4Address) (s : Route) (rs : RoutingTable)
    → contains s.network dst ≡ true
    → first_match dst (s ∷ rs) ≡ some s
unfolding first_match
hit dst s rs e = ap (λ b. if b then some s else first_match dst rs) e

miss :
    (dst : IPv4Address) (s : Route) (rs : RoutingTable)
    → contains s.network dst ≡ false
    → first_match dst (s ∷ rs) ≡ first_match dst rs
unfolding first_match
miss dst s rs e = ap (λ b. if b then some s else first_match dst rs) e

first_match-none :
    (dst : IPv4Address) (tbl : RoutingTable)
    → first_match dst tbl ≡ none
    → All (λ s. contains s.network dst ≡ false) tbl
first_match-none dst [] h = tt
first_match-none dst (s ∷ rs) h = elim (Bool-cases (contains s.network dst)) [
  | inl e ↦ let k = sym (hit dst s rs e) ∙ h in cc
  | inr e ↦ (e, first_match-none dst rs (sym (miss dst s rs e) ∙ h))
]

none-some : (r : Route) → none ≡ some r → ⊥
none-some r h = ground arith

first_match-some :
    (dst : IPv4Address) (tbl : RoutingTable) (r : Route)
    → IsValid tbl
    → first_match dst tbl ≡ some r
    → (contains r.network dst ≡ true) × All (Longest dst r.network.prefix) tbl
unfolding first_match
first_match-some dst [] r v h = absurd (none-some r h)
first_match-some dst (s ∷ rs) r v h = elim (Bool-cases (contains s.network dst)) [
  | inl e ↦
      let k : some s ≡ some r = sym (hit dst s rs e) ∙ h in
      let q : s ≡ r = cc in
      subst (λ t. (contains t.network dst ≡ true) × All (Longest dst t.network.prefix) (s ∷ rs)) q
        (e, ((λ _. ground arith), All-Longest dst s rs v.0))
  | inr e ↦
      let (c, l) = first_match-some dst rs r v.1 (sym (miss dst s rs e) ∙ h) in
      (c, ((λ k. let f : true ≡ false = sym k ∙ e in cc), l))
]

equivalent_refl : (r : Route) → equivalent r r ≡ true
equivalent_refl r = ground arith

-- A route is among those that are equivalent to it.
first_match-Memᴰ :
    (dst : IPv4Address) (tbl : RoutingTable) (r : Route)
    → first_match dst tbl ≡ some r
    → Memᴰ r (equal_range r tbl)
unfolding first_match
first_match-Memᴰ dst [] r h = absurd (none-some r h)
first_match-Memᴰ dst (s ∷ rs) r h = elim (Bool-cases (contains s.network dst)) [
  | inl e ↦
      let k : some s ≡ some r = sym (hit dst s rs e) ∙ h in
      let q : s ≡ r = cc in
      subst (λ t. Memᴰ t (equal_range t (s ∷ rs))) q
        (subst (Memᴰ s) (sym (keep-true (λ t. equivalent t s) s rs (equivalent_refl s)))
          (Memᴰ.head refl))
  | inr e ↦ behind (first_match-Memᴰ dst rs r (sym (miss dst s rs e) ∙ h))
]
  where
    behind : Memᴰ r (equal_range r rs) → Memᴰ r (equal_range r (s ∷ rs))
    behind m = elim (Bool-cases (equivalent s r)) [
      | inl e ↦ subst (Memᴰ r) (sym (keep-true (λ t. equivalent t r) s rs e)) (Memᴰ.tail m)
      | inr e ↦ subst (Memᴰ r) (sym (keep-false (λ t. equivalent t r) s rs e)) m
    ]

-- The table is in order. A looked up address has no route when no route's network contains it;
-- otherwise it has a route, and they are all the routes of the table to the network of that one, which
-- contains the address and has the longest prefix of all that do.
pub lookup-longest_prefix :
    (dst : IPv4Address) (tbl : RoutingTable)
    → IsValid tbl
    → ((lookup dst tbl ≡ []) × All (λ s. contains s.network dst ≡ false) tbl)
      ⊎ ((r : Route) × Memᴰ r (lookup dst tbl)
          × (lookup dst tbl ≡ equal_range r tbl)
          × (contains r.network dst ≡ true)
          × All (λ s. contains s.network dst ≡ true → s.network.prefix ≤ r.network.prefix) tbl)
unfolding lookup
lookup-longest_prefix dst tbl v = elim (Option-cases (first_match dst tbl)) [
  | inl e ↦ inl (rw (lookup, e) refl, first_match-none dst tbl e)
  | inr (r, e) ↦
      let (c, l) = first_match-some dst tbl r v e in
      inr (r, rw (lookup, e) (first_match-Memᴰ dst tbl r e), rw (lookup, e) refl, c, l)
]
