-- ===== src/Topology/Hops/Terminates.antt =====
-- src/node.cpp: the recursion of `get_ipnhs` ends, since it looks up no address twice.
use neo.Base.{
  All-keep, All-weaken, ℕ, zero, suc, Bool, true, false, not, ◌||◌, ◌==◌, List, [], ◌∷◌, Option,
  none, some, if◌then◌else◌, elem, any, All, length, count_if, set_union, ◌≡◌, ◌≢◌, refl, ◌≤◌, ◌<◌,
  ◌+◌, inl, inr, arith, Bool-cases, sym, subst, ==-refl,
}
use neo.Ip.Address.{IPv4Address}
use neo.Objects.{Node}
use neo.Model.{FibIpnh}
use neo.Routing.Route.{Route, is_recursive}
use neo.Routing.Table.{RoutingTable, lookup, first_match, equal_range}
use neo.Topology.{World}
use neo.Topology.Fib.{precedes}
use neo.Topology.Hops.{Outcome, out_of_fuel, threw, found, connected_hop, collect_hops, get_ipnhs}

-- The routes of a table whose next hop has not been looked up.
unlooked : RoutingTable → List IPv4Address → ℕ
unlooked rib seen = count_if (λ r. not (elem r.next_hop seen)) rib

-- The address is a next hop of the table.
abbrev is_next_hop : RoutingTable → IPv4Address → Bool
is_next_hop rib a = any (λ r. r.next_hop == a) rib

unlooked-le :
    (rib : RoutingTable) (a : IPv4Address) (seen : List IPv4Address)
    → unlooked rib (a ∷ seen) ≤ unlooked rib seen
unfolding unlooked
unlooked-le [] a seen = omega arith
unlooked-le (r ∷ rib) a seen = let ih = unlooked-le rib a seen in ground (arith, ih)

unlooked-lt :
    (rib : RoutingTable) (a : IPv4Address) (seen : List IPv4Address)
    → is_next_hop rib a ≡ true
    → elem a seen ≡ false
    → unlooked rib (a ∷ seen) < unlooked rib seen
unfolding unlooked
unlooked-lt [] a seen h k = absurd (ground arith)
unlooked-lt (r ∷ rib) a seen h k = elim (Bool-cases (r.next_hop == a)) [
  | inl e ↦
      let same : r.next_hop ≡ a = ground arith in
      let fresh : elem r.next_hop seen ≡ false = subst (λ x. elem x seen ≡ false) (sym same) k in
      let le = unlooked-le rib a seen in rw (e, fresh) (omega (arith, le))
  | inr e ↦
      let there : is_next_hop rib a ≡ true = subst (λ b. (b || is_next_hop rib a) ≡ true) e h in
      let ih = unlooked-lt rib a seen there k in rw e (ground (arith, ih))
]

unlooked-length : (rib : RoutingTable) (seen : List IPv4Address) → unlooked rib seen ≤ length rib
unfolding unlooked
unlooked-length [] seen = omega arith
unlooked-length (r ∷ rib) seen = let ih = unlooked-length rib seen in ground (arith, ih)

abbrev FromTable : RoutingTable → Route → Type 0
FromTable rib r = is_next_hop rib r.next_hop ≡ true

or_true : (a b : Bool) → b ≡ true → (a || b) ≡ true
or_true true b h = refl
or_true false b h = h

rib-FromTable : (rib : RoutingTable) → All (FromTable rib) rib
rib-FromTable [] = tt
rib-FromTable (r ∷ rib) = (
  rw (==-refl r.next_hop) refl,
  All-weaken (FromTable rib) (FromTable (r ∷ rib)) rib
      (λ x h. or_true (r.next_hop == x.next_hop) _ h) (rib-FromTable rib),
)

lookup-FromTable : (rib : RoutingTable) (dst : IPv4Address) → All (FromTable rib) (lookup dst rib)
unfolding lookup
lookup-FromTable rib dst = from_match (first_match dst rib)
  where
    from_match :
        (m : Option Route) → All (FromTable rib) (elim m [ none ↦ [] | some r ↦ equal_range r rib ])
    from_match none = tt
    from_match (some r) = All-keep (FromTable rib) _ rib (rib-FromTable rib)

-- The outcome is one, and no more routes are left than `m`.
abbrev Ends : RoutingTable → ℕ → Outcome → Type 0
Ends rib m out_of_fuel = ⊥
Ends rib m threw = Unit
Ends rib m (found hops seen) = unlooked rib seen ≤ m

Ends-le : (rib : RoutingTable) (m k : ℕ) (o : Outcome) → m ≤ k → Ends rib m o → Ends rib k o
Ends-le rib m k out_of_fuel le h = h
Ends-le rib m k threw le h = tt
Ends-le rib m k (found hops seen) le h = omega (arith, le, h)

module _ (w : World) (n : Node) (rib : RoutingTable) where
  -- The recursive call ends wherever fewer than `m` routes are left.
  abbrev EndsBelow : (IPv4Address → List IPv4Address → Outcome) → ℕ → Type 0
  EndsBelow again m =
      (a : IPv4Address) (seen : List IPv4Address)
      → is_next_hop rib a ≡ true
      → unlooked rib seen < m
      → Ends rib (unlooked rib seen) (again a seen)

  if_Ends :
      (b : Bool) (x y : Outcome) (m : ℕ)
      → Ends rib m x
      → Ends rib m y
      → Ends rib m (if b then x else y)
  if_Ends true x y m h k = h
  if_Ends false x y m h k = k

  after_again :
      (again : IPv4Address → List IPv4Address → Outcome) (dst : IPv4Address) (rs : List Route)
      (hops : List FibIpnh) (seen : List IPv4Address) (m : ℕ) (o : Outcome)
      → Ends rib (unlooked rib seen) o
      → unlooked rib seen ≤ m
      → ((more : List FibIpnh) (s : List IPv4Address)
          → unlooked rib s ≤ m
          → Ends rib m (collect_hops w again n dst rs more s))
      → Ends rib m (elim o [
        | out_of_fuel ↦ out_of_fuel
        | threw ↦ threw
        | found more s ↦ collect_hops w again n dst rs (set_union precedes more hops) s
      ])
  after_again again dst rs hops seen m out_of_fuel h le rest = h
  after_again again dst rs hops seen m threw h le rest = tt
  after_again again dst rs hops seen m (found more s) h le rest =
      rest (set_union precedes more hops) s (omega (arith, h, le))

  after_hop :
      (again : IPv4Address → List IPv4Address → Outcome) (dst : IPv4Address) (rs : List Route)
      (seen : List IPv4Address) (m : ℕ) (o : Option (List FibIpnh))
      → unlooked rib seen ≤ m
      → ((more : List FibIpnh) (s : List IPv4Address)
          → unlooked rib s ≤ m
          → Ends rib m (collect_hops w again n dst rs more s))
      → Ends rib m (elim o [ none ↦ threw | some more ↦ collect_hops w again n dst rs more seen ])
  after_hop again dst rs seen m none le rest = tt
  after_hop again dst rs seen m (some more) le rest = rest more seen le

  collect_hops-Ends :
      (again : IPv4Address → List IPv4Address → Outcome) (f : ℕ)
      → EndsBelow again f
      → (dst : IPv4Address) (rs : List Route) (hops : List FibIpnh) (seen : List IPv4Address)
        (m : ℕ)
      → All (FromTable rib) rs
      → unlooked rib seen ≤ m
      → m < f
      → Ends rib m (collect_hops w again n dst rs hops seen)
  unfolding collect_hops
  collect_hops-Ends again f ih dst [] hops seen m h le lt = le
  collect_hops-Ends again f ih dst (r ∷ rs) hops seen m h le lt =
      let rest : (more : List FibIpnh) (s : List IPv4Address)
          → unlooked rib s ≤ m
          → Ends rib m (collect_hops w again n dst rs more s) =
        λ more s k. collect_hops-Ends again f ih dst rs more s m h.1 k lt in
      if_Ends (is_recursive r) _ _ m
        (after_again again dst rs hops seen m (again r.next_hop seen)
          (ih r.next_hop seen h.0 (omega (arith, le, lt))) le rest)
        (after_hop again dst rs seen m (connected_hop w n r dst hops) le rest)

  get_ipnhs-EndsBelow : (fuel : ℕ) → EndsBelow (get_ipnhs w fuel n rib) fuel
  unfolding get_ipnhs
  get_ipnhs-EndsBelow zero a seen h k = absurd (omega arith)
  get_ipnhs-EndsBelow (suc fuel) a seen h k = elim (Bool-cases (elem a seen)) [
    | inl e ↦ rw e (omega arith)
    | inr e ↦
        let less = unlooked-lt rib a seen h e in
        rw e (
          Ends-le rib (unlooked rib (a ∷ seen)) (unlooked rib seen) _ (omega (arith, less)) (
            collect_hops-Ends (get_ipnhs w fuel n rib) fuel (get_ipnhs-EndsBelow fuel) a
              (lookup a rib) [] (a ∷ seen) (unlooked rib (a ∷ seen)) (lookup-FromTable rib a)
              (omega arith) (omega (arith, less, k))))
  ]

  not-out_of_fuel : (m : ℕ) (o : Outcome) → Ends rib m o → o ≢ out_of_fuel
  not-out_of_fuel m o h e = subst (Ends rib m) e h

  -- The recursion ends: with fuel for two calls more than the table has routes, the next hops of an
  -- address are found, or the code throws.
  pub get_ipnhs-ends :
      (fuel : ℕ) (dst : IPv4Address)
      → length rib + 1 < fuel
      → get_ipnhs w fuel n rib dst [] ≢ out_of_fuel
  unfolding get_ipnhs
  get_ipnhs-ends zero dst h = absurd (omega arith)
  get_ipnhs-ends (suc fuel) dst h =
      let le = unlooked-length rib (dst ∷ []) in
      not-out_of_fuel (unlooked rib (dst ∷ [])) _ (
        collect_hops-Ends (get_ipnhs w fuel n rib) fuel (get_ipnhs-EndsBelow fuel) dst
          (lookup dst rib) [] (dst ∷ []) (unlooked rib (dst ∷ [])) (lookup-FromTable rib dst)
          (omega arith) (omega (arith, le, h)))
