-- ===== src/Topology/Lan/Terminates.antt =====
-- src/l2-lan.cpp: the recursion of `collect_intfs` ends, since it collects an endpoint first.
use neo.Base.{
  ℕ, zero, suc, true, false, not, ◌||◌, List, [], ◌∷◌, Option, none, some, set_insert, any, All,
  length, count_if, ◌≡◌, refl, ◌≤◌, ◌<◌, inl, inr, arith, Bool-cases, sym, subst,
}
use neo.Base.Partial.{◌>>=◌}
use neo.Objects.{Node, Interface}
use neo.Topology.{Endpoint, L2Lan, World}
use neo.Topology.Nodes.{addr, get_peer}
use neo.Topology.Lan.{
  endpoint, same_endpoint, endpoint_lt, is_collected, with_endpoint, with_peer, with_neighbour,
  visit, visit_all, collect_intfs, no_lan, l2_lan,
}

-- The endpoints of a list that are not collected.
abbrev uncollected : List Endpoint → List Endpoint → ℕ
uncollected all seen = count_if (λ e. not (any (same_endpoint e) seen)) all

same_endpoint-eq : (a b : Endpoint) → same_endpoint a b ≡ true → a ≡ b
same_endpoint-eq a b h =
    let n : a.node ≡ b.node = ground arith in let i : a.interface ≡ b.interface = ground arith in cc

same_endpoint_refl : (a : Endpoint) → same_endpoint a a ≡ true
same_endpoint_refl a = ground arith

any-set_insert-old :
    (e x : Endpoint) (seen : List Endpoint)
    → any (same_endpoint e) seen ≡ true
    → any (same_endpoint e) (set_insert endpoint_lt x seen) ≡ true
any-set_insert-old e x [] h = absurd (ground arith)
any-set_insert-old e x (y ∷ seen) h = elim (Bool-cases (same_endpoint e y)) [
  | inl k ↦ ground arith
  | inr k ↦
      let rest : any (same_endpoint e) seen ≡ true =
        subst (λ b. (b || any (same_endpoint e) seen) ≡ true) k h in
      let ih = any-set_insert-old e x seen rest in ground (arith, ih, rest)
]

any-set_insert-new :
    (e x : Endpoint) (seen : List Endpoint)
    → same_endpoint e x ≡ true
    → any (same_endpoint e) (set_insert endpoint_lt x seen) ≡ true
any-set_insert-new e x [] h = rw h refl
any-set_insert-new e x (y ∷ seen) h = let ih = any-set_insert-new e x seen h in ground (arith, ih)

uncollected-le :
    (all : List Endpoint) (x : Endpoint) (seen : List Endpoint)
    → uncollected all (set_insert endpoint_lt x seen) ≤ uncollected all seen
uncollected-le [] x seen = omega arith
uncollected-le (e ∷ all) x seen =
    let ih = uncollected-le all x seen in
    elim (Bool-cases (any (same_endpoint e) seen)) [
      | inl h ↦ rw (h, any-set_insert-old e x seen h) ih
      | inr h ↦ rw h (ground (arith, ih))
    ]

uncollected-lt :
    (all : List Endpoint) (x : Endpoint) (seen : List Endpoint)
    → any (same_endpoint x) all ≡ true
    → any (same_endpoint x) seen ≡ false
    → uncollected all (set_insert endpoint_lt x seen) < uncollected all seen
uncollected-lt [] x seen h k = absurd (ground arith)
uncollected-lt (e ∷ all) x seen h k = elim (Bool-cases (same_endpoint x e)) [
  | inl m ↦
      let same : x ≡ e = same_endpoint-eq x e m in
      let fresh : any (same_endpoint e) seen ≡ false =
        subst (λ a. any (same_endpoint a) seen ≡ false) same k in
      let old : any (same_endpoint e) (set_insert endpoint_lt x seen) ≡ true =
        any-set_insert-new e x seen
          (subst (λ a. same_endpoint e a ≡ true) (sym same) (same_endpoint_refl e)) in
      let le = uncollected-le all x seen in rw (fresh, old) (omega (arith, le))
  | inr m ↦
      let there : any (same_endpoint x) all ≡ true =
        subst (λ b. (b || any (same_endpoint x) all) ≡ true) m h in
      let ih = uncollected-lt all x seen there k in
      elim (Bool-cases (any (same_endpoint e) seen)) [
        | inl c ↦ rw (c, any-set_insert-old e x seen c) ih
        | inr c ↦ rw c (ground (arith, ih))
      ]
]

-- The outcome is a LAN, and no more endpoints are left than `m`.
abbrev Ends : List Endpoint → ℕ → Option L2Lan → Type 0
Ends all m none = ⊥
Ends all m (some lan) = uncollected all lan.l2_endpoints ≤ m

Ends-le : (all : List Endpoint) (m k : ℕ) (o : Option L2Lan) → m ≤ k → Ends all m o → Ends all k o
Ends-le all m k none le h = h
Ends-le all m k (some lan) le h = omega (arith, le, h)

module _ (w : World) (all : List Endpoint) where
  -- The list has every switchport of a node.
  abbrev pub Lists : Node → Type 0
  Lists n = All (λ i. any (same_endpoint (endpoint n i)) all ≡ true) (w.node n).intfs_l2

  abbrev EndsBelow : (Node → L2Lan → Option L2Lan) → ℕ → Type 0
  EndsBelow again f =
      (n : Node) (lan : L2Lan)
      → uncollected all lan.l2_endpoints < f
      → Ends all (uncollected all lan.l2_endpoints) (again n lan)

  module _ (again : Node → L2Lan → Option L2Lan) (f : ℕ) (ih : EndsBelow again f) (n : Node) where
    with_neighbour-Ends :
        (peer : Option Endpoint) (lan : L2Lan)
        → uncollected all lan.l2_endpoints < f
        → Ends all (uncollected all lan.l2_endpoints) (with_neighbour w again n peer lan)
    unfolding with_neighbour addr
    with_neighbour-Ends none lan h = omega arith
    with_neighbour-Ends (some p) lan h = elim (Bool-cases (w.intf p.interface).is_switchport) [
      | inl e ↦ elim (Bool-cases (is_collected p (with_peer n p lan))) [
        | inl c ↦ rw (e, c) (omega arith)
        | inr c ↦ rw (e, c) (ih p.node (with_peer n p lan) h)
      ]
      | inr e ↦ rw e (omega arith)
    ]

    visit-Ends :
        (i : Interface) (lan : L2Lan)
        → any (same_endpoint (endpoint n i)) all ≡ true
        → uncollected all lan.l2_endpoints ≤ f
        → Ends all (uncollected all lan.l2_endpoints) (visit w again n i lan)
    unfolding visit
    visit-Ends i lan m h = elim (Bool-cases (is_collected (endpoint n i) lan)) [
      | inl c ↦ rw c (omega arith)
      | inr c ↦
          let less = uncollected-lt all (endpoint n i) lan.l2_endpoints m c in
          rw c (
            Ends-le all _ _ _ (omega (arith, less)) (
              with_neighbour-Ends (get_peer (w.intf i).name (w.node n))
                (with_endpoint (endpoint n i) lan) (omega (arith, less, h))))
    ]

    after_visit :
        (m : ℕ) (is : List Interface) (o : Option L2Lan)
        → Ends all m o
        → ((lan : L2Lan)
            → uncollected all lan.l2_endpoints ≤ m
            → Ends all m (visit_all w again n is lan))
        → Ends all m (o >>= λ l. visit_all w again n is l)
    after_visit m is none h rest = h
    after_visit m is (some lan) h rest = rest lan h

    visit_all-Ends :
        (m : ℕ) (is : List Interface) (lan : L2Lan)
        → All (λ i. any (same_endpoint (endpoint n i)) all ≡ true) is
        → uncollected all lan.l2_endpoints ≤ m
        → m ≤ f
        → Ends all m (visit_all w again n is lan)
    unfolding visit_all
    visit_all-Ends m [] lan t h k = h
    visit_all-Ends m (i ∷ is) lan t h k =
        after_visit m is (visit w again n i lan)
          (Ends-le all _ m _ h (visit-Ends i lan t.0 (omega (arith, h, k))))
          (λ l le. visit_all-Ends m is l t.1 le k)

  collect_intfs-EndsBelow :
      ((n : Node) → Lists n) → (fuel : ℕ) → EndsBelow (collect_intfs w fuel) fuel
  unfolding collect_intfs
  collect_intfs-EndsBelow listed zero n lan h = absurd (omega arith)
  collect_intfs-EndsBelow listed (suc fuel) n lan h =
      visit_all-Ends (collect_intfs w fuel) fuel (collect_intfs-EndsBelow listed fuel) n
        (uncollected all lan.l2_endpoints) (w.node n).intfs_l2 lan (listed n) (omega arith)
        (omega (arith, h))

  uncollected-length : (xs : List Endpoint) → uncollected xs [] ≤ length xs
  uncollected-length [] = omega arith
  uncollected-length (x ∷ xs) = let ih = uncollected-length xs in omega (arith, ih)

  Ends-some : (m : ℕ) (o : Option L2Lan) → Ends all m o → (lan : L2Lan) × (o ≡ some lan)
  Ends-some m none h = absurd h
  Ends-some m (some lan) h = (lan, refl)

  -- Given a list with every switchport of the network, the recursion ends: with more fuel than the
  -- list is long, the LAN around a node is found.
  pub l2_lan-ends :
      ((n : Node) → Lists n)
      → (fuel : ℕ) (n : Node) → length all < fuel
      → (lan : L2Lan) × (l2_lan w fuel n ≡ some lan)
  unfolding l2_lan
  l2_lan-ends listed fuel n h =
      let le = uncollected-length all in
      Ends-some (uncollected all []) (collect_intfs w fuel n no_lan)
        (collect_intfs-EndsBelow listed fuel n no_lan (omega (arith, le, h)))
