-- ===== src/Topology/Lan/Addresses.antt =====
-- src/l2-lan.cpp: the addresses of the endpoints of a LAN.
use neo.Base.{
  ℕ, zero, suc, false, ◌==◌, ltb, List, [], ◌∷◌, Option, none, some, if◌then◌else◌, Keyed, find,
  put, All, ◌≡◌, refl, inl, inr, arith, Bool-cases, sym, subst,
}
use neo.Base.Partial.{◌>>=◌}
use neo.Ip.Address.{IPv4Address}
use neo.Objects.{Node, Interface}
use neo.Topology.{InterfaceInfo, Endpoint, L2Lan, World}
use neo.Topology.Nodes.{addr, get_peer}
use neo.Topology.Lan.{
  endpoint, is_collected, with_endpoint, with_peer, with_neighbour, visit, visit_all, collect_intfs,
  no_lan, l2_lan,
}
use neo.Topology.Hops.{find_l3_endpoint}

All-put {ℓ κ} :
    {A : Type ℓ} (P : Keyed A → Type κ) (k : ℕ) (v : A) (es : List (Keyed A))
    → P (record { key = k; value = v })
    → All P es
    → All P (put k v es)
All-put P k v [] h t = (h, tt)
All-put P k v (e ∷ es) h t = elim (Bool-cases (k == e.key)) [
  | inl c ↦ rw c (h, t.1)
  | inr c ↦ elim (Bool-cases (ltb k e.key)) [
    | inl d ↦ rw (c, d) (h, t)
    | inr d ↦ rw (c, d) (t.0, All-put P k v es h t.1)
  ]
]

addr-some : (i : InterfaceInfo) → i.is_switchport ≡ false → addr i ≡ some i.ipv4.value
unfolding addr
addr-some i e = rw e refl

some-inj : (a b : Endpoint) → some a ≡ some b → a ≡ b
some-inj a b e = cc

module _ (w : World) where
  -- The endpoint's interface has an address, which is the key.
  abbrev pub HasKey : Keyed Endpoint → Type 0
  HasKey e = addr (w.intf e.value.interface) ≡ some e.key

  -- Of a LAN that is given.
  abbrev Addressed : Option L2Lan → Type 0
  Addressed none = Unit
  Addressed (some lan) = All HasKey lan.l3_endpoints

  module _ (again : Node → L2Lan → Option L2Lan)
      (ih : (n : Node) (lan : L2Lan) → All HasKey lan.l3_endpoints → Addressed (again n lan))
      (n : Node) where
    with_neighbour-Addressed :
        (peer : Option Endpoint) (lan : L2Lan)
        → All HasKey lan.l3_endpoints
        → Addressed (with_neighbour w again n peer lan)
    unfolding with_neighbour
    with_neighbour-Addressed none lan h = h
    with_neighbour-Addressed (some p) lan h = elim (Bool-cases (w.intf p.interface).is_switchport) [
      | inl e ↦ elim (Bool-cases (is_collected p (with_peer n p lan))) [
        | inl c ↦ rw (e, c) h
        | inr c ↦ rw (e, c) (ih p.node (with_peer n p lan) h)
      ]
      | inr e ↦ rw e (All-put HasKey _ p lan.l3_endpoints (addr-some (w.intf p.interface) e) h)
    ]

    visit-Addressed :
        (i : Interface) (lan : L2Lan)
        → All HasKey lan.l3_endpoints
        → Addressed (visit w again n i lan)
    unfolding visit
    visit-Addressed i lan h = elim (Bool-cases (is_collected (endpoint n i) lan)) [
      | inl c ↦ rw c h
      | inr c ↦ rw c (
          with_neighbour-Addressed (get_peer (w.intf i).name (w.node n))
            (with_endpoint (endpoint n i) lan) h)
    ]

    after_visit :
        (is : List Interface) (o : Option L2Lan)
        → Addressed o
        → ((lan : L2Lan) → All HasKey lan.l3_endpoints → Addressed (visit_all w again n is lan))
        → Addressed (o >>= λ l. visit_all w again n is l)
    after_visit is none h rest = tt
    after_visit is (some lan) h rest = rest lan h

    visit_all-Addressed :
        (is : List Interface) (lan : L2Lan)
        → All HasKey lan.l3_endpoints
        → Addressed (visit_all w again n is lan)
    unfolding visit_all
    visit_all-Addressed [] lan h = h
    visit_all-Addressed (i ∷ is) lan h =
        after_visit is (visit w again n i lan) (visit-Addressed i lan h)
          (λ l k. visit_all-Addressed is l k)

  collect_intfs-Addressed :
      (fuel : ℕ) (n : Node) (lan : L2Lan)
      → All HasKey lan.l3_endpoints
      → Addressed (collect_intfs w fuel n lan)
  unfolding collect_intfs
  collect_intfs-Addressed zero n lan h = tt
  collect_intfs-Addressed (suc fuel) n lan h =
      visit_all-Addressed (collect_intfs w fuel) (collect_intfs-Addressed fuel) n
        (w.node n).intfs_l2 lan h

  find-HasKey :
      (a : ℕ) (e : Endpoint) (es : List (Keyed Endpoint))
      → All HasKey es
      → find a es ≡ some e
      → addr (w.intf e.interface) ≡ some a
  find-HasKey a e [] h f = absurd (ground arith)
  find-HasKey a e (x ∷ es) h f = elim (Bool-cases (a == x.key)) [
    | inl c ↦
        let k : a ≡ x.key = ground arith in
        let v : x.value ≡ e =
          some-inj x.value e (subst (λ b. (if b then some x.value else find a es) ≡ some e) c f) in
        subst (λ y. addr (w.intf y.interface) ≡ some a) v
          (subst (λ y. addr (w.intf x.value.interface) ≡ some y) (sym k) h.0)
    | inr c ↦
        find-HasKey a e es h.1 (subst (λ b. (if b then some x.value else find a es) ≡ some e) c f)
  ]

  -- An endpoint that a LAN finds for an address has an interface of that address.
  pub find_l3_endpoint-addr :
      (fuel : ℕ) (n : Node) (lan : L2Lan) (dst : IPv4Address) (e : Endpoint)
      → l2_lan w fuel n ≡ some lan
      → find_l3_endpoint dst lan ≡ some e
      → addr (w.intf e.interface) ≡ some dst
  unfolding l2_lan find_l3_endpoint
  find_l3_endpoint-addr fuel n lan dst e h f =
      find-HasKey dst e lan.l3_endpoints
        (subst Addressed h (collect_intfs-Addressed fuel n no_lan tt)) f
