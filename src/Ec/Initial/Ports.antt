-- ===== src/Ec/Initial/Ports.antt =====
-- src/eqclassmgr.cpp: the ports that `compute_initial_ecs` collects.
use neo.Base.{
  ℕ, Bool, true, false, List, [], ◌∷◌, Option, some, set_union, ltb, leb, Keyed, if◌then◌else◌, ◌≡◌,
  sym, ap, ◌∙◌, subst, arith,
}
use neo.Base.Partial.{◌>>=◌, >>=-eq-some}
use neo.Ip.Address.{IPv4Address}
use neo.Ip.Network.{IpInterface}
use neo.Routing.Route.{Route}
use neo.Topology.{NodeInfo}
use neo.Ec.Range.{EcRange, EcPtr, of_network}
use neo.Ec.RangeSet.{from_overlap, while_overlap}
use neo.Ec.Class.{within}
use neo.Ec.Mgr.{EqClassMgr, deref, split_intersected_ec}
use neo.Ec.Mgr.Add.{
  Filling, fill_loop, fill_gap, keep_new, add_non_overlapped_ec, add_overlapped, add_overlapped_all,
  get_overlapped_ecs, add_ec,
}
use neo.Ec.Initial.{
  MiddleboxEcs, of_address, add_addrs, add_networks, networks, addresses, add_nodes, add_updates,
  insert_ports, add_middleboxes,
}

some-inj {ℓ} : {A : Type ℓ} (a b : A) → some a ≡ some b → a ≡ b
some-inj a b e = cc

-- The operation keeps the ports.
abbrev KeepsPorts : (EqClassMgr → Option EqClassMgr) → Type 0
KeepsPorts f = (m m' : EqClassMgr) → f m ≡ some m' → m'.ports ≡ m.ports

KeepsPorts-seq :
    (f g : EqClassMgr → Option EqClassMgr)
    → KeepsPorts f
    → KeepsPorts g
    → KeepsPorts (λ m. f m >>= g)
KeepsPorts-seq f g kf kg m m' e =
    let (m1, e1, e2) = >>=-eq-some (f m) g e in kg m1 m' e2 ∙ kf m m1 e1

KeepsPorts-none : KeepsPorts (λ m. some m)
KeepsPorts-none m m' e = ap (λ x. x.ports) (sym (some-inj m m' e))

split-ports : (ec : EcPtr) (r : EcRange) (o : Bool) → KeepsPorts (split_intersected_ec ec r o)
unfolding split_intersected_ec
split-ports ec r o m m' e = ground arith

keep_new-ports :
    (n : EcPtr) (o : Bool) (m : EqClassMgr) (f : Filling) → (keep_new n o m f).ports ≡ m.ports
unfolding keep_new
keep_new-ports n o m f = ground arith

non_overlapped-ports : (r : EcRange) (o : Bool) → KeepsPorts (add_non_overlapped_ec r o)
unfolding add_non_overlapped_ec
non_overlapped-ports r o m m' e =
    let (q, _, e1) =
      >>=-eq-some
        (fill_loop m.next r.lb (while_overlap r (from_overlap r m.allranges))
          (record { all = m.allranges; fresh = [] }))
        _ e in
    let (f, _, e2) =
      >>=-eq-some (if leb q.0 r.ub then fill_gap m.next q.0 r.ub q.1 else some q.1) _ e1 in
    subst (λ x. x.ports ≡ m.ports) (some-inj (keep_new m.next o m f) m' e2)
      (keep_new-ports m.next o m f)

overlapped-ports : (r : EcRange) (o : Bool) (ec : EcPtr) → KeepsPorts (add_overlapped r o ec)
unfolding add_overlapped
overlapped-ports r o ec m m' e =
    let (inside, _, e1) = >>=-eq-some (within r (deref ec m.all_ecs)) _ e in
    ground (arith, e1, split-ports ec r o m m')

overlapped_all-ports :
    (r : EcRange) (o : Bool) (es : List EcPtr) → KeepsPorts (add_overlapped_all r o es)
unfolding add_overlapped_all
overlapped_all-ports r o [] = KeepsPorts-none
overlapped_all-ports r o (ec ∷ es) =
    KeepsPorts-seq (add_overlapped r o ec) (add_overlapped_all r o es) (overlapped-ports r o ec)
      (overlapped_all-ports r o es)

add_ec-ports : (r : EcRange) (o : Bool) → KeepsPorts (add_ec r o)
unfolding add_ec
add_ec-ports r o m m' e =
    let (m1, e1, e2) = >>=-eq-some (add_overlapped_all r o (get_overlapped_ecs r false m) m) _ e in
    non_overlapped-ports r o m1 m' e2
    ∙ overlapped_all-ports r o (get_overlapped_ecs r false m) m m1 e1

addrs-ports : (o : Bool) (xs : List IPv4Address) → KeepsPorts (add_addrs o xs)
unfolding add_addrs
addrs-ports o [] = KeepsPorts-none
addrs-ports o (a ∷ xs) =
    KeepsPorts-seq (add_ec (of_address a) o) (add_addrs o xs) (add_ec-ports (of_address a) o)
      (addrs-ports o xs)

networks-ports : (xs : List IpInterface) → KeepsPorts (add_networks xs)
unfolding add_networks
networks-ports [] = KeepsPorts-none
networks-ports (n ∷ xs) =
    KeepsPorts-seq (add_ec (of_network n) false) (add_networks xs)
      (add_ec-ports (of_network n) false) (networks-ports xs)

pub nodes-ports : (ns : List NodeInfo) → KeepsPorts (add_nodes ns)
unfolding add_nodes
nodes-ports [] = KeepsPorts-none
nodes-ports (n ∷ ns) =
    KeepsPorts-seq (add_addrs true (addresses n.intfs_l3))
      (λ m. add_networks (networks n.rib) m >>= add_nodes ns)
      (addrs-ports true (addresses n.intfs_l3))
      (KeepsPorts-seq (add_networks (networks n.rib)) (add_nodes ns)
        (networks-ports (networks n.rib)) (nodes-ports ns))

pub updates-ports : (us : List (Keyed (List Route))) → KeepsPorts (add_updates us)
unfolding add_updates
updates-ports [] = KeepsPorts-none
updates-ports (u ∷ us) =
    KeepsPorts-seq (add_networks (networks u.value)) (add_updates us)
      (networks-ports (networks u.value)) (updates-ports us)

-- The ports with those of the middleboxes.
abbrev pub ports_after : List MiddleboxEcs → List ℕ → List ℕ
ports_after [] ps = ps
ports_after (b ∷ bs) ps = ports_after bs (set_union ltb b.ec_ports ps)

pub middleboxes-ports :
    (bs : List MiddleboxEcs) (m m' : EqClassMgr)
    → add_middleboxes bs m ≡ some m'
    → m'.ports ≡ ports_after bs m.ports
unfolding add_middleboxes
middleboxes-ports [] m m' e = ap (λ x. x.ports) (sym (some-inj m m' e))
middleboxes-ports (b ∷ bs) m m' e =
    let (m1, e1, f1) = >>=-eq-some (add_networks b.ec_ip_prefixes m) _ e in
    let (m2, e2, f2) = >>=-eq-some (add_addrs false b.ec_ip_addrs m1) _ f1 in
    middleboxes-ports bs (insert_ports b.ec_ports m2) m' f2
    ∙ ap (λ ps. ports_after bs (set_union ltb b.ec_ports ps))
        (addrs-ports false b.ec_ip_addrs m1 m2 e2 ∙ networks-ports b.ec_ip_prefixes m m1 e1)
