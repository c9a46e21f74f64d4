-- ===== src/Config/Accepted.antt =====
-- src/configparser.cpp: what holds of a configuration that is accepted.
use Prim.Native.String.{String, ◌++◌}
use neo.Base.{
  ℕ, true, false, List, [], ◌∷◌, Option, none, some, ltb, ◌==◌, if◌then◌else◌, Named, find_name,
  set_insert, All, All-set_insert, ◌≡◌, ◌<◌, ◌⊎◌, inl, inr, refl, sym, subst, arith, Bool-cases,
}
use neo.Base.Partial.{>>=-eq-some}
use neo.Base.Int.{ℤ, pos, negsuc}
use neo.Proto.{Proto, tcp, udp, icmp_echo}
use neo.Objects.{Node, Interface}
use neo.Process.Injection.Kept.{some-inj, if_then, if_else}
use neo.Topology.{World}
use neo.Topology.Links.{Link}
use neo.Conn.Spec.{ConnSpec}
use neo.Config.Text.{Text, to_u16}
use neo.Config.Links.{LinkConfig, get_interface, normalize, parse_link}
use neo.Config.Conns.{
  ConnConfig, protocol_of, has_ports, source_port, insert_all, destination_ports, parse_conn_spec,
}

-- The names lead to the node and the interface.
abbrev pub IsEnd :
    World → List (Named Node) → Option String → Option String → Node → Interface → Type 0
IsEnd world nodes node_name intf_name n i =
    (name : String) × (port : String) × (node_name ≡ some name)
    × (intf_name ≡ some port)
    × (find_name name nodes ≡ some n)
    × (find_name port (world.node n).intfs ≡ some i)

no_link : (m : Link) → none ≡ some m → ⊥
no_link m e = ground arith

normalize-lt :
    (l m : Link)
    → normalize l ≡ some m
    → (m.node1 < m.node2)
      × ((m ≡ l)
          ⊎ (m ≡ record { node1 = l.node2; node2 = l.node1; intf1 = l.intf2; intf2 = l.intf1 }))
unfolding normalize
normalize-lt l m e = elim (Bool-cases (ltb l.node2 l.node1)) [
  | inl b ↦
      let f = some-inj _ m (if_then (ltb l.node2 l.node1) _ _ m b e) in
      subst
        (λ x.
          (x.node1 < x.node2)
          × ((x ≡ l)
              ⊎ (x
                  ≡ record { node1 = l.node2; node2 = l.node1; intf1 = l.intf2; intf2 = l.intf1 })))
        f (ground (arith, b), inr refl)
  | inr b ↦
      let e1 = if_else (ltb l.node2 l.node1) _ _ m b e in
      elim (Bool-cases (l.node1 == l.node2)) [
        | inl c ↦ absurd (no_link m (if_then (l.node1 == l.node2) none (some l) m c e1))
        | inr c ↦
            subst
              (λ x.
                (x.node1 < x.node2)
                × ((x ≡ l)
                    ⊎ (x ≡ record {
                      node1 = l.node2;
                      node2 = l.node1;
                      intf1 = l.intf2;
                      intf2 = l.intf1;
                    })))
              (some-inj l m (if_else (l.node1 == l.node2) none (some l) m c e1))
              (ground (arith, b, c), inl refl)
      ]
]

-- The ends of a link that is parsed are the two that the configuration names, in the order of the
-- pointers to their nodes, which differ.
pub parse_link-IsEnd :
    (world : World) (nodes : List (Named Node)) (c : LinkConfig) (l : Link)
    → parse_link world nodes c ≡ some l
    → (l.node1 < l.node2)
      × ((IsEnd world nodes c.node1 c.intf1 l.node1 l.intf1
            × IsEnd world nodes c.node2 c.intf2 l.node2 l.intf2)
          ⊎ (IsEnd world nodes c.node1 c.intf1 l.node2 l.intf2
              × IsEnd world nodes c.node2 c.intf2 l.node1 l.intf1))
unfolding parse_link
parse_link-IsEnd world nodes c l e =
    let (name1, a1, e1) = >>=-eq-some c.node1 _ e in
    let (port1, b1, e2) = >>=-eq-some c.intf1 _ e1 in
    let (name2, a2, e3) = >>=-eq-some c.node2 _ e2 in
    let (port2, b2, e4) = >>=-eq-some c.intf2 _ e3 in
    let (n1, c1, e5) = >>=-eq-some (find_name name1 nodes) _ e4 in
    let (n2, c2, e6) = >>=-eq-some (find_name name2 nodes) _ e5 in
    let (i1, d1, e7) = >>=-eq-some (get_interface port1 (world.node n1)) _ e6 in
    let (i2, d2, e8) = >>=-eq-some (get_interface port2 (world.node n2)) _ e7 in
    let (lt, ends) =
      normalize-lt (record { node1 = n1; node2 = n2; intf1 = i1; intf2 = i2 }) l e8 in
    (
      lt,
      elim ends [
        | inl f ↦ inl (
            subst
              (λ x.
                IsEnd world nodes c.node1 c.intf1 x.node1 x.intf1
                × IsEnd world nodes c.node2 c.intf2 x.node2 x.intf2)
              (sym f) ((name1, port1, a1, b1, c1, d1), (name2, port2, a2, b2, c2, d2)))
        | inr f ↦ inr (
            subst
              (λ x.
                IsEnd world nodes c.node1 c.intf1 x.node2 x.intf2
                × IsEnd world nodes c.node2 c.intf2 x.node1 x.intf1)
              (sym f) ((name1, port1, a1, b1, c1, d1), (name2, port2, a2, b2, c2, d2)))
      ],
    )

to_u16-lt : (z : ℤ) → to_u16 z < 65536
to_u16-lt (pos n) = omega arith
to_u16-lt (negsuc n) = omega arith

insert_all-lt :
    (zs : List ℤ) (ports : List ℕ)
    → All (λ p. p < 65536) ports
    → All (λ p. p < 65536) (insert_all zs ports)
insert_all-lt [] ports h = h
insert_all-lt (z ∷ zs) ports h =
    insert_all-lt zs (set_insert ltb (to_u16 z) ports)
      (All-set_insert (λ p. p < 65536) ltb (to_u16 z) ports (to_u16-lt z) h)

source-lt : (p : Proto) (z : Option ℤ) → (if has_ports p then source_port z else 0) < 65536
source-lt tcp none = omega arith
source-lt tcp (some z) = to_u16-lt z
source-lt udp none = omega arith
source-lt udp (some z) = to_u16-lt z
source-lt icmp_echo z = omega arith

destination-lt :
    (zs : Option (List ℤ)) (z : Option ℤ) → All (λ p. p < 65536) (destination_ports zs z)
destination-lt (some zs) z = insert_all-lt zs [] tt
destination-lt none (some z) = (to_u16-lt z, tt)
destination-lt none none = tt

ports-lt :
    (p : Proto) (zs : Option (List ℤ)) (z : Option ℤ)
    → All (λ q. q < 65536) (if has_ports p then destination_ports zs z else [])
ports-lt tcp zs z = destination-lt zs z
ports-lt udp zs z = destination-lt zs z
ports-lt icmp_echo zs z = tt

no_ports :
    (p : Proto) (a : ℕ) (b : List ℕ)
    → has_ports p ≡ false
    → ((if has_ports p then a else 0) ≡ 0) × ((if has_ports p then b else []) ≡ [])
no_ports p a b h = rw h (refl, refl)

default_source :
    (p : Proto) (z : Option ℤ)
    → has_ports p ≡ true
    → z ≡ none
    → (if has_ports p then source_port z else 0) ≡ 49152
default_source p z h n = rw (h, n) refl

-- The ports of a specification that is parsed fit 16 bits, those of ICMP are left out, and without a
-- source port the first dynamic one is taken.
pub parse_conn_spec-ports :
    (text : Text) (nodes : List (Named Node)) (c : ConnConfig) (spec : ConnSpec)
    → parse_conn_spec text nodes c ≡ some spec
    → (spec.src_port < 65536)
      × All (λ p. p < 65536) spec.dst_ports
      × (has_ports spec.protocol ≡ false → (spec.src_port ≡ 0) × (spec.dst_ports ≡ []))
      × (has_ports spec.protocol ≡ true → c.src_port ≡ none → spec.src_port ≡ 49152)
unfolding parse_conn_spec
parse_conn_spec-ports text nodes c spec e =
    let (name, _, e1) = >>=-eq-some c.protocol _ e in
    let (regex, _, e2) = >>=-eq-some c.src_node _ e1 in
    let (ip, _, e3) = >>=-eq-some c.dst_ip _ e2 in
    let (proto, _, e4) = >>=-eq-some (protocol_of (text.tolower name)) _ e3 in
    let (range, _, e5) =
      >>=-eq-some (text.range (if text.has_slash ip then ip else ip ++ "/32")) _ e4 in
    subst
      (λ s.
        (s.src_port < 65536)
        × All (λ p. p < 65536) s.dst_ports
        × (has_ports s.protocol ≡ false → (s.src_port ≡ 0) × (s.dst_ports ≡ []))
        × (has_ports s.protocol ≡ true → c.src_port ≡ none → s.src_port ≡ 49152))
      (some-inj _ spec e5)
      (
        source-lt proto c.src_port,
        ports-lt proto c.dst_ports c.dport_int,
        no_ports proto _ _,
        default_source proto c.src_port,
      )
