-- ===== src/Topology/Links/Peers.antt =====
-- src/network.cpp: the peers that a link gives to its nodes.
use Prim.Native.String.{String}
use text.Mathlib.Text.{◌==◌ as str_eq}
use text.Mathlib.TextPositions.{eq_refl}
use text.Mathlib.TextEquality.{eq_iff}
use neo.Base.{
  false, ◌==◌, List, ◌∷◌, Option, none, some, if◌then◌else◌, Named, find_name, insert_name,
  set_insert, ◌≡◌, refl, inl, inr, Bool-cases, sym, subst, ap, ◌∙◌, ==-refl, arith,
}
use neo.Base.Partial.{◌>>=◌, >>=-eq-some}
use neo.Topology.{NodeInfo, Endpoint, World}
use neo.Topology.Nodes.{get_peer, add_peer}
use neo.Topology.Lan.{endpoint}
use neo.Topology.Links.{Link, Net, lt, has_link, set_node, connect, add_link}

module _ {ℓ} {A : Type ℓ} where
  insert_name-eq :
      (k : String) (v : A) (m after : List (Named A))
      → insert_name k v m ≡ some after
      → (find_name k m ≡ none) × (after ≡ record { name = k; value = v } ∷ m)
  insert_name-eq k v m after h = from_find (find_name k m) h
    where
      from_find :
          (o : Option A)
          → elim o [ none ↦ some (record { name = k; value = v } ∷ m) | some _ ↦ none ] ≡ some after
          → (o ≡ none) × (after ≡ record { name = k; value = v } ∷ m)
      from_find none e = (refl, cc)
      from_find (some x) e = absurd cc

  find_name-insert_name :
      (k : String) (v : A) (m after : List (Named A))
      → insert_name k v m ≡ some after
      → find_name k after ≡ some v
  find_name-insert_name k v m after h = rw ((insert_name-eq k v m after h).1, eq_refl k) refl

  find_name-kept :
      (k j : String) (v x : A) (m after : List (Named A))
      → insert_name k v m ≡ some after
      → find_name j m ≡ some x
      → find_name j after ≡ some x
  find_name-kept k j v x m after h f = elim (Bool-cases (str_eq j k)) [
    | inl e ↦
        let same : j ≡ k = (eq_iff j k).0 e in
        let lost : none ≡ some x =
          sym (subst (λ n. find_name n m ≡ none) (sym same) (insert_name-eq k v m after h).0) ∙ f in
        absurd cc
    | inr e ↦ rw ((insert_name-eq k v m after h).1, e) f
  ]

add_peer-some :
    (k : String) (p : Endpoint) (n after : NodeInfo)
    → add_peer k p n ≡ some after
    → (peers : List (Named Endpoint)) × (insert_name k p n.l2_peers ≡ some peers)
      × (after.l2_peers ≡ peers)
unfolding add_peer
add_peer-some k p n after h =
    let (peers, e, f) =
      >>=-eq-some (insert_name k p n.l2_peers) (λ peers. some (record n { l2_peers = peers })) h in
    (peers, e, ap (λ x. x.l2_peers) (sym (some-inj (record n { l2_peers = peers }) after f)))
  where
    some-inj : (a b : NodeInfo) → some a ≡ some b → a ≡ b
    some-inj a b e = cc

get_peer-add_peer :
    (k : String) (p : Endpoint) (n after : NodeInfo)
    → add_peer k p n ≡ some after
    → get_peer k after ≡ some p
unfolding get_peer
get_peer-add_peer k p n after h =
    let (peers, e, f) = add_peer-some k p n after h in
    rw f (find_name-insert_name k p n.l2_peers peers e)

get_peer-kept :
    (k j : String) (p q : Endpoint) (n after : NodeInfo)
    → add_peer k p n ≡ some after
    → get_peer j n ≡ some q
    → get_peer j after ≡ some q
unfolding get_peer
get_peer-kept k j p q n after h g =
    let (peers, e, f) = add_peer-some k p n after h in
    rw f (find_name-kept k j p q n.l2_peers peers e g)

-- The interfaces of the link have each other as peers.
abbrev pub Peers : Link → World → World → Type 0
Peers l w v =
    (get_peer (w.intf l.intf1).name (v.node l.node1) ≡ some (endpoint l.node2 l.intf2))
    × (get_peer (w.intf l.intf2).name (v.node l.node2) ≡ some (endpoint l.node1 l.intf1))

connect-Peers : (l : Link) (w v : World) → connect l w ≡ some v → Peers l w v
unfolding connect
connect-Peers l w v h =
    let (info1, e1, h1) =
      >>=-eq-some (add_peer (w.intf l.intf1).name (endpoint l.node2 l.intf2) (w.node l.node1)) _
        h in
    let w1 : World = set_node l.node1 info1 w in
    let (info2, e2, h2) =
      >>=-eq-some (add_peer (w.intf l.intf2).name (endpoint l.node1 l.intf1) (w1.node l.node2)) _
        h1 in
    let first : get_peer (w.intf l.intf1).name (w1.node l.node1) ≡ some (endpoint l.node2 l.intf2) =
      rw (==-refl l.node1) (get_peer-add_peer _ _ _ info1 e1) in
    let kept : get_peer (w.intf l.intf1).name ((set_node l.node2 info2 w1).node l.node1)
        ≡ some (endpoint l.node2 l.intf2) =
      elim (Bool-cases (l.node1 == l.node2)) [
        | inl c ↦
            let same : l.node1 ≡ l.node2 = ground arith in
            rw c (
              get_peer-kept _ _ _ _ (w1.node l.node2) info2 e2 (
                subst
                  (λ n.
                    get_peer (w.intf l.intf1).name (w1.node n) ≡ some (endpoint l.node2 l.intf2))
                  same first))
        | inr c ↦ rw c first
      ] in
    subst (Peers l w) (some-inj (set_node l.node2 info2 w1) v h2)
      (kept, rw (==-refl l.node2) (get_peer-add_peer _ _ _ info2 e2))
  where
    some-inj : (a b : World) → some a ≡ some b → a ≡ b
    some-inj a b e = cc

-- When a link is added that the network has not, each of its interfaces becomes the peer of the
-- other; the links then have it.
pub add_link-Peers :
    (l : Link) (net after : Net)
    → has_link l net.links ≡ false
    → add_link l net ≡ some after
    → Peers l net.world after.world × (after.links ≡ set_insert lt l net.links)
unfolding add_link
add_link-Peers l net after f h =
    let (w, e, g) = >>=-eq-some (connect l net.world) _ (added f h) in
    let same : record net { world = w; links = set_insert lt l net.links } ≡ after =
      some-inj _ after g in
    (
      subst (λ n. Peers l net.world n.world) same (connect-Peers l net.world w e),
      ap (λ n. n.links) (sym same),
    )
  where
    some-inj : (a b : Net) → some a ≡ some b → a ≡ b
    some-inj a b e = cc

    added :
        has_link l net.links ≡ false
        → (if has_link l net.links
            then some net
            else (connect l net.world >>= λ w.
                some (record net { world = w; links = set_insert lt l net.links })))
          ≡ some after
        → (connect l net.world >>= λ w.
            some (record net { world = w; links = set_insert lt l net.links }))
          ≡ some after
    added f h =
        subst
          (λ b.
            (if b
              then some net
              else (connect l net.world >>= λ w.
                  some (record net { world = w; links = set_insert lt l net.links })))
            ≡ some after)
          f h
