-- ===== src/Conn/Spec/Members.antt =====
-- src/connspec.cpp: which connections a specification has.
use neo.Base.{
  ℕ, Bool, true, false, not, arith, ◌&&◌, ◌||◌, ◌==◌, List, [], ◌∷◌, set_insert, any, elem, ◌≡◌,
  refl, ap, ◌∙◌, Bool-cases, inl, inr,
}
use neo.Ec.Range.{EcPtr, overlaps}
use neo.Ec.Mgr.{EqClassMgr, has}
use neo.Ec.Mgr.Add.{get_overlapped_ecs}
use neo.Ec.Mgr.Inv.{IsValid}
use neo.Ec.Mgr.Cut.{IsProper}
use neo.Ec.Mgr.Collect.{has-get_overlapped_ecs}
use neo.Model.{Node}
use neo.Conn.Connection.{Connection, precedes}
use neo.Conn.Connection.Order.{precedes-same}
use neo.Conn.Spec.{
  ConnSpec, ports_of, connection, with_ports, with_ecs, with_nodes, compute_connections,
}

-- Whether a connection is the one of a node, a class and a port.
abbrev pub is_of : Node → EcPtr → ℕ → Connection → Bool
is_of n ec port c = (n == c.src_node && ec == c.dst_ip_ec) && port == c.dst_port

or_same : (a b c : Bool) → a ≡ b → (b || c) ≡ (a || (b || c))
or_same true true c e = refl
or_same false false c e = refl
or_same true false c e = absurd cc
or_same false true c e = absurd cc

or_swap : (a b c : Bool) → (b || (a || c)) ≡ (a || (b || c))
or_swap true true c = refl
or_swap true false c = refl
or_swap false true c = refl
or_swap false false c = refl

or_move : (a b c : Bool) → (b || (a || c)) ≡ ((a || b) || c)
or_move true true c = refl
or_move true false c = refl
or_move false true c = refl
or_move false false c = refl

any-of : {A : Type 0} (xs : List A) (f g : A → Bool) → ((x : A) → f x ≡ g x) → any f xs ≡ any g xs
any-of [] f g h = refl
any-of (x ∷ xs) f g h = rw (h x, any-of xs f g h) refl

any-and_left : (b : Bool) (xs : List ℕ) (f : ℕ → Bool) → any (λ x. b && f x) xs ≡ (b && any f xs)
any-and_left true xs f = refl
any-and_left false [] f = refl
any-and_left false (x ∷ xs) f = any-and_left false xs f

any-and_right : (b : Bool) (xs : List ℕ) (f : ℕ → Bool) → any (λ x. f x && b) xs ≡ (any f xs && b)
any-and_right b [] f = refl
any-and_right b (x ∷ xs) f =
    ap (λ y. (f x && b) || y) (any-and_right b xs f) ∙ spread (f x) (any f xs) b
  where
    spread : (p q b : Bool) → ((p && b) || (q && b)) ≡ ((p || q) && b)
    spread true true true = refl
    spread true true false = refl
    spread true false true = refl
    spread true false false = refl
    spread false true true = refl
    spread false true false = refl
    spread false false true = refl
    spread false false false = refl

any-elem : (a : ℕ) (xs : List ℕ) → any (λ x. a == x) xs ≡ elem a xs
any-elem a [] = refl
any-elem a (x ∷ xs) = ap (λ y. a == x || y) (any-elem a xs)

module _ (n : Node) (ec : EcPtr) (port : ℕ) where
  is_of-same :
      (a b : Connection)
      → precedes a b ≡ false
      → precedes b a ≡ false
      → is_of n ec port a ≡ is_of n ec port b
  is_of-same a b h k =
      let (_, x, y, _, z) = precedes-same a b h k in
      ap (λ v. (n == v && ec == a.dst_ip_ec) && port == a.dst_port) x
      ∙ ap (λ v. (n == b.src_node && ec == v) && port == a.dst_port) y
      ∙ ap (λ v. (n == b.src_node && ec == b.dst_ip_ec) && port == v) z

  any-set_insert :
      (a : Connection) (bs : List Connection)
      → any (is_of n ec port) (set_insert precedes a bs)
        ≡ (is_of n ec port a || any (is_of n ec port) bs)
  any-set_insert a [] = refl
  any-set_insert a (b ∷ bs) = elim (Bool-cases (precedes a b)) [
    | inl e ↦ rw e refl
    | inr e ↦ elim (Bool-cases (precedes b a)) [
      | inl f ↦
          rw (e, f)
            (ap (λ x. is_of n ec port b || x) (any-set_insert a bs)
              ∙ or_swap (is_of n ec port a) (is_of n ec port b) (any (is_of n ec port) bs))
      | inr f ↦
          rw (e, f)
            (or_same (is_of n ec port a) (is_of n ec port b) (any (is_of n ec port) bs)
              (is_of-same a b e f))
    ]
  ]

  any-with_ports :
      (c : ConnSpec) (m : Node) (e : EcPtr) (ps : List ℕ) (conns : List Connection)
      → any (is_of n ec port) (with_ports c m e ps conns)
        ≡ (any (λ p. is_of n ec port (connection c m e p)) ps || any (is_of n ec port) conns)
  unfolding with_ports
  any-with_ports c m e [] conns = refl
  any-with_ports c m e (p ∷ ps) conns =
      any-with_ports c m e ps (set_insert precedes (connection c m e p) conns)
      ∙ ap (λ x. any (λ q. is_of n ec port (connection c m e q)) ps || x)
          (any-set_insert (connection c m e p) conns)
      ∙ or_move _ (any (λ q. is_of n ec port (connection c m e q)) ps) (any (is_of n ec port) conns)

  abbrev of_class : ConnSpec → Node → List ℕ → EcPtr → Bool
  of_class c m ps e = any (λ p. is_of n ec port (connection c m e p)) ps

  any-with_ecs :
      (c : ConnSpec) (m : Node) (es : List EcPtr) (ps : List ℕ) (conns : List Connection)
      → any (is_of n ec port) (with_ecs c m es ps conns)
        ≡ (any (of_class c m ps) es || any (is_of n ec port) conns)
  unfolding with_ecs
  any-with_ecs c m [] ps conns = refl
  any-with_ecs c m (e ∷ es) ps conns =
      any-with_ecs c m es ps (with_ports c m e ps conns)
      ∙ ap (λ x. any (of_class c m ps) es || x) (any-with_ports c m e ps conns)
      ∙ or_move (of_class c m ps e) (any (of_class c m ps) es) (any (is_of n ec port) conns)

  any-with_nodes :
      (c : ConnSpec) (ms : List Node) (es : List EcPtr) (ps : List ℕ) (conns : List Connection)
      → any (is_of n ec port) (with_nodes c ms es ps conns)
        ≡ (any (λ m. any (of_class c m ps) es) ms || any (is_of n ec port) conns)
  unfolding with_nodes
  any-with_nodes c [] es ps conns = refl
  any-with_nodes c (m ∷ ms) es ps conns =
      any-with_nodes c ms es ps (with_ecs c m es ps conns)
      ∙ ap (λ x. any (λ y. any (of_class c y ps) es) ms || x) (any-with_ecs c m es ps conns)
      ∙ or_move (any (of_class c m ps) es) (any (λ y. any (of_class c y ps) es) ms)
          (any (is_of n ec port) conns)

or_false : (a : Bool) → (a || false) ≡ a
or_false true = refl
or_false false = refl

has-elem : (x : EcPtr) (es : List EcPtr) → elem x es ≡ has x es
has-elem x [] = refl
has-elem x (e ∷ es) = ground (arith, has-elem x es)

compute_connections_lem :
    (c : ConnSpec) (m : EqClassMgr) (n : Node) (ec : EcPtr) (port : ℕ)
    → any (is_of n ec port) (compute_connections c m) ≡ (
        (elem n c.src_nodes && elem ec (get_overlapped_ecs c.dst_ip c.owned_dst_only m))
        && elem port (ports_of c m.ports))
unfolding compute_connections
compute_connections_lem c m n ec port =
    let es = get_overlapped_ecs c.dst_ip c.owned_dst_only m in
    let ps = ports_of c m.ports in
    let q = elem port ps in
    let of_port : (x : Node) (e : EcPtr)
        → of_class n ec port c x ps e ≡ ((n == x && ec == e) && q) =
      λ x e.
        any-and_left (n == x && ec == e) ps (λ p. port == p)
        ∙ ap (λ y. (n == x && ec == e) && y) (any-elem port ps) in
    let of_ec : (x : Node) → any (of_class n ec port c x ps) es ≡ ((n == x && elem ec es) && q) =
      λ x.
        any-of es (of_class n ec port c x ps) (λ e. (n == x && ec == e) && q) (of_port x)
        ∙ any-and_right q es (λ e. n == x && ec == e)
        ∙ ap (λ y. y && q)
            (any-and_left (n == x) es (λ e. ec == e) ∙ ap (λ y. n == x && y) (any-elem ec es)) in
    any-with_nodes n ec port c c.src_nodes es ps []
    ∙ or_false (any (λ x. any (of_class n ec port c x ps) es) c.src_nodes)
    ∙ any-of c.src_nodes (λ x. any (of_class n ec port c x ps) es)
        (λ x. (n == x && elem ec es) && q) of_ec
    ∙ any-and_right q c.src_nodes (λ x. n == x && elem ec es)
    ∙ ap (λ y. y && q)
        (any-and_right (elem ec es) c.src_nodes (λ x. n == x)
          ∙ ap (λ y. y && elem ec es) (any-elem n c.src_nodes))

-- For a valid manager and a proper range, the set has a connection from a node to a class and a port
-- exactly if the specification names the node, a range of the class overlaps its addresses, the
-- class is owned where only owned ones are asked for, and the port is one of its ports.
pub compute_connections-elem :
    (c : ConnSpec) (m : EqClassMgr) (n : Node) (ec : EcPtr) (port : ℕ)
    → IsValid m
    → IsProper c.dst_ip
    → any (is_of n ec port) (compute_connections c m) ≡ (
        (elem n c.src_nodes
          && (any (λ r. overlaps r c.dst_ip && r.ec == ec) m.allranges
              && (not c.owned_dst_only || has ec m.owned_ecs)))
        && elem port (ports_of c m.ports))
compute_connections-elem c m n ec port v w =
    compute_connections_lem c m n ec port
    ∙ ap (λ b. (elem n c.src_nodes && b) && elem port (ports_of c m.ports))
        (has-elem ec (get_overlapped_ecs c.dst_ip c.owned_dst_only m)
          ∙ has-get_overlapped_ecs c.dst_ip m v w c.owned_dst_only ec)
