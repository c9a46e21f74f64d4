-- ===== src/Process/Injection/Kept.antt =====
-- src/process/forwarding.cpp: what the loop over the received packets keeps.
use neo.Base.{
  ℕ, Bool, true, false, ◌||◌, ◌==◌, List, [], ◌∷◌, Option, some, if◌then◌else◌, ◌+◌, ◌≤◌, ◌<◌, ◌≡◌,
  ◌≢◌, ◌⊎◌, inl, inr, refl, sym, ap, ◌∙◌, subst, ==-refl, ne→==, Bool-cases, arith,
}
use neo.Base.Partial.{>>=-eq-some}
use neo.Packet.{Packet, empty}
use neo.Model.{
  Node, first_forward, forward_packet, State, ConnState, current, set_current, set_conn,
}
use neo.Net.Identify.{identify_conn}
use neo.Net.Identify.Owner.{identify_conn-Owned}
use neo.Net.Convert.{process_proto_state}
use neo.Net.Convert.Phase.{is_new-process_proto_state}
use neo.Net.Numbers.{check_seq_ack}
use neo.Process.Interface.{Network, update_fib}
use neo.Process.Injection.{
  mapped, map_packet, place, find_hop, Progress, apply_packet, accept_packet, receive, receive_all,
}

-- The same connection and sub-invariant are current, and the others are as they were.
abbrev Frame : State → State → Type 0
Frame s t =
    (t.conn ≡ s.conn)
    × ((i : ℕ) → i ≢ s.conn → t.conn_state i ≡ s.conn_state i)
    × (t.correlated_inv_idx ≡ s.correlated_inv_idx)

Frame-set_current : (c : ConnState) (s : State) → Frame s (set_current c s)
Frame-set_current c s = (refl, λ i d. rw (ne→== i s.conn d) refl, refl)

Frame-trans : (r s t : State) → Frame r s → Frame s t → Frame r t
Frame-trans r s t f g = (g.0 ∙ f.0, λ i d. g.1 i (λ e. d (e ∙ f.0)) ∙ f.1 i d, g.2 ∙ f.2)

-- The packet waits to be forwarded.
abbrev pub Waiting : ConnState → Type 0
Waiting c = (c.fwd_mode ≡ first_forward) ⊎ (c.fwd_mode ≡ forward_packet)

pub some-inj {ℓ} : {A : Type ℓ} (a b : A) → some a ≡ some b → a ≡ b
some-inj a b e = cc

pick {ℓ κ} : {A : Type ℓ} (P : A → Type κ) (b : Bool) (x y : A) → P x → P y → P (if b then x else y)
pick P true x y h k = h
pick P false x y h k = k

differ : (conn orig c : ℕ) → c ≡ orig → (conn == c) ≡ false → orig ≡ conn → ⊥
differ conn orig c h e o = ground arith

or_false : (a b : Bool) → b ≡ false → (a || b) ≡ true → a ≡ true
or_false true b e h = refl
or_false false b e h = absurd cc

pub if_then {ℓ} :
    {A : Type ℓ} (b : Bool) (x y : Option A) (h : A)
    → b ≡ true
    → (if b then x else y) ≡ some h
    → x ≡ some h
if_then true x y h c e = e
if_then false x y h c e = absurd cc

pub if_else {ℓ} :
    {A : Type ℓ} (b : Bool) (x y : Option A) (h : A)
    → b ≡ false
    → (if b then x else y) ≡ some h
    → y ≡ some h
if_else true x y h c e = absurd cc
if_else false x y h c e = e

pub false-true : false ≡ true → ⊥
false-true e = cc

pub if_split {ℓ} :
    {A : Type ℓ} (b : Bool) (x y : Option A) (h : A)
    → (if b then x else y) ≡ some h
    → (x ≡ some h) ⊎ (y ≡ some h)
if_split true x y h e = inl e
if_split false x y h e = inr e

module _ (net : Network) where
  -- A step that leaves the number of connections.
  abbrev Same : State → State → Type 0
  Same s t = Frame s t × (t.num_conns ≡ s.num_conns)

  map_packet-Same : (p : Packet) (s t : State) → map_packet net p s ≡ some t → Same s t
  unfolding map_packet
  map_packet-Same p s t h =
      let (ec, _, e) = >>=-eq-some (net.find_ec p.dst_ip) _ h in
      subst (Same s) (some-inj _ t e) (
        pick (Same s) ((current s).dst_ip_ec == ec) (mapped p ec s) (update_fib net (mapped p ec s))
          (Frame-set_current _ s, refl)
          (
            Frame-trans s (mapped p ec s) (update_fib net (mapped p ec s)) (Frame-set_current _ s)
                (Frame-set_current _ (mapped p ec s)),
            refl,
          ))

  -- What `place` leaves, where a new connection counts.
  abbrev Placed : Bool → State → State → Type 0
  Placed is_new s t =
      Frame s t
      × Waiting (current t)
      × (t.num_conns ≡ (if is_new then s.num_conns + 1 else s.num_conns))

  place-Placed : (mb : Node) (p : Packet) (s : State) → Placed p.is_new s (place mb p s)
  unfolding place
  place-Placed mb p s = elim (Bool-cases p.is_new) [
    | inl e ↦
        rw (e, ==-refl s.conn) ((refl, λ i d. rw (ne→== i s.conn d) refl, refl), inl refl, refl)
    | inr e ↦ elim (Bool-cases p.next_phase) [
      | inl n ↦ elim (Bool-cases p.opposite_dir) [
        | inl o ↦ rw (e, n, o, ==-refl s.conn) (Frame-set_current _ s, inl refl, refl)
        | inr o ↦ rw (e, n, o, ==-refl s.conn) (Frame-set_current _ s, inl refl, refl)
      ]
      | inr n ↦ rw (e, n, ==-refl s.conn) (Frame-set_current _ s, inr refl, refl)
    ]
  ]

  find_hop-Same :
      (mb : Node) (p : Packet) (s t : State)
      → find_hop net mb p s ≡ some t
      → Same s t × ((current t).fwd_mode ≡ (current s).fwd_mode)
  unfolding find_hop
  find_hop-Same mb p s t h =
      let (hop, _, e) = >>=-eq-some (net.get_ipnh mb p.interface p.dst_ip) _ h in
      subst (λ u. Same s u × ((current u).fwd_mode ≡ (current s).fwd_mode)) (some-inj _ t e)
        ((Frame-set_current _ s, refl), rw (==-refl s.conn) refl)

  -- What the loop keeps: the connection, the limit, that the current connection waits if it is
  -- updated, the connections of an older state, and its sub-invariant.
  abbrev pub Kept : ℕ → State → Progress → Type 0
  Kept orig old g =
      (g.state.conn ≡ orig)
      × (g.state.num_conns ≤ net.max_conns)
      × (g.current_conn_updated ≡ true → Waiting (g.state.conn_state orig))
      × (old.num_conns ≤ g.state.num_conns)
      × (g.state.correlated_inv_idx ≡ old.correlated_inv_idx)

  apply_packet-Kept :
      (mb : Node) (p : Packet) (conn orig : ℕ) (old : State) (g h : Progress)
      → Kept orig old g
      → (p.is_new ≡ true → g.state.num_conns < net.max_conns)
      → apply_packet net mb p conn g ≡ some h
      → Kept orig old h
  unfolding apply_packet
  apply_packet-Kept mb p conn orig old g h k room e =
      let s : State = set_conn conn g.state in
      let (t, et, e1) = >>=-eq-some (map_packet net p s) _ e in
      let (u, eu, e2) = >>=-eq-some (find_hop net mb p (place mb p t)) _ e1 in
      let m = map_packet-Same p s t et in
      let q = place-Placed mb p t in
      let f = find_hop-Same mb p (place mb p t) u eu in
      let frame : Frame s u = Frame-trans s t u m.0 (Frame-trans t (place mb p t) u q.0 f.0.0) in
      let waits : Waiting (u.conn_state conn) =
        subst (λ c. Waiting (u.conn_state c)) frame.0
          (subst (λ x. (x ≡ first_forward) ⊎ (x ≡ forward_packet)) (sym f.1) q.1) in
      let count : u.num_conns ≡ (if p.is_new then g.state.num_conns + 1 else g.state.num_conns) =
        f.0.1 ∙ q.2 ∙ ap (λ x. if p.is_new then x + 1 else x) m.1 in
      subst (Kept orig old) (some-inj _ h e2) (
        k.0,
        bounded p.is_new g.state.num_conns u.num_conns k.1 room count,
        updated conn orig old g u k frame waits,
        grown p.is_new g.state.num_conns u.num_conns k.3 count,
        frame.2 ∙ k.4,
      )
    where
      bounded :
          (b : Bool) (n m : ℕ)
          → n ≤ net.max_conns
          → (b ≡ true → n < net.max_conns)
          → m ≡ (if b then n + 1 else n)
          → m ≤ net.max_conns
      bounded true n m le room e = let lt = room refl in omega (arith, e, lt)
      bounded false n m le room e = omega (arith, e, le)

      grown :
          (b : Bool) (n m : ℕ)
          → old.num_conns ≤ n
          → m ≡ (if b then n + 1 else n)
          → old.num_conns ≤ m
      grown true n m le e = omega (arith, e, le)
      grown false n m le e = omega (arith, e, le)

      updated :
          (conn orig : ℕ) (old : State) (g : Progress) (u : State)
          → Kept orig old g
          → Frame (set_conn conn g.state) u
          → Waiting (u.conn_state conn)
          → (g.current_conn_updated || conn == g.state.conn) ≡ true
          → Waiting (u.conn_state orig)
      updated conn orig old g u k f w c = elim (Bool-cases (conn == g.state.conn)) [
        | inl e ↦
            let same : conn ≡ orig = ground (arith, k.0, e) in
            subst (λ i. Waiting (u.conn_state i)) same w
        | inr e ↦
            let other : orig ≢ conn = λ o. differ conn orig g.state.conn k.0 e o in
            subst Waiting (sym (f.1 orig other))
              (k.2 (or_false g.current_conn_updated (conn == g.state.conn) e c))
      ]

  accept_packet-Kept :
      (mb : Node) (q : Packet) (orig : ℕ) (old : State) (g h : Progress)
      → Kept orig old g
      → (q.is_new ≡ true → g.state.num_conns < net.max_conns)
      → accept_packet net mb q g ≡ some h
      → Kept orig old h
  unfolding accept_packet
  accept_packet-Kept mb q orig old g h k room e =
      let (conn, _, e1) = >>=-eq-some q.conn _ e in
      let (p, ep, e2) =
        >>=-eq-some (process_proto_state q (g.state.conn_state conn).proto_state) _ e1 in
      let same = is_new-process_proto_state q p _ ep in
      elim (if_split (p.proto_state == 0) _ _ h e2) [
        | inl e3 ↦ subst (Kept orig old) (some-inj g h e3) k
        | inr e3 ↦
            let (_, _, e4) = >>=-eq-some (check_seq_ack net.same_payload p g.state) _ e3 in
            apply_packet-Kept mb p conn orig old g h k (λ n. room (sym same ∙ n)) e4
      ]

  -- A packet that is identified as new has room.
  has_room :
      (pkt q : Packet) (s : State)
      → identify_conn net.in_class net.max_conns pkt s ≡ some q
      → q.is_new ≡ true
      → s.num_conns < net.max_conns
  has_room pkt q s e n = elim (identify_conn-Owned net.in_class net.max_conns pkt q s e) [
    | inl (i, b, _, f, _) ↦ absurd (ground (arith, sym (ap (λ x. x.is_new) f) ∙ n))
    | inr f ↦ f.2
  ]

  receive-Kept :
      (mb : Node) (pkt : Packet) (orig : ℕ) (old : State) (g h : Progress)
      → Kept orig old g
      → receive net mb pkt g ≡ some h
      → Kept orig old h
  unfolding receive
  receive-Kept mb pkt orig old g h k e = elim (if_split (empty pkt) _ _ h e) [
    | inl e1 ↦ subst (Kept orig old) (some-inj g h e1) k
    | inr e1 ↦
        let (q, eq, e2) = >>=-eq-some (identify_conn net.in_class net.max_conns pkt g.state) _ e1 in
        accept_packet-Kept mb q orig old g h k (has_room pkt q g.state eq) e2
  ]

  pub receive_all-Kept :
      (mb : Node) (pkts : List Packet) (orig : ℕ) (old : State) (g h : Progress)
      → Kept orig old g
      → receive_all net mb pkts g ≡ some h
      → Kept orig old h
  unfolding receive_all
  receive_all-Kept mb [] orig old g h k e = subst (Kept orig old) (some-inj g h e) k
  receive_all-Kept mb (p ∷ ps) orig old g h k e =
      let (f, ef, e1) = >>=-eq-some (receive net mb p g) _ e in
      receive_all-Kept mb ps orig old f h (receive-Kept mb p orig old g f k ef) e1
