-- ===== src/Conn/Connection/Init.antt =====
-- src/conn.cpp, src/invariant/invariant.cpp: the state that the connections start in.
use neo.Base.{
  ℕ, zero, suc, List, [], ◌∷◌, none, some, get_elem?, length, ◌≡◌, ◌≢◌, refl, ◌<◌, ◌+◌, arith,
  ne→==, ==-refl, sym, ◌∙◌, subst,
}
use neo.Proto.{first_proto_state}
use neo.Payload.{Payload}
use neo.Model.{FibEntry, ConnState, first_collect, State}
use neo.Conn.Connection.{Connection, init, init_all, init_conns}

-- The connection starts at its source node with its first packet.
abbrev pub Starts : Connection → ConnState → Type 0
Starts c t =
    (t.executable ≡ 2)
    × (t.proto_state ≡ first_proto_state c.protocol)
    × (t.fwd_mode ≡ first_collect)
    × (t.src_node ≡ c.src_node)
    × (t.pkt_location ≡ c.src_node)
    × (t.dst_ip_ec ≡ c.dst_ip_ec)

none-some : (c : Connection) → none ≡ some c → ⊥
none-some c h = ground arith

some-inj : (d c : Connection) → some d ≡ some c → d ≡ c
some-inj d c h = cc

module _ (get_payload_from_model : State → Payload) (compute_fib : State → List FibEntry) where
  init-Starts :
      (i : ℕ) (c : Connection) (s : State)
      → Starts c ((init get_payload_from_model compute_fib i c s).conn_state i)
  unfolding init
  init-Starts i c s = ground (arith, ==-refl i)

  init-others :
      (i j : ℕ) (c : Connection) (s : State)
      → j ≢ i
      → (init get_payload_from_model compute_fib i c s).conn_state j ≡ s.conn_state j
  unfolding init
  init-others i j c s h = rw (ne→== j i h) refl

  init_all-others :
      (i j : ℕ) (cs : List Connection) (s : State)
      → j < i
      → (init_all get_payload_from_model compute_fib i cs s).conn_state j ≡ s.conn_state j
  unfolding init_all
  init_all-others i j [] s h = refl
  init_all-others i j (c ∷ cs) s h =
      init_all-others (suc i) j cs (init get_payload_from_model compute_fib i c s)
        (omega (arith, h))
      ∙ init-others i j c s (λ e. absurd (ground arith))

  init_all-Starts :
      (i k : ℕ) (cs : List Connection) (c : Connection) (s : State)
      → get_elem? cs k ≡ some c
      → Starts c ((init_all get_payload_from_model compute_fib i cs s).conn_state (i + k))
  unfolding init_all
  init_all-Starts i k [] c s h = absurd (none-some c h)
  init_all-Starts i zero (d ∷ cs) c s h =
      let t = init get_payload_from_model compute_fib i d s in
      let e : i ≡ i + 0 = omega arith in
      let q : d ≡ c = some-inj d c h in
      subst
        (λ j. Starts c ((init_all get_payload_from_model compute_fib (suc i) cs t).conn_state j)) e
        (subst (Starts c) (sym (init_all-others (suc i) i cs t (omega arith)))
          (subst (λ x. Starts x (t.conn_state i)) q (init-Starts i d s)))
  init_all-Starts i (suc k) (d ∷ cs) c s h =
      let t = init get_payload_from_model compute_fib i d s in
      let e : suc i + k ≡ i + suc k = omega arith in
      subst
        (λ j. Starts c ((init_all get_payload_from_model compute_fib (suc i) cs t).conn_state j)) e
        (init_all-Starts (suc i) k cs c t h)

  -- Every connection of an invariant starts at its source node with the first packet of its
  -- protocol, and as many connections as there are in the list are counted.
  pub init_conns-Starts :
      (conns : List Connection) (s : State) (i : ℕ) (c : Connection)
      → get_elem? conns i ≡ some c
      → ((init_conns get_payload_from_model compute_fib conns s).num_conns ≡ length conns)
        × Starts c ((init_conns get_payload_from_model compute_fib conns s).conn_state i)
  unfolding init_conns
  init_conns-Starts conns s i c h =
      let e : 0 + i ≡ i = omega arith in
      (
        refl,
        subst (λ j. Starts c ((init_all get_payload_from_model compute_fib 0 conns s).conn_state j))
            e (init_all-Starts 0 i conns c s h),
      )
