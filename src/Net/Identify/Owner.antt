-- ===== src/Net/Identify/Owner.antt =====
-- src/lib/net.cpp: the connection that `identify_conn` names.
use neo.Base.{
  ℕ, zero, suc, Bool, true, false, ◌==◌, ltb, Option, none, some, ◌+◌, ◌≡◌, ◌≢◌, refl, ◌<◌, ◌≤◌,
  ◌⊎◌, inl, inr, arith, Bool-cases, Option-cases, sym, ap, ◌∙◌, subst, ltb→lt,
}
use neo.Ip.Address.{IPv4Address}
use neo.Ec.Range.{EcPtr}
use neo.Packet.{Packet}
use neo.Model.{State}
use neo.Net.Identify.{
  packet_belongs_to_connection, found_in, search_conns, or_new, or_others, identify_conn,
}

some-inj : (p q : Packet) → some p ≡ some q → p ≡ q
some-inj p q h = cc

none-some : (q : Packet) → none ≡ some q → ⊥
none-some q h = ground arith

past : (i conn : ℕ) → conn ≤ i → conn ≢ i → suc conn ≤ i
past i conn h d = omega arith

module _ (in_class : EcPtr → IPv4Address → Bool) where
  -- The packet belongs to a connection, and the result says which and in what direction.
  abbrev pub Owned : Packet → State → Packet → Type 0
  Owned pkt s q =
      (i : ℕ) × (b : Bool) × (packet_belongs_to_connection in_class pkt (s.conn_state i) ≡ some b)
      × (q ≡ found_in in_class pkt i b)
      × ((i ≡ s.conn) ⊎ (i < s.num_conns))

  abbrev pub Foreign : Packet → State → ℕ → Type 0
  Foreign pkt s i = packet_belongs_to_connection in_class pkt (s.conn_state i) ≡ none

  skip :
      (pkt : Packet) (s : State) (conn left : ℕ)
      → (conn == s.conn) ≡ true
      → search_conns in_class pkt s conn (suc left) ≡ search_conns in_class pkt s (suc conn) left
  unfolding search_conns
  skip pkt s conn left e = rw e refl

  hit :
      (pkt : Packet) (s : State) (conn left : ℕ) (b : Bool)
      → (conn == s.conn) ≡ false
      → packet_belongs_to_connection in_class pkt (s.conn_state conn) ≡ some b
      → search_conns in_class pkt s conn (suc left) ≡ some (found_in in_class pkt conn b)
  unfolding search_conns
  hit pkt s conn left b e f = rw (e, f) refl

  miss :
      (pkt : Packet) (s : State) (conn left : ℕ)
      → (conn == s.conn) ≡ false
      → Foreign pkt s conn
      → search_conns in_class pkt s conn (suc left) ≡ search_conns in_class pkt s (suc conn) left
  unfolding search_conns
  miss pkt s conn left e f = rw (e, f) refl

  search_conns-some :
      (pkt q : Packet) (s : State) (conn left : ℕ)
      → conn + left ≡ s.num_conns
      → search_conns in_class pkt s conn left ≡ some q
      → Owned pkt s q
  unfolding search_conns
  search_conns-some pkt q s conn zero h e = absurd (ground arith)
  search_conns-some pkt q s conn (suc left) h e = elim (Bool-cases (conn == s.conn)) [
    | inl c ↦
        search_conns-some pkt q s (suc conn) left (omega (arith, h))
          (sym (skip pkt s conn left c) ∙ e)
    | inr c ↦ elim (Option-cases (packet_belongs_to_connection in_class pkt (s.conn_state conn))) [
      | inl f ↦
          search_conns-some pkt q s (suc conn) left (omega (arith, h))
            (sym (miss pkt s conn left c f) ∙ e)
      | inr (b, f) ↦ (
        conn,
        b,
        f,
        some-inj q (found_in in_class pkt conn b) (sym e ∙ hit pkt s conn left b c f),
        inr (omega (arith, h)),
      )
    ]
  ]

  search_conns-none :
      (pkt : Packet) (s : State) (conn left : ℕ)
      → search_conns in_class pkt s conn left ≡ none
      → (i : ℕ) → conn ≤ i
      → i < conn + left
      → i ≢ s.conn
      → Foreign pkt s i
  search_conns-none pkt s conn zero e i l u d = absurd (omega arith)
  search_conns-none pkt s conn (suc left) e i l u d = elim (Bool-cases (conn == s.conn)) [
    | inl c ↦
        search_conns-none pkt s (suc conn) left (sym (skip pkt s conn left c) ∙ e) i
          (past i conn l (ground arith)) (omega arith) d
    | inr c ↦ elim (Option-cases (packet_belongs_to_connection in_class pkt (s.conn_state conn))) [
      | inl f ↦ elim (Bool-cases (conn == i)) [
        | inl g ↦ let k : conn ≡ i = ground arith in subst (Foreign pkt s) k f
        | inr g ↦
            search_conns-none pkt s (suc conn) left (sym (miss pkt s conn left c f) ∙ e) i
              (ground arith) (omega arith) d
      ]
      | inr (b, f) ↦
          absurd (none-some (found_in in_class pkt conn b) (sym e ∙ hit pkt s conn left b c f))
    ]
  ]

  -- The packet is given the next index, which is free.
  abbrev pub Fresh : ℕ → Packet → State → Packet → Type 0
  Fresh max_conns pkt s q =
      (q.conn ≡ some s.num_conns)
      × (q.is_new ≡ true)
      × (s.num_conns < max_conns)
      × ((i : ℕ) → (i ≡ s.conn) ⊎ (i < s.num_conns) → Foreign pkt s i)

  or_new-outcome :
      (max_conns : ℕ) (pkt q : Packet) (s : State) (found : Option Packet)
      → found ≡ search_conns in_class pkt s 0 s.num_conns
      → Foreign pkt s s.conn
      → or_new in_class max_conns pkt s found ≡ some q
      → Owned pkt s q ⊎ Fresh max_conns pkt s q
  or_new-outcome max_conns pkt q s (some p) g f e =
      inl (search_conns-some pkt q s 0 s.num_conns (omega arith) (sym g ∙ e))
  or_new-outcome max_conns pkt q s none g f e = elim (Bool-cases (ltb s.num_conns max_conns)) [
    | inl l ↦
        let new : Packet = record pkt {
          is_new = true;
          opposite_dir = false;
          conn = some s.num_conns;
        } in
        let k : new ≡ q = some-inj new q (sym (rw l refl) ∙ e) in
        inr (
          ap (λ x. x.conn) (sym k),
          ap (λ x. x.is_new) (sym k),
          ltb→lt s.num_conns max_conns l,
          λ i w. elim w [
            | inl c ↦ subst (Foreign pkt s) (sym c) f
            | inr c ↦ elim (Bool-cases (i == s.conn)) [
              | inl d ↦ let k : s.conn ≡ i = ground arith in subst (Foreign pkt s) k f
              | inr d ↦
                  search_conns-none pkt s 0 s.num_conns (sym g) i (omega arith) (omega arith)
                    (ground arith)
            ]
          ],
        )
    | inr l ↦ absurd (none-some q (sym (rw l refl) ∙ e))
  ]

  or_others-outcome :
      (max_conns : ℕ) (pkt q : Packet) (s : State) (m : Option Bool)
      → packet_belongs_to_connection in_class pkt (s.conn_state s.conn) ≡ m
      → or_others in_class max_conns pkt s m ≡ some q
      → Owned pkt s q ⊎ Fresh max_conns pkt s q
  unfolding or_others
  or_others-outcome max_conns pkt q s (some b) f e =
      inl (s.conn, b, f, sym (some-inj (found_in in_class pkt s.conn b) q e), inl refl)
  or_others-outcome max_conns pkt q s none f e =
      or_new-outcome max_conns pkt q s (search_conns in_class pkt s 0 s.num_conns) refl f e

  -- A packet is assigned to a connection that it belongs to, the current one or one of the model's;
  -- or it belongs to none of these, and is given the next index, which is free, as a new connection.
  pub identify_conn-Owned :
      (max_conns : ℕ) (pkt q : Packet) (s : State)
      → identify_conn in_class max_conns pkt s ≡ some q
      → ((i : ℕ) × (b : Bool) × (packet_belongs_to_connection in_class pkt (s.conn_state i)
            ≡ some b)
          × (q ≡ found_in in_class pkt i b)
          × ((i ≡ s.conn) ⊎ (i < s.num_conns)))
        ⊎ Fresh max_conns pkt s q
  unfolding identify_conn
  identify_conn-Owned max_conns pkt q s e = or_others-outcome max_conns pkt q s _ refl e
