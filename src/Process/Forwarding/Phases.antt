-- ===== src/Process/Forwarding/Phases.antt =====
-- src/process/forwarding.cpp: the protocol states that a connection goes through.
use neo.Base.{
  ℕ, Bool, true, false, ◌==◌, Option, none, some, if◌then◌else◌, ◌≡◌, refl, ◌⊎◌, inl, inr, arith,
  Bool-cases, sym, ap, ◌∙◌, subst, ==-refl,
}
use neo.Base.Partial.{◌>>=◌, >>=-eq-some}
use neo.Proto.{is_next}
use neo.Model.{Node, State, first_collect, current, set_current, set_executable}
use neo.Process.Interface.{Network}
use neo.Process.Forwarding.{number, turn, restart, phase_transition, accepted_step}

-- The connection freezes, or starts its next phase.
abbrev pub Phase : ℕ → State → State → Type 0
Phase next s t =
    (t ≡ set_executable 0 s)
    ⊎ (((current t).proto_state ≡ next) × ((current t).fwd_mode ≡ first_collect))

some-inj : (s t : State) → some s ≡ some t → s ≡ t
some-inj s t h = cc

==→≡ : (a b : ℕ) → (a == b) ≡ true → a ≡ b
==→≡ a b h = ground arith

none-some : (t : State) → none ≡ some t → ⊥
none-some t h = ground arith

-- The node that sends the next packet.
abbrev source : Bool → State → Node
source d s = if d then (current s).pkt_location else (current s).src_node

module _ (net : Network) where
  turn-proto_state :
      (d : Bool) (s t : State)
      → turn net d s ≡ some t
      → (current t).proto_state ≡ (current s).proto_state
  turn-proto_state true s t h =
      let (ip, _, h1) = >>=-eq-some (net.representative_addr (current s).dst_ip_ec) _ h in
      let (ec, _, h2) = >>=-eq-some (net.find_ec (current s).src_ip) _ h1 in
      ground (arith, ==-refl s.conn)
  turn-proto_state false s t h = ground (arith, ==-refl s.conn)

  restart-Phase :
      (next : ℕ) (s t : State)
      → (current s).proto_state ≡ next
      → t ≡ restart net s
      → ((current t).proto_state ≡ next) × ((current t).fwd_mode ≡ first_collect)
  restart-Phase next s t h e =
      subst (λ u. ((current u).proto_state ≡ next) × ((current u).fwd_mode ≡ first_collect)) (sym e)
        (ground (arith, ==-refl s.conn))

  started :
      (next : ℕ) (d : Bool) (r t : State)
      → (turn net d (set_current (record (current r) { proto_state = next }) r) >>= λ u.
          some (restart net u))
        ≡ some t
      → ((current t).proto_state ≡ next) × ((current t).fwd_mode ≡ first_collect)
  started next d r t h =
      let r1 : State = set_current (record (current r) { proto_state = next }) r in
      let (u, e, k) = >>=-eq-some (turn net d r1) (λ u. some (restart net u)) h in
      let p : (current r1).proto_state ≡ next = rw (==-refl r.conn) refl in
      restart-Phase next u t (turn-proto_state d r1 u e ∙ p) (some-inj t (restart net u) (sym k))

  phase_transition-Phase :
      (next : ℕ) (d : Bool) (s t : State) → phase_transition net next d s ≡ some t → Phase next s t
  unfolding phase_transition
  phase_transition-Phase next d s t h = elim (Bool-cases (net.is_emulated (source d s))) [
    | inl e ↦ inl (some-inj t (set_executable 0 s) (sym h ∙ rw (phase_transition, e) refl))
    | inr e ↦ inr (started next d (number net d s) t (sym (rw (phase_transition, e) refl) ∙ h))
  ]

  -- The connection freezes, or starts the next phase of its protocol.
  abbrev pub Advances : State → State → Type 0
  Advances s t =
      (t ≡ set_executable 0 s)
      ⊎ ((is_next (current t).proto_state (current s).proto_state ≡ true)
          × ((current t).fwd_mode ≡ first_collect))

  transition-Advances :
      (k next : ℕ) (d : Bool) (s t : State)
      → is_next next k ≡ true
      → (current s).proto_state ≡ k
      → phase_transition net next d s ≡ some t
      → Advances s t
  transition-Advances k next d s t n e h = elim (phase_transition-Phase next d s t h) [
    | inl q ↦ inl q
    | inr (q, m) ↦ inr (
      subst (λ x. is_next x (current s).proto_state ≡ true) (sym q)
          (subst (λ x. is_next next x ≡ true) (sym e) n),
      m,
    )
  ]

  -- One case of the switch.
  case :
      (k next : ℕ) (d : Bool) (s t : State) (rest : Option State)
      → is_next next k ≡ true
      → (rest ≡ some t → Advances s t)
      → (if (current s).proto_state == k then phase_transition net next d s else rest) ≡ some t
      → Advances s t
  case k next d s t rest n f h = elim (Bool-cases ((current s).proto_state == k)) [
    | inl e ↦
        transition-Advances k next d s t n (==→≡ (current s).proto_state k e)
          (sym (ap (λ b. if b then phase_transition net next d s else rest) e) ∙ h)
    | inr e ↦ f (sym (ap (λ b. if b then phase_transition net next d s else rest) e) ∙ h)
  ]

  -- A case that ends the connection.
  end :
      (k : ℕ) (s t : State) (rest : Option State)
      → (rest ≡ some t → Advances s t)
      → (if (current s).proto_state == k then some (set_executable 0 s) else rest) ≡ some t
      → Advances s t
  end k s t rest f h = elim (Bool-cases ((current s).proto_state == k)) [
    | inl e ↦ inl (
        some-inj t (set_executable 0 s)
          (sym h ∙ ap (λ b. if b then some (set_executable 0 s) else rest) e))
    | inr e ↦ f (sym (ap (λ b. if b then some (set_executable 0 s) else rest) e) ∙ h)
  ]

  -- The case whose direction depends on the node.
  case_node :
      (b : Bool) (k next : ℕ) (s t : State) (rest : Option State)
      → is_next next k ≡ true
      → (rest ≡ some t → Advances s t)
      → (if (current s).proto_state == k
          then if b then phase_transition net next false s else phase_transition net next true s
          else rest)
        ≡ some t
      → Advances s t
  case_node true k next s t rest n f h = case k next false s t rest n f h
  case_node false k next s t rest n f h = case k next true s t rest n f h

  -- A step of an accepted packet either leaves the state as it is but for the connection's flag,
  -- which is then 0, or takes the connection to the next state of its protocol, at the start of a
  -- forwarding round.
  pub accepted_step-is_next :
      (s t : State)
      → accepted_step net s ≡ some t
      → (t ≡ set_executable 0 s)
        ⊎ ((is_next (current t).proto_state (current s).proto_state ≡ true)
            × ((current t).fwd_mode ≡ first_collect))
  unfolding accepted_step
  accepted_step-is_next s t h =
      case 1 2 true s t _ refl
        (case 2 3 true s t _ refl (
          case 3 4 false s t _ refl (
            case 4 5 true s t _ refl (
              case 5 6 false s t _ refl (
                case 6 7 true s t _ refl (
                  case_node (net.is_emulated (current s).pkt_location) 7 8 s t _ refl (
                    case 8 9 true s t _ refl (
                      case 9 10 true s t _ refl (
                        end 10 s t _ (
                          case 11 12 true s t _ refl (
                            end 12 s t _ (
                              case 13 14 true s t _ refl
                                (end 14 s t none (λ k. absurd (none-some t k)))))))))))))))
        h
