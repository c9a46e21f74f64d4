-- ===== src/Plankton/Within/Forward.antt =====
-- src/process/forwarding.cpp: a step of the forwarding process keeps the current connection and the
-- limit of the connections.
use neo.Base.{
  ℕ, Bool, true, false, List, [], ◌∷◌, some, get_elem?, ◌≡◌, ◌≤◌, ◌==◌, ◌&&◌, refl, subst, arith,
  ◌∙◌, inl, inr,
}
use neo.Base.Partial.{>>=-eq-some}
use neo.Proto.{is_first}
use neo.Model.{
  Node, FibIpnh, State, FwdMode, first_collect, first_forward, collect_nhops, choose_inj_res,
  forward_packet, accepted, dropped, current, set_current, set_fwd_mode, set_executable,
}
use neo.Process.Interface.{Network}
use neo.Process.Injection.{inject_packet}
use neo.Process.Injection.Kept.{some-inj, if_split}
use neo.Process.Injection.Outcome.{update_model_from_injection_result-Settled}
use neo.Process.Forwarding.{
  with_next_hops, collect_next_hops, first_collect_step, chosen, remember, move_to,
  forward_packet_step, first_forward_step, egress_src_ip, number, turn, phase_transition,
  accepted_step, choose_injection_results, exec_mode, exec_step, fib_lookup,
}

-- The same connection and sub-invariant are current, no connection is lost, and the limit is kept.
abbrev pub Keeps : ℕ → State → State → Type 0
Keeps max s t =
    (t.conn ≡ s.conn)
    × (t.correlated_inv_idx ≡ s.correlated_inv_idx)
    × (s.num_conns ≤ t.num_conns)
    × (s.num_conns ≤ max → t.num_conns ≤ max)

pub Keeps-trans : (max : ℕ) (r s t : State) → Keeps max r s → Keeps max s t → Keeps max r t
Keeps-trans max r s t h k =
    let a = h.2 in let b = k.2 in (k.0 ∙ h.0, k.1 ∙ h.1, omega (arith, a, b), λ l. k.3 (h.3 l))

-- The three numbers are as they were.
abbrev pub Same : State → State → Type 0
Same s t =
    (t.conn ≡ s.conn) × (t.correlated_inv_idx ≡ s.correlated_inv_idx) × (t.num_conns ≡ s.num_conns)

pub Same-trans : (r s t : State) → Same r s → Same s t → Same r t
Same-trans r s t h k = (k.0 ∙ h.0, k.1 ∙ h.1, k.2 ∙ h.2)

pub Same-Keeps : (max : ℕ) (s t : State) → Same s t → Keeps max s t
Same-Keeps max s t h = let n = h.2 in (h.0, h.1, omega (arith, n), λ l. omega (arith, n, l))

module _ (net : Network) where
  with_next_hops-Same : (hs : List FibIpnh) (s : State) → Same s (with_next_hops net hs s)
  unfolding with_next_hops
  with_next_hops-Same [] s = (refl, refl, refl)
  with_next_hops-Same (h ∷ hs) s = (refl, refl, refl)

  move_to-Same : (h : FibIpnh) (s : State) → Same s (move_to net h s)
  unfolding move_to
  move_to-Same h s = ground arith

  number-Same : (b : Bool) (s : State) → Same s (number net b s)
  unfolding number
  number-Same b s = ground arith

  remember-Same : (h : FibIpnh) (s t : State) → remember net h s ≡ some t → Same s t
  unfolding remember
  remember-Same h s t e = ground arith

  inject_packet-Same : (mb : Node) (s t : State) → inject_packet net mb s ≡ some t → Same s t
  unfolding inject_packet
  inject_packet-Same mb s t e = ground arith

  turn-Same : (b : Bool) (s t : State) → turn net b s ≡ some t → Same s t
  turn-Same b s t e = ground arith

  phase_transition-Same :
      (n : ℕ) (b : Bool) (s t : State) → phase_transition net n b s ≡ some t → Same s t
  unfolding phase_transition
  phase_transition-Same n b s t e = ground (arith, number-Same b s)

  accepted_step-Same : (s t : State) → accepted_step net s ≡ some t → Same s t
  unfolding accepted_step
  accepted_step-Same s t e = ground (
    arith,
    phase_transition-Same 2 true s t,
    phase_transition-Same 3 true s t,
    phase_transition-Same 4 false s t,
    phase_transition-Same 5 true s t,
    phase_transition-Same 6 false s t,
    phase_transition-Same 7 true s t,
    phase_transition-Same 8 false s t,
    phase_transition-Same 8 true s t,
    phase_transition-Same 9 true s t,
    phase_transition-Same 10 true s t,
    phase_transition-Same 12 true s t,
    phase_transition-Same 14 true s t,
  )

  collect_next_hops-Same : (s t : State) → collect_next_hops net s ≡ some t → Same s t
  unfolding collect_next_hops
  collect_next_hops-Same s t e =
      elim (if_split (net.is_emulated (current s).pkt_location) _ _ t e) [
        | inl f ↦ inject_packet-Same (current s).pkt_location s t f
        | inr f ↦
            let (hops, _, g) =
              >>=-eq-some (fib_lookup (current s).pkt_location (current s).fib) _ f in
            subst (Same s) (some-inj _ t g) (with_next_hops-Same hops s)
      ]

  first_collect_step-Same : (s t : State) → first_collect_step net s ≡ some t → Same s t
  unfolding first_collect_step
  first_collect_step-Same s t e =
      let (u, f, g) = >>=-eq-some (collect_next_hops net s) _ e in
      subst (Same s) (some-inj (set_fwd_mode first_forward u) t g) (collect_next_hops-Same s u f)

  forward_packet_step-Same : (s t : State) → forward_packet_step net s ≡ some t → Same s t
  unfolding forward_packet_step
  forward_packet_step-Same s t e =
      let (h, _, f) = >>=-eq-some (chosen net s) _ e in
      let (u, g, k) = >>=-eq-some (remember net h s) _ f in
      subst (Same s) (some-inj _ t k)
        (Same-trans s u (move_to net h u) (remember-Same h s u g) (move_to-Same h u))

  first_forward_step-Same : (s t : State) → first_forward_step net s ≡ some t → Same s t
  unfolding first_forward_step
  first_forward_step-Same s t e =
      elim (if_split (is_first (current s).proto_state && (current s).src_ip == 0) _ _ t e) [
        | inl f ↦
            let (h, _, g) = >>=-eq-some (chosen net s) _ f in
            let (ip, _, k) = >>=-eq-some (egress_src_ip net h (current s).pkt_location) _ g in
            forward_packet_step-Same (set_current (record (current s) { src_ip = ip }) s) t k
        | inr f ↦ forward_packet_step-Same s t f
      ]

  choose_injection_results-Keeps :
      (s t : State)
      → s.num_conns ≤ net.max_conns
      → choose_injection_results net s ≡ some t
      → Keeps net.max_conns s t
  unfolding choose_injection_results
  choose_injection_results-Keeps s t le e =
      let (rs, _, f) = >>=-eq-some (current s).inj_results _ e in
      let (r, _, g) = >>=-eq-some (get_elem? rs s.choice) _ f in
      let k = update_model_from_injection_result-Settled net (current s).pkt_location r s t le g in
      (k.2, k.3, k.0, λ _. k.1)

  exec_mode-Keeps :
      (m : FwdMode) (s t : State)
      → s.num_conns ≤ net.max_conns
      → exec_mode net m s ≡ some t
      → Keeps net.max_conns s t
  exec_mode-Keeps first_collect s t le e = Same-Keeps _ s t (first_collect_step-Same s t e)
  exec_mode-Keeps first_forward s t le e = Same-Keeps _ s t (first_forward_step-Same s t e)
  exec_mode-Keeps collect_nhops s t le e = Same-Keeps _ s t (collect_next_hops-Same s t e)
  exec_mode-Keeps choose_inj_res s t le e = choose_injection_results-Keeps s t le e
  exec_mode-Keeps forward_packet s t le e = Same-Keeps _ s t (forward_packet_step-Same s t e)
  exec_mode-Keeps accepted s t le e = Same-Keeps _ s t (accepted_step-Same s t e)
  exec_mode-Keeps dropped s t le e =
      Same-Keeps _ s t (subst (Same s) (some-inj (set_executable 0 s) t e) (refl, refl, refl))

  pub exec_step-Keeps :
      (s t : State)
      → s.num_conns ≤ net.max_conns
      → exec_step net s ≡ some t
      → Keeps net.max_conns s t
  unfolding exec_step
  exec_step-Keeps s t le e = exec_mode-Keeps (current s).fwd_mode s t le e
