-- ===== src/Process/Forwarding.antt =====
-- src/process/forwarding.cpp: the process that moves the packet of the current connection.
pub mod Phases
pub mod Edges
use neo.Base.{
  ℕ, zero, suc, Bool, true, false, not, ◌&&◌, ◌||◌, ltb, ◌==◌, List, [], ◌∷◌, Option, none, some,
  get_elem?, length, any, if◌then◌else◌, ◌+◌, ◌%◌, ◌^◌,
}
use neo.Base.Partial.{◌>>=◌, guard}
use neo.Proto.{is_tcp, has_syn, has_fin, is_first}
use neo.Ip.Address.{IPv4Address}
use neo.Ec.Range.{EcPtr}
use neo.Process.Interface.{Network, drop_conn, update_fib}
use neo.Process.Numbers.{next_seq}
use neo.Process.Injection.{inject_packet, update_model_from_injection_result}
use neo.Model.{
  Node, FibIpnh, FibEntry, FwdMode, first_collect, first_forward, collect_nhops, choose_inj_res,
  forward_packet, accepted, dropped, ChoiceEntry, State, current, set_current, set_executable,
  set_fwd_mode, set_candidates, set_choice_count,
}

-- `FIB::lookup`; `none` is the exception of `at`.
unfoldable pub fib_lookup : Node → List FibEntry → Option (List FibIpnh)
fib_lookup n [] = none
fib_lookup n (e ∷ es) = let rest = fib_lookup n es in if n == e.node then some e.next_hops else rest

abbrev pub same_ipnh : FibIpnh → FibIpnh → Bool
same_ipnh a b =
    a.l3_node == b.l3_node
    && a.l3_intf == b.l3_intf
    && a.l2_node == b.l2_node
    && a.l2_intf == b.l2_intf

-- `Choices::get_choice`.
unfoldable pub get_choice : EcPtr → Node → List ChoiceEntry → Option FibIpnh
get_choice ec n [] = none
get_choice ec n (e ∷ es) =
    let rest = get_choice ec n es in if ec == e.ec && n == e.node then some e.choice else rest

-- `Choices::add_choice`; `none` is the logged error "Duplicate choice key".
unfoldable pub add_choice : EcPtr → Node → FibIpnh → List ChoiceEntry → Option (List ChoiceEntry)
unfolding get_choice
add_choice ec n c tbl = elim (get_choice ec n tbl) [
  | none ↦ some (record { ec = ec; node = n; choice = c } ∷ tbl)
  | some _ ↦ none
]

-- The candidates among the next hops: in case of multipath, the past choice if it is one of them.
unfoldable pub choose_candidates : Option FibIpnh → List FibIpnh → List FibIpnh
choose_candidates none hops = hops
choose_candidates (some c) hops =
    if ltb 1 (length hops) && any (same_ipnh c) hops then c ∷ [] else hops

module _ (net : Network) where
  unfoldable pub with_next_hops : List FibIpnh → State → State
  unfolding choose_candidates get_choice
  with_next_hops [] s = drop_conn s
  with_next_hops (h ∷ hs) s =
      let c = current s in
      let cs = choose_candidates (get_choice c.dst_ip_ec c.pkt_location c.path_choices) (h ∷ hs) in
      set_fwd_mode forward_packet (set_candidates cs (set_choice_count (length cs) s))

  -- The results at the choice; `none` is the exception of `at` or a null pointer.
  unfoldable pub choose_injection_results : State → Option State
  unfolding update_model_from_injection_result
  choose_injection_results s =
      let c = current s in
      c.inj_results >>= λ rs.
      get_elem? rs s.choice >>= λ r. update_model_from_injection_result net c.pkt_location r s

  unfoldable pub collect_next_hops : State → Option State
  unfolding fib_lookup with_next_hops inject_packet
  collect_next_hops s =
      let c = current s in
      if net.is_emulated c.pkt_location
      then inject_packet net c.pkt_location s
      else fib_lookup c.pkt_location c.fib >>= λ hops. some (with_next_hops hops s)

  unfoldable pub first_collect_step : State → Option State
  unfolding collect_next_hops
  first_collect_step s = collect_next_hops s >>= λ t. some (set_fwd_mode first_forward t)

  -- The candidate at the choice; `none` is the exception of `at` or a null pointer.
  unfoldable pub chosen : State → Option FibIpnh
  chosen s = (current s).candidates >>= λ cs. get_elem? cs s.choice

  unfoldable pub remember : FibIpnh → State → Option State
  unfolding add_choice
  remember h s =
      let c = current s in
      let add = add_choice c.dst_ip_ec c.pkt_location h c.path_choices >>= λ tbl.
      some (set_current (record c { path_choices = tbl }) s) in
      c.candidates >>= λ cs. if ltb 1 (length cs) then add else some s

  abbrev pub store_rx : Node → State → State
  store_rx n s =
      let c = current s in
      if is_first c.proto_state then set_current (record c { rx_node = n }) s else s

  -- The packet is delivered at its node, or moves to the next hop. Inconsistent endpoints are
  -- only logged.
  unfoldable pub move_to : FibIpnh → State → State
  move_to h s =
      let c = current s in
      if h.l3_node == c.pkt_location
      then set_choice_count 1 (set_fwd_mode accepted (store_rx c.pkt_location s))
      else let t =
          if net.is_emulated h.l3_node then set_executable 1 (store_rx h.l3_node s) else s in
        set_choice_count 1 (
          set_fwd_mode collect_nhops (
            set_current (record (current t) { pkt_location = h.l3_node; ingress_intf = h.l3_intf })
              t))

  unfoldable pub forward_packet_step : State → Option State
  unfolding chosen remember move_to
  forward_packet_step s = chosen s >>= λ h. remember h s >>= λ t. some (move_to h t)

  -- The source address, by the egress interface, or by the loopback where the packet stays.
  unfoldable pub egress_src_ip : FibIpnh → Node → Option IPv4Address
  egress_src_ip h n =
      if not (h.l2_intf == 0)
      then some (net.egress_addr h)
      else guard (h.l3_intf == 0 && h.l3_node == h.l2_node && h.l2_node == n) >>= λ _.
          net.loopback_addr n

  unfoldable pub first_forward_step : State → Option State
  unfolding forward_packet_step chosen egress_src_ip
  first_forward_step s =
      let c = current s in
      let updated = chosen s >>= λ h. egress_src_ip h c.pkt_location >>= λ ip.
      forward_packet_step (set_current (record c { src_ip = ip }) s) in
      if is_first c.proto_state && c.src_ip == 0 then updated else forward_packet_step s

  unfoldable pub number : Bool → State → State
  unfolding next_seq
  number change_direction s =
      let c = current s in
      if is_tcp c.proto_state
      then if change_direction
        then set_current (record c { seq = c.ack; ack = next_seq s }) s
        else set_current (record c { seq = next_seq s }) s
      else s

  -- `find_ec` without a class and a class without a range are errors.
  abbrev pub turn : Bool → State → Option State
  turn true s =
      let c = current s in
      net.representative_addr c.dst_ip_ec >>= λ ip. net.find_ec c.src_ip >>= λ ec. some (
        update_fib net (
          set_current
            (record c {
              src_ip = ip;
              dst_ip_ec = ec;
              src_node = c.pkt_location;
              src_port = c.dst_port;
              dst_port = c.src_port;
            })
            s))
  turn false s = let c = current s in some (set_current (record c { pkt_location = c.src_node }) s)

  abbrev pub restart : State → State
  restart s =
      let c = current s in
      set_current
        (record c {
          payload = net.get_payload_from_model s;
          fwd_mode = first_collect;
          ingress_intf = 0;
          candidates = none;
          inj_results = none;
        })
        s

  unfoldable pub phase_transition : ℕ → Bool → State → Option State
  unfolding number
  phase_transition next change_direction s =
      let c = current s in
      let new_src_node = if change_direction then c.pkt_location else c.src_node in
      if net.is_emulated new_src_node
      then some (set_executable 0 s)
      else let t = number change_direction s in
        turn change_direction (set_current (record (current t) { proto_state = next }) t) >>= λ u.
        some (restart u)

  -- The switch on the protocol state.
  unfoldable pub accepted_step : State → Option State
  unfolding phase_transition
  accepted_step s =
      let p = (current s).proto_state in
      if p == 1
      then phase_transition 2 true s
      else if p == 2
      then phase_transition 3 true s
      else if p == 3
      then phase_transition 4 false s
      else if p == 4
      then phase_transition 5 true s
      else if p == 5
      then phase_transition 6 false s
      else if p == 6
      then phase_transition 7 true s
      else if p == 7
      then if net.is_emulated (current s).pkt_location
        then phase_transition 8 false s
        else phase_transition 8 true s
      else if p == 8
      then phase_transition 9 true s
      else if p == 9
      then phase_transition 10 true s
      else if p == 10
      then some (set_executable 0 s)
      else if p == 11
      then phase_transition 12 true s
      else if p == 12
      then some (set_executable 0 s)
      else if p == 13
      then phase_transition 14 true s
      else if p == 14
      then some (set_executable 0 s)
      else none

  -- The switch on the forwarding mode.
  abbrev pub exec_mode : FwdMode → State → Option State
  exec_mode first_collect s = first_collect_step s
  exec_mode first_forward s = first_forward_step s
  exec_mode collect_nhops s = collect_next_hops s
  exec_mode choose_inj_res s = choose_injection_results s
  exec_mode forward_packet s = forward_packet_step s
  exec_mode accepted s = accepted_step s
  exec_mode dropped s = some (set_executable 0 s)

  unfoldable pub exec_step : State → Option State
  unfolding first_collect_step first_forward_step collect_next_hops forward_packet_step
      accepted_step choose_injection_results
  exec_step s = exec_mode (current s).fwd_mode s
