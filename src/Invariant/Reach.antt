-- ===== src/Invariant/Reach.antt =====
-- src/invariant/reachability.cpp, reply-reachability.cpp, waypoint.cpp: the checks that ask which
-- nodes a packet meets. The target nodes are the test `targets`.
pub mod Verdicts
use neo.Base.{ℕ, zero, suc, Bool, true, false, not, ◌&&◌, ◌||◌, ltb, ◌==◌, if◌then◌else◌}
use neo.Proto.{is_request, req_ack_or_rep, is_tcp, is_udp, is_icmp_echo, is_reply}
use neo.Model.{
  Node, FwdMode, first_forward, collect_nhops, ConnState, State, current, set_violated,
  set_choice_count,
}
use neo.Process.ChooseConn.{is_dropped, is_accepted}

abbrev pub is_first_forward : FwdMode → Bool
is_first_forward first_forward = true
is_first_forward _ = false

abbrev pub is_collect_nhops : FwdMode → Bool
is_collect_nhops collect_nhops = true
is_collect_nhops _ = false

abbrev pub request_is_accepted : ConnState → Bool
request_is_accepted c =
    (is_accepted c.fwd_mode && is_request c.proto_state)
    || (is_first_forward c.fwd_mode && req_ack_or_rep c.proto_state)

-- Some connection before `n` other than the current one is executable.
unfoldable pub other_executable : ℕ → State → Bool
other_executable zero s = false
other_executable (suc n) s =
    other_executable n s || (not (n == s.conn) && ltb 0 (s.conn_state n).executable)

abbrev pub other_executable_conns_exist : State → Bool
other_executable_conns_exist s = other_executable s.num_conns s

-- `!=` on Booleans.
abbrev pub differs : Bool → Bool → Bool
differs true b = not b
differs false b = b

-- The exploration of the path ends with a verdict.
abbrev pub conclude : Bool → State → State
conclude v s = set_choice_count 0 (set_violated v s)

module _ (reachable : Bool) (targets : Node → Bool) where
  unfoldable pub reachability : State → State
  unfolding other_executable
  reachability s =
      let c = current s in
      if request_is_accepted c && targets c.rx_node
      then conclude (differs reachable true) s
      else if (request_is_accepted c || is_dropped c.fwd_mode)
          && not (other_executable_conns_exist s)
      then conclude (differs reachable false) s
      else s

  -- The packet belongs to the request or to the construction of the session.
  abbrev pub before_reply : ℕ → Bool
  before_reply p = (is_tcp p && ltb p 6) || (is_udp p && ltb p 12) || (is_icmp_echo p && ltb p 14)

  unfoldable pub reply_reachability : State → State
  unfolding other_executable
  reply_reachability s =
      let c = current s in
      if before_reply c.proto_state
      then if ((request_is_accepted c && not (targets c.rx_node)) || is_dropped c.fwd_mode)
          && not (other_executable_conns_exist s)
        then conclude reachable s
        else s
      else if is_reply c.proto_state
      then if is_accepted c.fwd_mode && c.pkt_location == c.tx_node
        then conclude (differs reachable true) s
        else if ((is_accepted c.fwd_mode && not (c.pkt_location == c.tx_node))
              || is_dropped c.fwd_mode)
            && not (other_executable_conns_exist s)
        then conclude (differs reachable false) s
        else s
      else s

  -- `pass_through` stands for `reachable` here.
  unfoldable pub waypoint : State → State
  waypoint s =
      let c = current s in
      if is_collect_nhops c.fwd_mode
      then if targets c.pkt_location then conclude (not reachable) s else s
      else s
