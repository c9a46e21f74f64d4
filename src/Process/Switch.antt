-- ===== src/Process/Switch.antt =====
-- src/plankton.cpp: `check_to_switch_process`, which hands the next step to a process.
use neo.Base.{Bool, true, false, not, ◌&&◌, ◌==◌, if◌then◌else◌}
use neo.Model.{
  Node, FwdMode, first_collect, collect_nhops, ProcessId, choose_conn, forwarding, openflow, State,
  current, set_choice_count,
}
use neo.Process.ChooseConn.{update_choice_count}

abbrev pub collects : FwdMode → Bool
collects collect_nhops = true
collects first_collect = true
collects _ = false

abbrev pub set_process_id : ProcessId → State → State
set_process_id p s = record s { process_id = p }

-- The flag 2 is executable, 1 about to enter a middlebox, 0 without a packet or terminated.
unfoldable pub check_to_switch_process : (Node → Bool) → State → State
unfolding update_choice_count
check_to_switch_process has_updates s =
    let c = current s in
    if not (c.executable == 2)
    then update_choice_count (set_process_id choose_conn s)
    else elim s.process_id [
      | choose_conn ↦ set_process_id forwarding s
      | forwarding ↦
          if collects c.fwd_mode && has_updates c.pkt_location
          then set_choice_count 2 (set_process_id openflow s)
          else s
      | openflow ↦ if s.choice_count == 1 then set_process_id forwarding s else s
    ]
