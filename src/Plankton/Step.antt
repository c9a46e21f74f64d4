-- ===== src/Plankton/Step.antt =====
-- src/plankton.cpp: `initialize`, `reinit` and `exec_step`, and the loop of src/network.pml that
-- calls them.
use neo.Base.{ℕ, Bool, true, false, List, Option, none, some, if◌then◌else◌, ◌≡◌, ◌<◌, ◌&&◌, ◌==◌}
use neo.Base.Partial.{◌>>=◌}
use neo.Ec.Range.{EcPtr}
use neo.Ec.Class.{EqClass}
use neo.Topology.{World}
use neo.Model.{Node, State, ProcessId, choose_conn, forwarding, openflow, current, set_choice_count}
use neo.Process.Interface.{Network}
use neo.Process.Injection.{init_hists}
use neo.Process.Forwarding
use neo.Process.ChooseConn
use neo.Process.Openflow
use neo.Process.Openflow.{Updates, has_updates}
use neo.Process.Switch.{set_process_id, collects, check_to_switch_process}
use neo.Invariant.Correlated.{Memory, Outcome}
use neo.Plankton.Checks.{Invariant, check_violation, init_inv, reinit_inv}

-- What stays the same while the process of a connection class runs.
pub record Plankton : Type 0 where
  pub network : Network
  pub world : World
  pub class_of : EcPtr → EqClass
  pub updates : Updates
  pub nodes : List Node
  pub inv : Invariant

-- The state of the search, with what the invariant's object remembers.
pub record Search : Type 0 where
  pub state : State
  pub memory : Memory

-- A signal has ended the process, an error has been logged or an exception thrown, or it goes on.
pub data Next : Type 0 where
  exited : Next
  failed : Next
  goes_on : Search → Next

abbrev pub returns : Option Search → Next
returns none = failed
returns (some x) = goes_on x

abbrev pub set_choice : ℕ → State → State
set_choice c s = record s { choice = c }

abbrev pub forwards_now : ProcessId → Bool
forwards_now forwarding = true
forwards_now _ = false

module _ (p : Plankton) where
  -- `ForwardingProcess::init` and `OpenflowProcess::init`.
  abbrev pub init_processes : State → State
  init_processes s = Openflow.init p.updates (init_hists p.network.is_emulated p.nodes s)

  -- The control state that a start leaves.
  abbrev pub start_control : State → State
  start_control s = set_choice_count 1 (set_choice 0 (set_process_id forwarding s))

  abbrev pub start_all : Search → Option Search
  start_all x =
      init_inv p.network.get_payload_from_model p.network.compute_fib p.inv x.memory
        (init_processes x.state)
      >>= λ r. some (record { state = start_control r.1; memory = r.0 })

  unfoldable pub initialize : Bool → Search → Next
  unfolding init_hists Openflow.init init_inv
  initialize terminate x = if terminate then exited else returns (start_all x)

  unfoldable pub reinit : Search → Option Search
  unfolding init_hists Openflow.init reinit_inv
  reinit x =
      reinit_inv p.network.get_payload_from_model p.network.compute_fib p.inv
        (init_processes x.state)
      >>= λ s. some (record x { state = start_control s })

  -- The switch on the process.
  abbrev pub exec_as : ProcessId → State → Option State
  exec_as choose_conn s = ChooseConn.exec_step s
  exec_as forwarding s = Forwarding.exec_step p.network s
  exec_as openflow s = Openflow.exec_step p.world p.network.is_emulated p.class_of p.updates s

  unfoldable pub exec_process : State → Option State
  unfolding Forwarding.exec_step ChooseConn.exec_step Openflow.exec_step
  exec_process s = exec_as s.process_id s

  -- Only the forwarding process asks for updates, where it collects next hops.
  abbrev pub asks_updates : State → Bool
  asks_updates s =
      (current s).executable == 2 && forwards_now s.process_id && collects (current s).fwd_mode

  unfoldable pub switch_process : State → Option State
  unfolding has_updates check_to_switch_process
  switch_process s =
      let asked = has_updates p.updates (current s).pkt_location s >>= λ b.
      some (check_to_switch_process (λ n. b) s) in
      if asks_updates s then asked else some (check_to_switch_process (λ n. false) s)

  abbrev pub after_check : Memory × Outcome → Option Search
  after_check r =
      let x : Search = record { state = r.1.state; memory = r.0 } in
      let again = reinit x in if r.1.reinit_dp then again else some x

  abbrev pub step_all : Search → Option Search
  step_all x = exec_process x.state >>= λ s.
      switch_process s >>= λ t. check_violation p.inv x.memory t >>= after_check

  -- A process that has been told to terminate exits before anything else.
  unfoldable pub exec_step : Bool → Search → Next
  unfolding exec_process switch_process check_violation reinit
  exec_step terminate x = if terminate then exited else returns (step_all x)

  abbrev pub choose : ℕ → Search → Search
  choose c x = record x { state = set_choice c x.state }

  -- The states of src/network.pml: a choice below the count is followed by a step.
  pub data Reachable (x : Search) : Search → Type 0 where
    start : {y : Search} → initialize false x ≡ goes_on y → Reachable x y
    next :
        {y z : Search} (c : ℕ)
        → Reachable x y
        → c < y.state.choice_count
        → exec_step false (choose c y) ≡ goes_on z
        → Reachable x z
