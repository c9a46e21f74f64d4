-- ===== src/Plankton/Checks.antt =====
-- src/invariant/*.cpp, src/configparser.cpp: an invariant as one object, how it starts on the state
-- (`init`, `reinit`) and how it is checked (`check_violation`).
use neo.Base.{
  Bool, true, false, List, [], Option, none, some, length, get_elem?, if◌then◌else◌, ◌&&◌,
}
use neo.Base.Partial.{◌>>=◌}
use neo.Proto.{is_first}
use neo.Model.{
  Node, FibEntry, State, current, set_violated, set_choice_count, set_reach_counts, set_executable,
}
use neo.Payload.{Payload}
use neo.Process.ChooseConn.{is_accepted}
use neo.Conn.Connection.{Connection, init_conns}
use neo.Invariant.Reach.{reachability, reply_reachability, waypoint}
use neo.Invariant.Loop.{loop}
use neo.Invariant.Counts.{ReachCounts, increase, one_request_init, one_request}
use neo.Invariant.Correlated.{
  Outcome, pol_null, set_correlated_inv_idx, after_conditional, Memory, after_consistency,
}

-- The classes of invariants that have no sub-invariants. The dispersion index is computed with
-- floating-point numbers: `disperses` tells of the counts whether it is above the maximum.
pub data Kind : Type 0 where
  reachability_inv : (Node → Bool) → Bool → Kind
  reply_reachability_inv : (Node → Bool) → Bool → Kind
  waypoint_inv : (Node → Bool) → Bool → Kind
  loop_inv : Kind
  one_request_inv : (Node → Bool) → Kind
  loadbalance_inv : (Node → Bool) → (ReachCounts → Bool) → Kind

-- With the connections that `set_conns` has set.
pub record Single : Type 0 where
  pub kind : Kind
  pub conns : List Connection

pub data Invariant : Type 0 where
  single : Single → Invariant
  conditional_inv : List Single → Invariant
  consistency_inv : List Single → Invariant

-- `LoadBalance::check_violation`.
unfoldable pub loadbalance : (Node → Bool) → (ReachCounts → Bool) → State → State
unfolding increase
loadbalance targets disperses s =
    let c = current s in
    let counts = increase c.rx_node s.reach_counts in
    let t =
      if targets c.rx_node && disperses counts
      then set_choice_count 0 (set_violated true s)
      else s in
    if is_accepted c.fwd_mode && is_first c.proto_state
    then set_executable 0 (set_reach_counts counts t)
    else s

-- `check_violation` of an invariant without sub-invariants; `none` is a logged error.
unfoldable pub check_single : Single → State → Option State
unfolding reachability reply_reachability waypoint loop one_request loadbalance
check_single i s = elim i.kind [
  | reachability_inv ts r ↦ some (reachability r ts s)
  | reply_reachability_inv ts r ↦ some (reply_reachability r ts s)
  | waypoint_inv ts p ↦ some (waypoint p ts s)
  | loop_inv ↦ loop s
  | one_request_inv ts ↦ some (one_request ts s)
  | loadbalance_inv ts d ↦ some (loadbalance ts d s)
]

-- What an `init` sets once the connections are set up.
abbrev pub set_up : Kind → State → State
set_up (one_request_inv ts) s = one_request_init s
set_up (loadbalance_inv ts d) s = set_reach_counts [] (set_violated false s)
set_up _ s = set_violated false s

-- The sub-invariant at the index; `none` is undefined behaviour.
abbrev pub sub_at : List Single → State → Option Single
sub_at subs s = get_elem? subs s.correlated_inv_idx

abbrev fresh : Memory → Memory
fresh m = record m { unset = true }

-- `check_violation`.
unfoldable pub check_violation : Invariant → Memory → State → Option (Memory × Outcome)
unfolding check_single
check_violation (single i) m s = check_single i s >>= λ t. some (m, pol_null t)
check_violation (conditional_inv subs) m s =
    sub_at subs s >>= λ i. check_single i s >>= λ t. some (m, after_conditional (length subs) t)
check_violation (consistency_inv subs) m s =
    sub_at subs s >>= λ i. check_single i s >>= λ t. some (after_consistency (length subs) m t)

module _ (get_payload_from_model : State → Payload) (compute_fib : State → List FibEntry) where
  -- `init` of an invariant without sub-invariants.
  unfoldable pub init_single : Single → State → State
  unfolding init_conns
  init_single i s = set_up i.kind (init_conns get_payload_from_model compute_fib i.conns s)

  abbrev pub init_sub : List Single → State → Option State
  init_sub subs s = sub_at subs s >>= λ i. some (init_single i s)

  unfoldable pub init_inv : Invariant → Memory → State → Option (Memory × State)
  unfolding init_single
  init_inv (single i) m s = some (m, init_single i s)
  init_inv (conditional_inv subs) m s =
      init_sub subs (set_correlated_inv_idx 0 s) >>= λ t. some (m, t)
  init_inv (consistency_inv subs) m s =
      init_sub subs (set_correlated_inv_idx 0 s) >>= λ t. some (fresh m, t)

  -- An invariant without sub-invariants logs an error.
  unfoldable pub reinit_inv : Invariant → State → Option State
  unfolding init_single
  reinit_inv (single i) s = none
  reinit_inv (conditional_inv subs) s = init_sub subs s
  reinit_inv (consistency_inv subs) s = init_sub subs s
