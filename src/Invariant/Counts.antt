-- ===== src/Invariant/Counts.antt =====
-- src/reachcounts.cpp and src/invariant/one-request.cpp: the requests that each node has received.
pub mod Totals
use neo.Base.{ℕ, suc, Bool, true, false, ◌&&◌, ltb, ◌==◌, List, [], ◌∷◌, if◌then◌else◌, ◌+◌}
use neo.Proto.{is_request}
use neo.Model.{
  Node, CountEntry, State, current, set_executable, set_violated, set_choice_count,
  set_reach_counts,
}
use neo.Process.ChooseConn.{is_accepted}

abbrev pub ReachCounts : Type 0
ReachCounts = List CountEntry

-- `operator[]`: 0 for a node that is not in the map.
unfoldable pub count_at : ReachCounts → Node → ℕ
count_at [] n = 0
count_at (e ∷ es) n = let rest = count_at es n in if n == e.node then e.count else rest

unfoldable pub total_counts : ReachCounts → ℕ
total_counts [] = 0
total_counts (e ∷ es) = e.count + total_counts es

unfoldable pub increase : Node → ReachCounts → ReachCounts
increase n [] = record { node = n; count = 1 } ∷ []
increase n (e ∷ es) =
    let rest = increase n es in
    if n == e.node then record { node = e.node; count = suc e.count } ∷ es else e ∷ rest

-- `OneRequest::init` after the connections are set up.
abbrev pub one_request_init : State → State
one_request_init s = set_reach_counts [] (set_violated true s)

unfoldable pub one_request : (Node → Bool) → State → State
unfolding increase total_counts
one_request targets s =
    let c = current s in
    let counts = increase c.rx_node s.reach_counts in
    let t = if ltb 1 (total_counts counts) then set_choice_count 0 (set_violated true s) else s in
    if is_accepted c.fwd_mode && is_request c.proto_state
    then if targets c.rx_node then set_executable 0 (set_reach_counts counts t) else s
    else s
