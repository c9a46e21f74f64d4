-- ===== src/Process/ChooseConn.antt =====
-- src/process/choose_conn.cpp: the process that chooses the next connection.
pub mod Progress
use neo.Base.{
  ℕ, zero, suc, Bool, true, false, not, ◌&&◌, ◌||◌, ltb, ◌==◌, List, [], ◌∷◌, ◌++◌, Option, none,
  some, get_elem?, length, if◌then◌else◌, ◌+◌, keep,
}
use neo.Base.Partial.{◌>>=◌, guard}
use neo.Proto.{is_last}
use neo.Model.{
  FwdMode, first_forward, forward_packet, accepted, dropped, ConnState, State, current,
  set_executable, set_fwd_mode, set_choice_count, set_conn,
}

abbrev pub is_dropped : FwdMode → Bool
is_dropped dropped = true
is_dropped _ = false

abbrev pub is_accepted : FwdMode → Bool
is_accepted accepted = true
is_accepted _ = false

abbrev pub forwards : FwdMode → Bool
forwards forward_packet = true
forwards first_forward = true
forwards _ = false

-- A connection that is dropped, or whose last packet is accepted.
abbrev pub is_over : ConnState → Bool
is_over c =
    (c.executable == 0 && is_dropped c.fwd_mode)
    || (c.executable == 0 && is_accepted c.fwd_mode && is_last c.proto_state)

-- One row of `get_conn_map`, of the connections before `n`, in their order.
unfoldable pub conn_row : ℕ → ℕ → State → List ℕ
conn_row exec zero s = []
conn_row exec (suc n) s =
    let before = conn_row exec n s in
    let c = s.conn_state n in
    if not (is_over c) && c.executable == exec then before ++ (n ∷ []) else before

-- The row of `get_conn_map` for an executable flag.
abbrev pub conn_map : ℕ → State → List ℕ
conn_map exec s = conn_row exec s.num_conns s

abbrev pub choice_count_of : List ℕ → List ℕ → List ℕ → ℕ
choice_count_of (x ∷ xs) ones zeros = 1
choice_count_of [] (x ∷ xs) zeros = length (x ∷ xs)
choice_count_of [] [] (x ∷ xs) = 1
choice_count_of [] [] [] = 0

unfoldable pub update_choice_count : State → State
unfolding conn_row
update_choice_count s =
    set_choice_count (choice_count_of (conn_map 2 s) (conn_map 1 s) (conn_map 0 s)) s

-- The first connection that waits for a packet is dropped.
abbrev pub drop_unless_over : State → State
drop_unless_over s =
    let c = current s in
    if not (is_dropped c.fwd_mode) && not (is_accepted c.fwd_mode && is_last c.proto_state)
    then set_fwd_mode dropped s
    else s

-- `none` is the failed assertion, an index past the row, or the logged error "No executable connection".
abbrev pub choose_from : List ℕ → List ℕ → List ℕ → State → Option State
choose_from (x ∷ xs) ones zeros s = guard (s.choice == 0) >>= λ _. some (set_conn x s)
choose_from [] (x ∷ xs) zeros s =
    get_elem? (x ∷ xs) s.choice >>= λ c. some (set_executable 2 (set_conn c s))
choose_from [] [] (x ∷ xs) s = guard (s.choice == 0) >>= λ _. some (drop_unless_over (set_conn x s))
choose_from [] [] [] s = none

abbrev pub count_choices : State → Option State
count_choices s =
    let c = current s in
    if forwards c.fwd_mode
    then (c.candidates >>= λ cs. some (set_choice_count (length cs) s))
    else some (set_choice_count 1 s)

unfoldable pub exec_step : State → Option State
unfolding conn_row
exec_step s = choose_from (conn_map 2 s) (conn_map 1 s) (conn_map 0 s) s >>= count_choices
