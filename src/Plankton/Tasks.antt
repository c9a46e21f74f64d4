-- ===== src/Plankton/Tasks.antt =====
-- src/plankton.cpp: the tasks that `run` and `verify_invariant` fork, and the handler of the signals.
pub mod Jobs
pub mod Reaped
pub mod Stop
pub mod Stale
use neo.Base.{
  ℕ, zero, suc, Bool, true, false, not, ◌&&◌, ◌||◌, ◌==◌, ltb, leb, List, [], ◌∷◌, length, keep,
  elem, if◌then◌else◌, ◌≡◌, ◌<◌, ◌-◌, ◌+◌, All,
}

abbrev pub Pid : Type 0
Pid = ℕ

-- Where the loop stands: before its test, before `fork`, before the insertion of the child, before
-- the test of a `pause`, past the test and before that `pause`, in it, past the loop around it, and the
-- same for the loop that waits for the last tasks. A signal may come at any of these, and only one
-- that comes in a `pause` ends it.
pub data Point : Type 0 where
  deciding : Point
  forking : Point
  forked : Pid → Point
  filling : Point
  pausing : Point
  paused : Point
  filled : Point
  draining : Point
  pausing_last : Point
  paused_last : Point
  done : Point
  failed : Point

-- `run` forks a task for each invariant, `verify_invariant` one for each combination of connections.
pub data Loop : Type 0 where
  run : (parallel_invs : Bool) → Loop
  verify_invariant : Loop

-- `children` are the processes that have been forked and not waited for, `left` is how many times
-- the loop's source has another task, and `forks` counts the calls of `fork`.
pub record Sup : Type 0 where
  pub violated : Bool
  pub terminate : Bool
  pub tasks : List Pid
  pub children : List Pid
  pub left : ℕ
  pub forks : ℕ
  pub point : Point

abbrev pub erase : Pid → List Pid → List Pid
erase p ps = keep (λ q. not (p == q)) ps

abbrev pub insert : Pid → List Pid → List Pid
insert p ps = if elem p ps then ps else p ∷ ps

abbrev pub is_empty : List Pid → Bool
is_empty [] = true
is_empty (p ∷ ps) = false

-- `kill_all_tasks` returns when there are no children left.
abbrev pub kill_all_tasks : Sup → Sup
kill_all_tasks s = record s { tasks = []; children = [] }

-- The processes that `kill_all_tasks` signals.
abbrev pub killed : Pid → Sup → List Pid
killed exclude_pid s = if exclude_pid == 0 then s.tasks else erase exclude_pid s.tasks

abbrev pub stop_all : Sup → Sup
stop_all s = record (kill_all_tasks s) { terminate = true }

-- The children that `waitpid` returns, and whether one exited with another status than 0.
pub record Exit : Type 0 where
  pub pid : Pid
  pub abnormal : Bool

abbrev pub reaped : Pid → Sup → Sup
reaped p s = record s { tasks = erase p s.tasks; children = erase p s.children }

-- After an abnormal exit there is no child left to wait for.
unfoldable pub reap : List Exit → Sup → Sup
reap [] s = s
reap (e ∷ es) s =
    let rest = reap es (reaped e.pid s) in if e.abnormal then stop_all (reaped e.pid s) else rest

pub data Signal : Type 0 where
  sigchld : List Exit → Signal
  sigusr1 : Pid → Signal
  sigterm : Signal

module _ (all_ecs : Bool) where
  -- The last clause is that of SIGHUP, SIGINT and SIGQUIT, too.
  unfoldable pub inv_sig_handler : Signal → Sup → Sup
  unfolding reap
  inv_sig_handler (sigchld es) s = reap es s
  inv_sig_handler (sigusr1 p) s =
      let t = record s { violated = true } in if all_ecs then t else kill_all_tasks t
  inv_sig_handler sigterm s = stop_all s

  -- A signal that is handled ends a `pause`.
  abbrev pub wake : Sup → Sup
  wake s = elim s.point [
    | paused ↦ record s { point = filling }
    | paused_last ↦ record s { point = draining }
    | _ ↦ s
  ]

  unfoldable pub on_signal : Signal → Sup → Sup
  unfolding inv_sig_handler
  on_signal sig s = wake (inv_sig_handler sig s)

module _ (all_ecs : Bool) (max_jobs : ℕ) where
  -- The test of the loop, before the source is asked.
  abbrev pub may_go_on : Loop → Sup → Bool
  may_go_on (run b) s = true
  may_go_on verify_invariant s = (not s.violated || all_ecs) && not s.terminate

  abbrev pub is_full : Loop → Sup → Bool
  is_full (run parallel_invs) s =
      (not parallel_invs && not (is_empty s.tasks))
      || (parallel_invs && leb max_jobs (length s.tasks))
  is_full verify_invariant s = leb max_jobs (length s.tasks)

  -- The end of the body: `run` leaves the loop where it has been told to terminate.
  abbrev pub leaves : Loop → Sup → Bool
  leaves (run b) s = s.terminate
  leaves verify_invariant s = false

  -- The steps of the process itself, where `fork` is given the child.
  unfoldable pub step : Loop → Pid → Sup → Sup
  step l child s = elim s.point [
    | deciding ↦
        if may_go_on l s && ltb 0 s.left
        then record s { left = s.left - 1; point = forking }
        else record s { point = draining }
    | forking ↦ record s {
      children = child ∷ s.children;
      forks = suc s.forks;
      point = forked child;
    }
    | forked p ↦ record s { tasks = insert p s.tasks; point = filling }
    | filling ↦
        if is_full l s && not s.terminate
        then record s { point = pausing }
        else record s { point = filled }
    | pausing ↦ record s { point = paused }
    | paused ↦ s
    | filled ↦ if leaves l s then record s { point = draining } else record s { point = deciding }
    | draining ↦
        if not (is_empty s.tasks) && not s.terminate
        then record s { point = pausing_last }
        else record s { point = done }
    | pausing_last ↦ record s { point = paused_last }
    | paused_last ↦ s
    | done ↦ s
    | failed ↦ s
  ]

  -- `verify_invariant` and `run` begin without tasks.
  abbrev pub begin : ℕ → Bool → Sup
  begin n terminate = record {
    violated = false;
    terminate = terminate;
    tasks = [];
    children = [];
    left = n;
    forks = 0;
    point = deciding;
  }

  -- The process and its signals, in any order. A child that exits is one of the children, and a new
  -- child is none of those and not 0. `fork` may fail, which is a logged error.
  pub data Run (l : Loop) (s : Sup) : Sup → Type 0 where
    here : Run l s s
    steps :
        {t : Sup} (child : Pid)
        → Run l s t
        → 0 < child
        → elem child t.children ≡ false
        → Run l s (step l child t)
    fails : {t : Sup} → Run l s t → t.point ≡ forking → Run l s (record t { point = failed })
    signals : {t : Sup} (sig : Signal) → Run l s t → Run l s (on_signal all_ecs sig t)
