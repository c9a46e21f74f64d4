-- ===== src/Plankton/Tasks/Stale.antt =====
-- src/plankton.cpp: a child that exits before it is inserted into the tasks.
use neo.Base.{
  ℕ, Bool, true, false, ◌==◌, List, [], ◌∷◌, elem, if◌then◌else◌, ◌≡◌, ◌≢◌, ◌⊎◌, arith, refl, subst,
  sym, All, ==-refl,
}
use neo.Plankton.Tasks.{
  Pid, Point, deciding, forking, forked, filling, pausing, paused, filled, draining, pausing_last,
  paused_last, done, failed, Loop, Sup, Exit, is_empty, stop_all, kill_all_tasks, wake, reaped,
  reap, Signal, sigchld, sigusr1, sigterm, inv_sig_handler, on_signal, step,
}
use neo.Plankton.Tasks.Reaped.{elem-insert, elem-erase}

-- Signals that kill nothing and are not about the child.
abbrev pub Harmless : Pid → Exit → Type 0
Harmless p e = (e.abnormal ≡ false) × ((e.pid == p) ≡ false)

abbrev pub Calm : Bool → Pid → Signal → Type 0
Calm all_ecs p (sigchld es) = All (Harmless p) es
Calm all_ecs p (sigusr1 q) = all_ecs ≡ true
Calm all_ecs p sigterm = ⊥

-- A run with such signals, in which no other child gets the number of the first.
pub data CalmRun (all_ecs : Bool) (max_jobs : ℕ) (l : Loop) (p : Pid) (s : Sup) : Sup → Type 0 where
  here : CalmRun all_ecs max_jobs l p s s
  steps :
      {t : Sup} (child : Pid)
      → CalmRun all_ecs max_jobs l p s t
      → (child == p) ≡ false
      → CalmRun all_ecs max_jobs l p s (step all_ecs max_jobs l child t)
  signals :
      {t : Sup} (sig : Signal)
      → CalmRun all_ecs max_jobs l p s t
      → Calm all_ecs p sig
      → CalmRun all_ecs max_jobs l p s (on_signal all_ecs sig t)

abbrev Waits : Pid → Sup → Point → Type 0
Waits p s (forked q) = (q ≡ p) ⊎ (elem p s.tasks ≡ true)
Waits p s done = ⊥
Waits p s _ = elem p s.tasks ≡ true

-- The number is or will be in the tasks.
abbrev Stale : Pid → Sup → Type 0
Stale p s = (s.terminate ≡ false) × Waits p s s.point

empty-elem : (p : Pid) (ps : List Pid) → elem p ps ≡ true → is_empty ps ≡ false
empty-elem p [] h = absurd cc
empty-elem p (q ∷ ps) h = refl

step-Stale :
    (a : Bool) (max : ℕ) (l : Loop) (p c : Pid) (s : Sup) → Stale p s → Stale p (step a max l c s)
unfolding step
step-Stale a max l p c s h = by_point s.point h
  where
    by_point :
        (x : Point)
        → Stale p (record s { point = x })
        → Stale p (step a max l c (record s { point = x }))
    by_point deciding k = ground arith
    by_point forking k = ground arith
    by_point (forked q) k = ground (arith, elem-insert p q s.tasks, ==-refl p)
    by_point filling k = ground arith
    by_point pausing k = ground arith
    by_point paused k = ground arith
    by_point filled k = ground arith
    by_point draining k = ground (arith, empty-elem p s.tasks)
    by_point pausing_last k = ground arith
    by_point paused_last k = ground arith
    by_point done k = ground arith
    by_point failed k = ground arith

reaped-Stale : (p q : Pid) (s : Sup) → (q == p) ≡ false → Stale p s → Stale p (reaped q s)
reaped-Stale p q s d k = by_point s.point k
  where
    by_point :
        (x : Point) → Stale p (record s { point = x }) → Stale p (record (reaped q s) { point = x })
    by_point x k = ground (arith, elem-erase p q s.tasks)

reap-Stale :
    (p : Pid) (es : List Exit) (s : Sup) → All (Harmless p) es → Stale p s → Stale p (reap es s)
unfolding reap
reap-Stale p [] s h k = k
reap-Stale p (e ∷ es) s h k =
    subst (λ b. Stale p (if b then stop_all (reaped e.pid s) else reap es (reaped e.pid s)))
      (sym h.0.0) (reap-Stale p es (reaped e.pid s) h.1 (reaped-Stale p e.pid s h.0.1 k))

wake-Stale : (a : Bool) (p : Pid) (s : Sup) → Stale p s → Stale p (wake a s)
wake-Stale a p s k = ground arith

signal-Stale :
    (a : Bool) (p : Pid) (sig : Signal) (s : Sup)
    → Calm a p sig
    → Stale p s
    → Stale p (on_signal a sig s)
unfolding on_signal inv_sig_handler
signal-Stale a p (sigchld es) s c k = wake-Stale a p (reap es s) (reap-Stale p es s c k)
signal-Stale a p (sigusr1 q) s c k =
    let t = record s { violated = true } in
    subst (λ b. Stale p (wake a (if b then t else kill_all_tasks t))) (sym c) (wake-Stale a p t k)
signal-Stale a p sigterm s c k = elim c [ ]

CalmRun-Stale :
    (a : Bool) (max : ℕ) (l : Loop) (p : Pid) (s : Sup) {t : Sup}
    → Stale p s
    → CalmRun a max l p s t
    → Stale p t
CalmRun-Stale a max l p s h here = h
CalmRun-Stale a max l p s h (steps {t} c r _) =
    step-Stale a max l p c t (CalmRun-Stale a max l p s h r)
CalmRun-Stale a max l p s h (signals {t} sig r c) =
    signal-Stale a p sig t c (CalmRun-Stale a max l p s h r)

not_done : (p : Pid) (s : Sup) → Stale p s → s.point ≢ done
not_done p s h e = ground arith

exits_first :
    (a : Bool) (p : Pid) (s : Sup)
    → s.point ≡ forked p
    → s.terminate ≡ false
    → Stale p (on_signal a (sigchld (record { pid = p; abnormal = false } ∷ [])) s)
unfolding on_signal inv_sig_handler reap
exits_first a p s e h = ground arith

known : (p : Pid) (s : Sup) → Stale p s → (s.point ≡ forked p) ⊎ (elem p s.tasks ≡ true)
known p s h = by_point s.point h.1
  where
    by_point : (x : Point) → Waits p s x → (x ≡ forked p) ⊎ (elem p s.tasks ≡ true)
    by_point x k = ground arith

-- A child exits and is waited for between `fork` and its insertion, where the loop was not told to
-- terminate. After that no signal kills the tasks and none says that a child of this number has exited,
-- no other child gets the number, and no `fork` fails. Then the number stays in the tasks once it is
-- inserted, and the loop never ends.
pub early_exit-stuck :
    (a : Bool) (max : ℕ) (l : Loop) (p : Pid) (s t : Sup)
    → s.point ≡ forked p
    → s.terminate ≡ false
    → CalmRun a max l p (on_signal a (sigchld (record { pid = p; abnormal = false } ∷ [])) s) t
    → (t.point ≢ done) × ((t.point ≡ forked p) ⊎ (elem p t.tasks ≡ true))
early_exit-stuck a max l p s t e h r =
    let stale = CalmRun-Stale a max l p _ (exits_first a p s e h) r in
    (not_done p t stale, known p t stale)
