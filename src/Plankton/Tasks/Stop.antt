-- ===== src/Plankton/Tasks/Stop.antt =====
-- src/plankton.cpp: how the loops end after a violation or a signal to terminate.
use neo.Base.{
  ℕ, zero, suc, Bool, true, false, List, [], ◌∷◌, ◌≡◌, ◌≤◌, ◌<◌, ◌+◌, ◌⊎◌, arith, refl, Bool-cases,
  inl, inr,
}
use neo.Plankton.Tasks.{
  Pid, Point, deciding, forking, forked, filling, pausing, paused, filled, draining, pausing_last,
  paused_last, done, failed, Loop, run, verify_invariant, Sup, Exit, reaped, reap, Signal, sigchld,
  sigusr1, sigterm, inv_sig_handler, on_signal, step, Run, here, steps, fails, signals,
}

-- The loop was told to terminate, or `verify_invariant` has seen a violation and stops at the first.
abbrev pub Stopped : Bool → Loop → Sup → Type 0
Stopped all_ecs (run b) s = s.terminate ≡ true
Stopped all_ecs verify_invariant s =
    (s.terminate ≡ true) ⊎ ((s.violated ≡ true) × (all_ecs ≡ false))

-- The forks that are past the test of the loop. `run` does not test before a fork.
abbrev pub pending : Loop → Point → ℕ
pending l forking = 1
pending (run b) deciding = 1
pending l _ = 0

abbrev Later : Bool → Loop → Sup → Sup → Type 0
Later a l s t = Stopped a l t × (t.forks + pending l t.point ≤ s.forks + pending l s.point)

step-Later :
    (a : Bool) (max : ℕ) (l : Loop) (c : Pid) (s : Sup)
    → Stopped a l s
    → Later a l s (step a max l c s)
unfolding step
step-Later a max (run b) c s h = ground arith
step-Later a max verify_invariant c s h = ground arith

abbrev Raised : Sup → Sup → Type 0
Raised s t =
    (t.forks ≡ s.forks)
    × (t.point ≡ s.point)
    × (s.terminate ≡ true → t.terminate ≡ true)
    × (s.violated ≡ true → t.violated ≡ true)

reap-Raised : (es : List Exit) (s : Sup) → Raised s (reap es s)
unfolding reap
reap-Raised [] s = (refl, refl, λ h. h, λ h. h)
reap-Raised (e ∷ es) s = ground (arith, reap-Raised es (reaped e.pid s))

handler-Raised : (a : Bool) (sig : Signal) (s : Sup) → Raised s (inv_sig_handler a sig s)
unfolding inv_sig_handler
handler-Raised a (sigchld es) s = reap-Raised es s
handler-Raised a (sigusr1 p) s = ground arith
handler-Raised a sigterm s = ground arith

signal-Later :
    (a : Bool) (l : Loop) (sig : Signal) (s : Sup) → Stopped a l s → Later a l s (on_signal a sig s)
unfolding on_signal
signal-Later a (run b) sig s h = ground (arith, handler-Raised a sig s)
signal-Later a verify_invariant sig s h = ground (arith, handler-Raised a sig s)

Run-Later :
    (a : Bool) (max : ℕ) (l : Loop) (s : Sup) {t : Sup}
    → Stopped a l s
    → Run a max l s t
    → Later a l s t
Run-Later a max l s h here = (h, omega arith)
Run-Later a max l s h (steps {t} c r _ _) =
    let (st, le) = Run-Later a max l s h r in
    let (st', le') = step-Later a max l c t st in (st', omega (arith, le, le'))
Run-Later a max l s h (fails {t} r e) =
    let (st, le) = Run-Later a max l s h r in (same l t st, lower l t le)
  where
    same : (l : Loop) (t : Sup) → Stopped a l t → Stopped a l (record t { point = failed })
    same (run b) t st = st
    same verify_invariant t st = st

    lower :
        (l : Loop) (t : Sup)
        → t.forks + pending l t.point ≤ s.forks + pending l s.point
        → t.forks + pending l failed ≤ s.forks + pending l s.point
    lower (run b) t le = omega (arith, le)
    lower verify_invariant t le = omega (arith, le)
Run-Later a max l s h (signals {t} sig r) =
    let (st, le) = Run-Later a max l s h r in
    let (st', le') = signal-Later a l sig t st in (st', omega (arith, le, le'))

-- Once the loop is told to terminate, or a violation is seen and not all classes are asked for, no
-- further task is forked, but for one whose test is already passed, whatever signals come.
pub no_more_forks :
    (a : Bool) (max : ℕ) (l : Loop) (s t : Sup)
    → Stopped a l s
    → Run a max l s t
    → t.forks ≤ s.forks + pending l s.point
no_more_forks a max l s t h r = let (_, le) = Run-Later a max l s h r in omega (arith, le)

abbrev pub repeat : ℕ → (Sup → Sup) → Sup → Sup
repeat zero f s = s
repeat (suc n) f s = repeat n f (f s)

abbrev pub Ends : Point → Type 0
Ends p = (p ≡ done) ⊎ (p ≡ failed)

-- How many steps are left once the loop is told to terminate, outside of a `pause`.
abbrev steps_left : Loop → Point → ℕ
steps_left (run b) deciding = 7
steps_left verify_invariant deciding = 2
steps_left l forking = 6
steps_left l (forked p) = 5
steps_left l filling = 4
steps_left l filled = 3
steps_left l draining = 1
steps_left l done = 0
steps_left l failed = 0
steps_left l _ = 8

step-steps_left :
    (a : Bool) (max : ℕ) (l : Loop) (c : Pid) (s : Sup) (n : ℕ)
    → s.terminate ≡ true
    → steps_left l s.point ≤ suc n
    → n < 7
    → ((step a max l c s).terminate ≡ true) × (steps_left l (step a max l c s).point ≤ n)
unfolding step
step-steps_left a max (run b) c s n t le lt = ground arith
step-steps_left a max verify_invariant c s n t le lt = ground arith

repeat-Ends :
    (a : Bool) (max : ℕ) (l : Loop) (c : Pid) (n : ℕ) (s : Sup)
    → s.terminate ≡ true
    → steps_left l s.point ≤ n
    → n ≤ 7
    → Ends (repeat n (step a max l c) s).point
repeat-Ends a max (run b) c zero s t le lt = ground arith
repeat-Ends a max verify_invariant c zero s t le lt = ground arith
repeat-Ends a max l c (suc n) s t le lt =
    let (t', le') = step-steps_left a max l c s n t le (omega (arith, lt)) in
    repeat-Ends a max l c n (step a max l c s) t' le' (omega (arith, lt))

-- The loop has made the test for a `pause` and not called it yet.
abbrev pub is_pausing : Point → Bool
is_pausing pausing = true
is_pausing pausing_last = true
is_pausing _ = false

abbrev pub IsPaused : Point → Type 0
IsPaused p = (p ≡ paused) ⊎ (p ≡ paused_last)

signal-steps_left :
    (a : Bool) (l : Loop) (s : Sup)
    → is_pausing s.point ≡ false
    → ((on_signal a sigterm s).terminate ≡ true) × (steps_left l (on_signal a sigterm s).point ≤ 7)
unfolding on_signal inv_sig_handler
signal-steps_left a (run b) s e = ground arith
signal-steps_left a verify_invariant s e = ground arith

step-IsPaused :
    (a : Bool) (max : ℕ) (l : Loop) (c : Pid) (s : Sup)
    → IsPaused s.point
    → IsPaused (step a max l c s).point
unfolding step
step-IsPaused a max l c s h = ground arith

step-Ends :
    (a : Bool) (max : ℕ) (l : Loop) (c : Pid) (s : Sup)
    → Ends s.point
    → Ends (step a max l c s).point
unfolding step
step-Ends a max l c s h = ground arith

repeat-keeps :
    (P : Sup → Type 0) (f : Sup → Sup)
    → ((s : Sup) → P s → P (f s))
    → (n : ℕ) (s : Sup) → P s
    → P (repeat n f s)
repeat-keeps P f k zero s h = h
repeat-keeps P f k (suc n) s h = repeat-keeps P f k n (f s) (k s h)

lost-IsPaused :
    (a : Bool) (max : ℕ) (l : Loop) (c : Pid) (s : Sup)
    → is_pausing s.point ≡ true
    → IsPaused (step a max l c (on_signal a sigterm s)).point
unfolding step on_signal inv_sig_handler
lost-IsPaused a max l c s e = ground arith

-- A signal tells the loop to terminate, and no other signal comes. If it stands between the test for a
-- `pause` and the `pause`, it is in the `pause` after seven steps of its own and any number of further
-- ones. Wherever else it stands, in a `pause` or not, it has ended by then.
pub sigterm-Ends :
    (a : Bool) (max : ℕ) (l : Loop) (c : Pid) (n : ℕ) (s : Sup)
    → ((is_pausing s.point ≡ false)
        × Ends
            (repeat n (step a max l c) (repeat 7 (step a max l c) (on_signal a sigterm s))).point)
      ⊎ ((is_pausing s.point ≡ true)
          × IsPaused
              (repeat n (step a max l c) (repeat 7 (step a max l c) (on_signal a sigterm s))).point)
sigterm-Ends a max l c n s = elim (Bool-cases (is_pausing s.point)) [
  | inl e ↦
      let f = step a max l c in
      let kept = repeat-keeps (λ t. IsPaused t.point) f (step-IsPaused a max l c) in
      inr (e, kept n _ (kept 6 (f (on_signal a sigterm s)) (lost-IsPaused a max l c s e)))
  | inr e ↦
      let (t, le) = signal-steps_left a l s e in
      let ended = repeat-Ends a max l c 7 (on_signal a sigterm s) t le (omega arith) in
      inl (e, repeat-keeps (λ t. Ends t.point) (step a max l c) (step-Ends a max l c) n _ ended)
]
