-- ===== src/Plankton/Tasks/Jobs.antt =====
-- src/plankton.cpp: how many tasks there are.
use neo.Base.{
  ℕ, Bool, true, false, not, ◌==◌, List, [], ◌∷◌, length, keep, ◌≡◌, ◌<◌, ◌≤◌, ◌⊎◌, inl, arith,
  refl,
}
use neo.Plankton.Tasks.{
  Pid, Point, deciding, forking, forked, filled, Loop, run, verify_invariant, Sup, Exit, reaped,
  reap, Signal, sigchld, sigusr1, sigterm, inv_sig_handler, on_signal, step, begin, Run, here,
  steps, fails, signals,
}

length-keep {ℓ} : {A : Type ℓ} (p : A → Bool) (xs : List A) → length (keep p xs) ≤ length xs
length-keep p [] = omega arith
length-keep p (x ∷ xs) = ground (arith, length-keep p xs)

-- The same point but for a `pause` that ends, and no more tasks.
abbrev pub Shrinks : Sup → Sup → Type 0
Shrinks s t =
    (length t.tasks ≤ length s.tasks)
    × (t.point ≡ s.point)
    × (s.terminate ≡ true → t.terminate ≡ true)

reap-Shrinks : (es : List Exit) (s : Sup) → Shrinks s (reap es s)
unfolding reap
reap-Shrinks [] s = (omega arith, refl, λ h. h)
reap-Shrinks (e ∷ es) s =
    ground (arith, length-keep (λ q. not (e.pid == q)) s.tasks, reap-Shrinks es (reaped e.pid s))

pub handler-Shrinks :
    (all_ecs : Bool) (sig : Signal) (s : Sup) → Shrinks s (inv_sig_handler all_ecs sig s)
unfolding inv_sig_handler
handler-Shrinks a (sigchld es) s = reap-Shrinks es s
handler-Shrinks a (sigusr1 p) s = ground arith
handler-Shrinks a sigterm s = ground arith

-- How many tasks a loop may have.
abbrev pub limit : ℕ → Loop → ℕ
limit max_jobs (run true) = max_jobs
limit max_jobs (run false) = 1
limit max_jobs verify_invariant = max_jobs

abbrev stops : Loop → Sup → Bool
stops (run b) s = false
stops verify_invariant s = s.terminate

-- There is room for a task where one is about to be forked.
abbrev Room : ℕ → Loop → Sup → Point → Type 0
Room max l s deciding = (length s.tasks < limit max l) ⊎ (stops l s ≡ true)
Room max l s forking = length s.tasks < limit max l
Room max l s (forked p) = length s.tasks < limit max l
Room max l s filled = (length s.tasks < limit max l) ⊎ (s.terminate ≡ true)
Room max l s _ = Unit

abbrev Fits : ℕ → Loop → Sup → Type 0
Fits max l s = (length s.tasks ≤ limit max l) × Room max l s s.point

step-Fits :
    (a : Bool) (max : ℕ) (l : Loop) (c : Pid) (s : Sup)
    → 0 < max
    → Fits max l s
    → Fits max l (step a max l c s)
unfolding step
step-Fits a max (run true) c s z h = ground arith
step-Fits a max (run false) c s z h = ground arith
step-Fits a max verify_invariant c s z h = ground arith

signal-Fits :
    (a : Bool) (max : ℕ) (l : Loop) (sig : Signal) (s : Sup)
    → Fits max l s
    → Fits max l (on_signal a sig s)
unfolding on_signal
signal-Fits a max (run b) sig s h = ground (arith, handler-Shrinks a sig s)
signal-Fits a max verify_invariant sig s h = ground (arith, handler-Shrinks a sig s)

Run-Fits :
    (a : Bool) (max : ℕ) (l : Loop) (n : ℕ) (b : Bool) {s : Sup}
    → 0 < max
    → Run a max l (begin a max n b) s
    → Fits max l s
Run-Fits a max (run true) n b z here = (omega arith, inl (omega arith))
Run-Fits a max (run false) n b z here = (omega arith, inl (omega arith))
Run-Fits a max verify_invariant n b z here = (omega arith, inl (omega arith))
Run-Fits a max l n b z (steps {t} c r _ _) = step-Fits a max l c t z (Run-Fits a max l n b z r)
Run-Fits a max l n b z (fails r _) = let f = Run-Fits a max l n b z r in (f.0, tt)
Run-Fits a max l n b z (signals {t} sig r) = signal-Fits a max l sig t (Run-Fits a max l n b z r)

-- With at least one job allowed, and signals at any point, there are at most `max_jobs` tasks, and at
-- most one where invariants are not verified in parallel.
pub tasks-limit :
    (all_ecs : Bool) (max_jobs : ℕ) (l : Loop) (n : ℕ) (terminate : Bool) (s : Sup)
    → 0 < max_jobs
    → Run all_ecs max_jobs l (begin all_ecs max_jobs n terminate) s
    → length s.tasks ≤ limit max_jobs l
tasks-limit a max l n b s z r = (Run-Fits a max l n b z r).0
