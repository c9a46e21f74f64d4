-- ===== src/Plankton/Tasks/Reaped.antt =====
-- src/plankton.cpp: the loops end only when every child has been waited for.
use neo.Base.{
  ℕ, Bool, true, false, not, ◌&&◌, ◌||◌, ◌==◌, List, [], ltb, ◌-◌, ◌∷◌, length, elem, All,
  All-weaken, if◌then◌else◌, ◌≡◌, arith, refl, Bool-cases, inl, inr, ==-refl, subst, sym, ◌⊎◌,
}
use neo.Plankton.Tasks.Jobs.{handler-Shrinks}
use neo.Plankton.Tasks.{
  Pid, Point, deciding, forking, forked, filling, pausing, paused, filled, draining, pausing_last,
  paused_last, done, failed, may_go_on, is_full, leaves, Loop, Sup, erase, insert, is_empty, Exit,
  reaped, reap, Signal, sigchld, sigusr1, sigterm, inv_sig_handler, wake, on_signal, step, begin,
  Run, here, steps, fails, signals,
}

abbrev pub is_new : Point → Pid → Bool
is_new (forked p) q = q == p
is_new _ q = false

-- A child is a task, or it has just been forked.
abbrev Known : Sup → Pid → Type 0
Known s q = (elem q s.tasks || is_new s.point q) ≡ true

pub elem-insert : (q p : Pid) (ps : List Pid) → elem q (insert p ps) ≡ (q == p || elem q ps)
elem-insert q p ps = elim (Bool-cases (elem p ps)) [
  | inl e ↦ elim (Bool-cases (q == p)) [
    | inl f ↦
        let same : q ≡ p = ground (arith, f) in
        subst (λ x. elem x (insert p ps) ≡ (x == p || elem x ps)) (sym same)
          (ground (arith, e, ==-refl p))
    | inr f ↦ ground arith
  ]
  | inr e ↦ ground arith
]

pub elem-erase : (q p : Pid) (ps : List Pid) → elem q (erase p ps) ≡ (not (p == q) && elem q ps)
elem-erase q p [] = ground arith
elem-erase q p (r ∷ ps) = ground (arith, elem-erase q p ps)

All-erase :
    (P Q : Pid → Type 0) (p : Pid) (cs : List Pid)
    → ((q : Pid) → (p == q) ≡ false → P q → Q q)
    → All P cs
    → All Q (erase p cs)
All-erase P Q p [] f h = tt
All-erase P Q p (c ∷ cs) f h = by_test (p == c) refl (All-erase P Q p cs f h.1)
  where
    by_test :
        (b : Bool)
        → (p == c) ≡ b
        → All Q (erase p cs)
        → All Q (elim (not b) [ true ↦ c ∷ erase p cs | false ↦ erase p cs ])
    by_test true e t = t
    by_test false e t = (f c e h.0, t)

abbrev AllKnown : Sup → Type 0
AllKnown s = All (Known s) s.children

reaped-AllKnown : (p : Pid) (s : Sup) → AllKnown s → AllKnown (reaped p s)
reaped-AllKnown p s h =
    All-erase (Known s) (Known (reaped p s)) p s.children
      (λ q e k. ground (arith, elem-erase q p s.tasks)) h

reap-AllKnown : (es : List Exit) (s : Sup) → AllKnown s → AllKnown (reap es s)
unfolding reap
reap-AllKnown [] s h = h
reap-AllKnown (e ∷ es) s h = elim (Bool-cases e.abnormal) [
  | inl b ↦ rw b tt
  | inr b ↦ rw b (reap-AllKnown es (reaped e.pid s) (reaped-AllKnown e.pid s h))
]

handler-AllKnown :
    (a : Bool) (sig : Signal) (s : Sup) → AllKnown s → AllKnown (inv_sig_handler a sig s)
unfolding inv_sig_handler
handler-AllKnown a (sigchld es) s h = reap-AllKnown es s h
handler-AllKnown true (sigusr1 p) s h = h
handler-AllKnown false (sigusr1 p) s h = tt
handler-AllKnown a sigterm s h = tt

pub erase_nil : (p : Pid) (ps : List Pid) → length ps ≡ 0 → length (erase p ps) ≡ 0
erase_nil p [] h = refl
erase_nil p (q ∷ ps) h = absurd (omega (arith, h))

abbrev at : Point → Sup → Sup
at p s = record s { point = p }

if_AllKnown : (b : Bool) (x y : Sup) → AllKnown x → AllKnown y → AllKnown (if b then x else y)
if_AllKnown true x y h k = h
if_AllKnown false x y h k = k

none_known :
    (ts : List Pid) (p : Point) (cs : List Pid)
    → length ts ≡ 0
    → p ≡ done
    → All (λ q. (elem q ts || is_new p q) ≡ true) cs
    → cs ≡ []
none_known ts p [] e d h = refl
none_known [] p (c ∷ cs) e d h = let known = h.0 in absurd (by_point p d known)
  where
    by_point : (q : Point) → q ≡ done → is_new q c ≡ true → ⊥
    by_point q d k = ground arith
none_known (t ∷ ts) p (c ∷ cs) e d h = absurd (omega (arith, e))

module _ (a : Bool) (max : ℕ) (l : Loop) where
  step-AllKnown :
      (c : Pid) (p : Point) (s : Sup) → AllKnown (at p s) → AllKnown (step a max l c (at p s))
  unfolding step
  step-AllKnown c deciding s h =
      if_AllKnown (may_go_on a max l (at deciding s) && ltb 0 s.left)
        (at forking (record s { left = s.left - 1 })) (at draining s) h h
  step-AllKnown c forking s h = (
    ground (arith, ==-refl c),
    All-weaken (Known (at forking s)) (λ q. (elem q s.tasks || q == c) ≡ true) s.children
        (λ q k. ground arith) h,
  )
  step-AllKnown c (forked p) s h =
      All-weaken (Known (at (forked p) s)) (λ q. (elem q (insert p s.tasks) || false) ≡ true)
        s.children (λ q k. ground (arith, elem-insert q p s.tasks)) h
  step-AllKnown c filling s h =
      if_AllKnown (is_full a max l (at filling s) && not s.terminate) (at pausing s) (at filled s) h
        h
  step-AllKnown c pausing s h = h
  step-AllKnown c paused s h = h
  step-AllKnown c filled s h =
      if_AllKnown (leaves a max l (at filled s)) (at draining s) (at deciding s) h h
  step-AllKnown c draining s h =
      if_AllKnown (not (is_empty s.tasks) && not s.terminate) (at pausing_last s) (at done s) h h
  step-AllKnown c pausing_last s h = h
  step-AllKnown c paused_last s h = h
  step-AllKnown c done s h = h
  step-AllKnown c failed s h = h

  wake-AllKnown : (p : Point) (s : Sup) → AllKnown (at p s) → AllKnown (wake a (at p s))
  wake-AllKnown deciding s h = h
  wake-AllKnown forking s h = h
  wake-AllKnown (forked q) s h = h
  wake-AllKnown filling s h = h
  wake-AllKnown pausing s h = h
  wake-AllKnown paused s h = h
  wake-AllKnown filled s h = h
  wake-AllKnown draining s h = h
  wake-AllKnown pausing_last s h = h
  wake-AllKnown paused_last s h = h
  wake-AllKnown done s h = h
  wake-AllKnown failed s h = h

  -- A loop that has ended has no tasks left, unless it was told to terminate.
  abbrev Ended : Sup → Point → Type 0
  Ended s done = (s.terminate ≡ true) ⊎ (length s.tasks ≡ 0)
  Ended s _ = Unit

  step-Ended :
      (c : Pid) (s : Sup) → Ended s s.point → Ended (step a max l c s) (step a max l c s).point
  unfolding step
  step-Ended c s h = ground arith

  signal-Ended :
      (sig : Signal) (s : Sup)
      → Ended s s.point
      → Ended (on_signal a sig s) (on_signal a sig s).point
  unfolding on_signal
  signal-Ended sig s h = ground (arith, handler-Shrinks a sig s)

  Run-AllKnown :
      (n : ℕ) (b : Bool) {s : Sup} → Run a max l (begin a max n b) s → AllKnown s × Ended s s.point
  unfolding on_signal
  Run-AllKnown n b here = (tt, tt)
  Run-AllKnown n b (steps {t} c r _ _) =
      let (k, e) = Run-AllKnown n b r in (step-AllKnown c t.point t k, step-Ended c t e)
  Run-AllKnown n b (fails {t} r at_fork) =
      let (k, e) = Run-AllKnown n b r in
      (
        All-weaken (Known t) (Known (at failed t)) t.children
            (λ q x. subst (λ p. (elem q t.tasks || is_new p q) ≡ true) at_fork x) k,
        tt,
      )
  Run-AllKnown n b (signals {t} sig r) =
      let (k, e) = Run-AllKnown n b r in
      let u = inv_sig_handler a sig t in
      (wake-AllKnown u.point u (handler-AllKnown a sig t k), signal-Ended sig t e)

  -- When a loop has ended, whatever signals came and when, and no signal told it to terminate, then
  -- no task is left, and every child that was forked has been waited for.
  pub done-reaped :
      (n : ℕ) (b : Bool) (s : Sup)
      → Run a max l (begin a max n b) s
      → s.point ≡ done
      → s.terminate ≡ false
      → (length s.tasks ≡ 0) × (s.children ≡ [])
  done-reaped n b s r d t =
      let (k, e) = Run-AllKnown n b r in
      let z : length s.tasks ≡ 0 = ground (arith, e, d, t) in
      (z, none_known s.tasks s.point s.children z d k)
