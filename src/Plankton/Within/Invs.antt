-- ===== src/Plankton/Within/Invs.antt =====
-- src/invariant: the start, the restart and the check of an invariant keep the indices within bounds.
use neo.Base.{
  ℕ, zero, suc, List, [], ◌∷◌, some, length, get_elem?, All, ◌≡◌, ◌≤◌, ◌<◌, subst, arith,
}
use neo.Base.Partial.{>>=-eq-some}
use neo.Model.{State, FibEntry}
use neo.Payload.{Payload}
use neo.Process.Injection.Kept.{some-inj}
use neo.Invariant.Correlated.{
  Outcome, Memory, set_correlated_inv_idx, after_conditional, after_consistency, pol_null,
}
use neo.Plankton.Checks.{
  Single, Invariant, single, conditional_inv, consistency_inv, sub_at, check_single, init_single,
  init_sub, init_inv, reinit_inv, check_violation,
}
use neo.Plankton.Within.Forward.{Same}
use neo.Plankton.Within.Others.{check_single-Same, init_single-starts}

-- The invariant has a connection, and not too many.
abbrev pub HasConns : ℕ → Single → Type 0
HasConns max i = (0 < length i.conns) × (length i.conns ≤ max)

abbrev pub AllHaveConns : ℕ → Invariant → Type 0
AllHaveConns max (single i) = HasConns max i
AllHaveConns max (conditional_inv subs) = All (HasConns max) subs
AllHaveConns max (consistency_inv subs) = All (HasConns max) subs

-- There is a sub-invariant at the index, where there are sub-invariants.
abbrev pub HasSub : Invariant → State → Type 0
HasSub (single i) s = Unit
HasSub (conditional_inv subs) s = s.correlated_inv_idx < length subs
HasSub (consistency_inv subs) s = s.correlated_inv_idx < length subs

-- The current connection is one of the model's.
abbrev pub Within : ℕ → State → Type 0
Within max s = (s.conn < s.num_conns) × (s.num_conns ≤ max)

pub Within-Same : (max : ℕ) (s t : State) → Same s t → Within max s → Within max t
Within-Same max s t h w =
    let c = h.0 in
    let n = h.2 in let a = w.0 in let b = w.1 in (omega (arith, c, n, a), omega (arith, n, b))

get_elem?-All {ℓ κ} :
    {A : Type ℓ} (P : A → Type κ) (xs : List A) (i : ℕ) (x : A)
    → All P xs
    → get_elem? xs i ≡ some x
    → P x × (i < length xs)
get_elem?-All P [] i x h e = absurd (ground arith)
get_elem?-All P (y ∷ ys) zero x h e = (subst P (some-inj y x e) h.0, omega arith)
get_elem?-All P (y ∷ ys) (suc i) x h e =
    let (q, l) = get_elem?-All P ys i x h.1 e in (q, omega (arith, l))

after_conditional-Within :
    (max n : ℕ) (s : State)
    → Within max s
    → s.correlated_inv_idx < n
    → Within max (after_conditional n s).state
      × ((after_conditional n s).state.correlated_inv_idx < n)
after_conditional-Within max n s w l = ground (arith, w.0, w.1)

after_consistency-Within :
    (max n : ℕ) (m : Memory) (s : State)
    → Within max s
    → s.correlated_inv_idx < n
    → Within max (after_consistency n m s).1.state
      × ((after_consistency n m s).1.state.correlated_inv_idx < n)
after_consistency-Within max n m s w l = ground (arith, w.0, w.1)

pub check_violation-Within :
    (max : ℕ) (inv : Invariant) (m : Memory) (s : State) (r : Memory × Outcome)
    → Within max s
    → HasSub inv s
    → check_violation inv m s ≡ some r
    → Within max r.1.state × HasSub inv r.1.state
unfolding check_violation
check_violation-Within max (single i) m s r w h e =
    let (t, f, g) = >>=-eq-some (check_single i s) _ e in
    subst (λ x. Within max x.1.state × Unit) (some-inj (m, pol_null t) r g)
      (Within-Same max s t (check_single-Same i s t f) w, tt)
check_violation-Within max (conditional_inv subs) m s r w h e =
    let (i, _, f) = >>=-eq-some (sub_at subs s) _ e in
    let (t, g, k) = >>=-eq-some (check_single i s) _ f in
    let same = check_single-Same i s t g in
    let idx = same.1 in
    subst (λ x. Within max x.1.state × HasSub (conditional_inv subs) x.1.state)
      (some-inj (m, after_conditional (length subs) t) r k)
      (after_conditional-Within max (length subs) t (Within-Same max s t same w)
        (omega (arith, h, idx)))
check_violation-Within max (consistency_inv subs) m s r w h e =
    let (i, _, f) = >>=-eq-some (sub_at subs s) _ e in
    let (t, g, k) = >>=-eq-some (check_single i s) _ f in
    let same = check_single-Same i s t g in
    let idx = same.1 in
    subst (λ x. Within max x.1.state × HasSub (consistency_inv subs) x.1.state)
      (some-inj (after_consistency (length subs) m t) r k)
      (after_consistency-Within max (length subs) m t (Within-Same max s t same w)
        (omega (arith, h, idx)))

module _ (pay : State → Payload) (fib : State → List FibEntry) (max : ℕ) where
  init_single-Within :
      (i : Single) (s : State) → HasConns max i → Within max (init_single pay fib i s)
  init_single-Within i s h =
      let q = init_single-starts pay fib i s in
      let c = q.0 in
      let n = q.1 in let a = h.0 in let b = h.1 in (omega (arith, c, n, a), omega (arith, n, b))

  init_sub-Within :
      (subs : List Single) (s t : State)
      → All (HasConns max) subs
      → init_sub pay fib subs s ≡ some t
      → Within max t × (t.correlated_inv_idx < length subs)
  init_sub-Within subs s t h e =
      let (i, f, g) = >>=-eq-some (sub_at subs s) _ e in
      let (q, l) = get_elem?-All (HasConns max) subs s.correlated_inv_idx i h f in
      let idx = (init_single-starts pay fib i s).2 in
      subst (λ u. Within max u × (u.correlated_inv_idx < length subs))
        (some-inj (init_single pay fib i s) t g) (init_single-Within i s q, omega (arith, l, idx))

  pub init_inv-Within :
      (inv : Invariant) (m : Memory) (s : State) (r : Memory × State)
      → AllHaveConns max inv
      → init_inv pay fib inv m s ≡ some r
      → Within max r.1 × HasSub inv r.1
  unfolding init_inv
  init_inv-Within (single i) m s r h e =
      subst (λ x. Within max x.1 × Unit) (some-inj (m, init_single pay fib i s) r e)
        (init_single-Within i s h, tt)
  init_inv-Within (conditional_inv subs) m s r h e =
      let (t, f, g) = >>=-eq-some (init_sub pay fib subs (set_correlated_inv_idx 0 s)) _ e in
      subst (λ x. Within max x.1 × (x.1.correlated_inv_idx < length subs)) (some-inj _ r g)
        (init_sub-Within subs (set_correlated_inv_idx 0 s) t h f)
  init_inv-Within (consistency_inv subs) m s r h e =
      let (t, f, g) = >>=-eq-some (init_sub pay fib subs (set_correlated_inv_idx 0 s)) _ e in
      subst (λ x. Within max x.1 × (x.1.correlated_inv_idx < length subs)) (some-inj _ r g)
        (init_sub-Within subs (set_correlated_inv_idx 0 s) t h f)

  pub reinit_inv-Within :
      (inv : Invariant) (s t : State)
      → AllHaveConns max inv
      → reinit_inv pay fib inv s ≡ some t
      → Within max t × HasSub inv t
  unfolding reinit_inv
  reinit_inv-Within (single i) s t h e = absurd (ground arith)
  reinit_inv-Within (conditional_inv subs) s t h e = init_sub-Within subs s t h e
  reinit_inv-Within (consistency_inv subs) s t h e = init_sub-Within subs s t h e
