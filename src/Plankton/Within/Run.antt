-- ===== src/Plankton/Within/Run.antt =====
-- src/plankton.cpp and src/network.pml: the indices in every state that a run reaches.
use neo.Base.{ℕ, false, Option, none, some, ◌≡◌, ◌≤◌, ◌<◌, refl, subst, arith, inl, inr}
use neo.Base.Partial.{>>=-eq-some}
use neo.Model.{State, ProcessId, choose_conn, forwarding, openflow}
use neo.Process.Injection.Kept.{some-inj, if_split}
use neo.Process.ChooseConn.Progress.{exec_step-Chooses}
use neo.Plankton.Checks.{
  Invariant, single, conditional_inv, consistency_inv, init_inv, reinit_inv, check_violation,
}
use neo.Plankton.Step.{
  Plankton, Search, goes_on, returns, init_processes, start_all, start_control, initialize, reinit,
  exec_as, exec_process, switch_process, step_all, exec_step, choose, Reachable, start, next,
}
use neo.Plankton.Within.Forward.{exec_step-Keeps}
use neo.Plankton.Within.Others.{switch_process-Same, openflow-Same}
use neo.Plankton.Within.Invs.{
  AllHaveConns, HasSub, Within, Within-Same, check_violation-Within, init_inv-Within,
  reinit_inv-Within,
}

pub returns-goes_on : (m : Option Search) (z : Search) → returns m ≡ goes_on z → m ≡ some z
returns-goes_on none z e = absurd (ground arith)
returns-goes_on (some x) z e = ground arith

-- The control state is none of the indices.
HasSub-control :
    (p : Plankton) (inv : Invariant) (s : State) → HasSub inv s → HasSub inv (start_control p s)
HasSub-control p (single i) s h = tt
HasSub-control p (conditional_inv subs) s h = h
HasSub-control p (consistency_inv subs) s h = h

HasSub-eq :
    (inv : Invariant) (s t : State)
    → t.correlated_inv_idx ≡ s.correlated_inv_idx
    → HasSub inv s
    → HasSub inv t
HasSub-eq (single i) s t e h = tt
HasSub-eq (conditional_inv subs) s t e h = omega (arith, e, h)
HasSub-eq (consistency_inv subs) s t e h = omega (arith, e, h)

module _ (p : Plankton) where
  -- The indices of a state of the search.
  abbrev pub Good : State → Type 0
  Good s = Within p.network.max_conns s × HasSub p.inv s

  exec_as-Good : (c : ProcessId) (s t : State) → Good s → exec_as p c s ≡ some t → Good t
  exec_as-Good choose_conn s t g e =
      let q = exec_step-Chooses s t e in
      let a = q.0 in
      let b = q.1 in
      let n = g.0.1 in ((omega (arith, a, b), omega (arith, b, n)), HasSub-eq p.inv s t q.2 g.1)
  exec_as-Good forwarding s t g e =
      let k = exec_step-Keeps p.network s t g.0.1 e in
      let c = k.0 in
      let l = k.2 in
      let a = g.0.0 in ((omega (arith, c, l, a), k.3 g.0.1), HasSub-eq p.inv s t k.1 g.1)
  exec_as-Good openflow s t g e =
      let k = openflow-Same p.world p.network.is_emulated p.class_of p.updates s t e in
      (Within-Same p.network.max_conns s t k g.0, HasSub-eq p.inv s t k.1 g.1)

  pub exec_process-idx :
      (s t : State)
      → s.num_conns ≤ p.network.max_conns
      → exec_process p s ≡ some t
      → t.correlated_inv_idx ≡ s.correlated_inv_idx
  unfolding exec_process
  exec_process-idx s t l e = by_process s.process_id e
    where
      by_process :
          (c : ProcessId) → exec_as p c s ≡ some t → t.correlated_inv_idx ≡ s.correlated_inv_idx
      by_process choose_conn f = (exec_step-Chooses s t f).2
      by_process forwarding f = (exec_step-Keeps p.network s t l f).1
      by_process openflow f =
          (openflow-Same p.world p.network.is_emulated p.class_of p.updates s t f).1

  reinit-Good :
      (x y : Search) → AllHaveConns p.network.max_conns p.inv → reinit p x ≡ some y → Good y.state
  unfolding reinit
  reinit-Good x y h e =
      let (t, f, g) =
        >>=-eq-some
          (reinit_inv p.network.get_payload_from_model p.network.compute_fib p.inv
            (init_processes p x.state))
          _ e in
      let q =
        reinit_inv-Within p.network.get_payload_from_model p.network.compute_fib p.network.max_conns
          p.inv (init_processes p x.state) t h f in
      subst (λ z. Good z.state) (some-inj _ y g) (q.0, HasSub-control p p.inv t q.1)

  initialize-Good :
      (x y : Search)
      → AllHaveConns p.network.max_conns p.inv
      → initialize p false x ≡ goes_on y
      → Good y.state
  unfolding initialize
  initialize-Good x y h e =
      let (r, f, g) =
        >>=-eq-some
          (init_inv p.network.get_payload_from_model p.network.compute_fib p.inv x.memory
            (init_processes p x.state))
          _ (returns-goes_on (start_all p x) y e) in
      let q =
        init_inv-Within p.network.get_payload_from_model p.network.compute_fib p.network.max_conns
          p.inv x.memory (init_processes p x.state) r h f in
      subst (λ z. Good z.state) (some-inj _ y g) (q.0, HasSub-control p p.inv r.1 q.1)

  step_all-Good :
      (x y : Search)
      → AllHaveConns p.network.max_conns p.inv
      → Good x.state
      → step_all p x ≡ some y
      → Good y.state
  unfolding exec_process
  step_all-Good x y h g e =
      let (s, es, e1) = >>=-eq-some (exec_process p x.state) _ e in
      let (t, et, e2) = >>=-eq-some (switch_process p s) _ e1 in
      let (r, er, e3) = >>=-eq-some (check_violation p.inv x.memory t) _ e2 in
      let gs = exec_as-Good x.state.process_id x.state s g es in
      let same = switch_process-Same p s t et in
      let gt = HasSub-eq p.inv s t same.1 gs.1 in
      let gr =
        check_violation-Within p.network.max_conns p.inv x.memory t r
          (Within-Same p.network.max_conns s t same gs.0) gt er in
      elim (if_split r.1.reinit_dp _ _ y e3) [
        | inl f ↦ reinit-Good (record { state = r.1.state; memory = r.0 }) y h f
        | inr f ↦ subst (λ z. Good z.state) (some-inj _ y f) gr
      ]

  Good-choose : (w : Search) (c : ℕ) → Good w.state → Good (choose p c w).state
  Good-choose w c g = (g.0, HasSub-eq p.inv w.state (choose p c w).state refl g.1)

  -- Where every connection list of the invariant has a connection and at most the maximum, the
  -- current connection of every state that a run reaches is one of the model's, these are at most
  -- the maximum, and the current sub-invariant is one of the list.
  pub Reachable-Good :
      (x y : Search)
      → AllHaveConns p.network.max_conns p.inv
      → Reachable p x y
      → (y.state.conn < y.state.num_conns)
        × (y.state.num_conns ≤ p.network.max_conns)
        × HasSub p.inv y.state
  unfolding exec_step
  Reachable-Good x y h r = let g = reached r in (g.0.0, g.0.1, g.1)
    where
      reached : {z : Search} → Reachable p x z → Good z.state
      reached {z} (start e) = initialize-Good x z h e
      reached {z} (next {y = w} c q l e) =
          step_all-Good (choose p c w) z h (Good-choose w c (reached q))
            (returns-goes_on (step_all p (choose p c w)) z e)
