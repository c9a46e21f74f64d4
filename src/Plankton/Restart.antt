-- ===== src/Plankton/Restart.antt =====
-- src/plankton.cpp, src/invariant/*.cpp: what a step leaves that moves on to the next sub-invariant.
use neo.Base.{
  ℕ, false, List, [], ◌∷◌, some, length, get_elem?, if◌then◌else◌, ◌≡◌, ◌+◌, ◌⊎◌, Bool-cases, ◌≤◌,
  refl, subst, sym, ap, arith, ◌∙◌, inl, inr,
}
use neo.Base.Partial.{>>=-eq-some}
use neo.Model.{State, FibEntry, forwarding}
use neo.Payload.{Payload}
use neo.Process.Injection.Kept.{some-inj, if_then, if_else}
use neo.Process.Injection.{init_hists}
use neo.Process.Openflow
use neo.Process.Openflow.{Updates}
use neo.Conn.Connection.{Connection, init_conns}
use neo.Conn.Connection.Init.{Starts, init_conns-Starts}
use neo.Invariant.Correlated.{Outcome, Memory, after_conditional, after_consistency, pol_null}
use neo.Plankton.Checks.{
  Kind, reachability_inv, reply_reachability_inv, waypoint_inv, loop_inv, one_request_inv,
  loadbalance_inv, Single, Invariant, single, conditional_inv, consistency_inv, sub_at,
  check_single, set_up, init_single, init_sub, reinit_inv, check_violation,
}
use neo.Plankton.Step.{
  Plankton, Search, goes_on, init_processes, start_control, reinit, exec_process, switch_process,
  step_all, exec_step,
}
use neo.Plankton.Within.Others.{switch_process-Same, check_single-Same, init_single-starts}
use neo.Plankton.Within.Run.{returns-goes_on, exec_process-idx}

abbrev pub subs_of : Invariant → List Single
subs_of (single i) = []
subs_of (conditional_inv subs) = subs
subs_of (consistency_inv subs) = subs

-- The state runs the connections of a sub-invariant from their start.
abbrev pub Restarted : List Single → State → Type 0
Restarted subs t =
    (i : Single) × (get_elem? subs t.correlated_inv_idx ≡ some i)
    × (t.process_id ≡ forwarding)
    × (t.choice_count ≡ 1)
    × (t.conn ≡ 0)
    × (t.num_conns ≡ length i.conns)
    × ((j : ℕ) (c : Connection) → get_elem? i.conns j ≡ some c → Starts c (t.conn_state j))

after_conditional-idx :
    (n : ℕ) (s : State)
    → (after_conditional n s).state.correlated_inv_idx ≡ (
        if (after_conditional n s).reinit_dp
        then s.correlated_inv_idx + 1
        else s.correlated_inv_idx)
after_conditional-idx n s = ground arith

after_consistency-idx :
    (n : ℕ) (m : Memory) (s : State)
    → (after_consistency n m s).1.state.correlated_inv_idx ≡ (
        if (after_consistency n m s).1.reinit_dp
        then s.correlated_inv_idx + 1
        else s.correlated_inv_idx)
after_consistency-idx n m s = ground arith

check_violation-idx :
    (inv : Invariant) (m : Memory) (s : State) (r : Memory × Outcome)
    → check_violation inv m s ≡ some r
    → r.1.state.correlated_inv_idx
      ≡ (if r.1.reinit_dp then s.correlated_inv_idx + 1 else s.correlated_inv_idx)
unfolding check_violation
check_violation-idx (single i) m s r e =
    let (t, f, g) = >>=-eq-some (check_single i s) _ e in
    subst
      (λ x.
        x.1.state.correlated_inv_idx
        ≡ (if x.1.reinit_dp then s.correlated_inv_idx + 1 else s.correlated_inv_idx))
      (some-inj (m, pol_null t) r g) (check_single-Same i s t f).1
check_violation-idx (conditional_inv subs) m s r e =
    let (i, _, f) = >>=-eq-some (sub_at subs s) _ e in
    let (t, g, k) = >>=-eq-some (check_single i s) _ f in
    subst
      (λ x.
        x.1.state.correlated_inv_idx
        ≡ (if x.1.reinit_dp then s.correlated_inv_idx + 1 else s.correlated_inv_idx))
      (some-inj (m, after_conditional (length subs) t) r k)
      (subst
        (λ j.
          (after_conditional (length subs) t).state.correlated_inv_idx
          ≡ (if (after_conditional (length subs) t).reinit_dp then j + 1 else j))
        (check_single-Same i s t g).1 (after_conditional-idx (length subs) t))
check_violation-idx (consistency_inv subs) m s r e =
    let (i, _, f) = >>=-eq-some (sub_at subs s) _ e in
    let (t, g, k) = >>=-eq-some (check_single i s) _ f in
    subst
      (λ x.
        x.1.state.correlated_inv_idx
        ≡ (if x.1.reinit_dp then s.correlated_inv_idx + 1 else s.correlated_inv_idx))
      (some-inj (after_consistency (length subs) m t) r k)
      (subst
        (λ j.
          (after_consistency (length subs) m t).1.state.correlated_inv_idx
          ≡ (if (after_consistency (length subs) m t).1.reinit_dp then j + 1 else j))
        (check_single-Same i s t g).1 (after_consistency-idx (length subs) m t))

module _ (pay : State → Payload) (fib : State → List FibEntry) where
  set_up-conn_state : (k : Kind) (s : State) → (set_up k s).conn_state ≡ s.conn_state
  set_up-conn_state (reachability_inv ts r) s = refl
  set_up-conn_state (reply_reachability_inv ts r) s = refl
  set_up-conn_state (waypoint_inv ts p) s = refl
  set_up-conn_state loop_inv s = refl
  set_up-conn_state (one_request_inv ts) s = refl
  set_up-conn_state (loadbalance_inv ts d) s = refl

  init_single-Starts :
      (i : Single) (s : State) (j : ℕ) (c : Connection)
      → get_elem? i.conns j ≡ some c
      → Starts c ((init_single pay fib i s).conn_state j)
  unfolding init_single
  init_single-Starts i s j c e =
      subst (λ f. Starts c (f j)) (sym (set_up-conn_state i.kind (init_conns pay fib i.conns s)))
        (init_conns-Starts pay fib i.conns s j c e).1

module _ (p : Plankton) where
  restart_sub :
      (subs : List Single) (s t : State)
      → init_sub p.network.get_payload_from_model p.network.compute_fib subs s ≡ some t
      → Restarted subs (start_control p t) × (t.correlated_inv_idx ≡ s.correlated_inv_idx)
  restart_sub subs s t e =
      let pay = p.network.get_payload_from_model in
      let fib = p.network.compute_fib in
      let (i, f, g) = >>=-eq-some (sub_at subs s) _ e in
      let q = init_single-starts pay fib i s in
      subst
        (λ u. Restarted subs (start_control p u) × (u.correlated_inv_idx ≡ s.correlated_inv_idx))
        (some-inj (init_single pay fib i s) t g)
        (
          (
            i,
            subst (λ k. get_elem? subs k ≡ some i) (sym q.2) f,
            refl,
            refl,
            q.0,
            q.1,
            init_single-Starts pay fib i s,
          ),
          q.2,
        )

  -- The processes that start leave the index.
  init_processes-idx : (s : State) → (init_processes p s).correlated_inv_idx ≡ s.correlated_inv_idx
  unfolding Openflow.init init_hists
  init_processes-idx s = by_updates p.updates
    where
      by_updates :
          (us : Updates)
          → (Openflow.init us (init_hists p.network.is_emulated p.nodes s)).correlated_inv_idx
            ≡ s.correlated_inv_idx
      by_updates [] = refl
      by_updates (u ∷ us) = refl

  reinit-Restarted :
      (x y : Search)
      → reinit p x ≡ some y
      → Restarted (subs_of p.inv) y.state
        × (y.state.correlated_inv_idx ≡ x.state.correlated_inv_idx)
  unfolding reinit
  reinit-Restarted x y e =
      let (t, f, g) =
        >>=-eq-some
          (reinit_inv p.network.get_payload_from_model p.network.compute_fib p.inv
            (init_processes p x.state))
          _ e in
      let (r, i) = by_inv p.inv t f in
      subst
        (λ z.
          Restarted (subs_of p.inv) z.state
          × (z.state.correlated_inv_idx ≡ x.state.correlated_inv_idx))
        (some-inj (record x { state = start_control p t }) y g) (r, i ∙ init_processes-idx x.state)
    where
      by_inv :
          (inv : Invariant) (t : State)
          → reinit_inv p.network.get_payload_from_model p.network.compute_fib inv
              (init_processes p x.state)
            ≡ some t
          → Restarted (subs_of inv) (start_control p t)
            × (t.correlated_inv_idx ≡ (init_processes p x.state).correlated_inv_idx)
      by_inv (single i) t f = absurd (ground arith)
      by_inv (conditional_inv subs) t f = restart_sub subs (init_processes p x.state) t f
      by_inv (consistency_inv subs) t f = restart_sub subs (init_processes p x.state) t f

  -- A step from a state with at most the maximum of connections either stays at the current
  -- sub-invariant, or moves on to the next one and then restarts: the forwarding process runs the
  -- first of the next sub-invariant's connections, all of which are at their source node with their
  -- first packet.
  pub exec_step-Restarted :
      (x y : Search)
      → x.state.num_conns ≤ p.network.max_conns
      → exec_step p false x ≡ goes_on y
      → (y.state.correlated_inv_idx ≡ x.state.correlated_inv_idx)
        ⊎ ((y.state.correlated_inv_idx ≡ x.state.correlated_inv_idx + 1)
            × Restarted (subs_of p.inv) y.state)
  unfolding exec_step
  exec_step-Restarted x y l e =
      let (s, es, e1) =
        >>=-eq-some (exec_process p x.state) _ (returns-goes_on (step_all p x) y e) in
      let (t, et, e2) = >>=-eq-some (switch_process p s) _ e1 in
      let (r, er, e3) = >>=-eq-some (check_violation p.inv x.memory t) _ e2 in
      let stays : t.correlated_inv_idx ≡ x.state.correlated_inv_idx =
        (switch_process-Same p s t et).1 ∙ exec_process-idx p x.state s l es in
      let idx = check_violation-idx p.inv x.memory t r er in
      elim (Bool-cases r.1.reinit_dp) [
        | inl b ↦
            let (again, i) =
              reinit-Restarted (record { state = r.1.state; memory = r.0 }) y
                (if_then r.1.reinit_dp _ _ y b e3) in
            inr (
              i
                  ∙ idx
                  ∙ ap (λ c. if c then t.correlated_inv_idx + 1 else t.correlated_inv_idx) b
                  ∙ ap (λ n. n + 1) stays,
              again,
            )
        | inr b ↦ inl (
            sym (
              ap (λ z. z.state.correlated_inv_idx)
                (some-inj _ y (if_else r.1.reinit_dp _ _ y b e3)))
            ∙ idx
            ∙ ap (λ c. if c then t.correlated_inv_idx + 1 else t.correlated_inv_idx) b
            ∙ stays)
      ]
