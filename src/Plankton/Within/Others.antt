-- ===== src/Plankton/Within/Others.antt =====
-- src/plankton.cpp, src/invariant/*.cpp: what the other processes, the checks and the starts do to
-- the indices.
use neo.Base.{
  ℕ, suc, Bool, true, false, List, [], ◌∷◌, some, length, get_elem?, ◌≡◌, ◌==◌, refl, subst, arith,
  ◌∙◌, inl, inr,
}
use neo.Base.Partial.{>>=-eq-some}
use neo.Model.{Node, State, current, set_choice_count, FibEntry}
use neo.Payload.{Payload}
use neo.Process.Injection.Kept.{some-inj, if_split}
use neo.Process.Switch.{check_to_switch_process}
use neo.Process.Openflow
use neo.Process.Openflow.{
  Updates, has_updates, position, num_of_installed_updates, install_update_at, updated_hops,
  install_at, install_update,
}
use neo.Ec.Range.{EcPtr}
use neo.Ec.Class.{EqClass}
use neo.Routing.Route.{Route}
use neo.Topology.{World}
use neo.Conn.Connection.{Connection, init, init_all, init_conns}
use neo.Invariant.Reach.{reachability, reply_reachability, waypoint}
use neo.Invariant.Loop.{loop}
use neo.Invariant.Counts.{ReachCounts, one_request}
use neo.Plankton.Checks.{
  Kind, reachability_inv, reply_reachability_inv, waypoint_inv, loop_inv, one_request_inv,
  loadbalance_inv, Single, loadbalance, check_single, set_up, init_single,
}
use neo.Plankton.Step.{Plankton, switch_process}
use neo.Plankton.Within.Forward.{Same}

check_to_switch_process-Same : (f : Node → Bool) (s : State) → Same s (check_to_switch_process f s)
unfolding check_to_switch_process
check_to_switch_process-Same f s = ground arith

pub switch_process-Same : (p : Plankton) (s t : State) → switch_process p s ≡ some t → Same s t
unfolding switch_process
switch_process-Same p s t e = ground (
  arith,
  check_to_switch_process-Same (λ (n : Node). false) s,
  check_to_switch_process-Same (λ (n : Node). true) s,
)

loadbalance-Same :
    (ts : Node → Bool) (d : ReachCounts → Bool) (s : State) → Same s (loadbalance ts d s)
unfolding loadbalance
loadbalance-Same ts d s = ground arith

reachability-Same : (r : Bool) (ts : Node → Bool) (s : State) → Same s (reachability r ts s)
unfolding reachability
reachability-Same r ts s = ground arith

reply_reachability-Same :
    (r : Bool) (ts : Node → Bool) (s : State) → Same s (reply_reachability r ts s)
unfolding reply_reachability
reply_reachability-Same r ts s = ground arith

waypoint-Same : (r : Bool) (ts : Node → Bool) (s : State) → Same s (waypoint r ts s)
unfolding waypoint
waypoint-Same r ts s = ground arith

one_request-Same : (ts : Node → Bool) (s : State) → Same s (one_request ts s)
unfolding one_request
one_request-Same ts s = ground arith

loop-Same : (s t : State) → loop s ≡ some t → Same s t
unfolding loop
loop-Same s t e = ground arith

pub check_single-Same : (i : Single) (s t : State) → check_single i s ≡ some t → Same s t
unfolding check_single
check_single-Same i s t e = by_kind i.kind e
  where
    by_kind :
        (k : Kind)
        → elim k [
          | reachability_inv ts r ↦ some (reachability r ts s)
          | reply_reachability_inv ts r ↦ some (reply_reachability r ts s)
          | waypoint_inv ts p ↦ some (waypoint p ts s)
          | loop_inv ↦ loop s
          | one_request_inv ts ↦ some (one_request ts s)
          | loadbalance_inv ts d ↦ some (loadbalance ts d s)
        ]
          ≡ some t
        → Same s t
    by_kind (reachability_inv ts r) f = subst (Same s) (some-inj _ t f) (reachability-Same r ts s)
    by_kind (reply_reachability_inv ts r) f =
        subst (Same s) (some-inj _ t f) (reply_reachability-Same r ts s)
    by_kind (waypoint_inv ts p) f = subst (Same s) (some-inj _ t f) (waypoint-Same p ts s)
    by_kind loop_inv f = loop-Same s t f
    by_kind (one_request_inv ts) f = subst (Same s) (some-inj _ t f) (one_request-Same ts s)
    by_kind (loadbalance_inv ts d) f = subst (Same s) (some-inj _ t f) (loadbalance-Same ts d s)

install_at-Same :
    (w : World) (em : Node → Bool) (cl : EcPtr → EqClass) (us : Updates) (n : Node)
    (q : ℕ × List Route) (s t : State)
    → install_at w em cl us n q s ≡ some t
    → Same s t
unfolding install_at
install_at-Same w em cl us n q s t e =
    let (k, _, f) = >>=-eq-some (num_of_installed_updates q.0 s.openflow_update_state) _ e in
    let (c, _, g) = >>=-eq-some (install_update_at q.0 s.openflow_update_state) _ f in
    let (r, _, h) = >>=-eq-some (get_elem? q.1 k) _ g in
    let (hops, _, j) =
      >>=-eq-some (updated_hops w em cl us n k q.1 r (cl (current s).dst_ip_ec)) _ h in
    subst (Same s) (some-inj _ t j) (refl, refl, refl)

pub openflow-Same :
    (w : World) (em : Node → Bool) (cl : EcPtr → EqClass) (us : Updates) (s t : State)
    → Openflow.exec_step w em cl us s ≡ some t
    → Same s t
unfolding Openflow.exec_step install_update
openflow-Same w em cl [] s t e = subst (Same s) (some-inj s t e) (refl, refl, refl)
openflow-Same w em cl (u ∷ us) s t e = elim (if_split (s.choice == 0) _ _ t e) [
  | inl f ↦ subst (Same s) (some-inj (set_choice_count 1 s) t f) (refl, refl, refl)
  | inr f ↦
      let (q, _, g) = >>=-eq-some (position (current s).pkt_location 0 (u ∷ us)) _ f in
      install_at-Same w em cl (u ∷ us) (current s).pkt_location q s t g
]

module _ (pay : State → Payload) (fib : State → List FibEntry) where
  init_all-idx :
      (i : ℕ) (cs : List Connection) (s : State)
      → (init_all pay fib i cs s).correlated_inv_idx ≡ s.correlated_inv_idx
  unfolding init_all init
  init_all-idx i [] s = refl
  init_all-idx i (c ∷ cs) s = init_all-idx (suc i) cs (init pay fib i c s) ∙ refl

  -- The connections of the invariant, from the first one on.
  pub init_single-starts :
      (i : Single) (s : State)
      → ((init_single pay fib i s).conn ≡ 0)
        × ((init_single pay fib i s).num_conns ≡ length i.conns)
        × ((init_single pay fib i s).correlated_inv_idx ≡ s.correlated_inv_idx)
  unfolding init_single init_conns
  init_single-starts i s = by_kind i.kind
    where
      by_kind :
          (k : Kind)
          → ((set_up k (init_conns pay fib i.conns s)).conn ≡ 0)
            × ((set_up k (init_conns pay fib i.conns s)).num_conns ≡ length i.conns)
            × ((set_up k (init_conns pay fib i.conns s)).correlated_inv_idx ≡ s.correlated_inv_idx)
      by_kind (reachability_inv ts r) = (refl, refl, init_all-idx 0 i.conns s)
      by_kind (reply_reachability_inv ts r) = (refl, refl, init_all-idx 0 i.conns s)
      by_kind (waypoint_inv ts p) = (refl, refl, init_all-idx 0 i.conns s)
      by_kind loop_inv = (refl, refl, init_all-idx 0 i.conns s)
      by_kind (one_request_inv ts) = (refl, refl, init_all-idx 0 i.conns s)
      by_kind (loadbalance_inv ts d) = (refl, refl, init_all-idx 0 i.conns s)
