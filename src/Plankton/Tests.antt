-- ===== src/Plankton/Tests.antt =====
-- Runs of the theorems on the verifier at concrete states.
use neo.Base.{ℕ, true, false, [], ◌∷◌, length, elem, ◌≡◌, ◌⊎◌, ◌+◌, ◌<◌, ◌≤◌, ◌≢◌, inr, refl, arith}
use neo.Proto.{udp}
use neo.Model.{forward_packet, accepted, set_candidates}
use neo.Conn.Connection.{Connection}
use neo.Process.Injection.{itself}
use neo.Plankton.Checks.{Single, reachability_inv, Invariant, conditional_inv}
use neo.Plankton.Step
use neo.Plankton.Step.{
  Plankton, Search, goes_on, exited, Next, initialize, Reachable, start, next, exec_process,
  switch_process,
}
use neo.Plankton.Within.Invs.{HasSub}
use neo.Plankton.Within.Run.{Reachable-Good}
use neo.Plankton.Restart.{Restarted, exec_step-Restarted}
use neo.Plankton.Tasks.{
  Sup, forked, done, verify_invariant, step, begin, here, steps, sigusr1, sigterm, sigchld,
  on_signal, inv_sig_handler,
}
use neo.Plankton.Tasks.Jobs.{tasks-limit}
use neo.Plankton.Tasks.Reaped.{done-reaped}
use neo.Plankton.Tasks.Stop.{no_more_forks, repeat, Ends, is_pausing, IsPaused, sigterm-Ends}
use neo.Plankton.Tasks.Stale.{CalmRun, early_exit-stuck}
use neo.Process.Tests.{some_state, some_net, bare_world, one_class}

abbrev from_port : ℕ → Connection
from_port port = record {
  protocol = udp;
  src_node = 1;
  dst_ip_ec = 1;
  src_port = port;
  dst_port = 80;
  src_ip = 0;
  seq = 0;
  ack = 0;
}

-- Node 1 is reached by a connection from itself, of each port.
abbrev reaches : ℕ → Single
reaches port = record { kind = reachability_inv (λ n. true) true; conns = from_port port ∷ [] }

abbrev two_ports : Invariant
two_ports = conditional_inv (reaches 1 ∷ reaches 2 ∷ [])

abbrev some_plankton : Plankton
some_plankton = record {
  network = some_net;
  world = bare_world;
  class_of = one_class;
  updates = [];
  nodes = 1 ∷ 2 ∷ [];
  inv = two_ports;
}

abbrev blank : Search
blank = record { state = some_state accepted; memory = record { unset = true; result = false } }

abbrev found : Next → Search
found (goes_on x) = x
found _ = blank

abbrev first_state : Search
first_state = found (initialize some_plankton false blank)

Reachable-Good_example :
    (first_state.state.conn < first_state.state.num_conns)
    × (first_state.state.num_conns ≤ 4)
    × HasSub two_ports first_state.state
unfolding initialize
Reachable-Good_example =
    Reachable-Good some_plankton blank first_state
      ((omega arith, omega arith), ((omega arith, omega arith), tt)) (start refl)

-- The packet of the connection is about to be delivered at node 1.
abbrev arriving : Search
arriving = record blank { state = set_candidates (itself 1 ∷ []) (some_state forward_packet) }

abbrev moved_on : Search
moved_on = found (Step.exec_step some_plankton false arriving)

exec_step-Restarted_example :
    (moved_on.state.correlated_inv_idx ≡ 0)
    ⊎ ((moved_on.state.correlated_inv_idx ≡ 1)
        × Restarted (reaches 1 ∷ reaches 2 ∷ []) moved_on.state)
unfolding Step.exec_step
exec_step-Restarted_example = exec_step-Restarted some_plankton arriving moved_on (omega arith) refl

-- The step does move on.
moves_on : moved_on.state.correlated_inv_idx ≡ 1
unfolding Step.exec_step
moves_on = refl

-- One task has been forked by `verify_invariant`, which is about to insert it.
abbrev at_insertion : Sup
at_insertion = record {
  violated = false;
  terminate = false;
  tasks = [];
  children = 7 ∷ [];
  left = 1;
  forks = 1;
  point = forked 7;
}

abbrev first_fork : Sup
first_fork =
    step false 1 verify_invariant 7 (step false 1 verify_invariant 7 (begin false 1 2 false))

tasks-limit_example : length first_fork.tasks ≤ 1
unfolding step
tasks-limit_example =
    tasks-limit false 1 verify_invariant 2 false first_fork (omega arith)
      (steps 7 (steps 7 here (omega arith) refl) (omega arith) refl)

abbrev no_tasks : Sup
no_tasks = step false 1 verify_invariant 7 (step false 1 verify_invariant 7 (begin false 1 0 false))

done-reaped_example : (length no_tasks.tasks ≡ 0) × (no_tasks.children ≡ [])
unfolding step
done-reaped_example =
    done-reaped false 1 verify_invariant 0 false no_tasks
      (steps 7 (steps 7 here (omega arith) refl) (omega arith) refl) refl refl

abbrev violated_sup : Sup
violated_sup = on_signal false (sigusr1 7) at_insertion

no_more_forks_example :
    (step false 1 verify_invariant 8 violated_sup).forks ≤ violated_sup.forks + 0
unfolding on_signal inv_sig_handler
no_more_forks_example =
    no_more_forks false 1 verify_invariant violated_sup
      (step false 1 verify_invariant 8 violated_sup) (inr (refl, refl))
      (steps 8 here (omega arith) refl)

-- Two further steps.
sigterm-Ends_example :
    ((is_pausing at_insertion.point ≡ false)
      × Ends
          (repeat 2 (step false 1 verify_invariant 8) (
            repeat 7
              (step false 1 verify_invariant 8)
              (on_signal false sigterm at_insertion))).point)
    ⊎ ((is_pausing at_insertion.point ≡ true)
        × IsPaused
            (repeat 2 (step false 1 verify_invariant 8) (
              repeat 7
                (step false 1 verify_invariant 8)
                (on_signal false sigterm at_insertion))).point)
sigterm-Ends_example = sigterm-Ends false 1 verify_invariant 8 2 at_insertion

abbrev lost_child : Sup
lost_child = on_signal false (sigchld (record { pid = 7; abnormal = false } ∷ [])) at_insertion

early_exit-stuck_example :
    ((step false 1 verify_invariant 8 lost_child).point ≢ done)
    × (((step false 1 verify_invariant 8 lost_child).point ≡ forked 7)
        ⊎ (elem 7 (step false 1 verify_invariant 8 lost_child).tasks ≡ true))
early_exit-stuck_example =
    early_exit-stuck false 1 verify_invariant 7 at_insertion
      (step false 1 verify_invariant 8 lost_child) refl refl (CalmRun.steps 8 CalmRun.here refl)
