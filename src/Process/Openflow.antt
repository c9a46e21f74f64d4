-- ===== src/Process/Openflow.antt =====
-- src/process/openflow.cpp: the process that installs OpenFlow updates, and `Model::update_fib`.
pub mod Counts
use neo.Base.{
  ℕ, zero, suc, Bool, true, false, not, ◌&&◌, ltb, ◌==◌, List, [], ◌∷◌, ◌++◌, Option, none, some,
  if◌then◌else◌, ◌+◌, Keyed, find, put, length, get_elem?, set,
}
use neo.Base.Partial.{◌>>=◌, guard}
use neo.Ec.Range.{EcPtr}
use neo.Ec.Class.{EqClass, representative_addr}
use neo.Routing.Route.{Route, relevant_to_ec}
use neo.Routing.Table.{RoutingTable, insert, update}
use neo.Objects.{Node}
use neo.Model.{State, FibIpnh, FibEntry, current, set_current, set_choice_count}
use neo.Topology.{World}
use neo.Topology.Fib.{set_ipnhs}
use neo.Topology.Hops.{node_hops}

-- The updates of each node, in the order of the nodes.
abbrev pub Updates : Type 0
Updates = List (Keyed (List Route))

abbrev pub updates_of : Node → Updates → List Route
updates_of n us = elim (find n us) [ none ↦ [] | some rs ↦ rs ]

unfoldable pub add_update : Node → Route → Updates → Updates
add_update n r us = put n (updates_of n us ++ r ∷ []) us

unfoldable pub num_updates : Updates → ℕ
num_updates [] = 0
num_updates (u ∷ us) = length u.value + num_updates us

abbrev pub num_nodes : Updates → ℕ
num_nodes us = length us

-- The position of a node, from `i` on, and its updates.
unfoldable pub position : Node → ℕ → Updates → Option (ℕ × List Route)
position n i [] = none
position n i (u ∷ us) =
    let rest = position n (suc i) us in if n == u.key then some (i, u.value) else rest

-- The exceptions of `at` are `none`.
abbrev pub num_of_installed_updates : ℕ → List ℕ → Option ℕ
num_of_installed_updates i counts = get_elem? counts i

abbrev pub install_update_at : ℕ → List ℕ → Option (List ℕ)
install_update_at i counts = get_elem? counts i >>= λ k. some (set counts i (suc k))

abbrev pub fewer : ℕ → List Route → List ℕ → Option Bool
fewer i rs counts = num_of_installed_updates i counts >>= λ k. some (ltb k (length rs))

unfoldable pub has_updates : Updates → Node → State → Option Bool
unfolding position
has_updates us n s = elim (position n 0 us) [
  | none ↦ some false
  | some p ↦ fewer p.0 p.1 s.openflow_update_state
]

abbrev pub zeros : ℕ → List ℕ
zeros zero = []
zeros (suc k) = 0 ∷ zeros k

unfoldable pub init : Updates → State → State
init [] s = s
init (u ∷ us) s = record s { openflow_update_state = zeros (length (u ∷ us)) }

-- The updates are dropped.
unfoldable pub reset : Updates → Updates
reset us = []

-- The table with the first `k` updates that are relevant to the class, added by `add`; `none` is
-- an index out of range, or the error of `relevant_to_ec`.
unfoldable pub with_installed :
    (Route → RoutingTable → RoutingTable)
    → EqClass
    → ℕ
    → List Route
    → RoutingTable
    → Option RoutingTable
with_installed add ec zero rs rib = some rib
with_installed add ec (suc k) [] rib = none
with_installed add ec (suc k) (r ∷ rs) rib =
    relevant_to_ec r ec >>= λ b. with_installed add ec k rs (if b then add r rib else rib)

-- Whether there are more updates to choose from.
abbrev pub next_choices : ℕ → List Route → ℕ
next_choices k rs = if ltb (k + 1) (length rs) then 2 else 1

-- An entry unless there are no hops.
abbrev pub with_entry : Node → List FibIpnh → List FibEntry → List FibEntry
with_entry n [] es = es
with_entry n (h ∷ hs) es = record { node = n; next_hops = h ∷ hs } ∷ es

module _ (w : World) (is_emulated : Node → Bool) (class_of : EcPtr → EqClass) (us : Updates) where
  -- The next hops of a node after the update at `k`, given the ones before it.
  unfoldable pub updated_hops : Node → ℕ → List Route → Route → EqClass → Option (List FibIpnh)
  unfolding with_installed
  updated_hops n k rs r ec = with_installed insert ec k rs (w.node n).rib >>= λ rib.
      representative_addr ec >>= λ addr. node_hops w is_emulated n (update r rib) addr

  -- The update of the node at the position, after the choice to install it. The code does not check
  -- that there is an update at the count; `none` is that undefined behaviour, too.
  unfoldable pub install_at : Node → ℕ × List Route → State → Option State
  unfolding updated_hops
  install_at n p s = num_of_installed_updates p.0 s.openflow_update_state >>= λ k.
      install_update_at p.0 s.openflow_update_state >>= λ counts. get_elem? p.1 k >>= λ r.
      updated_hops n k p.1 r (class_of (current s).dst_ip_ec) >>= λ hops.
      let t = set_choice_count (next_choices k p.1) (record s { openflow_update_state = counts }) in
      some (set_current (record (current t) { fib = set_ipnhs n hops (current t).fib }) t)

  -- The choice 0 is not to install. A node without updates fails the assertion.
  unfoldable pub install_update : State → Option State
  unfolding install_at
  install_update s =
      let n = (current s).pkt_location in
      let installed = position n 0 us >>= λ p. install_at n p s in
      if s.choice == 0 then some (set_choice_count 1 s) else installed

  unfoldable pub exec_step : State → Option State
  unfolding install_update
  exec_step s = elim us [ [] ↦ some s | _ ∷ _ ↦ install_update s ]

  -- The next hops of the nodes from the position `i` on that have installed updates.
  unfoldable pub get_installed_updates : ℕ → Updates → EqClass → List ℕ → Option (List FibEntry)
  unfolding with_installed
  get_installed_updates i [] ec counts = some []
  get_installed_updates i (u ∷ more) ec counts = num_of_installed_updates i counts >>= λ k.
      with_installed update ec k u.value (w.node u.key).rib >>= λ rib.
      representative_addr ec >>= λ addr. node_hops w is_emulated u.key rib addr >>= λ hops.
      get_installed_updates (suc i) more ec counts >>= λ rest. some (with_entry u.key hops rest)

  abbrev set_entries : List FibEntry → List FibEntry → List FibEntry
  set_entries [] fib = fib
  set_entries (e ∷ es) fib = set_entries es (set_ipnhs e.node e.next_hops fib)

  -- The next hops of the routing tables, of the given nodes.
  unfoldable pub table_hops : List Node → EqClass → List FibEntry → Option (List FibEntry)
  table_hops [] ec fib = some fib
  table_hops (n ∷ ns) ec fib = representative_addr ec >>= λ addr.
      node_hops w is_emulated n (w.node n).rib addr >>= λ hops.
      table_hops ns ec (set_ipnhs n hops fib)

  -- `Model::update_fib`.
  unfoldable pub update_fib : List Node → State → Option State
  unfolding table_hops get_installed_updates
  update_fib nodes s =
      let ec = class_of (current s).dst_ip_ec in
      table_hops nodes ec [] >>= λ fib.
      get_installed_updates 0 us ec s.openflow_update_state >>= λ es.
      some (set_current (record (current s) { fib = set_entries es fib }) s)
