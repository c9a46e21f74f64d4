-- ===== src/Invariant/Loop.antt =====
-- src/invariant/loop.cpp: the forwarding loop check and its visited hops.
use neo.Base.{
  Bool, true, false, not, ◌&&◌, ◌||◌, ◌==◌, [], ◌∷◌, Option, none, some, any, if◌then◌else◌,
}
use neo.Base.Partial.{◌>>=◌}
use neo.Model.{Hop, VisitedHops, State, current, set_visited_hops}
use neo.Process.ChooseConn.{is_dropped}
use neo.Invariant.Reach.{request_is_accepted, other_executable_conns_exist, conclude}

abbrev pub same_hop : Hop → Hop → Bool
same_hop a b = a.dst_ip_ec == b.dst_ip_ec && a.dst_port == b.dst_port && a.node == b.node

-- A set without hops, whose last hop is the value-initialised tuple.
abbrev pub no_hops : VisitedHops
no_hops = record { hops = []; last_hop = record { dst_ip_ec = 0; dst_port = 0; node = 0 } }

abbrev pub is_last_hop : VisitedHops → Hop → Bool
is_last_hop v h = same_hop v.last_hop h

abbrev pub visited : VisitedHops → Hop → Bool
visited v h = any (same_hop h) v.hops && not (is_last_hop v h)

-- `none` is the logged error "Adding a duplicate hop". The last hop stays as it was.
unfoldable pub add : Hop → VisitedHops → Option VisitedHops
add h v = if any (same_hop h) v.hops then none else some (record v { hops = h ∷ v.hops })

abbrev pub current_hop : State → Hop
current_hop s =
    let c = current s in
    record { dst_ip_ec = c.dst_ip_ec; dst_port = c.dst_port; node = c.pkt_location }

abbrev pub visit : Option VisitedHops → State → Option State
unfolding add
visit none s = add (current_hop s) no_hops >>= λ v. some (set_visited_hops v s)
visit (some v) s =
    let h = current_hop s in
    let added = add h v >>= λ w. some (set_visited_hops w s) in
    if visited v h then some (conclude true s) else if is_last_hop v h then some s else added

unfoldable pub loop : State → Option State
unfolding add
loop s =
    let c = current s in
    let next = visit c.visited_hops s in
    if (request_is_accepted c || is_dropped c.fwd_mode) && not (other_executable_conns_exist s)
    then some (conclude false s)
    else next
