-- ===== src/Routing/Tests.antt =====
-- Runs of the theorems on the routing table at concrete values.
use neo.Base.{Memᴰ, ℕ, true, false, [], ◌∷◌, ◌≡◌, refl, ◌⊎◌, ◌≤◌, All}
use neo.Ip.Network.{contains}
use neo.Routing.Route.{Route}
use neo.Routing.Table.{RoutingTable, insert, update, lookup, equal_range}
use neo.Routing.Table.Order.{IsValid, insert-IsValid}
use neo.Routing.Table.Lookup.{lookup-longest_prefix}

abbrev route : ℕ → ℕ → Route
route value prefix = record {
  network = record { value = value; prefix = prefix };
  next_hop = 1;
  egress_intf = "";
  adm_dist = 1;
}

-- 10.0.0.0/24 and the default route.
abbrev some_table : RoutingTable
some_table = route 167772160 24 ∷ route 0 0 ∷ []

abbrev some_table_valid : IsValid some_table
some_table_valid = (((refl, λ _. refl), tt), (tt, tt))

insert-IsValid_example :
    IsValid (insert (route 167772160 16) some_table)
    × IsValid (update (route 167772160 16) some_table)
insert-IsValid_example = insert-IsValid (route 167772160 16) some_table some_table_valid

-- 10.0.0.1
lookup-longest_prefix_example :
    ((lookup 167772161 some_table ≡ [])
      × All (λ s. contains s.network 167772161 ≡ false) some_table)
    ⊎ ((r : Route) × Memᴰ r (lookup 167772161 some_table)
        × (lookup 167772161 some_table ≡ equal_range r some_table)
        × (contains r.network 167772161 ≡ true)
        × All
            (λ s. contains s.network 167772161 ≡ true → s.network.prefix ≤ r.network.prefix)
            some_table)
lookup-longest_prefix_example = lookup-longest_prefix 167772161 some_table some_table_valid
