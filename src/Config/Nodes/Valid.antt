-- ===== src/Config/Nodes/Valid.antt =====
-- src/configparser.cpp: the routing table of a parsed node serves the configured routes.
use neo.Base.{if◌then◌else◌, ◌==◌, some, ◌≡◌}
use neo.Routing.Route.{Route}
use neo.Routing.Table.{RoutingTable}
use neo.Routing.Table.Served.{Serves}
use neo.Config.Text.{Text}
use neo.Config.Nodes.{RouteConfig, parse_route}

module _ (text : Text) where
  -- The table has a route for the configured one, at a distance that is not worse: where a static
  -- route has the distance of a new route, 1.
  abbrev pub StaticServed : RoutingTable → RouteConfig → Type 0
  StaticServed rib c =
      (r : Route) × (parse_route text c ≡ some r)
      × Serves rib (record r { adm_dist = if r.adm_dist == 255 then 1 else r.adm_dist })

  abbrev pub InstalledServed : RoutingTable → RouteConfig → Type 0
  InstalledServed rib c = (r : Route) × (parse_route text c ≡ some r) × Serves rib r
