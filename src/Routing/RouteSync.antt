-- ===== src/Routing/RouteSync.antt =====
-- `routeSyncer` (pkg/controllers/routing/route_sync.go). A destination is its text (net.IPNet.String); the
-- routes and `routeReplacer`, over the state `W` of the kernel, are parameters.
pub mod Wanted
pub mod Installed
mod Tests
use kube_router.Prelude.{String, Option, none, some, List, [], ◌∷◌}
use kube_router.Exec.{Result}
use kube_router.Dict.{lookup, insert, delete, values}

module _ {Route W : Type 0} (route_replacer : Route → W → Result (Unit {0}) × W) where
  abbrev pub Table : Type 0
  Table = List (String × Route)

  -- addInjectedRoute
  unfoldable pub add_injected_route : String → Route → Table → Table
  add_injected_route dst route table = insert dst route table

  -- delInjectedRoute
  unfoldable pub del_injected_route : String → Table → Table
  del_injected_route dst table = elim (lookup dst table) [
    | none ↦ table
    | some route ↦ delete dst table
  ]

  -- The loop over the routes; an error is logged only.
  unfoldable pub replace_each : List Route → W → W
  replace_each [] w = w
  replace_each (route ∷ routes) w = replace_each routes (route_replacer route w).1

  -- syncLocalRouteTable
  unfoldable pub sync_local_route_table : Table → W → W
  unfolding replace_each
  sync_local_route_table table w = replace_each (values table) w
