-- ===== src/Proxy/Sync/Tests.antt =====
-- A run of setupClusterIPServices on a host in memory
-- (pkg/controllers/proxy/service_endpoints_sync.go).
use kube_router.Prelude.{◌≡◌, refl, true, false, some, [], ◌∷◌}
use kube_router.Prelude.Decimal.{itoa}
use kube_router.Exec.{ok}
use kube_router.Dict.{lookup, insert}
use kube_router.Proxy.Info.{has_active_endpoints, ServiceInfoMap, EndpointsInfoMap}
use kube_router.Proxy.Info.Listed.{or_else, latest}
use kube_router.Proxy.Sync.{State, setup_cluster_ip_services}
use kube_router.Proxy.Sync.ClusterIps.{cluster_entries, lookup-setup_cluster_ip_services}
use kube_router.Proxy.Sample.{World, ln, ln-IsWorking, web, endpoint}

abbrev svcs : ServiceInfoMap
svcs = ("default-web-http", web) ∷ []

abbrev endpoints_map : EndpointsInfoMap
endpoints_map = ("default-web-http", endpoint "10.1.0.1" true ∷ endpoint "10.1.0.2" false ∷ []) ∷ []

abbrev start : State World
start = record { world = []; active = [] }

-- The service is local and the node has an endpoint, so the other one is left out.
test_local :
    lookup "10.0.0.1-tcp-80" (setup_cluster_ip_services ln svcs endpoints_map start).1.active
    ≡ some ("10.1.0.1:8080" ∷ [])
unfolding lookup setup_cluster_ip_services has_active_endpoints insert itoa
test_local = refl

lookup-setup_cluster_ip_services_example :
    let r = setup_cluster_ip_services ln svcs endpoints_map start in
    (r.0 ≡ ok tt)
    × (lookup "10.0.0.1-tcp-80" r.1.active
        ≡ or_else
            (latest "10.0.0.1-tcp-80" (cluster_entries svcs endpoints_map))
            (lookup "10.0.0.1-tcp-80" []))
lookup-setup_cluster_ip_services_example =
    lookup-setup_cluster_ip_services ln ln-IsWorking svcs endpoints_map start "10.0.0.1-tcp-80"
