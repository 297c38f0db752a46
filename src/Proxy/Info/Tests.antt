-- ===== src/Proxy/Info/Tests.antt =====
-- Runs of the proxy's view of services and endpoints (pkg/controllers/proxy/network_services_controller.go).
use kube_router.Prelude.{String, ◌≡◌, refl, true, false, none, some, List, [], ◌∷◌}
use kube_router.Prelude.Text.{split}
use kube_router.Dict.{lookup, insert}
use kube_router.Objects.{EndpointSubset, EndpointsObject}
use kube_router.Proxy.Info.{
  EndpointInfo, shuffle, build_endpoints_info, trim, parse_sched_flags, scheduler_of,
}
use kube_router.Proxy.Info.Listed.{latest, entries_of_endpoints, lookup-build_endpoints_info}
use kube_router.Proxy.Sample.{endpoint}

test_trim : trim "  flag-1 " ≡ "flag-1"
unfolding trim
test_trim = refl

test_flags : (parse_sched_flags "flag-2, flag-1").flag1 ≡ true
unfolding parse_sched_flags split
test_flags = refl

test_scheduler : scheduler_of (some "sed") ≡ "rr"
unfolding scheduler_of
test_scheduler = refl

abbrev two : List EndpointInfo
two = endpoint "10.1.0.1" true ∷ endpoint "10.1.0.2" false ∷ []

test_shuffle : shuffle (λ i. 0) two ≡ endpoint "10.1.0.2" false ∷ endpoint "10.1.0.1" true ∷ []
unfolding shuffle
test_shuffle = refl

abbrev subset : String → EndpointSubset
subset ip = record {
  addresses = record { ip = ip; node_name = none } ∷ [];
  ports = record { name = "http"; port = 8080 } ∷ [];
}

abbrev split_web : List EndpointsObject
split_web =
    record {
      name = "web";
      namespace = "default";
      annotations = [];
      subsets = subset "10.1.0.1" ∷ subset "10.1.0.2" ∷ [];
    }
    ∷ []

-- Of two subsets with a port of the same name, the first is lost.
test_lost :
    lookup "default-web-http" (build_endpoints_info "node" (λ i. 0) split_web)
    ≡ some (endpoint "10.1.0.2" false ∷ [])
unfolding lookup build_endpoints_info insert
test_lost = refl

lookup-build_endpoints_info_example :
    lookup "default-web-http" (build_endpoints_info "node" (λ i. 0) split_web)
    ≡ latest "default-web-http" (entries_of_endpoints "node" (λ i. 0) split_web)
lookup-build_endpoints_info_example =
    lookup-build_endpoints_info "node" (λ i. 0) "default-web-http" split_web
