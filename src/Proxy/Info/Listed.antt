-- ===== src/Proxy/Info/Listed.antt =====
-- What the built maps hold (pkg/controllers/proxy/network_services_controller.go).
use kube_router.Prelude.{
  String, ℕ, ◌≡◌, refl, ◌∙◌, sym, ap, Bool, true, false, Option, none, some, List, [], ◌∷◌, ◌++◌,
  if◌then◌else◌, ◌==◌,
}
use kube_router.Dict.{lookup, insert, lookup-insert}
use kube_router.Objects.{
  ServicePort, ServiceObject, EndpointAddress, EndpointPort, EndpointSubset, EndpointsObject,
}
use kube_router.Proxy.Info.{
  ServiceInfo, EndpointInfo, ServiceInfoMap, EndpointsInfoMap, generate_service_id, service_info,
  add_ports, is_skipped, add_services, build_services_info, shuffle, endpoints_of,
  add_endpoint_ports, add_subsets, add_endpoints, build_endpoints_info,
}

module _ {V : Type 0} where
  abbrev pub or_else : Option V → Option V → Option V
  or_else none v = v
  or_else (some u) v = some u

  or_else-none : (o : Option V) → or_else o none ≡ o
  or_else-none none = refl
  or_else-none (some u) = refl

  -- The value of the last entry with the key.
  abbrev pub latest : String → List (String × V) → Option V
  latest key [] = none
  latest key (e ∷ es) = or_else (latest key es) (if e.0 == key then some e.1 else none)

  unfoldable insert_all : List (String × V) → List (String × V) → List (String × V)
  insert_all [] m = m
  insert_all (e ∷ es) m = insert_all es (insert e.0 e.1 m)

  pub regroup :
      (o : Option V) (b : Bool) (v : V) (old : Option V)
      → or_else o (if b then some v else old) ≡ or_else (or_else o (if b then some v else none)) old
  regroup none true v old = refl
  regroup none false v old = refl
  regroup (some u) b v old = refl

  insert_all-append :
      (es fs m : List (String × V)) → insert_all (es ++ fs) m ≡ insert_all fs (insert_all es m)
  unfolding insert_all
  insert_all-append [] fs m = refl
  insert_all-append (e ∷ es) fs m = insert_all-append es fs (insert e.0 e.1 m)

  lookup-insert_all :
      (key : String) (es m : List (String × V))
      → lookup key (insert_all es m) ≡ or_else (latest key es) (lookup key m)
  unfolding insert_all
  lookup-insert_all key [] m = refl
  lookup-insert_all key (e ∷ es) m =
      lookup-insert_all key es (insert e.0 e.1 m)
      ∙ ap (or_else (latest key es)) (lookup-insert e.0 key e.1 m)
      ∙ regroup (latest key es) (e.0 == key) e.1 (lookup key m)

module _ (parse_ip : String → String) where
  -- Each port of a service that is not skipped, in order.
  unfoldable pub entries_of_ports : ServiceObject → List ServicePort → List (String × ServiceInfo)
  entries_of_ports svc [] = []
  entries_of_ports svc (port ∷ ports) =
      (generate_service_id svc.namespace svc.name port.name, service_info parse_ip svc port)
      ∷ entries_of_ports svc ports

  unfoldable pub entries_of_services : List ServiceObject → List (String × ServiceInfo)
  unfolding entries_of_ports
  entries_of_services [] = []
  entries_of_services (svc ∷ svcs) =
      (if is_skipped parse_ip svc then [] else entries_of_ports svc svc.ports)
      ++ entries_of_services svcs

  add_ports-insert_all :
      (svc : ServiceObject) (ports : List ServicePort) (m : ServiceInfoMap)
      → add_ports parse_ip svc ports m ≡ insert_all (entries_of_ports svc ports) m
  unfolding add_ports entries_of_ports insert_all
  add_ports-insert_all svc [] m = refl
  add_ports-insert_all svc (port ∷ ports) m = add_ports-insert_all svc ports _

  skip-insert_all :
      (b : Bool) (es m : List (String × ServiceInfo))
      → (if b then m else insert_all es m) ≡ insert_all (if b then [] else es) m
  unfolding insert_all
  skip-insert_all true es m = refl
  skip-insert_all false es m = refl

  add_services-insert_all :
      (svcs : List ServiceObject) (m : ServiceInfoMap)
      → add_services parse_ip svcs m ≡ insert_all (entries_of_services svcs) m
  unfolding add_services entries_of_services insert_all
  add_services-insert_all [] m = refl
  add_services-insert_all (svc ∷ svcs) m =
      let skipped = is_skipped parse_ip svc in
      let es = entries_of_ports svc svc.ports in
      ap (λ n. add_services parse_ip svcs (if skipped then m else n))
        (add_ports-insert_all svc svc.ports m)
      ∙ ap (add_services parse_ip svcs) (skip-insert_all skipped es m)
      ∙ add_services-insert_all svcs (insert_all (if skipped then [] else es) m)
      ∙ sym (insert_all-append (if skipped then [] else es) (entries_of_services svcs) m)

  -- The map of services has a key exactly if it belongs to a port of a service with a cluster IP that is
  -- not of type ExternalName; the last such port is the one that it holds.
  lookup-build_services_info :
      (key : String) (svcs : List ServiceObject)
      → lookup key (build_services_info parse_ip svcs) ≡ latest key (entries_of_services svcs)
  unfolding build_services_info lookup
  lookup-build_services_info key svcs =
      ap (lookup key) (add_services-insert_all svcs [])
      ∙ lookup-insert_all key (entries_of_services svcs) []
      ∙ or_else-none (latest key (entries_of_services svcs))

module _ (node_host_name : String) (random : ℕ → ℕ) where
  abbrev pub endpoints_at : List EndpointAddress → ℕ → List EndpointInfo
  endpoints_at addrs port = shuffle random (endpoints_of node_host_name random addrs port)

  -- Each port of each subset, in order, with the addresses of that subset alone.
  unfoldable pub entries_of_endpoint_ports :
      EndpointsObject → List EndpointAddress → List EndpointPort → List (String × List EndpointInfo)
  entries_of_endpoint_ports ep addrs [] = []
  entries_of_endpoint_ports ep addrs (port ∷ ports) =
      (generate_service_id ep.namespace ep.name port.name, endpoints_at addrs port.port)
      ∷ entries_of_endpoint_ports ep addrs ports

  unfoldable pub entries_of_subsets :
      EndpointsObject → List EndpointSubset → List (String × List EndpointInfo)
  unfolding entries_of_endpoint_ports
  entries_of_subsets ep [] = []
  entries_of_subsets ep (subset ∷ subsets) =
      entries_of_endpoint_ports ep subset.addresses subset.ports ++ entries_of_subsets ep subsets

  unfoldable pub entries_of_endpoints : List EndpointsObject → List (String × List EndpointInfo)
  unfolding entries_of_subsets
  entries_of_endpoints [] = []
  entries_of_endpoints (ep ∷ eps) = entries_of_subsets ep ep.subsets ++ entries_of_endpoints eps

  add_endpoint_ports-insert_all :
      (ep : EndpointsObject) (addrs : List EndpointAddress) (ports : List EndpointPort)
      (m : EndpointsInfoMap)
      → add_endpoint_ports node_host_name random ep addrs ports m
        ≡ insert_all (entries_of_endpoint_ports ep addrs ports) m
  unfolding add_endpoint_ports entries_of_endpoint_ports insert_all
  add_endpoint_ports-insert_all ep addrs [] m = refl
  add_endpoint_ports-insert_all ep addrs (port ∷ ports) m =
      add_endpoint_ports-insert_all ep addrs ports _

  add_subsets-insert_all :
      (ep : EndpointsObject) (subsets : List EndpointSubset) (m : EndpointsInfoMap)
      → add_subsets node_host_name random ep subsets m
        ≡ insert_all (entries_of_subsets ep subsets) m
  unfolding add_subsets entries_of_subsets insert_all
  add_subsets-insert_all ep [] m = refl
  add_subsets-insert_all ep (subset ∷ subsets) m =
      let es = entries_of_endpoint_ports ep subset.addresses subset.ports in
      ap (add_subsets node_host_name random ep subsets)
        (add_endpoint_ports-insert_all ep subset.addresses subset.ports m)
      ∙ add_subsets-insert_all ep subsets (insert_all es m)
      ∙ sym (insert_all-append es (entries_of_subsets ep subsets) m)

  add_endpoints-insert_all :
      (eps : List EndpointsObject) (m : EndpointsInfoMap)
      → add_endpoints node_host_name random eps m ≡ insert_all (entries_of_endpoints eps) m
  unfolding add_endpoints entries_of_endpoints insert_all
  add_endpoints-insert_all [] m = refl
  add_endpoints-insert_all (ep ∷ eps) m =
      let es = entries_of_subsets ep ep.subsets in
      ap (add_endpoints node_host_name random eps) (add_subsets-insert_all ep ep.subsets m)
      ∙ add_endpoints-insert_all eps (insert_all es m)
      ∙ sym (insert_all-append es (entries_of_endpoints eps) m)

  -- The map of endpoints holds for a key the addresses of the last subset alone that has the port: those of
  -- earlier subsets with a port of the same name are lost.
  pub lookup-build_endpoints_info :
      (key : String) (eps : List EndpointsObject)
      → lookup key (build_endpoints_info node_host_name random eps)
        ≡ latest key (entries_of_endpoints eps)
  unfolding build_endpoints_info lookup
  lookup-build_endpoints_info key eps =
      ap (lookup key) (add_endpoints-insert_all eps [])
      ∙ lookup-insert_all key (entries_of_endpoints eps) []
      ∙ or_else-none (latest key (entries_of_endpoints eps))
