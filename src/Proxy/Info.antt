-- ===== src/Proxy/Info.antt =====
-- The proxy's own view of services and endpoints (buildServicesInfo, buildEndpointsInfo and what they use,
-- in pkg/controllers/proxy/network_services_controller.go). What net.ParseIP makes of a text is a
-- parameter, and so are the random numbers of the shuffle.
pub mod Shuffled
pub mod Listed
mod Tests
use Prim.Native.Char.{code}
use kube_router.Prelude.{
  String, ℕ, zero, suc, ◌+◌, ◌%◌, Bool, true, false, Option, none, some, List, [], ◌∷◌, ◌&&◌, ◌||◌,
  any, length, eqb, if◌then◌else◌, ◌==◌,
}
use kube_router.Prelude.Decimal.{itoa}
use kube_router.Prelude.Text.{cat, split}
use kube_router.Dict.{lookup, insert}
use kube_router.Objects.{
  ServicePort, ServiceObject, EndpointAddress, EndpointPort, EndpointSubset, EndpointsObject,
  to_lower, cluster_ip_is_none_or_blank, annotated, nonblank,
}

-- schedFlags
pub record SchedFlags : Type 0 where
  pub flag1 : Bool
  pub flag2 : Bool
  pub flag3 : Bool

-- serviceInfo; an address is its text.
pub record ServiceInfo : Type 0 where
  pub name : String
  pub namespace : String
  pub cluster_ip : String
  pub port : ℕ
  pub target_port : String
  pub protocol : String
  pub node_port : ℕ
  pub session_affinity : Bool
  pub session_affinity_timeout_seconds : ℕ
  pub direct_server_return : Bool
  pub scheduler : String
  pub direct_server_return_method : String
  pub hairpin : Bool
  pub hairpin_external_ips : Bool
  pub skip_lb_ips : Bool
  pub external_ips : List String
  pub load_balancer_ips : List String
  pub local : Bool
  pub flags : SchedFlags

-- endpointsInfo
pub record EndpointInfo : Type 0 where
  pub ip : String
  pub port : ℕ
  pub is_local : Bool

abbrev pub ServiceInfoMap : Type 0
ServiceInfoMap = List (String × ServiceInfo)

abbrev pub EndpointsInfoMap : Type 0
EndpointsInfoMap = List (String × List EndpointInfo)

-- generateServiceID, generateIPPortID and generateEndpointID
unfoldable pub generate_service_id : String → String → String → String
generate_service_id namespace svc_name port = cat namespace (cat "-" (cat svc_name (cat "-" port)))

unfoldable pub generate_ip_port_id : String → String → String → String
generate_ip_port_id ip protocol port = cat ip (cat "-" (cat protocol (cat "-" port)))

unfoldable pub generate_endpoint_id : String → String → String
generate_endpoint_id ip port = cat ip (cat ":" port)

-- hasActiveEndpoints
unfoldable pub has_active_endpoints : List EndpointInfo → Bool
has_active_endpoints [] = false
has_active_endpoints (endpoint ∷ endpoints) =
    let rest = has_active_endpoints endpoints in if endpoint.is_local then true else rest

-- strings.Trim(s, " ")
unfoldable trim_left : String → String
trim_left String.[] = String.[]
trim_left (String.◌∷◌ c s) =
    let rest = trim_left s in if eqb (code c) 32 then rest else String.◌∷◌ c s

unfoldable all_blank : String → Bool
all_blank String.[] = true
all_blank (String.◌∷◌ c s) = eqb (code c) 32 && all_blank s

unfoldable trim_right : String → String
unfolding all_blank
trim_right String.[] = String.[]
trim_right (String.◌∷◌ c s) =
    let rest = trim_right s in if all_blank (String.◌∷◌ c s) then String.[] else String.◌∷◌ c rest

unfoldable pub trim : String → String
unfolding trim_left trim_right
trim s = trim_right (trim_left s)

-- parseSchedFlags
unfoldable pub parse_sched_flags : String → SchedFlags
unfolding trim
parse_sched_flags value =
    let has = λ (flag : String). any (λ part. trim part == flag) (split "," value) in
    if value == ""
    then record { flag1 = false; flag2 = false; flag3 = false }
    else record { flag1 = has "flag-1"; flag2 = has "flag-2"; flag3 = has "flag-3" }

-- The switch on the annotation for the scheduler; any other method leaves round robin.
unfoldable pub scheduler_of : Option String → String
scheduler_of none = "rr"
scheduler_of (some method) =
    if any (λ known. method == known) ("rr" ∷ "lc" ∷ "dh" ∷ "sh" ∷ "mh" ∷ []) then method else "rr"

unfoldable pub flags_of : String → Option String → SchedFlags
unfolding parse_sched_flags
flags_of scheduler none = record { flag1 = false; flag2 = false; flag3 = false }
flags_of scheduler (some value) =
    if scheduler == "mh"
    then parse_sched_flags value
    else record { flag1 = false; flag2 = false; flag3 = false }

unfoldable pub method_of : Option String → String
method_of none = ""
method_of (some method) = method

module _ (parse_ip : String → String) where
  unfoldable pub service_info : ServiceObject → ServicePort → ServiceInfo
  unfolding annotated scheduler_of flags_of method_of nonblank to_lower
  service_info svc port =
      let scheduler = scheduler_of (lookup "kube-router.io/service.scheduler" svc.annotations) in
      record {
        name = svc.name;
        namespace = svc.namespace;
        cluster_ip = parse_ip svc.cluster_ip;
        port = port.port;
        target_port = port.target_port;
        protocol = to_lower port.protocol;
        node_port = port.node_port;
        session_affinity = svc.session_affinity == "ClientIP";
        session_affinity_timeout_seconds =
            if svc.session_affinity == "ClientIP" then svc.session_affinity_timeout_seconds else 0;
        direct_server_return = annotated "kube-router.io/service.dsr" svc.annotations;
        scheduler = scheduler;
        direct_server_return_method =
            method_of (lookup "kube-router.io/service.dsr" svc.annotations);
        hairpin = annotated "kube-router.io/service.hairpin" svc.annotations;
        hairpin_external_ips =
            annotated "kube-router.io/service.hairpin.externalips" svc.annotations;
        skip_lb_ips = annotated "kube-router.io/service.skiplbips" svc.annotations;
        external_ips = svc.external_ips;
        load_balancer_ips = nonblank svc.ingress_ips;
        local =
            annotated "kube-router.io/service.local" svc.annotations
            || (svc.external_traffic_policy == "Local");
        flags = flags_of scheduler (lookup "kube-router.io/service.schedflags" svc.annotations);
      }

  unfoldable pub add_ports : ServiceObject → List ServicePort → ServiceInfoMap → ServiceInfoMap
  unfolding service_info generate_service_id
  add_ports svc [] m = m
  add_ports svc (port ∷ ports) m =
      add_ports svc ports
        (insert (generate_service_id svc.namespace svc.name port.name) (service_info svc port) m)

  unfoldable pub is_skipped : ServiceObject → Bool
  is_skipped svc = cluster_ip_is_none_or_blank svc.cluster_ip || (svc.type_name == "ExternalName")

  unfoldable pub add_services : List ServiceObject → ServiceInfoMap → ServiceInfoMap
  unfolding add_ports is_skipped
  add_services [] m = m
  add_services (svc ∷ svcs) m =
      add_services svcs (if is_skipped svc then m else add_ports svc svc.ports m)

  -- buildServicesInfo
  unfoldable pub build_services_info : List ServiceObject → ServiceInfoMap
  unfolding add_services
  build_services_info svcs = add_services svcs []

-- `endPoints[i], endPoints[j] = endPoints[j], endPoints[i]`
unfoldable pub nth : {A : Type 0} → A → ℕ → List A → A
nth default i [] = default
nth default zero (x ∷ xs) = x
nth default (suc i) (x ∷ xs) = nth default i xs

unfoldable pub set_nth : {A : Type 0} → A → ℕ → List A → List A
set_nth v i [] = []
set_nth v zero (x ∷ xs) = v ∷ xs
set_nth v (suc i) (x ∷ xs) = x ∷ set_nth v i xs

unfoldable pub swap : {A : Type 0} → A → ℕ → ℕ → List A → List A
unfolding nth set_nth
swap default i j xs = set_nth (nth default i xs) j (set_nth (nth default j xs) i xs)

-- The loop of shuffle; `random i` modulo i + 1 stands for rand.Intn(i + 1).
unfoldable pub shuffle_from : {A : Type 0} → A → (ℕ → ℕ) → ℕ → ℕ → List A → List A
unfolding swap
shuffle_from default random zero i xs = xs
shuffle_from default random (suc rounds) i xs =
    shuffle_from default random rounds (suc i) (swap default i (random i % suc i) xs)

abbrev pub no_endpoint : EndpointInfo
no_endpoint = record { ip = ""; port = 0; is_local = false }

-- shuffle
unfoldable pub shuffle : (ℕ → ℕ) → List EndpointInfo → List EndpointInfo
unfolding shuffle_from
shuffle random endpoints = shuffle_from no_endpoint random (length endpoints) 0 endpoints

module _ (node_host_name : String) (random : ℕ → ℕ) where
  unfoldable pub is_here : Option String → Bool
  is_here none = false
  is_here (some name) = name == node_host_name

  unfoldable pub endpoints_of : List EndpointAddress → ℕ → List EndpointInfo
  unfolding is_here
  endpoints_of [] port = []
  endpoints_of (addr ∷ addrs) port =
      record { ip = addr.ip; port = port; is_local = is_here addr.node_name }
      ∷ endpoints_of addrs port

  unfoldable pub add_endpoint_ports :
      EndpointsObject
      → List EndpointAddress
      → List EndpointPort
      → EndpointsInfoMap
      → EndpointsInfoMap
  unfolding endpoints_of shuffle generate_service_id
  add_endpoint_ports ep addrs [] m = m
  add_endpoint_ports ep addrs (port ∷ ports) m = add_endpoint_ports ep addrs ports (
      insert (generate_service_id ep.namespace ep.name port.name)
        (shuffle random (endpoints_of addrs port.port)) m)

  unfoldable pub add_subsets :
      EndpointsObject → List EndpointSubset → EndpointsInfoMap → EndpointsInfoMap
  unfolding add_endpoint_ports
  add_subsets ep [] m = m
  add_subsets ep (subset ∷ subsets) m =
      add_subsets ep subsets (add_endpoint_ports ep subset.addresses subset.ports m)

  unfoldable pub add_endpoints : List EndpointsObject → EndpointsInfoMap → EndpointsInfoMap
  unfolding add_subsets
  add_endpoints [] m = m
  add_endpoints (ep ∷ eps) m = add_endpoints eps (add_subsets ep ep.subsets m)

  -- buildEndpointsInfo
  unfoldable pub build_endpoints_info : List EndpointsObject → EndpointsInfoMap
  unfolding add_endpoints
  build_endpoints_info eps = add_endpoints eps []
