-- ===== src/Objects.antt =====
-- The objects of the Kubernetes API that the controllers read, and what is asked of them
-- (pkg/utils/service.go). The caches of the client library are parameters.
mod Tests
use Prim.Native.Char.{Char, code}
use Prim.Native.String.{char_at}
use kube_router.Prelude.{
  String, ℕ, ◌+◌, ◌-◌, Bool, true, false, Option, none, some, List, [], ◌∷◌, ◌&&◌, ◌||◌, all, leb,
  eqb, if◌then◌else◌, ◌==◌, not,
}
use kube_router.Dict.{lookup}
use kube_router.Exec.{Result, ok, err}

-- v1.ServicePort, its target port as a text.
pub record ServicePort : Type 0 where
  pub name : String
  pub protocol : String
  pub port : ℕ
  pub target_port : String
  pub node_port : ℕ

-- v1.Service. Of the ingresses of a load balancer only the addresses are kept. The timeout of the session
-- affinity is there if the affinity is ClientIP.
pub record ServiceObject : Type 0 where
  pub namespace : String
  pub name : String
  pub type_name : String
  pub cluster_ip : String
  pub cluster_ips : List String
  pub external_ips : List String
  pub ingress_ips : List String
  pub external_traffic_policy : String
  pub ports : List ServicePort
  pub session_affinity : String
  pub session_affinity_timeout_seconds : ℕ
  pub annotations : List (String × String)

-- v1.EndpointAddress; the name of the node is a pointer.
pub record EndpointAddress : Type 0 where
  pub ip : String
  pub node_name : Option String

-- v1.EndpointPort and v1.EndpointSubset.
pub record EndpointPort : Type 0 where
  pub name : String
  pub port : ℕ

pub record EndpointSubset : Type 0 where
  pub addresses : List EndpointAddress
  pub ports : List EndpointPort

-- v1.Endpoints
pub record EndpointsObject : Type 0 where
  pub namespace : String
  pub name : String
  pub annotations : List (String × String)
  pub subsets : List EndpointSubset

-- What a handler is given as `interface{}`.
pub data Object : Type 0 where
  service_object : ServiceObject → Object
  endpoints_object : EndpointsObject → Object
  deleted_final_state_unknown : Object → Object
  other_object : Object

-- obj.(*v1.Service)
unfoldable pub as_service : Object → Option ServiceObject
as_service (service_object svc) = some svc
as_service _ = none

-- `_, exists := annotations[annotation]`
unfoldable pub annotated : String → List (String × String) → Bool
annotated annotation annotations = elim (lookup annotation annotations) [
  | none ↦ false
  | some value ↦ true
]

-- The addresses of the ingresses of a load balancer that are not blank.
unfoldable pub nonblank : List String → List String
nonblank [] = []
nonblank (ip ∷ ips) = let rest = nonblank ips in if ip == "" then rest else ip ∷ rest

-- strings.ToLower on ASCII texts. No character outside ASCII has n, o or e as its lower case.
unfoldable lower : Char → Char
lower c =
    if leb 65 (code c) && leb (code c) 90
    then char_at "abcdefghijklmnopqrstuvwxyz" (code c - 65)
    else c

unfoldable pub to_lower : String → String
unfolding lower
to_lower String.[] = String.[]
to_lower (String.◌∷◌ c s) = String.◌∷◌ (lower c) (to_lower s)

-- ClusterIPIsNone
unfoldable pub cluster_ip_is_none : String → Bool
unfolding to_lower
cluster_ip_is_none cluster_ip = to_lower cluster_ip == "none"

-- ClusterIPIsNoneOrBlank
unfoldable pub cluster_ip_is_none_or_blank : String → Bool
unfolding cluster_ip_is_none
cluster_ip_is_none_or_blank cluster_ip = cluster_ip_is_none cluster_ip || (cluster_ip == "")

-- containsOnlyNone
unfoldable pub contains_only_none : List String → Bool
unfolding cluster_ip_is_none
contains_only_none [] = true
contains_only_none (cluster_ip ∷ cluster_ips) =
    let rest = contains_only_none cluster_ips in
    if not (cluster_ip_is_none cluster_ip) then false else rest

unfoldable pub is_headless : ServiceObject → Bool
unfolding cluster_ip_is_none contains_only_none
is_headless svc =
    (svc.type_name == "ClusterIP")
    && (cluster_ip_is_none svc.cluster_ip && contains_only_none svc.cluster_ips)

-- ServiceIsHeadless; false of anything that is not a service.
unfoldable pub service_is_headless : Object → Bool
unfolding is_headless as_service
service_is_headless obj = elim (as_service obj) [ none ↦ false | some svc ↦ is_headless svc ]

-- cache.Indexer and cache.MetaNamespaceKeyFunc.
pub record Caches : Type 0 where
  pub key_of : String → String → Result String
  pub list_services : List ServiceObject
  pub service_by_key : String → Result (Option Object)
  pub endpoints_by_key : String → Result (Option Object)

-- ServiceForEndpoints
unfoldable pub find_by_key :
    (String → Result (Option Object)) → Result String → Result (Option Object)
find_by_key by_key (err e) = err e
find_by_key by_key (ok key) = by_key key

unfoldable pub service_for_endpoints : Caches → EndpointsObject → Result (Option Object)
unfolding find_by_key
service_for_endpoints caches ep =
    find_by_key caches.service_by_key (caches.key_of ep.namespace ep.name)
