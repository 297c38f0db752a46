-- ===== src/Routing/Vips.antt =====
-- The VIPs of services: which to advertise and which to withdraw (pkg/controllers/routing/ecmp_vip.go).
pub mod Split
pub mod Wanted
pub mod Fails
mod Tests
use kube_router.Prelude.{
  String, Bool, true, false, Option, none, some, List, [], ◌∷◌, ◌++◌, ◌&&◌, ◌||◌, not, any,
  is_empty, if◌then◌else◌, ◌==◌,
}
use kube_router.Exec.{Result, ok, err}
use kube_router.Dict.{lookup}
use kube_router.Objects.{
  ServiceObject, EndpointAddress, EndpointsObject, Object, endpoints_object, Caches, find_by_key,
  cluster_ip_is_none_or_blank, annotated, nonblank,
}
use kube_router.Routing.Bgp.{Nrc}

-- The condition that the three functions on addresses share.
unfoldable pub has_vip_type : ServiceObject → Bool
has_vip_type svc =
    (svc.type_name == "ClusterIP")
    || ((svc.type_name == "NodePort") || (svc.type_name == "LoadBalancer"))

-- getClusterIP
unfoldable pub get_cluster_ip : ServiceObject → String
unfolding has_vip_type
get_cluster_ip svc =
    if has_vip_type svc && not (cluster_ip_is_none_or_blank svc.cluster_ip)
    then svc.cluster_ip
    else ""

-- getExternalIPs
unfoldable pub get_external_ips : ServiceObject → List String
unfolding has_vip_type
get_external_ips svc =
    if has_vip_type svc && not (cluster_ip_is_none_or_blank svc.cluster_ip)
    then svc.external_ips
    else []

-- getLoadBalancerIPs
unfoldable pub get_load_balancer_ips : ServiceObject → List String
unfolding nonblank
get_load_balancer_ips svc =
    if (svc.type_name == "LoadBalancer") && not (cluster_ip_is_none_or_blank svc.cluster_ip)
    then nonblank svc.ingress_ips
    else []

-- strconv.ParseBool, whose value beside an error is false.
unfoldable pub parse_bool : String → Bool
parse_bool s = any (λ t. s == t) ("1" ∷ "t" ∷ "T" ∷ "true" ∷ "TRUE" ∷ "True" ∷ [])

-- shouldAdvertiseService
unfoldable pub should_advertise_service : ServiceObject → String → Bool → Bool
unfolding parse_bool
should_advertise_service svc annotation default_value = elim (lookup annotation svc.annotations) [
  | none ↦ default_value
  | some string_value ↦ parse_bool string_value
]

abbrev pub svc_local_annotation : String
svc_local_annotation = "kube-router.io/service.local"

abbrev pub svc_advertise_cluster_annotation : String
svc_advertise_cluster_annotation = "kube-router.io/service.advertise.clusterip"

abbrev pub svc_advertise_external_annotation : String
svc_advertise_external_annotation = "kube-router.io/service.advertise.externalip"

abbrev pub svc_advertise_load_balancer_annotation : String
svc_advertise_load_balancer_annotation = "kube-router.io/service.advertise.loadbalancerip"

abbrev pub svc_skip_lb_ips_annotation : String
svc_skip_lb_ips_annotation = "kube-router.io/service.skiplbips"

-- What one kind of VIPs adds to the lists to advertise and not to advertise.
unfoldable pub put : Bool → List String → List String × List String → List String × List String
put advertise ips (advertised, unadvertised) =
    if advertise then (advertised ++ ips, unadvertised) else (advertised, unadvertised ++ ips)

unfoldable pub one_unless_blank : String → List String
one_unless_blank ip = if ip == "" then [] else ip ∷ []

-- isLocal of getVIPsForService
unfoldable pub is_local : ServiceObject → Bool
unfolding annotated
is_local svc =
    annotated svc_local_annotation svc.annotations || (svc.external_traffic_policy == "Local")

-- isEndpointsForLeaderElection
unfoldable pub is_endpoints_for_leader_election : EndpointsObject → Bool
unfolding annotated
is_endpoints_for_leader_election ep =
    annotated "control-plane.alpha.kubernetes.io/leader" ep.annotations

unfoldable pub unless_elsewhere :
    List String × List String → Result Bool → Result (List String × List String)
unless_elsewhere vips (err e) = err e
unless_elsewhere vips (ok true) = ok vips
unless_elsewhere vips (ok false) = ok ([], vips.0 ++ vips.1)

unfoldable pub gather :
    Result (List String × List String)
    → Result (List String × List String)
    → Result (List String × List String)
gather (err e) more = err e
gather (ok vips) (err e) = err e
gather (ok vips) (ok more) = ok (vips.0 ++ more.0, vips.1 ++ more.1)

-- The second loop of getVIPs: what is advertised is not withdrawn.
unfoldable pub final_withdraw : List String → List String → List String
final_withdraw advertise [] = []
final_withdraw advertise (vip ∷ vips) =
    let rest = final_withdraw advertise vips in
    if any (λ advertised. vip == advertised) advertise then rest else vip ∷ rest

unfoldable pub finish_vips : Result (List String × List String) → Result (List String × List String)
unfolding final_withdraw
finish_vips (err e) = err e
finish_vips (ok vips) = ok (vips.0, final_withdraw vips.0 vips.1)

module _ (nrc : Nrc) where
  -- getAllVIPsForService
  unfoldable pub get_all_vips_for_service : ServiceObject → List String × List String
  unfolding put should_advertise_service annotated one_unless_blank get_cluster_ip get_external_ips
      get_load_balancer_ips
  get_all_vips_for_service svc =
      put
        (should_advertise_service svc svc_advertise_load_balancer_annotation
            nrc.advertise_load_balancer_ip
          && not (annotated svc_skip_lb_ips_annotation svc.annotations))
        (get_load_balancer_ips svc)
        (put
          (should_advertise_service svc svc_advertise_external_annotation nrc.advertise_external_ip)
          (get_external_ips svc)
          (put
            (should_advertise_service svc svc_advertise_cluster_annotation nrc.advertise_cluster_ip)
            (one_unless_blank (get_cluster_ip svc)) ([], [])))

  -- The test of the loop in nodeHasEndpointsForService.
  unfoldable pub on_this_node : EndpointAddress → Bool
  on_this_node address = elim address.node_name [
    | some name ↦ name == nrc.node_name
    | none ↦ address.ip == nrc.node_ip
  ]

  unfoldable pub has_endpoints : ServiceObject → Result (Option Object) → Result Bool
  unfolding on_this_node
  has_endpoints svc (err e) = err e
  has_endpoints svc (ok none) = err "endpoint resource doesn't exist for service"
  has_endpoints svc (ok (some (endpoints_object ep))) =
      ok (any (λ subset. any on_this_node subset.addresses) ep.subsets)
  has_endpoints svc (ok (some _)) = err "failed to convert cache item to Endpoints type"

  -- nodeHasEndpointsForService
  unfoldable pub node_has_endpoints_for_service : ServiceObject → Result Bool
  unfolding has_endpoints find_by_key
  node_has_endpoints_for_service svc =
      has_endpoints svc
        (find_by_key nrc.caches.endpoints_by_key (nrc.caches.key_of svc.namespace svc.name))

  -- getVIPsForService
  unfoldable pub get_vips_for_service : ServiceObject → Bool → Result (List String × List String)
  unfolding unless_elsewhere is_local node_has_endpoints_for_service get_all_vips_for_service
  get_vips_for_service svc only_active_endpoints = unless_elsewhere (get_all_vips_for_service svc) (
      if only_active_endpoints && is_local svc then node_has_endpoints_for_service svc else ok true)

  -- The first loop of getVIPs.
  unfoldable pub vips_of_services : List ServiceObject → Bool → Result (List String × List String)
  unfolding gather get_vips_for_service
  vips_of_services [] only_active_endpoints = ok ([], [])
  vips_of_services (svc ∷ svcs) only_active_endpoints =
      gather (get_vips_for_service svc only_active_endpoints)
        (vips_of_services svcs only_active_endpoints)

  -- getVIPs; getAllVIPs with `false`, getActiveVIPs with `true`.
  unfoldable pub get_vips : Bool → Result (List String × List String)
  unfolding finish_vips vips_of_services
  get_vips only_active_endpoints =
      finish_vips (vips_of_services nrc.caches.list_services only_active_endpoints)

  unfoldable pub get_all_vips : Result (List String × List String)
  unfolding get_vips
  get_all_vips = get_vips false

  unfoldable pub get_active_vips : Result (List String × List String)
  unfolding get_vips
  get_active_vips = get_vips true
