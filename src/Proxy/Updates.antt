-- ===== src/Proxy/Updates.antt =====
-- What an update of a service or of endpoints does to the proxy (OnServiceUpdate, OnEndpointsUpdate and the
-- handlers of pkg/controllers/proxy/network_services_controller.go), and how it compares endpoints
-- (pkg/controllers/proxy/utils.go). What net.ParseIP makes of a text, the random numbers of the shuffles
-- and reflect.DeepEqual are parameters.
pub mod Compared
pub mod Requested
mod Tests
use kube_router.Prelude.{
  String, ℕ, suc, Bool, true, false, Option, none, some, List, [], ◌∷◌, ◌++◌, ◌&&◌, ◌||◌, not, all,
  eqb, length, ltb, if◌then◌else◌, ◌==◌,
}
use kube_router.Exec.{Result, ok, err}
use kube_router.Dict.{lookup}
use kube_router.Objects.{
  ServiceObject, EndpointsObject, Object, service_object, endpoints_object,
  deleted_final_state_unknown, other_object, as_service, Caches, service_for_endpoints,
  service_is_headless,
}
use kube_router.Proxy.Info.{
  EndpointInfo, ServiceInfoMap, EndpointsInfoMap, build_services_info, build_endpoints_info,
}
use kube_router.Routing.Events.{
  Event, service_added, service_updated, service_deleted, endpoints_added, endpoints_updated,
  endpoints_deleted,
}
use kube_router.Routing.Vips.{is_endpoints_for_leader_election}

abbrev pub same_bool : Bool → Bool → Bool
same_bool true b = b
same_bool false b = not b

-- Equality of two endpointsInfo values.
unfoldable pub same_info : EndpointInfo → EndpointInfo → Bool
same_info e f = (e.ip == f.ip) && (eqb e.port f.port && same_bool e.is_local f.is_local)

-- The map from endpoints to numbers of unsortedListsEquivalent.
abbrev pub Values : Type 0
Values = List (EndpointInfo × ℕ)

unfoldable pub value_of : EndpointInfo → Values → ℕ
value_of k [] = 0
value_of k (e ∷ m) = let later = value_of k m in if same_info e.0 k then e.1 else later

-- `values[val] = 1`
unfoldable pub mark : EndpointInfo → Values → Values
mark v [] = (v, 1) ∷ []
mark v (e ∷ m) = let later = mark v m in if same_info e.0 v then (e.0, 1) ∷ m else e ∷ later

-- `values[val]++`
unfoldable pub bump : EndpointInfo → Values → Values
bump v [] = (v, 1) ∷ []
bump v (e ∷ m) = let later = bump v m in if same_info e.0 v then (e.0, suc e.1) ∷ m else e ∷ later

unfoldable pub mark_all : List EndpointInfo → Values → Values
unfolding mark
mark_all [] m = m
mark_all (v ∷ vs) m = mark_all vs (mark v m)

unfoldable pub bump_all : List EndpointInfo → Values → Values
unfolding bump
bump_all [] m = m
bump_all (v ∷ vs) m = bump_all vs (bump v m)

unfoldable pub info_keys : Values → List EndpointInfo
info_keys [] = []
info_keys (e ∷ m) = e.0 ∷ info_keys m

-- The last loop, over the map.
unfoldable pub no_ones : Values → Bool
unfolding value_of info_keys
no_ones m = all (λ k. not (eqb (value_of k m) 1)) (info_keys m)

-- unsortedListsEquivalent
unfoldable pub unsorted_lists_equivalent : List EndpointInfo → List EndpointInfo → Bool
unfolding mark_all bump_all no_ones
unsorted_lists_equivalent a b = eqb (length a) (length b) && no_ones (bump_all b (mark_all a []))

-- endpointsMapsEquivalent
unfoldable pub equivalent_in : EndpointsInfoMap → String × List EndpointInfo → Bool
unfolding unsorted_lists_equivalent
equivalent_in b entry = elim (lookup entry.0 b) [
  | none ↦ false
  | some found ↦ unsorted_lists_equivalent entry.1 found
]

unfoldable pub endpoints_maps_equivalent : EndpointsInfoMap → EndpointsInfoMap → Bool
unfolding equivalent_in
endpoints_maps_equivalent a b = eqb (length a) (length b) && all (equivalent_in b) a

-- The part of NetworkServicesController that an update reads and writes; `pending` is the length of
-- syncChan, on which this code sends requests for IPVS syncs alone.
pub record Watch : Type 0 where
  pub ready_for_updates : Bool
  pub service_map : ServiceInfoMap
  pub endpoints_map : EndpointsInfoMap
  pub pending : ℕ

-- sync: a request is dropped if two are pending.
unfoldable pub request_sync : Watch → Watch
request_sync st = record st { pending = if ltb st.pending 2 then suc st.pending else st.pending }

module _ (parse_ip : String → String) (node_host_name : String) (random : ℕ → ℕ)
    (same_services : ServiceInfoMap → ServiceInfoMap → Bool) (caches : Caches)
    (eps : List EndpointsObject) where
  unfoldable pub rebuilt : Watch → Watch
  unfolding request_sync build_services_info build_endpoints_info
  rebuilt st = request_sync (record st {
    service_map = build_services_info parse_ip caches.list_services;
    endpoints_map = build_endpoints_info node_host_name random eps;
  })

  unfoldable pub update_found : Result (Option Object) → Watch → Watch
  unfolding rebuilt endpoints_maps_equivalent
  update_found (err e) st = st
  update_found (ok none) st = st
  update_found (ok (some svc)) st =
      if service_is_headless svc
      then st
      else (if endpoints_maps_equivalent (build_endpoints_info node_host_name random eps)
            st.endpoints_map
          then st
          else rebuilt st)

  -- OnEndpointsUpdate
  unfoldable pub on_endpoints_update : EndpointsObject → Watch → Watch
  unfolding update_found
  on_endpoints_update ep st =
      if is_endpoints_for_leader_election ep
      then st
      else (if st.ready_for_updates then update_found (service_for_endpoints caches ep) st else st)

  -- OnServiceUpdate
  unfoldable pub on_service_update : ServiceObject → Watch → Watch
  unfolding rebuilt
  on_service_update svc st =
      if not st.ready_for_updates || service_is_headless (service_object svc)
      then st
      else (if eqb (length (build_services_info parse_ip caches.list_services))
              (length st.service_map)
            && same_services (build_services_info parse_ip caches.list_services) st.service_map
          then st
          else rebuilt st)

  unfoldable pub with_endpoints : Object → Watch → Watch
  unfolding on_endpoints_update
  with_endpoints (endpoints_object ep) st = on_endpoints_update ep st
  with_endpoints _ st = st

  unfoldable pub with_service : Object → Watch → Watch
  unfolding on_service_update
  with_service (service_object svc) st = on_service_update svc st
  with_service _ st = st

  -- handleEndpointsDelete and handleServiceDelete
  unfoldable pub handle_endpoints_delete : Object → Watch → Watch
  unfolding with_endpoints
  handle_endpoints_delete (deleted_final_state_unknown obj) st = with_endpoints obj st
  handle_endpoints_delete obj st = with_endpoints obj st

  unfoldable pub handle_service_delete : Object → Watch → Watch
  unfolding with_service
  handle_service_delete (deleted_final_state_unknown obj) st = with_service obj st
  handle_service_delete obj st = with_service obj st

  unfoldable pub is_service : Object → Bool
  unfolding as_service
  is_service obj = elim (as_service obj) [ none ↦ false | some svc ↦ true ]

  unfoldable pub is_endpoints : Object → Bool
  is_endpoints (endpoints_object ep) = true
  is_endpoints _ = false

  -- newSvcEventHandler and newEndpointsEventHandler, with the other handlers
  unfoldable pub handle_update : Event → Watch → Watch
  unfolding with_endpoints with_service handle_endpoints_delete handle_service_delete is_service
      is_endpoints
  handle_update (service_added obj) st = with_service obj st
  handle_update (service_updated obj_old obj_new) st =
      if is_service obj_old then with_service obj_new st else st
  handle_update (service_deleted obj) st = handle_service_delete obj st
  handle_update (endpoints_added obj) st = with_endpoints obj st
  handle_update (endpoints_updated obj_old obj_new) st =
      if is_endpoints obj_old then with_endpoints obj_new st else st
  handle_update (endpoints_deleted obj) st = handle_endpoints_delete obj st
