-- ===== src/Routing/Events.antt =====
-- The handlers of services and endpoints (pkg/controllers/routing/ecmp_vip.go): what they announce to and
-- withdraw from the BGP server.
pub mod Withdrawn
pub mod Rib
pub mod Advertised
pub mod Spared
mod Tests
use kube_router.Prelude.{
  String, Bool, true, false, Option, none, some, List, [], ◌∷◌, ◌++◌, not, any, if◌then◌else◌, ◌==◌,
}
use kube_router.Prelude.Text.{cat, join, contains}
use kube_router.Exec.{Result, ok, err}
use kube_router.Dict.{lookup, insert}
use kube_router.Objects.{
  ServiceObject, EndpointsObject, Object, service_object, endpoints_object,
  deleted_final_state_unknown, other_object, as_service, service_is_headless, service_for_endpoints,
}
use kube_router.Routing.Bgp.{BgpPath, Server, Nrc}
use kube_router.Routing.Vips.{
  get_all_vips_for_service, get_active_vips, get_external_ips, is_endpoints_for_leader_election,
}
use kube_router.Routing.Policies.{add_policies}

-- getMissingPrevGen
unfoldable pub missing_from : String → List String → List String
missing_from look_in [] = []
missing_from look_in (s ∷ old) =
    let rest = missing_from look_in old in
    if contains look_in (cat " " (cat s " ")) then rest else s ∷ rest

unfoldable pub get_missing_prev_gen : List String → List String → List String
unfolding missing_from
get_missing_prev_gen old new = missing_from (cat " " (cat (join " " new) " ")) old

-- activeVIPsMap, and the loops that keep what is not in it.
unfoldable pub active_map : List String → List (String × Bool) → List (String × Bool)
active_map [] m = m
active_map (vip ∷ vips) m = active_map vips (insert vip true m)

unfoldable pub in_map : List (String × Bool) → String → Bool
in_map m vip = elim (lookup vip m) [ none ↦ false | some b ↦ b ]

unfoldable pub not_in_map : List (String × Bool) → List String → List String
unfolding in_map
not_in_map m [] = []
not_in_map m (vip ∷ vips) =
    let rest = not_in_map m vips in if not (in_map m vip) then vip ∷ rest else rest

-- The service of tryHandleServiceDelete, in the object itself or in a tombstone.
unfoldable pub deleted_service : Object → Option ServiceObject
unfolding as_service
deleted_service (service_object svc) = some svc
deleted_service (deleted_final_state_unknown obj) = as_service obj
deleted_service _ = none

unfoldable pub removed_external_ips : Option ServiceObject → Option ServiceObject → List String
unfolding get_missing_prev_gen get_external_ips
removed_external_ips (some svc_old) (some svc_new) =
    get_missing_prev_gen (get_external_ips svc_old) (get_external_ips svc_new)
removed_external_ips _ _ = []

-- What no active service uses; nothing if the active VIPs cannot be told.
unfoldable pub unused : List String → Result (List String × List String) → List String
unfolding not_in_map active_map
unused vips (err e) = []
unused vips (ok (active, inactive)) = not_in_map (active_map active []) vips

-- getExternalIPsToWithdraw
unfoldable pub get_external_ips_to_withdraw :
    Nrc → Option ServiceObject → Option ServiceObject → List String
unfolding unused removed_external_ips
get_external_ips_to_withdraw nrc svc_old svc_new =
    unused (removed_external_ips svc_old svc_new) (get_active_vips nrc)

module _ {W : Type 0} (server : Server W) (nrc : Nrc) (parse_ip : String → String) where
  -- The path of a VIP, with this node as the next hop.
  unfoldable pub vip_path : String → BgpPath
  vip_path vip = record { prefix = vip; prefix_len = 32; next_hop = nrc.node_ip }

  -- bgpAdvertiseVIP and bgpWithdrawVIP; the counters of metrics are left out.
  unfoldable pub bgp_advertise_vip : String → W → Result (Unit {0}) × W
  unfolding vip_path
  bgp_advertise_vip vip = server.add_path (vip_path vip)

  unfoldable pub bgp_withdraw_vip : String → W → Result (Unit {0}) × W
  unfolding vip_path
  bgp_withdraw_vip vip = server.delete_path (vip_path vip)

  -- advertiseVIPs and withdrawVIPs; an error is logged only.
  unfoldable pub advertise_vips : List String → W → W
  unfolding bgp_advertise_vip
  advertise_vips [] w = w
  advertise_vips (vip ∷ vips) w = advertise_vips vips (bgp_advertise_vip vip w).1

  unfoldable pub withdraw_vips : List String → W → W
  unfolding bgp_withdraw_vip
  withdraw_vips [] w = w
  withdraw_vips (vip ∷ vips) w = withdraw_vips vips (bgp_withdraw_vip vip w).1

  unfoldable pub announce : Result (List String × List String) → W → W
  unfolding advertise_vips withdraw_vips
  announce (err e) w = w
  announce (ok (to_advertise, to_withdraw)) w =
      withdraw_vips to_withdraw (advertise_vips to_advertise (add_policies server nrc parse_ip w).1)

  -- handleServiceUpdate
  unfoldable pub handle_service_update : W → W
  unfolding announce
  handle_service_update w =
      if not nrc.bgp_server_started then w else announce (get_active_vips nrc) w

  -- handleServiceDelete
  unfoldable pub handle_service_delete : ServiceObject → W → W
  unfolding withdraw_vips unused
  handle_service_delete svc w =
      let (advertise, unadvertise) = get_all_vips_for_service nrc svc in
      if not nrc.bgp_server_started
      then w
      else withdraw_vips (unused (advertise ++ unadvertise) (get_active_vips nrc))
          (add_policies server nrc parse_ip w).1

  -- tryHandleServiceUpdate
  unfoldable pub try_handle_service_update : Object → W → W
  unfolding handle_service_update as_service service_is_headless
  try_handle_service_update obj w = elim (as_service obj) [
    | none ↦ w
    | some svc ↦ if service_is_headless obj then w else handle_service_update w
  ]

  -- tryHandleServiceDelete, as it is: headless is asked of the object, not of the service in it.
  unfoldable pub try_handle_service_delete : Object → W → W
  unfolding deleted_service handle_service_delete service_is_headless
  try_handle_service_delete obj w = elim (deleted_service obj) [
    | none ↦ w
    | some svc ↦ if service_is_headless obj then w else handle_service_delete svc w
  ]

  -- OnServiceCreate, OnServiceUpdate, OnServiceDelete
  unfoldable pub on_service_create : Object → W → W
  unfolding try_handle_service_update
  on_service_create obj = try_handle_service_update obj

  unfoldable pub on_service_update : Object → Object → W → W
  unfolding try_handle_service_update withdraw_vips get_external_ips_to_withdraw as_service
  on_service_update obj_new obj_old w =
      withdraw_vips (get_external_ips_to_withdraw nrc (as_service obj_old) (as_service obj_new))
        (try_handle_service_update obj_new w)

  unfoldable pub on_service_delete : Object → W → W
  unfolding try_handle_service_delete
  on_service_delete obj = try_handle_service_delete obj

  unfoldable pub update_found : Result (Option Object) → W → W
  unfolding try_handle_service_update
  update_found (err e) w = w
  update_found (ok none) w = w
  update_found (ok (some obj)) w = try_handle_service_update obj w

  -- OnEndpointsUpdate
  unfoldable pub on_endpoints_update : Object → W → W
  unfolding update_found service_for_endpoints is_endpoints_for_leader_election
  on_endpoints_update (endpoints_object ep) w =
      let updated = update_found (service_for_endpoints nrc.caches ep) w in
      if is_endpoints_for_leader_election ep
      then w
      else (if not nrc.bgp_server_started then w else updated)
  on_endpoints_update _ w = w

  -- OnEndpointsAdd
  unfoldable pub on_endpoints_add : Object → W → W
  unfolding on_endpoints_update
  on_endpoints_add obj w = if not nrc.bgp_server_started then w else on_endpoints_update obj w

-- What the caches of services and endpoints report.
pub data Event : Type 0 where
  service_added : Object → Event
  service_updated : Object → Object → Event
  service_deleted : Object → Event
  endpoints_added : Object → Event
  endpoints_updated : Object → Object → Event
  endpoints_deleted : Object → Event

-- newServiceEventHandler and newEndpointsEventHandler
unfoldable pub handle_event : {W : Type 0} → Server W → Nrc → (String → String) → Event → W → W
unfolding on_service_create on_service_update on_service_delete on_endpoints_add on_endpoints_update
handle_event server nrc parse_ip (service_added obj) = on_service_create server nrc parse_ip obj
handle_event server nrc parse_ip (service_updated obj_old obj_new) =
    on_service_update server nrc parse_ip obj_new obj_old
handle_event server nrc parse_ip (service_deleted obj) = on_service_delete server nrc parse_ip obj
handle_event server nrc parse_ip (endpoints_added obj) = on_endpoints_add server nrc parse_ip obj
handle_event server nrc parse_ip (endpoints_updated obj_old obj_new) =
    on_endpoints_update server nrc parse_ip obj_new
handle_event server nrc parse_ip (endpoints_deleted obj) = λ w. w
