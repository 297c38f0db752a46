-- ===== src/Proxy/Updates/Requested.antt =====
-- What an update of a service or of endpoints leaves
-- (pkg/controllers/proxy/network_services_controller.go).
use kube_router.Prelude.{
  String, ℕ, ◌<◌, ◌≡◌, refl, Bool, true, false, Option, none, some, List, ◌⊎◌, inl, inr, arith,
  if◌then◌else◌,
}
use kube_router.Exec.{Result, ok, err}
use kube_router.Objects.{
  EndpointsObject, Object, service_object, endpoints_object, deleted_final_state_unknown,
  other_object, Caches, service_for_endpoints,
}
use kube_router.Proxy.Info.{ServiceInfoMap, build_services_info, build_endpoints_info}
use kube_router.Proxy.Updates.{
  Watch, request_sync, rebuilt, update_found, on_endpoints_update, on_service_update,
  with_endpoints, with_service, handle_endpoints_delete, handle_service_delete, handle_update,
}
use kube_router.Routing.Events.{
  Event, service_added, service_updated, service_deleted, endpoints_added, endpoints_updated,
  endpoints_deleted,
}

pending-request_sync : (st : Watch) → 0 < (request_sync st).pending
unfolding request_sync
pending-request_sync st = ground arith

module _ (parse_ip : String → String) (node_host_name : String) (random : ℕ → ℕ)
    (same_services : ServiceInfoMap → ServiceInfoMap → Bool) (caches : Caches)
    (eps : List EndpointsObject) where
  -- Nothing has changed, or the maps are those of the caches and a sync is pending.
  abbrev pub Requested : Watch → Watch → Type 0
  Requested st st' =
      (st' ≡ st)
      ⊎ ((st'.service_map ≡ build_services_info parse_ip caches.list_services)
          × (st'.endpoints_map ≡ build_endpoints_info node_host_name random eps)
          × (0 < st'.pending))

  Requested-if :
      (b : Bool) (st x y : Watch)
      → Requested st x
      → Requested st y
      → Requested st (if b then x else y)
  Requested-if true st x y h k = h
  Requested-if false st x y h k = k

  Requested-rebuilt :
      (st : Watch)
      → Requested st (rebuilt parse_ip node_host_name random same_services caches eps st)
  unfolding rebuilt request_sync
  Requested-rebuilt st = inr (
    refl,
    refl,
    pending-request_sync (record st {
      service_map = build_services_info parse_ip caches.list_services;
      endpoints_map = build_endpoints_info node_host_name random eps;
    }),
  )

  Requested-update_found :
      (r : Result (Option Object)) (st : Watch)
      → Requested st (update_found parse_ip node_host_name random same_services caches eps r st)
  unfolding update_found
  Requested-update_found (err e) st = inl refl
  Requested-update_found (ok none) st = inl refl
  Requested-update_found (ok (some svc)) st =
      Requested-if _ st _ _ (inl refl) (Requested-if _ st _ _ (inl refl) (Requested-rebuilt st))

  Requested-with_endpoints :
      (obj : Object) (st : Watch)
      → Requested st (with_endpoints parse_ip node_host_name random same_services caches eps obj st)
  unfolding with_endpoints on_endpoints_update
  Requested-with_endpoints (endpoints_object ep) st = Requested-if _ st _ _ (inl refl) (
      Requested-if _ st _ _ (Requested-update_found (service_for_endpoints caches ep) st)
        (inl refl))
  Requested-with_endpoints (service_object svc) st = inl refl
  Requested-with_endpoints (deleted_final_state_unknown obj) st = inl refl
  Requested-with_endpoints other_object st = inl refl

  Requested-with_service :
      (obj : Object) (st : Watch)
      → Requested st (with_service parse_ip node_host_name random same_services caches eps obj st)
  unfolding with_service on_service_update
  Requested-with_service (service_object svc) st =
      Requested-if _ st _ _ (inl refl) (Requested-if _ st _ _ (inl refl) (Requested-rebuilt st))
  Requested-with_service (endpoints_object ep) st = inl refl
  Requested-with_service (deleted_final_state_unknown obj) st = inl refl
  Requested-with_service other_object st = inl refl

  -- Whatever event arrives, either nothing that the proxy keeps changes, or its maps are those built from
  -- the caches, both of them, and a sync is pending: no change is taken in without a sync to follow.
  pub handle_update-Requested :
      (event : Event) (st : Watch)
      → Requested st
          (handle_update parse_ip node_host_name random same_services caches eps event st)
  unfolding handle_update handle_service_delete handle_endpoints_delete
  handle_update-Requested (service_added obj) st = Requested-with_service obj st
  handle_update-Requested (service_updated obj_old obj_new) st =
      Requested-if _ st _ _ (Requested-with_service obj_new st) (inl refl)
  handle_update-Requested (service_deleted (service_object svc)) st =
      Requested-with_service (service_object svc) st
  handle_update-Requested (service_deleted (endpoints_object ep)) st = inl refl
  handle_update-Requested (service_deleted (deleted_final_state_unknown obj)) st =
      Requested-with_service obj st
  handle_update-Requested (service_deleted other_object) st = inl refl
  handle_update-Requested (endpoints_added obj) st = Requested-with_endpoints obj st
  handle_update-Requested (endpoints_updated obj_old obj_new) st =
      Requested-if _ st _ _ (Requested-with_endpoints obj_new st) (inl refl)
  handle_update-Requested (endpoints_deleted (service_object svc)) st = inl refl
  handle_update-Requested (endpoints_deleted (endpoints_object ep)) st =
      Requested-with_endpoints (endpoints_object ep) st
  handle_update-Requested (endpoints_deleted (deleted_final_state_unknown obj)) st =
      Requested-with_endpoints obj st
  handle_update-Requested (endpoints_deleted other_object) st = inl refl
