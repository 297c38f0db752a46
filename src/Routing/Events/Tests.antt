-- ===== src/Routing/Events/Tests.antt =====
-- Runs of the handlers (pkg/controllers/routing/ecmp_vip.go).
use kube_router.Prelude.{String, ◌≡◌, refl, true, some, [], ◌∷◌, ◌&&◌, not, any, if◌then◌else◌}
use kube_router.Exec.{ok}
use kube_router.Dict.{lookup}
use kube_router.Objects.{service_object, cluster_ip_is_none_or_blank}
use kube_router.Routing.Sample.{World, server, routes, server-IsRib, empty_world, nrc, web, db}
use kube_router.Routing.Vips.{
  get_active_vips, get_external_ips, is_local, node_has_endpoints_for_service,
  should_advertise_service, one_unless_blank, get_cluster_ip,
}
use kube_router.Prelude.Text.Split.{lacks}
use kube_router.Routing.Vips.Split.{has}
use kube_router.Routing.Vips.Wanted.{is_vip, wants}
use kube_router.Routing.Events.{
  handle_service_update, handle_service_delete, get_external_ips_to_withdraw, handle_event,
  service_deleted,
}
use kube_router.Routing.Events.Withdrawn.{has-get_external_ips_to_withdraw}
use kube_router.Routing.Events.Advertised.{
  routes-handle_service_update, routes-handle_service_delete,
}
use kube_router.Routing.Events.Spared.{routes-handle_event}

abbrev same_ip : String → String
same_ip ip = ip

abbrev one_route : World
one_route = record empty_world { paths = "192.0.2.1" ∷ [] }

active : get_active_vips nrc ≡ ok ("10.0.0.2" ∷ "192.0.2.1" ∷ [], "10.0.0.1" ∷ "198.51.100.1" ∷ [])
unfolding get_active_vips lookup cluster_ip_is_none_or_blank
active = refl

still_wanted : any (wants nrc true "192.0.2.1") nrc.caches.list_services ≡ true
unfolding wants lookup cluster_ip_is_none_or_blank is_local node_has_endpoints_for_service
    should_advertise_service one_unless_blank get_cluster_ip get_external_ips
still_wanted = refl

has-get_external_ips_to_withdraw_example :
    has "192.0.2.1"
      (get_external_ips_to_withdraw nrc (some web) (some (record web { external_ips = [] })))
    ≡ ((has "192.0.2.1" (get_external_ips web)
          && not (has "192.0.2.1" (get_external_ips (record web { external_ips = [] }))))
        && not (any (wants nrc true "192.0.2.1") nrc.caches.list_services))
unfolding get_external_ips cluster_ip_is_none_or_blank lacks
has-get_external_ips_to_withdraw_example =
    has-get_external_ips_to_withdraw nrc web (record web { external_ips = [] })
      ("10.0.0.2" ∷ "192.0.2.1" ∷ []) ("10.0.0.1" ∷ "198.51.100.1" ∷ []) "192.0.2.1" active refl
      refl

routes-handle_service_update_example :
    routes (handle_service_update server nrc same_ip empty_world) "192.0.2.1" ≡ (
      if any (is_vip "192.0.2.1") nrc.caches.list_services
      then any (wants nrc true "192.0.2.1") nrc.caches.list_services
      else routes empty_world "192.0.2.1")
routes-handle_service_update_example =
    routes-handle_service_update server routes server-IsRib nrc same_ip
      ("10.0.0.2" ∷ "192.0.2.1" ∷ []) ("10.0.0.1" ∷ "198.51.100.1" ∷ []) empty_world "192.0.2.1"
      (λ path w. refl, λ path w. refl) refl active

routes-handle_service_delete_example :
    routes (handle_service_delete server nrc same_ip db one_route) "192.0.2.1" ≡ (
      routes one_route "192.0.2.1"
      && not (
          is_vip "192.0.2.1" db && not (any (wants nrc true "192.0.2.1") nrc.caches.list_services)))
routes-handle_service_delete_example =
    routes-handle_service_delete server routes server-IsRib nrc same_ip db
      ("10.0.0.2" ∷ "192.0.2.1" ∷ []) ("10.0.0.1" ∷ "198.51.100.1" ∷ []) one_route "192.0.2.1"
      (λ path w. refl, λ path w. refl) refl active

routes-handle_event_example :
    routes
      (handle_event server nrc same_ip (service_deleted (service_object db)) one_route)
      "192.0.2.1"
    ≡ true
routes-handle_event_example =
    routes-handle_event server routes server-IsRib nrc same_ip "192.0.2.1" still_wanted
      (service_deleted (service_object db)) one_route refl
