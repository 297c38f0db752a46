-- ===== src/Proxy/SyncAll.antt =====
-- The IPVS services for all external addresses, and the whole sync (setupExternalIPServices, setupForDSR and
-- syncIpvsServices of pkg/controllers/proxy/service_endpoints_sync.go).
use kube_router.Prelude.{
  String, ℕ, Bool, Option, none, some, List, [], ◌∷◌, ◌&&◌, ◌||◌, not, is_empty, if◌then◌else◌,
}
use kube_router.Prelude.Decimal.{itoa}
use kube_router.Prelude.Text.{cat}
use kube_router.Exec.{Result, ok, err}
use kube_router.Dict.{insert}
use kube_router.Proxy.Info.{
  ServiceInfo, EndpointInfo, ServiceInfoMap, EndpointsInfoMap, generate_ip_port_id,
  has_active_endpoints,
}
use kube_router.Proxy.Linux.{Linux}
use kube_router.Proxy.Marks.{lookup_fw_mark_by_service}
use kube_router.Proxy.Stale.{Controller, with_world}
use kube_router.Proxy.Sync.{ActiveMap, listed}
use kube_router.Proxy.ExternalIps.{
  external_ips_of, is_dsr, list_endpoints, setup_external_ip_for_service,
}
use kube_router.Proxy.Graceful.{Host}
use kube_router.Proxy.Dsr.{Outcome, setup_external_ip_for_dsr_service}
use kube_router.Proxy.NodePorts.{setup_node_port_services}
use kube_router.Proxy.Stale.{cleanup_stale_vips, cleanup_stale_ipvs_config, cleanup_stale_metrics}
use kube_router.Proxy.Sync.{State, setup_cluster_ip_services}

module _ {W : Type 0} (ln : Linux W) where
  abbrev pub Run : Type 0
  Run = Option (Result (Unit {0}) × Controller W × ActiveMap)

  -- The entry of one external address, once its service is set up.
  unfoldable pub list_external :
      String
      → (Controller W → String)
      → ServiceInfo
      → List EndpointInfo
      → (Controller W → ActiveMap → Run)
      → ActiveMap
      → Outcome ln
      → Run
  unfolding list_endpoints
  list_external message id svc endpoints next m none = none
  list_external message id svc endpoints next m (some (err e, c)) = some (err (cat message e), c, m)
  list_external message id svc endpoints next m (some (ok done, c)) =
      next c (list_endpoints svc (id c) endpoints (insert (id c) [] m))

  unfoldable pub each_external_ip :
      ℕ
      → ServiceInfo
      → List EndpointInfo
      → (Controller W → ActiveMap → Run)
      → List String
      → Controller W
      → ActiveMap
      → Run
  unfolding list_external setup_external_ip_for_dsr_service setup_external_ip_for_service is_dsr
      lookup_fw_mark_by_service generate_ip_port_id
  each_external_ip fuel svc endpoints next [] c m = next c m
  each_external_ip fuel svc endpoints next (ip ∷ ips) c m =
      let rest = each_external_ip fuel svc endpoints next ips in
      if is_dsr svc
      then list_external (cat "failed to setup DSR endpoint " (cat ip ": "))
          (λ c'. itoa (lookup_fw_mark_by_service ip svc.protocol (itoa svc.port) c'.marks)) svc
          endpoints rest m (setup_external_ip_for_dsr_service ln fuel svc ip endpoints c)
      else list_external (cat "failed to setup service endpoint " (cat ip ": "))
          (λ c'. generate_ip_port_id ip svc.protocol (itoa svc.port)) svc endpoints rest m
          (some (setup_external_ip_for_service ln svc ip endpoints c))

  -- setupExternalIPServices
  unfoldable pub setup_external_ip_services :
      ℕ → ServiceInfoMap → EndpointsInfoMap → Controller W → ActiveMap → Run
  unfolding each_external_ip external_ips_of listed
  setup_external_ip_services fuel [] endpoints_map c m = some (ok tt, c, m)
  setup_external_ip_services fuel (entry ∷ svcs) endpoints_map c m =
      let rest = setup_external_ip_services fuel svcs endpoints_map in
      let endpoints = listed entry.0 endpoints_map in
      let ips = external_ips_of entry.1 in
      if is_empty ips || (entry.1.local && not (has_active_endpoints endpoints))
      then rest c m
      else each_external_ip fuel entry.1 endpoints rest ips c m

  -- setupForDSR
  unfoldable pub routes_after : ServiceInfoMap → Result (Unit {0}) × W → Result (Unit {0}) × W
  routes_after svcs (err e, w) = (err (cat "Failed setup PBR for DSR due to: " e), w)
  routes_after svcs (ok done, w) =
      let (r, w') = ln.setup_routes_for_external_ip_for_dsr svcs w in
      (
        elim r [
          | ok added ↦ ok tt
          | err e ↦ err (
              cat
                "failed setup custom routing table required to add routes for external IP's due to: "
                e)
        ],
        w',
      )

  unfoldable pub setup_for_dsr : ServiceInfoMap → W → Result (Unit {0}) × W
  unfolding routes_after
  setup_for_dsr svcs w = routes_after svcs (ln.setup_policy_routing_for_dsr w)

  -- What a sync leaves: the controller and the keys of the metrics.
  abbrev pub Synced : Type 0
  Synced = Controller W × List (String × List String)

  module _ (host : Host W) (now : ℕ) (excluded : Option String → Bool)
      (nodeport_bind_on_all_ip : Bool) (node_ip : String) where
    -- The clean-up and the calls behind it; errors are logged only.
    unfoldable pub clean_behind : ServiceInfoMap → List (String × List String) → Run → Option Synced
    unfolding cleanup_stale_vips cleanup_stale_ipvs_config cleanup_stale_metrics setup_for_dsr
    clean_behind svcs metrics none = none
    clean_behind svcs metrics (some (r, c, m)) =
        let c1 = with_world c (cleanup_stale_vips ln m c.nsc.world).1 in
        let c2 = (cleanup_stale_ipvs_config ln host now excluded m c1).1 in
        let kept = cleanup_stale_metrics m metrics in
        let w = (ln.sync_ipvs_firewall c2.nsc.world).1 in
        some (with_world c2 (setup_for_dsr svcs w).1, kept)

    -- syncIpvsServices; it returns no error.
    unfoldable pub sync_ipvs_services :
        ℕ → ServiceInfoMap → EndpointsInfoMap → Synced → Option Synced
    unfolding clean_behind setup_cluster_ip_services setup_node_port_services
        setup_external_ip_services
    sync_ipvs_services fuel svcs endpoints_map (c, metrics) =
        let s : State W = record { world = c.nsc.world; active = [] } in
        let s1 = (setup_cluster_ip_services ln svcs endpoints_map s).1 in
        let s2 =
          (setup_node_port_services ln nodeport_bind_on_all_ip node_ip svcs endpoints_map s1).1 in
        clean_behind svcs metrics
          (setup_external_ip_services fuel svcs endpoints_map (with_world c s2.world) s2.active)
