-- ===== src/Proxy/Sync.antt =====
-- The IPVS services for cluster IPs and node ports (setupClusterIPServices and setupNodePortServices of
-- pkg/controllers/proxy/service_endpoints_sync.go).
pub mod Active
pub mod ClusterIps
mod Tests
use kube_router.Prelude.{
  String, ℕ, ◌%◌, Bool, true, false, Option, none, some, List, [], ◌∷◌, ◌++◌, ◌&&◌, ◌||◌, not, eqb,
  is_empty, if◌then◌else◌,
}
use kube_router.Prelude.Decimal.{itoa}
use kube_router.Prelude.Text.{cat}
use kube_router.Exec.{Result, ok, err}
use kube_router.Dict.{lookup, insert}
use kube_router.Proxy.Info.{
  ServiceInfo, EndpointInfo, ServiceInfoMap, EndpointsInfoMap, generate_ip_port_id,
  generate_endpoint_id, has_active_endpoints,
}
use kube_router.Proxy.Linux.{IpvsService, Destination, Linux, to_syscall_proto}

-- activeServiceEndpointMap
abbrev pub ActiveMap : Type 0
ActiveMap = List (String × List String)

-- `m[key]`, where a missing key has the nil slice.
unfoldable pub listed : {A : Type 0} → String → List (String × List A) → List A
listed key m = elim (lookup key m) [ none ↦ [] | some found ↦ found ]

-- `activeServiceEndpointMap[id] = append(activeServiceEndpointMap[id], ...)`
unfoldable pub append_active : String → String → ActiveMap → ActiveMap
unfolding listed
append_active id endpoint_id m = insert id (listed id m ++ endpoint_id ∷ []) m

unfoldable pub endpoint_id_of : EndpointInfo → String
unfolding generate_endpoint_id
endpoint_id_of endpoint = generate_endpoint_id endpoint.ip (itoa endpoint.port)

unfoldable pub destination_of : EndpointInfo → Destination
destination_of endpoint = record {
  address = endpoint.ip;
  port = endpoint.port % 65536;
  tunnel = false;
}

-- The conditions on which an endpoint is a server: for a cluster IP, and for node ports and external IPs.
unfoldable pub serves_cluster_ip : ServiceInfo → List EndpointInfo → EndpointInfo → Bool
serves_cluster_ip svc endpoints endpoint =
    not (svc.local && (has_active_endpoints endpoints && not endpoint.is_local))

unfoldable pub serves_external : ServiceInfo → EndpointInfo → Bool
serves_external svc endpoint = not svc.local || (svc.local && endpoint.is_local)

unfoldable pub cluster_ip_id : ServiceInfo → String
unfolding generate_ip_port_id
cluster_ip_id svc = generate_ip_port_id svc.cluster_ip svc.protocol (itoa svc.port)

-- The host, and the map that a sync fills.
pub record State (W : Type 0) : Type 0 where
  pub world : W
  pub active : ActiveMap

module _ {W : Type 0} (ln : Linux W) where
  unfoldable pub record_server : String → EndpointInfo → State W → Result (Unit {0}) × W → State W
  unfolding append_active endpoint_id_of
  record_server id endpoint s (err e, w) = record s { world = w }
  record_server id endpoint s (ok added, w) = record {
    world = w;
    active = append_active id (endpoint_id_of endpoint) s.active;
  }

  -- ipvsAddServer, and the entry of an endpoint that IPVS has taken. An error is logged only.
  unfoldable pub add_server : Option IpvsService → String → EndpointInfo → State W → State W
  unfolding record_server destination_of
  add_server svc id endpoint s =
      record_server id endpoint s (ln.add_server svc (destination_of endpoint) s.world)

  unfoldable pub add_servers :
      (EndpointInfo → Bool) → IpvsService → String → List EndpointInfo → State W → State W
  unfolding add_server
  add_servers serves handle id [] s = s
  add_servers serves handle id (endpoint ∷ endpoints) s =
      let added = add_server (some handle) id endpoint s in
      add_servers serves handle id endpoints (if serves endpoint then added else s)

  -- The IPVS service of a cluster IP and its servers; an error of the first is logged only.
  unfoldable pub fill_cluster_ip :
      ServiceInfo → List EndpointInfo → State W → Result IpvsService × W → State W
  unfolding add_servers cluster_ip_id serves_cluster_ip
  fill_cluster_ip svc endpoints s (err e, w) = record s { world = w }
  fill_cluster_ip svc endpoints s (ok handle, w) =
      add_servers (serves_cluster_ip svc endpoints) handle (cluster_ip_id svc) endpoints
        (record { world = w; active = insert (cluster_ip_id svc) [] s.active })

  unfoldable pub after_addr_add :
      List IpvsService → ServiceInfo → List EndpointInfo → State W → Result (Unit {0}) × W → State W
  unfolding fill_cluster_ip to_syscall_proto
  after_addr_add ipvs_svcs svc endpoints s (err e, w) = record s { world = w }
  after_addr_add ipvs_svcs svc endpoints s (ok added, w) = fill_cluster_ip svc endpoints s (
      ln.add_service ipvs_svcs svc.cluster_ip (to_syscall_proto svc.protocol) (svc.port % 65536) svc
        w)

  -- What one service does once the dummy interface is there.
  unfoldable pub setup_cluster_ip :
      List IpvsService → ServiceInfo → List EndpointInfo → State W → State W
  unfolding after_addr_add
  setup_cluster_ip ipvs_svcs svc endpoints s =
      after_addr_add ipvs_svcs svc endpoints s (ln.ip_addr_add svc.cluster_ip s.world)

  unfoldable pub unless_failed :
      String
      → (State W → Result (Unit {0}) × State W)
      → State W
      → Result (Unit {0}) × W
      → Result (Unit {0}) × State W
  unless_failed message next s (err e, w) = (err (cat message e), record s { world = w })
  unless_failed message next s (ok found, w) = next (record s { world = w })

  unfoldable pub each_cluster_ip :
      List IpvsService → EndpointsInfoMap → ServiceInfoMap → State W → Result (Unit {0}) × State W
  unfolding unless_failed setup_cluster_ip listed
  each_cluster_ip ipvs_svcs endpoints_map [] s = (ok tt, s)
  each_cluster_ip ipvs_svcs endpoints_map (entry ∷ svcs) s =
      unless_failed "Failed creating dummy interface: "
        (λ s'.
          each_cluster_ip ipvs_svcs endpoints_map svcs
            (setup_cluster_ip ipvs_svcs entry.1 (listed entry.0 endpoints_map) s'))
        s (ln.get_kube_dummy_interface s.world)

  unfoldable pub with_services :
      (List IpvsService → State W → Result (Unit {0}) × State W)
      → State W
      → Result (List IpvsService)
      → Result (Unit {0}) × State W
  with_services next s (err e) = (err (cat "Failed get list of IPVS services due to: " e), s)
  with_services next s (ok ipvs_svcs) = next ipvs_svcs s

  -- setupClusterIPServices
  unfoldable pub setup_cluster_ip_services :
      ServiceInfoMap → EndpointsInfoMap → State W → Result (Unit {0}) × State W
  unfolding with_services each_cluster_ip
  setup_cluster_ip_services svcs endpoints_map s =
      with_services (λ ipvs_svcs. each_cluster_ip ipvs_svcs endpoints_map svcs) s
        (ln.get_services s.world)
