-- ===== src/Proxy/Sync/ClusterIps.antt =====
-- Which servers setupClusterIPServices leaves in the map of active services, on a host whose calls succeed
-- (pkg/controllers/proxy/service_endpoints_sync.go).
use mathlib.Core.Path.{subst⁻¹}
use kube_router.Prelude.{
  ◌&&◌, not, any, keep, map, Bool, none, arith, String, ℕ, ◌≡◌, refl, ◌∙◌, ap, Option, some, List,
  [], ◌∷◌, if◌then◌else◌, ◌==◌,
}
use kube_router.Prelude.Decimal.{itoa}
use kube_router.Prelude.Text.{cat}
use kube_router.Exec.{Result, ok, err}
use kube_router.Dict.{lookup, insert, lookup-insert}
use kube_router.Proxy.Info.{
  generate_endpoint_id, generate_ip_port_id, has_active_endpoints, ServiceInfo, EndpointInfo,
  ServiceInfoMap, EndpointsInfoMap,
}
use kube_router.Proxy.Info.Listed.{or_else, latest, regroup}
use kube_router.Proxy.Linux.{IpvsService, Destination, Linux}
use kube_router.Proxy.Sync.{
  endpoint_id_of, ActiveMap, State, listed, serves_cluster_ip, cluster_ip_id, fill_cluster_ip,
  after_addr_add, setup_cluster_ip, unless_failed, each_cluster_ip, with_services,
  setup_cluster_ip_services,
}
use kube_router.Proxy.Sync.Active.{ids_of, Holds-add_servers}

-- A host whose calls succeed.
pub record IsWorking {W : Type 0} (ln : Linux W) : Type 0 where
  pub services : W → List IpvsService
  pub listed_services : (w : W) → ln.get_services w ≡ ok (services w)
  pub dummy_ok : (w : W) → (ln.get_kube_dummy_interface w).0 ≡ ok tt
  pub addr_ok : (ip : String) (w : W) → (ln.ip_addr_add ip w).0 ≡ ok tt
  pub handle : List IpvsService → String → ℕ → ℕ → ServiceInfo → W → IpvsService
  pub added :
      (svcs : List IpvsService) (vip : String) (protocol port : ℕ) (svc : ServiceInfo) (w : W)
      → (ln.add_service svcs vip protocol port svc w).0 ≡ ok (handle svcs vip protocol port svc w)
  pub takes :
      (svc : Option IpvsService) (dst : Destination) (w : W) → (ln.add_server svc dst w).0 ≡ ok tt

-- For each service what the code lists.
unfoldable listed_entries : ServiceInfoMap → EndpointsInfoMap → List (String × List String)
listed_entries [] endpoints_map = []
listed_entries (entry ∷ svcs) endpoints_map =
    let endpoints = listed entry.0 endpoints_map in
    (cluster_ip_id entry.1, ids_of (serves_cluster_ip entry.1 endpoints) endpoints)
    ∷ listed_entries svcs endpoints_map

-- The endpoints that a cluster IP has: those on the node if the service is local and there are some, else
-- all of them.
abbrev pub served : ServiceInfo → List EndpointInfo → List EndpointInfo
served svc endpoints =
    if svc.local && any (λ (e : EndpointInfo). e.is_local) endpoints
    then keep (λ (e : EndpointInfo). e.is_local) endpoints
    else endpoints

-- For each service, under its cluster IP, protocol and port, the addresses and ports of these endpoints.
unfoldable pub cluster_entries : ServiceInfoMap → EndpointsInfoMap → List (String × List String)
cluster_entries [] endpoints_map = []
cluster_entries (entry ∷ svcs) endpoints_map =
    let svc = entry.1 in
    let endpoints : List EndpointInfo = elim (lookup entry.0 endpoints_map) [
      | none ↦ []
      | some found ↦ found
    ] in
    (
      cat svc.cluster_ip (cat "-" (cat svc.protocol (cat "-" (itoa svc.port)))),
      map (λ (e : EndpointInfo). cat e.ip (cat ":" (itoa e.port))) (served svc endpoints),
    )
    ∷ cluster_entries svcs endpoints_map

has_active_endpoints_lem :
    (endpoints : List EndpointInfo)
    → has_active_endpoints endpoints ≡ any (λ (e : EndpointInfo). e.is_local) endpoints
unfolding has_active_endpoints
has_active_endpoints_lem [] = refl
has_active_endpoints_lem (e ∷ endpoints) = ground (arith, has_active_endpoints_lem endpoints)

keep_served :
    (local here : Bool) (endpoints : List EndpointInfo)
    → keep (λ (e : EndpointInfo). not (local && (here && not e.is_local))) endpoints
      ≡ (if local && here then keep (λ (e : EndpointInfo). e.is_local) endpoints else endpoints)
keep_served local here [] = ground arith
keep_served local here (e ∷ endpoints) = ground (arith, keep_served local here endpoints)

ids_of-served :
    (svc : ServiceInfo) (endpoints : List EndpointInfo)
    → ids_of (serves_cluster_ip svc endpoints) endpoints
      ≡ map (λ (e : EndpointInfo). cat e.ip (cat ":" (itoa e.port))) (served svc endpoints)
unfolding serves_cluster_ip endpoint_id_of generate_endpoint_id
ids_of-served svc endpoints =
    ap
      (λ b.
        map endpoint_id_of
          (keep (λ (e : EndpointInfo). not (svc.local && (b && not e.is_local))) endpoints))
      (has_active_endpoints_lem endpoints)
    ∙ ap (map endpoint_id_of)
        (keep_served svc.local (any (λ (e : EndpointInfo). e.is_local) endpoints) endpoints)

listed_entries_lem :
    (svcs : ServiceInfoMap) (endpoints_map : EndpointsInfoMap)
    → listed_entries svcs endpoints_map ≡ cluster_entries svcs endpoints_map
unfolding listed_entries cluster_entries cluster_ip_id generate_ip_port_id listed
listed_entries_lem [] endpoints_map = refl
listed_entries_lem (entry ∷ svcs) endpoints_map =
    let endpoints = listed entry.0 endpoints_map in
    ap (λ ids. (cluster_ip_id entry.1, ids) ∷ listed_entries svcs endpoints_map)
      (ids_of-served entry.1 endpoints)
    ∙ ap
        (λ es.
          (
            cluster_ip_id entry.1,
            map (λ (e : EndpointInfo). cat e.ip (cat ":" (itoa e.port))) (served entry.1 endpoints),
          )
          ∷ es)
        (listed_entries_lem svcs endpoints_map)

module _ {W : Type 0} (ln : Linux W) (working : IsWorking ln) where
  -- The map has the service's own entry, and is otherwise as before.
  abbrev Filled : ServiceInfo → List EndpointInfo → ActiveMap → ActiveMap → Type 0
  Filled svc endpoints base m =
      (other : String)
      → lookup other m ≡ (
          if cluster_ip_id svc == other
          then some (ids_of (serves_cluster_ip svc endpoints) endpoints)
          else lookup other base)

  Filled-fill_cluster_ip :
      (svc : ServiceInfo) (endpoints : List EndpointInfo) (s : State W) (r : Result IpvsService)
      (handle : IpvsService) (w : W)
      → r ≡ ok handle
      → Filled svc endpoints s.active (fill_cluster_ip ln svc endpoints s (r, w)).active
  unfolding fill_cluster_ip
  Filled-fill_cluster_ip svc endpoints s (err e) handle w h = absurd cc
  Filled-fill_cluster_ip svc endpoints s (ok found) handle w h =
      Holds-add_servers ln working.takes (cluster_ip_id svc) s.active
        (serves_cluster_ip svc endpoints) found endpoints
        (record { world = w; active = insert (cluster_ip_id svc) [] s.active }) []
        (λ other. lookup-insert (cluster_ip_id svc) other [] s.active)

  Filled-after_addr_add :
      (ipvs_svcs : List IpvsService) (svc : ServiceInfo) (endpoints : List EndpointInfo)
      (s : State W) (r : Result (Unit {0})) (w : W)
      → r ≡ ok tt
      → Filled svc endpoints s.active (after_addr_add ln ipvs_svcs svc endpoints s (r, w)).active
  unfolding after_addr_add
  Filled-after_addr_add ipvs_svcs svc endpoints s (err e) w h = absurd cc
  Filled-after_addr_add ipvs_svcs svc endpoints s (ok done) w h =
      Filled-fill_cluster_ip svc endpoints s _ _ _ (working.added _ _ _ _ _ _)

  Filled-setup_cluster_ip :
      (ipvs_svcs : List IpvsService) (svc : ServiceInfo) (endpoints : List EndpointInfo)
      (s : State W)
      → Filled svc endpoints s.active (setup_cluster_ip ln ipvs_svcs svc endpoints s).active
  unfolding setup_cluster_ip
  Filled-setup_cluster_ip ipvs_svcs svc endpoints s =
      Filled-after_addr_add ipvs_svcs svc endpoints s _ _ (working.addr_ok svc.cluster_ip s.world)

  -- The outcome of some services: no error, and for each identity the entry of the last service with it.
  abbrev Served : List (String × List String) → ActiveMap → Result (Unit {0}) × State W → Type 0
  Served entries base r =
      (r.0 ≡ ok tt)
      × ((id : String) → lookup id r.1.active ≡ or_else (latest id entries) (lookup id base))

  Served-unless_failed :
      (message : String) (next : State W → Result (Unit {0}) × State W) (s : State W)
      (r : Result (Unit {0})) (w : W) (entries : List (String × List String)) (base : ActiveMap)
      → r ≡ ok tt
      → Served entries base (next (record s { world = w }))
      → Served entries base (unless_failed ln message next s (r, w))
  unfolding unless_failed
  Served-unless_failed message next s (err e) w entries base h k = absurd cc
  Served-unless_failed message next s (ok done) w entries base h k = k

  Served-each_cluster_ip :
      (ipvs_svcs : List IpvsService) (endpoints_map : EndpointsInfoMap) (svcs : ServiceInfoMap)
      (s : State W)
      → Served
          (listed_entries svcs endpoints_map)
          s.active
          (each_cluster_ip ln ipvs_svcs endpoints_map svcs s)
  unfolding each_cluster_ip listed_entries
  Served-each_cluster_ip ipvs_svcs endpoints_map [] s = (refl, λ id. refl)
  Served-each_cluster_ip ipvs_svcs endpoints_map (entry ∷ svcs) s =
      let endpoints = listed entry.0 endpoints_map in
      let r = ln.get_kube_dummy_interface s.world in
      let s' = setup_cluster_ip ln ipvs_svcs entry.1 endpoints (record s { world = r.1 }) in
      let later = Served-each_cluster_ip ipvs_svcs endpoints_map svcs s' in
      let filled = Filled-setup_cluster_ip ipvs_svcs entry.1 endpoints (record s { world = r.1 }) in
      Served-unless_failed "Failed creating dummy interface: "
        (λ t.
          each_cluster_ip ln ipvs_svcs endpoints_map svcs
            (setup_cluster_ip ln ipvs_svcs entry.1 endpoints t))
        s r.0 r.1 (listed_entries (entry ∷ svcs) endpoints_map) s.active (working.dummy_ok s.world)
        (
          later.0,
          λ id.
              later.1 id
              ∙ ap (or_else (latest id (listed_entries svcs endpoints_map))) (filled id)
              ∙ regroup (latest id (listed_entries svcs endpoints_map))
                  (cluster_ip_id entry.1 == id)
                  (ids_of (serves_cluster_ip entry.1 endpoints) endpoints) (lookup id s.active),
        )

  -- On a host whose calls succeed, setupClusterIPServices succeeds, and the map then lists for a cluster IP,
  -- protocol and port the endpoints of the service, all of them or, for a local service with an endpoint on
  -- the node, those on the node; of services with the same three the last one counts, and other entries
  -- stay as they were.
  pub lookup-setup_cluster_ip_services :
      (svcs : ServiceInfoMap) (endpoints_map : EndpointsInfoMap) (s : State W) (id : String)
      → let r = setup_cluster_ip_services ln svcs endpoints_map s in
        (r.0 ≡ ok tt)
        × (lookup id r.1.active
            ≡ or_else (latest id (cluster_entries svcs endpoints_map)) (lookup id s.active))
  unfolding setup_cluster_ip_services with_services
  lookup-setup_cluster_ip_services svcs endpoints_map s id =
      let done =
        subst⁻¹
          (λ r.
            Served (listed_entries svcs endpoints_map) s.active
              (with_services ln (λ ipvs_svcs. each_cluster_ip ln ipvs_svcs endpoints_map svcs) s r))
          (working.listed_services s.world)
          (Served-each_cluster_ip (working.services s.world) endpoints_map svcs s) in
      (
        done.0,
        done.1 id
            ∙ ap (λ es. or_else (latest id es) (lookup id s.active))
                (listed_entries_lem svcs endpoints_map),
      )
