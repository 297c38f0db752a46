-- ===== src/Proxy/ExternalIps.antt =====
-- The IPVS service for an external address without direct server return (setupExternalIPForService of
-- pkg/controllers/proxy/service_endpoints_sync.go), and what all external addresses share.
use kube_router.Prelude.{
  String, ℕ, ◌%◌, Bool, false, some, List, [], ◌∷◌, ◌++◌, ◌&&◌, not, eqb, if◌then◌else◌, ◌==◌,
}
use kube_router.Prelude.Decimal.{itoa}
use kube_router.Prelude.Text.{cat, str_leb}
use kube_router.Exec.{Result, ok, err}
use kube_router.Proxy.Info.{ServiceInfo, EndpointInfo}
use kube_router.Proxy.Linux.{IpvsService, Linux, to_syscall_proto}
use kube_router.Proxy.Marks.{lookup_fw_mark_by_service}
use kube_router.Proxy.Stale.{Controller, with_world, cleanup_dsr_service}
use kube_router.Proxy.Sync.{
  ActiveMap, append_active, endpoint_id_of, destination_of, serves_external,
}

-- sets.NewString(...).List() and Union: sorted, each text once.
unfoldable pub insert_once : String → List String → List String
insert_once s [] = s ∷ []
insert_once s (t ∷ ts) =
    let rest = insert_once s ts in
    if s == t then t ∷ ts else (if str_leb s t then s ∷ t ∷ ts else t ∷ rest)

unfoldable pub sorted_set : List String → List String
unfolding insert_once
sorted_set [] = []
sorted_set (s ∷ ss) = insert_once s (sorted_set ss)

-- extIPSet
unfoldable pub external_ips_of : ServiceInfo → List String
unfolding sorted_set
external_ips_of svc =
    sorted_set (svc.external_ips ++ (if svc.skip_lb_ips then [] else svc.load_balancer_ips))

unfoldable pub is_dsr : ServiceInfo → Bool
is_dsr svc = svc.direct_server_return && (svc.direct_server_return_method == "tunnel")

-- The endpoints listed in the map for an external address.
unfoldable pub list_endpoints : ServiceInfo → String → List EndpointInfo → ActiveMap → ActiveMap
unfolding append_active serves_external endpoint_id_of
list_endpoints svc id [] m = m
list_endpoints svc id (endpoint ∷ endpoints) m =
    let added = append_active id (endpoint_id_of endpoint) m in
    list_endpoints svc id endpoints (if serves_external svc endpoint then added else m)

abbrev pub Step : Type 0 → Type 0
Step W = Controller W → Result (Unit {0}) × Controller W

module _ {W : Type 0} (ln : Linux W) where
  -- A call on the host, an error with a text before it, and what follows.
  unfoldable pub on_host :
      {A : Type 0}
      → (String → String)
      → (A → Step W)
      → Controller W
      → Result A × W
      → Result (Unit {0}) × Controller W
  on_host message next c (err e, w) = (err (message e), with_world c w)
  on_host message next c (ok a, w) = next a (with_world c w)

  -- As above, but one text of an error is as good as none.
  unfoldable pub unless_error_is : String → Result (Unit {0}) × W → Result (Unit {0}) × W
  unless_error_is allowed (ok done, w) = (ok done, w)
  unless_error_is allowed (err e, w) = if e == allowed then (ok tt, w) else (err e, w)

  unfoldable pub read_services :
      (List IpvsService → Step W)
      → Controller W
      → Result (List IpvsService)
      → Result (Unit {0}) × Controller W
  read_services next c (err e) = (err (cat "failed get list of IPVS services due to: " e), c)
  read_services next c (ok ipvs_svcs) = next ipvs_svcs c

  unfoldable pub chain :
      Step W → Result (Unit {0}) × Controller W → Result (Unit {0}) × Controller W
  chain next (err e, c) = (err e, c)
  chain next (ok done, c) = next c

  -- The loop over the endpoints; `behind` is what follows the call on IPVS for one.
  unfoldable pub add_each :
      ServiceInfo
      → IpvsService
      → String
      → (EndpointInfo → Step W)
      → Bool
      → List EndpointInfo
      → Step W
  unfolding on_host destination_of chain
  add_each svc handle ip behind tunnel [] c = (ok tt, c)
  add_each svc handle ip behind tunnel (endpoint ∷ endpoints) c =
      let rest = add_each svc handle ip behind tunnel endpoints in
      let dst = record (destination_of endpoint) { tunnel = tunnel } in
      if svc.local && not endpoint.is_local
      then rest c
      else on_host (λ e. cat "unable to add destination " (cat endpoint.ip (cat ": " e)))
          (λ added c'. chain rest (behind endpoint c')) c
          (ln.add_server (some handle) dst c.nsc.world)

  unfoldable pub and_then :
      Step W → Result (Unit {0}) × Controller W → Result (Unit {0}) × Controller W
  and_then next (err e, c) = (err (cat "failed to cleanup DSR service: " e), c)
  and_then next (ok done, c) = next c

  -- The mark of a service that was one for DSR before is cleaned up.
  unfoldable pub drop_mark : ℕ → Step W → Step W
  unfolding and_then cleanup_dsr_service
  drop_mark mark next c =
      if eqb mark 0 then next c else and_then next (cleanup_dsr_service ln mark c)

  -- setupExternalIPForService
  unfoldable pub setup_external_ip_for_service : ServiceInfo → String → List EndpointInfo → Step W
  unfolding on_host read_services unless_error_is drop_mark add_each to_syscall_proto
  setup_external_ip_for_service svc ip endpoints c =
      on_host (cat "failed creating dummy interface: ")
        (λ found c1.
          read_services
            (λ ipvs_svcs c2.
              on_host
                (λ e.
                  cat "failed to assign external ip "
                    (cat ip (cat " to dummy interface kube-dummy-if due to " e)))
                (λ assigned c3.
                  on_host
                    (λ e.
                      cat "failed to create ipvs service for external ip: "
                        (cat ip (cat " due to " e)))
                    (λ handle c4.
                      drop_mark (lookup_fw_mark_by_service ip svc.protocol (itoa svc.port) c4.marks)
                        (add_each svc handle ip (λ endpoint c5. (ok tt, c5)) false endpoints) c4)
                    c3
                    (ln.add_service ipvs_svcs ip (to_syscall_proto svc.protocol) (svc.port % 65536)
                      svc c3.nsc.world))
                c2 (unless_error_is "file exists" (ln.ip_addr_add ip c2.nsc.world)))
            c1 (ln.get_services c1.nsc.world))
        c (ln.get_kube_dummy_interface c.nsc.world)
