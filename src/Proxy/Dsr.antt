-- ===== src/Proxy/Dsr.antt =====
-- The IPVS service for an external address with direct server return (setupExternalIPForDSRService of
-- pkg/controllers/proxy/service_endpoints_sync.go). `none` is a run that the fuel for the search of a mark
-- does not bring to an end.
use kube_router.Prelude.{String, ℕ, ◌%◌, true, Option, none, some, List}
use kube_router.Prelude.Decimal.{itoa}
use kube_router.Prelude.Text.{cat}
use kube_router.Exec.{Result, ok, err}
use kube_router.Proxy.Info.{ServiceInfo, EndpointInfo}
use kube_router.Proxy.Linux.{IpvsService, Linux, to_syscall_proto}
use kube_router.Proxy.Marks.{Marked, generate_unique_fw_mark}
use kube_router.Proxy.Stale.{Controller, with_world}
use kube_router.Proxy.ExternalIps.{Step, on_host, unless_error_is, add_each}

module _ {W : Type 0} (ln : Linux W) where
  -- The receiver of an external address inside the pod of an endpoint.
  unfoldable pub add_receiver : String → EndpointInfo → Step W
  unfolding on_host
  add_receiver ip endpoint c =
      on_host ln (cat "unable to setup DSR receiver inside pod: ") (λ added c'. (ok tt, c')) c
        (ln.add_dsr_ip_inside_pod ip endpoint.ip c.nsc.world)

  -- What setupExternalIPForDSRService does with the mark.
  unfoldable pub setup_marked :
      ServiceInfo → String → List EndpointInfo → List IpvsService → ℕ → Step W
  unfolding on_host unless_error_is add_each add_receiver to_syscall_proto
  setup_marked svc ip endpoints ipvs_svcs mark c =
      on_host ln
        (λ e. cat "failed to create IPVS service for External IP: " (cat ip (cat " due to: " e)))
        (λ handle c1.
          on_host ln
            (λ e. "failed to setup mangle table rule to forward the traffic to external IP")
            (λ ruled c2.
              on_host ln (cat "failed to delete external ip address from dummyVipInterface due to ")
                (λ removed c3.
                  on_host ln
                    (λ e.
                      cat "failed to setup ip rule to lookup traffic to external IP: "
                        (cat ip (cat " through custom route table due to " e)))
                    (λ routed c4. add_each ln svc handle ip (add_receiver ip) true endpoints c4) c3
                    (ln.route_vip_traffic_to_director mark c3.nsc.world))
                c2
                (unless_error_is ln "cannot assign requested address"
                  (ln.ip_addr_del ip c2.nsc.world)))
            c1
            (ln.setup_mangle_table_rule ip svc.protocol (itoa svc.port) (itoa mark) c1.nsc.world))
        c
        (ln.add_fw_mark_service ipvs_svcs mark (to_syscall_proto svc.protocol) (svc.port % 65536)
          svc c.nsc.world)

  abbrev pub Outcome : Type 0
  Outcome = Option (Result (Unit {0}) × Controller W)

  unfoldable pub with_mark : (ℕ → Step W) → Controller W → Marked → Outcome
  with_mark next c none = none
  with_mark next c (some (err e, marks)) = some (err "failed to generate FW mark", c)
  with_mark next c (some (ok mark, marks)) = some (next mark (record c { marks = marks }))

  unfoldable pub mark_listed :
      ℕ
      → ServiceInfo
      → String
      → List EndpointInfo
      → Controller W
      → Result (List IpvsService)
      → Outcome
  unfolding with_mark setup_marked
  mark_listed fuel svc ip endpoints c (err e) =
      some (err (cat "Failed get list of IPVS services due to: " e), c)
  mark_listed fuel svc ip endpoints c (ok ipvs_svcs) =
      with_mark (setup_marked svc ip endpoints ipvs_svcs) c
        (generate_unique_fw_mark fuel ip svc.protocol (itoa svc.port) c.marks)

  unfoldable pub mark_on :
      ℕ → ServiceInfo → String → List EndpointInfo → Controller W → Result (Unit {0}) × W → Outcome
  unfolding mark_listed
  mark_on fuel svc ip endpoints c (err e, w) =
      some (err (cat "Failed creating dummy interface: " e), with_world c w)
  mark_on fuel svc ip endpoints c (ok found, w) =
      mark_listed fuel svc ip endpoints (with_world c w) (ln.get_services w)

  -- setupExternalIPForDSRService
  unfoldable pub setup_external_ip_for_dsr_service :
      ℕ → ServiceInfo → String → List EndpointInfo → Controller W → Outcome
  unfolding mark_on
  setup_external_ip_for_dsr_service fuel svc ip endpoints c =
      mark_on fuel svc ip endpoints c (ln.get_kube_dummy_interface c.nsc.world)
