-- ===== src/Proxy/NodePorts.antt =====
-- The IPVS services for node ports (setupNodePortServices of
-- pkg/controllers/proxy/service_endpoints_sync.go).
use kube_router.Prelude.{
  String, ◌%◌, Bool, Option, none, some, List, [], ◌∷◌, ◌&&◌, not, eqb, if◌then◌else◌,
}
use kube_router.Prelude.Decimal.{itoa}
use kube_router.Exec.{Result, ok, err}
use kube_router.Dict.{insert}
use kube_router.Proxy.Info.{
  ServiceInfo, EndpointInfo, ServiceInfoMap, EndpointsInfoMap, generate_ip_port_id,
  has_active_endpoints,
}
use kube_router.Proxy.Linux.{IpvsService, Linux, to_syscall_proto}
use kube_router.Proxy.Sync.{State, listed, serves_external, add_server, with_services}

-- ipvsNodeportSvcs[i] and nodeServiceIds[i]; both keep their zero value if the service was not made.
abbrev pub Slot : Type 0
Slot = Option IpvsService × String

unfoldable pub node_port_id : ServiceInfo → String → String
unfolding generate_ip_port_id
node_port_id svc ip = generate_ip_port_id ip svc.protocol (itoa svc.node_port)

module _ {W : Type 0} (ln : Linux W) where
  unfoldable pub slot_of : String → State W → Result IpvsService × W → Slot × State W
  slot_of id s (err e, w) = ((none, ""), record s { world = w })
  slot_of id s (ok handle, w) =
      ((some handle, id), record { world = w; active = insert id [] s.active })

  unfoldable pub bind : List IpvsService → ServiceInfo → String → State W → Slot × State W
  unfolding slot_of node_port_id to_syscall_proto
  bind ipvs_svcs svc ip s = slot_of (node_port_id svc ip) s (
      ln.add_service ipvs_svcs ip (to_syscall_proto svc.protocol) (svc.node_port % 65536) svc
        s.world)

  unfoldable pub bind_each :
      List IpvsService → ServiceInfo → List String → State W → List Slot × State W
  unfolding bind
  bind_each ipvs_svcs svc [] s = ([], s)
  bind_each ipvs_svcs svc (ip ∷ ips) s =
      let (slot, s') = bind ipvs_svcs svc ip s in
      let (slots, s'') = bind_each ipvs_svcs svc ips s' in (slot ∷ slots, s'')

  unfoldable pub add_to_slots : EndpointInfo → List Slot → State W → State W
  unfolding add_server
  add_to_slots endpoint [] s = s
  add_to_slots endpoint (slot ∷ slots) s =
      add_to_slots endpoint slots (add_server ln slot.0 slot.1 endpoint s)

  unfoldable pub fill_slots : ServiceInfo → List EndpointInfo → List Slot → State W → State W
  unfolding add_to_slots serves_external
  fill_slots svc [] slots s = s
  fill_slots svc (endpoint ∷ endpoints) slots s =
      let added = add_to_slots endpoint slots s in
      fill_slots svc endpoints slots (if serves_external svc endpoint then added else s)

  -- On all addresses of the node: a service that could not be made keeps its slot.
  unfoldable pub setup_on_all :
      List IpvsService → ServiceInfo → List EndpointInfo → Result (List String) → State W → State W
  unfolding bind_each fill_slots
  setup_on_all ipvs_svcs svc endpoints (err e) s = s
  setup_on_all ipvs_svcs svc endpoints (ok []) s = s
  setup_on_all ipvs_svcs svc endpoints (ok (ip ∷ ips)) s =
      let (slots, s') = bind_each ipvs_svcs svc (ip ∷ ips) s in fill_slots svc endpoints slots s'

  -- On the node's own address: a service that could not be made ends the work on it.
  unfoldable pub fill_bound : ServiceInfo → List EndpointInfo → Slot × State W → State W
  unfolding fill_slots
  fill_bound svc endpoints ((none, id), s) = s
  fill_bound svc endpoints ((some handle, id), s) =
      fill_slots svc endpoints ((some handle, id) ∷ []) s

  module _ (nodeport_bind_on_all_ip : Bool) (node_ip : String) where
    unfoldable pub setup_node_port :
        List IpvsService → ServiceInfo → List EndpointInfo → State W → State W
    unfolding setup_on_all fill_bound bind
    setup_node_port ipvs_svcs svc endpoints s =
        if eqb svc.node_port 0
        then s
        else (if svc.local && not (has_active_endpoints endpoints)
            then s
            else (if nodeport_bind_on_all_ip
                then setup_on_all ipvs_svcs svc endpoints (ln.get_all_local_ips s.world) s
                else fill_bound svc endpoints (bind ipvs_svcs svc node_ip s)))

    unfoldable pub each_node_port :
        List IpvsService → EndpointsInfoMap → ServiceInfoMap → State W → State W
    unfolding setup_node_port listed
    each_node_port ipvs_svcs endpoints_map [] s = s
    each_node_port ipvs_svcs endpoints_map (entry ∷ svcs) s =
        each_node_port ipvs_svcs endpoints_map svcs
          (setup_node_port ipvs_svcs entry.1 (listed entry.0 endpoints_map) s)

    -- setupNodePortServices
    unfoldable pub setup_node_port_services :
        ServiceInfoMap → EndpointsInfoMap → State W → Result (Unit {0}) × State W
    unfolding with_services each_node_port
    setup_node_port_services svcs endpoints_map s =
        with_services ln (λ ipvs_svcs s'. (ok tt, each_node_port ipvs_svcs endpoints_map svcs s')) s
          (ln.get_services s.world)
