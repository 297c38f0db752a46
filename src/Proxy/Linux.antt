-- ===== src/Proxy/Linux.antt =====
-- What the proxy asks of the host: LinuxNetworking and the functions beside it that only run commands
-- (pkg/controllers/proxy/network_services_controller.go), over the state `W` of the host. The protocol
-- numbers and their texts are those of pkg/controllers/proxy/utils.go.
mod Tests
use kube_router.Prelude.{
  String, ℕ, ◌≡◌, refl, ◌⊎◌, Bool, true, false, Option, none, some, List, [], ◌∷◌, ◌||◌, ◌==◌, eqb,
  if◌then◌else◌, arith, eq_iff,
}
use kube_router.Exec.{Result}
use kube_router.Proxy.Info.{ServiceInfo, ServiceInfoMap}

-- ipvs.Service; a service by FW mark has no address.
pub record IpvsService : Type 0 where
  pub address : Option String
  pub protocol : ℕ
  pub port : ℕ
  pub fw_mark : ℕ

-- ipvs.Destination of the family IPv4 with weight 1.
pub record Destination : Type 0 where
  pub address : String
  pub port : ℕ
  pub tunnel : Bool

-- The calls. Those on addresses are about the dummy interface; a service may be the nil pointer.
pub record Linux (W : Type 0) : Type 0 where
  pub get_services : W → Result (List IpvsService)
  pub get_kube_dummy_interface : W → Result (Unit {0}) × W
  pub ip_addr_add : String → W → Result (Unit {0}) × W
  pub ip_addr_del : String → W → Result (Unit {0}) × W
  pub addr_list : W → Result (List String)
  pub add_service : List IpvsService → String → ℕ → ℕ → ServiceInfo → W → Result IpvsService × W
  pub add_fw_mark_service : List IpvsService → ℕ → ℕ → ℕ → ServiceInfo → W → Result IpvsService × W
  pub del_service : IpvsService → W → Result (Unit {0}) × W
  pub add_server : Option IpvsService → Destination → W → Result (Unit {0}) × W
  pub get_all_local_ips : W → Result (List String)
  pub save_mangle : W → Result String
  pub setup_mangle_table_rule : String → String → String → String → W → Result (Unit {0}) × W
  pub cleanup_mangle_table_rule : String → String → String → String → W → Result (Unit {0}) × W
  pub route_vip_traffic_to_director : ℕ → W → Result (Unit {0}) × W
  pub setup_policy_routing_for_dsr : W → Result (Unit {0}) × W
  pub setup_routes_for_external_ip_for_dsr : ServiceInfoMap → W → Result (Unit {0}) × W
  pub sync_ipvs_firewall : W → Result (Unit {0}) × W
  pub add_dsr_ip_inside_pod : String → String → W → Result (Unit {0}) × W

abbrev pub tcp : ℕ
tcp = 6

abbrev pub udp : ℕ
udp = 17

abbrev pub no_protocol : ℕ
no_protocol = 59

-- convertSvcProtoToSysCallProto
unfoldable pub to_syscall_proto : String → ℕ
to_syscall_proto svc_protocol =
    if svc_protocol == "tcp" then tcp else (if svc_protocol == "udp" then udp else no_protocol)

-- convertSysCallProtoToSvcProto
unfoldable pub to_svc_proto : ℕ → String
to_svc_proto sys_protocol =
    if eqb sys_protocol tcp then "tcp" else (if eqb sys_protocol udp then "udp" else "none")

-- TCP and UDP are the same after a conversion to the number and back; any other protocol becomes none.
to_svc_proto-to_syscall_proto :
    (protocol : String)
    → to_svc_proto (to_syscall_proto protocol)
      ≡ (if (protocol == "tcp") || (protocol == "udp") then protocol else "none")
unfolding to_svc_proto to_syscall_proto
to_svc_proto-to_syscall_proto protocol =
    ground (arith, eq_iff protocol "tcp", eq_iff protocol "udp")
