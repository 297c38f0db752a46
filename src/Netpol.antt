-- ===== src/Netpol.antt =====
-- The data of the network policy controller: `networkPolicyInfo` and the types below it
-- (pkg/controllers/netpol/network_policy_controller.go). The field `podSelector`, which is written and
-- never read, is left out.
pub mod Names
pub mod Clash
pub mod Chain
pub mod Packet
pub mod Api
pub mod Ports
pub mod Build
pub mod PodRules
pub mod PodFirewall
pub mod PolicyChains
pub mod Ingress
pub mod Egress
pub mod Stale
pub mod Requests
mod Tests
use kube_router.Prelude.{String, Bool, Option, List}
use kube_router.IpSet.{IpSet}

pub record PodInfo : Type 0 where
  pub ip : String
  pub name : String
  pub namespace : String
  pub labels : List (String × String)

pub record ProtocolAndPort : Type 0 where
  pub protocol : String
  pub port : String
  pub endport : String

pub record EndPoints : Type 0 where
  pub ips : List String
  pub protocol_and_port : ProtocolAndPort

pub record IngressRule : Type 0 where
  pub match_all_ports : Bool
  pub ports : List ProtocolAndPort
  pub named_ports : List EndPoints
  pub match_all_source : Bool
  pub src_pods : List PodInfo
  pub src_ip_blocks : List (List String)

pub record EgressRule : Type 0 where
  pub match_all_ports : Bool
  pub ports : List ProtocolAndPort
  pub named_ports : List EndPoints
  pub match_all_destinations : Bool
  pub dst_pods : List PodInfo
  pub dst_ip_blocks : List (List String)

-- The constants "ingress", "egress" and "both".
pub data PolicyType : Type 0 where
  ingress egress both : PolicyType

-- `none` is a nil slice of rules.
pub record NetworkPolicyInfo : Type 0 where
  pub name : String
  pub namespace : String
  pub target_pods : List (String × PodInfo)
  pub ingress_rules : Option (List IngressRule)
  pub egress_rules : Option (List EgressRule)
  pub policy_type : PolicyType

-- What a sync writes to: the texts written to `filterTableRules` in order, the table of
-- `ipSetHandler`, and `activePolicyIPSets`.
pub record Sync : Type 0 where
  pub rules : List String
  pub ipset : IpSet
  pub active : List (String × Bool)
