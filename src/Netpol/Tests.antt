-- ===== src/Netpol/Tests.antt =====
-- The network policy controller at a policy `web` of the namespace `ns`, whose pod is 10.0.0.2. A text is
-- its own hash here.
mod Sets
mod EgressSets
mod Cleanup
use kube_router.Prelude.{
  String, ℕ, ◌≡◌, refl, Bool, true, false, ◌&&◌, ◌||◌, Option, none, some, List, [], ◌∷◌, ◌++◌, map,
  any, all, ◌==◌, if◌then◌else◌, inl, inr, is_empty, keep,
}
use kube_router.Prelude.Text.{cat, concat, join}
use kube_router.Prelude.Decimal.{itoa, itoa_fuel, digit_text}
use kube_router.Exec.{Result, ok, err}
use kube_router.Dict.{lookup, insert, keys, values}
use kube_router.IpSet.{empty_ipset}
use kube_router.Netpol.{
  PodInfo, ProtocolAndPort, EndPoints, IngressRule, EgressRule, PolicyType, both, NetworkPolicyInfo,
  Sync,
}
use kube_router.Netpol.Names.{
  network_policy_chain_name, policy_source_pod_ipset_name, policy_destination_pod_ipset_name,
  policy_indexed_ingress_named_port_ipset_name, policy_indexed_egress_named_port_ipset_name,
  pod_firewall_chain_name,
}
use kube_router.Netpol.Clash.{policy_clash, named_port_clash}
use kube_router.Netpol.Api.{ContainerPort, Pod, is_net_pol_actionable, is_finished}
use kube_router.Netpol.Ports.{grab_named_port_from_pod}
use kube_router.Netpol.Ports.Named.{ips_at, pod_ips, ips_at-grab_named_port_from_pod}
use kube_router.Netpol.Chain.Writes.{texts}
use kube_router.Netpol.Ingress.{process_ingress_rules}
use kube_router.Netpol.Ingress.Rules.{ingress_list, rules-process_ingress_rules}
use kube_router.Netpol.Egress.{process_egress_rules}
use kube_router.Netpol.Egress.Rules.{egress_list, rules-process_egress_rules}
use kube_router.Netpol.PodFirewall.{
  setup_pod_netpol_rules, jump_args, local_pods, sync_pod_firewall_chains,
}
use kube_router.Netpol.PodRules.{
  established_args, invalid_args, local_node_args, default_egress_args, default_ingress_args,
}
use kube_router.Netpol.PodFirewall.Order.{
  inserted, written, selects, restricts_egress, restricts_ingress, setup_pod_netpol_rules-inserted,
}
use kube_router.Netpol.PodFirewall.Local.{is_local, local_pods_lem, sync_pod_firewall_chains-active}
use kube_router.Netpol.PolicyChains.{sync_policies}
use kube_router.Netpol.PolicyChains.Written.{policies_texts, rules-sync_policies}

abbrev pub same_text : String → String
same_text s = s

abbrev pub tcp : String → ProtocolAndPort
tcp port = record { protocol = "TCP"; port = port; endport = "" }

abbrev pub web_pod : PodInfo
web_pod = record { ip = "10.0.0.2"; name = "web-0"; namespace = "ns"; labels = [] }

abbrev pub client_pod : PodInfo
client_pod = record { ip = "10.0.0.7"; name = "client"; namespace = "ns"; labels = [] }

abbrev pub named_http : EndPoints
named_http = record { ips = "10.0.0.2" ∷ []; protocol_and_port = tcp "8080" }

-- From one pod and one block, to port 80 and to a named port.
abbrev pub in_rule : IngressRule
in_rule = record {
  match_all_ports = false;
  ports = tcp "80" ∷ [];
  named_ports = named_http ∷ [];
  match_all_source = false;
  src_pods = client_pod ∷ [];
  src_ip_blocks = ("192.168.0.1" ∷ "timeout" ∷ "0" ∷ []) ∷ [];
}

-- To one pod, on port 53.
abbrev pub out_rule : EgressRule
out_rule = record {
  match_all_ports = false;
  ports = tcp "53" ∷ [];
  named_ports = [];
  match_all_destinations = false;
  dst_pods = client_pod ∷ [];
  dst_ip_blocks = ("192.168.0.1" ∷ "timeout" ∷ "0" ∷ []) ∷ [];
}

abbrev pub web : NetworkPolicyInfo
web = record {
  name = "web";
  namespace = "ns";
  target_pods = ("10.0.0.2", web_pod) ∷ [];
  ingress_rules = some (in_rule ∷ []);
  egress_rules = some (out_rule ∷ []);
  policy_type = both;
}

abbrev pub empty_sync : Sync
empty_sync = record { rules = []; ipset = empty_ipset false; active = [] }

policy_clash_example :
    (network_policy_chain_name same_text "a" "bc" "1"
      ≡ network_policy_chain_name same_text "ab" "c" "1")
    × (policy_source_pod_ipset_name same_text "a" "bc"
        ≡ policy_source_pod_ipset_name same_text "ab" "c")
    × (policy_destination_pod_ipset_name same_text "a" "bc"
        ≡ policy_destination_pod_ipset_name same_text "ab" "c")
policy_clash_example = policy_clash same_text "a" "bc" "ab" "c" "1" refl

digits_clash : cat (itoa 1) (itoa 11) ≡ cat (itoa 11) (itoa 1)
unfolding itoa itoa_fuel digit_text
digits_clash = refl

abbrev pub http_pod : Pod
http_pod = record {
  name = "web-0";
  namespace = "ns";
  labels = [];
  containers = (record { name = "http"; protocol = "TCP"; container_port = 8080 } ∷ []) ∷ [];
  host_network = false;
  phase = "Running";
  pod_ip = "10.0.0.2";
  pod_ips = "10.0.0.2" ∷ [];
  host_ip = "172.16.0.1";
}

ips_at-grab_named_port_from_pod_example :
    ips_at (grab_named_port_from_pod http_pod []) "http" "TCP" "8080"
    ≡ ips_at [] "http" "TCP" "8080"
      ++ pod_ips "http" "TCP" "8080" http_pod.pod_ip http_pod.containers
ips_at-grab_named_port_from_pod_example =
    ips_at-grab_named_port_from_pod "http" "TCP" "8080" http_pod []

rules-process_ingress_rules_example :
    (process_ingress_rules same_text web "1" "KUBE-DST" empty_sync).rules
    ≡ []
      ++ texts
          (network_policy_chain_name same_text "ns" "web" "1")
          (ingress_list same_text web "1" "KUBE-DST")
rules-process_ingress_rules_example =
    rules-process_ingress_rules same_text web "1" "KUBE-DST" empty_sync

rules-process_egress_rules_example :
    (process_egress_rules same_text web "1" "KUBE-SRC" empty_sync).rules
    ≡ []
      ++ texts
          (network_policy_chain_name same_text "ns" "web" "1")
          (egress_list same_text web "1" "KUBE-SRC")
rules-process_egress_rules_example =
    rules-process_egress_rules same_text web "1" "KUBE-SRC" empty_sync

rules-sync_policies_example :
    (sync_policies same_text "1" (web ∷ []) ([], empty_sync)).1.rules
    ≡ [] ++ policies_texts same_text "1" (web ∷ [])
rules-sync_policies_example = rules-sync_policies same_text "1" (web ∷ []) [] empty_sync

setup_pod_netpol_rules-inserted_example :
    (setup_pod_netpol_rules same_text "1" web_pod "FW" (web ∷ []) []
      ≡ [] ++ map (join " ") (written same_text "1" web_pod "FW" (web ∷ [])))
    × (inserted (written same_text "1" web_pod "FW" (web ∷ [])) []
        ≡ established_args "FW"
          ∷ invalid_args "FW"
          ∷ local_node_args web_pod "FW"
          ∷ ((if any (restricts_egress same_text "1" web_pod "FW") (web ∷ [])
                then []
                else default_egress_args web_pod "FW" ∷ [])
              ++ ((if any (restricts_ingress same_text "1" web_pod "FW") (web ∷ [])
                    then []
                    else default_ingress_args web_pod "FW" ∷ [])
                  ++ inserted
                      (map
                        (jump_args same_text "1" web_pod "FW")
                        (keep (selects web_pod) (web ∷ [])))
                      [])))
setup_pod_netpol_rules-inserted_example =
    setup_pod_netpol_rules-inserted same_text "1" web_pod "FW" (web ∷ []) []
