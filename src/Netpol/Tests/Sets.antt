-- ===== src/Netpol/Tests/Sets.antt =====
-- What the rules of the policy `web` match, with sets that hold what the policy says.
use kube_router.Prelude.{
  String, ◌≡◌, refl, ◌++◌, Bool, true, false, ◌&&◌, ◌||◌, none, some, List, [], ◌∷◌, any, all, ◌==◌,
  if◌then◌else◌, inr,
}
use kube_router.Prelude.Text.{concat}
use kube_router.Prelude.Decimal.{itoa, itoa_fuel, digit_text}
use kube_router.Exec.{ok}
use kube_router.Dict.{lookup, values}
use kube_router.Netpol.{PodInfo, ProtocolAndPort}
use kube_router.Netpol.Names.{
  policy_indexed_source_pod_ipset_name, policy_indexed_source_ip_block_ipset_name,
  policy_indexed_ingress_named_port_ipset_name,
}
use kube_router.Netpol.Api.{
  Pod, IntOrString, int, str, NetworkPolicyPort, Peer, SpecRule, Listers, is_net_pol_actionable,
}
use kube_router.Netpol.Ports.{NamedPortToEps, process_network_policy_ports, one_port, named_eps}
use kube_router.Netpol.Build.{build_ingress_rule, peer_blocks, pod_info}
use kube_router.Netpol.Build.Selected.{permits_spec, build_ingress_rule-permits}
use kube_router.Netpol.Build.Rules.{knows, fits, peer_blocks-fits, build_ingress_rule-unknown}
use kube_router.Netpol.Packet.{Packet, Matcher, matches}
use kube_router.Netpol.Ingress.Rules as InRules
use kube_router.Netpol.Ingress.Permits as InPermits
use kube_router.Netpol.Ingress as In
use kube_router.Netpol.Chain.Writes.{texts}
use kube_router.Netpol.Tests.{same_text, http_pod, client_pod, named_http, empty_sync, in_rule, web}

abbrev pub entries_hold : List (List String) → String → Bool
entries_hold [] ip = false
entries_hold ([] ∷ es) ip = entries_hold es ip
entries_hold ((w ∷ ws) ∷ es) ip = w == ip || entries_hold es ip

-- Each set with the test of what it holds; any other set holds nothing.
abbrev pub in_sets : List (String × (String → Bool)) → String → String → Bool
in_sets [] set ip = false
in_sets ((n, holds) ∷ more) set ip = if n == set then holds ip else in_sets more set ip

abbrev pub on_port : ProtocolAndPort → Packet → Bool
on_port q p = (q.protocol == "" || q.protocol == p.protocol) && (q.port == "" || q.port == p.d_port)

abbrev pub matcher : List (String × (String → Bool)) → Matcher
matcher sets = record { in_set = in_sets sets; on_port = on_port; on_any_port = λ p. refl }

abbrev pub ip_of : List String → String → Bool
ip_of ips ip = any (λ i. i == ip) ips

abbrev pub is_client : String → Bool
is_client ip = any (λ (q : PodInfo). q.ip == ip) (client_pod ∷ [])

abbrev pub is_block : String → Bool
is_block ip = entries_hold (("192.168.0.1" ∷ "timeout" ∷ "0" ∷ []) ∷ []) ip

abbrev in_matcher : Matcher
in_matcher = matcher (
    ("T", ip_of ("10.0.0.2" ∷ []))
    ∷ ("KUBE-SRC-nswebingressrule0pod", is_client)
    ∷ ("KUBE-SRC-nswebingressrule0ipblock", is_block)
    ∷ ("KUBE-DST-nswebingressrule00namedport", ip_of ("10.0.0.2" ∷ []))
    ∷ [])

abbrev packet : Packet
packet = record { src = "10.0.0.7"; dst = "10.0.0.2"; protocol = "TCP"; d_port = "8080" }

in_SetsHold : InPermits.SetsHold same_text web "1" "T" in_matcher entries_hold 0 in_rule
unfolding policy_indexed_source_pod_ipset_name policy_indexed_source_ip_block_ipset_name
    policy_indexed_ingress_named_port_ipset_name concat itoa itoa_fuel digit_text
in_SetsHold = record {
  pods = λ ip. refl;
  blocks = λ ip. refl;
  ports = (λ ip. refl, tt);
  target_named = refl;
}

process_ingress_rule-permits_example :
    ((In.process_ingress_rule same_text web "1" "T" 0 in_rule empty_sync).rules
      ≡ []
        ++ texts
            (In.chain same_text web "1" "T")
            (InRules.rule_list same_text web "1" "T" 0 in_rule))
    × (any (matches in_matcher packet) (InRules.rule_list same_text web "1" "T" 0 in_rule)
        ≡ InPermits.permits same_text web "1" "T" in_matcher entries_hold in_rule packet)
process_ingress_rule-permits_example =
    InPermits.process_ingress_rule-permits same_text web "1" "T" in_matcher entries_hold 0 in_rule
      packet empty_sync in_SetsHold refl

-- A selector is a text, and every selector finds the client.
abbrev client : Pod
client = record http_pod { name = "client"; containers = []; pod_ip = "10.0.0.7" }

abbrev listers : Listers String
listers = record {
  list_pods = λ n sel. ok (client ∷ []);
  list_namespaces = λ sel. ok ("ns" ∷ []);
  everything = "";
}

abbrev client_peer : Peer String
client_peer = record { pod_selector = some "client"; namespace_selector = none; ip_block = none }

abbrev world_peer : Peer String
world_peer = record {
  pod_selector = none;
  namespace_selector = none;
  ip_block = some (record { cidr = "0.0.0.0/0"; except = "10.0.0.0/8" ∷ [] });
}

peer_blocks-fits_example : all fits (peer_blocks listers (client_peer ∷ world_peer ∷ [])) ≡ true
peer_blocks-fits_example = peer_blocks-fits listers (client_peer ∷ world_peer ∷ [])

abbrev eps : NamedPortToEps
eps = ("http", ("TCP", ("8080", named_http) ∷ []) ∷ []) ∷ []

abbrev on : IntOrString → NetworkPolicyPort
on p = record { protocol = some "TCP"; port = some p; end_port = none }

abbrev known_spec : SpecRule String
known_spec = record { ports = on (int 80) ∷ on (str "http") ∷ []; peers = client_peer ∷ [] }

abbrev unknown_spec : SpecRule String
unknown_spec = record { ports = on (str "metrics") ∷ []; peers = client_peer ∷ [] }

abbrev spec_matcher : Matcher
spec_matcher = matcher (
    ("T", ip_of ("10.0.0.2" ∷ []))
    ∷ ("KUBE-SRC-nswebingressrule0pod", is_client)
    ∷ ("KUBE-DST-nswebingressrule00namedport", ip_of ("10.0.0.2" ∷ []))
    ∷ [])

known_SetsHold :
    InPermits.SetsHold same_text web "1" "T" spec_matcher entries_hold 0
      (build_ingress_rule listers "ns" eps known_spec)
unfolding policy_indexed_source_pod_ipset_name policy_indexed_source_ip_block_ipset_name
    policy_indexed_ingress_named_port_ipset_name concat itoa itoa_fuel digit_text build_ingress_rule
    process_network_policy_ports one_port lookup values is_net_pol_actionable pod_info
known_SetsHold = record {
  pods = λ ip. refl;
  blocks = λ ip. refl;
  ports = (λ ip. refl, tt);
  target_named = refl;
}

unknown_SetsHold :
    InPermits.SetsHold same_text web "1" "T" spec_matcher entries_hold 0
      (build_ingress_rule listers "ns" eps unknown_spec)
unfolding policy_indexed_source_pod_ipset_name policy_indexed_source_ip_block_ipset_name
    policy_indexed_ingress_named_port_ipset_name concat itoa itoa_fuel digit_text build_ingress_rule
    process_network_policy_ports one_port lookup values is_net_pol_actionable pod_info
unknown_SetsHold = record {
  pods = λ ip. refl;
  blocks = λ ip. refl;
  ports = tt;
  target_named = refl;
}

build_ingress_rule-permits_example :
    ((In.process_ingress_rule same_text web "1" "T" 0
        (build_ingress_rule listers "ns" eps known_spec)
        empty_sync).rules
      ≡ []
        ++ texts (In.chain same_text web "1" "T") (
            InRules.rule_list same_text web "1" "T" 0
              (build_ingress_rule listers "ns" eps known_spec)))
    × (any (matches spec_matcher packet) (
          InRules.rule_list same_text web "1" "T" 0
            (build_ingress_rule listers "ns" eps known_spec))
        ≡ permits_spec listers spec_matcher "T" entries_hold "ns" eps known_spec packet)
build_ingress_rule-permits_example =
    build_ingress_rule-permits listers spec_matcher "T" entries_hold same_text web "1" "ns" eps
      known_spec 0 packet empty_sync known_SetsHold (inr refl)

unknown_ports : any (knows eps) unknown_spec.ports ≡ false
unfolding named_eps lookup
unknown_ports = refl

build_ingress_rule-unknown_example :
    ((In.process_ingress_rule same_text web "1" "T" 0
        (build_ingress_rule listers "ns" eps unknown_spec)
        empty_sync).rules
      ≡ []
        ++ texts (In.chain same_text web "1" "T") (
            InRules.rule_list same_text web "1" "T" 0
              (build_ingress_rule listers "ns" eps unknown_spec)))
    × (any (matches spec_matcher packet) (
          InRules.rule_list same_text web "1" "T" 0
            (build_ingress_rule listers "ns" eps unknown_spec))
        ≡ (InPermits.is_pod packet.src (build_ingress_rule listers "ns" eps unknown_spec).src_pods
            && spec_matcher.in_set "T" packet.dst))
build_ingress_rule-unknown_example =
    build_ingress_rule-unknown listers same_text web "1" "T" spec_matcher entries_hold "ns" eps
      unknown_spec 0 packet empty_sync unknown_SetsHold refl unknown_ports
