-- ===== src/Netpol/Tests/EgressSets.antt =====
-- What the egress rules of the policy `web` match.
use kube_router.Prelude.{◌≡◌, refl, ◌++◌, true, false, ◌&&◌, ◌||◌, [], ◌∷◌, any}
use kube_router.Prelude.Text.{concat}
use kube_router.Prelude.Decimal.{itoa, itoa_fuel, digit_text}
use kube_router.Netpol.{EgressRule}
use kube_router.Netpol.Names.{
  policy_indexed_destination_pod_ipset_name, policy_indexed_destination_ip_block_ipset_name,
  policy_indexed_egress_named_port_ipset_name,
}
use kube_router.Netpol.Packet.{Packet, Matcher, matches}
use kube_router.Netpol.Egress.Rules as OutRules
use kube_router.Netpol.Egress.Permits as OutPermits
use kube_router.Netpol.Egress as Out
use kube_router.Netpol.Egress.Processed
use kube_router.Netpol.Chain.Writes.{texts}
use kube_router.Netpol.Tests.{same_text, named_http, empty_sync, out_rule, web}
use kube_router.Netpol.Tests.Sets.{entries_hold, matcher, ip_of, is_client, is_block}

abbrev out_matcher : Matcher
out_matcher = matcher (
    ("T", ip_of ("10.0.0.2" ∷ []))
    ∷ ("KUBE-DST-nswebegressrule0pod", is_client)
    ∷ ("KUBE-DST-nswebegressrule0ipblock", is_block)
    ∷ ("KUBE-DST-nswebegressrule00namedport", ip_of ("10.0.0.2" ∷ []))
    ∷ [])

abbrev out_packet : Packet
out_packet = record { src = "10.0.0.2"; dst = "10.0.0.7"; protocol = "TCP"; d_port = "53" }

out_SetsHold : OutPermits.SetsHold same_text web "1" "T" out_matcher entries_hold 0 out_rule
unfolding policy_indexed_destination_pod_ipset_name policy_indexed_destination_ip_block_ipset_name
    concat itoa itoa_fuel digit_text
out_SetsHold = record { pods = λ ip. refl; blocks = λ ip. refl; ports = tt; target_named = refl }

process_egress_rule-numbers_example :
    ((Out.process_egress_rule same_text web "1" "T" 0 out_rule empty_sync).rules
      ≡ []
        ++ texts
            (Out.chain same_text web "1" "T")
            (OutRules.rule_list same_text web "1" "T" 0 out_rule))
    × (any (matches out_matcher out_packet) (OutRules.rule_list same_text web "1" "T" 0 out_rule)
        ≡ (out_matcher.in_set "T" out_packet.src
            && ((out_rule.match_all_destinations
                  || (OutPermits.is_pod out_packet.dst out_rule.dst_pods
                      || OutPermits.to_block same_text web "1" "T" out_matcher entries_hold out_rule
                          out_packet))
                && (out_rule.match_all_ports
                    || OutPermits.on_numbers same_text web "1" "T" out_matcher entries_hold out_rule
                        out_packet))))
process_egress_rule-numbers_example =
    Processed.process_egress_rule-numbers same_text web "1" "T" out_matcher entries_hold 0 out_rule
      out_packet empty_sync out_SetsHold refl refl

-- To every destination, on a named port.
abbrev all_rule : EgressRule
all_rule = record {
  match_all_ports = false;
  ports = [];
  named_ports = named_http ∷ [];
  match_all_destinations = true;
  dst_pods = [];
  dst_ip_blocks = [];
}

-- The client has no port 8080.
abbrev stray_packet : Packet
stray_packet = record { src = "10.0.0.2"; dst = "10.0.0.7"; protocol = "TCP"; d_port = "8080" }

process_egress_rule-all_named_example :
    ((Out.process_egress_rule same_text web "1" "T" 0 all_rule empty_sync).rules
      ≡ []
        ++ texts
            (Out.chain same_text web "1" "T")
            (OutRules.rule_list same_text web "1" "T" 0 all_rule))
    × (any (matches out_matcher stray_packet) (OutRules.rule_list same_text web "1" "T" 0 all_rule)
        ≡ true)
process_egress_rule-all_named_example =
    Processed.process_egress_rule-all_named same_text web "1" "T" out_matcher entries_hold 0
      all_rule stray_packet empty_sync refl refl refl refl

-- To a block, on a named port.
abbrev block_rule : EgressRule
block_rule = record {
  match_all_ports = false;
  ports = [];
  named_ports = named_http ∷ [];
  match_all_destinations = false;
  dst_pods = [];
  dst_ip_blocks = ("192.168.0.1" ∷ "timeout" ∷ "0" ∷ []) ∷ [];
}

abbrev block_matcher : Matcher
block_matcher = matcher (
    ("KUBE-DST-nswebegressrule0ipblock", is_block)
    ∷ ("KUBE-DST-nswebegressrule00namedport", ip_of ("10.0.0.2" ∷ []))
    ∷ [])

block_SetsHold : OutPermits.SetsHold same_text web "1" "T" block_matcher entries_hold 0 block_rule
unfolding policy_indexed_destination_pod_ipset_name policy_indexed_destination_ip_block_ipset_name
    policy_indexed_egress_named_port_ipset_name concat itoa itoa_fuel digit_text
block_SetsHold = record {
  pods = λ ip. refl;
  blocks = λ ip. refl;
  ports = (λ ip. refl, tt);
  target_named = refl;
}
