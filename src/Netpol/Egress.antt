-- ===== src/Netpol/Egress.antt =====
-- `processEgressRules` (pkg/controllers/netpol/policy.go).
pub mod Rules
pub mod Permits
pub mod Processed
use kube_router.Prelude.{
  String, ℕ, suc, Bool, Option, none, some, List, [], ◌∷◌, ◌&&◌, not, if◌then◌else◌, is_empty,
}
use kube_router.Prelude.Text.{concat}
use kube_router.IpSet.{refresh_set}
use kube_router.Netpol.{EndPoints, EgressRule, NetworkPolicyInfo, Sync}
use kube_router.Netpol.Names.{
  network_policy_chain_name, policy_indexed_destination_pod_ipset_name,
  policy_indexed_destination_ip_block_ipset_name, policy_indexed_egress_named_port_ipset_name,
}
use kube_router.Netpol.Chain.{
  rule_of, any_port, append_rule_to_policy_chain, get_ips_from_pods, set_active,
  create_policy_indexed_ipset, append_port_rules, create_pod_with_port_policy_rule,
}

unfoldable pub to_pods : NetworkPolicyInfo → String
to_pods policy = concat (
    "rule to ACCEPT traffic from source pods to dest pods selected by policy name " ∷ policy.name
    ∷ " namespace " ∷ policy.namespace ∷ [])

unfoldable pub to_all : NetworkPolicyInfo → String
to_all policy = concat (
    "rule to ACCEPT traffic from source pods to all destinations selected by policy name: "
    ∷ policy.name ∷ " namespace " ∷ policy.namespace ∷ [])

unfoldable pub to_blocks : NetworkPolicyInfo → String
to_blocks policy = concat (
    "rule to ACCEPT traffic from source pods to specified ipBlocks selected by policy name: "
    ∷ policy.name ∷ " namespace " ∷ policy.namespace ∷ [])

module _ (hash : String → String) (policy : NetworkPolicyInfo) (version target : String) where
  abbrev pub chain : String
  chain = network_policy_chain_name hash policy.namespace policy.name version

  abbrev pub pods_set : ℕ → String
  pods_set idx = policy_indexed_destination_pod_ipset_name hash policy.namespace policy.name idx

  abbrev pub blocks_set : ℕ → String
  blocks_set idx =
      policy_indexed_destination_ip_block_ipset_name hash policy.namespace policy.name idx

  abbrev pub named_set : ℕ → ℕ → String
  named_set idx port =
      policy_indexed_egress_named_port_ipset_name hash policy.namespace policy.name idx port

  -- The loop over the named ports of a rule with pods, from the port with the given number on.
  unfoldable pub named_port_rules : ℕ → ℕ → List EndPoints → Sync → Sync
  unfolding to_pods
  named_port_rules idx port [] st = st
  named_port_rules idx port (eps ∷ more) st = named_port_rules idx (suc port) more (
      append_rule_to_policy_chain chain
        (rule_of (to_pods policy) target (named_set idx port) eps.protocol_and_port)
        (create_policy_indexed_ipset (named_set idx port) "hash:ip" eps.ips st))

  -- The loop over the named ports of a rule for all destinations, which makes no set.
  unfoldable pub all_named_port_rules : List EndPoints → Sync → Sync
  unfolding to_all
  all_named_port_rules [] st = st
  all_named_port_rules (eps ∷ more) st = all_named_port_rules more (
      append_rule_to_policy_chain chain (rule_of (to_all policy) target "" eps.protocol_and_port)
        st)

  -- `if len(egressRule.dstPods) != 0`
  unfoldable pub rules_to_pods : ℕ → EgressRule → Sync → Sync
  unfolding named_port_rules to_pods
  rules_to_pods idx rule st =
      if is_empty rule.dst_pods
      then st
      else (let dst = pods_set idx in
          let st1 =
            create_policy_indexed_ipset dst "hash:ip" (get_ips_from_pods rule.dst_pods) st in
          let st2 =
            if is_empty rule.ports
            then st1
            else create_pod_with_port_policy_rule rule.ports policy chain target dst st1 in
          let st3 =
            if is_empty rule.named_ports
            then st2
            else named_port_rules idx 0 rule.named_ports st2 in
          if is_empty rule.ports && is_empty rule.named_ports
          then append_rule_to_policy_chain chain (rule_of (to_pods policy) target dst any_port) st3
          else st3)

  -- `if egressRule.matchAllDestinations && …`, the two of them
  unfoldable pub rules_to_all : EgressRule → Sync → Sync
  unfolding all_named_port_rules to_all
  rules_to_all rule st =
      let st1 =
        if rule.match_all_destinations && not rule.match_all_ports
        then all_named_port_rules rule.named_ports
            (append_port_rules chain (to_all policy) target "" rule.ports st)
        else st in
      if rule.match_all_destinations && rule.match_all_ports
      then append_rule_to_policy_chain chain (rule_of (to_all policy) target "" any_port) st1
      else st1

  -- `if len(egressRule.dstIPBlocks) != 0`
  unfoldable pub rules_to_blocks : ℕ → EgressRule → Sync → Sync
  unfolding to_blocks
  rules_to_blocks idx rule st =
      if is_empty rule.dst_ip_blocks
      then st
      else (let dst = blocks_set idx in
          let st0 = set_active dst st in
          let st1 = record st0 {
            ipset = refresh_set dst rule.dst_ip_blocks "hash:net" st0.ipset;
          } in
          let st2 =
            if not rule.match_all_ports
            then append_port_rules chain (to_blocks policy) target dst rule.ports st1
            else st1 in
          if rule.match_all_ports
          then append_rule_to_policy_chain chain (rule_of (to_blocks policy) target dst any_port)
              st2
          else st2)

  -- One round of the loop.
  unfoldable pub process_egress_rule : ℕ → EgressRule → Sync → Sync
  unfolding rules_to_pods rules_to_all rules_to_blocks
  process_egress_rule idx rule st =
      rules_to_blocks idx rule (rules_to_all rule (rules_to_pods idx rule st))

  unfoldable pub process_from : ℕ → List EgressRule → Sync → Sync
  unfolding process_egress_rule
  process_from idx [] st = st
  process_from idx (rule ∷ rules) st =
      process_from (suc idx) rules (process_egress_rule idx rule st)

  -- processEgressRules
  unfoldable pub process_egress_rules : Sync → Sync
  unfolding process_from
  process_egress_rules st = elim policy.egress_rules [
    | none ↦ st
    | some rules ↦ process_from 0 rules st
  ]
