-- ===== src/Netpol/Ingress.antt =====
-- `processIngressRules` (pkg/controllers/netpol/policy.go).
pub mod Rules
pub mod Permits
use kube_router.Prelude.{
  String, ℕ, suc, Bool, true, false, Option, none, some, List, [], ◌∷◌, ◌&&◌, not, if◌then◌else◌,
  is_empty,
}
use kube_router.Prelude.Text.{concat}
use kube_router.IpSet.{refresh_set}
use kube_router.Netpol.{EndPoints, IngressRule, NetworkPolicyInfo, Sync}
use kube_router.Netpol.Names.{
  network_policy_chain_name, policy_indexed_source_pod_ipset_name,
  policy_indexed_source_ip_block_ipset_name, policy_indexed_ingress_named_port_ipset_name,
}
use kube_router.Netpol.Chain.{
  rule_of, any_port, append_rule_to_policy_chain, get_ips_from_pods, set_active,
  create_policy_indexed_ipset, append_port_rules, create_pod_with_port_policy_rule,
}

unfoldable pub from_pods : NetworkPolicyInfo → String
from_pods policy = concat (
    "rule to ACCEPT traffic from source pods to dest pods selected by policy name " ∷ policy.name
    ∷ " namespace " ∷ policy.namespace ∷ [])

unfoldable pub from_all : NetworkPolicyInfo → String
from_all policy = concat (
    "rule to ACCEPT traffic from all sources to dest pods selected by policy name: " ∷ policy.name
    ∷ " namespace " ∷ policy.namespace ∷ [])

unfoldable pub from_blocks : NetworkPolicyInfo → String
from_blocks policy = concat (
    "rule to ACCEPT traffic from specified ipBlocks to dest pods selected by policy name: "
    ∷ policy.name ∷ " namespace " ∷ policy.namespace ∷ [])

module _ (hash : String → String) (policy : NetworkPolicyInfo) (version target : String) where
  abbrev pub chain : String
  chain = network_policy_chain_name hash policy.namespace policy.name version

  abbrev pub pods_set : ℕ → String
  pods_set idx = policy_indexed_source_pod_ipset_name hash policy.namespace policy.name idx

  abbrev pub blocks_set : ℕ → String
  blocks_set idx = policy_indexed_source_ip_block_ipset_name hash policy.namespace policy.name idx

  abbrev pub named_set : ℕ → ℕ → String
  named_set idx port =
      policy_indexed_ingress_named_port_ipset_name hash policy.namespace policy.name idx port

  -- The loop over the named ports of a rule, from the port with the given number on: a set for the
  -- pods with the port, and a rule with that set as the destination.
  unfoldable pub named_port_rules : String → String → String → ℕ → ℕ → List EndPoints → Sync → Sync
  named_port_rules hash_type comment src idx port [] st = st
  named_port_rules hash_type comment src idx port (eps ∷ more) st =
      named_port_rules hash_type comment src idx (suc port) more (
        append_rule_to_policy_chain chain
          (rule_of comment src (named_set idx port) eps.protocol_and_port)
          (create_policy_indexed_ipset (named_set idx port) hash_type eps.ips st))

  -- `if len(ingressRule.srcPods) != 0`
  unfoldable pub rules_from_pods : ℕ → IngressRule → Sync → Sync
  unfolding named_port_rules from_pods
  rules_from_pods idx rule st =
      if is_empty rule.src_pods
      then st
      else (let src = pods_set idx in
          let st1 =
            create_policy_indexed_ipset src "hash:ip" (get_ips_from_pods rule.src_pods) st in
          let st2 =
            if is_empty rule.ports
            then st1
            else create_pod_with_port_policy_rule rule.ports policy chain src target st1 in
          let st3 =
            if is_empty rule.named_ports
            then st2
            else named_port_rules "hash:ip" (from_pods policy) src idx 0 rule.named_ports st2 in
          if is_empty rule.ports && is_empty rule.named_ports
          then append_rule_to_policy_chain chain (rule_of (from_pods policy) src target any_port)
              st3
          else st3)

  -- `if ingressRule.matchAllSource && …`, the two of them
  unfoldable pub rules_from_all : ℕ → IngressRule → Sync → Sync
  unfolding named_port_rules from_all
  rules_from_all idx rule st =
      let st1 =
        if rule.match_all_source && not rule.match_all_ports
        then named_port_rules "hash:ip" (from_all policy) "" idx 0 rule.named_ports
            (append_port_rules chain (from_all policy) "" target rule.ports st)
        else st in
      if rule.match_all_source && rule.match_all_ports
      then append_rule_to_policy_chain chain (rule_of (from_all policy) "" target any_port) st1
      else st1

  -- `if len(ingressRule.srcIPBlocks) != 0`
  unfoldable pub rules_from_blocks : ℕ → IngressRule → Sync → Sync
  unfolding named_port_rules from_blocks
  rules_from_blocks idx rule st =
      if is_empty rule.src_ip_blocks
      then st
      else (let src = blocks_set idx in
          let st0 = set_active src st in
          let st1 = record st0 {
            ipset = refresh_set src rule.src_ip_blocks "hash:net" st0.ipset;
          } in
          let st2 =
            if not rule.match_all_ports
            then named_port_rules "hash:net" (from_blocks policy) src idx 0 rule.named_ports
                (append_port_rules chain (from_blocks policy) src target rule.ports st1)
            else st1 in
          if rule.match_all_ports
          then append_rule_to_policy_chain chain (rule_of (from_blocks policy) src target any_port)
              st2
          else st2)

  -- One round of the loop.
  unfoldable pub process_ingress_rule : ℕ → IngressRule → Sync → Sync
  unfolding rules_from_pods rules_from_all rules_from_blocks
  process_ingress_rule idx rule st =
      rules_from_blocks idx rule (rules_from_all idx rule (rules_from_pods idx rule st))

  unfoldable pub process_from : ℕ → List IngressRule → Sync → Sync
  unfolding process_ingress_rule
  process_from idx [] st = st
  process_from idx (rule ∷ rules) st =
      process_from (suc idx) rules (process_ingress_rule idx rule st)

  -- processIngressRules
  unfoldable pub process_ingress_rules : Sync → Sync
  unfolding process_from
  process_ingress_rules st = elim policy.ingress_rules [
    | none ↦ st
    | some rules ↦ process_from 0 rules st
  ]
