-- ===== src/Netpol/Egress/Rules.antt =====
-- The rules that `processEgressRules` writes, as one list.
use mathlib.Core.List.{append-nil}
use kube_router.Prelude.{
  String, ℕ, suc, ◌≡◌, refl, none, some, List, [], ◌∷◌, ◌++◌, map, ◌&&◌, arith, if◌then◌else◌,
  is_empty, Option-cases, inl, inr,
}
use kube_router.Netpol.{ProtocolAndPort, EndPoints, EgressRule, NetworkPolicyInfo, Sync}
use kube_router.Netpol.Chain.{
  PolicyRule, rule_of, any_port, create_pod_with_port_policy_rule, set_active,
}
use kube_router.Netpol.Chain.Writes.{
  texts, Writes, Writes-seq, Writes-keep, Writes-if, Writes-either, append_rule-Writes,
  append_port_rules-Writes, create_policy_indexed_ipset-Writes,
}
use kube_router.Netpol.Egress.{
  chain, pods_set, blocks_set, named_set, to_pods, to_all, to_blocks, named_port_rules,
  all_named_port_rules, rules_to_pods, rules_to_all, rules_to_blocks, process_from,
  process_egress_rules, process_egress_rule,
}

module _ (hash : String → String) (policy : NetworkPolicyInfo) (version target : String) where
  abbrev name : String
  name = chain hash policy version target

  -- One rule for each named port, with the port's set as the destination.
  abbrev pub named_list : ℕ → ℕ → List EndPoints → List PolicyRule
  named_list idx port [] = []
  named_list idx port (eps ∷ more) =
      rule_of (to_pods policy) target (named_set hash policy version target idx port)
        eps.protocol_and_port
      ∷ named_list idx (suc port) more

  -- One rule for each named port, for every destination.
  abbrev pub all_named_list : List EndPoints → List PolicyRule
  all_named_list [] = []
  all_named_list (eps ∷ more) =
      rule_of (to_all policy) target "" eps.protocol_and_port ∷ all_named_list more

  abbrev pub pods_list : ℕ → EgressRule → List PolicyRule
  pods_list idx rule =
      if is_empty rule.dst_pods
      then []
      else (let dst = pods_set hash policy version target idx in
          (map (rule_of (to_pods policy) target dst) rule.ports
            ++ named_list idx 0 rule.named_ports)
          ++ (if is_empty rule.ports && is_empty rule.named_ports
              then rule_of (to_pods policy) target dst any_port ∷ []
              else []))

  abbrev pub all_list : EgressRule → List PolicyRule
  all_list rule =
      if rule.match_all_destinations
      then (if rule.match_all_ports
          then rule_of (to_all policy) target "" any_port ∷ []
          else map (rule_of (to_all policy) target "") rule.ports
            ++ all_named_list rule.named_ports)
      else []

  abbrev pub blocks_list : ℕ → EgressRule → List PolicyRule
  blocks_list idx rule =
      if is_empty rule.dst_ip_blocks
      then []
      else (let dst = blocks_set hash policy version target idx in
          if rule.match_all_ports
          then rule_of (to_blocks policy) target dst any_port ∷ []
          else map (rule_of (to_blocks policy) target dst) rule.ports)

  abbrev pub rule_list : ℕ → EgressRule → List PolicyRule
  rule_list idx rule = pods_list idx rule ++ (all_list rule ++ blocks_list idx rule)

  abbrev pub rules_list : ℕ → List EgressRule → List PolicyRule
  rules_list idx [] = []
  rules_list idx (rule ∷ rules) = rule_list idx rule ++ rules_list (suc idx) rules

  abbrev pub egress_list : List PolicyRule
  egress_list = elim policy.egress_rules [ none ↦ [] | some rules ↦ rules_list 0 rules ]

  named_port_rules-Writes :
      (idx port : ℕ) (eps : List EndPoints)
      → Writes name
          (named_port_rules hash policy version target idx port eps)
          (named_list idx port eps)
  unfolding named_port_rules
  named_port_rules-Writes idx port [] = Writes-keep name (λ st. st) (λ st. refl)
  named_port_rules-Writes idx port (e ∷ eps) =
      let set = named_set hash policy version target idx port in
      Writes-seq name (create_policy_indexed_ipset-Writes name set "hash:ip" e.ips) (
        Writes-seq name
          (append_rule-Writes name (rule_of (to_pods policy) target set e.protocol_and_port))
          (named_port_rules-Writes idx (suc port) eps))

  all_named_port_rules-Writes :
      (eps : List EndPoints)
      → Writes name (all_named_port_rules hash policy version target eps) (all_named_list eps)
  unfolding all_named_port_rules
  all_named_port_rules-Writes [] = Writes-keep name (λ st. st) (λ st. refl)
  all_named_port_rules-Writes (e ∷ eps) =
      Writes-seq name
        (append_rule-Writes name (rule_of (to_all policy) target "" e.protocol_and_port))
        (all_named_port_rules-Writes eps)

  -- A loop that is skipped when there is nothing to loop over.
  ports_step :
      (dst : String) (ports : List ProtocolAndPort)
      → Writes name
          (λ st.
            if is_empty ports
            then st
            else create_pod_with_port_policy_rule ports policy name target dst st)
          (map (rule_of (to_pods policy) target dst) ports)
  unfolding create_pod_with_port_policy_rule to_pods
  ports_step dst [] = Writes-keep name (λ st. st) (λ st. refl)
  ports_step dst (p ∷ ports) = append_port_rules-Writes name (to_pods policy) target dst (p ∷ ports)

  named_step :
      (idx : ℕ) (eps : List EndPoints)
      → Writes name
          (λ st.
            if is_empty eps then st else named_port_rules hash policy version target idx 0 eps st)
          (named_list idx 0 eps)
  named_step idx [] = Writes-keep name (λ st. st) (λ st. refl)
  named_step idx (e ∷ eps) = named_port_rules-Writes idx 0 (e ∷ eps)

  rules_to_pods-Writes :
      (idx : ℕ) (rule : EgressRule)
      → Writes name (rules_to_pods hash policy version target idx rule) (pods_list idx rule)
  unfolding rules_to_pods
  rules_to_pods-Writes idx rule =
      let dst = pods_set hash policy version target idx in
      Writes-if name (is_empty rule.dst_pods) _ _ _ _ (Writes-keep name (λ st. st) (λ st. refl)) (
        Writes-seq name (create_policy_indexed_ipset-Writes name dst "hash:ip" _) (
          Writes-seq name
            (Writes-seq name (ports_step dst rule.ports) (named_step idx rule.named_ports))
            (Writes-if name (is_empty rule.ports && is_empty rule.named_ports) _ _ _ _
              (append_rule-Writes name (rule_of (to_pods policy) target dst any_port))
              (Writes-keep name (λ st. st) (λ st. refl)))))

  rules_to_all-Writes :
      (rule : EgressRule)
      → Writes name (rules_to_all hash policy version target rule) (all_list rule)
  unfolding rules_to_all
  rules_to_all-Writes rule = record {
    at = λ st. ground (
      arith,
      (append_rule-Writes name (rule_of (to_all policy) target "" any_port)).at st,
      (Writes-seq name (append_port_rules-Writes name (to_all policy) target "" rule.ports)
            (all_named_port_rules-Writes rule.named_ports)).at
          st,
      append-nil st.rules,
    );
  }

  rules_to_blocks-Writes :
      (idx : ℕ) (rule : EgressRule)
      → Writes name (rules_to_blocks hash policy version target idx rule) (blocks_list idx rule)
  unfolding rules_to_blocks set_active
  rules_to_blocks-Writes idx rule =
      let dst = blocks_set hash policy version target idx in
      Writes-if name (is_empty rule.dst_ip_blocks) _ _ _ _
        (Writes-keep name (λ st. st) (λ st. refl))
        (Writes-seq name (Writes-keep name _ (λ st. refl)) (
          Writes-either name rule.match_all_ports _ _ _ _
            (append_port_rules-Writes name (to_blocks policy) target dst rule.ports)
            (append_rule-Writes name (rule_of (to_blocks policy) target dst any_port))))

  pub process_egress_rule-Writes :
      (idx : ℕ) (rule : EgressRule)
      → Writes name (process_egress_rule hash policy version target idx rule) (rule_list idx rule)
  unfolding process_egress_rule
  process_egress_rule-Writes idx rule =
      Writes-seq name (rules_to_pods-Writes idx rule)
        (Writes-seq name (rules_to_all-Writes rule) (rules_to_blocks-Writes idx rule))

  process_from-Writes :
      (idx : ℕ) (rules : List EgressRule)
      → Writes name (process_from hash policy version target idx rules) (rules_list idx rules)
  unfolding process_from
  process_from-Writes idx [] = Writes-keep name (λ st. st) (λ st. refl)
  process_from-Writes idx (rule ∷ rules) =
      Writes-seq name (process_egress_rule-Writes idx rule) (process_from-Writes (suc idx) rules)

  -- Processing the egress rules of a policy writes the texts of `egress_list`, in order, behind what
  -- is there, and no other text; with no rules (a nil slice) it writes nothing.
  pub rules-process_egress_rules :
      (st : Sync)
      → (process_egress_rules hash policy version target st).rules
        ≡ st.rules ++ texts name egress_list
  unfolding process_egress_rules
  rules-process_egress_rules st = elim (Option-cases policy.egress_rules) [
    | inl e ↦ rw (e, process_egress_rules) (rw append-nil refl)
    | inr (rules, e) ↦ rw (e, process_egress_rules) ((process_from-Writes 0 rules).at st)
  ]
