-- ===== src/Netpol/Ingress/Rules.antt =====
-- The rules that `processIngressRules` writes, as one list.
use mathlib.Core.List.{append-nil}
use kube_router.Prelude.{
  String, ℕ, suc, ◌≡◌, refl, none, some, List, [], ◌∷◌, ◌++◌, map, ◌&&◌, arith, if◌then◌else◌,
  is_empty, Option-cases, inl, inr,
}
use kube_router.Netpol.{ProtocolAndPort, EndPoints, IngressRule, NetworkPolicyInfo, Sync}
use kube_router.Netpol.Chain.{
  PolicyRule, rule_of, any_port, append_port_rules, create_pod_with_port_policy_rule, set_active,
}
use kube_router.Netpol.Chain.Writes.{
  texts, Writes, Writes-seq, Writes-keep, Writes-if, Writes-either, append_rule-Writes,
  append_port_rules-Writes, create_policy_indexed_ipset-Writes,
}
use kube_router.Netpol.Ingress.{
  chain, pods_set, blocks_set, named_set, from_pods, from_all, from_blocks, named_port_rules,
  rules_from_pods, rules_from_all, rules_from_blocks, process_ingress_rule, process_from,
  process_ingress_rules,
}

module _ (hash : String → String) (policy : NetworkPolicyInfo) (version target : String) where
  abbrev name : String
  name = chain hash policy version target

  -- One rule for each named port, with the port's set as the destination.
  abbrev pub named_list : String → String → ℕ → ℕ → List EndPoints → List PolicyRule
  named_list comment src idx port [] = []
  named_list comment src idx port (eps ∷ more) =
      rule_of comment src (named_set hash policy version target idx port) eps.protocol_and_port
      ∷ named_list comment src idx (suc port) more

  -- The rules with a port or a named port, for one source.
  abbrev pub port_list : String → String → ℕ → IngressRule → List PolicyRule
  port_list comment src idx rule =
      map (rule_of comment src target) rule.ports ++ named_list comment src idx 0 rule.named_ports

  abbrev pub pods_list : ℕ → IngressRule → List PolicyRule
  pods_list idx rule =
      if is_empty rule.src_pods
      then []
      else (let src = pods_set hash policy version target idx in
          port_list (from_pods policy) src idx rule
          ++ (if is_empty rule.ports && is_empty rule.named_ports
              then rule_of (from_pods policy) src target any_port ∷ []
              else []))

  abbrev pub all_list : ℕ → IngressRule → List PolicyRule
  all_list idx rule =
      if rule.match_all_source
      then (if rule.match_all_ports
          then rule_of (from_all policy) "" target any_port ∷ []
          else port_list (from_all policy) "" idx rule)
      else []

  abbrev pub blocks_list : ℕ → IngressRule → List PolicyRule
  blocks_list idx rule =
      if is_empty rule.src_ip_blocks
      then []
      else (let src = blocks_set hash policy version target idx in
          if rule.match_all_ports
          then rule_of (from_blocks policy) src target any_port ∷ []
          else port_list (from_blocks policy) src idx rule)

  abbrev pub rule_list : ℕ → IngressRule → List PolicyRule
  rule_list idx rule = pods_list idx rule ++ (all_list idx rule ++ blocks_list idx rule)

  abbrev pub rules_list : ℕ → List IngressRule → List PolicyRule
  rules_list idx [] = []
  rules_list idx (rule ∷ rules) = rule_list idx rule ++ rules_list (suc idx) rules

  abbrev pub ingress_list : List PolicyRule
  ingress_list = elim policy.ingress_rules [ none ↦ [] | some rules ↦ rules_list 0 rules ]

  named_port_rules-Writes :
      (ty comment src : String) (idx port : ℕ) (eps : List EndPoints)
      → Writes name
          (named_port_rules hash policy version target ty comment src idx port eps)
          (named_list comment src idx port eps)
  unfolding named_port_rules
  named_port_rules-Writes ty comment src idx port [] = Writes-keep name (λ st. st) (λ st. refl)
  named_port_rules-Writes ty comment src idx port (e ∷ eps) =
      Writes-seq name
        (create_policy_indexed_ipset-Writes name (named_set hash policy version target idx port) ty
          e.ips)
        (Writes-seq name
          (append_rule-Writes name (
            rule_of comment src (named_set hash policy version target idx port)
              e.protocol_and_port))
          (named_port_rules-Writes ty comment src idx (suc port) eps))

  -- A loop that is skipped when there is nothing to loop over.
  ports_step :
      (src : String) (ports : List ProtocolAndPort)
      → Writes name
          (λ st.
            if is_empty ports
            then st
            else create_pod_with_port_policy_rule ports policy name src target st)
          (map (rule_of (from_pods policy) src target) ports)
  unfolding create_pod_with_port_policy_rule from_pods
  ports_step src [] = Writes-keep name (λ st. st) (λ st. refl)
  ports_step src (p ∷ ports) =
      append_port_rules-Writes name (from_pods policy) src target (p ∷ ports)

  named_step :
      (src : String) (idx : ℕ) (eps : List EndPoints)
      → Writes name
          (λ st.
            if is_empty eps
            then st
            else named_port_rules hash policy version target "hash:ip"
                (from_pods policy)
                src
                idx
                0
                eps
                st)
          (named_list (from_pods policy) src idx 0 eps)
  named_step src idx [] = Writes-keep name (λ st. st) (λ st. refl)
  named_step src idx (e ∷ eps) =
      named_port_rules-Writes "hash:ip" (from_pods policy) src idx 0 (e ∷ eps)

  port_rules-Writes :
      (ty comment src : String) (idx : ℕ) (rule : IngressRule)
      → Writes name
          (λ st.
            named_port_rules hash policy version target ty comment src idx 0 rule.named_ports
              (append_port_rules name comment src target rule.ports st))
          (port_list comment src idx rule)
  port_rules-Writes ty comment src idx rule =
      Writes-seq name (append_port_rules-Writes name comment src target rule.ports)
        (named_port_rules-Writes ty comment src idx 0 rule.named_ports)

  rules_from_pods-Writes :
      (idx : ℕ) (rule : IngressRule)
      → Writes name (rules_from_pods hash policy version target idx rule) (pods_list idx rule)
  unfolding rules_from_pods
  rules_from_pods-Writes idx rule =
      let src = pods_set hash policy version target idx in
      Writes-if name (is_empty rule.src_pods) _ _ _ _ (Writes-keep name (λ st. st) (λ st. refl)) (
        Writes-seq name (create_policy_indexed_ipset-Writes name src "hash:ip" _) (
          Writes-seq name
            (Writes-seq name (ports_step src rule.ports) (named_step src idx rule.named_ports))
            (Writes-if name (is_empty rule.ports && is_empty rule.named_ports) _ _ _ _
              (append_rule-Writes name (rule_of (from_pods policy) src target any_port))
              (Writes-keep name (λ st. st) (λ st. refl)))))

  rules_from_all-Writes :
      (idx : ℕ) (rule : IngressRule)
      → Writes name (rules_from_all hash policy version target idx rule) (all_list idx rule)
  unfolding rules_from_all
  rules_from_all-Writes idx rule = record {
    at = λ st. ground (
      arith,
      (append_rule-Writes name (rule_of (from_all policy) "" target any_port)).at st,
      (port_rules-Writes "hash:ip" (from_all policy) "" idx rule).at st,
      append-nil st.rules,
    );
  }

  rules_from_blocks-Writes :
      (idx : ℕ) (rule : IngressRule)
      → Writes name (rules_from_blocks hash policy version target idx rule) (blocks_list idx rule)
  unfolding rules_from_blocks set_active
  rules_from_blocks-Writes idx rule =
      let src = blocks_set hash policy version target idx in
      Writes-if name (is_empty rule.src_ip_blocks) _ _ _ _
        (Writes-keep name (λ st. st) (λ st. refl))
        (Writes-seq name (Writes-keep name _ (λ st. refl)) (
          Writes-either name rule.match_all_ports _ _ _ _
            (port_rules-Writes "hash:net" (from_blocks policy) src idx rule)
            (append_rule-Writes name (rule_of (from_blocks policy) src target any_port))))

  pub process_ingress_rule-Writes :
      (idx : ℕ) (rule : IngressRule)
      → Writes name (process_ingress_rule hash policy version target idx rule) (rule_list idx rule)
  unfolding process_ingress_rule
  process_ingress_rule-Writes idx rule =
      Writes-seq name (rules_from_pods-Writes idx rule)
        (Writes-seq name (rules_from_all-Writes idx rule) (rules_from_blocks-Writes idx rule))

  process_from-Writes :
      (idx : ℕ) (rules : List IngressRule)
      → Writes name (process_from hash policy version target idx rules) (rules_list idx rules)
  unfolding process_from
  process_from-Writes idx [] = Writes-keep name (λ st. st) (λ st. refl)
  process_from-Writes idx (rule ∷ rules) =
      Writes-seq name (process_ingress_rule-Writes idx rule) (process_from-Writes (suc idx) rules)

  -- Processing the ingress rules of a policy writes the texts of `ingress_list`, in order, behind
  -- what is there, and no other text; with no rules (a nil slice) it writes nothing.
  pub rules-process_ingress_rules :
      (st : Sync)
      → (process_ingress_rules hash policy version target st).rules
        ≡ st.rules ++ texts name ingress_list
  unfolding process_ingress_rules
  rules-process_ingress_rules st = elim (Option-cases policy.ingress_rules) [
    | inl e ↦ rw (e, process_ingress_rules) (rw append-nil refl)
    | inr (rules, e) ↦ rw (e, process_ingress_rules) ((process_from-Writes 0 rules).at st)
  ]
