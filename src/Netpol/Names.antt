-- ===== src/Netpol/Names.antt =====
-- The names of chains and sets (pkg/controllers/netpol/policy.go, pod.go). The first 16 characters of
-- the base32 text of the SHA-256 of a text are a parameter, `hash`.
use kube_router.Prelude.{String, ℕ, [], ◌∷◌}
use kube_router.Prelude.Text.{cat, concat}
use kube_router.Prelude.Decimal.{itoa}

module _ (hash : String → String) where
  -- networkPolicyChainName
  unfoldable pub network_policy_chain_name : String → String → String → String
  network_policy_chain_name namespace policy_name version =
      cat "KUBE-NWPLCY-" (hash (concat (namespace ∷ policy_name ∷ version ∷ [])))

  -- podFirewallChainName
  unfoldable pub pod_firewall_chain_name : String → String → String → String
  pod_firewall_chain_name namespace pod_name version =
      cat "KUBE-POD-FW-" (hash (concat (namespace ∷ pod_name ∷ version ∷ [])))

  unfoldable pub policy_source_pod_ipset_name : String → String → String
  policy_source_pod_ipset_name namespace policy_name =
      cat "KUBE-SRC-" (hash (concat (namespace ∷ policy_name ∷ [])))

  unfoldable pub policy_destination_pod_ipset_name : String → String → String
  policy_destination_pod_ipset_name namespace policy_name =
      cat "KUBE-DST-" (hash (concat (namespace ∷ policy_name ∷ [])))

  unfoldable pub policy_indexed_source_pod_ipset_name : String → String → ℕ → String
  policy_indexed_source_pod_ipset_name namespace policy_name ingress_rule_no =
      cat "KUBE-SRC-" (
        hash (concat (namespace ∷ policy_name ∷ "ingressrule" ∷ itoa ingress_rule_no ∷ "pod" ∷ [])))

  unfoldable pub policy_indexed_destination_pod_ipset_name : String → String → ℕ → String
  policy_indexed_destination_pod_ipset_name namespace policy_name egress_rule_no =
      cat "KUBE-DST-"
        (hash (concat (namespace ∷ policy_name ∷ "egressrule" ∷ itoa egress_rule_no ∷ "pod" ∷ [])))

  unfoldable pub policy_indexed_source_ip_block_ipset_name : String → String → ℕ → String
  policy_indexed_source_ip_block_ipset_name namespace policy_name ingress_rule_no =
      cat "KUBE-SRC-" (
        hash (
          concat (namespace ∷ policy_name ∷ "ingressrule" ∷ itoa ingress_rule_no ∷ "ipblock" ∷ [])))

  unfoldable pub policy_indexed_destination_ip_block_ipset_name : String → String → ℕ → String
  policy_indexed_destination_ip_block_ipset_name namespace policy_name egress_rule_no =
      cat "KUBE-DST-" (
        hash
          (concat (namespace ∷ policy_name ∷ "egressrule" ∷ itoa egress_rule_no ∷ "ipblock" ∷ [])))

  unfoldable pub policy_indexed_ingress_named_port_ipset_name : String → String → ℕ → ℕ → String
  policy_indexed_ingress_named_port_ipset_name namespace policy_name ingress_rule_no named_port_no =
      cat "KUBE-DST-" (
        hash (
          concat (
            namespace
            ∷ policy_name
            ∷ "ingressrule"
            ∷ itoa ingress_rule_no
            ∷ itoa named_port_no
            ∷ "namedport"
            ∷ [])))

  unfoldable pub policy_indexed_egress_named_port_ipset_name : String → String → ℕ → ℕ → String
  policy_indexed_egress_named_port_ipset_name namespace policy_name egress_rule_no named_port_no =
      cat "KUBE-DST-" (
        hash (
          concat (
            namespace
            ∷ policy_name
            ∷ "egressrule"
            ∷ itoa egress_rule_no
            ∷ itoa named_port_no
            ∷ "namedport"
            ∷ [])))
