-- ===== src/Netpol/Clash.antt =====
-- Different things with one name: the texts that are hashed join their parts with nothing between.
use text.Mathlib.TextLemmas.{append_assoc}
use kube_router.Prelude.{String, ◌≡◌, ◌∙◌, ap, sym, ℕ}
use kube_router.Prelude.Text.{cat, concat}
use kube_router.Prelude.Decimal.{itoa}
use kube_router.Netpol.Names.{
  network_policy_chain_name, policy_source_pod_ipset_name, policy_destination_pod_ipset_name,
  policy_indexed_ingress_named_port_ipset_name, policy_indexed_egress_named_port_ipset_name,
}

join_left : (a b c d x : String) → cat a b ≡ cat c d → cat a (cat b x) ≡ cat c (cat d x)
join_left a b c d x h = sym (append_assoc a b x) ∙ ap (λ s. cat s x) h ∙ append_assoc c d x

module _ (hash : String → String) where
  -- Two policies, of whichever namespaces, whose namespace and name read alike when they are joined
  -- have the same chain, the same source set and the same destination set, whatever the hash is.
  pub policy_clash :
      (n p m q version : String)
      → cat n p ≡ cat m q
      → (network_policy_chain_name hash n p version ≡ network_policy_chain_name hash m q version)
        × (policy_source_pod_ipset_name hash n p ≡ policy_source_pod_ipset_name hash m q)
        × (policy_destination_pod_ipset_name hash n p ≡ policy_destination_pod_ipset_name hash m q)
  unfolding network_policy_chain_name policy_source_pod_ipset_name policy_destination_pod_ipset_name
      concat
  policy_clash n p m q version h = (
    ap (λ s. cat "KUBE-NWPLCY-" (hash s)) (join_left n p m q _ h),
    ap (λ s. cat "KUBE-SRC-" (hash s)) (join_left n p m q _ h),
    ap (λ s. cat "KUBE-DST-" (hash s)) (join_left n p m q _ h),
  )

  -- Within a policy, two named ports whose rule number and port number read alike when they are
  -- joined (port 11 of rule 1, port 1 of rule 11) have the same set, for ingress and for egress.
  pub named_port_clash :
      (namespace policy_name : String) (i j k l : ℕ)
      → cat (itoa i) (itoa j) ≡ cat (itoa k) (itoa l)
      → (policy_indexed_ingress_named_port_ipset_name hash namespace policy_name i j
          ≡ policy_indexed_ingress_named_port_ipset_name hash namespace policy_name k l)
        × (policy_indexed_egress_named_port_ipset_name hash namespace policy_name i j
            ≡ policy_indexed_egress_named_port_ipset_name hash namespace policy_name k l)
  unfolding policy_indexed_ingress_named_port_ipset_name policy_indexed_egress_named_port_ipset_name
      concat
  named_port_clash namespace policy_name i j k l h =
      let same = join_left (itoa i) (itoa j) (itoa k) (itoa l) (cat "namedport" "") h in
      let text = λ (kind s : String).
        cat "KUBE-DST-" (hash (cat namespace (cat policy_name (cat kind s)))) in
      (ap (text "ingressrule") same, ap (text "egressrule") same)
