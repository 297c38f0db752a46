-- ===== src/Netpol/PolicyChains/Written.antt =====
-- What a sync writes for the policies, and which chains it reports as active.
use mathlib.Core.List.{append-nil, append_assoc}
use kube_router.Prelude.{
  String, ◌≡◌, refl, ◌∙◌, ap, true, List, [], ◌∷◌, ◌++◌, arith, if◌then◌else◌,
}
use kube_router.Prelude.Text.{concat}
use kube_router.Dict.{insert, keys}
use kube_router.Netpol.{NetworkPolicyInfo, Sync}
use kube_router.Netpol.PodFirewall.{for_ingress, for_egress}
use kube_router.Netpol.Chain.{create_generic_hash_ipset}
use kube_router.Netpol.Chain.Writes.{texts}
use kube_router.Netpol.Ingress.Rules.{ingress_list, rules-process_ingress_rules}
use kube_router.Netpol.Egress.Rules.{egress_list, rules-process_egress_rules}
use kube_router.Netpol.PolicyChains.{
  Chains, chain_of, target_of_ingress, target_of_egress, sync_ingress, sync_egress, declare_chain,
  sync_policy, sync_policies,
}

module _ (hash : String → String) (version : String) where
  -- The chain's declaration, then the rules of the policy's directions.
  abbrev pub policy_texts : NetworkPolicyInfo → List String
  policy_texts policy =
      let chain = chain_of hash version policy in
      concat (":" ∷ chain ∷ "\n" ∷ [])
      ∷ ((if for_ingress policy.policy_type
            then texts chain
                (ingress_list hash policy version (target_of_ingress hash version policy))
            else [])
          ++ (if for_egress policy.policy_type
              then texts chain
                  (egress_list hash policy version (target_of_egress hash version policy))
              else []))

  abbrev pub policies_texts : List NetworkPolicyInfo → List String
  policies_texts [] = []
  policies_texts (policy ∷ policies) = policy_texts policy ++ policies_texts policies

  rules-sync_ingress :
      (policy : NetworkPolicyInfo) (st : Sync)
      → (sync_ingress hash version policy st).rules
        ≡ st.rules
          ++ (if for_ingress policy.policy_type
              then texts
                  (chain_of hash version policy)
                  (ingress_list hash policy version (target_of_ingress hash version policy))
              else [])
  unfolding sync_ingress
  rules-sync_ingress policy st =
      let target = target_of_ingress hash version policy in
      let st' = create_generic_hash_ipset target "hash:ip" (keys policy.target_pods) st in
      ground
        (arith, rules-process_ingress_rules hash policy version target st', append-nil st.rules)

  rules-sync_egress :
      (policy : NetworkPolicyInfo) (st : Sync)
      → (sync_egress hash version policy st).rules
        ≡ st.rules
          ++ (if for_egress policy.policy_type
              then texts
                  (chain_of hash version policy)
                  (egress_list hash policy version (target_of_egress hash version policy))
              else [])
  unfolding sync_egress
  rules-sync_egress policy st =
      let target = target_of_egress hash version policy in
      let st' = create_generic_hash_ipset target "hash:ip" (keys policy.target_pods) st in
      ground (arith, rules-process_egress_rules hash policy version target st', append-nil st.rules)

  rules-sync_policy :
      (policy : NetworkPolicyInfo) (st : Sync)
      → (sync_policy hash version policy st).rules ≡ st.rules ++ policy_texts policy
  unfolding sync_policy
  rules-sync_policy policy st =
      let chain = chain_of hash version policy in
      let st' = declare_chain hash version policy st in
      rules-sync_egress policy (sync_ingress hash version policy st')
      ∙ rw (rules-sync_ingress policy st', append_assoc, append_assoc) refl

  -- A sync writes, for each policy in turn, the declaration of its chain, the ingress rules if it
  -- restricts ingress, and the egress rules if it restricts egress, behind what is there.
  pub rules-sync_policies :
      (policies : List NetworkPolicyInfo) (chains : Chains) (st : Sync)
      → (sync_policies hash version policies (chains, st)).1.rules
        ≡ st.rules ++ policies_texts policies
  unfolding sync_policies
  rules-sync_policies [] chains st = rw append-nil refl
  rules-sync_policies (policy ∷ policies) chains st =
      rules-sync_policies policies (insert (chain_of hash version policy) true chains)
        (sync_policy hash version policy st)
      ∙ ap (λ l. l ++ policies_texts policies) (rules-sync_policy policy st)
      ∙ append_assoc st.rules (policy_texts policy) (policies_texts policies)
