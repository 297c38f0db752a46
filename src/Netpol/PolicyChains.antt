-- ===== src/Netpol/PolicyChains.antt =====
-- `syncNetworkPolicyChains` (pkg/controllers/netpol/policy.go): a chain for each policy, the sets that
-- its rules name, and the restore of the sets. Whether the `ipset` utility is found is a parameter.
pub mod Written
use kube_router.Prelude.{
  String, Bool, true, false, Option, none, some, List, [], ◌∷◌, ◌++◌, if◌then◌else◌,
}
use kube_router.Prelude.Text.{cat, concat}
use kube_router.Exec.{Result, ok, err, Exec}
use kube_router.Dict.{insert, keys}
use kube_router.IpSet.{IpSet, Tool, Host, empty_ipset}
use kube_router.IpSet.Restore.{restore}
use kube_router.IpSet.Save.{save}
use kube_router.Netpol.{PolicyType, NetworkPolicyInfo, Sync}
use kube_router.Netpol.PodFirewall.{for_ingress, for_egress}
use kube_router.Netpol.Names.{
  network_policy_chain_name, policy_source_pod_ipset_name, policy_destination_pod_ipset_name,
}
use kube_router.Netpol.Chain.{create_generic_hash_ipset, set_active}
use kube_router.Netpol.Ingress.{process_ingress_rules}
use kube_router.Netpol.Egress.{process_egress_rules}

abbrev pub Chains : Type 0
Chains = List (String × Bool)

module _ (hash : String → String) (version : String) where
  abbrev pub chain_of : NetworkPolicyInfo → String
  chain_of policy = network_policy_chain_name hash policy.namespace policy.name version

  abbrev pub target_of_ingress : NetworkPolicyInfo → String
  target_of_ingress policy = policy_destination_pod_ipset_name hash policy.namespace policy.name

  abbrev pub target_of_egress : NetworkPolicyInfo → String
  target_of_egress policy = policy_source_pod_ipset_name hash policy.namespace policy.name

  -- `if policy.policyType == kubeBothPolicyType || policy.policyType == kubeIngressPolicyType`
  unfoldable pub sync_ingress : NetworkPolicyInfo → Sync → Sync
  unfolding create_generic_hash_ipset set_active
  sync_ingress policy st =
      let target = target_of_ingress policy in
      if for_ingress policy.policy_type
      then set_active target (
          process_ingress_rules hash policy version target
            (create_generic_hash_ipset target "hash:ip" (keys policy.target_pods) st))
      else st

  -- `if policy.policyType == kubeBothPolicyType || policy.policyType == kubeEgressPolicyType`
  unfoldable pub sync_egress : NetworkPolicyInfo → Sync → Sync
  unfolding create_generic_hash_ipset set_active
  sync_egress policy st =
      let target = target_of_egress policy in
      if for_egress policy.policy_type
      then set_active target (
          process_egress_rules hash policy version target
            (create_generic_hash_ipset target "hash:ip" (keys policy.target_pods) st))
      else st

  unfoldable pub declare_chain : NetworkPolicyInfo → Sync → Sync
  declare_chain policy st = record st {
    rules = st.rules ++ concat (":" ∷ chain_of policy ∷ "\n" ∷ []) ∷ [];
  }

  -- One round of the loop over the policies.
  unfoldable pub sync_policy : NetworkPolicyInfo → Sync → Sync
  unfolding sync_ingress sync_egress declare_chain
  sync_policy policy st = sync_egress policy (sync_ingress policy (declare_chain policy st))

  unfoldable pub sync_policies : List NetworkPolicyInfo → Chains × Sync → Chains × Sync
  unfolding sync_policy
  sync_policies [] st = st
  sync_policies (policy ∷ policies) (chains, st) =
      sync_policies policies (insert (chain_of policy) true chains, sync_policy policy st)

  module _ {W : Type 0} (tool : Tool W) (tmp_hash : String → String) where
    unfoldable pub restore_failed : Result (Unit {0}) → Chains × Sync → Result (Chains × Sync)
    restore_failed (ok done) out = ok out
    restore_failed (err e) out = err (cat "failed to perform ipset restore: " e)

    -- From the state after `ipset.Save`.
    unfoldable pub sync_saved :
        List NetworkPolicyInfo
        → List String
        → Result (Unit {0}) × Host W
        → Result (Chains × Sync) × Host W
    unfolding sync_policies restore_failed
    sync_saved policies rules (err e, h) = (err e, h)
    sync_saved policies rules (ok done, h) =
        let out =
          sync_policies policies ([], record { rules = rules; ipset = h.ipset; active = [] }) in
        let (r, h') = restore tmp_hash tool (record h { ipset = out.1.ipset }) in
        (restore_failed r out, h')

    -- syncNetworkPolicyChains; `none` is a panic of the parser.
    unfoldable pub sync_network_policy_chains :
        Bool → List NetworkPolicyInfo → List String → W → Option (Result (Chains × Sync) × Host W)
    unfolding sync_saved
    sync_network_policy_chains found policies rules w =
        let h : Host W = record { ipset = empty_ipset false; world = w } in
        if found
        then (elim (save tool h) [ none ↦ none | some out ↦ some (sync_saved policies rules out) ])
        else some (err "ipset utility not found", h)
