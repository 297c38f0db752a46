-- ===== src/Netpol/PodFirewall.antt =====
-- The chains of the pods on the node (pkg/controllers/netpol/pod.go). `filterTableRules` is the list of
-- the texts written to it.
pub mod Order
pub mod Local
use kube_router.Prelude.{
  String, Bool, true, false, Option, none, some, List, [], ◌∷◌, ◌++◌, not, if◌then◌else◌, ◌==◌,
  ◌&&◌,
}
use kube_router.Prelude.Text.{cat, concat, join, contains}
use kube_router.Dict.{lookup, insert, values}
use kube_router.Netpol.{PodInfo, PolicyType, ingress, egress, both, NetworkPolicyInfo}
use kube_router.Netpol.Api.{Pod, is_net_pol_actionable}
use kube_router.Netpol.Build.{pod_info}
use kube_router.Netpol.PodRules.{
  Rules, write, quoted, default_ingress_args, default_egress_args, local_node_args, invalid_args,
  established_args, intercept_pod_inbound_traffic, intercept_pod_outbound_traffic,
  drop_unmarked_traffic_rules, accept_args,
}
use kube_router.Netpol.Names.{network_policy_chain_name, pod_firewall_chain_name}

abbrev pub for_ingress : PolicyType → Bool
for_ingress ingress = true
for_ingress egress = false
for_ingress both = true

abbrev pub for_egress : PolicyType → Bool
for_egress ingress = false
for_egress egress = true
for_egress both = true

-- `hasIngressPolicy`, `hasEgressPolicy`, and what is written.
pub record Jumps : Type 0 where
  pub has_ingress : Bool
  pub has_egress : Bool
  pub rules : Rules

-- getLocalPods
unfoldable pub local_pods : String → List Pod → List (String × PodInfo) → List (String × PodInfo)
unfolding pod_info
local_pods node_ip [] m = m
local_pods node_ip (pod ∷ pods) m = local_pods node_ip pods (
    if pod.host_ip == node_ip && is_net_pol_actionable pod
    then insert pod.pod_ip (pod_info pod) m
    else m)

module _ (hash : String → String) (version : String) where
  -- The jump to a policy's chain, by the policy's type.
  unfoldable pub jump_args : PodInfo → String → NetworkPolicyInfo → List String
  unfolding quoted
  jump_args pod fw policy =
      let comment = quoted ("run through nw policy " ∷ policy.name ∷ []) in
      let jump =
        "-m"
        ∷ "comment"
        ∷ "--comment"
        ∷ comment
        ∷ "-j"
        ∷ network_policy_chain_name hash policy.namespace policy.name version
        ∷ "\n"
        ∷ [] in
      elim policy.policy_type [
        | both ↦ "-I" ∷ fw ∷ "1" ∷ jump
        | ingress ↦ "-I" ∷ fw ∷ "1" ∷ "-d" ∷ pod.ip ∷ jump
        | egress ↦ "-I" ∷ fw ∷ "1" ∷ "-s" ∷ pod.ip ∷ jump
      ]

  unfoldable pub jump_one : PodInfo → String → NetworkPolicyInfo → Jumps → Jumps
  unfolding jump_args write
  jump_one pod fw policy j = elim (lookup pod.ip policy.target_pods) [
    | none ↦ j
    | some info ↦ record {
      has_ingress = if for_ingress policy.policy_type then true else j.has_ingress;
      has_egress = if for_egress policy.policy_type then true else j.has_egress;
      rules = write (jump_args pod fw policy) j.rules;
    }
  ]

  unfoldable pub jump_all : PodInfo → String → List NetworkPolicyInfo → Jumps → Jumps
  unfolding jump_one
  jump_all pod fw [] j = j
  jump_all pod fw (policy ∷ policies) j = jump_all pod fw policies (jump_one pod fw policy j)

  -- setupPodNetpolRules
  unfoldable pub setup_pod_netpol_rules : PodInfo → String → List NetworkPolicyInfo → Rules → Rules
  unfolding jump_all write
  setup_pod_netpol_rules pod fw policies rules =
      let j =
        jump_all pod fw policies
          (record { has_ingress = false; has_egress = false; rules = rules }) in
      let rules1 =
        if not j.has_ingress then write (default_ingress_args pod fw) j.rules else j.rules in
      let rules2 = if not j.has_egress then write (default_egress_args pod fw) rules1 else rules1 in
      write (established_args fw) (write (invalid_args fw) (write (local_node_args pod fw) rules2))

  -- The rules of one pod.
  unfoldable pub pod_rules : List NetworkPolicyInfo → PodInfo → Rules → Rules
  unfolding setup_pod_netpol_rules intercept_pod_inbound_traffic intercept_pod_outbound_traffic
      drop_unmarked_traffic_rules write
  pod_rules policies pod rules =
      let fw = pod_firewall_chain_name hash pod.namespace pod.name version in
      write (accept_args fw) (
        drop_unmarked_traffic_rules pod fw (
          intercept_pod_outbound_traffic pod fw (
            intercept_pod_inbound_traffic pod fw (
              setup_pod_netpol_rules pod fw policies
                (rules ++ concat (":" ∷ fw ∷ "\n" ∷ []) ∷ [])))))

  -- The loop of syncPodFirewallChains: `activePodFwChains`, and the rules.
  unfoldable pub sync_pods :
      List NetworkPolicyInfo
      → List PodInfo
      → List (String × Bool) × Rules
      → List (String × Bool) × Rules
  unfolding pod_rules
  sync_pods policies [] st = st
  sync_pods policies (pod ∷ pods) (active, rules) = sync_pods policies pods (
    insert (pod_firewall_chain_name hash pod.namespace pod.name version) true active,
    pod_rules policies pod rules,
  )

  -- syncPodFirewallChains
  unfoldable pub sync_pod_firewall_chains :
      String → List Pod → List NetworkPolicyInfo → Rules → List (String × Bool) × Rules
  unfolding sync_pods local_pods
  sync_pod_firewall_chains node_ip pods policies rules =
      sync_pods policies (values (local_pods node_ip pods [])) ([], rules)
