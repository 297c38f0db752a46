-- ===== src/Netpol/Build.antt =====
-- `buildNetworkPoliciesInfo`, `evalPodPeer` and `evalIPBlockPeer` (pkg/controllers/netpol/policy.go).
pub mod Rules
pub mod Selected
use kube_router.Prelude.{
  String, Bool, true, false, Option, none, some, List, [], ◌∷◌, ◌++◌, map, ◌&&◌, any, keep,
  is_empty, if◌then◌else◌, ◌==◌,
}
use kube_router.Prelude.Text.{cat, has_suffix}
use kube_router.Exec.{Result, ok, err}
use kube_router.Dict.{insert}
use kube_router.Netpol.{
  PodInfo, IngressRule, EgressRule, PolicyType, ingress, egress, both, NetworkPolicyInfo,
}
use kube_router.Netpol.Api.{
  Pod, IpBlock, Peer, SpecRule, NetworkPolicy, Listers, is_net_pol_actionable,
}
use kube_router.Netpol.Ports.{
  NamedPortToEps, grab_named_port_from_pod, process_network_policy_ports,
  policy_rule_ports_has_named_port,
}

unfoldable pub pod_info : Pod → PodInfo
pod_info pod = record {
  ip = pod.pod_ip;
  name = pod.name;
  namespace = pod.namespace;
  labels = pod.labels;
}

-- The entries for one address block; the kernel refuses a prefix of length 0.
unfoldable pub block_entries : List String → String → List (List String)
block_entries options cidr =
    if has_suffix cidr "/0"
    then ("0.0.0.0/1" ∷ "timeout" ∷ "0" ∷ options)
      ∷ ("128.0.0.0/1" ∷ "timeout" ∷ "0" ∷ options)
      ∷ []
    else (cidr ∷ "timeout" ∷ "0" ∷ options) ∷ []

unfoldable pub except_entries : List String → List (List String)
unfolding block_entries
except_entries [] = []
except_entries (except ∷ excepts) = block_entries ("nomatch" ∷ []) except ++ except_entries excepts

unfoldable pub ip_block_entries : Option IpBlock → List (List String)
unfolding block_entries except_entries
ip_block_entries none = []
ip_block_entries (some block) = block_entries [] block.cidr ++ except_entries block.except

-- The switch on the policy's types; neither of the two is as ingress.
unfoldable pub policy_type_of : List String → PolicyType
policy_type_of types =
    let ingress_type = any (λ t. t == "Ingress") types in
    let egress_type = any (λ t. t == "Egress") types in
    if ingress_type && egress_type then both else if egress_type then egress else ingress

module _ {Selector : Type 0} where
  -- evalIPBlockPeer
  unfoldable pub eval_ip_block_of :
      Option Selector → Option Selector → Option IpBlock → List (List String)
  unfolding ip_block_entries
  eval_ip_block_of none none block = ip_block_entries block
  eval_ip_block_of _ _ block = []

  unfoldable pub eval_ip_block_peer : Peer Selector → List (List String)
  unfolding eval_ip_block_of
  eval_ip_block_peer peer = eval_ip_block_of peer.pod_selector peer.namespace_selector peer.ip_block

module _ {Selector : Type 0} (listers : Listers Selector) where
  open listers use {list_pods, list_namespaces, everything}

  failed : String → String
  failed e = cat "Failed to build network policies info due to " e

  -- `matchingPods = append(matchingPods, namespacePods...)` for each namespace.
  unfoldable pub pods_of_namespaces : Selector → List String → Result (List Pod)
  unfolding failed
  pods_of_namespaces sel [] = ok []
  pods_of_namespaces sel (n ∷ ns) = elim (list_pods n sel) [
    | err e ↦ err (failed e)
    | ok pods ↦ elim (pods_of_namespaces sel ns) [ err e ↦ err e | ok more ↦ ok (pods ++ more) ]
  ]

  unfoldable pub or_everything : Option Selector → Selector
  or_everything none = everything
  or_everything (some sel) = sel

  unfoldable pub pods_of_namespaces_found : Selector → Result (List String) → Result (List Pod)
  unfolding pods_of_namespaces failed
  pods_of_namespaces_found sel (ok namespaces) = pods_of_namespaces sel namespaces
  pods_of_namespaces_found sel (err e) = err (failed e)

  -- evalPodPeer
  unfoldable pub eval_pod_peer_of : String → Option Selector → Option Selector → Result (List Pod)
  unfolding pods_of_namespaces_found or_everything
  eval_pod_peer_of namespace pod_selector (some namespace_selector) =
      pods_of_namespaces_found (or_everything pod_selector) (list_namespaces namespace_selector)
  eval_pod_peer_of namespace (some pod_selector) none = list_pods namespace pod_selector
  eval_pod_peer_of namespace none none = ok []

  unfoldable pub eval_pod_peer : String → Peer Selector → Result (List Pod)
  unfolding eval_pod_peer_of
  eval_pod_peer namespace peer =
      eval_pod_peer_of namespace peer.pod_selector peer.namespace_selector

  -- The pods of a list of peers that the controller acts on; a peer that cannot be listed adds none.
  unfoldable pub actionable : Result (List Pod) → List Pod
  actionable (ok pods) = keep is_net_pol_actionable pods
  actionable (err e) = []

  unfoldable pub peer_pods : String → List (Peer Selector) → List Pod
  unfolding actionable eval_pod_peer
  peer_pods namespace [] = []
  peer_pods namespace (peer ∷ peers) =
      actionable (eval_pod_peer namespace peer) ++ peer_pods namespace peers

  unfoldable pub peer_blocks : List (Peer Selector) → List (List String)
  unfolding eval_ip_block_peer
  peer_blocks [] = []
  peer_blocks (peer ∷ peers) = eval_ip_block_peer peer ++ peer_blocks peers

  unfoldable pub grab_all : List Pod → NamedPortToEps → NamedPortToEps
  grab_all [] m = m
  grab_all (pod ∷ pods) m = grab_all pods (grab_named_port_from_pod pod m)

  unfoldable pub build_ingress_rule : String → NamedPortToEps → SpecRule Selector → IngressRule
  unfolding peer_pods peer_blocks
  build_ingress_rule namespace named_port_eps spec =
      let (numeric, named) = process_network_policy_ports spec.ports named_port_eps in
      record {
        match_all_ports = is_empty spec.ports;
        ports = numeric;
        named_ports = named;
        match_all_source = is_empty spec.peers;
        src_pods = map pod_info (peer_pods namespace spec.peers);
        src_ip_blocks = peer_blocks spec.peers;
      }

  -- The pods whose named ports an egress rule may name: those of its peers, or of the namespace.
  unfoldable pub egress_port_pods : String → SpecRule Selector → List Pod
  unfolding peer_pods actionable
  egress_port_pods namespace spec =
      if is_empty spec.peers
      then (if policy_rule_ports_has_named_port spec.ports
          then actionable (list_pods namespace everything)
          else [])
      else peer_pods namespace spec.peers

  unfoldable pub build_egress_rule : String → SpecRule Selector → EgressRule
  unfolding peer_pods peer_blocks egress_port_pods grab_all
  build_egress_rule namespace spec =
      let named_port_eps = grab_all (egress_port_pods namespace spec) [] in
      let (numeric, named) = process_network_policy_ports spec.ports named_port_eps in
      record {
        match_all_ports = is_empty spec.ports;
        ports = numeric;
        named_ports = named;
        match_all_destinations = is_empty spec.peers;
        dst_pods = map pod_info (peer_pods namespace spec.peers);
        dst_ip_blocks = peer_blocks spec.peers;
      }

  -- `newPolicy.targetPods[matchingPod.Status.PodIP] = …`
  unfoldable pub target_pods : List Pod → List (String × PodInfo) → List (String × PodInfo)
  unfolding pod_info
  target_pods [] m = m
  target_pods (pod ∷ pods) m = target_pods pods (insert pod.pod_ip (pod_info pod) m)

  unfoldable pub build_policy : NetworkPolicy Selector → NetworkPolicyInfo
  unfolding actionable target_pods grab_all build_ingress_rule build_egress_rule
  build_policy policy =
      let pods = actionable (list_pods policy.namespace policy.pod_selector) in
      let named_port_eps = grab_all pods [] in
      record {
        name = policy.name;
        namespace = policy.namespace;
        target_pods = target_pods pods [];
        ingress_rules = elim policy.ingress [
          | none ↦ none
          | some specs ↦ some (map (build_ingress_rule policy.namespace named_port_eps) specs)
        ];
        egress_rules = elim policy.egress [
          | none ↦ none
          | some specs ↦ some (map (build_egress_rule policy.namespace) specs)
        ];
        policy_type = policy_type_of policy.policy_types;
      }

  -- buildNetworkPoliciesInfo
  unfoldable pub build_network_policies_info :
      List (NetworkPolicy Selector) → List NetworkPolicyInfo
  unfolding build_policy
  build_network_policies_info policies = map build_policy policies
