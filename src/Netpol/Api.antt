-- ===== src/Netpol/Api.antt =====
-- The Kubernetes objects that the controller reads (k8s.io/api), as far as it reads them, and its
-- listers. Label selectors and the listers are parameters. The predicates on pods are those of
-- pkg/controllers/netpol/utils.go; `reflect.DeepEqual` of two maps is a parameter of the first.
use kube_router.Prelude.{String, ℕ, Bool, Option, List, ◌&&◌, ◌||◌, not, ◌==◌}
use kube_router.Prelude.Decimal.{itoa}
use kube_router.Exec.{Result}

pub record ContainerPort : Type 0 where
  pub name : String
  pub protocol : String
  pub container_port : ℕ

pub record Pod : Type 0 where
  pub name : String
  pub namespace : String
  pub labels : List (String × String)
  pub containers : List (List ContainerPort)
  pub host_network : Bool
  pub phase : String
  pub pod_ip : String
  pub pod_ips : List String
  pub host_ip : String

-- intstr.IntOrString
pub data IntOrString : Type 0 where
  int : ℕ → IntOrString
  str : String → IntOrString

unfoldable pub to_text : IntOrString → String
to_text (int n) = itoa n
to_text (str s) = s

pub record NetworkPolicyPort : Type 0 where
  pub protocol : Option String
  pub port : Option IntOrString
  pub end_port : Option ℕ

pub record IpBlock : Type 0 where
  pub cidr : String
  pub except : List String

pub record Peer (Selector : Type 0) : Type 0 where
  pub pod_selector : Option Selector
  pub namespace_selector : Option Selector
  pub ip_block : Option IpBlock

-- An ingress rule with its `From`, or an egress rule with its `To`.
pub record SpecRule (Selector : Type 0) : Type 0 where
  pub ports : List NetworkPolicyPort
  pub peers : List (Peer Selector)

-- `none` is a nil slice of rules.
pub record NetworkPolicy (Selector : Type 0) : Type 0 where
  pub name : String
  pub namespace : String
  pub pod_selector : Selector
  pub policy_types : List String
  pub ingress : Option (List (SpecRule Selector))
  pub egress : Option (List (SpecRule Selector))

-- The listers: ListPodsByNamespaceAndLabels, ListNamespaceByLabels (the namespaces' names), and
-- labels.Everything().
pub record Listers (Selector : Type 0) : Type 0 where
  pub list_pods : String → Selector → Result (List Pod)
  pub list_namespaces : Selector → Result (List String)
  pub everything : Selector

-- isFinished
unfoldable pub is_finished : Pod → Bool
is_finished pod = pod.phase == "Failed" || (pod.phase == "Succeeded" || pod.phase == "Completed")

-- isNetPolActionable
unfoldable pub is_net_pol_actionable : Pod → Bool
unfolding is_finished
is_net_pol_actionable pod =
    not (is_finished pod) && (not (pod.pod_ip == "") && not pod.host_network)

-- isPodUpdateNetPolRelevant
unfoldable pub is_pod_update_net_pol_relevant :
    (List String → List String → Bool)
    → (List (String × String) → List (String × String) → Bool)
    → Pod
    → Pod
    → Bool
is_pod_update_net_pol_relevant deep_equal deep_equal_labels old_pod new_pod =
    not (new_pod.phase == old_pod.phase)
    || (not (new_pod.pod_ip == old_pod.pod_ip)
        || (not (deep_equal new_pod.pod_ips old_pod.pod_ips)
            || (not (new_pod.host_ip == old_pod.host_ip)
                || not (deep_equal_labels new_pod.labels old_pod.labels))))
