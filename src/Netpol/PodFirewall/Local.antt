-- ===== src/Netpol/PodFirewall/Local.antt =====
-- Which pods get a chain: those that run on the node and that policies apply to.
use kube_router.Prelude.{
  String, ◌≡◌, ◌∙◌, Bool, true, false, ◌&&◌, ◌||◌, Option, none, some, List, [], ◌∷◌, arith, any,
  if◌then◌else◌, ◌==◌,
}
use kube_router.Dict.{lookup, insert, keys, values, lookup-insert, keys_lem}
use kube_router.Netpol.{PodInfo, NetworkPolicyInfo}
use kube_router.Netpol.Api.{Pod, is_net_pol_actionable}
use kube_router.Netpol.Build.{pod_info}
use kube_router.Netpol.Names.{pod_firewall_chain_name}
use kube_router.Netpol.PodFirewall.{local_pods, pod_rules, sync_pods, sync_pod_firewall_chains}
use kube_router.Netpol.PodRules.{Rules}

abbrev pub is_local : String → Pod → Bool
is_local node_ip pod = pod.host_ip == node_ip && is_net_pol_actionable pod

abbrev found : {A : Type 0} → Option A → Bool
found none = false
found (some a) = true

local_pods-found :
    (node_ip ip : String) (pods : List Pod) (m : List (String × PodInfo))
    → found (lookup ip (local_pods node_ip pods m))
      ≡ (found (lookup ip m) || any (λ (p : Pod). is_local node_ip p && p.pod_ip == ip) pods)
unfolding local_pods
local_pods-found node_ip ip [] m = ground arith
local_pods-found node_ip ip (pod ∷ pods) m = ground (
  arith,
  local_pods-found node_ip ip pods (insert pod.pod_ip (pod_info pod) m),
  local_pods-found node_ip ip pods m,
  lookup-insert pod.pod_ip ip (pod_info pod) m,
)

-- An address is that of a local pod exactly if some pod of the cluster that has it runs on the node,
-- has not finished, and is not on the host's network.
pub local_pods_lem :
    (node_ip ip : String) (pods : List Pod)
    → any (λ j. j == ip) (keys (local_pods node_ip pods []))
      ≡ any (λ (p : Pod). is_local node_ip p && p.pod_ip == ip) pods
unfolding lookup
local_pods_lem node_ip ip pods =
    ground (arith, keys_lem ip (local_pods node_ip pods []), local_pods-found node_ip ip pods [])

found_if :
    (b rest : Bool) (o o' : Option Bool)
    → o' ≡ (if b then some true else o)
    → (found o' || rest) ≡ (found o || (b || rest))
found_if b rest o o' h = ground arith

module _ (hash : String → String) (version : String) (policies : List NetworkPolicyInfo) where
  abbrev name : PodInfo → String
  name pod = pod_firewall_chain_name hash pod.namespace pod.name version

  sync_pods-active :
      (pods : List PodInfo) (active : List (String × Bool)) (rules : Rules) (c : String)
      → found (lookup c (sync_pods hash version policies pods (active, rules)).0)
        ≡ (found (lookup c active) || any (λ p. name p == c) pods)
  unfolding sync_pods
  sync_pods-active [] active rules c = ground arith
  sync_pods-active (pod ∷ pods) active rules c =
      sync_pods-active pods (insert (name pod) true active)
        (pod_rules hash version policies pod rules) c
      ∙ found_if (name pod == c) _ (lookup c active) _ (lookup-insert (name pod) c true active)

  -- A chain is active after a sync exactly if it is the chain of a local pod.
  pub sync_pod_firewall_chains-active :
      (node_ip : String) (pods : List Pod) (rules : Rules) (c : String)
      → any
          (λ j. j == c)
          (keys (sync_pod_firewall_chains hash version node_ip pods policies rules).0)
        ≡ any (λ p. name p == c) (values (local_pods node_ip pods []))
  unfolding sync_pod_firewall_chains lookup
  sync_pod_firewall_chains-active node_ip pods rules c = ground (
    arith,
    keys_lem c
        (sync_pods hash version policies (values (local_pods node_ip pods [])) ([], rules)).0,
    sync_pods-active (values (local_pods node_ip pods [])) [] rules c,
  )
