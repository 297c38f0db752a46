-- ===== src/Netpol/Chain.antt =====
-- The rules of a policy's chain and the sets that they name: `appendRuleToPolicyChain`,
-- `createGenericHashIPSet`, `createPolicyIndexedIPSet`, `createPodWithPortPolicyRule` and `getIPsFromPods`
-- (pkg/controllers/netpol/policy.go, utils.go). None of them fails, so the callers' tests of their
-- errors are left out.
pub mod Writes
use kube_router.Prelude.{
  String, ◌≡◌, refl, ◌∙◌, Bool, true, false, List, [], ◌∷◌, ◌++◌, map, arith, if◌then◌else◌, ◌==◌,
  not,
}
use kube_router.Prelude.Text.{cat, concat, join}
use kube_router.Dict.{insert}
use kube_router.IpSet.{IpSet, refresh_set}
use kube_router.Netpol.{PodInfo, ProtocolAndPort, NetworkPolicyInfo, Sync}

-- The arguments of appendRuleToPolicyChain after the chain.
pub record PolicyRule : Type 0 where
  pub comment : String
  pub src_set : String
  pub dst_set : String
  pub protocol : String
  pub d_port : String
  pub end_d_port : String

-- `if s != "" { args = append(args, …) }`
unfoldable pub when_set : String → List String → List String
when_set s args = if s == "" then [] else args

unfoldable pub port_args : String → String → List String
port_args d_port end_d_port =
    if d_port == ""
    then []
    else if end_d_port == ""
    then "--dport" ∷ d_port ∷ []
    else "--dport" ∷ concat (d_port ∷ ":" ∷ end_d_port ∷ []) ∷ []

unfoldable pub match_args : String → PolicyRule → List String
unfolding when_set port_args
match_args chain r =
    "-A"
    ∷ chain
    ∷ (when_set r.comment
          ("-m" ∷ "comment" ∷ "--comment" ∷ concat ("\"" ∷ r.comment ∷ "\"" ∷ []) ∷ [])
        ++ (when_set r.src_set ("-m" ∷ "set" ∷ "--match-set" ∷ r.src_set ∷ "src" ∷ [])
            ++ (when_set r.dst_set ("-m" ∷ "set" ∷ "--match-set" ∷ r.dst_set ∷ "dst" ∷ [])
                ++ (when_set r.protocol ("-p" ∷ r.protocol ∷ [])
                    ++ port_args r.d_port r.end_d_port))))

-- The two texts that a rule writes: it marks the packet, and returns if the mark is set.
unfoldable pub rule_texts : String → PolicyRule → List String
unfolding match_args
rule_texts chain r =
    join " " (match_args chain r ++ "-j" ∷ "MARK" ∷ "--set-xmark" ∷ "0x10000/0x10000" ∷ "\n" ∷ [])
    ∷ join " " (
        match_args chain r
        ++ "-m" ∷ "mark" ∷ "--mark" ∷ "0x10000/0x10000" ∷ "-j" ∷ "RETURN" ∷ "\n" ∷ [])
    ∷ []

-- appendRuleToPolicyChain
unfoldable pub append_rule_to_policy_chain : String → PolicyRule → Sync → Sync
unfolding rule_texts
append_rule_to_policy_chain chain r st = record st { rules = st.rules ++ rule_texts chain r }

unfoldable pub get_ips_from_pods : List PodInfo → List String
get_ips_from_pods pods = map (λ p. p.ip) pods

-- createGenericHashIPSet
unfoldable pub create_generic_hash_ipset : String → String → List String → Sync → Sync
create_generic_hash_ipset ipset_name hash_type ips st = record st {
  ipset = refresh_set ipset_name (map (λ ip. ip ∷ "timeout" ∷ "0" ∷ []) ips) hash_type st.ipset;
}

unfoldable pub set_active : String → Sync → Sync
set_active ipset_name st = record st { active = insert ipset_name true st.active }

-- createPolicyIndexedIPSet
unfoldable pub create_policy_indexed_ipset : String → String → List String → Sync → Sync
unfolding set_active create_generic_hash_ipset
create_policy_indexed_ipset ipset_name hash_type ips st =
    create_generic_hash_ipset ipset_name hash_type ips (set_active ipset_name st)

-- A comment, the two sets, and the port of a rule.
abbrev pub rule_of : String → String → String → ProtocolAndPort → PolicyRule
rule_of comment src dst p = record {
  comment = comment;
  src_set = src;
  dst_set = dst;
  protocol = p.protocol;
  d_port = p.port;
  end_d_port = p.endport;
}

abbrev pub any_port : ProtocolAndPort
any_port = record { protocol = ""; port = ""; endport = "" }

-- `for _, portProtocol := range ports { appendRuleToPolicyChain(…) }`
unfoldable pub append_port_rules :
    String → String → String → String → List ProtocolAndPort → Sync → Sync
append_port_rules chain comment src dst [] st = st
append_port_rules chain comment src dst (p ∷ ports) st =
    append_port_rules chain comment src dst ports
      (append_rule_to_policy_chain chain (rule_of comment src dst p) st)

-- createPodWithPortPolicyRule
unfoldable pub create_pod_with_port_policy_rule :
    List ProtocolAndPort → NetworkPolicyInfo → String → String → String → Sync → Sync
unfolding append_port_rules
create_pod_with_port_policy_rule ports policy policy_name src dst st =
    append_port_rules policy_name
      (concat (
        "rule to ACCEPT traffic from source pods to dest pods selected by policy name "
        ∷ policy.name ∷ " namespace " ∷ policy.namespace ∷ []))
      src dst ports st
