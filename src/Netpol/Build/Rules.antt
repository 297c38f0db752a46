-- ===== src/Netpol/Build/Rules.antt =====
-- What the rules of a policy become: address blocks, and ingress rules up to what they let through.
use kube_router.Prelude.{
  String, ℕ, ◌≡◌, refl, Bool, true, false, not, Option, none, some, List, [], ◌∷◌, ◌++◌, ◌&&◌,
  arith, any, all, all-append, is_empty,
}
use kube_router.Prelude.Text.{has_suffix}
use kube_router.Netpol.{NetworkPolicyInfo, Sync}
use kube_router.Netpol.Api.{
  IntOrString, int, str, to_text, NetworkPolicyPort, IpBlock, Peer, SpecRule, Listers,
}
use kube_router.Netpol.Ports.{
  NamedPortToEps, named_eps, one_port, protocol_text, process_network_policy_ports,
}
use kube_router.Netpol.Packet.{Packet, Matcher, matches}
use kube_router.Netpol.Ingress.Rules.{rule_list, process_ingress_rule-Writes}
use kube_router.Netpol.Ingress.{chain, process_ingress_rule}
use kube_router.Netpol.Chain.Writes.{texts}
use kube_router.Netpol.Ingress.Permits.{SetsHold, is_pod, rule_list-no_ports}
use kube_router.Netpol.Build.{
  block_entries, except_entries, ip_block_entries, eval_ip_block_of, eval_ip_block_peer,
  peer_blocks, build_ingress_rule,
}

-- The entry's address is no network of prefix length 0.
abbrev pub fits : List String → Bool
fits [] = false
fits (cidr ∷ options) = not (has_suffix cidr "/0")

block_entries-fits :
    (options : List String) (cidr : String) → all fits (block_entries options cidr) ≡ true
unfolding block_entries
block_entries-fits options cidr =
    let low : has_suffix "0.0.0.0/1" "/0" ≡ false = unfold has_suffix in refl in
    let high : has_suffix "128.0.0.0/1" "/0" ≡ false = unfold has_suffix in refl in ground arith

except_entries-fits : (excepts : List String) → all fits (except_entries excepts) ≡ true
unfolding except_entries
except_entries-fits [] = refl
except_entries-fits (e ∷ excepts) = ground (
  arith,
  all-append fits (block_entries ("nomatch" ∷ []) e) (except_entries excepts),
  block_entries-fits ("nomatch" ∷ []) e,
  except_entries-fits excepts,
)

ip_block_entries-fits : (block : Option IpBlock) → all fits (ip_block_entries block) ≡ true
unfolding ip_block_entries
ip_block_entries-fits none = refl
ip_block_entries-fits (some block) = ground (
  arith,
  all-append fits (block_entries [] block.cidr) (except_entries block.except),
  block_entries-fits [] block.cidr,
  except_entries-fits block.except,
)

module _ {Selector : Type 0} where
  eval_ip_block_of-fits :
      (p n : Option Selector) (block : Option IpBlock)
      → all fits (eval_ip_block_of p n block) ≡ true
  unfolding eval_ip_block_of
  eval_ip_block_of-fits none none block = ip_block_entries-fits block
  eval_ip_block_of-fits none (some n) block = refl
  eval_ip_block_of-fits (some p) n block = refl

module _ {Selector : Type 0} (listers : Listers Selector) where
  -- No address block that a list of peers asks a set for, block or exception, has a text that ends in
  -- /0, a prefix length which a set of the type hash:net refuses.
  pub peer_blocks-fits :
      (peers : List (Peer Selector)) → all fits (peer_blocks listers peers) ≡ true
  unfolding peer_blocks eval_ip_block_peer
  peer_blocks-fits [] = refl
  peer_blocks-fits (peer ∷ peers) = ground (
    arith,
    all-append fits (eval_ip_block_peer peer) (peer_blocks listers peers),
    eval_ip_block_of-fits peer.pod_selector peer.namespace_selector peer.ip_block,
    peer_blocks-fits peers,
  )

-- A port that is a number or missing, or a name that some pod has.
abbrev is_known : NamedPortToEps → String → Option IntOrString → Bool
is_known m protocol none = true
is_known m protocol (some (int n)) = true
is_known m protocol (some (str s)) = not (is_empty (named_eps m s protocol))

abbrev pub knows : NamedPortToEps → NetworkPolicyPort → Bool
knows m np = is_known m (protocol_text np.protocol) np.port

one_port-is_empty :
    (m : NamedPortToEps) (protocol : String) (port : Option IntOrString) (end_port : Option ℕ)
    → (is_empty (one_port m protocol port end_port).0
        && is_empty (one_port m protocol port end_port).1)
      ≡ not (is_known m protocol port)
unfolding one_port to_text
one_port-is_empty m protocol none end_port = refl
one_port-is_empty m protocol (some (int n)) end_port = refl
one_port-is_empty m protocol (some (str s)) end_port = ground arith

is_empty-append : {A : Type 0} (xs ys : List A) → is_empty (xs ++ ys) ≡ (is_empty xs && is_empty ys)
is_empty-append [] ys = refl
is_empty-append (x ∷ xs) ys = refl

-- Nothing is left of a list of ports exactly if none of them is known.
pub ports-is_empty :
    (m : NamedPortToEps) (nps : List NetworkPolicyPort)
    → (is_empty (process_network_policy_ports nps m).0
        && is_empty (process_network_policy_ports nps m).1)
      ≡ not (any (knows m) nps)
unfolding process_network_policy_ports
ports-is_empty m [] = refl
ports-is_empty m (np ∷ nps) =
    let one = one_port m (protocol_text np.protocol) np.port np.end_port in
    let more = process_network_policy_ports nps m in
    ground (
      arith,
      is_empty-append one.0 more.0,
      is_empty-append one.1 more.1,
      one_port-is_empty m (protocol_text np.protocol) np.port np.end_port,
      ports-is_empty m nps,
    )

nil_of_is_empty : {A : Type 0} (xs : List A) → is_empty xs ≡ true → xs ≡ []
nil_of_is_empty [] h = refl
nil_of_is_empty (x ∷ xs) h = cc

module _ {Selector : Type 0} (listers : Listers Selector) (hash : String → String)
    (policy : NetworkPolicyInfo) (version target : String) (m : Matcher)
    (blocks_hold : List (List String) → String → Bool) where
  -- An ingress rule that names only named ports, none of which a selected pod has, is built into a rule
  -- whose processing writes rules, behind what is there, that match the packets from its pods to every
  -- port of the selected pods, and no others; this holds if the sets hold what the rule says.
  pub build_ingress_rule-unknown :
      (namespace : String) (eps : NamedPortToEps) (spec : SpecRule Selector) (idx : ℕ) (p : Packet)
      (st : Sync)
      → SetsHold hash policy version target m blocks_hold idx
          (build_ingress_rule listers namespace eps spec)
      → is_empty spec.ports ≡ false
      → any (knows eps) spec.ports ≡ false
      → ((process_ingress_rule hash policy version target idx
            (build_ingress_rule listers namespace eps spec)
            st).rules
          ≡ st.rules
            ++ texts (chain hash policy version target) (
                rule_list hash policy version target idx
                  (build_ingress_rule listers namespace eps spec)))
        × (any (matches m p) (
              rule_list hash policy version target idx
                (build_ingress_rule listers namespace eps spec))
            ≡ (is_pod p.src (build_ingress_rule listers namespace eps spec).src_pods
                && m.in_set target p.dst))
  unfolding build_ingress_rule
  build_ingress_rule-unknown namespace eps spec idx p st h s k =
      let e = ports-is_empty eps spec.ports in
      let rule = build_ingress_rule listers namespace eps spec in
      (
        (process_ingress_rule-Writes hash policy version target idx rule).at st,
        rule_list-no_ports hash policy version target m blocks_hold idx rule p h s
            (nil_of_is_empty _ (ground arith)) (nil_of_is_empty _ (ground arith)),
      )
