-- ===== src/Netpol/Ingress/Permits.antt =====
-- What the rules that `processIngressRules` writes for one ingress rule let through.
use kube_router.Prelude.{
  String, ℕ, suc, ◌≡◌, refl, ◌∙◌, ap, Bool, true, false, List, [], ◌∷◌, ◌++◌, map, ◌&&◌, ◌||◌, not,
  arith, if◌then◌else◌, is_empty, any, any-append, any-is_empty, ◌==◌,
}
use kube_router.Netpol.{EndPoints, PodInfo, IngressRule, NetworkPolicyInfo, Sync}
use kube_router.Netpol.Names.{
  policy_indexed_source_pod_ipset_name, policy_indexed_source_ip_block_ipset_name,
  policy_indexed_ingress_named_port_ipset_name,
}
use kube_router.Netpol.Chain.{rule_of, any_port}
use kube_router.Netpol.Packet.{Packet, Matcher, matches, in_named_set, any-matches-map, named}
use kube_router.Netpol.Chain.Writes.{texts}
use kube_router.Netpol.Ingress.{
  chain, process_ingress_rule, pods_set, blocks_set, named_set, from_pods, from_all, from_blocks,
}
use kube_router.Netpol.Ingress.Rules.{
  named_list, port_list, pods_list, all_list, blocks_list, rule_list, process_ingress_rule-Writes,
}

-- One of the pods has the address.
abbrev pub is_pod : String → List PodInfo → Bool
is_pod ip pods = any (λ q. q.ip == ip) pods

module _ (hash : String → String) (policy : NetworkPolicyInfo) (version target : String)
    (m : Matcher) (blocks_hold : List (List String) → String → Bool) where
  -- The sets of named ports hold the addresses of the ports' pods, from a port on.
  abbrev pub NamedHold : ℕ → ℕ → List EndPoints → Type 0
  NamedHold idx port [] = Unit
  NamedHold idx port (e ∷ eps) =
      ((ip : String)
        → m.in_set (named_set hash policy version target idx port) ip ≡ any (λ i. i == ip) e.ips)
      × NamedHold idx (suc port) eps

  -- The sets of a rule hold what the rule's pods, blocks and named ports say, and the target set has
  -- a name.
  pub record SetsHold (idx : ℕ) (rule : IngressRule) : Type 0 where
    pub pods :
        (ip : String)
        → m.in_set (pods_set hash policy version target idx) ip ≡ is_pod ip rule.src_pods
    pub blocks :
        (ip : String)
        → m.in_set (blocks_set hash policy version target idx) ip
          ≡ blocks_hold rule.src_ip_blocks ip
    pub ports : NamedHold idx 0 rule.named_ports
    pub target_named : (target == "") ≡ false

  -- A packet to a pod that the policy selects, on one of the rule's ports.
  abbrev pub to_port : IngressRule → Packet → Bool
  to_port rule p =
      (m.in_set target p.dst && any (λ q. m.on_port q p) rule.ports)
      || any (λ (e : EndPoints). any (λ i. i == p.dst) e.ips && m.on_port e.protocol_and_port p)
          rule.named_ports

  -- The rule's sources, and its ports.
  abbrev pub permits : IngressRule → Packet → Bool
  permits rule p =
      (rule.match_all_source
        || (is_pod p.src rule.src_pods
            || (not (is_empty rule.src_ip_blocks) && blocks_hold rule.src_ip_blocks p.src)))
      && (if rule.match_all_ports then m.in_set target p.dst else to_port rule p)

  named_set_named : (idx port : ℕ) → (named_set hash policy version target idx port == "") ≡ false
  unfolding policy_indexed_ingress_named_port_ipset_name
  named_set_named idx port = named "KUBE-DST-" _ refl

  pods_set_named : (idx : ℕ) → (pods_set hash policy version target idx == "") ≡ false
  unfolding policy_indexed_source_pod_ipset_name
  pods_set_named idx = named "KUBE-SRC-" _ refl

  blocks_set_named : (idx : ℕ) → (blocks_set hash policy version target idx == "") ≡ false
  unfolding policy_indexed_source_ip_block_ipset_name
  blocks_set_named idx = named "KUBE-SRC-" _ refl

  any-named_list :
      (p : Packet) (comment src : String) (idx port : ℕ) (eps : List EndPoints)
      → NamedHold idx port eps
      → any (matches m p) (named_list hash policy version target comment src idx port eps) ≡ (
          in_named_set m src p.src
          && any
              (λ (e : EndPoints). any (λ i. i == p.dst) e.ips && m.on_port e.protocol_and_port p)
              eps)
  any-named_list p comment src idx port [] h = ground arith
  any-named_list p comment src idx port (e ∷ eps) h = ground (
    arith,
    h.0 p.dst,
    named_set_named idx port,
    any-named_list p comment src idx (suc port) eps h.1,
  )

  any-port_list :
      (p : Packet) (comment src : String) (idx : ℕ) (rule : IngressRule)
      → SetsHold idx rule
      → any (matches m p) (port_list hash policy version target comment src idx rule)
        ≡ (in_named_set m src p.src && to_port rule p)
  any-port_list p comment src idx rule h = ground (
    arith,
    any-append (matches m p) (map (rule_of comment src target) rule.ports)
        (named_list hash policy version target comment src idx 0 rule.named_ports),
    any-matches-map m p comment src target rule.ports,
    any-named_list p comment src idx 0 rule.named_ports h.ports,
    h.target_named,
  )

  -- The rule for every port of one source.
  any-any_port :
      (p : Packet) (comment src : String) (idx : ℕ) (rule : IngressRule)
      → SetsHold idx rule
      → any (matches m p) (rule_of comment src target any_port ∷ [])
        ≡ (in_named_set m src p.src && m.in_set target p.dst)
  any-any_port p comment src idx rule h = ground (arith, h.target_named, m.on_any_port p)

  no_ports :
      (rule : IngressRule) (p : Packet)
      → is_empty rule.ports ≡ true
      → is_empty rule.named_ports ≡ true
      → to_port rule p ≡ false
  no_ports rule p h k = ground (
    arith,
    any-is_empty (λ q. m.on_port q p) rule.ports,
    any-is_empty (λ (e : EndPoints). any (λ i. i == p.dst) e.ips && m.on_port e.protocol_and_port p)
        rule.named_ports,
  )

  any-pods_list :
      (idx : ℕ) (rule : IngressRule) (p : Packet)
      → SetsHold idx rule
      → any (matches m p) (pods_list hash policy version target idx rule) ≡ (
          is_pod p.src rule.src_pods
          && (if is_empty rule.ports && is_empty rule.named_ports
              then m.in_set target p.dst
              else to_port rule p))
  any-pods_list idx rule p h =
      let src = pods_set hash policy version target idx in
      let ports = port_list hash policy version target (from_pods policy) src idx rule in
      ground (
        arith,
        any-is_empty (λ (q : PodInfo). q.ip == p.src) rule.src_pods,
        any-append (matches m p) ports [],
        any-append (matches m p) ports (rule_of (from_pods policy) src target any_port ∷ []),
        any-port_list p (from_pods policy) src idx rule h,
        any-any_port p (from_pods policy) src idx rule h,
        pods_set_named idx,
        h.pods p.src,
        no_ports rule p,
      )

  any-all_list :
      (idx : ℕ) (rule : IngressRule) (p : Packet)
      → SetsHold idx rule
      → any (matches m p) (all_list hash policy version target idx rule) ≡ (
          rule.match_all_source
          && (if rule.match_all_ports then m.in_set target p.dst else to_port rule p))
  any-all_list idx rule p h = ground (
    arith,
    any-port_list p (from_all policy) "" idx rule h,
    any-any_port p (from_all policy) "" idx rule h,
  )

  any-blocks_list :
      (idx : ℕ) (rule : IngressRule) (p : Packet)
      → SetsHold idx rule
      → any (matches m p) (blocks_list hash policy version target idx rule) ≡ (
          (not (is_empty rule.src_ip_blocks) && blocks_hold rule.src_ip_blocks p.src)
          && (if rule.match_all_ports then m.in_set target p.dst else to_port rule p))
  any-blocks_list idx rule p h =
      let src = blocks_set hash policy version target idx in
      ground (
        arith,
        any-port_list p (from_blocks policy) src idx rule h,
        any-any_port p (from_blocks policy) src idx rule h,
        blocks_set_named idx,
        h.blocks p.src,
      )

  any-rule_list :
      (idx : ℕ) (rule : IngressRule) (p : Packet)
      → any (matches m p) (rule_list hash policy version target idx rule) ≡ (
          any (matches m p) (pods_list hash policy version target idx rule)
          || (any (matches m p) (all_list hash policy version target idx rule)
              || any (matches m p) (blocks_list hash policy version target idx rule)))
  any-rule_list idx rule p =
      let pods = pods_list hash policy version target idx rule in
      let alls = all_list hash policy version target idx rule in
      let blocks = blocks_list hash policy version target idx rule in
      any-append (matches m p) pods (alls ++ blocks)
      ∙ ap (λ b. any (matches m p) pods || b) (any-append (matches m p) alls blocks)

  pub rule_list-permits :
      (idx : ℕ) (rule : IngressRule) (p : Packet)
      → SetsHold idx rule
      → rule.match_all_ports ≡ (is_empty rule.ports && is_empty rule.named_ports)
      → any (matches m p) (rule_list hash policy version target idx rule) ≡ permits rule p
  rule_list-permits idx rule p h w = ground (
    arith,
    any-rule_list idx rule p,
    any-pods_list idx rule p h,
    any-all_list idx rule p h,
    any-blocks_list idx rule p h,
    w,
  )

  -- Processing an ingress rule writes the texts of a list of rules, behind what is there, that match
  -- exactly the packets from one of the rule's sources to one of its ports; this holds if the sets hold
  -- what the rule says, and the rule has all ports exactly when it has no port and no named port.
  pub process_ingress_rule-permits :
      (idx : ℕ) (rule : IngressRule) (p : Packet) (st : Sync)
      → SetsHold idx rule
      → rule.match_all_ports ≡ (is_empty rule.ports && is_empty rule.named_ports)
      → ((process_ingress_rule hash policy version target idx rule st).rules
          ≡ st.rules
            ++ texts
                (chain hash policy version target)
                (rule_list hash policy version target idx rule))
        × (any (matches m p) (rule_list hash policy version target idx rule) ≡ permits rule p)
  process_ingress_rule-permits idx rule p st h w = (
    (process_ingress_rule-Writes hash policy version target idx rule).at st,
    rule_list-permits idx rule p h w,
  )

  -- If the rule is for some ports and none of them is known (each is a named port that no selected
  -- pod has), the rules that are written match the packets from its pods to every port of the
  -- selected pods, and no others.
  pub rule_list-no_ports :
      (idx : ℕ) (rule : IngressRule) (p : Packet)
      → SetsHold idx rule
      → rule.match_all_ports ≡ false
      → rule.ports ≡ []
      → rule.named_ports ≡ []
      → any (matches m p) (rule_list hash policy version target idx rule)
        ≡ (is_pod p.src rule.src_pods && m.in_set target p.dst)
  rule_list-no_ports idx rule p h w e n =
      let e' : is_empty rule.ports ≡ true = rw e refl in
      let n' : is_empty rule.named_ports ≡ true = rw n refl in
      ground (
        arith,
        any-rule_list idx rule p,
        any-pods_list idx rule p h,
        any-all_list idx rule p h,
        any-blocks_list idx rule p h,
        no_ports rule p e' n',
        w,
      )
