-- ===== src/Netpol/Egress/Permits.antt =====
-- What the rules that `processEgressRules` writes for one egress rule let through.
use kube_router.Prelude.{
  String, ℕ, suc, ◌≡◌, refl, ◌∙◌, ap, Bool, true, false, List, [], ◌∷◌, ◌++◌, map, ◌&&◌, ◌||◌, not,
  arith, if◌then◌else◌, is_empty, any, any-append, any-is_empty, ◌==◌,
}
use kube_router.Netpol.{EndPoints, PodInfo, EgressRule, NetworkPolicyInfo}
use kube_router.Netpol.Names.{
  policy_indexed_destination_pod_ipset_name, policy_indexed_destination_ip_block_ipset_name,
  policy_indexed_egress_named_port_ipset_name,
}
use kube_router.Netpol.Chain.{rule_of, any_port}
use kube_router.Netpol.Packet.{Packet, Matcher, matches, in_named_set, any-matches-map, named}
use kube_router.Netpol.Egress.{pods_set, blocks_set, named_set, to_pods, to_all, to_blocks}
use kube_router.Netpol.Egress.Rules.{
  named_list, all_named_list, pods_list, all_list, blocks_list, rule_list,
}

abbrev pub is_pod : String → List PodInfo → Bool
is_pod ip pods = any (λ q. q.ip == ip) pods

module _ (hash : String → String) (policy : NetworkPolicyInfo) (version target : String)
    (m : Matcher) (blocks_hold : List (List String) → String → Bool) where
  -- The sets of named ports hold the addresses of the ports' pods, from a port on.
  abbrev pub NamedHold : ℕ → ℕ → List EndPoints → Type 0
  NamedHold idx port [] = Unit
  NamedHold idx port (e ∷ eps) =
      ((ip : String)
        → m.in_set (named_set hash policy version target idx port) ip ≡ any (λ i. i == ip) e.ips)
      × NamedHold idx (suc port) eps

  -- The sets of a rule hold what the rule's pods, blocks and named ports say, and the target set has
  -- a name.
  pub record SetsHold (idx : ℕ) (rule : EgressRule) : Type 0 where
    pub pods :
        (ip : String)
        → m.in_set (pods_set hash policy version target idx) ip ≡ is_pod ip rule.dst_pods
    pub blocks :
        (ip : String)
        → m.in_set (blocks_set hash policy version target idx) ip
          ≡ blocks_hold rule.dst_ip_blocks ip
    pub ports : NamedHold idx 0 rule.named_ports
    pub target_named : (target == "") ≡ false

  abbrev pub on_numbers : EgressRule → Packet → Bool
  on_numbers rule p = any (λ q. m.on_port q p) rule.ports

  -- The packet is for a pod that has one of the named ports, on that port.
  abbrev pub on_names : EgressRule → Packet → Bool
  on_names rule p =
      any (λ (e : EndPoints). any (λ i. i == p.dst) e.ips && m.on_port e.protocol_and_port p)
        rule.named_ports

  -- The packet is on the number of one of the named ports, whomever it is for.
  abbrev pub on_named_numbers : EgressRule → Packet → Bool
  on_named_numbers rule p =
      any (λ (e : EndPoints). m.on_port e.protocol_and_port p) rule.named_ports

  abbrev pub to_block : EgressRule → Packet → Bool
  to_block rule p = not (is_empty rule.dst_ip_blocks) && blocks_hold rule.dst_ip_blocks p.dst

  named_set_named : (idx port : ℕ) → (named_set hash policy version target idx port == "") ≡ false
  unfolding policy_indexed_egress_named_port_ipset_name
  named_set_named idx port = named "KUBE-DST-" _ refl

  pods_set_named : (idx : ℕ) → (pods_set hash policy version target idx == "") ≡ false
  unfolding policy_indexed_destination_pod_ipset_name
  pods_set_named idx = named "KUBE-DST-" _ refl

  blocks_set_named : (idx : ℕ) → (blocks_set hash policy version target idx == "") ≡ false
  unfolding policy_indexed_destination_ip_block_ipset_name
  blocks_set_named idx = named "KUBE-DST-" _ refl

  any-named_list :
      (p : Packet) (idx port : ℕ) (eps : List EndPoints)
      → NamedHold idx port eps
      → (target == "") ≡ false
      → any (matches m p) (named_list hash policy version target idx port eps) ≡ (
          m.in_set target p.src
          && any
              (λ (e : EndPoints). any (λ i. i == p.dst) e.ips && m.on_port e.protocol_and_port p)
              eps)
  any-named_list p idx port [] h t = ground arith
  any-named_list p idx port (e ∷ eps) h t =
      ground (arith, h.0 p.dst, named_set_named idx port, any-named_list p idx (suc port) eps h.1)

  any-all_named_list :
      (p : Packet) (eps : List EndPoints)
      → (target == "") ≡ false
      → any (matches m p) (all_named_list hash policy version target eps)
        ≡ (m.in_set target p.src && any (λ (e : EndPoints). m.on_port e.protocol_and_port p) eps)
  any-all_named_list p [] t = ground arith
  any-all_named_list p (e ∷ eps) t = ground (arith, any-all_named_list p eps)

  any-any_port :
      (p : Packet) (comment dst : String)
      → (target == "") ≡ false
      → any (matches m p) (rule_of comment target dst any_port ∷ [])
        ≡ (m.in_set target p.src && in_named_set m dst p.dst)
  any-any_port p comment dst t = ground (arith, m.on_any_port p)

  any-pods_list :
      (idx : ℕ) (rule : EgressRule) (p : Packet)
      → SetsHold idx rule
      → any (matches m p) (pods_list hash policy version target idx rule) ≡ (
          m.in_set target p.src
          && (not (is_empty rule.dst_pods)
              && (if is_empty rule.ports && is_empty rule.named_ports
                  then is_pod p.dst rule.dst_pods
                  else (is_pod p.dst rule.dst_pods && on_numbers rule p) || on_names rule p)))
  any-pods_list idx rule p h =
      let dst = pods_set hash policy version target idx in
      let numbers = map (rule_of (to_pods policy) target dst) rule.ports in
      let names = named_list hash policy version target idx 0 rule.named_ports in
      ground (
        arith,
        any-append (matches m p) (numbers ++ names) [],
        any-append (matches m p) (numbers ++ names)
            (rule_of (to_pods policy) target dst any_port ∷ []),
        any-append (matches m p) numbers names,
        any-matches-map m p (to_pods policy) target dst rule.ports,
        any-named_list p idx 0 rule.named_ports h.ports,
        any-any_port p (to_pods policy) dst h.target_named,
        any-is_empty (λ q. m.on_port q p) rule.ports,
        any-is_empty
            (λ (e : EndPoints). any (λ i. i == p.dst) e.ips && m.on_port e.protocol_and_port p)
            rule.named_ports,
        pods_set_named idx,
        h.pods p.dst,
        h.target_named,
      )

  any-all_list :
      (rule : EgressRule) (p : Packet)
      → (target == "") ≡ false
      → any (matches m p) (all_list hash policy version target rule) ≡ (
          m.in_set target p.src
          && (rule.match_all_destinations
              && (rule.match_all_ports || (on_numbers rule p || on_named_numbers rule p))))
  any-all_list rule p t =
      let numbers = map (rule_of (to_all policy) target "") rule.ports in
      ground (
        arith,
        any-append (matches m p) numbers
            (all_named_list hash policy version target rule.named_ports),
        any-matches-map m p (to_all policy) target "" rule.ports,
        any-all_named_list p rule.named_ports,
        any-any_port p (to_all policy) "" t,
      )

  any-blocks_list :
      (idx : ℕ) (rule : EgressRule) (p : Packet)
      → SetsHold idx rule
      → any (matches m p) (blocks_list hash policy version target idx rule) ≡ (
          m.in_set target p.src && (to_block rule p && (rule.match_all_ports || on_numbers rule p)))
  any-blocks_list idx rule p h =
      let dst = blocks_set hash policy version target idx in
      ground (
        arith,
        any-matches-map m p (to_blocks policy) target dst rule.ports,
        any-any_port p (to_blocks policy) dst h.target_named,
        blocks_set_named idx,
        h.blocks p.dst,
        h.target_named,
      )

  any-rule_list :
      (idx : ℕ) (rule : EgressRule) (p : Packet)
      → any (matches m p) (rule_list hash policy version target idx rule) ≡ (
          any (matches m p) (pods_list hash policy version target idx rule)
          || (any (matches m p) (all_list hash policy version target rule)
              || any (matches m p) (blocks_list hash policy version target idx rule)))
  any-rule_list idx rule p =
      let pods = pods_list hash policy version target idx rule in
      let alls = all_list hash policy version target rule in
      let blocks = blocks_list hash policy version target idx rule in
      any-append (matches m p) pods (alls ++ blocks)
      ∙ ap (λ b. any (matches m p) pods || b) (any-append (matches m p) alls blocks)

  pub rule_list-numbers :
      (idx : ℕ) (rule : EgressRule) (p : Packet)
      → SetsHold idx rule
      → rule.named_ports ≡ []
      → rule.match_all_ports ≡ is_empty rule.ports
      → any (matches m p) (rule_list hash policy version target idx rule) ≡ (
          m.in_set target p.src
          && ((rule.match_all_destinations || (is_pod p.dst rule.dst_pods || to_block rule p))
              && (rule.match_all_ports || on_numbers rule p)))
  rule_list-numbers idx rule p h n w =
      let n' : is_empty rule.named_ports ≡ true = rw n refl in
      ground (
        arith,
        any-rule_list idx rule p,
        any-pods_list idx rule p h,
        any-all_list rule p h.target_named,
        any-blocks_list idx rule p h,
        any-is_empty
            (λ (e : EndPoints). any (λ i. i == p.dst) e.ips && m.on_port e.protocol_and_port p)
            rule.named_ports,
        any-is_empty (λ (e : EndPoints). m.on_port e.protocol_and_port p) rule.named_ports,
        any-is_empty (λ (q : PodInfo). q.ip == p.dst) rule.dst_pods,
        w,
      )

  pub rule_list-all_named :
      (idx : ℕ) (rule : EgressRule) (p : Packet)
      → (target == "") ≡ false
      → rule.match_all_destinations ≡ true
      → m.in_set target p.src ≡ true
      → on_named_numbers rule p ≡ true
      → any (matches m p) (rule_list hash policy version target idx rule) ≡ true
  rule_list-all_named idx rule p t a s n =
      ground (arith, any-rule_list idx rule p, any-all_list rule p t)

  pub rule_list-blocks_named :
      (idx : ℕ) (rule : EgressRule) (p : Packet)
      → SetsHold idx rule
      → rule.dst_pods ≡ []
      → rule.match_all_destinations ≡ false
      → rule.ports ≡ []
      → rule.match_all_ports ≡ false
      → any (matches m p) (rule_list hash policy version target idx rule) ≡ false
  rule_list-blocks_named idx rule p h d a e w =
      let d' : is_empty rule.dst_pods ≡ true = rw d refl in
      let e' : is_empty rule.ports ≡ true = rw e refl in
      ground (
        arith,
        any-rule_list idx rule p,
        any-pods_list idx rule p h,
        any-all_list rule p h.target_named,
        any-blocks_list idx rule p h,
        any-is_empty (λ q. m.on_port q p) rule.ports,
        w,
      )
