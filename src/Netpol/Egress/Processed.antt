-- ===== src/Netpol/Egress/Processed.antt =====
-- What `processEgressRules` lets through for one egress rule.
use kube_router.Prelude.{
  String, ℕ, ◌≡◌, Bool, true, false, List, [], ◌++◌, ◌&&◌, ◌||◌, is_empty, any, ◌==◌,
}
use kube_router.Netpol.{EgressRule, NetworkPolicyInfo, Sync}
use kube_router.Netpol.Chain.Writes.{texts}
use kube_router.Netpol.Packet.{Packet, Matcher, matches}
use kube_router.Netpol.Egress.{chain, process_egress_rule}
use kube_router.Netpol.Egress.Rules.{rule_list, process_egress_rule-Writes}
use kube_router.Netpol.Egress.Permits.{
  SetsHold, is_pod, to_block, on_numbers, on_named_numbers, rule_list-numbers, rule_list-all_named,
  rule_list-blocks_named,
}

module _ (hash : String → String) (policy : NetworkPolicyInfo) (version target : String)
    (m : Matcher) (blocks_hold : List (List String) → String → Bool) where
  -- Processing an egress rule without named ports writes the texts of a list of rules, behind what is
  -- there, that match exactly the packets from the selected pods to one of the rule's destinations on
  -- one of its ports; this holds if the sets hold what the rule says, and the rule has all ports exactly
  -- when it has no port.
  pub process_egress_rule-numbers :
      (idx : ℕ) (rule : EgressRule) (p : Packet) (st : Sync)
      → SetsHold hash policy version target m blocks_hold idx rule
      → rule.named_ports ≡ []
      → rule.match_all_ports ≡ is_empty rule.ports
      → ((process_egress_rule hash policy version target idx rule st).rules
          ≡ st.rules
            ++ texts
                (chain hash policy version target)
                (rule_list hash policy version target idx rule))
        × (any (matches m p) (rule_list hash policy version target idx rule) ≡ (
            m.in_set target p.src
            && ((rule.match_all_destinations
                  || (is_pod p.dst rule.dst_pods
                      || to_block hash policy version target m blocks_hold rule p))
                && (rule.match_all_ports
                    || on_numbers hash policy version target m blocks_hold rule p))))
  process_egress_rule-numbers idx rule p st h n a = (
    (process_egress_rule-Writes hash policy version target idx rule).at st,
    rule_list-numbers hash policy version target m blocks_hold idx rule p h n a,
  )

  -- Processing an egress rule to all destinations writes rules, among them one that matches a packet
  -- from a selected pod to any address on the number of one of the rule's named ports, whether or not a
  -- pod there has the port; the target set has a name.
  pub process_egress_rule-all_named :
      (idx : ℕ) (rule : EgressRule) (p : Packet) (st : Sync)
      → (target == "") ≡ false
      → rule.match_all_destinations ≡ true
      → m.in_set target p.src ≡ true
      → on_named_numbers hash policy version target m blocks_hold rule p ≡ true
      → ((process_egress_rule hash policy version target idx rule st).rules
          ≡ st.rules
            ++ texts
                (chain hash policy version target)
                (rule_list hash policy version target idx rule))
        × (any (matches m p) (rule_list hash policy version target idx rule) ≡ true)
  process_egress_rule-all_named idx rule p st t a s n = (
    (process_egress_rule-Writes hash policy version target idx rule).at st,
    rule_list-all_named hash policy version target m blocks_hold idx rule p t a s n,
  )

  -- Processing an egress rule to address blocks alone, with ports but no numeric one, writes no rule that
  -- matches a packet, if the sets hold what the rule says.
  process_egress_rule-blocks_named :
      (idx : ℕ) (rule : EgressRule) (p : Packet) (st : Sync)
      → SetsHold hash policy version target m blocks_hold idx rule
      → rule.dst_pods ≡ []
      → rule.match_all_destinations ≡ false
      → rule.ports ≡ []
      → rule.match_all_ports ≡ false
      → ((process_egress_rule hash policy version target idx rule st).rules
          ≡ st.rules
            ++ texts
                (chain hash policy version target)
                (rule_list hash policy version target idx rule))
        × (any (matches m p) (rule_list hash policy version target idx rule) ≡ false)
  process_egress_rule-blocks_named idx rule p st h d a e f = (
    (process_egress_rule-Writes hash policy version target idx rule).at st,
    rule_list-blocks_named hash policy version target m blocks_hold idx rule p h d a e f,
  )
