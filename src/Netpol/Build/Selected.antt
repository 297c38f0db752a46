-- ===== src/Netpol/Build/Selected.antt =====
-- What an ingress rule of a policy's specification lets through, told from the specification and the answers
-- of the listers (buildNetworkPoliciesInfo of pkg/controllers/netpol/policy.go).
use kube_router.Prelude.{
  String, ℕ, ◌≡◌, refl, ◌∙◌, sym, Bool, true, false, Option, none, some, List, [], ◌∷◌, ◌++◌, ◌&&◌,
  ◌||◌, ◌⊎◌, not, map, keep, arith, any, all, any-append, any-is_empty, is_empty, if◌then◌else◌,
  ◌==◌,
}
use kube_router.Prelude.Text.{cat}
use kube_router.Exec.{Result, ok, err}
use kube_router.Netpol.{ProtocolAndPort, EndPoints, NetworkPolicyInfo, Sync}
use kube_router.Netpol.Api.{
  Pod, IntOrString, int, str, to_text, NetworkPolicyPort, Peer, SpecRule, Listers,
  is_net_pol_actionable,
}
use kube_router.Netpol.Ports.{
  NamedPortToEps, named_eps, one_port, end_port_text, protocol_text, process_network_policy_ports,
}
use kube_router.Netpol.Packet.{Packet, Matcher, matches}
use kube_router.Netpol.Ingress.{chain, process_ingress_rule}
use kube_router.Netpol.Ingress.Rules.{rule_list}
use kube_router.Netpol.Ingress.Permits.{SetsHold, is_pod, process_ingress_rule-permits}
use kube_router.Netpol.Chain.Writes.{texts}
use kube_router.Netpol.Build.{
  pod_info, pods_of_namespaces, pods_of_namespaces_found, or_everything, eval_pod_peer_of,
  eval_pod_peer, actionable, peer_pods, peer_blocks, build_ingress_rule,
}
use kube_router.Netpol.Build.Rules.{knows, ports-is_empty}

module _ {Selector : Type 0} (listers : Listers Selector) where
  -- The lister gives an answer, and a pod in it that the controller acts on has the address.
  abbrev answers : String → Selector → Bool
  answers namespace sel = elim (listers.list_pods namespace sel) [ err e ↦ false | ok pods ↦ true ]

  abbrev has_pod : String → List Pod → Bool
  has_pod ip pods = any (λ (pod : Pod). is_net_pol_actionable pod && pod.pod_ip == ip) pods

  abbrev finds : String → String → Selector → Bool
  finds ip namespace sel = elim (listers.list_pods namespace sel) [
    | err e ↦ false
    | ok pods ↦ has_pod ip pods
  ]

  abbrev finds_in : String → Selector → Result (List String) → Bool
  finds_in ip sel (err e) = false
  finds_in ip sel (ok names) = all (λ n. answers n sel) names && any (λ n. finds ip n sel) names

  -- The peer selects a pod with the address: in the policy's namespace, or, with a selector of namespaces,
  -- in one of those, all of whose pods can be listed. Without a selector of pods it is every pod there.
  abbrev selects_of : String → String → Option Selector → Option Selector → Bool
  selects_of namespace ip none none = false
  selects_of namespace ip (some sel) none = finds ip namespace sel
  selects_of namespace ip none (some nsel) =
      finds_in ip listers.everything (listers.list_namespaces nsel)
  selects_of namespace ip (some sel) (some nsel) = finds_in ip sel (listers.list_namespaces nsel)

  abbrev pub selects : String → String → Peer Selector → Bool
  selects namespace ip peer = selects_of namespace ip peer.pod_selector peer.namespace_selector

  abbrev gives : String → Result (List Pod) → Bool
  gives ip (err e) = false
  gives ip (ok pods) = has_pod ip pods

  has_pod-append :
      (ip : String) (ps qs : List Pod) → has_pod ip (ps ++ qs) ≡ (has_pod ip ps || has_pod ip qs)
  has_pod-append ip ps qs =
      any-append (λ (pod : Pod). is_net_pol_actionable pod && pod.pod_ip == ip) ps qs

  gives-both :
      (ip : String) (first later : Result (List Pod)) (f : String → String)
      → gives ip (elim first [
        | err x ↦ err (f x)
        | ok pods ↦ elim later [ err y ↦ err y | ok more ↦ ok (pods ++ more) ]
      ])
        ≡ ((elim first [ err x ↦ false | ok pods ↦ true ]
              && elim later [ err y ↦ false | ok more ↦ true ])
            && (gives ip first || gives ip later))
  gives-both ip (err x) later f = refl
  gives-both ip (ok pods) (err y) f = refl
  gives-both ip (ok pods) (ok more) f = has_pod-append ip pods more

  is_ok-pods_of_namespaces :
      (sel : Selector) (names : List String)
      → elim (pods_of_namespaces listers sel names) [ err e ↦ false | ok pods ↦ true ]
        ≡ all (λ n. answers n sel) names
  unfolding pods_of_namespaces
  is_ok-pods_of_namespaces sel [] = refl
  is_ok-pods_of_namespaces sel (n ∷ names) = ground (arith, is_ok-pods_of_namespaces sel names)

  gives-answer :
      (ip : String) (r : Result (List Pod))
      → elim r [ err e ↦ false | ok pods ↦ has_pod ip pods ] ≡ gives ip r
  gives-answer ip (err e) = refl
  gives-answer ip (ok pods) = refl

  gives-pods_of_namespaces :
      (ip : String) (sel : Selector) (names : List String)
      → gives ip (pods_of_namespaces listers sel names) ≡ finds_in ip sel (ok names)
  unfolding pods_of_namespaces
  gives-pods_of_namespaces ip sel [] = refl
  gives-pods_of_namespaces ip sel (n ∷ names) =
      gives-both ip (listers.list_pods n sel) (pods_of_namespaces listers sel names)
        (cat "Failed to build network policies info due to ")
      ∙ ground (
        arith,
        gives-pods_of_namespaces ip sel names,
        is_ok-pods_of_namespaces sel names,
        gives-answer ip (listers.list_pods n sel),
      )

  gives-found :
      (ip : String) (sel : Selector) (r : Result (List String))
      → gives ip (pods_of_namespaces_found listers sel r) ≡ finds_in ip sel r
  unfolding pods_of_namespaces_found
  gives-found ip sel (err e) = refl
  gives-found ip sel (ok names) = gives-pods_of_namespaces ip sel names

  gives-eval_pod_peer :
      (namespace ip : String) (psel nsel : Option Selector)
      → gives ip (eval_pod_peer_of listers namespace psel nsel) ≡ selects_of namespace ip psel nsel
  unfolding eval_pod_peer_of or_everything
  gives-eval_pod_peer namespace ip none none = refl
  gives-eval_pod_peer namespace ip (some sel) none =
      sym (gives-answer ip (listers.list_pods namespace sel))
  gives-eval_pod_peer namespace ip none (some nsel) =
      gives-found ip listers.everything (listers.list_namespaces nsel)
  gives-eval_pod_peer namespace ip (some sel) (some nsel) =
      gives-found ip sel (listers.list_namespaces nsel)

  is_pod-keep :
      (ip : String) (pods : List Pod)
      → is_pod ip (map pod_info (keep is_net_pol_actionable pods)) ≡ has_pod ip pods
  unfolding pod_info
  is_pod-keep ip [] = refl
  is_pod-keep ip (pod ∷ pods) = ground (arith, is_pod-keep ip pods)

  is_pod-actionable :
      (ip : String) (r : Result (List Pod))
      → is_pod ip (map pod_info (actionable listers r)) ≡ gives ip r
  unfolding actionable
  is_pod-actionable ip (err e) = refl
  is_pod-actionable ip (ok pods) = is_pod-keep ip pods

  is_pod-append :
      (ip : String) (ps qs : List Pod)
      → is_pod ip (map pod_info (ps ++ qs))
        ≡ (is_pod ip (map pod_info ps) || is_pod ip (map pod_info qs))
  is_pod-append ip [] qs = refl
  is_pod-append ip (p ∷ ps) qs = ground (arith, is_pod-append ip ps qs)

  -- The pods that a rule is built with are those that its peers select.
  is_pod-peer_pods :
      (namespace ip : String) (peers : List (Peer Selector))
      → is_pod ip (map pod_info (peer_pods listers namespace peers))
        ≡ any (selects namespace ip) peers
  unfolding peer_pods eval_pod_peer
  is_pod-peer_pods namespace ip [] = refl
  is_pod-peer_pods namespace ip (peer ∷ peers) =
      let found = eval_pod_peer_of listers namespace peer.pod_selector peer.namespace_selector in
      is_pod-append ip (actionable listers found) (peer_pods listers namespace peers)
      ∙ ground (
        arith,
        is_pod-actionable ip found,
        gives-eval_pod_peer namespace ip peer.pod_selector peer.namespace_selector,
        is_pod-peer_pods namespace ip peers,
      )

  module _ (m : Matcher) (target : String) (blocks_hold : List (List String) → String → Bool) where
    -- The packet goes to a pod that the policy selects on a port that is a number, with its range, or is
    -- missing, or to a pod that has the port of this name.
    abbrev reaches_of : NamedPortToEps → Packet → String → Option IntOrString → Option ℕ → Bool
    reaches_of eps p protocol none end_port =
        m.in_set target p.dst
        && m.on_port (record { protocol = protocol; port = ""; endport = "" }) p
    reaches_of eps p protocol (some (int n)) end_port =
        m.in_set target p.dst
        && m.on_port
            (record {
              protocol = protocol;
              port = to_text (int n);
              endport = end_port_text n end_port;
            })
            p
    reaches_of eps p protocol (some (str s)) end_port =
        any (λ (e : EndPoints). any (λ i. i == p.dst) e.ips && m.on_port e.protocol_and_port p)
          (named_eps eps s protocol)

    abbrev pub reaches : NamedPortToEps → Packet → NetworkPolicyPort → Bool
    reaches eps p np = reaches_of eps p (protocol_text np.protocol) np.port np.end_port

    -- What the rule of the specification permits: from its peers, or from everywhere if it has none, to its
    -- ports, or to every port if it has none.
    abbrev pub permits_spec : String → NamedPortToEps → SpecRule Selector → Packet → Bool
    permits_spec namespace eps spec p =
        (is_empty spec.peers
          || (any (selects namespace p.src) spec.peers
              || (not (is_empty (peer_blocks listers spec.peers))
                  && blocks_hold (peer_blocks listers spec.peers) p.src)))
        && (if is_empty spec.ports then m.in_set target p.dst else any (reaches eps p) spec.ports)

    abbrev to_numeric : Packet → List ProtocolAndPort → Bool
    to_numeric p ports = m.in_set target p.dst && any (λ q. m.on_port q p) ports

    abbrev to_named : Packet → List EndPoints → Bool
    to_named p eps =
        any (λ (e : EndPoints). any (λ i. i == p.dst) e.ips && m.on_port e.protocol_and_port p) eps

    one_port-reaches :
        (eps : NamedPortToEps) (p : Packet) (protocol : String) (port : Option IntOrString)
        (end_port : Option ℕ)
        → (to_numeric p (one_port eps protocol port end_port).0
            || to_named p (one_port eps protocol port end_port).1)
          ≡ reaches_of eps p protocol port end_port
    unfolding one_port to_text
    one_port-reaches eps p protocol none end_port = ground arith
    one_port-reaches eps p protocol (some (int n)) end_port = ground arith
    one_port-reaches eps p protocol (some (str s)) end_port = ground arith

    ports-reaches :
        (eps : NamedPortToEps) (p : Packet) (nps : List NetworkPolicyPort)
        → (to_numeric p (process_network_policy_ports nps eps).0
            || to_named p (process_network_policy_ports nps eps).1)
          ≡ any (reaches eps p) nps
    unfolding process_network_policy_ports
    ports-reaches eps p [] = ground arith
    ports-reaches eps p (np ∷ nps) =
        let one = one_port eps (protocol_text np.protocol) np.port np.end_port in
        let more = process_network_policy_ports nps eps in
        ground (
          arith,
          any-append (λ q. m.on_port q p) one.0 more.0,
          any-append
              (λ (e : EndPoints). any (λ i. i == p.dst) e.ips && m.on_port e.protocol_and_port p)
              one.1 more.1,
          one_port-reaches eps p (protocol_text np.protocol) np.port np.end_port,
          ports-reaches eps p nps,
        )

    module _ (hash : String → String) (policy : NetworkPolicyInfo) (version : String) where
      -- An ingress rule of a policy's specification that names no port, or some port that is a number, is
      -- left open or is known from a selected pod, is built into a rule whose processing writes the texts of
      -- a list of rules, behind what is there, that match exactly the packets which the specification
      -- permits: from a pod that one of its peers selects, by what the listers answer, or from its address
      -- blocks, or from everywhere if it has no peers, to one of its ports of a pod of the policy, or to
      -- every port if it has none. This holds if the sets hold what the built rule says.
      pub build_ingress_rule-permits :
          (namespace : String) (eps : NamedPortToEps) (spec : SpecRule Selector) (idx : ℕ)
          (p : Packet) (st : Sync)
          → SetsHold hash policy version target m blocks_hold idx
              (build_ingress_rule listers namespace eps spec)
          → (is_empty spec.ports ≡ true) ⊎ (any (knows eps) spec.ports ≡ true)
          → ((process_ingress_rule hash policy version target idx
                (build_ingress_rule listers namespace eps spec)
                st).rules
              ≡ st.rules
                ++ texts (chain hash policy version target) (
                    rule_list hash policy version target idx
                      (build_ingress_rule listers namespace eps spec)))
            × (any (matches m p) (
                  rule_list hash policy version target idx
                    (build_ingress_rule listers namespace eps spec))
                ≡ permits_spec namespace eps spec p)
      unfolding build_ingress_rule
      build_ingress_rule-permits namespace eps spec idx p st h k =
          let done =
            process_ingress_rule-permits hash policy version target m blocks_hold idx
              (build_ingress_rule listers namespace eps spec) p st h
              (ground
                (arith, k, ports-is_empty eps spec.ports, any-is_empty (knows eps) spec.ports)) in
          (
            done.0,
            done.1
                ∙ ground (
                  arith,
                  is_pod-peer_pods namespace p.src spec.peers,
                  ports-reaches eps p spec.ports,
                ),
          )
