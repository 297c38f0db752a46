-- ===== src/Netpol/PodRules.antt =====
-- The texts of the rules of a pod's chain (pkg/controllers/netpol/pod.go). `filterTableRules` is the list
-- of the texts written to it.
use kube_router.Prelude.{String, List, [], ◌∷◌, ◌++◌, if◌then◌else◌}
use kube_router.Prelude.Text.{cat, concat, join, contains}
use kube_router.Netpol.{PodInfo}

abbrev pub Rules : Type 0
Rules = List String

-- `npc.filterTableRules.WriteString(strings.Join(args, " "))`
unfoldable pub write : List String → Rules → Rules
write args rules = rules ++ join " " args ∷ []

unfoldable pub quoted : List String → String
quoted parts = concat ("\"" ∷ parts ++ "\"" ∷ [])

unfoldable pub default_ingress_args : PodInfo → String → List String
default_ingress_args pod fw =
    "-I" ∷ fw ∷ "1" ∷ "-d" ∷ pod.ip ∷ "-m" ∷ "comment" ∷ "--comment"
    ∷ "\"run through default ingress network policy  chain\"" ∷ "-j" ∷ "KUBE-NWPLCY-DEFAULT" ∷ "\n"
    ∷ []

unfoldable pub default_egress_args : PodInfo → String → List String
default_egress_args pod fw =
    "-I" ∷ fw ∷ "1" ∷ "-s" ∷ pod.ip ∷ "-m" ∷ "comment" ∷ "--comment"
    ∷ "\"run through default egress network policy  chain\"" ∷ "-j" ∷ "KUBE-NWPLCY-DEFAULT" ∷ "\n"
    ∷ []

unfoldable pub local_node_args : PodInfo → String → List String
local_node_args pod fw =
    "-I" ∷ fw ∷ "1" ∷ "-m" ∷ "comment" ∷ "--comment"
    ∷ "\"rule to permit the traffic to pods when source is the pod's local node\"" ∷ "-m"
    ∷ "addrtype" ∷ "--src-type" ∷ "LOCAL" ∷ "-d" ∷ pod.ip ∷ "-j" ∷ "ACCEPT" ∷ "\n" ∷ []

unfoldable pub invalid_args : String → List String
invalid_args fw =
    "-I" ∷ fw ∷ "1" ∷ "-m" ∷ "comment" ∷ "--comment" ∷ "\"rule to drop invalid state for pod\""
    ∷ "-m" ∷ "conntrack" ∷ "--ctstate" ∷ "INVALID" ∷ "-j" ∷ "DROP" ∷ "\n" ∷ []

unfoldable pub established_args : String → List String
established_args fw =
    "-I" ∷ fw ∷ "1" ∷ "-m" ∷ "comment" ∷ "--comment" ∷ "\"rule for stateful firewall for pod\""
    ∷ "-m" ∷ "conntrack" ∷ "--ctstate" ∷ "RELATED,ESTABLISHED" ∷ "-j" ∷ "ACCEPT" ∷ "\n" ∷ []

unfoldable pub jump_comment : String → PodInfo → String → String
unfolding quoted
jump_comment what pod fw =
    quoted (what ∷ pod.name ∷ " namespace: " ∷ pod.namespace ∷ " to chain " ∷ fw ∷ [])

-- interceptPodInboundTraffic
unfoldable pub intercept_pod_inbound_traffic : PodInfo → String → Rules → Rules
unfolding jump_comment write
intercept_pod_inbound_traffic pod fw rules =
    let comment = jump_comment "rule to jump traffic destined to POD name:" pod fw in
    let routed = λ (chain : String).
      "-A"
      ∷ chain
      ∷ "-m"
      ∷ "comment"
      ∷ "--comment"
      ∷ comment
      ∷ "-d"
      ∷ pod.ip
      ∷ "-j"
      ∷ cat fw "\n"
      ∷ [] in
    let bridged =
      "-A" ∷ "KUBE-ROUTER-FORWARD" ∷ "-m" ∷ "physdev" ∷ "--physdev-is-bridged" ∷ "-m" ∷ "comment"
      ∷ "--comment" ∷ comment ∷ "-d" ∷ pod.ip ∷ "-j" ∷ fw ∷ "\n" ∷ [] in
    write bridged (write (routed "KUBE-ROUTER-OUTPUT") (write (routed "KUBE-ROUTER-FORWARD") rules))

-- interceptPodOutboundTraffic; the chains are the values of `defaultChains`.
unfoldable pub intercept_each : PodInfo → String → List String → Rules → Rules
unfolding jump_comment write
intercept_each pod fw [] rules = rules
intercept_each pod fw (chain ∷ chains) rules = intercept_each pod fw chains (
    write
      ("-A"
        ∷ chain
        ∷ "-m"
        ∷ "comment"
        ∷ "--comment"
        ∷ jump_comment "rule to jump traffic from POD name:" pod fw
        ∷ "-s"
        ∷ pod.ip
        ∷ "-j"
        ∷ fw
        ∷ "\n"
        ∷ [])
      rules)

unfoldable pub intercept_pod_outbound_traffic : PodInfo → String → Rules → Rules
unfolding intercept_each jump_comment write
intercept_pod_outbound_traffic pod fw rules =
    write
      ("-A"
        ∷ "KUBE-ROUTER-FORWARD"
        ∷ "-m"
        ∷ "physdev"
        ∷ "--physdev-is-bridged"
        ∷ "-m"
        ∷ "comment"
        ∷ "--comment"
        ∷ jump_comment "rule to jump traffic from POD name:" pod fw
        ∷ "-s"
        ∷ pod.ip
        ∷ "-j"
        ∷ fw
        ∷ "\n"
        ∷ [])
      (intercept_each pod fw
        ("KUBE-ROUTER-INPUT" ∷ "KUBE-ROUTER-FORWARD" ∷ "KUBE-ROUTER-OUTPUT" ∷ []) rules)

-- dropUnmarkedTrafficRules
unfoldable pub drop_unmarked_traffic_rules : PodInfo → String → Rules → Rules
unfolding quoted write
drop_unmarked_traffic_rules pod fw rules =
    let of_pod = pod.name ∷ " namespace: " ∷ pod.namespace ∷ [] in
    let log =
      "-A"
      ∷ fw
      ∷ "-m"
      ∷ "comment"
      ∷ "--comment"
      ∷ quoted ("rule to log dropped traffic POD name:" ∷ of_pod)
      ∷ "-m"
      ∷ "mark"
      ∷ "!"
      ∷ "--mark"
      ∷ "0x10000/0x10000"
      ∷ "-j"
      ∷ "NFLOG"
      ∷ "--nflog-group"
      ∷ "100"
      ∷ "-m"
      ∷ "limit"
      ∷ "--limit"
      ∷ "10/minute"
      ∷ "--limit-burst"
      ∷ "10"
      ∷ "\n"
      ∷ [] in
    let reject =
      "-A"
      ∷ fw
      ∷ "-m"
      ∷ "comment"
      ∷ "--comment"
      ∷ quoted ("rule to REJECT traffic destined for POD name:" ∷ of_pod)
      ∷ "-m"
      ∷ "mark"
      ∷ "!"
      ∷ "--mark"
      ∷ "0x10000/0x10000"
      ∷ "-j"
      ∷ "REJECT"
      ∷ "\n"
      ∷ [] in
    let reset = "-A" ∷ fw ∷ "-j" ∷ "MARK" ∷ "--set-mark" ∷ "0/0x10000" ∷ "\n" ∷ [] in
    if contains (concat rules) (join " " log)
    then rules
    else write reset (write reject (write log rules))

unfoldable pub accept_args : String → List String
accept_args fw =
    "-A" ∷ fw ∷ "-m" ∷ "comment" ∷ "--comment"
    ∷ "\"set mark to ACCEPT traffic that comply to network policies\"" ∷ "-j" ∷ "MARK"
    ∷ "--set-mark" ∷ "0x20000/0x20000" ∷ "\n" ∷ []
