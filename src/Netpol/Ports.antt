-- ===== src/Netpol/Ports.antt =====
-- Ports of a policy: `grabNamedPortFromPod`, `processNetworkPolicyPorts` and
-- `policyRulePortsHasNamedPort` (pkg/controllers/netpol/policy.go).
pub mod Named
use kube_router.Prelude.{
  String, ℕ, Bool, true, false, Option, none, some, List, [], ◌∷◌, ◌++◌, leb, if◌then◌else◌,
}
use kube_router.Prelude.Decimal.{itoa}
use kube_router.Dict.{lookup, insert, values}
use kube_router.Netpol.{ProtocolAndPort, EndPoints}
use kube_router.Netpol.Api.{ContainerPort, Pod, IntOrString, int, str, to_text, NetworkPolicyPort}

-- Name, then protocol, then number: `numericPort2eps`, `protocol2eps`, `namedPort2eps`.
abbrev pub NumericPortToEps : Type 0
NumericPortToEps = List (String × EndPoints)

abbrev pub ProtocolToEps : Type 0
ProtocolToEps = List (String × NumericPortToEps)

abbrev pub NamedPortToEps : Type 0
NamedPortToEps = List (String × ProtocolToEps)

-- The map under a key, made if it is nil.
unfoldable pub or_empty : {V : Type 0} → Option (List (String × V)) → List (String × V)
or_empty none = []
or_empty (some m) = m

unfoldable pub add_ip : String → ProtocolAndPort → Option EndPoints → EndPoints
add_ip ip pp none = record { ips = ip ∷ []; protocol_and_port = pp }
add_ip ip pp (some eps) = record eps { ips = eps.ips ++ ip ∷ [] }

-- The body of the two loops.
unfoldable pub grab_port : String → ContainerPort → NamedPortToEps → NamedPortToEps
unfolding or_empty add_ip
grab_port ip port m =
    let container_port = itoa port.container_port in
    let protocols = or_empty (lookup port.name m) in
    let numbers = or_empty (lookup port.protocol protocols) in
    let pp : ProtocolAndPort = record {
      protocol = port.protocol;
      port = container_port;
      endport = "";
    } in
    let eps = add_ip ip pp (lookup container_port numbers) in
    insert port.name (insert port.protocol (insert container_port eps numbers) protocols) m

unfoldable pub grab_ports : String → List ContainerPort → NamedPortToEps → NamedPortToEps
unfolding grab_port
grab_ports ip [] m = m
grab_ports ip (port ∷ ports) m = grab_ports ip ports (grab_port ip port m)

unfoldable pub grab_containers :
    String → List (List ContainerPort) → NamedPortToEps → NamedPortToEps
unfolding grab_ports
grab_containers ip [] m = m
grab_containers ip (ports ∷ containers) m = grab_containers ip containers (grab_ports ip ports m)

-- grabNamedPortFromPod
unfoldable pub grab_named_port_from_pod : Pod → NamedPortToEps → NamedPortToEps
unfolding grab_containers
grab_named_port_from_pod pod m = grab_containers pod.pod_ip pod.containers m

unfoldable pub protocol_text : Option String → String
protocol_text none = ""
protocol_text (some p) = p

unfoldable pub end_port_text : ℕ → Option ℕ → String
end_port_text port none = ""
end_port_text port (some end_port) = if leb port end_port then itoa end_port else ""

unfoldable pub named_eps : NamedPortToEps → String → String → List EndPoints
named_eps m name protocol = elim (lookup name m) [
  | none ↦ []
  | some protocols ↦ elim (lookup protocol protocols) [ none ↦ [] | some numbers ↦ values numbers ]
]

-- What one port adds to the numeric and to the named ports.
unfoldable pub one_port :
    NamedPortToEps → String → Option IntOrString → Option ℕ → List ProtocolAndPort × List EndPoints
unfolding end_port_text named_eps to_text
one_port m protocol none end_port =
    (record { protocol = protocol; port = ""; endport = "" } ∷ [], [])
one_port m protocol (some (int n)) end_port = (
  record { protocol = protocol; port = to_text (int n); endport = end_port_text n end_port } ∷ [],
  [],
)
one_port m protocol (some (str s)) end_port = ([], named_eps m (to_text (str s)) protocol)

-- processNetworkPolicyPorts
unfoldable pub process_network_policy_ports :
    List NetworkPolicyPort → NamedPortToEps → List ProtocolAndPort × List EndPoints
unfolding one_port protocol_text
process_network_policy_ports [] m = ([], [])
process_network_policy_ports (np ∷ nps) m =
    let (numeric, named) = one_port m (protocol_text np.protocol) np.port np.end_port in
    let (numerics, nameds) = process_network_policy_ports nps m in
    (numeric ++ numerics, named ++ nameds)

unfoldable pub is_named : Option IntOrString → Bool
is_named none = false
is_named (some (int n)) = false
is_named (some (str s)) = true

-- policyRulePortsHasNamedPort
unfoldable pub policy_rule_ports_has_named_port : List NetworkPolicyPort → Bool
unfolding is_named
policy_rule_ports_has_named_port [] = false
policy_rule_ports_has_named_port (np ∷ nps) =
    if is_named np.port then true else policy_rule_ports_has_named_port nps
