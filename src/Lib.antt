-- ===== src/Lib.antt =====
-- kube-router (Go): network policies and the sets they use, the proxy of services, the routes and BGP
-- policies for the addresses of services, and the health of the controllers.
--
-- The program runs on every node of a Kubernetes cluster. Its network policy controller
-- (pkg/controllers/netpol) reads pods and policies, turns each policy into sets of addresses and a chain
-- of iptables rules, and each local pod into a chain that jumps to the chains of its policies. The sets
-- go to the kernel through pkg/utils/ipset.go. The service proxy (pkg/controllers/proxy) turns services
-- and their endpoints into IPVS services, cleans up behind itself, and deletes IPVS destinations
-- gracefully. The routing controller (pkg/controllers/routing) announces the addresses of services to a
-- BGP server, writes the policies by which that server exports and imports routes, and keeps a table of
-- routes that it writes to the kernel again and again. All of them send heartbeats to pkg/healthcheck.
-- The proxy and the routing controller read the same services and endpoints (Objects).
--
-- Files and code:
--   Prelude, Prelude/*: tests, lists, texts (join, split, contains, sort) and decimal numbers.
--   Dict: Go maps with string keys, as association lists. Exec: functions that return an error beside a
--     value and change shared state.
--   IpSet: IPSet, Set and Entry of pkg/utils/ipset.go, one definition for each method (Create is create,
--     RefreshSet is refresh_set, and so on). IpSet/Restore: buildIPSetRestore and Restore, as a list of
--     lines and its print; IpSet/Restore/Kernel: the laws of the kernel's commands that it relies on,
--     each under the conditions on which ipset accepts the command.
--     IpSet/Save: parseIPSetSave, Save and Del. IpSet/Table: what the operations do to the table.
--   Netpol: the types of network_policy_controller.go. Netpol/Names: the names of chains and sets.
--     Netpol/Api: the Kubernetes objects as far as they are read, and the predicates on pods of utils.go.
--     Netpol/Ports: processNetworkPolicyPorts, grabNamedPortFromPod. Netpol/Build:
--     buildNetworkPoliciesInfo, evalPodPeer, evalIPBlockPeer, and what a specification lets through
--     (Build/Selected). Netpol/Chain: appendRuleToPolicyChain and
--     the sets of utils.go. Netpol/Ingress, Netpol/Egress: processIngressRules, processEgressRules, with
--     the rules they write (Rules) and what these match (Permits, by the matches of Netpol/Packet).
--     Netpol/PolicyChains: syncNetworkPolicyChains. Netpol/PodRules, Netpol/PodFirewall: pod.go.
--     Netpol/Clash: names that coincide.
--     Netpol/Stale: ensureExplicitAccept and the clean-up of network_policy_controller.go.
--     Netpol/Requests: RequestFullSync and the goroutine that serves it, as a relation of steps.
--   Node: GetNodeIP of pkg/utils/node.go.
--   Iptables: AppendUnique and Append of pkg/utils/iptables.go, on the text of a buffer.
--   Objects: services and endpoints of the Kubernetes API, and pkg/utils/service.go.
--   Proxy/Graceful: pkg/controllers/proxy/network_service_graceful.go.
--   Proxy/Info: buildServicesInfo, buildEndpointsInfo and their types, of
--     pkg/controllers/proxy/network_services_controller.go. Proxy/Linux: what the host is asked for.
--     Proxy/Updates: the handlers of events, up to OnServiceUpdate and OnEndpointsUpdate, with the
--     comparison of endpoints of utils.go. Proxy/Marks: the FW marks of pkg/controllers/proxy/utils.go.
--     Of pkg/controllers/proxy/service_endpoints_sync.go: Proxy/Sync has setupClusterIPServices,
--     Proxy/NodePorts setupNodePortServices, Proxy/ExternalIps setupExternalIPForService, Proxy/Dsr
--     setupExternalIPForDSRService, Proxy/Stale the four functions that clean up, Proxy/SyncAll the rest,
--     up to syncIpvsServices. Proxy/Sample: a host in memory.
--   Routing/RouteSync: pkg/controllers/routing/route_sync.go.
--   Routing/Vips: which addresses of services to advertise, up to getVIPs, and Routing/Events: the
--     handlers of events, of pkg/controllers/routing/ecmp_vip.go. Routing/DefinedSets, Routing/PeerSets
--     and Routing/Policies: pkg/controllers/routing/bgp_policies.go, up to AddPolicies. Routing/Bgp: the
--     fields of the controller that are read, and the BGP server. Routing/Sample: a server in memory.
--   Health: pkg/healthcheck/health_controller.go.
--
-- Parameters: the ipset utility, the hash of names (SHA-256 or SHA-1 and base32, cut), the listers and
-- the label selectors of Kubernetes, IPVS, netlink, conntrack, the gobgp server, the clock, random
-- numbers, and how iptables compares protocols and ports. A text that the code writes to
-- `filterTableRules` is one entry of a list of texts, up to the clean-up, which reads the texts as
-- one.
--
-- Bounds: loops are structural recursion over lists, but for two. The decimal text of a number
-- (Prelude/Decimal) is on fuel; each step divides by ten, and the number itself plus one is enough.
-- The search for a FW mark is on fuel too, for the code may run for ever there; one round more than
-- there are marks in its way is enough. Durations of the health controller are 64-bit and wrap around
-- in sums; ports and rule numbers are small in Go and unbounded here.
--
-- Not modelled: the informers' callbacks of the network policies and the other goroutines (the locks
-- make each operation one step), logging and metrics, the top-level chains of iptables, the functions
-- that run commands on the host or in the namespace of a pod, the hairpin and firewall rules and the
-- start-up of the proxy, the peers, tunnels and start-up of the routing controller, the command line.
-- Most of these drive netlink, IPVS, iptables or the API. The order in which Go iterates over a map is open;
-- the model takes the order of insertion.
pub mod Prelude
pub mod Dict
pub mod Exec
pub mod IpSet
pub mod Netpol
pub mod Proxy
pub mod Health
pub mod Iptables
pub mod Routing
pub mod Objects
pub mod Node
