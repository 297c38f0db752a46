-- ===== src/Routing/Bgp.antt =====
-- What the routing controller asks of the BGP server (the gobgp library, a parameter), and the
-- controller's settings (NetworkRoutingController in pkg/controllers/routing/network_routes_controller.go).
use kube_router.Prelude.{String, ℕ, Bool, Option, List}
use kube_router.Exec.{Result}
use kube_router.Objects.{Caches}
use kube_router.Node.{NodeAddress}

-- gobgpapi.Path as this controller fills it: prefix, length and next hop.
pub record BgpPath : Type 0 where
  pub prefix : String
  pub prefix_len : ℕ
  pub next_hop : String

pub record Prefix : Type 0 where
  pub ip_prefix : String
  pub mask_length_min : ℕ
  pub mask_length_max : ℕ

pub data DefinedType : Type 0 where
  prefix_type neighbor_type : DefinedType

-- gobgpapi.DefinedSet: `prefixes` for prefixes, `list` for neighbours.
pub record DefinedSet : Type 0 where
  pub defined_type : DefinedType
  pub name : String
  pub prefixes : List Prefix
  pub list : List String

pub data RouteAction : Type 0 where
  accept reject : RouteAction

-- gobgpapi.Actions: the AS number and count to prepend, the communities to add, whether the next hop is
-- the node itself.
pub record Actions : Type 0 where
  pub route_action : Option RouteAction
  pub as_prepend : Option (ℕ × ℕ)
  pub communities : List String
  pub nexthop_self : Bool

-- A statement applies to a route of any member of a prefix set from or to any member of a neighbour set.
pub record Statement : Type 0 where
  pub prefix_set : String
  pub neighbor_set : String
  pub actions : Actions

pub record Policy : Type 0 where
  pub name : String
  pub statements : List Statement

pub data PolicyDirection : Type 0 where
  export_direction import_direction : PolicyDirection

pub record PolicyAssignment : Type 0 where
  pub name : String
  pub direction : PolicyDirection
  pub policies : List Policy
  pub default_action : RouteAction

-- The calls of the server over its state `W`. A list is what the callback is shown, in order.
-- `equal_texts` and `equal_prefixes` are reflect.DeepEqual, which also sees what a list here does not
-- hold: nil slices and the private fields of messages.
pub record Server (W : Type 0) : Type 0 where
  pub add_path : BgpPath → W → Result (Unit {0}) × W
  pub delete_path : BgpPath → W → Result (Unit {0}) × W
  pub list_defined_set : DefinedType → String → W → Result (List DefinedSet)
  pub add_defined_set : DefinedSet → W → Result (Unit {0}) × W
  pub delete_defined_set : DefinedSet → W → Result (Unit {0}) × W
  pub list_policy : W → Result (List Policy)
  pub add_policy : Policy → W → Result (Unit {0}) × W
  pub list_policy_assignment : String → PolicyDirection → W → Result (List PolicyAssignment)
  pub add_policy_assignment : PolicyAssignment → W → Result (Unit {0}) × W
  pub equal_texts : List String → List String → Bool
  pub equal_prefixes : List Prefix → List Prefix → Bool

-- A pod CIDR `address/mask_text`; the controller's is parsed before it is kept, so it has one slash.
pub record PodCidr : Type 0 where
  pub address : String
  pub mask_text : String

-- net.IPNet: its text and the length of its mask.
pub record IpNet : Type 0 where
  pub text : String
  pub mask_size : ℕ

-- The fields of NetworkRoutingController that are read here. `node_ip` is nodeIP.String(); of a peer of
-- globalPeerRouters only the address is kept, of a node its addresses.
pub record Nrc : Type 0 where
  pub node_ip : String
  pub node_name : String
  pub bgp_server_started : Bool
  pub advertise_cluster_ip : Bool
  pub advertise_external_ip : Bool
  pub advertise_load_balancer_ip : Bool
  pub advertise_pod_cidr : Bool
  pub bgp_rr_server : Bool
  pub bgp_enable_internal : Bool
  pub override_next_hop : Bool
  pub path_prepend : Bool
  pub path_prepend_as : String
  pub path_prepend_count : ℕ
  pub global_peer_routers : List String
  pub node_peer_routers : List String
  pub node_communities : List String
  pub node_custom_import_reject_ip_nets : List IpNet
  pub pod_cidr : PodCidr
  pub caches : Caches
  pub nodes : List (List NodeAddress)
