-- ===== src/Routing/PeerSets.antt =====
-- The defined sets of BGP peers (pkg/controllers/routing/bgp_policies.go).
use kube_router.Prelude.{
  String, Option, none, some, List, [], ◌∷◌, ◌++◌, not, is_empty, if◌then◌else◌,
}
use kube_router.Prelude.Text.{cat, sort_strings}
use kube_router.Exec.{Result, ok, err}
use kube_router.Node.{NodeAddress, get_node_ip}
use kube_router.Routing.Bgp.{neighbor_type, DefinedSet, Server, Nrc}
use kube_router.Routing.DefinedSets.{
  neighbor_set, absent, same_text, with_current, unless_present, add_then_delete,
}

-- A node without an address is skipped. The third case, a panic in GetNodeIP, does not happen.
unfoldable pub node_cidr : Option (Result String) → List String
node_cidr (some (ok ip)) = cat ip "/32" ∷ []
node_cidr (some (err e)) = []
node_cidr none = []

unfoldable pub external_peers : Nrc → List String
external_peers nrc = nrc.global_peer_routers ++ nrc.node_peer_routers

unfoldable pub peer_cidrs : List String → List String
peer_cidrs [] = []
peer_cidrs (peer ∷ peers) = cat peer "/32" ∷ peer_cidrs peers

-- The first result of addiBGPPeersDefinedSet, which sort.Strings has sorted if the set stands already.
unfoldable pub returned_cidrs : List String → Result (List DefinedSet) → List String
returned_cidrs cidrs (err e) = cidrs
returned_cidrs cidrs (ok []) = cidrs
returned_cidrs cidrs (ok (ds ∷ more)) = sort_strings cidrs

-- The first result of addExternalBGPPeersDefinedSet.
unfoldable pub external_cidrs : Nrc → Result (List DefinedSet) → List String
unfolding peer_cidrs external_peers
external_cidrs nrc (err e) = []
external_cidrs nrc (ok found) = peer_cidrs (external_peers nrc)

unfoldable pub ibgp_cidrs : (String → String) → List (List NodeAddress) → List String
unfolding node_cidr get_node_ip
ibgp_cidrs parse_ip [] = []
ibgp_cidrs parse_ip (addresses ∷ nodes) =
    node_cidr (get_node_ip parse_ip addresses) ++ ibgp_cidrs parse_ip nodes

module _ {W : Type 0} (server : Server W) where
  -- The addition of what is missing and the removal of what is too much.
  unfoldable pub update_list : String → List String → List String → W → Result (Unit {0}) × W
  unfolding add_then_delete absent
  update_list name wanted current =
      add_then_delete server (neighbor_set name (absent same_text current wanted))
        (neighbor_set name (absent same_text wanted current))

  unfoldable pub update_ibgp : List String → Option DefinedSet → W → Result (Unit {0}) × W
  unfolding update_list
  update_ibgp cidrs none w = server.add_defined_set (neighbor_set "iBGPpeerset" cidrs) w
  update_ibgp cidrs (some ds) w =
      if server.equal_texts (sort_strings cidrs) (sort_strings ds.list)
      then (ok tt, w)
      else update_list "iBGPpeerset" (sort_strings cidrs) (sort_strings ds.list) w

  unfoldable pub update_all : List String → Option DefinedSet → W → Result (Unit {0}) × W
  unfolding update_list
  update_all cidrs none w = server.add_defined_set (neighbor_set "allpeerset" cidrs) w
  update_all cidrs (some ds) w = update_list "allpeerset" cidrs ds.list w

  -- addAllBGPPeersDefinedSet
  unfoldable pub add_all_bgp_peers_defined_set :
      List String → List String → W → Result (Unit {0}) × W
  unfolding with_current update_all
  add_all_bgp_peers_defined_set ibgp_peer_cidrs external_bgp_peer_cidrs =
      with_current server neighbor_type "allpeerset"
        (update_all (external_bgp_peer_cidrs ++ ibgp_peer_cidrs))

  module _ (nrc : Nrc) where
    unfoldable pub add_external_peers : List String → W → Result (Unit {0}) × W
    add_external_peers cidrs w =
        if is_empty cidrs
        then (ok tt, w)
        else server.add_defined_set (neighbor_set "externalpeerset" cidrs) w

    -- addExternalBGPPeersDefinedSet
    unfoldable pub add_external_bgp_peers_defined_set : W → List String × Result (Unit {0}) × W
    unfolding external_cidrs add_external_peers with_current unless_present
    add_external_bgp_peers_defined_set w =
        let cidrs =
          external_cidrs nrc (server.list_defined_set neighbor_type "externalpeerset" w) in
        let (r, w') =
          with_current server neighbor_type "externalpeerset"
            (unless_present server (add_external_peers (peer_cidrs (external_peers nrc)))) w in
        (cidrs, r, w')

    module _ (parse_ip : String → String) where
      -- addiBGPPeersDefinedSet
      unfoldable pub add_ibgp_peers_defined_set : W → List String × Result (Unit {0}) × W
      unfolding ibgp_cidrs with_current update_ibgp returned_cidrs
      add_ibgp_peers_defined_set w =
          let cidrs = ibgp_cidrs parse_ip nrc.nodes in
          let found = server.list_defined_set neighbor_type "iBGPpeerset" w in
          let (r, w') = with_current server neighbor_type "iBGPpeerset" (update_ibgp cidrs) w in
          if not nrc.bgp_enable_internal
          then ([], ok tt, w)
          else (returned_cidrs cidrs found, r, w')
