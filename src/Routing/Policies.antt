-- ===== src/Routing/Policies.antt =====
-- The export and import policies of BGP (pkg/controllers/routing/bgp_policies.go), and `AddPolicies`.
pub mod Permits
pub mod Kept
pub mod Assigned
pub mod Fails
mod Tests
use kube_router.Prelude.{
  String, ℕ, Bool, true, false, Option, none, some, List, [], ◌∷◌, ◌++◌, ◌||◌, not, any, is_empty,
  if◌then◌else◌, ◌==◌,
}
use kube_router.Prelude.Text.{cat}
use kube_router.Prelude.Parse.{parse_uint}
use kube_router.Exec.{Result, ok, err}
use kube_router.Routing.Bgp.{
  RouteAction, accept, reject, Actions, Statement, Policy, PolicyDirection, export_direction,
  import_direction, PolicyAssignment, Server, Nrc,
}
use kube_router.Routing.DefinedSets.{
  add_pod_cidr_defined_set, add_service_vips_defined_set, add_default_route_defined_set,
  add_custom_import_reject_defined_set,
}
use kube_router.Routing.PeerSets.{
  add_ibgp_peers_defined_set, add_external_bgp_peers_defined_set, add_all_bgp_peers_defined_set,
}

abbrev no_actions : Actions
no_actions = record {
  route_action = none;
  as_prepend = none;
  communities = [];
  nexthop_self = false;
}

unfoldable pub prepend_of : ℕ → Option ℕ → Option Actions
prepend_of count none = none
prepend_of count (some asn) = some (record no_actions { as_prepend = some (asn, count) })

-- The first step of addExportPolicies; `none` if the AS number to prepend is no number of 32 bits.
unfoldable pub prepend_actions : Nrc → Option Actions
unfolding prepend_of
prepend_actions nrc =
    if nrc.path_prepend
    then prepend_of nrc.path_prepend_count (parse_uint 32 nrc.path_prepend_as)
    else some no_actions

unfoldable pub ibgp_statements : Nrc → List Statement
ibgp_statements nrc =
    if nrc.bgp_enable_internal
    then record {
      prefix_set = "podcidrdefinedset";
      neighbor_set = "iBGPpeerset";
      actions = record no_actions {
        route_action = some accept;
        nexthop_self = nrc.override_next_hop;
      };
    }
      ∷ []
    else []

-- The actions for the VIPs of services, and those for the pod CIDR.
unfoldable pub vip_actions : Nrc → Actions → Actions
vip_actions nrc actions = record actions {
  route_action = some accept;
  nexthop_self = nrc.override_next_hop;
  communities = nrc.node_communities;
}

unfoldable pub pod_cidr_statements : Nrc → List Statement
unfolding vip_actions
pod_cidr_statements nrc =
    if nrc.advertise_pod_cidr
    then record {
      prefix_set = "podcidrdefinedset";
      neighbor_set = "externalpeerset";
      actions = vip_actions nrc no_actions;
    }
      ∷ []
    else []

unfoldable pub external_statements : Nrc → Actions → List Statement
unfolding pod_cidr_statements vip_actions
external_statements nrc actions =
    if not (is_empty nrc.global_peer_routers) || not (is_empty nrc.node_peer_routers)
    then record {
      prefix_set = "servicevipsdefinedset";
      neighbor_set = "externalpeerset";
      actions = vip_actions nrc actions;
    }
      ∷ pod_cidr_statements nrc
    else []

unfoldable pub export_statements : Nrc → Actions → List Statement
unfolding ibgp_statements external_statements
export_statements nrc actions = ibgp_statements nrc ++ external_statements nrc actions

abbrev pub rejected_from_peers : String → Statement
rejected_from_peers set = record {
  prefix_set = set;
  neighbor_set = "allpeerset";
  actions = record no_actions { route_action = some reject };
}

unfoldable pub import_statements : Nrc → List Statement
import_statements nrc =
    rejected_from_peers "servicevipsdefinedset"
    ∷ rejected_from_peers "defaultroutedefinedset"
    ∷ (if is_empty nrc.node_custom_import_reject_ip_nets
        then []
        else rejected_from_peers "customimportrejectdefinedset" ∷ [])

-- checkExistingPolicy and checkExistingPolicyAssignment
unfoldable pub has_policy : String → List Policy → Bool
has_policy name = any (λ policy. policy.name == name)

unfoldable pub assigns_policy : String → List PolicyAssignment → Bool
unfolding has_policy
assigns_policy name = any (λ assignment. has_policy name assignment.policies)

module _ {W : Type 0} (server : Server W) where
  abbrev pub Call : Type 0
  Call = W → Result (Unit {0}) × W

  -- An error with a text before it.
  unfoldable pub wrap : String → Result (Unit {0}) × W → Result (Unit {0}) × W
  wrap message (err e, w) = (err (cat message e), w)
  wrap message (ok done, w) = (ok done, w)

  unfoldable pub and_then : Call → Result (Unit {0}) × W → Result (Unit {0}) × W
  and_then next (err e, w) = (err e, w)
  and_then next (ok done, w) = next w

  unfoldable pub ensure_policy : String → Policy → Result (List Policy) → Call
  unfolding has_policy wrap
  ensure_policy kind policy (err e) w =
      (err (cat "Failed to verify if kube-router BGP " (cat kind (cat " policy exists: " e))), w)
  ensure_policy kind policy (ok found) w =
      let added = wrap "Failed to add policy: " (server.add_policy policy w) in
      if has_policy policy.name found then (ok tt, w) else added

  unfoldable pub ensure_assignment :
      String → PolicyAssignment → String → Result (List PolicyAssignment) → Call
  unfolding assigns_policy wrap
  ensure_assignment kind assignment name (err e) w = (
    err (
        cat "Failed to verify if kube-router BGP "
          (cat kind (cat " policy assignment exists: " e))),
    w,
  )
  ensure_assignment kind assignment name (ok found) w =
      let added =
        wrap "Failed to add policy assignment: " (server.add_policy_assignment assignment w) in
      if assigns_policy name found then (ok tt, w) else added

  -- The second half of addExportPolicies and of addImportPolicies, alike up to names and defaults.
  unfoldable pub ensure : String → PolicyDirection → Policy → RouteAction → Call
  unfolding and_then ensure_policy ensure_assignment
  ensure kind direction policy default w =
      and_then
        (λ w'.
          ensure_assignment kind
            (record {
              name = "global";
              direction = direction;
              policies = policy ∷ [];
              default_action = default;
            })
            policy.name (server.list_policy_assignment "global" direction w') w')
        (ensure_policy kind policy (server.list_policy w) w)

  module _ (nrc : Nrc) where
    -- The text of the error of strconv.ParseUint is left out.
    unfoldable pub export_with : Option Actions → Call
    unfolding ensure export_statements
    export_with none w = (err "Invalid value for kube-router.io/path-prepend.as", w)
    export_with (some actions) w =
        ensure "export" export_direction
          (record { name = "kube_router_export"; statements = export_statements nrc actions })
          reject w

    -- addExportPolicies
    unfoldable pub add_export_policies : Call
    unfolding export_with prepend_actions
    add_export_policies = export_with (prepend_actions nrc)

    -- addImportPolicies
    unfoldable pub add_import_policies : Call
    unfolding ensure import_statements
    add_import_policies =
        ensure "import" import_direction
          (record { name = "kube_router_import"; statements = import_statements nrc }) accept

    -- The seven defined sets, in the order of AddPolicies. An error is logged only.
    unfoldable pub add_defined_sets : (String → String) → W → W
    unfolding add_pod_cidr_defined_set add_service_vips_defined_set add_default_route_defined_set
        add_custom_import_reject_defined_set add_ibgp_peers_defined_set
        add_external_bgp_peers_defined_set add_all_bgp_peers_defined_set
    add_defined_sets parse_ip w =
        let w1 = (add_pod_cidr_defined_set server nrc w).1 in
        let w2 = (add_service_vips_defined_set server nrc w1).1 in
        let w3 = (add_default_route_defined_set server w2).1 in
        let w4 = (add_custom_import_reject_defined_set server nrc w3).1 in
        let (ibgp_peer_cidrs, r5, w5) = add_ibgp_peers_defined_set server nrc parse_ip w4 in
        let (external_bgp_peer_cidrs, r6, w6) = add_external_bgp_peers_defined_set server nrc w5 in
        (add_all_bgp_peers_defined_set server ibgp_peer_cidrs external_bgp_peer_cidrs w6).1

    -- AddPolicies
    unfoldable pub add_policies : (String → String) → Call
    unfolding add_defined_sets add_export_policies add_import_policies and_then
    add_policies parse_ip w =
        if nrc.bgp_rr_server
        then (ok tt, w)
        else and_then add_import_policies (add_export_policies (add_defined_sets parse_ip w))
