-- ===== src/Routing/Policies/Tests.antt =====
-- Runs of the policies (pkg/controllers/routing/bgp_policies.go).
use kube_router.Prelude.{String, ◌≡◌, refl, Bool, true, false, some, none, [], ◌==◌, ◌&&◌, ◌||◌}
use kube_router.Prelude.Parse.{parse_uint}
use kube_router.Exec.{ok}
use kube_router.Routing.Bgp.{Actions, Nrc, export_direction, import_direction}
use kube_router.Routing.Sample.{server, server-IsPolicyStore, assignments_of, empty_world, nrc}
use kube_router.Routing.Policies.{
  prepend_actions, export_statements, has_policy, assigns_policy, add_policies,
}
use kube_router.Routing.Policies.Permits.{permits, has_external_peers, permits-export_statements}
use kube_router.Routing.Policies.Assigned.{assigned-add_policies}

abbrev same_ip : String → String
same_ip ip = ip

abbrev actions : Actions
actions = record {
  route_action = none;
  as_prepend = some (64512, 2);
  communities = [];
  nexthop_self = false;
}

-- A route to a VIP, and a peer within the cluster.
abbrev of_vip : String → Bool
of_vip name = name == "servicevipsdefinedset"

abbrev internal_peer : String → Bool
internal_peer name = (name == "iBGPpeerset") || (name == "allpeerset")

permits-export_statements_example :
    permits of_vip internal_peer false (export_statements nrc actions) ≡ (
      (nrc.bgp_enable_internal && (of_vip "podcidrdefinedset" && internal_peer "iBGPpeerset"))
      || (has_external_peers nrc of_vip internal_peer
          && (internal_peer "externalpeerset"
              && (of_vip "servicevipsdefinedset"
                  || (nrc.advertise_pod_cidr && of_vip "podcidrdefinedset")))))
permits-export_statements_example = permits-export_statements nrc of_vip internal_peer actions

prepends : prepend_actions nrc ≡ some actions
unfolding prepend_actions parse_uint
prepends = refl

assigned-add_policies_example :
    let r = add_policies server nrc same_ip empty_world in
    (r.0 ≡ ok tt)
    × ((has_policy "kube_router_export" r.1.policies ≡ true)
        × (assigns_policy "kube_router_export" (assignments_of r.1 export_direction) ≡ true))
    × ((has_policy "kube_router_import" r.1.policies ≡ true)
        × (assigns_policy "kube_router_import" (assignments_of r.1 import_direction) ≡ true))
assigned-add_policies_example =
    assigned-add_policies server (λ w. w.policies) assignments_of server-IsPolicyStore nrc same_ip
      actions empty_world prepends refl

abbrev bad : Nrc
bad = record nrc { path_prepend_as = "4294967296" }

no_number : prepend_actions bad ≡ none
unfolding prepend_actions parse_uint
no_number = refl
