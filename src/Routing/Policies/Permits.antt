-- ===== src/Routing/Policies/Permits.antt =====
-- What the statements of the policies let through (pkg/controllers/routing/bgp_policies.go).
use kube_router.Prelude.{
  String, ◌≡◌, refl, Bool, true, false, Option, none, some, List, [], ◌∷◌, ◌++◌, ◌&&◌, ◌||◌, not,
  is_empty, arith, ◌∙◌, Bool-cases, inl, inr, if◌then◌else◌,
}
use kube_router.Routing.Bgp.{RouteAction, accept, reject, Actions, Statement, Nrc}
use kube_router.Routing.Policies.{
  ibgp_statements, vip_actions, pod_cidr_statements, external_statements, export_statements,
  import_statements,
}

abbrev decide : Option RouteAction → Bool → Bool
decide none later = later
decide (some accept) later = true
decide (some reject) later = false

-- Whether a route goes through, as gobgp documents it: the first statement of which the route is in the
-- prefix set and the peer in the neighbour set decides, else the default.
unfoldable pub permits : (String → Bool) → (String → Bool) → Bool → List Statement → Bool
permits in_prefixes in_neighbors default [] = default
permits in_prefixes in_neighbors default (s ∷ statements) =
    let later = permits in_prefixes in_neighbors default statements in
    if in_prefixes s.prefix_set && in_neighbors s.neighbor_set
    then decide s.actions.route_action later
    else later

module _ (in_prefixes in_neighbors : String → Bool) where
  -- Statements that accept, each under its condition.
  permits-parts :
      (b p c : Bool) (s t u : Statement)
      → s.actions.route_action ≡ some accept
      → t.actions.route_action ≡ some accept
      → u.actions.route_action ≡ some accept
      → permits in_prefixes in_neighbors false
          ((if b then s ∷ [] else []) ++ (if p then t ∷ (if c then u ∷ [] else []) else []))
        ≡ ((b && (in_prefixes s.prefix_set && in_neighbors s.neighbor_set))
            || (p
                && ((in_prefixes t.prefix_set && in_neighbors t.neighbor_set)
                    || (c && (in_prefixes u.prefix_set && in_neighbors u.neighbor_set)))))
  unfolding permits
  permits-parts false false c s t u hs ht hu = refl
  permits-parts false true false s t u hs ht hu = rw ht (ground arith)
  permits-parts false true true s t u hs ht hu = rw (ht, hu) (ground arith)
  permits-parts true false c s t u hs ht hu = rw hs (ground arith)
  permits-parts true true false s t u hs ht hu = rw (hs, ht) (ground arith)
  permits-parts true true true s t u hs ht hu = rw (hs, ht, hu) (ground arith)

module _ (nrc : Nrc) (in_prefixes in_neighbors : String → Bool) where
  unfoldable pub has_external_peers : Bool
  has_external_peers =
      not (is_empty nrc.global_peer_routers) || not (is_empty nrc.node_peer_routers)

  -- Whatever prepending is set up, a route is exported exactly if it is of the node's pod CIDR, to an iBGP
  -- peer with iBGP enabled or to an external peer with its advertisement enabled, or of a VIP, to an
  -- external peer; to external peers only if some are configured. So no VIP goes to a peer that is only an
  -- iBGP peer.
  pub permits-export_statements :
      (actions : Actions)
      → permits in_prefixes in_neighbors false (export_statements nrc actions) ≡ (
          (nrc.bgp_enable_internal
            && (in_prefixes "podcidrdefinedset" && in_neighbors "iBGPpeerset"))
          || (has_external_peers
              && (in_neighbors "externalpeerset"
                  && (in_prefixes "servicevipsdefinedset"
                      || (nrc.advertise_pod_cidr && in_prefixes "podcidrdefinedset")))))
  unfolding permits has_external_peers export_statements ibgp_statements external_statements
      pod_cidr_statements vip_actions
  permits-export_statements actions =
      permits-parts in_prefixes in_neighbors nrc.bgp_enable_internal has_external_peers
        nrc.advertise_pod_cidr _ _ _ refl refl refl
      ∙ ground arith

  -- A route is imported exactly if it does not come from a peer, or is neither of a VIP nor the default
  -- route nor in the prefixes to reject, if any are configured.
  permits-import_statements :
      permits in_prefixes in_neighbors true (import_statements nrc)
      ≡ not (
          in_neighbors "allpeerset"
          && (in_prefixes "servicevipsdefinedset"
              || (in_prefixes "defaultroutedefinedset"
                  || (not (is_empty nrc.node_custom_import_reject_ip_nets)
                      && in_prefixes "customimportrejectdefinedset"))))
  unfolding permits import_statements
  permits-import_statements = elim (Bool-cases (is_empty nrc.node_custom_import_reject_ip_nets)) [
    | inl e ↦ rw e (ground arith)
    | inr e ↦ rw e (ground arith)
  ]
