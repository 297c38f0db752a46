-- ===== src/Routing/Policies/Kept.antt =====
-- What `AddPolicies` leaves alone (pkg/controllers/routing/bgp_policies.go): whatever the calls on defined
-- sets and policies leave alone.
use kube_router.Prelude.{
  ℕ, String, ◌≡◌, refl, ◌∙◌, Bool, true, false, Option, none, some, List, [], ◌∷◌, ◌++◌,
  if◌then◌else◌,
}
use kube_router.Exec.{Result, ok, err}
use kube_router.Routing.Bgp.{
  DefinedType, DefinedSet, neighbor_type, Prefix, Actions, Policy, PolicyAssignment,
  PolicyDirection, RouteAction, Server, Nrc,
}
use kube_router.Routing.Vips.{get_all_vips}
use kube_router.Routing.DefinedSets.{
  prefix_set, with_length, advertised_of, reject_prefixes, follow, with_current, delete_after,
  add_then_delete, add_default_route_defined_set, add_pod_prefix, add_pod_cidr_defined_set,
  update_vips, set_vips, unless_present, add_service_vips_defined_set,
  add_custom_import_reject_defined_set,
}
use kube_router.Routing.PeerSets.{
  update_list, update_ibgp, update_all, add_all_bgp_peers_defined_set, add_external_peers,
  add_external_bgp_peers_defined_set, ibgp_cidrs, add_ibgp_peers_defined_set,
}
use kube_router.Routing.Policies.{
  wrap, and_then, ensure_policy, ensure_assignment, ensure, export_with, add_export_policies,
  add_import_policies, add_defined_sets, add_policies,
}

-- The four calls that AddPolicies makes to change the server leave the view of it as it is.
pub record IsKept {W A : Type 0} (server : Server W) (view : W → A) : Type 0 where
  pub add_defined_set : (ds : DefinedSet) (w : W) → view (server.add_defined_set ds w).1 ≡ view w
  pub delete_defined_set :
      (ds : DefinedSet) (w : W) → view (server.delete_defined_set ds w).1 ≡ view w
  pub add_policy : (policy : Policy) (w : W) → view (server.add_policy policy w).1 ≡ view w
  pub add_policy_assignment :
      (assignment : PolicyAssignment) (w : W)
      → view (server.add_policy_assignment assignment w).1 ≡ view w

module _ {W A : Type 0} (server : Server W) (view : W → A) (kept : IsKept server view) where
  -- A call that leaves the view as it is.
  abbrev Keeps : (W → Result (Unit {0}) × W) → Type 0
  Keeps call = (w : W) → view (call w).1 ≡ view w

  keeps_if :
      (b : Bool) (r s : Result (Unit {0}) × W) (w : W)
      → view r.1 ≡ view w
      → view s.1 ≡ view w
      → view (if b then r else s).1 ≡ view w
  keeps_if true r s w h k = h
  keeps_if false r s w h k = k

  keeps_triple :
      (b : Bool) (r s : List String × Result (Unit {0}) × W) (w : W)
      → view r.2 ≡ view w
      → view s.2 ≡ view w
      → view (if b then r else s).2 ≡ view w
  keeps_triple true r s w h k = h
  keeps_triple false r s w h k = k

  Keeps-follow :
      (next : Option DefinedSet → W → Result (Unit {0}) × W)
      → ((current : Option DefinedSet) → Keeps (next current))
      → (found : Result (List DefinedSet)) (w : W) → view (follow server next found w).1 ≡ view w
  unfolding follow
  Keeps-follow next h (err e) w = refl
  Keeps-follow next h (ok found) w = h _ w

  Keeps-with_current :
      (defined_type : DefinedType) (name : String)
      (next : Option DefinedSet → W → Result (Unit {0}) × W)
      → ((current : Option DefinedSet) → Keeps (next current))
      → Keeps (with_current server defined_type name next)
  unfolding with_current
  Keeps-with_current defined_type name next h w =
      Keeps-follow next h (server.list_defined_set defined_type name w) w

  keeps-delete_after :
      (to_delete : DefinedSet) (r : Result (Unit {0}) × W)
      → view (delete_after server to_delete r).1 ≡ view r.1
  unfolding delete_after
  keeps-delete_after to_delete (err e, w) = refl
  keeps-delete_after to_delete (ok done, w) = kept.delete_defined_set to_delete w

  Keeps-add_then_delete :
      (to_add to_delete : DefinedSet) → Keeps (add_then_delete server to_add to_delete)
  unfolding add_then_delete
  Keeps-add_then_delete to_add to_delete w =
      keeps-delete_after to_delete (server.add_defined_set to_add w) ∙ kept.add_defined_set to_add w

  Keeps-unless_present :
      (create : W → Result (Unit {0}) × W) (current : Option DefinedSet)
      → Keeps create
      → Keeps (unless_present server create current)
  unfolding unless_present
  Keeps-unless_present create none h w = h w
  Keeps-unless_present create (some ds) h w = refl

  Keeps-create :
      (defined_type : DefinedType) (name : String) (create : W → Result (Unit {0}) × W)
      → Keeps create
      → Keeps (with_current server defined_type name (unless_present server create))
  Keeps-create defined_type name create h =
      Keeps-with_current defined_type name (unless_present server create)
        (λ current. Keeps-unless_present create current h)

  Keeps-set_vips :
      (wanted : List Prefix) (current : Option DefinedSet) → Keeps (set_vips server wanted current)
  unfolding set_vips update_vips
  Keeps-set_vips wanted none w = kept.add_defined_set _ w
  Keeps-set_vips wanted (some ds) w = keeps_if _ _ _ w refl (Keeps-add_then_delete _ _ w)

  Keeps-update_ibgp :
      (cidrs : List String) (current : Option DefinedSet) → Keeps (update_ibgp server cidrs current)
  unfolding update_ibgp update_list
  Keeps-update_ibgp cidrs none w = kept.add_defined_set _ w
  Keeps-update_ibgp cidrs (some ds) w = keeps_if _ _ _ w refl (Keeps-add_then_delete _ _ w)

  Keeps-update_all :
      (cidrs : List String) (current : Option DefinedSet) → Keeps (update_all server cidrs current)
  unfolding update_all update_list
  Keeps-update_all cidrs none w = kept.add_defined_set _ w
  Keeps-update_all cidrs (some ds) w = Keeps-add_then_delete _ _ w

  Keeps-add_all_peers :
      (ibgp_peer_cidrs external_bgp_peer_cidrs : List String)
      → Keeps (add_all_bgp_peers_defined_set server ibgp_peer_cidrs external_bgp_peer_cidrs)
  unfolding add_all_bgp_peers_defined_set
  Keeps-add_all_peers ibgp_peer_cidrs external_bgp_peer_cidrs =
      let cidrs = external_bgp_peer_cidrs ++ ibgp_peer_cidrs in
      Keeps-with_current _ _ (update_all server cidrs) (Keeps-update_all cidrs)

  Keeps-add_default_route : Keeps (add_default_route_defined_set server)
  unfolding add_default_route_defined_set
  Keeps-add_default_route =
      let prefix : Prefix = record {
        ip_prefix = "0.0.0.0/0";
        mask_length_min = 0;
        mask_length_max = 0;
      } in
      let set = prefix_set "defaultroutedefinedset" (prefix ∷ []) in
      Keeps-create _ _ (server.add_defined_set set) (kept.add_defined_set set)

  keeps-wrap :
      (message : String) (r : Result (Unit {0}) × W) → view (wrap server message r).1 ≡ view r.1
  unfolding wrap
  keeps-wrap message (err e, w) = refl
  keeps-wrap message (ok done, w) = refl

  Keeps-and_then :
      (next : W → Result (Unit {0}) × W) (r : Result (Unit {0}) × W)
      → Keeps next
      → view (and_then server next r).1 ≡ view r.1
  unfolding and_then
  Keeps-and_then next (err e, w) h = refl
  Keeps-and_then next (ok done, w) h = h w

  Keeps-ensure_policy :
      (kind : String) (policy : Policy) (found : Result (List Policy))
      → Keeps (ensure_policy server kind policy found)
  unfolding ensure_policy
  Keeps-ensure_policy kind policy (err e) w = refl
  Keeps-ensure_policy kind policy (ok found) w =
      keeps_if _ _ _ w refl (keeps-wrap _ _ ∙ kept.add_policy policy w)

  Keeps-ensure_assignment :
      (kind : String) (assignment : PolicyAssignment) (name : String)
      (found : Result (List PolicyAssignment))
      → Keeps (ensure_assignment server kind assignment name found)
  unfolding ensure_assignment
  Keeps-ensure_assignment kind assignment name (err e) w = refl
  Keeps-ensure_assignment kind assignment name (ok found) w =
      keeps_if _ _ _ w refl (keeps-wrap _ _ ∙ kept.add_policy_assignment assignment w)

  Keeps-ensure :
      (kind : String) (direction : PolicyDirection) (policy : Policy) (default : RouteAction)
      → Keeps (ensure server kind direction policy default)
  unfolding ensure
  Keeps-ensure kind direction policy default w =
      Keeps-and_then _ (ensure_policy server kind policy (server.list_policy w) w) (λ w'.
        Keeps-ensure_assignment kind
          (record {
            name = "global";
            direction = direction;
            policies = policy ∷ [];
            default_action = default;
          })
          policy.name (server.list_policy_assignment "global" direction w') w')
      ∙ Keeps-ensure_policy kind policy (server.list_policy w) w

  module _ (nrc : Nrc) where
    Keeps-export_with : (actions : Option Actions) → Keeps (export_with server nrc actions)
    unfolding export_with
    Keeps-export_with none w = refl
    Keeps-export_with (some actions) w = Keeps-ensure _ _ _ _ w

    Keeps-add_pod_prefix : (cidr_len : Option ℕ) → Keeps (add_pod_prefix server nrc cidr_len)
    unfolding add_pod_prefix
    Keeps-add_pod_prefix none w = refl
    Keeps-add_pod_prefix (some cidr_len) w = kept.add_defined_set _ w

    keeps-add_ibgp_peers :
        (parse_ip : String → String) (w : W)
        → view (add_ibgp_peers_defined_set server nrc parse_ip w).2 ≡ view w
    unfolding add_ibgp_peers_defined_set
    keeps-add_ibgp_peers parse_ip w = keeps_triple _ _ _ w refl (
        Keeps-with_current neighbor_type "iBGPpeerset"
          (update_ibgp server (ibgp_cidrs parse_ip nrc.nodes))
          (Keeps-update_ibgp (ibgp_cidrs parse_ip nrc.nodes)) w)

    keeps-add_external_peers :
        (w : W) → view (add_external_bgp_peers_defined_set server nrc w).2 ≡ view w
    unfolding add_external_bgp_peers_defined_set add_external_peers
    keeps-add_external_peers w =
        Keeps-create _ _ _ (λ w'. keeps_if _ _ _ w' refl (kept.add_defined_set _ w')) w

    Keeps-add_pod_cidr : Keeps (add_pod_cidr_defined_set server nrc)
    unfolding add_pod_cidr_defined_set
    Keeps-add_pod_cidr = Keeps-create _ _ _ (Keeps-add_pod_prefix _)

    Keeps-add_service_vips : Keeps (add_service_vips_defined_set server nrc)
    unfolding add_service_vips_defined_set
    Keeps-add_service_vips =
        let wanted = with_length (advertised_of (get_all_vips nrc)) in
        Keeps-with_current _ _ (set_vips server wanted) (Keeps-set_vips wanted)

    Keeps-add_custom_import_reject : Keeps (add_custom_import_reject_defined_set server nrc)
    unfolding add_custom_import_reject_defined_set
    Keeps-add_custom_import_reject =
        let set =
          prefix_set "customimportrejectdefinedset"
            (reject_prefixes nrc.node_custom_import_reject_ip_nets) in
        Keeps-create _ _ (server.add_defined_set set) (kept.add_defined_set set)

    keeps-add_defined_sets :
        (parse_ip : String → String) (w : W)
        → view (add_defined_sets server nrc parse_ip w) ≡ view w
    unfolding add_defined_sets
    keeps-add_defined_sets parse_ip w =
        let w1 = (add_pod_cidr_defined_set server nrc w).1 in
        let w2 = (add_service_vips_defined_set server nrc w1).1 in
        let w3 = (add_default_route_defined_set server w2).1 in
        let w4 = (add_custom_import_reject_defined_set server nrc w3).1 in
        let internal = add_ibgp_peers_defined_set server nrc parse_ip w4 in
        let external = add_external_bgp_peers_defined_set server nrc internal.2 in
        Keeps-add_all_peers internal.0 external.0 external.2
        ∙ keeps-add_external_peers _
        ∙ keeps-add_ibgp_peers parse_ip _
        ∙ Keeps-add_custom_import_reject _
        ∙ Keeps-add_default_route _
        ∙ Keeps-add_service_vips _
        ∙ Keeps-add_pod_cidr w

    -- AddPolicies leaves alone what the four calls leave alone.
    pub Keeps-add_policies : (parse_ip : String → String) → Keeps (add_policies server nrc parse_ip)
    unfolding add_policies add_export_policies add_import_policies
    Keeps-add_policies parse_ip w = keeps_if _ _ _ w refl (
        Keeps-and_then _ _ (Keeps-ensure _ _ _ _)
        ∙ Keeps-export_with _ _
        ∙ keeps-add_defined_sets parse_ip w)
