-- ===== src/Routing/Policies/Assigned.antt =====
-- Where the policies stand after `AddPolicies` (pkg/controllers/routing/bgp_policies.go).
use mathlib.Core.Path.{subst⁻¹}
use kube_router.Prelude.{
  String, ◌≡◌, refl, ◌∙◌, Bool, true, false, Option, none, some, List, [], ◌∷◌, any, all, ◌&&◌,
  ◌||◌, arith, if◌then◌else◌, ◌==◌, eq_refl, if_false,
}
use kube_router.Exec.{Result, ok, err}
use kube_router.Routing.Bgp.{
  RouteAction, accept, reject, Actions, Policy, PolicyDirection, PolicyAssignment, export_direction,
  import_direction, Server, Nrc,
}
use kube_router.Routing.Policies.{
  has_policy, assigns_policy, wrap, and_then, ensure_policy, ensure_assignment, ensure,
  export_statements, import_statements, prepend_actions, export_with, add_export_policies,
  add_import_policies, add_defined_sets, add_policies,
}

abbrev pub same_direction : PolicyDirection → PolicyDirection → Bool
same_direction export_direction export_direction = true
same_direction import_direction import_direction = true
same_direction _ _ = false

-- A server whose calls on policies succeed where the arguments are valid: a policy is added under its name;
-- an assignment, whose policies must stand and must not be assigned in its direction yet, joins its
-- policies to those assigned in this direction. How the server lists what is assigned is left open.
pub record IsPolicyStore {W : Type 0} (server : Server W) (policies : W → List Policy)
    (assignments : W → PolicyDirection → List PolicyAssignment) : Type 0 where
  pub listed : (w : W) → server.list_policy w ≡ ok (policies w)
  pub listed_assignments :
      (w : W) (direction : PolicyDirection)
      → server.list_policy_assignment "global" direction w ≡ ok (assignments w direction)
  pub add_ok :
      (policy : Policy) (w : W)
      → has_policy policy.name (policies w) ≡ false
      → (server.add_policy policy w).0 ≡ ok tt
  pub added :
      (policy : Policy) (name : String) (w : W)
      → has_policy policy.name (policies w) ≡ false
      → has_policy name (policies (server.add_policy policy w).1)
        ≡ ((policy.name == name) || has_policy name (policies w))
  pub add_keeps :
      (policy : Policy) (name : String) (direction : PolicyDirection) (w : W)
      → assigns_policy name (assignments (server.add_policy policy w).1 direction)
        ≡ assigns_policy name (assignments w direction)
  pub assign_ok :
      (assignment : PolicyAssignment) (w : W)
      → all (λ p. has_policy p.name (policies w)) assignment.policies ≡ true
      → any (λ p. assigns_policy p.name (assignments w assignment.direction)) assignment.policies
        ≡ false
      → (server.add_policy_assignment assignment w).0 ≡ ok tt
  pub assigned :
      (assignment : PolicyAssignment) (name : String) (direction : PolicyDirection) (w : W)
      → (server.add_policy_assignment assignment w).0 ≡ ok tt
      → assigns_policy name (assignments (server.add_policy_assignment assignment w).1 direction)
        ≡ ((same_direction assignment.direction direction && has_policy name assignment.policies)
            || assigns_policy name (assignments w direction))
  pub assign_keeps :
      (assignment : PolicyAssignment) (name : String) (w : W)
      → has_policy name (policies (server.add_policy_assignment assignment w).1)
        ≡ has_policy name (policies w)

module _ {W : Type 0} (server : Server W) (policies : W → List Policy)
    (assignments : W → PolicyDirection → List PolicyAssignment)
    (store : IsPolicyStore server policies assignments) where
  abbrev Outcome : Type 0
  Outcome = Result (Unit {0}) × W

  wrap-ok :
      (message : String) (r : Result (Unit {0})) (w : W)
      → r ≡ ok tt
      → wrap server message (r, w) ≡ (ok tt, w)
  unfolding wrap
  wrap-ok message (ok done) w h = refl
  wrap-ok message (err e) w h = absurd cc

  -- A policy stands and is assigned, beside what stood and was assigned before.
  abbrev Ready : String → PolicyDirection → W → Type 0
  Ready name direction w =
      (has_policy name (policies w) ≡ true) × (assigns_policy name (assignments w direction) ≡ true)

  -- The call has succeeded, the policy stands, and what was ready before is ready.
  abbrev Stands : Policy → W → Outcome → Type 0
  Stands policy before r =
      (r.0 ≡ ok tt)
      × (has_policy policy.name (policies r.1) ≡ true)
      × ((name : String) (direction : PolicyDirection)
          → Ready name direction before
          → Ready name direction r.1)

  Stands-if :
      (b : Bool) (policy : Policy) (w : W)
      → has_policy policy.name (policies w) ≡ b
      → Stands policy w (
          if b
          then (ok tt, w)
          else wrap server "Failed to add policy: " (server.add_policy policy w))
  Stands-if true policy w h = (refl, h, λ name direction ready. ready)
  Stands-if false policy w h =
      let r = server.add_policy policy w in
      subst⁻¹ (Stands policy w) (wrap-ok "Failed to add policy: " r.0 r.1 (store.add_ok policy w h))
        (
          refl,
          store.added policy policy.name w h ∙ ground (arith, eq_refl policy.name),
          λ name direction ready. (
            store.added policy name w h ∙ ground (arith, ready.0),
            store.add_keeps policy name direction w ∙ ready.1,
          ),
        )

  Stands-ensure_policy :
      (kind : String) (policy : Policy) (w : W)
      → Stands policy w (ensure_policy server kind policy (server.list_policy w) w)
  unfolding ensure_policy
  Stands-ensure_policy kind policy w =
      subst⁻¹ (λ r. Stands policy w (ensure_policy server kind policy r w)) (store.listed w)
        (Stands-if (has_policy policy.name (policies w)) policy w refl)

  -- The call has succeeded, the policy is ready, and so is what was ready before.
  abbrev Assigned : Policy → PolicyDirection → W → Outcome → Type 0
  Assigned policy direction before r =
      (r.0 ≡ ok tt)
      × Ready policy.name direction r.1
      × ((name : String) (other : PolicyDirection) → Ready name other before → Ready name other r.1)

  same_own : (direction : PolicyDirection) → same_direction direction direction ≡ true
  same_own export_direction = refl
  same_own import_direction = refl

  module _ (policy : Policy) (direction : PolicyDirection) (default : RouteAction) where
    abbrev assignment : PolicyAssignment
    assignment = record {
      name = "global";
      direction = direction;
      policies = policy ∷ [];
      default_action = default;
    }

    own_policy : has_policy policy.name (policy ∷ []) ≡ true
    unfolding has_policy
    own_policy = ground (arith, eq_refl policy.name)

    Assigned-if :
        (b : Bool) (w : W)
        → has_policy policy.name (policies w) ≡ true
        → assigns_policy policy.name (assignments w direction) ≡ b
        → Assigned policy direction w (
            if b
            then (ok tt, w)
            else wrap server "Failed to add policy assignment: "
                (server.add_policy_assignment assignment w))
    Assigned-if true w hp h = (refl, (hp, h), λ name other ready. ready)
    Assigned-if false w hp h =
        let r = server.add_policy_assignment assignment w in
        let done = store.assign_ok assignment w (ground (arith, hp)) (ground (arith, h)) in
        subst⁻¹ (Assigned policy direction w)
          (wrap-ok "Failed to add policy assignment: " r.0 r.1 done)
          (
            refl,
            (
              store.assign_keeps assignment policy.name w ∙ hp,
              store.assigned assignment policy.name direction w done
                  ∙ ground (arith, same_own direction, own_policy),
            ),
            λ name other ready. (
              store.assign_keeps assignment name w ∙ ready.0,
              store.assigned assignment name other w done ∙ ground (arith, ready.1),
            ),
          )

    Assigned-ensure_assignment :
        (kind : String) (w : W)
        → has_policy policy.name (policies w) ≡ true
        → Assigned policy direction w (
            ensure_assignment server kind assignment policy.name
              (server.list_policy_assignment "global" direction w)
              w)
    unfolding ensure_assignment
    Assigned-ensure_assignment kind w hp =
        subst⁻¹
          (λ r.
            Assigned policy direction w (ensure_assignment server kind assignment policy.name r w))
          (store.listed_assignments w direction)
          (Assigned-if (assigns_policy policy.name (assignments w direction)) w hp refl)

    Assigned-and_then :
        (kind : String) (before : W) (r : Outcome)
        → Stands policy before r
        → Assigned policy direction before (
            and_then server
              (λ w.
                ensure_assignment server kind assignment policy.name
                  (server.list_policy_assignment "global" direction w)
                  w)
              r)
    unfolding and_then
    Assigned-and_then kind before (ok done, w) h =
        let a = Assigned-ensure_assignment kind w h.1 in
        (a.0, a.1, λ name other ready. a.2 name other (h.2 name other ready))
    Assigned-and_then kind before (err e, w) h = absurd cc

    Assigned-ensure :
        (kind : String) (w : W)
        → Assigned policy direction w (ensure server kind direction policy default w)
    unfolding ensure
    Assigned-ensure kind w =
        Assigned-and_then kind w (ensure_policy server kind policy (server.list_policy w) w)
          (Stands-ensure_policy kind policy w)

  module _ (nrc : Nrc) where
    abbrev export_policy : Actions → Policy
    export_policy actions = record {
      name = "kube_router_export";
      statements = export_statements nrc actions;
    }

    abbrev import_policy : Policy
    import_policy = record { name = "kube_router_import"; statements = import_statements nrc }

    Assigned-export :
        (actions : Option Actions) (a : Actions) (w : W)
        → actions ≡ some a
        → Assigned (export_policy a) export_direction w (export_with server nrc actions w)
    unfolding export_with
    Assigned-export none a w h = absurd cc
    Assigned-export (some b) a w h =
        Assigned-ensure (export_policy b) export_direction reject "export" w

    -- The outcome of AddPolicies: both policies are ready.
    abbrev Both : Outcome → Type 0
    Both r =
        (r.0 ≡ ok tt)
        × Ready "kube_router_export" export_direction r.1
        × Ready "kube_router_import" import_direction r.1

    Both-import_after :
        (r : Outcome)
        → r.0 ≡ ok tt
        → Ready "kube_router_export" export_direction r.1
        → Both (and_then server (add_import_policies server nrc) r)
    unfolding and_then add_import_policies
    Both-import_after (ok done, w) h ready =
        let a = Assigned-ensure import_policy import_direction accept "import" w in
        (a.0, a.2 "kube_router_export" export_direction ready, a.1)
    Both-import_after (err e, w) h ready = absurd cc

    -- If the valid calls of the server on policies succeed, and nothing is to be prepended to paths or the
    -- number to prepend is one of 32 bits, AddPolicies of a node that is no route reflector succeeds, and
    -- behind it the export policy stands and is assigned for export, and the import policy stands and is
    -- assigned for import.
    pub assigned-add_policies :
        (parse_ip : String → String) (actions : Actions) (w : W)
        → prepend_actions nrc ≡ some actions
        → nrc.bgp_rr_server ≡ false
        → let r = add_policies server nrc parse_ip w in
          (r.0 ≡ ok tt)
          × ((has_policy "kube_router_export" (policies r.1) ≡ true)
              × (assigns_policy "kube_router_export" (assignments r.1 export_direction) ≡ true))
          × ((has_policy "kube_router_import" (policies r.1) ≡ true)
              × (assigns_policy "kube_router_import" (assignments r.1 import_direction) ≡ true))
    unfolding add_export_policies add_policies
    assigned-add_policies parse_ip actions w h rr =
        let exported =
          Assigned-export (prepend_actions nrc) actions (add_defined_sets server nrc parse_ip w)
            h in
        subst⁻¹ Both (if_false nrc.bgp_rr_server _ _ rr) (Both-import_after _ exported.0 exported.1)
