-- ===== src/Routing/Policies/Fails.antt =====
-- When `AddPolicies` fails before any policy (pkg/controllers/routing/bgp_policies.go).
use kube_router.Prelude.{String, ◌≡◌, ◌∙◌, ap, false, none, if_false}
use kube_router.Exec.{err}
use kube_router.Routing.Bgp.{Server, Nrc}
use kube_router.Routing.Policies.{
  and_then, prepend_actions, export_with, add_export_policies, add_import_policies,
  add_defined_sets, add_policies,
}

module _ {W : Type 0} (server : Server W) where
  -- A number to prepend that is none of 32 bits ends AddPolicies with an error behind the defined sets: no
  -- policy is added or assigned, also none for the import.
  add_policies-fails :
      (nrc : Nrc) (parse_ip : String → String) (w : W)
      → prepend_actions nrc ≡ none
      → nrc.bgp_rr_server ≡ false
      → add_policies server nrc parse_ip w ≡ (
        err "Invalid value for kube-router.io/path-prepend.as",
        add_defined_sets server nrc parse_ip w,
      )
  unfolding add_policies add_export_policies export_with and_then
  add_policies-fails nrc parse_ip w h rr =
      if_false nrc.bgp_rr_server _ _ rr
      ∙ ap
          (λ actions.
            and_then server (add_import_policies server nrc)
              (export_with server nrc actions (add_defined_sets server nrc parse_ip w)))
          h
