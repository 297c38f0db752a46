-- ===== src/Routing/Vips/Fails.antt =====
-- When getVIPs fails (pkg/controllers/routing/ecmp_vip.go).
use kube_router.Prelude.{
  String, ◌≡◌, refl, Bool, true, false, List, [], ◌∷◌, ◌&&◌, ◌||◌, any, arith, ◌∙◌, if◌then◌else◌,
}
use kube_router.Exec.{Result, ok, err}
use kube_router.Objects.{ServiceObject}
use kube_router.Routing.Bgp.{Nrc}
use kube_router.Routing.Vips.{
  is_local, get_all_vips_for_service, node_has_endpoints_for_service, unless_elsewhere,
  get_vips_for_service, gather, vips_of_services, finish_vips, get_vips, get_all_vips,
}

abbrev pub is_err : {A : Type 0} → Result A → Bool
is_err (ok a) = false
is_err (err e) = true

is_err-unless_elsewhere :
    (vips : List String × List String) (asked : Bool) (r : Result Bool)
    → is_err (unless_elsewhere vips (if asked then r else ok true)) ≡ (asked && is_err r)
unfolding unless_elsewhere
is_err-unless_elsewhere vips false r = refl
is_err-unless_elsewhere vips true (ok true) = refl
is_err-unless_elsewhere vips true (ok false) = refl
is_err-unless_elsewhere vips true (err e) = refl

is_err-gather :
    (r s : Result (List String × List String)) → is_err (gather r s) ≡ (is_err r || is_err s)
unfolding gather
is_err-gather (err e) s = refl
is_err-gather (ok vips) (err e) = refl
is_err-gather (ok vips) (ok more) = refl

is_err-finish_vips : (r : Result (List String × List String)) → is_err (finish_vips r) ≡ is_err r
unfolding finish_vips
is_err-finish_vips (err e) = refl
is_err-finish_vips (ok vips) = refl

module _ (nrc : Nrc) where
  -- The endpoints of a service whose traffic stays on the node cannot be told.
  unfoldable pub lacks_endpoints : Bool → ServiceObject → Bool
  lacks_endpoints only_active svc =
      (only_active && is_local svc) && is_err (node_has_endpoints_for_service nrc svc)

  is_err-vips_of_services :
      (only_active : Bool) (svcs : List ServiceObject)
      → is_err (vips_of_services nrc svcs only_active) ≡ any (lacks_endpoints only_active) svcs
  unfolding vips_of_services get_vips_for_service lacks_endpoints
  is_err-vips_of_services only_active [] = refl
  is_err-vips_of_services only_active (svc ∷ svcs) =
      let asked = only_active && is_local svc in
      let first =
        is_err-unless_elsewhere (get_all_vips_for_service nrc svc) asked
          (node_has_endpoints_for_service nrc svc) in
      ground (
        arith,
        first,
        is_err-vips_of_services only_active svcs,
        is_err-gather (get_vips_for_service nrc svc only_active)
            (vips_of_services nrc svcs only_active),
      )

  -- getVIPs fails exactly if it asks for active endpoints and, of one service at least whose traffic
  -- stays on the node, the endpoints cannot be told.
  pub get_vips-is_err :
      (only_active : Bool)
      → is_err (get_vips nrc only_active)
        ≡ any (lacks_endpoints only_active) nrc.caches.list_services
  unfolding get_vips
  get_vips-is_err only_active = ground (
    arith,
    is_err-vips_of_services only_active nrc.caches.list_services,
    is_err-finish_vips (vips_of_services nrc nrc.caches.list_services only_active),
  )

  none-lacks_endpoints : (svcs : List ServiceObject) → any (lacks_endpoints false) svcs ≡ false
  unfolding lacks_endpoints
  none-lacks_endpoints [] = refl
  none-lacks_endpoints (svc ∷ svcs) = none-lacks_endpoints svcs

  pub get_all_vips_ok : is_err (get_all_vips nrc) ≡ false
  unfolding get_all_vips
  get_all_vips_ok = get_vips-is_err false ∙ none-lacks_endpoints nrc.caches.list_services
