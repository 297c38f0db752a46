-- ===== src/Routing/Vips/Tests.antt =====
-- Runs of getVIPs (pkg/controllers/routing/ecmp_vip.go).
use kube_router.Prelude.{◌≡◌, refl, true, [], ◌∷◌, ◌&&◌, not, any}
use kube_router.Exec.{ok}
use kube_router.Dict.{lookup}
use kube_router.Objects.{cluster_ip_is_none_or_blank}
use kube_router.Routing.Sample.{nrc}
use kube_router.Routing.Vips.{get_vips}
use kube_router.Routing.Vips.Split.{has}
use kube_router.Routing.Vips.Wanted.{is_vip, wants, get_vips-wanted}
use kube_router.Routing.Vips.Fails.{is_err, lacks_endpoints, get_vips-is_err}

test_vips : get_vips nrc true ≡ ok ("10.0.0.2" ∷ "192.0.2.1" ∷ [], "10.0.0.1" ∷ "198.51.100.1" ∷ [])
unfolding get_vips lookup cluster_ip_is_none_or_blank
test_vips = refl

get_vips-wanted_example :
    (has "192.0.2.1" ("10.0.0.2" ∷ "192.0.2.1" ∷ [])
      ≡ any (wants nrc true "192.0.2.1") nrc.caches.list_services)
    × (has "192.0.2.1" ("10.0.0.1" ∷ "198.51.100.1" ∷ []) ≡ (
        any (is_vip "192.0.2.1") nrc.caches.list_services
        && not (any (wants nrc true "192.0.2.1") nrc.caches.list_services)))
get_vips-wanted_example =
    get_vips-wanted nrc true ("10.0.0.2" ∷ "192.0.2.1" ∷ []) ("10.0.0.1" ∷ "198.51.100.1" ∷ [])
      "192.0.2.1" test_vips

get_vips-is_err_example :
    is_err (get_vips nrc true) ≡ any (lacks_endpoints nrc true) nrc.caches.list_services
get_vips-is_err_example = get_vips-is_err nrc true
