-- ===== src/Objects/Tests.antt =====
-- Runs of the tests on services (pkg/utils/service.go).
use kube_router.Prelude.{◌≡◌, refl, true, false}
use kube_router.Objects.{cluster_ip_is_none}

test_none : cluster_ip_is_none "NonE" ≡ true
unfolding cluster_ip_is_none
test_none = refl

test_address : cluster_ip_is_none "10.0.0.1" ≡ false
unfolding cluster_ip_is_none
test_address = refl
