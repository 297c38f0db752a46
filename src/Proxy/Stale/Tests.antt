-- ===== src/Proxy/Stale/Tests.antt =====
-- A run of cleanupStaleIPVSConfig on a host in memory
-- (pkg/controllers/proxy/service_endpoints_sync.go).
use kube_router.Prelude.{String, ◌≡◌, refl, some, [], ◌∷◌}
use kube_router.Prelude.Decimal.{itoa}
use kube_router.Dict.{lookup}
use kube_router.Proxy.Linux.{to_svc_proto, IpvsService}
use kube_router.Proxy.Stale.{cleanup_stale_ipvs_config}
use kube_router.Proxy.Stale.Spared.{view-cleanup_stale_ipvs_config}
use kube_router.Proxy.Sync.{ActiveMap}
use kube_router.Proxy.Sample.{World, ln, host, host-IsSpared, standing, none_excluded, controller}

abbrev svc : String → IpvsService
svc ip = record { address = some ip; protocol = 6; port = 80; fw_mark = 0 }

abbrev active : ActiveMap
active = ("10.0.0.1-tcp-80", "10.1.0.1:8080" ∷ []) ∷ []

abbrev world : World
world = svc "10.0.0.1" ∷ svc "10.0.0.9" ∷ []

-- The service that is not active is deleted.
test_deleted :
    (cleanup_stale_ipvs_config ln host 0 none_excluded active (controller world)).1.nsc.world
    ≡ svc "10.0.0.1" ∷ []
unfolding cleanup_stale_ipvs_config to_svc_proto lookup itoa
test_deleted = refl

view-cleanup_stale_ipvs_config_example :
    standing active
      (cleanup_stale_ipvs_config ln host 0 none_excluded active (controller world)).1.nsc.world
    ≡ standing active world
view-cleanup_stale_ipvs_config_example =
    view-cleanup_stale_ipvs_config ln host active none_excluded (standing active)
      (host-IsSpared active) 0 (controller world)
