-- ===== src/Routing/DefinedSets/Tests.antt =====
-- Runs of addServiceVIPsDefinedSet (pkg/controllers/routing/bgp_policies.go).
use kube_router.Prelude.{◌≡◌, ◌==◌, any, if◌then◌else◌}
use kube_router.Exec.{ok}
use kube_router.Routing.Sample.{server, members, server-IsSetStore, empty_world, nrc}
use kube_router.Routing.Vips.Wanted.{may_advertise}
use kube_router.Routing.DefinedSets.{add_service_vips_defined_set}
use kube_router.Routing.DefinedSets.Vips.{members-add_service_vips}

members-add_service_vips_example :
    ((add_service_vips_defined_set server nrc empty_world).0 ≡ ok tt)
    × (members
          (add_service_vips_defined_set server nrc empty_world).1
          "servicevipsdefinedset"
          "10.0.0.2/32"
        ≡ (if "servicevipsdefinedset" == "servicevipsdefinedset"
            then any (may_advertise nrc "10.0.0.2") nrc.caches.list_services
            else members empty_world "servicevipsdefinedset" "10.0.0.2/32"))
members-add_service_vips_example =
    members-add_service_vips server members server-IsSetStore nrc empty_world "10.0.0.2"
      "servicevipsdefinedset"
