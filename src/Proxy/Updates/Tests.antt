-- ===== src/Proxy/Updates/Tests.antt =====
-- Runs of the comparison of endpoints and of the handlers of the proxy (pkg/controllers/proxy/utils.go and
-- network_services_controller.go).
use kube_router.Prelude.{◌≡◌, refl, true, false, [], ◌∷◌, ◌&&◌, ◌||◌, not, all, eqb}
use kube_router.Objects.{cluster_ip_is_none_or_blank, service_is_headless, service_object}
use kube_router.Proxy.Info.{EndpointInfo}
use kube_router.Proxy.Sample.{endpoint}
use kube_router.Proxy.Updates.{Watch, unsorted_lists_equivalent, handle_update, same_info}
use kube_router.Proxy.Updates.Compared.{has_info, times, unsorted_lists_equivalent_lem}
use kube_router.Proxy.Updates.Requested.{Requested, handle_update-Requested}
use kube_router.Routing.Events.{service_added}
use kube_router.Routing.Sample.{caches, web}

abbrev x : EndpointInfo
x = endpoint "10.1.0.1" true

abbrev y : EndpointInfo
y = endpoint "10.1.0.2" false

test_apart : unsorted_lists_equivalent (x ∷ y ∷ []) (y ∷ x ∷ []) ≡ true
unfolding unsorted_lists_equivalent same_info
test_apart = refl

-- How often an endpoint is in each list is not compared.
test_alike : unsorted_lists_equivalent (x ∷ x ∷ y ∷ []) (x ∷ y ∷ y ∷ []) ≡ true
unfolding unsorted_lists_equivalent same_info
test_alike = refl

unsorted_lists_equivalent_lem_example :
    unsorted_lists_equivalent (x ∷ x ∷ y ∷ []) (x ∷ y ∷ y ∷ []) ≡ (
      eqb 3 3
      && (all (λ k. has_info k (x ∷ y ∷ y ∷ [])) (x ∷ x ∷ y ∷ [])
          && all
              (λ k. has_info k (x ∷ x ∷ y ∷ []) || not (eqb (times k (x ∷ y ∷ y ∷ [])) 1))
              (x ∷ y ∷ y ∷ [])))
unsorted_lists_equivalent_lem_example =
    unsorted_lists_equivalent_lem (x ∷ x ∷ y ∷ []) (x ∷ y ∷ y ∷ [])

abbrev idle : Watch
idle = record { ready_for_updates = true; service_map = []; endpoints_map = []; pending = 0 }

test_woken :
    (handle_update
      (λ s. s)
      "node"
      (λ i. 0)
      (λ m n. false)
      caches
      []
      (service_added (service_object web))
      idle).pending
    ≡ 1
unfolding handle_update service_is_headless cluster_ip_is_none_or_blank
test_woken = refl

handle_update-Requested_example :
    Requested
      (λ s. s)
      "node"
      (λ i. 0)
      (λ m n. false)
      caches
      []
      idle
      (handle_update
        (λ s. s)
        "node"
        (λ i. 0)
        (λ m n. false)
        caches
        []
        (service_added (service_object web))
        idle)
handle_update-Requested_example =
    handle_update-Requested (λ s. s) "node" (λ i. 0) (λ m n. false) caches []
      (service_added (service_object web)) idle
