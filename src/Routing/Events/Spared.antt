-- ===== src/Routing/Events/Spared.antt =====
-- What no event takes away (pkg/controllers/routing/ecmp_vip.go).
use kube_router.Prelude.{
  String, ◌≡◌, refl, ◌∙◌, ap, Bool, true, false, Option, none, some, List, any, arith,
  if◌then◌else◌,
}
use kube_router.Exec.{Result, ok, err}
use kube_router.Objects.{
  ServiceObject, Object, service_object, endpoints_object, deleted_final_state_unknown,
  other_object, as_service, service_is_headless, service_for_endpoints,
}
use kube_router.Routing.Bgp.{Server, Nrc}
use kube_router.Routing.Vips.{get_active_vips}
use kube_router.Routing.Vips.Split.{has}
use kube_router.Routing.Vips.Wanted.{wants, get_vips-wanted}
use kube_router.Routing.Policies.{add_policies}
use kube_router.Routing.Events.{
  withdraw_vips, announce, handle_service_update, handle_service_delete, unused,
  try_handle_service_update, try_handle_service_delete, deleted_service, on_service_create,
  on_service_update, on_service_delete, update_found, on_endpoints_update, on_endpoints_add,
  get_external_ips_to_withdraw, Event, service_added, service_updated, service_deleted,
  endpoints_added, endpoints_updated, endpoints_deleted, handle_event,
}
use kube_router.Routing.Events.Withdrawn.{has-unused}
use kube_router.Routing.Events.Rib.{
  IsRib, routes-advertise_vips, routes-withdraw_vips, routes-add_policies,
}

module _ {W : Type 0} (server : Server W) (routes : W → String → Bool) (rib : IsRib server routes)
    (nrc : Nrc) (parse_ip : String → String) (ip : String)
    (wanted : any (wants nrc true ip) nrc.caches.list_services ≡ true) where
  -- The world has a route to the address.
  abbrev Has : W → Type 0
  Has w = routes w ip ≡ true

  Has-if : (b : Bool) (v w : W) → Has v → Has w → Has (if b then v else w)
  Has-if true v w h k = h
  Has-if false v w h k = k

  Has-skip :
      (o : Option ServiceObject) (b : Bool) (w : W) (f : ServiceObject → W)
      → Has w
      → ((svc : ServiceObject) → Has (f svc))
      → Has (elim o [ none ↦ w | some svc ↦ if b then w else f svc ])
  Has-skip none b w f h k = h
  Has-skip (some svc) b w f h k = Has-if b w (f svc) h (k svc)

  -- Neither list to withdraw holds the address.
  not-withdrawn :
      (r : Result (List String × List String)) (vips : List String)
      → get_active_vips nrc ≡ r
      → has ip (unused vips r) ≡ false
  unfolding get_active_vips unused
  not-withdrawn (err e) vips h = refl
  not-withdrawn (ok (advertise, withdraw)) vips h =
      let listed = get_vips-wanted nrc true advertise withdraw ip h in
      has-unused ip vips advertise withdraw ∙ ground (arith, listed.0, wanted)

  has-withdraw_vips :
      (vips : List String) (w : W)
      → has ip vips ≡ false
      → Has w
      → Has (withdraw_vips server nrc parse_ip vips w)
  has-withdraw_vips vips w h k = routes-withdraw_vips server routes rib nrc parse_ip vips w ip h ∙ k

  Has-add_policies : (w : W) → Has w → Has (add_policies server nrc parse_ip w).1
  Has-add_policies w h = ap (λ f. f ip) (routes-add_policies server routes rib nrc parse_ip w) ∙ h

  Has-announce :
      (r : Result (List String × List String)) (w : W)
      → get_active_vips nrc ≡ r
      → Has w
      → Has (announce server nrc parse_ip r w)
  unfolding announce get_active_vips
  Has-announce (err e) w h k = k
  Has-announce (ok (advertise, withdraw)) w h k =
      let listed = get_vips-wanted nrc true advertise withdraw ip h in
      has-withdraw_vips withdraw _ (ground (arith, listed.1, wanted))
        (routes-advertise_vips server routes rib nrc parse_ip advertise _ ip (Has-add_policies w k))

  Has-handle_service_update : (w : W) → Has w → Has (handle_service_update server nrc parse_ip w)
  unfolding handle_service_update
  Has-handle_service_update w h = Has-if _ w _ h (Has-announce (get_active_vips nrc) w refl h)

  Has-handle_service_delete :
      (svc : ServiceObject) (w : W) → Has w → Has (handle_service_delete server nrc parse_ip svc w)
  unfolding handle_service_delete
  Has-handle_service_delete svc w h =
      Has-if _ w _ h
        (has-withdraw_vips _ _ (not-withdrawn (get_active_vips nrc) _ refl) (Has-add_policies w h))

  Has-try_update :
      (obj : Object) (w : W) → Has w → Has (try_handle_service_update server nrc parse_ip obj w)
  unfolding try_handle_service_update
  Has-try_update obj w h =
      Has-skip (as_service obj) (service_is_headless obj) w _ h
        (λ svc. Has-handle_service_update w h)

  Has-try_delete :
      (obj : Object) (w : W) → Has w → Has (try_handle_service_delete server nrc parse_ip obj w)
  unfolding try_handle_service_delete
  Has-try_delete obj w h =
      Has-skip (deleted_service obj) (service_is_headless obj) w
        (λ svc. handle_service_delete server nrc parse_ip svc w) h
        (λ svc. Has-handle_service_delete svc w h)

  Has-update_found :
      (found : Result (Option Object)) (w : W)
      → Has w
      → Has (update_found server nrc parse_ip found w)
  unfolding update_found
  Has-update_found (err e) w h = h
  Has-update_found (ok none) w h = h
  Has-update_found (ok (some obj)) w h = Has-try_update obj w h

  Has-endpoints_update :
      (obj : Object) (w : W) → Has w → Has (on_endpoints_update server nrc parse_ip obj w)
  unfolding on_endpoints_update
  Has-endpoints_update (endpoints_object ep) w h =
      Has-if _ w _ h (Has-if _ w _ h (Has-update_found (service_for_endpoints nrc.caches ep) w h))
  Has-endpoints_update (service_object svc) w h = h
  Has-endpoints_update (deleted_final_state_unknown obj) w h = h
  Has-endpoints_update other_object w h = h

  -- As long as some service wants an address advertised, no event takes away the route to it, whatever the
  -- calls of the server answer, whether the server runs, and whether the active VIPs can be told.
  pub routes-handle_event :
      (event : Event) (w : W)
      → routes w ip ≡ true
      → routes (handle_event server nrc parse_ip event w) ip ≡ true
  unfolding handle_event on_service_create on_service_update on_service_delete on_endpoints_add
      get_external_ips_to_withdraw
  routes-handle_event (service_added obj) w h = Has-try_update obj w h
  routes-handle_event (service_updated obj_old obj_new) w h =
      has-withdraw_vips _ _ (not-withdrawn (get_active_vips nrc) _ refl)
        (Has-try_update obj_new w h)
  routes-handle_event (service_deleted obj) w h = Has-try_delete obj w h
  routes-handle_event (endpoints_added obj) w h = Has-if _ w _ h (Has-endpoints_update obj w h)
  routes-handle_event (endpoints_updated obj_old obj_new) w h = Has-endpoints_update obj_new w h
  routes-handle_event (endpoints_deleted obj) w h = h
