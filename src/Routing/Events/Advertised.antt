-- ===== src/Routing/Events/Advertised.antt =====
-- Which VIPs are advertised after a service or its endpoints have changed, and after a service is deleted
-- (pkg/controllers/routing/ecmp_vip.go).
use kube_router.Prelude.{
  String, ◌≡◌, ◌∙◌, ap, Bool, true, List, ◌++◌, ◌&&◌, ◌||◌, not, any, arith, if_false,
  if◌then◌else◌,
}
use kube_router.Exec.{ok}
use kube_router.Objects.{ServiceObject}
use kube_router.Routing.Bgp.{Server, Nrc}
use kube_router.Routing.Vips.{get_active_vips, get_all_vips_for_service}
use kube_router.Routing.Vips.Split.{has}
use kube_router.Routing.Vips.Wanted.{
  is_vip, wants, get_vips-wanted, wanted-is_vip, has-all_vips_joined,
}
use kube_router.Routing.Policies.{add_policies}
use kube_router.Routing.Events.{
  advertise_vips, withdraw_vips, announce, handle_service_update, handle_service_delete, unused,
}
use kube_router.Routing.Events.Withdrawn.{has-unused}
use kube_router.Routing.Events.Rib.{
  IsRib, Accepts, all-advertise_vips, all-withdraw_vips, routes-add_policies,
}

three :
    {r r' u v a a' v' : Bool}
    → r' ≡ r
    → u ≡ (v && not a)
    → v ≡ v'
    → a ≡ a'
    → (r' && not u) ≡ (r && not (v' && not a'))
three p q s t = cc

module _ {W : Type 0} (server : Server W) (routes : W → String → Bool) (rib : IsRib server routes)
    (nrc : Nrc) (parse_ip : String → String) where
  -- The path of the address stands in the table behind AddPolicies exactly if it stood before.
  route-add_policies :
      (w : W) (ip : String) → routes (add_policies server nrc parse_ip w).1 ip ≡ routes w ip
  route-add_policies w ip = ap (λ f. f ip) (routes-add_policies server routes rib nrc parse_ip w)

  routes-announce :
      Accepts server
      → (advertise withdraw : List String) (w : W) (ip : String)
      → routes (announce server nrc parse_ip (ok (advertise, withdraw)) w) ip
        ≡ ((routes w ip || has ip advertise) && not (has ip withdraw))
  unfolding announce
  routes-announce accepts advertise withdraw w ip =
      let w' = (add_policies server nrc parse_ip w).1 in
      let w'' = advertise_vips server nrc parse_ip advertise w' in
      ground (
        arith,
        all-withdraw_vips server routes rib nrc parse_ip accepts withdraw w'' ip,
        all-advertise_vips server routes rib nrc parse_ip accepts advertise w' ip,
        route-add_policies w ip,
      )

  -- Once the BGP server runs and takes the calls, and if the active VIPs can be told, a change of a service
  -- or of its endpoints brings the routes up to date: every address of a service is advertised exactly if
  -- a service wants it, and no other route changes.
  pub routes-handle_service_update :
      (advertise withdraw : List String) (w : W) (ip : String)
      → Accepts server
      → nrc.bgp_server_started ≡ true
      → get_active_vips nrc ≡ ok (advertise, withdraw)
      → routes (handle_service_update server nrc parse_ip w) ip ≡ (
          if any (is_vip ip) nrc.caches.list_services
          then any (wants nrc true ip) nrc.caches.list_services
          else routes w ip)
  unfolding handle_service_update get_active_vips
  routes-handle_service_update advertise withdraw w ip accepts started h =
      let wanted = get_vips-wanted nrc true advertise withdraw ip h in
      let announced = routes-announce accepts advertise withdraw w ip in
      rw (started, h)
        (ground
          (arith, announced, wanted.0, wanted.1, wanted-is_vip nrc true advertise withdraw ip h))

  routes-withdraw_unused :
      (svc : ServiceObject) (advertise withdraw : List String) (w : W) (ip : String)
      → Accepts server
      → get_active_vips nrc ≡ ok (advertise, withdraw)
      → let vips = (get_all_vips_for_service nrc svc).0 ++ (get_all_vips_for_service nrc svc).1 in
        routes
          (withdraw_vips server nrc parse_ip
            (unused vips (ok (advertise, withdraw)))
            (add_policies server nrc parse_ip w).1)
          ip
        ≡ (routes w ip
            && not (is_vip ip svc && not (any (wants nrc true ip) nrc.caches.list_services)))
  unfolding get_active_vips
  routes-withdraw_unused svc advertise withdraw w ip accepts h =
      let vips = (get_all_vips_for_service nrc svc).0 ++ (get_all_vips_for_service nrc svc).1 in
      let wanted = get_vips-wanted nrc true advertise withdraw ip h in
      all-withdraw_vips server routes rib nrc parse_ip accepts
        (unused vips (ok (advertise, withdraw))) (add_policies server nrc parse_ip w).1 ip
      ∙ three (route-add_policies w ip) (has-unused ip vips advertise withdraw)
          (has-all_vips_joined nrc ip svc) wanted.0

  -- Once the BGP server runs and takes the calls, and if the active VIPs can be told, the deletion of a
  -- service takes away exactly the routes to its addresses that no service wants.
  pub routes-handle_service_delete :
      (svc : ServiceObject) (advertise withdraw : List String) (w : W) (ip : String)
      → Accepts server
      → nrc.bgp_server_started ≡ true
      → get_active_vips nrc ≡ ok (advertise, withdraw)
      → routes (handle_service_delete server nrc parse_ip svc w) ip ≡ (
          routes w ip
          && not (is_vip ip svc && not (any (wants nrc true ip) nrc.caches.list_services)))
  unfolding handle_service_delete get_active_vips
  routes-handle_service_delete svc advertise withdraw w ip accepts started h =
      let vips = (get_all_vips_for_service nrc svc).0 ++ (get_all_vips_for_service nrc svc).1 in
      let w' = (add_policies server nrc parse_ip w).1 in
      ap (λ v. routes v ip) (if_false (not nrc.bgp_server_started) w _ (ap not started))
      ∙ ap (λ r. routes (withdraw_vips server nrc parse_ip (unused vips r) w') ip) h
      ∙ routes-withdraw_unused svc advertise withdraw w ip accepts h
