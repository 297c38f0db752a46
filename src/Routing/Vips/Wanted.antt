-- ===== src/Routing/Vips/Wanted.antt =====
-- Which VIPs getVIPs lists (pkg/controllers/routing/ecmp_vip.go), against a description by service.
use kube_router.Prelude.{
  String, ◌≡◌, refl, Bool, true, false, List, [], ◌∷◌, ◌++◌, ◌&&◌, ◌||◌, not, any, any-append,
  if◌then◌else◌, ◌==◌, arith, ◌∙◌,
}
use kube_router.Exec.{Result, ok, err}
use kube_router.Objects.{ServiceObject, annotated}
use kube_router.Routing.Bgp.{Nrc}
use kube_router.Routing.Vips.{
  should_advertise_service, one_unless_blank, get_cluster_ip, get_external_ips,
  get_load_balancer_ips, svc_advertise_cluster_annotation, svc_advertise_external_annotation,
  svc_advertise_load_balancer_annotation, svc_skip_lb_ips_annotation, is_local, put,
  get_all_vips_for_service, node_has_endpoints_for_service, unless_elsewhere, get_vips_for_service,
  gather, vips_of_services, final_withdraw, finish_vips, get_vips,
}
use kube_router.Routing.Vips.Split.{has, has-put, has-final_withdraw}

pub is_err : {A : Type 0} → Result A → Bool
is_err (ok a) = false
is_err (err e) = true

-- The address is one of the service's, of any kind.
unfoldable pub is_vip : String → ServiceObject → Bool
is_vip ip svc =
    has ip (one_unless_blank (get_cluster_ip svc))
    || (has ip (get_external_ips svc) || has ip (get_load_balancer_ips svc))

has-puts :
    (ip : String) (c x l : Bool) (cs es ls : List String)
    → let lists = put l ls (put x es (put c cs ([], []))) in
      (has ip lists.0 ≡ ((c && has ip cs) || ((x && has ip es) || (l && has ip ls))))
      × ((has ip lists.0 || has ip lists.1) ≡ (has ip cs || (has ip es || has ip ls)))
has-puts ip c x l cs es ls =
    let first = has-put ip c cs ([], []) in
    let second = has-put ip x es (put c cs ([], [])) in
    let third = has-put ip l ls (put x es (put c cs ([], []))) in
    (
      ground (arith, first.0, second.0, third.0),
      ground (arith, first.0, second.0, third.0, first.1, second.1, third.1),
    )

module _ (nrc : Nrc) where
  -- The address is one of the service's, of a kind that the annotations or the settings let through.
  unfoldable pub may_advertise : String → ServiceObject → Bool
  may_advertise ip svc =
      (should_advertise_service svc svc_advertise_cluster_annotation nrc.advertise_cluster_ip
        && has ip (one_unless_blank (get_cluster_ip svc)))
      || ((should_advertise_service svc svc_advertise_external_annotation nrc.advertise_external_ip
            && has ip (get_external_ips svc))
          || ((should_advertise_service svc svc_advertise_load_balancer_annotation
                  nrc.advertise_load_balancer_ip
                && not (annotated svc_skip_lb_ips_annotation svc.annotations))
              && has ip (get_load_balancer_ips svc)))

  -- The node has no endpoint of a service whose traffic stays on the node.
  unfoldable pub is_elsewhere : ServiceObject → Bool
  is_elsewhere svc = is_local svc && elim (node_has_endpoints_for_service nrc svc) [
    | ok true ↦ false
    | ok false ↦ true
    | err e ↦ true
  ]

  -- The service wants the address advertised by this node.
  unfoldable pub wants : Bool → String → ServiceObject → Bool
  unfolding may_advertise is_elsewhere
  wants only_active ip svc = not (only_active && is_elsewhere svc) && may_advertise ip svc

  has-all_vips :
      (ip : String) (svc : ServiceObject)
      → let lists = get_all_vips_for_service nrc svc in
        (has ip lists.0 ≡ may_advertise ip svc)
        × ((has ip lists.0 || has ip lists.1) ≡ is_vip ip svc)
  unfolding get_all_vips_for_service may_advertise is_vip
  has-all_vips ip svc =
      has-puts ip
        (should_advertise_service svc svc_advertise_cluster_annotation nrc.advertise_cluster_ip)
        (should_advertise_service svc svc_advertise_external_annotation nrc.advertise_external_ip)
        (should_advertise_service svc svc_advertise_load_balancer_annotation
            nrc.advertise_load_balancer_ip
          && not (annotated svc_skip_lb_ips_annotation svc.annotations))
        (one_unless_blank (get_cluster_ip svc)) (get_external_ips svc) (get_load_balancer_ips svc)

  gather-ok :
      (r s : Result (List String × List String)) (lists : List String × List String)
      → gather r s ≡ ok lists
      → (vips : List String × List String) × (more : List String × List String) × (r ≡ ok vips)
        × (s ≡ ok more)
        × (lists ≡ (vips.0 ++ more.0, vips.1 ++ more.1))
  unfolding gather
  gather-ok (err e) s lists h = absurd cc
  gather-ok (ok vips) (err e) lists h = absurd cc
  gather-ok (ok vips) (ok more) lists h = (vips, more, refl, refl, cc)

  finish_vips-ok :
      (r : Result (List String × List String)) (lists : List String × List String)
      → finish_vips r ≡ ok lists
      → (vips : List String × List String) × (r ≡ ok vips)
        × (lists ≡ (vips.0, final_withdraw vips.0 vips.1))
  unfolding finish_vips
  finish_vips-ok (err e) lists h = absurd cc
  finish_vips-ok (ok vips) lists h = (vips, refl, cc)

  serves-cases :
      (only_active local : Bool) (r : Result Bool)
      → elim (if only_active && local then r else ok true) [ ok b ↦ b | err e ↦ false ]
        ≡ not
            (only_active && (local && elim r [ ok true ↦ false | ok false ↦ true | err e ↦ true ]))
  serves-cases false local r = refl
  serves-cases true false r = refl
  serves-cases true true (ok true) = refl
  serves-cases true true (ok false) = refl
  serves-cases true true (err e) = refl

  has-unless_elsewhere :
      (ip : String) (vips lists : List String × List String) (r : Result Bool)
      → unless_elsewhere vips r ≡ ok lists
      → (has ip lists.0 ≡ (elim r [ ok b ↦ b | err e ↦ false ] && has ip vips.0))
        × ((has ip lists.0 || has ip lists.1) ≡ (has ip vips.0 || has ip vips.1))
  unfolding unless_elsewhere
  has-unless_elsewhere ip vips lists (ok true) h = (cc, cc)
  has-unless_elsewhere ip vips lists (ok false) h =
      let joined = any-append (λ x. x == ip) vips.0 vips.1 in (cc, ground (arith, joined))
  has-unless_elsewhere ip vips lists (err e) h = absurd cc

  has-vips_for_service :
      (ip : String) (svc : ServiceObject) (only_active : Bool) (lists : List String × List String)
      → get_vips_for_service nrc svc only_active ≡ ok lists
      → (has ip lists.0 ≡ wants only_active ip svc)
        × ((has ip lists.0 || has ip lists.1) ≡ is_vip ip svc)
  unfolding get_vips_for_service wants is_elsewhere
  has-vips_for_service ip svc only_active lists h =
      let all_vips = has-all_vips ip svc in
      let split =
        has-unless_elsewhere ip (get_all_vips_for_service nrc svc) lists
          (if only_active && is_local svc then node_has_endpoints_for_service nrc svc else ok true)
          h in
      (
        ground (
          arith,
          split.0,
          all_vips.0,
          serves-cases only_active (is_local svc) (node_has_endpoints_for_service nrc svc),
        ),
        split.1 ∙ all_vips.1,
      )

  has-vips_of_services :
      (ip : String) (svcs : List ServiceObject) (only_active : Bool)
      (lists : List String × List String)
      → vips_of_services nrc svcs only_active ≡ ok lists
      → (has ip lists.0 ≡ any (wants only_active ip) svcs)
        × ((has ip lists.0 || has ip lists.1) ≡ any (is_vip ip) svcs)
  unfolding vips_of_services
  has-vips_of_services ip [] only_active lists h = (cc, cc)
  has-vips_of_services ip (svc ∷ svcs) only_active lists h =
      let (vips, more, hv, hm, e) =
        gather-ok (get_vips_for_service nrc svc only_active) (vips_of_services nrc svcs only_active)
          lists h in
      let first = has-vips_for_service ip svc only_active vips hv in
      let later = has-vips_of_services ip svcs only_active more hm in
      let here = any-append (λ x. x == ip) vips.0 more.0 in
      let there = any-append (λ x. x == ip) vips.1 more.1 in
      (ground (arith, here, first.0, later.0, e), ground (arith, here, there, first.1, later.1, e))

  -- If getVIPs does not fail, an address is advertised exactly if some service wants it, and withdrawn
  -- exactly if it is an address of some service and none wants it.
  pub get_vips-wanted :
      (only_active : Bool) (advertise withdraw : List String) (ip : String)
      → get_vips nrc only_active ≡ ok (advertise, withdraw)
      → let svcs = nrc.caches.list_services in
        (has ip advertise ≡ any (wants only_active ip) svcs)
        × (has ip withdraw ≡ (any (is_vip ip) svcs && not (any (wants only_active ip) svcs)))
  unfolding get_vips finish_vips
  get_vips-wanted only_active advertise withdraw ip h =
      let (vips, hv, e) =
        finish_vips-ok (vips_of_services nrc nrc.caches.list_services only_active)
          (advertise, withdraw) h in
      let listed = has-vips_of_services ip nrc.caches.list_services only_active vips hv in
      let kept = has-final_withdraw ip vips.0 vips.1 in
      (ground (arith, listed.0, e), ground (arith, listed.0, listed.1, kept, e))

  -- What a service wants advertised is one of its addresses.
  pub wanted-is_vip :
      (only_active : Bool) (advertise withdraw : List String) (ip : String)
      → get_vips nrc only_active ≡ ok (advertise, withdraw)
      → any (wants only_active ip) nrc.caches.list_services ≡ true
      → any (is_vip ip) nrc.caches.list_services ≡ true
  unfolding get_vips
  wanted-is_vip only_active advertise withdraw ip h wanted =
      let (vips, hv, e) =
        finish_vips-ok (vips_of_services nrc nrc.caches.list_services only_active)
          (advertise, withdraw) h in
      let listed = has-vips_of_services ip nrc.caches.list_services only_active vips hv in
      ground (arith, listed.0, listed.1)

  pub has-all_vips_joined :
      (ip : String) (svc : ServiceObject)
      → has ip ((get_all_vips_for_service nrc svc).0 ++ (get_all_vips_for_service nrc svc).1)
        ≡ is_vip ip svc
  has-all_vips_joined ip svc =
      any-append (λ x. x == ip) (get_all_vips_for_service nrc svc).0
        (get_all_vips_for_service nrc svc).1
      ∙ (has-all_vips ip svc).1
