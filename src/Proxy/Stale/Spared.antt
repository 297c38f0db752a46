-- ===== src/Proxy/Stale/Spared.antt =====
-- What cleanupStaleIPVSConfig leaves alone (pkg/controllers/proxy/service_endpoints_sync.go).
use kube_router.Prelude.{
  String, ℕ, ◌≡◌, refl, ◌∙◌, ap, Bool, true, false, Option, none, some, List, [], ◌∷◌, not, eqb,
  if◌then◌else◌, Bool-cases, inl, inr, arith, if_true, if_false,
}
use kube_router.Prelude.Decimal.{itoa}
use kube_router.Exec.{Result, ok, err}
use kube_router.Dict.{lookup}
use kube_router.Proxy.Graceful.{
  Nsc, Host, Service, Destination, Request, add_to_graceful_queue, flush_if_udp, finish,
  ipvs_delete_destination,
}
use kube_router.Proxy.Linux.{IpvsService, Linux}
use kube_router.Proxy.Sync.{ActiveMap}
use kube_router.Proxy.Stale.{
  key_of, graceful_service, valid_endpoint, Controller, after_rule, clean_rules, clean_found,
  cleanup_dsr_service, delete_stale, delete_invalid, dsts_of, clean_service, clean_by_key,
  clean_services, clean_config, cleanup_stale_ipvs_config, rules_of,
}

-- The service is one that IPVS should not have: it has a key, which is not active, and it is not excluded.
unfoldable pub is_stale : ActiveMap → (Option String → Bool) → IpvsService → Bool
is_stale m excluded svc = elim (key_of svc) [
  | none ↦ false
  | some key ↦ elim (lookup key m) [ none ↦ not (excluded svc.address) | some ids ↦ false ]
]

-- The destination is none of those that the active service has.
unfoldable pub is_invalid : ActiveMap → IpvsService → Destination → Bool
is_invalid m svc dst = elim (key_of svc) [
  | none ↦ false
  | some key ↦ elim (lookup key m) [ none ↦ false | some ids ↦ not (valid_endpoint ids dst) ]
]

-- A view of the host that only the calls on what is not stale could change.
pub record IsSpared {W A : Type 0} (ln : Linux W) (host : Host W) (m : ActiveMap)
    (excluded : Option String → Bool) (view : W → A) : Type 0 where
  pub del_service :
      (svc : IpvsService) (w : W)
      → is_stale m excluded svc ≡ true
      → view (ln.del_service svc w).1 ≡ view w
  pub del_destination :
      (svc : IpvsService) (dst : Destination) (w : W)
      → is_invalid m svc dst ≡ true
      → view (host.del_destination (graceful_service svc) dst w).1 ≡ view w
  pub update_destination :
      (svc : IpvsService) (dst : Destination) (w : W)
      → is_invalid m svc dst ≡ true
      → view (host.update_destination (graceful_service svc) (record dst { weight = 0 }) w).1
        ≡ view w
  pub flush_conntrack_udp :
      (svc : Service) (w : W) → view (host.flush_conntrack_udp svc w).1 ≡ view w
  pub cleanup_mangle_table_rule :
      (ip protocol port mark : String) (w : W)
      → view (ln.cleanup_mangle_table_rule ip protocol port mark w).1 ≡ view w

module _ {W A : Type 0} (ln : Linux W) (host : Host W) (m : ActiveMap)
    (excluded : Option String → Bool) (view : W → A) (spared : IsSpared ln host m excluded view)
    (now : ℕ) where
  world_if :
      (b : Bool) (x y : Nsc W) (a : A)
      → view x.world ≡ a
      → view y.world ≡ a
      → view (if b then x else y).world ≡ a
  world_if true x y a h k = h
  world_if false x y a h k = k

  view-add_to_graceful_queue :
      (req : Request) (nsc : Nsc W)
      → view (add_to_graceful_queue host req nsc).world ≡ view nsc.world
  unfolding add_to_graceful_queue
  view-add_to_graceful_queue req nsc = world_if _ nsc _ _ refl refl

  view-finish :
      (svc : Service) (then_do : Nsc W → Nsc W) (r : Result (Unit {0})) (nsc : Nsc W)
      → ((n : Nsc W) → view (then_do n).world ≡ view n.world)
      → view (finish host svc then_do r nsc).1.world ≡ view nsc.world
  unfolding finish flush_if_udp
  view-finish svc then_do (err e) nsc h = refl
  view-finish svc then_do (ok done) nsc h =
      world_if _ _ (then_do nsc) _ (spared.flush_conntrack_udp svc (then_do nsc).world ∙ h nsc)
        (h nsc)

  view_pair :
      (b : Bool) (x y : Result (Unit {0}) × Nsc W) (a : A)
      → view x.1.world ≡ a
      → view y.1.world ≡ a
      → view (if b then x else y).1.world ≡ a
  view_pair true x y a h k = h
  view_pair false x y a h k = k

  view-ipvs_delete_destination :
      (svc : IpvsService) (dst : Destination) (nsc : Nsc W)
      → is_invalid m svc dst ≡ true
      → view (ipvs_delete_destination host now (graceful_service svc) dst nsc).1.world
        ≡ view nsc.world
  unfolding ipvs_delete_destination
  view-ipvs_delete_destination svc dst nsc h =
      let g = graceful_service svc in
      let dst0 : Destination = record dst { weight = 0 } in
      let req : Request = record { svc = g; dst = dst0; deletion_time = now; period = 0 } in
      let r = host.update_destination g dst0 nsc.world in
      let q = host.del_destination g dst nsc.world in
      view_pair nsc.graceful_termination
        (finish host g (add_to_graceful_queue host req) r.0 (record nsc { world = r.1 }))
        (finish host g (λ n. n) q.0 (record nsc { world = q.1 })) (view nsc.world)
        (view-finish g (add_to_graceful_queue host req) r.0 (record nsc { world = r.1 })
            (view-add_to_graceful_queue req)
          ∙ spared.update_destination svc dst nsc.world h)
        (view-finish g (λ n. n) q.0 (record nsc { world = q.1 }) (λ n. refl)
          ∙ spared.del_destination svc dst nsc.world h)

  -- The view of a controller's host.
  abbrev shown : Controller W → A
  shown c = view c.nsc.world

  shown_if :
      (b : Bool) (x y : Controller W) (a : A)
      → shown x ≡ a
      → shown y ≡ a
      → shown (if b then x else y) ≡ a
  shown_if true x y a h k = h
  shown_if false x y a h k = k

  view-after_rule :
      (next : W → W) (r : Result (Unit {0}) × W)
      → ((w : W) → view (next w) ≡ view w)
      → view (after_rule ln next r) ≡ view r.1
  unfolding after_rule
  view-after_rule next (err e, w) h = h w
  view-after_rule next (ok removed, w) h = refl

  view_either :
      (b : Bool) (x y : W) (a : A) → view x ≡ a → view y ≡ a → view (if b then x else y) ≡ a
  view_either true x y a h k = h
  view_either false x y a h k = k

  view-clean_rules :
      (ip protocol : String) (port mark : ℕ) (rules : List String) (w : W)
      → view (clean_rules ln ip protocol port mark rules w) ≡ view w
  unfolding clean_rules
  view-clean_rules ip protocol port mark [] w = refl
  view-clean_rules ip protocol port mark (rule ∷ rules) w =
      view_either _
        (after_rule ln (clean_rules ln ip protocol port mark rules)
          (ln.cleanup_mangle_table_rule ip protocol (itoa port) (itoa mark) w))
        (clean_rules ln ip protocol port mark rules w) (view w)
        (view-after_rule (clean_rules ln ip protocol port mark rules) _
            (view-clean_rules ip protocol port mark rules)
          ∙ spared.cleanup_mangle_table_rule ip protocol (itoa port) (itoa mark) w)
        (view-clean_rules ip protocol port mark rules w)

  shown-clean_found :
      (mark : ℕ) (found : Result (String × String × ℕ)) (c : Controller W)
      → shown (clean_found ln mark found c).1 ≡ shown c
  unfolding clean_found
  shown-clean_found mark (err e) c = refl
  shown-clean_found mark (ok (ip, protocol, port)) c =
      view-clean_rules ip protocol port mark (rules_of (ln.save_mangle c.nsc.world)) c.nsc.world

  shown-delete_stale :
      (svc : IpvsService) (c : Controller W)
      → is_stale m excluded svc ≡ true
      → shown (delete_stale ln host now excluded svc c) ≡ shown c
  unfolding delete_stale cleanup_dsr_service
  shown-delete_stale svc c h =
      spared.del_service svc _ h
      ∙ shown_if (eqb svc.fw_mark 0) c (cleanup_dsr_service ln svc.fw_mark c).1 (shown c) refl
          (shown-clean_found svc.fw_mark _ c)

  shown-delete_invalid :
      (svc : IpvsService) (ids : List String) (dsts : List Destination) (c : Controller W)
      → ((dst : Destination) → valid_endpoint ids dst ≡ false → is_invalid m svc dst ≡ true)
      → shown (delete_invalid ln host now excluded svc ids dsts c) ≡ shown c
  unfolding delete_invalid
  shown-delete_invalid svc ids [] c h = refl
  shown-delete_invalid svc ids (dst ∷ dsts) c h =
      let removed = (ipvs_delete_destination host now (graceful_service svc) dst c.nsc).1 in
      shown-delete_invalid svc ids dsts _ h ∙ elim (Bool-cases (valid_endpoint ids dst)) [
        | inl e ↦ ap shown (if_true (valid_endpoint ids dst) c (record c { nsc = removed }) e)
        | inr e ↦
            ap shown (if_false (valid_endpoint ids dst) c (record c { nsc = removed }) e)
            ∙ view-ipvs_delete_destination svc dst c.nsc (h dst e)
      ]

  shown-clean_service :
      (svc : IpvsService) (key : String) (found : Option (List String)) (c : Controller W)
      → key_of svc ≡ some key
      → lookup key m ≡ found
      → shown (clean_service ln host now excluded svc found c) ≡ shown c
  unfolding clean_service is_stale is_invalid
  shown-clean_service svc key none c hk hf = elim (Bool-cases (excluded svc.address)) [
    | inl e ↦ ap shown (if_true (excluded svc.address) c _ e)
    | inr e ↦
        ap shown (if_false (excluded svc.address) c _ e)
        ∙ shown-delete_stale svc c (ground (arith, hk, hf, e))
  ]
  shown-clean_service svc key (some ids) c hk hf =
      shown-delete_invalid svc ids
        (dsts_of (host.get_destinations (graceful_service svc) c.nsc.world)) c
        (λ dst e. ground (arith, hk, hf, e))

  shown-clean_by_key :
      (svc : IpvsService) (key : Option String) (c : Controller W)
      → key_of svc ≡ key
      → shown (clean_by_key ln host now excluded m svc key c) ≡ shown c
  unfolding clean_by_key
  shown-clean_by_key svc none c h = refl
  shown-clean_by_key svc (some key) c h = shown-clean_service svc key (lookup key m) c h refl

  shown-clean_services :
      (svcs : List IpvsService) (c : Controller W)
      → shown (clean_services ln host now excluded m svcs c) ≡ shown c
  unfolding clean_services
  shown-clean_services [] c = refl
  shown-clean_services (svc ∷ svcs) c =
      shown-clean_services svcs _ ∙ shown-clean_by_key svc (key_of svc) c refl

  shown-clean_config :
      (found : Result (List IpvsService)) (c : Controller W)
      → shown (clean_config ln host now excluded m found c).1 ≡ shown c
  unfolding clean_config
  shown-clean_config (err e) c = refl
  shown-clean_config (ok svcs) c = shown-clean_services svcs c

  -- The clean-up of IPVS deletes no service that is active, excluded or without a key, and no destination
  -- that is active: whatever of the host only the deletion of others could change stays as it is, whatever
  -- the calls answer.
  pub view-cleanup_stale_ipvs_config :
      (c : Controller W)
      → view (cleanup_stale_ipvs_config ln host now excluded m c).1.nsc.world ≡ view c.nsc.world
  unfolding cleanup_stale_ipvs_config
  view-cleanup_stale_ipvs_config c = shown-clean_config (ln.get_services c.nsc.world) c
