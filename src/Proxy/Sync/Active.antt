-- ===== src/Proxy/Sync/Active.antt =====
-- What adding the servers of a service leaves in the map of active services.
use mathlib.Core.Path.{subst, subst⁻¹}
use mathlib.Core.List.{append_assoc, append-nil}
use kube_router.Prelude.{
  String, ◌≡◌, refl, ◌∙◌, ap, Bool, Option, none, some, List, [], ◌∷◌, ◌++◌, map, keep, arith,
  if◌then◌else◌, ◌==◌, eq_refl, Bool-cases, inl, inr, if_true,
}
use kube_router.Exec.{Result, ok, err}
use kube_router.Dict.{lookup, lookup-insert}
use kube_router.Proxy.Info.{EndpointInfo}
use kube_router.Proxy.Linux.{IpvsService, Destination, Linux}
use kube_router.Proxy.Sync.{
  ActiveMap, State, listed, append_active, endpoint_id_of, destination_of, record_server,
  add_server, add_servers,
}

abbrev pub ids_of : (EndpointInfo → Bool) → List EndpointInfo → List String
ids_of serves endpoints = map endpoint_id_of (keep serves endpoints)

abbrev listed_in : Option (List String) → List String
listed_in none = []
listed_in (some found) = found

lookup-append_active :
    (id other endpoint_id : String) (m : ActiveMap) (found : List String)
    → lookup id m ≡ some found
    → lookup other (append_active id endpoint_id m)
      ≡ (if id == other then some (found ++ endpoint_id ∷ []) else lookup other m)
unfolding append_active listed
lookup-append_active id other endpoint_id m found h =
    lookup-insert id other (listed id m ++ endpoint_id ∷ []) m
    ∙ ap (λ o. if id == other then some (listed_in o ++ endpoint_id ∷ []) else lookup other m) h

module _ {W : Type 0} (ln : Linux W)
    (takes : (svc : Option IpvsService) (dst : Destination) (w : W)
      → (ln.add_server svc dst w).0 ≡ ok tt) where
  active-record_server :
      (id : String) (endpoint : EndpointInfo) (s : State W) (r : Result (Unit {0})) (w : W)
      → r ≡ ok tt
      → (record_server ln id endpoint s (r, w)).active
        ≡ append_active id (endpoint_id_of endpoint) s.active
  unfolding record_server
  active-record_server id endpoint s (ok added) w h = refl
  active-record_server id endpoint s (err e) w h = absurd cc

  active-add_server :
      (svc : Option IpvsService) (id : String) (endpoint : EndpointInfo) (s : State W)
      → (add_server ln svc id endpoint s).active
        ≡ append_active id (endpoint_id_of endpoint) s.active
  unfolding add_server
  active-add_server svc id endpoint s =
      let r = ln.add_server svc (destination_of endpoint) s.world in
      active-record_server id endpoint s r.0 r.1 (takes svc (destination_of endpoint) s.world)

  module _ (id : String) (base : ActiveMap) where
    -- The entry of the service is as given, and all others are as at the base.
    abbrev pub Holds : List String → ActiveMap → Type 0
    Holds found m =
        (other : String) → lookup other m ≡ (if id == other then some found else lookup other base)

    Holds-append_active :
        (endpoint_id : String) (found : List String) (m : ActiveMap)
        → Holds found m
        → Holds (found ++ endpoint_id ∷ []) (append_active id endpoint_id m)
    Holds-append_active endpoint_id found m h other =
        let own : lookup id m ≡ some found = h id ∙ if_true (id == id) _ _ (eq_refl id) in
        lookup-append_active id other endpoint_id m found own ∙ ground (arith, h other)

    -- Each endpoint that serves is listed behind what was there.
    pub Holds-add_servers :
        (serves : EndpointInfo → Bool) (handle : IpvsService) (endpoints : List EndpointInfo)
        (s : State W) (found : List String)
        → Holds found s.active
        → Holds
            (found ++ ids_of serves endpoints)
            (add_servers ln serves handle id endpoints s).active
    unfolding add_servers
    Holds-add_servers serves handle [] s found h =
        subst⁻¹ (λ l. Holds l s.active) (append-nil found) h
    Holds-add_servers serves handle (endpoint ∷ endpoints) s found h =
        let kept = keep serves endpoints in
        let added = add_server ln (some handle) id endpoint s in
        let at = λ (b : Bool).
          Holds (found ++ map endpoint_id_of (if b then endpoint ∷ kept else kept))
            (add_servers ln serves handle id endpoints (if b then added else s)).active in
        elim (Bool-cases (serves endpoint)) [
          | inl e ↦ subst⁻¹ at e (
              subst (λ l. Holds l (add_servers ln serves handle id endpoints added).active)
                (append_assoc found (endpoint_id_of endpoint ∷ []) (ids_of serves endpoints))
                (Holds-add_servers serves handle endpoints added
                  (found ++ endpoint_id_of endpoint ∷ [])
                  (subst⁻¹ (Holds (found ++ endpoint_id_of endpoint ∷ []))
                    (active-add_server (some handle) id endpoint s)
                    (Holds-append_active (endpoint_id_of endpoint) found s.active h))))
          | inr e ↦ subst⁻¹ at e (Holds-add_servers serves handle endpoints s found h)
        ]
