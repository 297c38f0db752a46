-- ===== src/Routing/RouteSync/Tests.antt =====
-- Routes are a destination and a gateway; the kernel is a table, and refuses one destination.
use kube_router.Prelude.{
  String, ◌≡◌, refl, Option, none, some, List, [], ◌∷◌, if◌then◌else◌, ◌==◌, eq_refl, arith,
  Bool-cases, inl, inr,
}
use kube_router.Exec.{Result, ok, err}
use kube_router.Dict.{lookup, insert, lookup-insert}
use kube_router.Routing.RouteSync.{sync_local_route_table}
use kube_router.Routing.RouteSync.Wanted.{Call, add, del, sync, wanted, calls}
use kube_router.Routing.RouteSync.Installed.{Replaces, Own, shows-calls}

abbrev Route : Type 0
Route = String × String

abbrev Kernel : Type 0
Kernel = List (String × Route)

abbrev replacer : Route → Kernel → Result (Unit {0}) × Kernel
replacer route w =
    if route.0 == "10.9.0.0/16" then (err "no such device", w) else (ok tt, insert route.0 route w)

abbrev dst_of : Route → String
dst_of route = route.0

abbrev shows : Kernel → String → Option Route
shows w dst = lookup dst w

replacer-Replaces : Replaces replacer dst_of shows
replacer-Replaces = record {
  installs = λ route w h. elim (Bool-cases (route.0 == "10.9.0.0/16")) [
    | inl e ↦ ground arith
    | inr e ↦ rw e (rw lookup-insert (rw eq_refl refl))
  ];
  keeps = λ route w dst d. elim (Bool-cases (route.0 == "10.9.0.0/16")) [
    | inl e ↦ rw e refl
    | inr e ↦ rw e (rw lookup-insert (rw d refl))
  ];
}

abbrev good_route : Route
good_route = ("10.1.0.0/16", "172.16.0.2")

abbrev bad_route : Route
bad_route = ("10.9.0.0/16", "172.16.0.9")

abbrev some_calls : List (Call Route)
some_calls =
    add "10.9.0.0/16" bad_route
    ∷ add "10.2.0.0/16" ("10.2.0.0/16", "172.16.0.3")
    ∷ add "10.1.0.0/16" good_route
    ∷ sync
    ∷ del "10.2.0.0/16"
    ∷ []

some_calls-Own : Own replacer dst_of some_calls
some_calls-Own = (refl, (refl, (refl, tt)))

shows-calls_example :
    let st = calls replacer some_calls ([], []) in
    let synced = sync_local_route_table replacer st.0 st.1 in
    ((route : Route)
      → wanted some_calls "10.1.0.0/16" none ≡ some route
      → ((w' : Kernel) → (replacer route w').0 ≡ ok tt)
      → shows synced "10.1.0.0/16" ≡ some route)
    × (wanted some_calls "10.1.0.0/16" none ≡ none
        → shows synced "10.1.0.0/16" ≡ shows st.1 "10.1.0.0/16")
shows-calls_example =
    shows-calls replacer dst_of shows replacer-Replaces some_calls [] "10.1.0.0/16" some_calls-Own

-- The hypotheses hold of the route that is wanted.
good_wanted : wanted some_calls "10.1.0.0/16" none ≡ some good_route
good_wanted = refl

good_installed :
    let st = calls replacer some_calls ([], []) in
    shows (sync_local_route_table replacer st.0 st.1) "10.1.0.0/16" ≡ some good_route
good_installed = shows-calls_example.0 good_route good_wanted (λ w'. refl)
