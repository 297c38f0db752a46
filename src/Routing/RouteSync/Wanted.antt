-- ===== src/Routing/RouteSync/Wanted.antt =====
-- The table after any run of calls.
use kube_router.Prelude.{
  String, ◌≡◌, refl, ◌∙◌, Option, none, some, List, [], ◌∷◌, arith, if◌then◌else◌, ◌==◌,
  Option-cases, inl, inr, eq_iff,
}
use kube_router.Exec.{Result}
use kube_router.Dict.{lookup, insert, lookup-insert, lookup-delete}
use kube_router.Routing.RouteSync.{
  Table, add_injected_route, del_injected_route, sync_local_route_table,
}

-- The calls, in the order in which the lock lets them in; `sync` is a tick of the loop or a call.
pub data Call (Route : Type 0) : Type 0 where
  add : String → Route → Call Route
  del : String → Call Route
  sync : Call Route

-- The route that is wanted for a destination: that of the last addition, if no deletion came after it.
abbrev pub wanted : {Route : Type 0} → List (Call Route) → String → Option Route → Option Route
wanted [] dst old = old
wanted (add d route ∷ cs) dst old = wanted cs dst (if d == dst then some route else old)
wanted (del d ∷ cs) dst old = wanted cs dst (if d == dst then none else old)
wanted (sync ∷ cs) dst old = wanted cs dst old

module _ {Route W : Type 0} (route_replacer : Route → W → Result (Unit {0}) × W) where
  unfoldable pub calls : List (Call Route) → Table route_replacer × W → Table route_replacer × W
  unfolding add_injected_route del_injected_route sync_local_route_table
  calls [] st = st
  calls (add dst route ∷ cs) (table, w) =
      calls cs (add_injected_route route_replacer dst route table, w)
  calls (del dst ∷ cs) (table, w) = calls cs (del_injected_route route_replacer dst table, w)
  calls (sync ∷ cs) (table, w) = calls cs (table, sync_local_route_table route_replacer table w)

  lookup-del_injected_route :
      (d dst : String) (table : Table route_replacer)
      → lookup dst (del_injected_route route_replacer d table)
        ≡ (if d == dst then none else lookup dst table)
  unfolding del_injected_route
  lookup-del_injected_route d dst table = elim (Option-cases (lookup d table)) [
    | inl e ↦ ground (arith, eq_iff d dst)
    | inr (route, e) ↦ ground (arith, lookup-delete d dst table)
  ]

  -- After any run of calls, syncs among them whether they fail or not, the table holds for each
  -- destination the route that is wanted.
  pub lookup-calls :
      (cs : List (Call Route)) (table : Table route_replacer) (w : W) (dst : String)
      → lookup dst (calls cs (table, w)).0 ≡ wanted cs dst (lookup dst table)
  unfolding calls add_injected_route
  lookup-calls [] table w dst = refl
  lookup-calls (add d route ∷ cs) table w dst =
      lookup-calls cs (insert d route table) w dst ∙ rw (lookup-insert d dst route table) refl
  lookup-calls (del d ∷ cs) table w dst =
      lookup-calls cs (del_injected_route route_replacer d table) w dst
      ∙ rw (lookup-del_injected_route d dst table) refl
  lookup-calls (sync ∷ cs) table w dst =
      lookup-calls cs table (sync_local_route_table route_replacer table w) dst
