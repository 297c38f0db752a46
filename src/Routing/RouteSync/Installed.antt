-- ===== src/Routing/RouteSync/Installed.antt =====
-- What a sync leaves in the kernel (pkg/controllers/routing/route_sync.go).
use mathlib.Core.Path.{subst, subst⁻¹}
use kube_router.Prelude.{
  String, ◌≡◌, refl, ◌∙◌, ap, false, Option, none, some, List, [], ◌∷◌, arith, if◌then◌else◌, ◌==◌,
  Bool-cases, inl, inr, eq_iff,
}
use kube_router.Exec.{Result, ok}
use kube_router.Dict.{lookup, insert, delete, values, lookup-insert, lookup-delete}
use kube_router.Routing.RouteSync.{
  Table, add_injected_route, del_injected_route, replace_each, sync_local_route_table,
}
use kube_router.Routing.RouteSync.Wanted.{Call, add, del, sync, wanted, calls, lookup-calls}

module _ {Route W : Type 0} (route_replacer : Route → W → Result (Unit {0}) × W)
    (key : Route → String) where
  -- What netlink.RouteReplace promises of the kernel's table, which shows one route for a destination:
  -- when it succeeds the route is there, and other destinations keep what they have.
  pub record Replaces (shows : W → String → Option Route) : Type 0 where
    pub installs :
        (route : Route) (w : W)
        → (route_replacer route w).0 ≡ ok tt
        → shows (route_replacer route w).1 (key route) ≡ some route
    pub keeps :
        (route : Route) (w : W) (dst : String)
        → (key route == dst) ≡ false
        → shows (route_replacer route w).1 dst ≡ shows w dst

  -- Each route stands under its own destination, and only once.
  abbrev pub Tidy : Table route_replacer → Type 0
  Tidy [] = Unit
  Tidy ((dst, route) ∷ table) = (key route ≡ dst) × (lookup dst table ≡ none) × Tidy table

  module _ (shows : W → String → Option Route) (kernel : Replaces shows) where
    shows-others :
        (table : Table route_replacer) (dst : String) (w : W)
        → Tidy table
        → lookup dst table ≡ none
        → shows (replace_each route_replacer (values table) w) dst ≡ shows w dst
    unfolding replace_each values lookup
    shows-others [] dst w t h = refl
    shows-others ((d, route) ∷ table) dst w t h =
        let w' = (route_replacer route w).1 in
        let other : (key route == dst) ≡ false = rw t.0 (ground arith) in
        shows-others table dst w' t.2 (ground arith) ∙ kernel.keeps route w dst other

    shows-replace_each :
        (table : Table route_replacer) (dst : String) (route : Route) (w : W)
        → Tidy table
        → lookup dst table ≡ some route
        → ((w' : W) → (route_replacer route w').0 ≡ ok tt)
        → shows (replace_each route_replacer (values table) w) dst ≡ some route
    unfolding replace_each values lookup
    shows-replace_each [] dst route w t h good = cc
    shows-replace_each ((d, first) ∷ table) dst route w t h good = elim (Bool-cases (d == dst)) [
      | inl e ↦
          let same : d ≡ dst = (eq_iff d dst).0 e in
          let it : first ≡ route = ground arith in
          let w' = (route_replacer first w).1 in
          let ok' : (route_replacer first w).0 ≡ ok tt = rw it (good w) in
          let at : shows w' dst ≡ some route =
            subst (λ k. shows w' k ≡ some route) (t.0 ∙ same)
              (kernel.installs first w ok' ∙ ap some it) in
          let gone : lookup dst table ≡ none = subst (λ k. lookup k table ≡ none) same t.1 in
          shows-others table dst w' t.2 gone ∙ at
      | inr e ↦
          shows-replace_each table dst route (route_replacer first w).1 t.2 (ground arith) good
    ]

    shows-sync_local_route_table :
        (table : Table route_replacer) (dst : String) (route : Route) (w : W)
        → Tidy table
        → lookup dst table ≡ some route
        → ((w' : W) → (route_replacer route w').0 ≡ ok tt)
        → shows (sync_local_route_table route_replacer table w) dst ≡ some route
    unfolding sync_local_route_table
    shows-sync_local_route_table table dst route w t h good =
        shows-replace_each table dst route w t h good

  Tidy-insert :
      (table : Table route_replacer) (dst : String) (route : Route)
      → key route ≡ dst
      → Tidy table
      → Tidy (insert dst route table)
  unfolding insert lookup
  Tidy-insert [] dst route own t = (own, refl, tt)
  Tidy-insert ((d, first) ∷ table) dst route own t = elim (Bool-cases (d == dst)) [
    | inl e ↦
        let same : d ≡ dst = (eq_iff d dst).0 e in
        subst⁻¹
          (λ b. Tidy (if b then (dst, route) ∷ table else (d, first) ∷ insert dst route table)) e
          (own, subst (λ k. lookup k table ≡ none) same t.1, t.2)
    | inr e ↦
        subst⁻¹
          (λ b. Tidy (if b then (dst, route) ∷ table else (d, first) ∷ insert dst route table)) e
          (
            t.0,
            lookup-insert dst d route table ∙ ground (arith, eq_iff d dst, eq_iff dst d, t.1),
            Tidy-insert table dst route own t.2,
          )
  ]

  Tidy-delete : (table : Table route_replacer) (dst : String) → Tidy table → Tidy (delete dst table)
  unfolding delete
  Tidy-delete [] dst t = t
  Tidy-delete ((d, first) ∷ table) dst t = elim (Bool-cases (d == dst)) [
    | inl e ↦
        subst⁻¹ (λ b. Tidy (if b then delete dst table else (d, first) ∷ delete dst table)) e
          (Tidy-delete table dst t.2)
    | inr e ↦
        subst⁻¹ (λ b. Tidy (if b then delete dst table else (d, first) ∷ delete dst table)) e
          (t.0, lookup-delete dst d table ∙ ground (arith, t.1), Tidy-delete table dst t.2)
  ]

  Tidy-found :
      (o : Option Route) (table table' : Table route_replacer)
      → Tidy table
      → Tidy table'
      → Tidy (elim o [ none ↦ table | some route ↦ table' ])
  Tidy-found none table table' t t' = t
  Tidy-found (some route) table table' t t' = t'

  Tidy-del_injected_route :
      (table : Table route_replacer) (dst : String)
      → Tidy table
      → Tidy (del_injected_route route_replacer dst table)
  unfolding del_injected_route
  Tidy-del_injected_route table dst t =
      Tidy-found (lookup dst table) table (delete dst table) t (Tidy-delete table dst t)

  -- Each call that adds a route names the route's own destination.
  abbrev pub Own : List (Call Route) → Type 0
  Own [] = Unit
  Own (add dst route ∷ cs) = (key route ≡ dst) × Own cs
  Own (del dst ∷ cs) = Own cs
  Own (sync ∷ cs) = Own cs

  Tidy-calls :
      (cs : List (Call Route)) (table : Table route_replacer) (w : W)
      → Own cs
      → Tidy table
      → Tidy (calls route_replacer cs (table, w)).0
  unfolding calls add_injected_route
  Tidy-calls [] table w o t = t
  Tidy-calls (add dst route ∷ cs) table w o t =
      Tidy-calls cs (insert dst route table) w o.1 (Tidy-insert table dst route o.0 t)
  Tidy-calls (del dst ∷ cs) table w o t =
      Tidy-calls cs (del_injected_route route_replacer dst table) w o
        (Tidy-del_injected_route table dst t)
  Tidy-calls (sync ∷ cs) table w o t =
      Tidy-calls cs table (sync_local_route_table route_replacer table w) o t

  no_route : (dst : String) → lookup {V = Route} dst [] ≡ none
  unfolding lookup
  no_route dst = refl

  -- Behind any run of calls on an empty table, syncs among them whether they fail or not, a sync leaves the
  -- kernel with the route that is wanted for a destination, that of its last addition if no deletion came
  -- after it, if RouteReplace succeeds for this route, whatever becomes of the others; and for a
  -- destination for which none is wanted it changes nothing. Each addition names the route's own
  -- destination.
  pub shows-calls :
      (shows : W → String → Option Route)
      → Replaces shows
      → (cs : List (Call Route)) (w : W) (dst : String) → Own cs
      → let st = calls route_replacer cs ([], w) in
        let synced = sync_local_route_table route_replacer st.0 st.1 in
        ((route : Route)
          → wanted cs dst none ≡ some route
          → ((w' : W) → (route_replacer route w').0 ≡ ok tt)
          → shows synced dst ≡ some route)
        × (wanted cs dst none ≡ none → shows synced dst ≡ shows st.1 dst)
  unfolding sync_local_route_table
  shows-calls shows kernel cs w dst own =
      let st = calls route_replacer cs ([], w) in
      let tidy = Tidy-calls cs [] w own tt in
      let found = lookup-calls route_replacer cs [] w dst ∙ ap (wanted cs dst) (no_route dst) in
      (
        λ route h good.
            shows-sync_local_route_table shows kernel st.0 dst route st.1 tidy (found ∙ h) good,
        λ h. shows-others shows kernel st.0 dst st.1 tidy (found ∙ h),
      )
