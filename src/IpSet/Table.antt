-- ===== src/IpSet/Table.antt =====
-- What the operations of `IPSet` do to its table of sets, whatever the utility answers.
use kube_router.Prelude.{
  String, ◌≡◌, refl, none, some, List, [], ◌∷◌, arith, inl, inr, if◌then◌else◌, ◌==◌, eq_iff,
  eq_refl, Option-cases,
}
use kube_router.Exec.{ok, err}
use kube_router.Dict.{lookup, lookup-insert, lookup-delete}
use kube_router.IpSet.{
  Set, IpSet, Tool, Host, get, get_or_new, put_new, refresh_set, create, destroy,
}

-- A refresh replaces the entries of one set, keeps its options if it was there, gives it the type
-- and no timeout if it was not, and leaves all other sets alone.
get-refresh_set :
    (n m : String) (es : List (List String)) (ty : String) (i : IpSet)
    → get (refresh_set n es ty i) m ≡ (
        if n == m
        then elim (get i n) [
          | none ↦ some (record { name = n; entries = es; options = ty ∷ "timeout" ∷ "0" ∷ [] })
          | some set ↦ some (record set { entries = es })
        ]
        else get i m)
unfolding get refresh_set
get-refresh_set n m es ty i = elim (Option-cases (lookup n i.sets)) [
  | inl e ↦ rw (lookup-insert, e) (ground arith)
  | inr (set, e) ↦ rw (lookup-insert, e) (ground arith)
]

get-put_new :
    (new : Set) (i : IpSet) (m : String)
    → get (put_new new i) m ≡ (if new.name == m then some (get_or_new i new) else get i m)
unfolding get put_new get_or_new
get-put_new new i m = elim (Option-cases (lookup new.name i.sets)) [
  | inl e ↦ rw (e, put_new) (rw (e, get_or_new) (lookup-insert new.name m new i.sets))
  | inr (set, e) ↦ rw (e, put_new) (rw (e, get_or_new) (ground (arith, eq_iff new.name m)))
]

module _ {W : Type 0} (tool : Tool W) where
  abbrev pub new_set : String → List String → Set
  new_set n options = record { name = n; entries = []; options = options }

  ipset-create :
      (n : String) (options : List String) (h : Host W)
      → (create tool n options h).1.ipset ≡ put_new (new_set n options) h.ipset
  unfolding create
  ipset-create n options h = ground arith

  create-ok :
      (n : String) (options : List String) (h : Host W) (set : Set)
      → (create tool n options h).0 ≡ ok set
      → set ≡ get_or_new h.ipset (new_set n options)
  unfolding create
  create-ok n options h set e = ground arith

  -- Creating a set leaves every set of the table as it was, an older set of that name included, and
  -- the set that it returns is the one that the table then has under the name.
  get-create :
      (n m : String) (options : List String) (h : Host W)
      → (get (create tool n options h).1.ipset m
          ≡ (if n == m then some (get_or_new h.ipset (new_set n options)) else get h.ipset m))
        × ((set : Set)
            → (create tool n options h).0 ≡ ok set
            → get (create tool n options h).1.ipset n ≡ some set)
  get-create n m options h = (
    rw ipset-create (get-put_new (new_set n options) h.ipset m),
    λ set e. rw (ipset-create, get-put_new, eq_refl, create-ok n options h set e) refl,
  )

  -- Destroying the set under a name, which is the set's own: if it succeeds the table has no set under
  -- the name, and otherwise it is as it was, so the set is forgotten exactly if the kernel destroyed it;
  -- other sets stay. A name that is not in the table is no error, and no command is run for it.
  get-destroy :
      (n m : String) (h : Host W)
      → ((set : Set) → get h.ipset n ≡ some set → set.name ≡ n)
      → ((destroy tool n h).0 ≡ ok tt
          → get (destroy tool n h).1.ipset m ≡ (if n == m then none else get h.ipset m))
        × ((e : String) → (destroy tool n h).0 ≡ err e → (destroy tool n h).1.ipset ≡ h.ipset)
        × (get h.ipset n ≡ none → destroy tool n h ≡ (ok tt, h))
  unfolding destroy get
  get-destroy n m h own = elim (Option-cases (lookup n h.ipset.sets)) [
    | inl e ↦ rw (e, destroy) (λ p. ground (arith, eq_iff n m), λ x p. cc, λ p. refl)
    | inr (set, e) ↦
        rw (e, destroy)
          (
            λ p. ground (arith, own set e, lookup-delete set.name m h.ipset.sets, eq_iff n m),
            λ x p. ground arith,
            λ p. cc,
          )
  ]
