-- ===== src/IpSet/Restore/Distinct.antt =====
-- Lists of the names of temporary sets in which no name stands twice.
use kube_router.Prelude.{
  String, ◌≡◌, refl, Bool, true, false, not, ◌&&◌, none, List, [], ◌∷◌, arith, any, all, ◌==◌,
  eq_iff,
}
use kube_router.Prelude.Text.{sort_strings, insert_sorted, any-insert_sorted, any-sort_strings}
use kube_router.Dict.{lookup, insert, values, any-values-insert}
use kube_router.IpSet.Restore.{TmpSets}

-- No name stands twice.
abbrev pub distinct : List String → Bool
distinct [] = true
distinct (t ∷ ts) = not (any (λ u. u == t) ts) && distinct ts

pub distinct-values-insert :
    (o t : String) (tmp_sets : TmpSets)
    → lookup o tmp_sets ≡ none
    → any (λ u. u == t) (values tmp_sets) ≡ false
    → distinct (values tmp_sets) ≡ true
    → distinct (values (insert o t tmp_sets)) ≡ true
unfolding values insert lookup
distinct-values-insert o t [] e h d = refl
distinct-values-insert o t ((p, u) ∷ tmp_sets) e h d =
    let more = any-values-insert (λ v. v == u) o t tmp_sets in
    let rest = distinct-values-insert o t tmp_sets in
    ground (arith, more, rest, eq_iff t u, eq_iff u t)

pub all-weaker :
    (p q : String → Bool) (ts : List String)
    → ((t : String) → p t ≡ true → q t ≡ true)
    → all p ts ≡ true
    → all q ts ≡ true
all-weaker p q [] h a = refl
all-weaker p q (t ∷ ts) h a = ground (arith, h t, all-weaker p q ts h)

distinct-insert_sorted :
    (s : String) (ts : List String)
    → distinct (insert_sorted s ts) ≡ (not (any (λ u. u == s) ts) && distinct ts)
unfolding insert_sorted
distinct-insert_sorted s [] = refl
distinct-insert_sorted s (t ∷ ts) = ground (
  arith,
  distinct-insert_sorted s ts,
  any-insert_sorted (λ u. u == t) s ts,
  eq_iff s t,
  eq_iff t s,
)

pub distinct-sort_strings : (ts : List String) → distinct (sort_strings ts) ≡ distinct ts
unfolding sort_strings
distinct-sort_strings [] = refl
distinct-sort_strings (t ∷ ts) = ground (
  arith,
  distinct-insert_sorted t (sort_strings ts),
  distinct-sort_strings ts,
  any-sort_strings (λ u. u == t) ts,
)
