-- ===== src/IpSet/Restore.antt =====
-- `buildIPSetRestore` of pkg/utils/ipset.go: the script for `ipset restore -exist` that swaps every
-- managed set for its desired contents. The hash of the options in a temporary set's name
-- (crypto/sha1, encoding/base32) is a parameter.
pub mod Kernel
pub mod Distinct
pub mod Fill
pub mod Temporary
pub mod Round
pub mod Loop
pub mod Refines
mod Tests
use kube_router.Prelude.{
  String, ◌≡◌, refl, Bool, true, false, Option, none, some, List, [], ◌∷◌, ◌++◌, map, if◌then◌else◌,
  ◌==◌,
}
use kube_router.Prelude.Text.{cat, concat, join, sort_strings}
use kube_router.Exec.{Result, ok, err, Exec, pure, ◌>>=◌, ◌>>◌}
use kube_router.Dict.{lookup, insert, keys, values}
use kube_router.IpSet.{Set, IpSet, Tool, Host, run_with_stdin}

-- One line of the script.
pub data Line : Type 0 where
  create : String → String → Line
  flush : String → Line
  add : String → String → Line
  swap : String → String → Line
  destroy : String → Line

-- The formats of the calls of fmt.Sprintf.
unfoldable pub print : Line → String
print (create n options) = concat ("create " ∷ n ∷ " " ∷ options ∷ "\n" ∷ [])
print (flush n) = concat ("flush " ∷ n ∷ "\n" ∷ [])
print (add n entry) = concat ("add " ∷ n ∷ " " ∷ entry ∷ "\n" ∷ [])
print (swap n m) = concat ("swap " ∷ n ∷ " " ∷ m ∷ "\n" ∷ [])
print (destroy n) = concat ("destroy " ∷ n ∷ "\n" ∷ [])

abbrev pub TmpSets : Type 0
TmpSets = List (String × String)

-- `tmpSets[setOptions]`, which is "" if the key is missing.
unfoldable pub tmp_set : TmpSets → String → String
tmp_set tmp_sets options = elim (lookup options tmp_sets) [ none ↦ "" | some t ↦ t ]

unfoldable pub add_entries : String → List (List String) → List Line
add_entries t [] = []
add_entries t (e ∷ es) = add t (join " " e) ∷ add_entries t es

-- The lines that fill a temporary set and swap it with the set.
unfoldable pub fill_and_swap : String → Set → List Line
unfolding add_entries
fill_and_swap t set =
    add_entries t set.entries
    ++ create set.name (join " " set.options) ∷ swap t set.name ∷ flush t ∷ []

module _ (hash : String → String) where
  unfoldable pub tmp_name : String → String
  tmp_name options = cat "TMP-" (hash (cat "tmp:" options))

  -- Makes the temporary set of the options, if this run has none yet.
  unfoldable pub need_tmp : String → TmpSets → List Line × TmpSets
  unfolding tmp_set tmp_name
  need_tmp options tmp_sets =
      let t = tmp_name options in
      if tmp_set tmp_sets options == ""
      then (create t options ∷ flush t ∷ [], insert options t tmp_sets)
      else ([], tmp_sets)

  -- One round of the loop over the sets.
  unfoldable pub restore_set : Set → TmpSets → List Line × TmpSets
  unfolding need_tmp fill_and_swap tmp_set
  restore_set set tmp_sets =
      let options = join " " set.options in
      let (made, tmp_sets') = need_tmp options tmp_sets in
      (made ++ fill_and_swap (tmp_set tmp_sets' options) set, tmp_sets')

  unfoldable pub restore_named : List (String × Set) → String → TmpSets → List Line × TmpSets
  unfolding restore_set
  restore_named sets name tmp_sets = elim (lookup name sets) [
    | none ↦ ([], tmp_sets)
    | some set ↦ restore_set set tmp_sets
  ]

  unfoldable pub restore_sets : List (String × Set) → List String → TmpSets → List Line × TmpSets
  unfolding restore_named
  restore_sets sets [] tmp_sets = ([], tmp_sets)
  restore_sets sets (n ∷ ns) tmp_sets =
      let (lines, tmp_sets') = restore_named sets n tmp_sets in
      let (more, tmp_sets'') = restore_sets sets ns tmp_sets' in (lines ++ more, tmp_sets'')

  -- The whole script; the names of the sets are sorted, and so are the names to destroy.
  unfoldable pub restore_script : List (String × Set) → List Line
  unfolding restore_sets
  restore_script sets =
      let (lines, tmp_sets) = restore_sets sets (sort_strings (keys sets)) [] in
      lines ++ map destroy (sort_strings (values tmp_sets))

  -- buildIPSetRestore
  unfoldable pub build_ipset_restore : IpSet → String
  unfolding print restore_script
  build_ipset_restore ipset = concat (map print (restore_script ipset.sets))

  -- ipset.Restore
  unfoldable pub restore : {W : Type 0} → Tool W → Exec (Host W) Unit
  unfolding run_with_stdin build_ipset_restore
  restore tool h =
      (run_with_stdin tool (build_ipset_restore h.ipset) ("restore" ∷ "-exist" ∷ []) >> pure tt) h
