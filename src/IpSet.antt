-- ===== src/IpSet.antt =====
-- `IPSet`, `Set` and `Entry` of pkg/utils/ipset.go: the sets that the program manages, and the
-- commands that it sends to the `ipset` utility. The utility is a parameter; `IpSet.Restore` says
-- what the program relies on.
pub mod Restore
pub mod Save
pub mod Table
mod Tests
use kube_router.Prelude.{
  String, Bool, true, false, Option, none, some, List, [], ◌∷◌, ◌++◌, map, if◌then◌else◌,
}
use kube_router.Prelude.Text.{cat, concat, join, contains}
use kube_router.Exec.{Result, ok, err, Exec, pure, ◌>>=◌, ◌>>◌, wrap_error}
use kube_router.Dict.{lookup, insert, delete, values}

-- A `*Set` points back to its `IPSet`; the model passes the parent's `isIpv6` instead.
pub record Set : Type 0 where
  pub name : String
  pub entries : List (List String)
  pub options : List String

pub record IpSet : Type 0 where
  pub sets : List (String × Set)
  pub is_ipv6 : Bool

-- The `ipset` utility over the kernel's state `W`: its output, or the text on its standard error.
pub record Tool (W : Type 0) : Type 0 where
  pub run : List String → W → Result String × W
  pub run_with_stdin : String → List String → W → Result String × W

pub record Host (W : Type 0) : Type 0 where
  pub ipset : IpSet
  pub world : W

-- ipset.Get
unfoldable pub get : IpSet → String → Option Set
get ipset set_name = lookup set_name ipset.sets

-- set.name()
unfoldable pub kernel_name : Bool → Set → String
kernel_name is_ipv6 set = if is_ipv6 then cat "inet6:" set.name else set.name

-- The set under a name, or the one that is made for it.
unfoldable pub get_or_new : IpSet → Set → Set
unfolding get
get_or_new ipset new = elim (get ipset new.name) [ none ↦ new | some set ↦ set ]

-- `if ipset.Get(name) == nil { ipset.Sets[name] = &Set{…} }`
unfoldable pub put_new : Set → IpSet → IpSet
unfolding get
put_new new ipset = elim (get ipset new.name) [
  | none ↦ record ipset { sets = insert new.name new ipset.sets }
  | some set ↦ ipset
]

-- ipset.RefreshSet
unfoldable pub refresh_set : String → List (List String) → String → IpSet → IpSet
unfolding get_or_new
refresh_set set_name entries_with_options set_type ipset =
    let new : Set = record {
      name = set_name;
      entries = [];
      options = set_type ∷ "timeout" ∷ "0" ∷ [];
    } in
    record ipset {
      sets =
          insert set_name (record (get_or_new ipset new) { entries = entries_with_options })
            ipset.sets;
    }

unfoldable pub empty_ipset : Bool → IpSet
empty_ipset is_ipv6 = record { sets = []; is_ipv6 = is_ipv6 }

module _ {W : Type 0} (tool : Tool W) where
  -- ipset.run, ipset.runWithStdin
  unfoldable pub run : List String → Exec (Host W) String
  run args h = let (r, w) = tool.run args h.world in (r, record h { world = w })

  unfoldable pub run_with_stdin : String → List String → Exec (Host W) String
  run_with_stdin stdin args h =
      let (r, w) = tool.run_with_stdin stdin args h.world in (r, record h { world = w })

  -- set.IsActive
  unfoldable pub active_of : Result String → Result Bool
  active_of (ok out) = ok true
  active_of (err e) = if contains e "name does not exist" then ok false else err e

  unfoldable pub is_active : Set → Exec (Host W) Bool
  unfolding active_of run kernel_name
  is_active set h =
      let (r, h') = run ("list" ∷ kernel_name h.ipset.is_ipv6 set ∷ []) h in (active_of r, h')

  -- The command line of ipset.Create.
  unfoldable pub create_args : Bool → String → Set → List String → List String
  unfolding kernel_name
  create_args is_ipv6 set_name set create_options =
      if is_ipv6
      then "create"
        ∷ "-exist"
        ∷ kernel_name is_ipv6 set
        ∷ (create_options ++ "family" ∷ "inet6" ∷ [])
      else "create" ∷ "-exist" ∷ set_name ∷ create_options

  -- ipset.Create
  unfoldable pub create : String → List String → Exec (Host W) Set
  unfolding put_new get_or_new is_active create_args run
  create set_name create_options h =
      let new : Set = record { name = set_name; entries = []; options = create_options } in
      let set = get_or_new h.ipset new in
      (do
        active ←
            wrap_error
              (λ e. concat ("failed to determine if ipset set " ∷ set_name ∷ " exists: " ∷ e ∷ []))
              (is_active set)
        if active
            then pure set
            else (wrap_error (cat "failed to create ipset set on system: ")
                  (run (create_args h.ipset.is_ipv6 set_name set create_options))
                >> pure set))
        (record h { ipset = put_new new h.ipset })

  -- The text that set.BatchAdd sends to `ipset restore`.
  unfoldable pub add_lines : String → List (List String) → String
  add_lines name add_options =
      concat (map (λ o. cat (join " " ("add" ∷ "-exist" ∷ name ∷ o)) "\n") add_options)

  -- set.BatchAdd on a set that is not in the table: the caller gets the changed set back.
  unfoldable pub batch_add : Set → List (List String) → Exec (Host W) Set
  unfolding add_lines run_with_stdin kernel_name
  batch_add set add_options h =
      (run_with_stdin (add_lines (kernel_name h.ipset.is_ipv6 set) add_options) ("restore" ∷ [])
          >> pure (record set { entries = set.entries ++ add_options }))
        h

  -- set.Add on a set of the table: the entry is kept whether the command succeeds or not.
  unfoldable pub add_entry : Set → List String → Exec (Host W) (List String)
  unfolding run kernel_name
  add_entry set add_options h =
      (run ("add" ∷ "-exist" ∷ kernel_name h.ipset.is_ipv6 set ∷ add_options) >> pure add_options)
        (record h {
          ipset = record h.ipset {
            sets =
                insert set.name (record set { entries = set.entries ++ add_options ∷ [] })
                  h.ipset.sets;
          };
        })

  -- `ipset.Get(set.Name).BatchAdd(options)` in ipset.Add: the set of the table takes the entries,
  -- whether the command succeeds or not.
  unfoldable pub batch_add_stored : Set → List (List String) → Exec (Host W) Unit
  unfolding add_lines run_with_stdin kernel_name
  batch_add_stored set add_options h =
      (run_with_stdin (add_lines (kernel_name h.ipset.is_ipv6 set) add_options) ("restore" ∷ [])
          >> pure tt)
        (record h {
          ipset = record h.ipset {
            sets =
                insert set.name (record set { entries = set.entries ++ add_options }) h.ipset.sets;
          };
        })

  -- ipset.Add
  unfoldable pub add : Set → Exec (Host W) Unit
  unfolding create batch_add_stored
  add set = do stored ← create set.name set.options; batch_add_stored stored set.entries

  -- set.Test
  unfoldable pub test : Set → List String → Exec (Host W) Bool
  unfolding run kernel_name
  test set test_options h =
      (run ("test" ∷ kernel_name h.ipset.is_ipv6 set ∷ test_options) >> pure true) h

  -- set.Destroy
  unfoldable pub forget : Set → Exec (Host W) Unit
  forget set h =
      (ok tt, record h { ipset = record h.ipset { sets = delete set.name h.ipset.sets } })

  unfoldable pub destroy_set : Set → Exec (Host W) Unit
  unfolding run forget kernel_name
  destroy_set set h = (run ("destroy" ∷ kernel_name h.ipset.is_ipv6 set ∷ []) >> forget set) h

  -- ipset.Destroy
  unfoldable pub destroy : String → Exec (Host W) Unit
  unfolding get destroy_set
  destroy set_name h = elim (get h.ipset set_name) [
    | none ↦ (ok tt, h)
    | some set ↦ destroy_set set h
  ]

  -- ipset.DestroyAllWithin
  unfoldable pub destroy_each : List Set → Exec (Host W) Unit
  unfolding destroy_set
  destroy_each [] = pure tt
  destroy_each (set ∷ sets) = let rest = destroy_each sets in (destroy_set set >> rest)

  unfoldable pub destroy_all_within : Exec (Host W) Unit
  unfolding destroy_each
  destroy_all_within h = destroy_each (values h.ipset.sets) h

  -- set.Flush names the set without its IPv6 prefix; ipset.Flush flushes every set of the host.
  unfoldable pub flush_set : Set → Exec (Host W) Unit
  unfolding run
  flush_set set = run ("flush" ∷ set.name ∷ []) >> pure tt

  unfoldable pub flush : Exec (Host W) Unit
  unfolding run
  flush = run ("flush" ∷ []) >> pure tt

  -- set.Rename
  unfoldable pub rename : Set → String → Exec (Host W) Unit
  unfolding run kernel_name
  rename set new_name h =
      let target = if h.ipset.is_ipv6 then cat "ipv6:" new_name else new_name in
      (run ("rename" ∷ kernel_name h.ipset.is_ipv6 set ∷ target ∷ []) >> pure tt) h

  -- set.Swap
  unfoldable pub swap : Set → Set → Exec (Host W) Unit
  unfolding run kernel_name
  swap set set_to h =
      (run ("swap" ∷ kernel_name h.ipset.is_ipv6 set ∷ kernel_name h.ipset.is_ipv6 set_to ∷ [])
          >> pure tt)
        h

  -- set.RefreshWithBuiltinOptions
  unfoldable pub refresh_with_builtin_options : Set → List (List String) → Exec (Host W) Unit
  unfolding add batch_add swap destroy
  refresh_with_builtin_options set entries =
      let temp_name = cat set.name "-" in
      let new_set : Set = record { name = temp_name; entries = []; options = set.options } in
      do add new_set; filled ← batch_add new_set entries; swap set filled; destroy temp_name

  -- set.Refresh
  unfoldable pub refresh : Set → List String → List String → Exec (Host W) Unit
  unfolding refresh_with_builtin_options
  refresh set entries extra_options =
      refresh_with_builtin_options set (map (λ e. e ∷ extra_options) entries)
