-- ===== src/IpSet/Save.antt =====
-- `parseIPSetSave`, `scrubInitValFromOptions`, `IPSet.Save` and `Entry.Del` of pkg/utils/ipset.go.
-- A run that indexes a slice out of range, or writes through a nil pointer, panics: `none`.
pub mod RoundTrip
mod Tests
use kube_router.Prelude.{String, Option, none, some, List, [], ◌∷◌, ◌++◌, if◌then◌else◌, ◌==◌}
use kube_router.Prelude.Text.{split}
use kube_router.Exec.{Result, ok, err}
use kube_router.Dict.{lookup, insert}
use kube_router.IpSet.{Set, IpSet, Tool, Host, run, kernel_name}

-- `options[idx+2:]` behind `initval`: the value goes too.
unfoldable pub drop_value : List String → Option (List String)
drop_value [] = none
drop_value (v ∷ rest) = some rest

unfoldable pub keep_first : String → Option (List String) → Option (List String)
keep_first v none = none
keep_first v (some rest) = some (v ∷ rest)

-- scrubInitValFromOptions
unfoldable pub scrub_init_val_from_options : List String → Option (List String)
unfolding drop_value keep_first
scrub_init_val_from_options [] = some []
scrub_init_val_from_options (v ∷ rest) =
    let scrubbed = scrub_init_val_from_options rest in
    if v == "initval" then drop_value rest else keep_first v scrubbed

abbrev pub Table : Type 0
Table = List (String × Set)

unfoldable pub parse_create : String → List String → Table → Option Table
unfolding scrub_init_val_from_options
parse_create name options sets = elim (scrub_init_val_from_options options) [
  | none ↦ none
  | some o ↦ some (insert name (record { name = name; entries = []; options = o }) sets)
]

unfoldable pub parse_add : String → List String → Table → Option Table
parse_add name entry sets = elim (lookup name sets) [
  | none ↦ none
  | some set ↦ some (insert name (record set { entries = set.entries ++ entry ∷ [] }) sets)
]

-- The two branches on a line's first word; `content[1]` must be there.
unfoldable pub parse_named : String → List String → Table → Option Table
unfolding parse_create parse_add
parse_named command [] sets =
    if command == "create" then none else if command == "add" then none else some sets
parse_named command (name ∷ rest) sets =
    if command == "create"
    then parse_create name rest sets
    else if command == "add"
    then parse_add name rest sets
    else some sets

unfoldable pub parse_line : List String → Table → Option Table
unfolding parse_named
parse_line [] sets = none
parse_line (command ∷ rest) sets = parse_named command rest sets

-- The loop over the lines.
unfoldable pub parse_lines : List String → Table → Option Table
unfolding parse_line
parse_lines [] sets = some sets
parse_lines (line ∷ lines) sets = elim (parse_line (split " " line) sets) [
  | none ↦ none
  | some sets' ↦ parse_lines lines sets'
]

-- parseIPSetSave
unfoldable pub parse_ipset_save : String → Option Table
unfolding parse_lines
parse_ipset_save result = parse_lines (split "\n" result) []

module _ {W : Type 0} (tool : Tool W) where
  unfoldable pub save_parsed : Option Table → Host W → Option (Result (Unit {0}) × Host W)
  save_parsed none h = none
  save_parsed (some sets) h = some (ok tt, record h { ipset = record h.ipset { sets = sets } })

  unfoldable pub save_output : Result String × Host W → Option (Result (Unit {0}) × Host W)
  unfolding save_parsed parse_ipset_save
  save_output (ok stdout, h) = save_parsed (parse_ipset_save stdout) h
  save_output (err e, h) = some (err e, h)

  -- ipset.Save
  unfoldable pub save : Host W → Option (Result (Unit {0}) × Host W)
  unfolding save_output run
  save h = save_output (run tool ("save" ∷ []) h)

  unfoldable pub save_after : Result String × Host W → Option (Result (Unit {0}) × Host W)
  unfolding save
  save_after (ok out, h) = save h
  save_after (err e, h) = some (err e, h)

  -- entry.Del
  unfoldable pub del : Set → List String → Host W → Option (Result (Unit {0}) × Host W)
  unfolding save_after run kernel_name
  del set options h = save_after (run tool ("del" ∷ kernel_name h.ipset.is_ipv6 set ∷ options) h)
