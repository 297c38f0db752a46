-- ===== src/IpSet/Save/RoundTrip.antt =====
-- `parseIPSetSave` reads back what `ipset save` prints: a `create` line for each set, with the options
-- that the kernel shows, and an `add` line for each entry.
use mathlib.Core.List.{append-nil, append_assoc}
use kube_router.Prelude.{
  String, ◌≡◌, refl, ◌∙◌, ap, Bool, true, false, not, ◌&&◌, Option, none, some, List, [], ◌∷◌, ◌++◌,
  map, arith, inl, inr, Option-cases, all, all-append, ◌==◌,
}
use kube_router.Prelude.Text.{cat, concat, join, split}
use kube_router.Prelude.Text.Split.{lacks, all_lack, lacks-join, split-join, split-lines}
use kube_router.Dict.{lookup, insert-fresh, lookup-last, insert-last, lookup-append_ne}
use kube_router.IpSet.{Set}
use kube_router.IpSet.Save.{
  Table, scrub_init_val_from_options, parse_create, parse_named, parse_line, parse_lines,
  parse_ipset_save,
}

-- A set, and the options that the kernel prints for it (`initval` among them).
pub record Saved : Type 0 where
  pub set : Set
  pub printed : List String

abbrev add_words : String → List String → List String
add_words name e = "add" ∷ name ∷ e

abbrev saved_words : Saved → List (List String)
saved_words s = ("create" ∷ s.set.name ∷ s.printed) ∷ map (add_words s.set.name) s.set.entries

abbrev all_words : List Saved → List (List String)
all_words [] = []
all_words (s ∷ ss) = saved_words s ++ all_words ss

-- The output of `ipset save`.
abbrev pub save_text : List Saved → String
save_text ss = concat (map (λ l. cat l "\n") (map (join " ") (all_words ss)))

abbrev pub table : List Saved → Table
table [] = []
table (s ∷ ss) = (s.set.name, s.set) ∷ table ss

-- No word holds a space or a new line.
abbrev clean_words : List String → Bool
clean_words ws = all_lack " " ws && all_lack "\n" ws

abbrev fresh : String → List Saved → Bool
fresh n [] = true
fresh n (s ∷ ss) = not (n == s.set.name) && fresh n ss

-- The words are clean, the options are the printed ones less `initval`, no name comes twice.
abbrev pub WellFormed : List Saved → Type 0
WellFormed [] = Unit
WellFormed (s ∷ ss) =
    (all clean_words (saved_words s) ≡ true)
    × (scrub_init_val_from_options s.printed ≡ some s.set.options)
    × (fresh s.set.name ss ≡ true)
    × WellFormed ss

-- The loop of the parser, over lines that are split already.
parse_words : List (List String) → Table → Option Table
parse_words [] sets = some sets
parse_words (l ∷ ls) sets = elim (parse_line l sets) [
  | none ↦ none
  | some sets' ↦ parse_words ls sets'
]

abbrev is_line : List String → Bool
is_line [] = false
is_line (w ∷ ws) = clean_words (w ∷ ws)

parse_lines-join :
    (ls : List (List String)) (sets : Table)
    → all is_line ls ≡ true
    → parse_lines (map (join " ") ls ++ "" ∷ []) sets ≡ parse_words ls sets
unfolding parse_lines parse_words
parse_lines-join [] sets h = unfold split in refl
parse_lines-join ([] ∷ ls) sets h = cc
parse_lines-join ((w ∷ ws) ∷ ls) sets h =
    let words = split-join " " w ws (ground arith) in
    elim (Option-cases (parse_line (w ∷ ws) sets)) [
      | inl e ↦ ground (arith, words, e)
      | inr (sets', e) ↦ ground (arith, words, e, parse_lines-join ls sets')
    ]

parse_words-cons :
    (l : List String) (ls : List (List String)) (sets sets' : Table)
    → parse_line l sets ≡ some sets'
    → parse_words (l ∷ ls) sets ≡ parse_words ls sets'
unfolding parse_words
parse_words-cons l ls sets sets' h = ground arith

parse_line-add :
    (set : Set) (e : List String) (sets : Table)
    → lookup set.name sets ≡ none
    → parse_line (add_words set.name e) (sets ++ (set.name, set) ∷ [])
      ≡ some (sets ++ (set.name, record set { entries = set.entries ++ e ∷ [] }) ∷ [])
unfolding parse_line
parse_line-add set e sets h = ground (
  arith,
  lookup-last set.name set sets h,
  insert-last set.name set (record set { entries = set.entries ++ e ∷ [] }) sets h,
)

parse_line-create :
    (name : String) (printed options : List String) (sets : Table)
    → scrub_init_val_from_options printed ≡ some options
    → lookup name sets ≡ none
    → parse_line ("create" ∷ name ∷ printed) sets
      ≡ some (sets ++ (name, record { name = name; entries = []; options = options }) ∷ [])
unfolding parse_line parse_named parse_create
parse_line-create name printed options sets p h =
    let new : Set = record { name = name; entries = []; options = options } in
    rw (p, parse_create) (ap some (insert-fresh name new sets h))

-- The `add` lines of the set that stands last.
parse_words-adds :
    (set : Set) (es : List (List String)) (sets : Table) (rest : List (List String))
    → lookup set.name sets ≡ none
    → parse_words (map (add_words set.name) es ++ rest) (sets ++ (set.name, set) ∷ [])
      ≡ parse_words rest (sets ++ (set.name, record set { entries = set.entries ++ es }) ∷ [])
parse_words-adds set [] sets rest h = rw append-nil refl
parse_words-adds set (e ∷ es) sets rest h =
    let set' : Set = record set { entries = set.entries ++ e ∷ [] } in
    parse_words-cons _ _ _ _ (parse_line-add set e sets h)
    ∙ parse_words-adds set' es sets rest h
    ∙ rw append_assoc refl

parse_words-set :
    (s : Saved) (sets : Table) (rest : List (List String))
    → scrub_init_val_from_options s.printed ≡ some s.set.options
    → lookup s.set.name sets ≡ none
    → parse_words (saved_words s ++ rest) sets ≡ parse_words rest (sets ++ (s.set.name, s.set) ∷ [])
parse_words-set s sets rest p h =
    parse_words-cons _ _ _ _ (parse_line-create s.set.name s.printed s.set.options sets p h)
    ∙ parse_words-adds (record { name = s.set.name; entries = []; options = s.set.options })
        s.set.entries sets rest h

-- No name of the list is in the table yet.
abbrev AllNew : List Saved → Table → Type 0
AllNew [] sets = Unit
AllNew (s ∷ ss) sets = (lookup s.set.name sets ≡ none) × AllNew ss sets

AllNew-append :
    (n : String) (set : Set) (ss : List Saved) (sets : Table)
    → fresh n ss ≡ true
    → AllNew ss sets
    → AllNew ss (sets ++ (n, set) ∷ [])
AllNew-append n set [] sets f h = tt
AllNew-append n set (s ∷ ss) sets f h = (
  lookup-append_ne s.set.name n set sets h.0 ground arith,
  AllNew-append n set ss sets (ground arith) h.1,
)

parse_words-all :
    (ss : List Saved) (sets : Table)
    → WellFormed ss
    → AllNew ss sets
    → parse_words (all_words ss) sets ≡ some (sets ++ table ss)
unfolding parse_words
parse_words-all [] sets w h = rw append-nil refl
parse_words-all (s ∷ ss) sets w h =
    parse_words-set s sets (all_words ss) w.1 h.0
    ∙ parse_words-all ss (sets ++ (s.set.name, s.set) ∷ []) w.3
        (AllNew-append s.set.name s.set ss sets w.2 h.1)
    ∙ rw append_assoc refl

is_line-adds :
    (n : String) (es : List (List String))
    → all is_line (map (add_words n) es) ≡ all clean_words (map (add_words n) es)
is_line-adds n [] = refl
is_line-adds n (e ∷ es) = ground (arith, is_line-adds n es)

all-is_line : (ss : List Saved) → WellFormed ss → all is_line (all_words ss) ≡ true
all-is_line [] w = refl
all-is_line (s ∷ ss) w = ground (
  arith,
  all-is_line ss w.3,
  is_line-adds s.set.name s.set.entries,
  all-append is_line (map (add_words s.set.name) s.set.entries) (all_words ss),
)

all_lack-join :
    (ls : List (List String)) → all is_line ls ≡ true → all_lack "\n" (map (join " ") ls) ≡ true
all_lack-join [] h = refl
all_lack-join ([] ∷ ls) h = cc
all_lack-join ((w ∷ ws) ∷ ls) h =
    ground
      (arith, lacks-join "\n" " " (w ∷ ws) (unfold lacks in refl) (ground arith), all_lack-join ls)

none_yet : (ss : List Saved) → AllNew ss []
unfolding lookup
none_yet [] = tt
none_yet (s ∷ ss) = (refl, none_yet ss)

-- What `ipset save` prints for sets whose words hold no space and no new line and whose names
-- differ is parsed into exactly those sets, with the printed options less `initval` and its value.
pub parse_ipset_save-save_text :
    (ss : List Saved) → WellFormed ss → parse_ipset_save (save_text ss) ≡ some (table ss)
unfolding parse_ipset_save
parse_ipset_save-save_text ss w =
    let lines = all-is_line ss w in
    rw (split-lines "\n" (map (join " ") (all_words ss)) (all_lack-join (all_words ss) lines))
      (parse_lines-join (all_words ss) [] lines ∙ parse_words-all ss [] w (none_yet ss))
