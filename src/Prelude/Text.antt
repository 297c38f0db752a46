-- ===== src/Prelude/Text.antt =====
-- The functions of Go's package strings that the program uses, and sort.Strings.
pub mod Split
pub mod Words
use Prim.Native.Char.{Char, code}
use Prim.Native.String.{String, ◌++◌ as append, compare}
use Prim.Native.Nat.{Ordering}
use mathlib.Core.Path.{◌≡◌, refl}
use mathlib.Core.Bool.{Bool, true, false, ◌||◌, ◌&&◌}
use mathlib.Core.List.{List, [], ◌∷◌}
use text.Mathlib.Text.{◌==◌, starts_with}
use native.Mathlib.Omega.{arith}
use kube_router.Prelude.Tests.{if◌then◌else◌, eqb}
use kube_router.Prelude.Lists.{all, any}

-- `a + b`
abbrev pub cat : String → String → String
cat = append

-- The texts one after the other, as several writes to a buffer leave them.
unfoldable pub concat : List String → String
concat [] = ""
concat (s ∷ ss) = append s (concat ss)

-- strings.Join
unfoldable pub join : String → List String → String
join sep [] = ""
join sep (s ∷ []) = s
join sep (s ∷ t ∷ ss) = append s (append sep (join sep (t ∷ ss)))

-- strings.HasSuffix and strings.Contains, by comparing at every position.
unfoldable pub has_suffix : String → String → Bool
has_suffix String.[] suffix = String.[] == suffix
has_suffix (String.◌∷◌ c s) suffix = String.◌∷◌ c s == suffix || has_suffix s suffix

unfoldable pub contains : String → String → Bool
contains String.[] sub = sub == ""
contains (String.◌∷◌ c s) sub = starts_with (String.◌∷◌ c s) sub || contains s sub

-- strings.Split at one character.
unfoldable pub cons_first : Char → List String → List String
cons_first c [] = String.◌∷◌ c String.[] ∷ []
cons_first c (s ∷ ss) = String.◌∷◌ c s ∷ ss

unfoldable pub split : Char → String → List String
unfolding cons_first
split sep String.[] = "" ∷ []
split sep (String.◌∷◌ c s) =
    let rest = split sep s in if eqb (code c) (code sep) then "" ∷ rest else cons_first c rest

-- The order of sort.Strings: byte by byte, which for UTF-8 is the order of the code points.
abbrev pub str_leb : String → String → Bool
str_leb s t = elim (compare s t) [ Ordering.gt ↦ false | _ ↦ true ]

-- sort.Strings; the result does not depend on the method, since equal texts are the same.
unfoldable pub insert_sorted : String → List String → List String
insert_sorted s [] = s ∷ []
insert_sorted s (t ∷ ts) =
    let rest = insert_sorted s ts in if str_leb s t then s ∷ t ∷ ts else t ∷ rest

unfoldable pub sort_strings : List String → List String
unfolding insert_sorted
sort_strings [] = []
sort_strings (s ∷ ss) = insert_sorted s (sort_strings ss)

pub any-insert_sorted :
    (p : String → Bool) (s : String) (ts : List String)
    → any p (insert_sorted s ts) ≡ (p s || any p ts)
unfolding insert_sorted
any-insert_sorted p s [] = refl
any-insert_sorted p s (t ∷ ts) = ground (arith, any-insert_sorted p s ts)

-- Sorting keeps the elements.
pub any-sort_strings : (p : String → Bool) (ss : List String) → any p (sort_strings ss) ≡ any p ss
unfolding sort_strings
any-sort_strings p [] = refl
any-sort_strings p (s ∷ ss) =
    ground (arith, any-insert_sorted p s (sort_strings ss), any-sort_strings p ss)

all-insert_sorted :
    (p : String → Bool) (s : String) (ts : List String)
    → all p (insert_sorted s ts) ≡ (p s && all p ts)
unfolding insert_sorted
all-insert_sorted p s [] = refl
all-insert_sorted p s (t ∷ ts) = ground (arith, all-insert_sorted p s ts)

pub all-sort_strings : (p : String → Bool) (ss : List String) → all p (sort_strings ss) ≡ all p ss
unfolding sort_strings
all-sort_strings p [] = refl
all-sort_strings p (s ∷ ss) =
    ground (arith, all-insert_sorted p s (sort_strings ss), all-sort_strings p ss)

test_join : join " " ("a" ∷ "b" ∷ []) ≡ "a b"
unfolding join
test_join = refl

test_split : split "\n" "a b\nc\n" ≡ "a b" ∷ "c" ∷ "" ∷ []
unfolding split
test_split = refl

test_suffix : has_suffix "10.0.0.0/0" "/0" ≡ true
unfolding has_suffix
test_suffix = refl

test_sort : sort_strings ("b" ∷ "a" ∷ "ab" ∷ []) ≡ "a" ∷ "ab" ∷ "b" ∷ []
unfolding sort_strings
test_sort = refl
