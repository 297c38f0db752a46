-- ===== src/Prelude/Text/Split.antt =====
-- strings.Split undoes strings.Join, if no part holds the separator.
use Prim.Native.Char.{Char, code}
use Prim.Native.String.{String, ◌++◌ as append}
use mathlib.Core.Path.{◌≡◌, refl, ◌∙◌, ap}
use mathlib.Core.Bool.{Bool, true, false, ◌&&◌}
use mathlib.Core.List.{List, [], ◌∷◌, ◌++◌, map}
use text.Mathlib.TextLemmas.{nil-append, cons-append, append_assoc}
use native.Mathlib.Omega.{arith}
use kube_router.Prelude.Tests.{if◌then◌else◌, eqb, eqb_iff}
use kube_router.Prelude.Lists.{all}
use kube_router.Prelude.Text.{cat, concat, join, split, cons_first}

-- The text does not hold the character.
unfoldable pub lacks : Char → String → Bool
lacks sep String.[] = true
lacks sep (String.◌∷◌ c s) = if eqb (code c) (code sep) then false else lacks sep s

pub lacks-cat : (sep : Char) (s t : String) → lacks sep (cat s t) ≡ (lacks sep s && lacks sep t)
unfolding lacks
lacks-cat sep String.[] t = rw nil-append refl
lacks-cat sep (String.◌∷◌ c s) t = rw cons-append (ground (arith, lacks-cat sep s t))

-- The first part ends at the first separator.
pub split-cat :
    (sep : Char) (s t : String)
    → lacks sep s ≡ true
    → split sep (cat s (String.◌∷◌ sep t)) ≡ s ∷ split sep t
unfolding split lacks cons_first
split-cat sep String.[] t h = rw nil-append (ground (arith, eqb_iff (code sep) (code sep)))
split-cat sep (String.◌∷◌ c s) t h = rw cons-append (ground (arith, split-cat sep s t))

pub split_last : (sep : Char) (s : String) → lacks sep s ≡ true → split sep s ≡ s ∷ []
unfolding split lacks cons_first
split_last sep String.[] h = refl
split_last sep (String.◌∷◌ c s) h = ground (arith, split_last sep s)

-- No word holds the separator.
abbrev pub all_lack : Char → List String → Bool
all_lack sep ws = all (lacks sep) ws

pub lacks-join :
    (c : Char) (sep : String) (ws : List String)
    → lacks c sep ≡ true
    → all_lack c ws ≡ true
    → lacks c (join sep ws) ≡ true
unfolding join lacks
lacks-join c sep [] h p = refl
lacks-join c sep (w ∷ []) h p = ground arith
lacks-join c sep (w ∷ v ∷ ws) h p = ground (
  arith,
  lacks-cat c w (append sep (join sep (v ∷ ws))),
  lacks-cat c sep (join sep (v ∷ ws)),
  lacks-join c sep (v ∷ ws),
)

-- Words joined by the separator are split into the same words.
pub split-join :
    (sep : Char) (w : String) (ws : List String)
    → all_lack sep (w ∷ ws) ≡ true
    → split sep (join (String.◌∷◌ sep String.[]) (w ∷ ws)) ≡ w ∷ ws
unfolding join
split-join sep w [] h = split_last sep w (ground arith)
split-join sep w (v ∷ ws) h =
    rw (cons-append, nil-append)
      (split-cat sep w (join (String.◌∷◌ sep String.[]) (v ∷ ws)) (ground arith)
        ∙ ap (◌∷◌ w) (split-join sep v ws (ground arith)))

-- Lines that each end in the separator are split into the lines, and an empty text after the last.
pub split-lines :
    (sep : Char) (ls : List String)
    → all_lack sep ls ≡ true
    → split sep (concat (map (λ l. cat l (String.◌∷◌ sep String.[])) ls)) ≡ ls ++ "" ∷ []
unfolding concat split
split-lines sep [] h = refl
split-lines sep (l ∷ ls) h =
    rw (append_assoc, cons-append, nil-append)
      (split-cat sep l (concat (map (λ k. cat k (String.◌∷◌ sep String.[])) ls)) (ground arith)
        ∙ ap (◌∷◌ l) (split-lines sep ls (ground arith)))
