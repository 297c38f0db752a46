-- ===== src/Prelude/Text/Words.antt =====
-- A word between two blanks is found in words joined by blanks exactly if it is one of them.
use Prim.Native.Char.{Char, code}
use Prim.Native.String.{String}
use mathlib.Core.Path.{◌≡◌, refl, ◌∙◌, sym, ap}
use mathlib.Core.Bool.{Bool, true, false, true≢false, ◌&&◌}
use mathlib.Core.List.{List, [], ◌∷◌}
use text.Mathlib.Text.{◌==◌, starts_with}
use text.Mathlib.TextEquality.{codes_equal, eq_iff, starts_with_iff}
use text.Mathlib.TextLemmas.{
  nil-append, cons-append, append_assoc, cons-eq-cons, nil≢cons, cons≢nil,
}
use text.Mathlib.TextBridge.{IsPrefix}
use text.Mathlib.TextPositions.{compare_self, eq_refl}
use native.Mathlib.Omega.{arith}
use kube_router.Prelude.Tests.{eqb, eqb_iff, both_or_none}
use kube_router.Prelude.Lists.{any}
use kube_router.Prelude.Text.{cat, join, contains}
use kube_router.Prelude.Text.Split.{lacks, all_lack}

-- The first text is how the second begins.
unfoldable begins : String → String → Bool
begins String.[] s = true
begins (String.◌∷◌ c t) String.[] = false
begins (String.◌∷◌ c t) (String.◌∷◌ d s) = eqb (code c) (code d) && begins t s

code-injective : (c d : Char) → code c ≡ code d → c ≡ d
code-injective c d h = codes_equal c d (rw h (compare_self (code d)))

begins-prefix : (s t : String) → begins t s ≡ true → IsPrefix t s
unfolding begins
begins-prefix s String.[] h = (s, nil-append s)
begins-prefix String.[] (String.◌∷◌ c t) h = absurd cc
begins-prefix (String.◌∷◌ d s) (String.◌∷◌ c t) h =
    let (u, e) = begins-prefix s t (ground arith) in
    let same : c ≡ d = code-injective c d (ground (arith, eqb_iff (code c) (code d))) in
    (u, cons-append c t u ∙ rw same (ap (String.◌∷◌ d) e))

prefix-begins : (s t : String) → IsPrefix t s → begins t s ≡ true
unfolding begins
prefix-begins s String.[] h = refl
prefix-begins String.[] (String.◌∷◌ c t) (u, e) = absurd (cons≢nil (sym (cons-append c t u) ∙ e))
prefix-begins (String.◌∷◌ d s) (String.◌∷◌ c t) (u, e) =
    let (same, rest) = cons-eq-cons.0 (sym (cons-append c t u) ∙ e) in
    let later = prefix-begins s t (u, rest) in
    ground (arith, eqb_iff (code c) (code d), ap code same)

starts_with-begins : (s t : String) → starts_with s t ≡ begins t s
starts_with-begins s t =
    both_or_none (starts_with s t) (begins t s) (λ h. prefix-begins s t ((starts_with_iff s t).0 h))
      (λ h. (starts_with_iff s t).1 (begins-prefix s t h))

eq-cons :
    (c d : Char) (s t : String)
    → (String.◌∷◌ c s == String.◌∷◌ d t) ≡ (eqb (code c) (code d) && (s == t))
eq-cons c d s t =
    both_or_none (String.◌∷◌ c s == String.◌∷◌ d t) (eqb (code c) (code d) && (s == t))
      (λ h.
        let (same, rest) = cons-eq-cons.0 ((eq_iff (String.◌∷◌ c s) (String.◌∷◌ d t)).0 h) in
        ground (arith, eqb_iff (code c) (code d), ap code same, (eq_iff s t).1 rest))
      (λ h.
        let same : c ≡ d = code-injective c d (ground (arith, eqb_iff (code c) (code d))) in
        let rest : s ≡ t = (eq_iff s t).0 (ground arith) in
        (eq_iff (String.◌∷◌ c s) (String.◌∷◌ d t)).1 (rw same (ap (String.◌∷◌ d) rest)))

none_if_absurd : (b : Bool) → (b ≡ true → ⊥) → b ≡ false
none_if_absurd true f = absurd (f refl)
none_if_absurd false f = refl

eq-nil_cons : (c : Char) (s : String) → ("" == String.◌∷◌ c s) ≡ false
eq-nil_cons c s =
    none_if_absurd ("" == String.◌∷◌ c s) (λ h. nil≢cons ((eq_iff "" (String.◌∷◌ c s)).0 h))

eq-cons_nil : (c : Char) (s : String) → (String.◌∷◌ c s == "") ≡ false
eq-cons_nil c s =
    none_if_absurd (String.◌∷◌ c s == "") (λ h. cons≢nil ((eq_iff (String.◌∷◌ c s) "").0 h))

-- Two words, each before the separator, begin alike only if they are the same.
begins-word :
    (sep : Char) (s n rest : String)
    → lacks sep s ≡ true
    → lacks sep n ≡ true
    → begins (cat s (String.◌∷◌ sep "")) (cat n (String.◌∷◌ sep rest)) ≡ (n == s)
unfolding begins lacks
begins-word sep String.[] String.[] rest hs hn =
    rw (nil-append, nil-append) (ground (arith, eqb_iff (code sep) (code sep), eq_refl ""))
begins-word sep String.[] (String.◌∷◌ d n) rest hs hn =
    rw (nil-append, cons-append)
      (ground (arith, eq-cons_nil d n, eqb_iff (code sep) (code d), eqb_iff (code d) (code sep)))
begins-word sep (String.◌∷◌ c s) String.[] rest hs hn =
    rw (nil-append, cons-append) (ground (arith, eq-nil_cons c s))
begins-word sep (String.◌∷◌ c s) (String.◌∷◌ d n) rest hs hn =
    rw (cons-append, cons-append)
      (ground (
        arith,
        eq-cons d c n s,
        begins-word sep s n rest,
        eqb_iff (code c) (code d),
        eqb_iff (code d) (code c),
      ))

-- A text that begins with the separator is not found before the first separator.
contains-skip :
    (sep : Char) (n rest sub : String)
    → lacks sep n ≡ true
    → contains (cat n rest) (String.◌∷◌ sep sub) ≡ contains rest (String.◌∷◌ sep sub)
unfolding contains lacks begins
contains-skip sep String.[] rest sub h = rw nil-append refl
contains-skip sep (String.◌∷◌ d n) rest sub h = rw cons-append (
    ground (
      arith,
      starts_with-begins (String.◌∷◌ d (cat n rest)) (String.◌∷◌ sep sub),
      contains-skip sep n rest sub,
      eqb_iff (code sep) (code d),
      eqb_iff (code d) (code sep),
    ))

-- The words with the separator around each.
unfoldable spread : Char → List String → String
spread sep [] = String.◌∷◌ sep ""
spread sep (n ∷ ns) = String.◌∷◌ sep (cat n (spread sep ns))

begins-end : (sep : Char) (s : String) → begins (cat s (String.◌∷◌ sep "")) "" ≡ false
unfolding begins
begins-end sep String.[] = rw nil-append refl
begins-end sep (String.◌∷◌ c s) = rw cons-append refl

join-spread :
    (sep : Char) (n : String) (ns : List String)
    → cat (join (String.◌∷◌ sep "") (n ∷ ns)) (String.◌∷◌ sep "") ≡ cat n (spread sep ns)
unfolding join spread
join-spread sep n [] = refl
join-spread sep n (m ∷ ns) =
    rw (cons-append, nil-append)
      (append_assoc n (String.◌∷◌ sep (join (String.◌∷◌ sep "") (m ∷ ns))) (String.◌∷◌ sep "")
        ∙ ap (cat n) (
            cons-append sep (join (String.◌∷◌ sep "") (m ∷ ns)) (String.◌∷◌ sep "")
            ∙ ap (String.◌∷◌ sep) (join-spread sep m ns)))

spread-cons :
    (sep : Char) (ns : List String) → (rest : String) × (spread sep ns ≡ String.◌∷◌ sep rest)
unfolding spread
spread-cons sep [] = ("", refl)
spread-cons sep (n ∷ ns) = (cat n (spread sep ns), refl)

contains-spread :
    (sep : Char) (s : String) (ns : List String)
    → lacks sep s ≡ true
    → all_lack sep ns ≡ true
    → contains (spread sep ns) (String.◌∷◌ sep (cat s (String.◌∷◌ sep ""))) ≡ any (λ n. n == s) ns
unfolding spread contains begins
contains-spread sep s [] hs hn =
    let sub = cat s (String.◌∷◌ sep "") in
    ground (
      arith,
      starts_with-begins (String.◌∷◌ sep "") (String.◌∷◌ sep sub),
      begins-end sep s,
      eq-cons_nil sep sub,
    )
contains-spread sep s (n ∷ ns) hs hn =
    let sub = cat s (String.◌∷◌ sep "") in
    let (rest, e) = spread-cons sep ns in
    let word : begins sub (cat n (spread sep ns)) ≡ (n == s) =
      rw e (begins-word sep s n rest hs (ground arith)) in
    let skip : contains (cat n (spread sep ns)) (String.◌∷◌ sep sub) ≡ any (λ m. m == s) ns =
      contains-skip sep n (spread sep ns) sub (ground arith)
      ∙ contains-spread sep s ns hs (ground arith) in
    ground (
      arith,
      starts_with-begins (String.◌∷◌ sep (cat n (spread sep ns))) (String.◌∷◌ sep sub),
      word,
      skip,
      eqb_iff (code sep) (code sep),
    )

pub cat-one : (sep : Char) (s : String) → cat (String.◌∷◌ sep "") s ≡ String.◌∷◌ sep s
cat-one sep s = cons-append sep "" s ∙ ap (String.◌∷◌ sep) (nil-append s)

begins-two :
    (sep : Char) (s : String)
    → lacks sep s ≡ true
    → (s == "") ≡ false
    → begins (cat s (String.◌∷◌ sep "")) (String.◌∷◌ sep "") ≡ false
unfolding begins lacks
begins-two sep String.[] hs hb = absurd (true≢false (sym (eq_refl "") ∙ hb))
begins-two sep (String.◌∷◌ c s) hs hb = rw cons-append (ground arith)

contains-around :
    (sep : Char) (s : String) (ns : List String)
    → lacks sep s ≡ true
    → (s == "") ≡ false
    → all_lack sep ns ≡ true
    → let blank = String.◌∷◌ sep "" in
      contains (cat blank (cat (join blank ns) blank)) (String.◌∷◌ sep (cat s blank))
      ≡ any (λ n. n == s) ns
unfolding join contains begins spread
contains-around sep s [] hs hb hn =
    let sub = cat s (String.◌∷◌ sep "") in
    rw (cat-one sep (cat "" (String.◌∷◌ sep "")), nil-append (String.◌∷◌ sep ""))
      (ground (
        arith,
        starts_with-begins (String.◌∷◌ sep (String.◌∷◌ sep "")) (String.◌∷◌ sep sub),
        begins-two sep s hs hb,
        contains-spread sep s [] hs refl,
      ))
contains-around sep s (n ∷ ns) hs hb hn =
    let joined = cat (join (String.◌∷◌ sep "") (n ∷ ns)) (String.◌∷◌ sep "") in
    rw (cat-one sep joined, join-spread sep n ns) (contains-spread sep s (n ∷ ns) hs hn)

-- A word between two separators is found in the joined words, with a separator before and behind,
-- exactly if it is one of them.
pub contains-join :
    (sep : Char) (s : String) (ns : List String)
    → lacks sep s ≡ true
    → (s == "") ≡ false
    → all_lack sep ns ≡ true
    → let blank = String.◌∷◌ sep "" in
      contains (cat blank (cat (join blank ns) blank)) (cat blank (cat s blank))
      ≡ any (λ n. n == s) ns
contains-join sep s ns hs hb hn =
    rw (cat-one sep (cat s (String.◌∷◌ sep ""))) (contains-around sep s ns hs hb hn)
