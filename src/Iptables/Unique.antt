-- ===== src/Iptables/Unique.antt =====
-- A rule that is appended with AppendUnique stands in the buffer once, at its end.
use mathlib.Core.List.{map-append}
use mathlib.Core.Path.{subst}
use text.Mathlib.Text.{starts_with}
use text.Mathlib.TextLemmas.{append_assoc, nil-append, cons-append, append-nil}
use text.Mathlib.TextPositions.{starts_with-append}
use kube_router.Prelude.{
  String, ◌≡◌, refl, ◌∙◌, ap, sym, Bool, true, false, List, [], ◌∷◌, ◌++◌, not, map, keep,
  all-append, arith,
}
use kube_router.Prelude.Text.{cat, concat, join, contains, split, cons_first}
use kube_router.Prelude.Text.Split.{lacks, all_lack, lacks-join, split-lines}
use kube_router.Iptables.{
  drop_last_empty, lines_of, text_of, rule_line, append, same_rule, append_unique,
}

contains-blank : (s : String) → contains s "" ≡ true
unfolding contains
contains-blank String.[] = refl
contains-blank (String.◌∷◌ c s) =
    let h : starts_with (String.◌∷◌ c s) "" ≡ true =
      subst (λ v. starts_with v "" ≡ true) (nil-append (String.◌∷◌ c s))
        (starts_with-append "" (String.◌∷◌ c s)) in
    ground arith

-- A text starts with its first part.
contains-start : (sub t : String) → contains (cat sub t) sub ≡ true
unfolding contains
contains-start String.[] t = rw nil-append (contains-blank t)
contains-start (String.◌∷◌ c sub) t =
    let h : starts_with (String.◌∷◌ c (cat sub t)) (String.◌∷◌ c sub) ≡ true =
      rw⁻¹ cons-append (starts_with-append (String.◌∷◌ c sub) t) in
    rw cons-append (ground arith)

contains-cat : (a s sub : String) → contains s sub ≡ true → contains (cat a s) sub ≡ true
unfolding contains
contains-cat String.[] s sub h = rw nil-append h
contains-cat (String.◌∷◌ c a) s sub h = rw cons-append (ground (arith, contains-cat a s sub))

contains_self : (s : String) → contains s s ≡ true
contains_self s = subst (λ v. contains v s ≡ true) (append-nil s) (contains-start s "")

pub concat-append : (xs ys : List String) → concat (xs ++ ys) ≡ cat (concat xs) (concat ys)
unfolding concat
concat-append [] ys = rw nil-append refl
concat-append (x ∷ xs) ys = ap (cat x) (concat-append xs ys) ∙ rw append_assoc refl

append-text_of :
    (ls : List String) (chain : String) (rule : List String)
    → append (text_of ls) chain rule ≡ text_of (ls ++ rule_line chain rule ∷ [])
unfolding append text_of concat
append-text_of ls chain rule =
    rw (map-append, concat-append)
      (ap (cat (concat (map (λ l. cat l "\n") ls)))
        (sym (append-nil (cat (rule_line chain rule) "\n"))))

drop_last_empty-last : (ls : List String) → drop_last_empty (ls ++ "" ∷ []) ≡ ls
unfolding drop_last_empty
drop_last_empty-last [] = refl
drop_last_empty-last (l ∷ []) = refl
drop_last_empty-last (l ∷ k ∷ ls) = ap (◌∷◌ l) (drop_last_empty-last (k ∷ ls))

pub lines_of-text_of : (ls : List String) → all_lack "\n" ls ≡ true → lines_of (text_of ls) ≡ ls
unfolding lines_of text_of
lines_of-text_of ls h = rw (split-lines "\n" ls h) (drop_last_empty-last ls)

all_lack-split : (s : String) → all_lack "\n" (split "\n" s) ≡ true
unfolding split lacks cons_first
all_lack-split String.[] = refl
all_lack-split (String.◌∷◌ c s) = ground (arith, all_lack-split s)

all_lack-drop :
    (ls : List String) → all_lack "\n" ls ≡ true → all_lack "\n" (drop_last_empty ls) ≡ true
unfolding drop_last_empty
all_lack-drop [] h = refl
all_lack-drop (l ∷ []) h = ground arith
all_lack-drop (l ∷ k ∷ ls) h = ground (arith, all_lack-drop (k ∷ ls))

all_lack-keep :
    (p : String → Bool) (ls : List String)
    → all_lack "\n" ls ≡ true
    → all_lack "\n" (keep p ls) ≡ true
all_lack-keep p [] h = refl
all_lack-keep p (l ∷ ls) h = ground (arith, all_lack-keep p ls)

keep-keep_last :
    (p : String → Bool) (ls : List String) (l : String)
    → p l ≡ false
    → keep p (keep p ls ++ l ∷ []) ≡ keep p ls
keep-keep_last p [] l h = ground arith
keep-keep_last p (k ∷ ls) l h = ground (arith, keep-keep_last p ls l h)

same_rule-rule_line :
    (chain : String) (rule : List String) → same_rule chain rule (rule_line chain rule) ≡ true
unfolding same_rule rule_line join
same_rule-rule_line chain [] = ground (
  arith,
  contains-cat "-A" (cat " " chain) chain (contains-cat " " chain chain (contains_self chain)),
  contains-blank (cat "-A" (cat " " chain)),
)
same_rule-rule_line chain (r ∷ rs) =
    let body = join " " (r ∷ rs) in
    let from = cat chain (cat " " body) in
    ground (
      arith,
      contains-cat "-A" (cat " " from) chain
          (contains-cat " " from chain (contains-start chain (cat " " body))),
      contains-cat "-A" (cat " " from) body (
          contains-cat " " from body (
            contains-cat chain (cat " " body) body
              (contains-cat " " body body (contains_self body)))),
    )

rule_line-lacks :
    (chain : String) (rule : List String)
    → lacks "\n" chain ≡ true
    → all_lack "\n" rule ≡ true
    → lacks "\n" (rule_line chain rule) ≡ true
unfolding rule_line
rule_line-lacks chain rule hc hr =
    let h : lacks "\n" "-A" ≡ true = unfold lacks in refl in
    lacks-join "\n" " " ("-A" ∷ chain ∷ rule) (unfold lacks in refl) (ground arith)

-- For a buffer of lines, AppendUnique keeps the lines that do not name both the chain and the rule, in
-- order, and puts the rule at the end.
append_unique-text_of :
    (ls : List String) (chain : String) (rule : List String)
    → all_lack "\n" ls ≡ true
    → append_unique (text_of ls) chain rule
      ≡ text_of (keep (λ l. not (same_rule chain rule l)) ls ++ rule_line chain rule ∷ [])
unfolding append_unique
append_unique-text_of ls chain rule h =
    rw (lines_of-text_of ls h)
      (append-text_of (keep (λ l. not (same_rule chain rule l)) ls) chain rule)

-- Whatever the buffer holds, a second AppendUnique of the same rule to the same chain changes nothing, if
-- neither holds a new line.
append_unique_idem :
    (buffer chain : String) (rule : List String)
    → lacks "\n" chain ≡ true
    → all_lack "\n" rule ≡ true
    → append_unique (append_unique buffer chain rule) chain rule ≡ append_unique buffer chain rule
unfolding append_unique lines_of
append_unique_idem buffer chain rule hc hr =
    let new = λ (l : String). not (same_rule chain rule l) in
    let kept = keep new (lines_of buffer) in
    let line = rule_line chain rule in
    let clean : all_lack "\n" (kept ++ line ∷ []) ≡ true = ground (
      arith,
      all-append (lacks "\n") kept (line ∷ []),
      all_lack-keep new (lines_of buffer)
          (all_lack-drop (split "\n" buffer) (all_lack-split buffer)),
      rule_line-lacks chain rule hc hr,
    ) in
    let out : new line ≡ false = rw (same_rule-rule_line chain rule) refl in
    rw (append-text_of kept chain rule) (
      append_unique-text_of (kept ++ line ∷ []) chain rule clean
      ∙ ap (λ ls. text_of (ls ++ line ∷ [])) (keep-keep_last new (lines_of buffer) line out))
