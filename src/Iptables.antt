-- ===== src/Iptables.antt =====
-- AppendUnique and Append of pkg/utils/iptables.go. A buffer of rules is its text.
pub mod Unique
mod Tests
use kube_router.Prelude.{
  String, Bool, true, false, List, [], ◌∷◌, ◌&&◌, not, map, keep, if◌then◌else◌, ◌==◌,
}
use kube_router.Prelude.Text.{cat, concat, join, contains, split}

-- `if len(rules) > 0 && rules[len(rules)-1] == "" { rules = rules[:len(rules)-1] }`
unfoldable pub drop_last_empty : List String → List String
drop_last_empty [] = []
drop_last_empty (l ∷ []) = if l == "" then [] else l ∷ []
drop_last_empty (l ∷ k ∷ ls) = l ∷ drop_last_empty (k ∷ ls)

unfoldable pub lines_of : String → List String
unfolding drop_last_empty
lines_of text = drop_last_empty (split "\n" text)

-- The lines, each with its new line.
unfoldable pub text_of : List String → String
text_of ls = concat (map (λ l. cat l "\n") ls)

unfoldable pub rule_line : String → List String → String
rule_line chain rule = join " " ("-A" ∷ chain ∷ rule)

-- Append
unfoldable pub append : String → String → List String → String
unfolding rule_line
append buffer chain rule = cat buffer (cat (rule_line chain rule) "\n")

-- The test of the loop.
unfoldable pub same_rule : String → List String → String → Bool
same_rule chain rule found = contains found chain && contains found (join " " rule)

-- AppendUnique
unfoldable pub append_unique : String → String → List String → String
unfolding lines_of text_of append same_rule
append_unique buffer chain rule =
    append (text_of (keep (λ l. not (same_rule chain rule l)) (lines_of buffer))) chain rule
