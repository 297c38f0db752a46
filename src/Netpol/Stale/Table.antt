-- ===== src/Netpol/Stale/Table.antt =====
-- The table that cleanupStaleRules makes (pkg/controllers/netpol/network_policy_controller.go).
use mathlib.Core.List.{map-append}
use text.Mathlib.Text.{starts_with}
use kube_router.Prelude.{
  String, ◌≡◌, refl, ◌∙◌, ap, sym, Bool, true, false, List, [], ◌∷◌, ◌++◌, ◌&&◌, not, map, keep,
  if◌then◌else◌, ◌||◌, any, arith, ◌==◌,
}
use kube_router.Exec.{ok}
use kube_router.Dict.{keys}
use kube_router.Prelude.Text.{cat, concat, contains}
use kube_router.Prelude.Text.Split.{all_lack}
use kube_router.Iptables.{text_of}
use kube_router.Iptables.Unique.{lines_of-text_of, concat-append}
use kube_router.Netpol.Stale.{
  skip_rule, new_lines, desired_table, pick_chain, is_default_chain, stale_chains,
  stale_policy_chain, stale_pod_chain, cleanup_listed, cleanup_stale_rules,
}
use kube_router.Netpol.Stale.Removed.{not_default, not_policy_chain, is_active-keys}

text_of-append : (xs ys : List String) → text_of (xs ++ ys) ≡ cat (text_of xs) (text_of ys)
unfolding text_of
text_of-append xs ys = rw (map-append, concat-append) refl

tail :
    (cs rs : List String)
    → concat ("*filter\n" ∷ text_of cs ∷ text_of rs ∷ "COMMIT\n" ∷ [])
      ≡ text_of ("*filter" ∷ (cs ++ (rs ++ "COMMIT" ∷ [])))
unfolding concat text_of
tail cs rs = ap (cat "*filter\n") (
    sym (
      text_of-append cs (rs ++ "COMMIT" ∷ [])
      ∙ ap (cat (text_of cs)) (text_of-append rs ("COMMIT" ∷ []))))

-- One line, by whether it is skipped, declares a chain, and is a rule.
one_line :
    (f : String → String) (skip c r : Bool) (l : String) (cs rs : List String)
    → ◌≡◌ {A = List String × List String}
        (if skip
          then (map f cs, rs)
          else (if c then f l ∷ map f cs else map f cs, if r then l ∷ rs else rs))
        (map f (if not skip && c then l ∷ cs else cs), if not skip && r then l ∷ rs else rs)
one_line f true c r l cs rs = refl
one_line f false true true l cs rs = refl
one_line f false true false l cs rs = refl
one_line f false false true l cs rs = refl
one_line f false false false l cs rs = refl

module _ (delete_default : Bool) (pods policies : List String) where
  abbrev stays : String → Bool
  stays rule = not (skip_rule delete_default pods policies rule)

  -- The declarations of chains that stay, and the rules that stay.
  abbrev kept_chains : List String → List String
  kept_chains ls = map (λ l. cat l " - [0:0]") (keep (λ l. stays l && starts_with l ":") ls)

  abbrev kept_rules : List String → List String
  kept_rules ls = keep (λ l. stays l && starts_with l "-") ls

  new_lines_lem :
      (ls : List String)
      → new_lines delete_default pods policies ls ≡ (kept_chains ls, kept_rules ls)
  unfolding new_lines
  new_lines_lem [] = refl
  new_lines_lem (l ∷ ls) = rw (new_lines_lem ls) (
      one_line (λ k. cat k " - [0:0]") (skip_rule delete_default pods policies l)
        (starts_with l ":") (starts_with l "-") l (keep (λ k. stays k && starts_with k ":") ls)
        (kept_rules ls))

  desired_table_lem :
      (ls : List String)
      → all_lack "\n" ls ≡ true
      → desired_table delete_default pods policies (text_of ls)
        ≡ text_of ("*filter" ∷ (kept_chains ls ++ (kept_rules ls ++ "COMMIT" ∷ [])))
  unfolding desired_table
  desired_table_lem ls h =
      rw (lines_of-text_of ls h, new_lines_lem ls) (tail (kept_chains ls) (kept_rules ls))

any-pick_chain :
    (q : String → Bool) (d sp sd : Bool) (chain : String) (rest : List String × List String)
    → (sp && d) ≡ false
    → (sd && (d || sp)) ≡ false
    → (any q (pick_chain d sp sd chain rest).0 || any q (pick_chain d sp sd chain rest).1)
      ≡ (((sp || sd) && q chain) || (any q rest.0 || any q rest.1))
unfolding pick_chain
any-pick_chain q d sp sd chain rest h k = ground arith

keep_alike :
    (p q : String → Bool) → ((l : String) → p l ≡ q l) → (ls : List String) → keep p ls ≡ keep q ls
keep_alike p q h [] = refl
keep_alike p q h (l ∷ ls) = rw (h l, keep_alike p q h ls) refl

module _ (policies pods : List (String × Bool)) where
  any-stale_chains :
      (q : String → Bool) (chains : List String)
      → (any q (stale_chains policies pods chains).0 || any q (stale_chains policies pods chains).1)
        ≡ any (λ c. (stale_policy_chain policies c || stale_pod_chain pods c) && q c) chains
  unfolding stale_chains
  any-stale_chains q [] = refl
  any-stale_chains q (chain ∷ chains) =
      any-pick_chain q (is_default_chain chain) (stale_policy_chain policies chain)
        (stale_pod_chain pods chain) chain (stale_chains policies pods chains)
        (not_default policies pods chain) (not_policy_chain policies pods chain)
      ∙ ap
          (λ b. ((stale_policy_chain policies chain || stale_pod_chain pods chain) && q chain) || b)
          (any-stale_chains q chains)

  -- The map has the chain among its keys.
  abbrev listed_as_active : List (String × Bool) → String → Bool
  listed_as_active active c = any (λ j. j == c) (keys active)

  -- A chain of a policy other than the default, or of a pod, that is not active.
  abbrev pub is_stale : String → Bool
  is_stale c =
      (starts_with c "KUBE-NWPLCY-"
        && (not (c == "KUBE-NWPLCY-DEFAULT") && not (listed_as_active policies c)))
      || (starts_with c "KUBE-POD-FW-" && not (listed_as_active pods c))

  is_stale_lem :
      (c : String) → (stale_policy_chain policies c || stale_pod_chain pods c) ≡ is_stale c
  unfolding stale_policy_chain stale_pod_chain
  is_stale_lem c = ground (arith, is_active-keys c policies, is_active-keys c pods)

  any-is_stale :
      (q : String → Bool) (chains : List String)
      → any (λ c. (stale_policy_chain policies c || stale_pod_chain pods c) && q c) chains
        ≡ any (λ c. is_stale c && q c) chains
  any-is_stale q [] = refl
  any-is_stale q (c ∷ chains) = rw (is_stale_lem c, any-is_stale q chains) refl

  module _ (delete_default : Bool) (chains : List String) where
    -- The line names no stale chain of those listed, no default chain if these go too, and neither is the
    -- end of the table nor a comment.
    abbrev pub survives : String → Bool
    survives rule =
        not (any (λ c. is_stale c && contains rule c) chains)
        && (not (
              delete_default
              && (contains rule "KUBE-ROUTER-INPUT"
                  || (contains rule "KUBE-ROUTER-FORWARD"
                      || (contains rule "KUBE-ROUTER-OUTPUT"
                          || contains rule "KUBE-NWPLCY-DEFAULT"))))
            && (not (contains rule "COMMIT") && not (starts_with rule "# ")))

    stays-survives :
        (rule : String)
        → stays delete_default
            (stale_chains policies pods chains).0
            (stale_chains policies pods chains).1
            rule
          ≡ survives rule
    unfolding skip_rule
    stays-survives rule =
        ground (arith, any-stale_chains (contains rule) chains, any-is_stale (contains rule) chains)

    -- From a table of lines and the chains that iptables lists, cleanupStaleRules makes the table that has,
    -- after its head, the declarations of chains that survive, with their counters, then the rules that
    -- survive, each in the old order, and then the end. A line survives if it names no listed chain of a
    -- policy or a pod that is not active, the default chain of policies aside, and, if the default chains
    -- go too, none of these, and if it is no comment and not the old end.
    pub cleanup_stale_rules-text_of :
        (ls : List String)
        → all_lack "\n" ls ≡ true
        → cleanup_stale_rules (ok tt) (ok chains) policies pods delete_default (text_of ls) ≡ (
          ok tt,
          text_of (
              "*filter"
              ∷ (map (λ l. cat l " - [0:0]") (keep (λ l. survives l && starts_with l ":") ls)
                  ++ (keep (λ l. survives l && starts_with l "-") ls ++ "COMMIT" ∷ []))),
        )
    unfolding cleanup_stale_rules cleanup_listed
    cleanup_stale_rules-text_of ls h =
        let found = stale_chains policies pods chains in
        ap (λ t. (ok tt, t))
          (desired_table_lem delete_default found.0 found.1 ls h
            ∙ ap
                (λ ks. text_of (
                  "*filter"
                  ∷ (map (λ l. cat l " - [0:0]") ks
                      ++ (kept_rules delete_default found.0 found.1 ls ++ "COMMIT" ∷ []))))
                (keep_alike _ _ (λ l. ap (λ b. b && starts_with l ":") (stays-survives l)) ls)
            ∙ ap
                (λ rs. text_of (
                  "*filter"
                  ∷ (map (λ l. cat l " - [0:0]") (keep (λ l. survives l && starts_with l ":") ls)
                      ++ (rs ++ "COMMIT" ∷ []))))
                (keep_alike _ _ (λ l. ap (λ b. b && starts_with l "-") (stays-survives l)) ls))
