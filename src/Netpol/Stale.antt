-- ===== src/Netpol/Stale.antt =====
-- `cleanupStaleRules`, `cleanupStaleIPSets` and `ensureExplicitAccept`
-- (pkg/controllers/netpol/network_policy_controller.go). The table of rules is its text here. What
-- iptables answers is a parameter.
pub mod Removed
pub mod Spared
pub mod Table
use text.Mathlib.Text.{starts_with}
use kube_router.Prelude.{
  String, Bool, true, false, Option, none, some, List, [], ◌∷◌, ◌++◌, ◌&&◌, ◌||◌, not, map, any,
  keep, if◌then◌else◌, ◌==◌,
}
use kube_router.Prelude.Text.{cat, concat, contains}
use kube_router.Exec.{Result, ok, err, Exec, pure, ◌>>=◌, ◌>>◌, wrap_error}
use kube_router.Dict.{lookup, values}
use kube_router.Iptables.{lines_of, text_of, append_unique}
use kube_router.IpSet.{Set, IpSet, Tool, Host, empty_ipset, destroy_set}
use kube_router.IpSet.Save.{save}

-- `_, ok := active[key]`
unfoldable pub is_active : List (String × Bool) → String → Bool
is_active active key = elim (lookup key active) [ none ↦ false | some b ↦ true ]

-- The tests of the loop over the chains.
unfoldable pub stale_policy_chain : List (String × Bool) → String → Bool
unfolding is_active
stale_policy_chain active chain =
    starts_with chain "KUBE-NWPLCY-"
    && (not (chain == "KUBE-NWPLCY-DEFAULT") && not (is_active active chain))

unfoldable pub stale_pod_chain : List (String × Bool) → String → Bool
unfolding is_active
stale_pod_chain active chain = starts_with chain "KUBE-POD-FW-" && not (is_active active chain)

-- The body of the loop over the chains, on the chains of pods and those of policies to clean up: the
-- `continue` for the default chain, and the one for a policy's chain, come before the test for a pod's.
unfoldable pub pick_chain :
    Bool → Bool → Bool → String → List String × List String → List String × List String
pick_chain is_default stale_policy stale_pod chain (pods, policies) =
    if is_default
    then (pods, policies)
    else if stale_policy
    then (pods, chain ∷ policies)
    else if stale_pod
    then (chain ∷ pods, policies)
    else (pods, policies)

abbrev pub is_default_chain : String → Bool
is_default_chain chain = starts_with chain "KUBE-NWPLCY-" && chain == "KUBE-NWPLCY-DEFAULT"

unfoldable pub stale_chains :
    List (String × Bool) → List (String × Bool) → List String → List String × List String
unfolding stale_policy_chain stale_pod_chain pick_chain
stale_chains policies pods [] = ([], [])
stale_chains policies pods (chain ∷ chains) =
    pick_chain (is_default_chain chain) (stale_policy_chain policies chain)
      (stale_pod_chain pods chain) chain (stale_chains policies pods chains)

abbrev pub default_chains : List String
default_chains =
    "KUBE-ROUTER-INPUT" ∷ "KUBE-ROUTER-FORWARD" ∷ "KUBE-ROUTER-OUTPUT" ∷ "KUBE-NWPLCY-DEFAULT" ∷ []

-- `skipRule`
unfoldable pub skip_rule : Bool → List String → List String → String → Bool
skip_rule delete_default pods policies rule =
    any (contains rule) pods
    || (any (contains rule) policies
        || ((delete_default && any (contains rule) default_chains)
            || (contains rule "COMMIT" || starts_with rule "# ")))

-- The lines of `newChains` and those of `newRules`.
unfoldable pub new_lines :
    Bool → List String → List String → List String → List String × List String
unfolding skip_rule
new_lines delete_default pods policies [] = ([], [])
new_lines delete_default pods policies (rule ∷ rules) =
    let (chains, more) = new_lines delete_default pods policies rules in
    if skip_rule delete_default pods policies rule then (chains, more) else (
      if starts_with rule ":" then cat rule " - [0:0]" ∷ chains else chains,
      if starts_with rule "-" then rule ∷ more else more,
    )

-- `desiredFilterTable`
unfoldable pub desired_table : Bool → List String → List String → String → String
unfolding new_lines
desired_table delete_default pods policies table =
    let (chains, rules) = new_lines delete_default pods policies (lines_of table) in
    concat ("*filter\n" ∷ text_of chains ∷ text_of rules ∷ "COMMIT\n" ∷ [])

-- From the chains that iptables lists.
unfoldable pub cleanup_listed :
    List (String × Bool)
    → List (String × Bool)
    → Bool
    → Result (List String)
    → String
    → Result (Unit {0}) × String
unfolding stale_chains desired_table
cleanup_listed policies pods delete_default (err e) table =
    (err (cat "unable to list chains: " e), table)
cleanup_listed policies pods delete_default (ok chains) table =
    let (stale_pods, stale_policies) = stale_chains policies pods chains in
    (ok tt, desired_table delete_default stale_pods stale_policies table)

-- cleanupStaleRules; the first result is that of `iptables.New`.
unfoldable pub cleanup_stale_rules :
    Result (Unit {0})
    → Result (List String)
    → List (String × Bool)
    → List (String × Bool)
    → Bool
    → String
    → Result (Unit {0}) × String
unfolding cleanup_listed
cleanup_stale_rules (err e) listed policies pods delete_default table =
    (err (cat "failed to initialize iptables command executor due to " e), table)
cleanup_stale_rules (ok found) listed policies pods delete_default table =
    cleanup_listed policies pods delete_default listed table

-- ensureExplicitAccept
unfoldable pub accept_each : List String → String → String
unfolding append_unique
accept_each [] table = table
accept_each (chain ∷ chains) table = accept_each chains (
    append_unique table chain (
      "-m" ∷ "comment" ∷ "--comment"
      ∷ "\"explicitly ACCEPT traffic that complies with network policies\"" ∷ "-m" ∷ "mark"
      ∷ "--mark" ∷ "0x20000/0x20000" ∷ "-j" ∷ "ACCEPT" ∷ []))

unfoldable pub ensure_explicit_accept : String → String
unfolding accept_each
ensure_explicit_accept table =
    accept_each ("KUBE-ROUTER-INPUT" ∷ "KUBE-ROUTER-FORWARD" ∷ "KUBE-ROUTER-OUTPUT" ∷ []) table

-- The test of the loop over the sets.
unfoldable pub stale_set : List (String × Bool) → Set → Bool
unfolding is_active
stale_set active set =
    (starts_with set.name "KUBE-SRC-" || starts_with set.name "KUBE-DST-")
    && not (is_active active set.name)

module _ {W : Type 0} (tool : Tool W) where
  -- The loop that destroys the sets: the first error ends it.
  unfoldable pub destroy_stale : List Set → Exec (Host W) Unit
  unfolding destroy_set
  destroy_stale [] = pure tt
  destroy_stale (set ∷ sets) =
      let rest = destroy_stale sets in
      wrap_error (λ e. concat ("failed to delete ipset " ∷ set.name ∷ " due to " ∷ e ∷ []))
        (destroy_set tool set)
      >> rest

  unfoldable pub cleanup_saved :
      List (String × Bool) → Result (Unit {0}) × Host W → Option (Result (Unit {0}) × Host W)
  unfolding destroy_stale stale_set
  cleanup_saved active (err e, h) = none
  cleanup_saved active (ok done, h) =
      some (destroy_stale (keep (stale_set active) (values h.ipset.sets)) h)

  -- cleanupStaleIPSets; `none` is the end of the process, by klog.Fatalf or a panic of the parser.
  unfoldable pub cleanup_stale_ipsets :
      Bool → List (String × Bool) → W → Option (Result (Unit {0}) × Host W)
  unfolding cleanup_saved
  cleanup_stale_ipsets found active w =
      let h : Host W = record { ipset = empty_ipset false; world = w } in
      if found
      then (elim (save tool h) [ none ↦ none | some out ↦ cleanup_saved active out ])
      else some (err "failed to create ipsets command executor due to ipset utility not found", h)
