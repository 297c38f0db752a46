-- ===== src/Netpol/Tests/Cleanup.antt =====
-- The clean-up after a sync of the policy `web` and its pod.
use text.Mathlib.Text.{starts_with}
use kube_router.Prelude.{
  String, Option, some, none, arith, eq_iff, if◌then◌else◌, ◌≡◌, refl, ◌++◌, false, List, [], ◌∷◌,
  ◌&&◌, not, any, map, keep, true, ◌==◌,
}
use kube_router.Prelude.Text.{cat, concat, contains, split}
use kube_router.Prelude.Text.Split.{lacks}
use kube_router.Exec.{Result, ok, err}
use kube_router.Dict.{lookup, insert, values}
use kube_router.IpSet.{Set, Tool, Host}
use kube_router.Netpol.{PodInfo}
use kube_router.Netpol.Names.{pod_firewall_chain_name}
use kube_router.Netpol.PodFirewall.{local_pods, sync_pod_firewall_chains}
use kube_router.Netpol.PolicyChains.{chain_of, sync_policies}
use kube_router.Netpol.Stale.{stale_chains, cleanup_stale_rules, cleanup_stale_ipsets}
use kube_router.Netpol.Stale.Removed.{stale_chains-after_sync}
use kube_router.Netpol.Stale.Spared.{stale_name, IsIpset, cleanup_stale_ipsets-spared}
use kube_router.Netpol.Stale.Table.{survives, cleanup_stale_rules-text_of}
use kube_router.IpSet.Save.{parse_ipset_save, parse_lines}
use kube_router.Iptables.{text_of, lines_of}
use kube_router.Netpol.Tests.{same_text, web, http_pod, empty_sync}

abbrev listed : List String
listed = "INPUT" ∷ "KUBE-NWPLCY-old" ∷ "KUBE-NWPLCY-DEFAULT" ∷ "KUBE-POD-FW-old" ∷ []

stale_chains-after_sync_example :
    (any
        (λ j. j == "KUBE-NWPLCY-old")
        (stale_chains
          (sync_policies same_text "1" (web ∷ []) ([], empty_sync)).0
          (sync_pod_firewall_chains same_text "1" "172.16.0.1" (http_pod ∷ []) (web ∷ []) []).0
          listed).1
      ≡ (any (λ j. j == "KUBE-NWPLCY-old") listed
          && (starts_with "KUBE-NWPLCY-old" "KUBE-NWPLCY-"
              && (not ("KUBE-NWPLCY-old" == "KUBE-NWPLCY-DEFAULT")
                  && not (any (λ p. chain_of same_text "1" p == "KUBE-NWPLCY-old") (web ∷ []))))))
    × (any
          (λ j. j == "KUBE-NWPLCY-old")
          (stale_chains
            (sync_policies same_text "1" (web ∷ []) ([], empty_sync)).0
            (sync_pod_firewall_chains same_text "1" "172.16.0.1" (http_pod ∷ []) (web ∷ []) []).0
            listed).0
        ≡ (any (λ j. j == "KUBE-NWPLCY-old") listed
            && (starts_with "KUBE-NWPLCY-old" "KUBE-POD-FW-"
                && not (
                    any
                      (λ (p : PodInfo).
                        pod_firewall_chain_name same_text p.namespace p.name "1"
                        == "KUBE-NWPLCY-old")
                      (values (local_pods "172.16.0.1" (http_pod ∷ []) []))))))
stale_chains-after_sync_example =
    stale_chains-after_sync same_text "1" (web ∷ []) empty_sync "172.16.0.1" (http_pod ∷ []) []
      listed "KUBE-NWPLCY-old"

abbrev old_table : List String
old_table =
    "*filter" ∷ ":INPUT ACCEPT" ∷ ":KUBE-NWPLCY-old -" ∷ "-A KUBE-NWPLCY-old -j RETURN"
    ∷ "-A INPUT -j DROP" ∷ "COMMIT" ∷ []

abbrev old_chains : List String
old_chains = "INPUT" ∷ "KUBE-NWPLCY-old" ∷ "KUBE-POD-FW-old" ∷ []

test_cleaned :
    cleanup_stale_rules
      (ok tt)
      (ok old_chains)
      []
      (("KUBE-POD-FW-new", true) ∷ [])
      false
      (text_of old_table)
    ≡ (ok tt, "*filter\n:INPUT ACCEPT - [0:0]\n-A INPUT -j DROP\nCOMMIT\n")
unfolding cleanup_stale_rules text_of lines_of split lookup contains concat
test_cleaned = refl

cleanup_stale_rules-text_of_example :
    cleanup_stale_rules (ok tt) (ok old_chains) [] [] false (text_of old_table) ≡ (
      ok tt,
      text_of (
          "*filter"
          ∷ (map
                (λ l. cat l " - [0:0]")
                (keep (λ l. survives [] [] false old_chains l && starts_with l ":") old_table)
              ++ (keep (λ l. survives [] [] false old_chains l && starts_with l "-") old_table
                  ++ "COMMIT" ∷ []))),
    )
cleanup_stale_rules-text_of_example =
    cleanup_stale_rules-text_of [] [] false old_chains old_table (unfold lacks in refl)

-- The tool of a host with these sets, one of which is in use.
abbrev shown : String
shown =
    "create KUBE-SRC-busy hash:ip\ncreate KUBE-SRC-old hash:ip\nadd KUBE-SRC-old 1.1.1.1\ncreate foo hash:ip\n"

take_away : String → List String → Result String × List String
take_away n w =
    if n == "KUBE-SRC-busy" then (err "set is in use", w) else (ok "", keep (λ m. not (n == m)) w)

answer : List String → List String → Result String × List String
unfolding take_away
answer (c ∷ []) w = if c == "save" then (ok shown, w) else (err "unknown", w)
answer (c ∷ n ∷ []) w = if c == "destroy" then take_away n w else (err "unknown", w)
answer args w = (err "unknown", w)

abbrev host_tool : Tool (List String)
host_tool = record { run = answer; run_with_stdin = λ stdin. answer }

abbrev shows : List String → String → Option (Unit {0})
shows w n = if any (λ m. m == n) w then some tt else none

any-keep_others :
    (n m : String) (w : List String)
    → any (λ j. j == m) (keep (λ j. not (n == j)) w) ≡ (not (n == m) && any (λ j. j == m) w)
any-keep_others n m [] = ground arith
any-keep_others n m (j ∷ w) =
    ground (arith, any-keep_others n m w, eq_iff n j, eq_iff j m, eq_iff n m)

host_tool-IsIpset : IsIpset host_tool shows
unfolding answer take_away
host_tool-IsIpset = record {
  destroys = λ n m out w h. ground (arith, any-keep_others n m w);
  fails = λ n m e w h. ground arith;
  saves = λ m w. refl;
}

abbrev shown_sets : List (String × Set)
shown_sets =
    ("KUBE-SRC-busy", record { name = "KUBE-SRC-busy"; entries = []; options = "hash:ip" ∷ [] })
    ∷ (
      "KUBE-SRC-old",
      record { name = "KUBE-SRC-old"; entries = ("1.1.1.1" ∷ []) ∷ []; options = "hash:ip" ∷ [] },
    )
    ∷ ("foo", record { name = "foo"; entries = []; options = "hash:ip" ∷ [] })
    ∷ []

shown_sets_parsed : parse_ipset_save shown ≡ some shown_sets
unfolding parse_ipset_save parse_lines split lookup insert
shown_sets_parsed = refl

abbrev host_names : List String
host_names = "KUBE-SRC-busy" ∷ "KUBE-SRC-old" ∷ "foo" ∷ []

cleanup_stale_ipsets-spared_example :
    (out : Result (Unit {0}) × Host (List String)) × (cleanup_stale_ipsets host_tool true
        (("KUBE-SRC-busy", true) ∷ [])
        host_names
      ≡ some out)
    × (stale_name (("KUBE-SRC-busy", true) ∷ []) "KUBE-SRC-old" ≡ false
        → shows out.1.world "KUBE-SRC-old" ≡ shows host_names "KUBE-SRC-old")
    × (out.0 ≡ ok tt
        → stale_name (("KUBE-SRC-busy", true) ∷ []) "KUBE-SRC-old" ≡ true
        → any (λ (s : Set). s.name == "KUBE-SRC-old") (values shown_sets) ≡ true
        → shows out.1.world "KUBE-SRC-old" ≡ none)
cleanup_stale_ipsets-spared_example =
    cleanup_stale_ipsets-spared host_tool shows host_tool-IsIpset (("KUBE-SRC-busy", true) ∷ [])
      host_names shown shown_sets "KUBE-SRC-old" (unfold answer in refl) shown_sets_parsed
