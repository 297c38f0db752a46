-- ===== src/Netpol/Stale/Removed.antt =====
-- Which chains are cleaned up, and what the table holds after it.
use Prim.Native.Char.{code}
use text.Mathlib.Text.{starts_with}
use text.Mathlib.TextEquality.{starts_with_iff}
use text.Mathlib.TextLemmas.{append_assoc, append_cancel_left, cons-append, head-eq_of_cons-eq}
use kube_router.Prelude.{
  String, ℕ, ◌≡◌, refl, ◌∙◌, ap, sym, Bool, true, false, Option, none, some, List, [], ◌∷◌, ◌&&◌,
  ◌||◌, not, any, if◌then◌else◌, ◌==◌, eq_iff, arith, Bool-cases, inl, inr,
}
use kube_router.Prelude.Text.{cat}
use kube_router.Dict.{lookup, insert, lookup-insert, keys, values, keys_lem}
use kube_router.Netpol.{PodInfo, NetworkPolicyInfo, Sync}
use kube_router.Netpol.Api.{Pod}
use kube_router.Netpol.Names.{pod_firewall_chain_name}
use kube_router.Netpol.PodFirewall.{local_pods, sync_pod_firewall_chains}
use kube_router.Netpol.PodRules.{Rules}
use kube_router.Netpol.PodFirewall.Local.{sync_pod_firewall_chains-active}
use kube_router.Netpol.PolicyChains.{Chains, chain_of, sync_policy, sync_policies}
use kube_router.Netpol.Stale.{
  is_active, stale_policy_chain, stale_pod_chain, stale_chains, pick_chain, is_default_chain,
}

any-pick_policies :
    (d sp sd : Bool) (c chain : String) (rest : List String × List String)
    → (sp && d) ≡ false
    → any (λ j. j == c) (pick_chain d sp sd chain rest).1
      ≡ (((chain == c) && sp) || any (λ j. j == c) rest.1)
unfolding pick_chain
any-pick_policies d sp sd c chain rest h = ground arith

any-pick_pods :
    (d sp sd : Bool) (c chain : String) (rest : List String × List String)
    → (sd && (d || sp)) ≡ false
    → any (λ j. j == c) (pick_chain d sp sd chain rest).0
      ≡ (((chain == c) && sd) || any (λ j. j == c) rest.0)
unfolding pick_chain
any-pick_pods d sp sd c chain rest h = ground arith

-- A test that holds of a text holds of an equal one.
at_same :
    (f : String → Bool) (chain c : String) (later out : Bool)
    → later ≡ (out && f c)
    → (((chain == c) && f chain) || later) ≡ (((chain == c) || out) && f c)
at_same f chain c later out h = elim (Bool-cases (chain == c)) [
  | inl e ↦ let q : chain ≡ c = (eq_iff chain c).0 e in rw (q, h) (ground arith)
  | inr e ↦ rw (e, h) (ground arith)
]

and_last : (a b c : Bool) → ((a && (not b && c)) && (a && b)) ≡ false
and_last true true c = refl
and_last true false c = ground arith
and_last false b c = refl

-- No name has both prefixes.
prefixes_differ :
    (c : String) → (starts_with c "KUBE-POD-FW-" && starts_with c "KUBE-NWPLCY-") ≡ false
prefixes_differ c = elim (Bool-cases (starts_with c "KUBE-POD-FW-")) [
  | inr e ↦ rw e refl
  | inl e ↦ elim (Bool-cases (starts_with c "KUBE-NWPLCY-")) [
    | inr f ↦ rw (e, f) refl
    | inl f ↦
        let (u, p) = (starts_with_iff c "KUBE-POD-FW-").0 e in
        let (v, q) = (starts_with_iff c "KUBE-NWPLCY-").0 f in
        let same : cat "KUBE-" (cat "POD-FW-" u) ≡ cat "KUBE-" (cat "NWPLCY-" v) =
          sym (append_assoc "KUBE-" "POD-FW-" u) ∙ p ∙ sym q ∙ append_assoc "KUBE-" "NWPLCY-" v in
        let cut : cat "POD-FW-" u ≡ cat "NWPLCY-" v = append_cancel_left "KUBE-" _ _ same in
        let first =
          head-eq_of_cons-eq
            (sym (cons-append "P" "OD-FW-" u) ∙ cut ∙ cons-append "N" "WPLCY-" v) in
        let codes : ◌≡◌ {A = ℕ} 80 78 = ap code first in absurd (omega arith)
  ]
]

not_policy_prefix :
    (a b p d q : Bool) → (a && b) ≡ false → ((a && p) && ((b && d) || (b && q))) ≡ false
not_policy_prefix a b p d q h = ground arith

module _ (policies pods : List (String × Bool)) where
  pub not_default :
      (chain : String) → (stale_policy_chain policies chain && is_default_chain chain) ≡ false
  unfolding stale_policy_chain
  not_default chain = and_last _ (chain == "KUBE-NWPLCY-DEFAULT") (not (is_active policies chain))

  any-stale_policies :
      (chains : List String) (c : String)
      → any (λ j. j == c) (stale_chains policies pods chains).1
        ≡ (any (λ j. j == c) chains && stale_policy_chain policies c)
  unfolding stale_chains
  any-stale_policies [] c = refl
  any-stale_policies (chain ∷ chains) c =
      any-pick_policies (is_default_chain chain) (stale_policy_chain policies chain)
        (stale_pod_chain pods chain) c chain (stale_chains policies pods chains) (not_default chain)
      ∙ at_same (stale_policy_chain policies) chain c _ (any (λ j. j == c) chains)
          (any-stale_policies chains c)

  pub not_policy_chain :
      (chain : String)
      → (stale_pod_chain pods chain
          && (is_default_chain chain || stale_policy_chain policies chain))
        ≡ false
  unfolding stale_pod_chain stale_policy_chain
  not_policy_chain chain =
      not_policy_prefix (starts_with chain "KUBE-POD-FW-") (starts_with chain "KUBE-NWPLCY-") _ _ _
        (prefixes_differ chain)

  any-stale_pods :
      (chains : List String) (c : String)
      → any (λ j. j == c) (stale_chains policies pods chains).0
        ≡ (any (λ j. j == c) chains && stale_pod_chain pods c)
  unfolding stale_chains
  any-stale_pods [] c = refl
  any-stale_pods (chain ∷ chains) c =
      any-pick_pods (is_default_chain chain) (stale_policy_chain policies chain)
        (stale_pod_chain pods chain) c chain (stale_chains policies pods chains)
        (not_policy_chain chain)
      ∙ at_same (stale_pod_chain pods) chain c _ (any (λ j. j == c) chains)
          (any-stale_pods chains c)

pub is_active-keys :
    (c : String) (active : List (String × Bool))
    → is_active active c ≡ any (λ j. j == c) (keys active)
unfolding is_active
is_active-keys c active = sym (keys_lem c active)

active_if :
    (b : Bool) (o o' : Option Bool)
    → o' ≡ (if b then some true else o)
    → elim o' [ none ↦ false | some x ↦ true ] ≡ (b || elim o [ none ↦ false | some x ↦ true ])
active_if b o o' h = ground arith

is_active-insert :
    (k c : String) (active : List (String × Bool))
    → is_active (insert k true active) c ≡ ((k == c) || is_active active c)
unfolding is_active
is_active-insert k c active = active_if (k == c) _ _ (lookup-insert k c true active)

moved : (a b rest : Bool) → ((a || b) || rest) ≡ (b || (a || rest))
moved a b rest = ground arith

none_active : (c : String) → is_active [] c ≡ false
unfolding is_active lookup
none_active c = refl

module _ (hash : String → String) (version : String) where
  is_active-sync_policies :
      (policies : List NetworkPolicyInfo) (chains : Chains) (st : Sync) (c : String)
      → is_active (sync_policies hash version policies (chains, st)).0 c
        ≡ (is_active chains c || any (λ p. chain_of hash version p == c) policies)
  unfolding sync_policies
  is_active-sync_policies [] chains st c = ground arith
  is_active-sync_policies (policy ∷ policies) chains st c =
      is_active-sync_policies policies (insert (chain_of hash version policy) true chains)
        (sync_policy hash version policy st) c
      ∙ rw (is_active-insert (chain_of hash version policy) c chains)
          (moved (chain_of hash version policy == c) (is_active chains c) _)

  -- After a sync of the policies and of the pods, the chains that are cleaned up are these, of those that
  -- iptables lists: of the chains with the prefix of policies all but the default chain and the chains of
  -- the policies, and of those with the prefix of pods all but the chains of the node's pods.
  pub stale_chains-after_sync :
      (policies : List NetworkPolicyInfo) (st : Sync) (node_ip : String) (pods : List Pod)
      (rules : Rules) (listed : List String) (c : String)
      → (any
            (λ j. j == c)
            (stale_chains
              (sync_policies hash version policies ([], st)).0
              (sync_pod_firewall_chains hash version node_ip pods policies rules).0
              listed).1
          ≡ (any (λ j. j == c) listed
              && (starts_with c "KUBE-NWPLCY-"
                  && (not (c == "KUBE-NWPLCY-DEFAULT")
                      && not (any (λ p. chain_of hash version p == c) policies)))))
        × (any
              (λ j. j == c)
              (stale_chains
                (sync_policies hash version policies ([], st)).0
                (sync_pod_firewall_chains hash version node_ip pods policies rules).0
                listed).0
            ≡ (any (λ j. j == c) listed
                && (starts_with c "KUBE-POD-FW-"
                    && not (
                        any
                          (λ (p : PodInfo).
                            pod_firewall_chain_name hash p.namespace p.name version == c)
                          (values (local_pods node_ip pods []))))))
  unfolding stale_policy_chain stale_pod_chain
  stale_chains-after_sync policies st node_ip pods rules listed c =
      let active = (sync_policies hash version policies ([], st)).0 in
      let active_pods = (sync_pod_firewall_chains hash version node_ip pods policies rules).0 in
      let a = is_active-sync_policies policies [] st c in
      let b =
        is_active-keys c active_pods
        ∙ sync_pod_firewall_chains-active hash version policies node_ip pods rules c in
      (
        any-stale_policies active active_pods listed c ∙ rw (a, none_active c) refl,
        any-stale_pods active active_pods listed c ∙ rw b refl,
      )
