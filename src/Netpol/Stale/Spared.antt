-- ===== src/Netpol/Stale/Spared.antt =====
-- Which sets the clean-up destroys on the host (cleanupStaleIPSets of
-- pkg/controllers/netpol/network_policy_controller.go).
use mathlib.Core.Path.{subst, subst⁻¹}
use text.Mathlib.Text.{starts_with}
use kube_router.Prelude.{
  String, ◌≡◌, refl, ◌∙◌, ap, sym, Bool, true, false, Option, none, some, List, [], ◌∷◌, ◌&&◌, ◌||◌,
  ◌⊎◌, not, if_true, if_false, any, keep, all, ◌==◌, if◌then◌else◌, eq_iff, arith, Bool-cases, inl,
  inr,
}
use kube_router.Prelude.Text.{concat}
use kube_router.Exec.{Result, ok, err}
use kube_router.Dict.{keys, keys_lem, values}
use kube_router.IpSet.{Set, Tool, Host, empty_ipset, run, forget, kernel_name, destroy_set}
use kube_router.IpSet.Save.{parse_ipset_save, save, save_output, save_parsed}
use kube_router.Netpol.Stale.{
  is_active, stale_set, destroy_stale, cleanup_saved, cleanup_stale_ipsets,
}

-- The name is that of a set for a policy which is not active.
abbrev pub stale_name : List (String × Bool) → String → Bool
stale_name active n =
    (starts_with n "KUBE-SRC-" || starts_with n "KUBE-DST-")
    && not (any (λ j. j == n) (keys active))

stale_set-stale_name :
    (active : List (String × Bool)) (set : Set) → stale_set active set ≡ stale_name active set.name
unfolding stale_set is_active
stale_set-stale_name active set = ground (arith, keys_lem set.name active)

all-stale :
    (active : List (String × Bool)) (sets : List Set)
    → all (stale_set active) (keep (stale_set active) sets) ≡ true
all-stale active [] = refl
all-stale active (set ∷ sets) = ground (arith, all-stale active sets)

names_differ :
    (active : List (String × Bool)) (set : Set) (n : String)
    → stale_set active set ≡ true
    → stale_name active n ≡ false
    → (set.name == n) ≡ false
names_differ active set n a s = elim (Bool-cases (set.name == n)) [
  | inr e ↦ e
  | inl e ↦
      let q : set.name ≡ n = (eq_iff set.name n).0 e in
      let a' : stale_name active n ≡ true =
        subst (λ k. stale_name active k ≡ true) q (sym (stale_set-stale_name active set) ∙ a) in
      absurd cc
]

if_same : {A : Type 0} (b : Bool) (o : Option A) → o ≡ none → (if b then none else o) ≡ none
if_same true o h = refl
if_same false o h = h

module _ {W A : Type 0} (tool : Tool W) (shows : W → String → Option A) where
  -- What the program relies on of ipset (man ipset), of what the host shows of its sets: `destroy` takes
  -- away the set it names and no other, or fails and changes nothing, and `save` changes nothing.
  pub record IsIpset : Type 0 where
    pub destroys :
        (n m out : String) (w : W)
        → (tool.run ("destroy" ∷ n ∷ []) w).0 ≡ ok out
        → shows (tool.run ("destroy" ∷ n ∷ []) w).1 m ≡ (if n == m then none else shows w m)
    pub fails :
        (n m e : String) (w : W)
        → (tool.run ("destroy" ∷ n ∷ []) w).0 ≡ err e
        → shows (tool.run ("destroy" ∷ n ∷ []) w).1 m ≡ shows w m
    pub saves : (m : String) (w : W) → shows (tool.run ("save" ∷ []) w).1 m ≡ shows w m

  module _ (ipset : IsIpset) (active : List (String × Bool)) where
    -- A run from `w` over some sets: sets that are not stale are as they were, what is gone stays gone, and
    -- after a success all the sets are gone.
    record Cleaned (sets : List Set) (w : W) (out : Result (Unit {0}) × Host W) : Type 0 where
      spared : (n : String) → stale_name active n ≡ false → shows out.1.world n ≡ shows w n
      gone : (n : String) → shows w n ≡ none → shows out.1.world n ≡ none
      done :
          (n : String)
          → out.0 ≡ ok tt
          → any (λ (s : Set). s.name == n) sets ≡ true
          → shows out.1.world n ≡ none

    abbrev called : Set → Host W → Result String × W
    called set h = tool.run ("destroy" ∷ set.name ∷ []) h.world

    world-destroy_set :
        (set : Set) (h : Host W)
        → h.ipset.is_ipv6 ≡ false
        → (destroy_set tool set h).1.world ≡ (called set h).1
    unfolding destroy_set forget run kernel_name
    world-destroy_set set h v = ground arith

    is_ipv6-destroy_set :
        (set : Set) (h : Host W) → (destroy_set tool set h).1.ipset.is_ipv6 ≡ h.ipset.is_ipv6
    unfolding destroy_set forget run
    is_ipv6-destroy_set set h = ground arith

    destroy_ok :
        (set : Set) (sets : List Set) (h : Host W) (out : String)
        → h.ipset.is_ipv6 ≡ false
        → (called set h).0 ≡ ok out
        → destroy_stale tool (set ∷ sets) h ≡ destroy_stale tool sets (destroy_set tool set h).1
    unfolding destroy_stale destroy_set forget run kernel_name
    destroy_ok set sets h out v r = ground arith

    destroy_err :
        (set : Set) (sets : List Set) (h : Host W) (e : String)
        → h.ipset.is_ipv6 ≡ false
        → (called set h).0 ≡ err e
        → destroy_stale tool (set ∷ sets) h ≡ (
          err (concat ("failed to delete ipset " ∷ set.name ∷ " due to " ∷ e ∷ [])),
          (destroy_set tool set h).1,
        )
    unfolding destroy_stale destroy_set forget run kernel_name
    destroy_err set sets h e v r = ground arith

    result-cases :
        {B : Type 0} (r : Result B) → ((b : B) × (r ≡ ok b)) ⊎ ((e : String) × (r ≡ err e))
    result-cases (ok b) = inl (b, refl)
    result-cases (err e) = inr (e, refl)

    Cleaned-destroy_stale :
        (sets : List Set) (h : Host W)
        → h.ipset.is_ipv6 ≡ false
        → all (stale_set active) sets ≡ true
        → Cleaned sets h.world (destroy_stale tool sets h)
    unfolding destroy_stale
    Cleaned-destroy_stale [] h v a = record {
      spared = λ n s. refl;
      gone = λ n g. g;
      done = λ n r i. absurd cc;
    }
    Cleaned-destroy_stale (set ∷ sets) h v a =
        let h1 = (destroy_set tool set h).1 in
        let at = world-destroy_set set h v in
        let stale : stale_set active set ≡ true = ground arith in
        elim (result-cases (called set h).0) [
          | inl (out, r) ↦
              let step =
                λ (n : String). ap (λ w. shows w n) at ∙ ipset.destroys set.name n out h.world r in
              let later =
                Cleaned-destroy_stale sets h1 (is_ipv6-destroy_set set h ∙ v) (ground arith) in
              subst⁻¹ (Cleaned (set ∷ sets) h.world) (destroy_ok set sets h out v r) (record {
                spared = λ n s.
                    later.spared n s
                    ∙ step n
                    ∙ if_false (set.name == n) none (shows h.world n)
                        (names_differ active set n stale s);
                gone = λ n g. later.gone n (step n ∙ if_same (set.name == n) (shows h.world n) g);
                done = λ n ok' i. elim (Bool-cases (set.name == n)) [
                  | inl e ↦ later.gone n (step n ∙ if_true (set.name == n) none (shows h.world n) e)
                  | inr e ↦ later.done n ok' (ground arith)
                ];
              })
          | inr (e, r) ↦
              let step =
                λ (n : String). ap (λ w. shows w n) at ∙ ipset.fails set.name n e h.world r in
              subst⁻¹ (Cleaned (set ∷ sets) h.world) (destroy_err set sets h e v r) (record {
                spared = λ n s. step n;
                gone = λ n g. step n ∙ g;
                done = λ n ok' i. absurd cc;
              })
        ]

    any-stale :
        (n : String) (sets : List Set)
        → stale_name active n ≡ true
        → any (λ (s : Set). s.name == n) sets ≡ true
        → any (λ (s : Set). s.name == n) (keep (stale_set active) sets) ≡ true
    any-stale n [] s i = i
    any-stale n (set ∷ sets) s i = elim (Bool-cases (set.name == n)) [
      | inl e ↦
          let q : set.name ≡ n = (eq_iff set.name n).0 e in
          let stale : stale_set active set ≡ true =
            stale_set-stale_name active set ∙ ap (stale_name active) q ∙ s in
          ground arith
      | inr e ↦ let rest = any-stale n sets s (ground arith) in ground arith
    ]

    -- If ipset shows its sets in the form that the parser reads, cleanupStaleIPSets comes to an end. On the
    -- host it then leaves every set alone whose name is active, or has no prefix of sets for policies,
    -- whether a deletion fails or not; and if it reports no error, no set that was shown is left whose name
    -- has such a prefix and is not active.
    pub cleanup_stale_ipsets-spared :
        (w : W) (stdout : String) (sets : List (String × Set)) (n : String)
        → (tool.run ("save" ∷ []) w).0 ≡ ok stdout
        → parse_ipset_save stdout ≡ some sets
        → (out : Result (Unit {0}) × Host W) × (cleanup_stale_ipsets tool true active w ≡ some out)
          × (stale_name active n ≡ false → shows out.1.world n ≡ shows w n)
          × (out.0 ≡ ok tt
              → stale_name active n ≡ true
              → any (λ (s : Set). s.name == n) (values sets) ≡ true
              → shows out.1.world n ≡ none)
    unfolding cleanup_stale_ipsets cleanup_saved save save_output save_parsed run empty_ipset
    cleanup_stale_ipsets-spared w stdout sets n shown parsed =
        let h : Host W = record {
          ipset = record { sets = sets; is_ipv6 = false };
          world = (tool.run ("save" ∷ []) w).1;
        } in
        let stale = keep (stale_set active) (values sets) in
        let c = Cleaned-destroy_stale stale h refl (all-stale active (values sets)) in
        (
          destroy_stale tool stale h,
          ground (arith, shown, parsed),
          λ s. c.spared n s ∙ ipset.saves n w,
          λ r s i. c.done n r (any-stale n (values sets) s i),
        )
