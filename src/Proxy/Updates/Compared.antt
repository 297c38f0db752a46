-- ===== src/Proxy/Updates/Compared.antt =====
-- What unsortedListsEquivalent tells (pkg/controllers/proxy/utils.go).
use mathlib.Core.Bool.{true≢false}
use kube_router.Prelude.{
  ℕ, suc, ◌+◌, ◌≡◌, refl, ◌∙◌, sym, ap, Bool, true, false, List, [], ◌∷◌, ◌&&◌, ◌||◌, not, any, all,
  eqb, eqb_iff, eq_iff, eq_refl, length, arith, if◌then◌else◌, Bool-cases, inl, inr,
}
use kube_router.Proxy.Info.{EndpointInfo}
use kube_router.Proxy.Info.Shuffled.{count}
use kube_router.Proxy.Updates.{
  same_bool, same_info, Values, value_of, mark, bump, mark_all, bump_all, info_keys, no_ones,
  unsorted_lists_equivalent,
}

abbrev pub has_info : EndpointInfo → List EndpointInfo → Bool
has_info k = any (λ e. same_info e k)

abbrev pub times : EndpointInfo → List EndpointInfo → ℕ
times k = count (λ e. same_info e k)

same_bool_refl : (b : Bool) → same_bool b b ≡ true
same_bool_refl true = refl
same_bool_refl false = refl

same_bool_eq : (b c : Bool) → same_bool b c ≡ true → b ≡ c
same_bool_eq true true h = refl
same_bool_eq true false h = sym h
same_bool_eq false true h = absurd cc
same_bool_eq false false h = refl

same_info_refl : (e : EndpointInfo) → same_info e e ≡ true
unfolding same_info
same_info_refl e = ground (arith, eq_refl e.ip, eqb_iff e.port e.port, same_bool_refl e.is_local)

same_info_eq : (e f : EndpointInfo) → same_info e f ≡ true → e ≡ f
unfolding same_info
same_info_eq e f h =
    let i : e.ip ≡ f.ip = (eq_iff e.ip f.ip).0 (ground arith) in
    let p : e.port ≡ f.port = (eqb_iff e.port f.port).0 (ground arith) in
    let l : e.is_local ≡ f.is_local = same_bool_eq e.is_local f.is_local (ground arith) in
    λ t. record { ip = i t; port = p t; is_local = l t }

same_info-shared : (e v k : EndpointInfo) → same_info e v ≡ true → same_info e k ≡ same_info v k
same_info-shared e v k h = ap (λ x. same_info x k) (same_info_eq e v h)

same_info-apart :
    (e v k : EndpointInfo) → same_info e v ≡ false → same_info e k ≡ true → same_info v k ≡ false
same_info-apart e v k h d = elim (Bool-cases (same_info v k)) [
  | inl s ↦ absurd (
      true≢false (
        sym (same_info_refl k)
        ∙ sym (ap (λ x. same_info k x) (same_info_eq v k s))
        ∙ sym (ap (λ x. same_info x v) (same_info_eq e k d))
        ∙ h))
  | inr s ↦ s
]

value_of-if :
    (k : EndpointInfo) (b : Bool) (m n : Values)
    → value_of k (if b then m else n) ≡ (if b then value_of k m else value_of k n)
value_of-if k true m n = refl
value_of-if k false m n = refl

value_of-mark :
    (k v : EndpointInfo) (m : Values)
    → value_of k (mark v m) ≡ (if same_info v k then 1 else value_of k m)
unfolding value_of mark
value_of-mark k v [] = refl
value_of-mark k v (e ∷ m) =
    value_of-if k (same_info e.0 v) ((e.0, 1) ∷ m) (e ∷ mark v m)
    ∙ elim (Bool-cases (same_info e.0 v)) [
      | inl h ↦ ground (arith, h, same_info-shared e.0 v k h)
      | inr h ↦ ground (arith, h, value_of-mark k v m, same_info-apart e.0 v k)
    ]

value_of-bump :
    (k v : EndpointInfo) (m : Values)
    → value_of k (bump v m) ≡ (if same_info v k then suc (value_of k m) else value_of k m)
unfolding value_of bump
value_of-bump k v [] = refl
value_of-bump k v (e ∷ m) =
    value_of-if k (same_info e.0 v) ((e.0, suc e.1) ∷ m) (e ∷ bump v m)
    ∙ elim (Bool-cases (same_info e.0 v)) [
      | inl h ↦ ground (arith, h, same_info-shared e.0 v k h)
      | inr h ↦ ground (arith, h, value_of-bump k v m, same_info-apart e.0 v k)
    ]

value_of-mark_all :
    (k : EndpointInfo) (a : List EndpointInfo) (m : Values)
    → value_of k (mark_all a m) ≡ (if has_info k a then 1 else value_of k m)
unfolding mark_all
value_of-mark_all k [] m = refl
value_of-mark_all k (v ∷ a) m =
    value_of-mark_all k a (mark v m) ∙ ground (arith, value_of-mark k v m)

value_of-bump_all :
    (k : EndpointInfo) (b : List EndpointInfo) (m : Values)
    → value_of k (bump_all b m) ≡ times k b + value_of k m
unfolding bump_all
value_of-bump_all k [] m = omega arith
value_of-bump_all k (v ∷ b) m =
    value_of-bump_all k b (bump v m) ∙ ground (arith, value_of-bump k v m)

value_of-marked :
    (k : EndpointInfo) (a b : List EndpointInfo)
    → value_of k (bump_all b (mark_all a [])) ≡ times k b + (if has_info k a then 1 else 0)
unfolding value_of
value_of-marked k a b =
    value_of-bump_all k b (mark_all a []) ∙ ap (λ n. times k b + n) (value_of-mark_all k a [])

module _ (p : EndpointInfo → Bool) where
  p-shared : (e v : EndpointInfo) → same_info e v ≡ true → p e ≡ p v
  p-shared e v h = ap p (same_info_eq e v h)

  keys_if :
      (b : Bool) (m n : Values)
      → all p (info_keys (if b then m else n))
        ≡ (if b then all p (info_keys m) else all p (info_keys n))
  keys_if true m n = refl
  keys_if false m n = refl

  all-keys-mark :
      (v : EndpointInfo) (m : Values) → all p (info_keys (mark v m)) ≡ (p v && all p (info_keys m))
  unfolding mark info_keys
  all-keys-mark v [] = refl
  all-keys-mark v (e ∷ m) =
      keys_if (same_info e.0 v) ((e.0, 1) ∷ m) (e ∷ mark v m)
      ∙ elim (Bool-cases (same_info e.0 v)) [
        | inl h ↦ ground (arith, h, p-shared e.0 v h)
        | inr h ↦ ground (arith, h, all-keys-mark v m)
      ]

  all-keys-bump :
      (v : EndpointInfo) (m : Values) → all p (info_keys (bump v m)) ≡ (p v && all p (info_keys m))
  unfolding bump info_keys
  all-keys-bump v [] = refl
  all-keys-bump v (e ∷ m) =
      keys_if (same_info e.0 v) ((e.0, suc e.1) ∷ m) (e ∷ bump v m)
      ∙ elim (Bool-cases (same_info e.0 v)) [
        | inl h ↦ ground (arith, h, p-shared e.0 v h)
        | inr h ↦ ground (arith, h, all-keys-bump v m)
      ]

  all-keys-mark_all :
      (a : List EndpointInfo) (m : Values)
      → all p (info_keys (mark_all a m)) ≡ (all p a && all p (info_keys m))
  unfolding mark_all
  all-keys-mark_all [] m = refl
  all-keys-mark_all (v ∷ a) m = all-keys-mark_all a (mark v m) ∙ ground (arith, all-keys-mark v m)

  all-keys-bump_all :
      (b : List EndpointInfo) (m : Values)
      → all p (info_keys (bump_all b m)) ≡ (all p b && all p (info_keys m))
  unfolding bump_all
  all-keys-bump_all [] m = refl
  all-keys-bump_all (v ∷ b) m = all-keys-bump_all b (bump v m) ∙ ground (arith, all-keys-bump v m)

-- Tests that agree on the members of a list agree on the list.
all-alike :
    (p q : EndpointInfo → Bool) (c : List EndpointInfo)
    → ((k : EndpointInfo) → has_info k c ≡ true → p k ≡ q k)
    → all p c ≡ all q c
all-alike p q [] h = refl
all-alike p q (v ∷ c) h =
    let first : p v ≡ q v = h v (ground (arith, same_info_refl v)) in
    let rest = all-alike p q c (λ k e. h k (ground (arith, e))) in ground (arith, first, rest)

times-has_info : (k : EndpointInfo) (c : List EndpointInfo) → eqb (times k c) 0 ≡ not (has_info k c)
times-has_info k [] = refl
times-has_info k (v ∷ c) =
    ground (arith, times-has_info k c, eqb_iff (times k c) 0, eqb_iff (times k (v ∷ c)) 0)

-- Two lists count as equivalent exactly if they are of the same length, each endpoint of the first is in
-- the second, and none that is not in the first is once in the second: how often an endpoint that is in
-- both is in each of them is not compared.
pub unsorted_lists_equivalent_lem :
    (a b : List EndpointInfo)
    → unsorted_lists_equivalent a b ≡ (
        eqb (length a) (length b)
        && (all (λ k. has_info k b) a && all (λ k. has_info k a || not (eqb (times k b) 1)) b))
unfolding unsorted_lists_equivalent no_ones
unsorted_lists_equivalent_lem a b =
    let m = bump_all b (mark_all a []) in
    let p = λ (k : EndpointInfo). not (eqb (value_of k m) 1) in
    let value = λ (k : EndpointInfo). value_of-marked k a b in
    let of_a =
      all-alike p (λ k. has_info k b) a
        (λ k h. ground (
          arith,
          h,
          value k,
          times-has_info k b,
          eqb_iff (value_of k m) 1,
          eqb_iff (times k b) 0,
        )) in
    let of_b =
      all-alike p (λ k. has_info k a || not (eqb (times k b) 1)) b
        (λ k h. ground (
          arith,
          h,
          value k,
          times-has_info k b,
          eqb_iff (value_of k m) 1,
          eqb_iff (times k b) 0,
          eqb_iff (times k b) 1,
        )) in
    ap (λ r. eqb (length a) (length b) && r)
      (all-keys-bump_all p b (mark_all a []) ∙ ground (arith, all-keys-mark_all p a [], of_a, of_b))
