-- ===== src/Proxy/Info/Shuffled.antt =====
-- `shuffle` loses and doubles no endpoint (pkg/controllers/proxy/network_services_controller.go).
use mathlib.Core.Path.{subst⁻¹}
use native.Mathlib.Nat.{mod-lt}
use kube_router.Prelude.{
  ℕ, zero, suc, ◌+◌, ◌%◌, ◌<◌, ◌≡◌, refl, ◌∙◌, ap, Bool, List, [], ◌∷◌, arith, length,
  if◌then◌else◌,
}
use kube_router.Proxy.Info.{EndpointInfo, nth, set_nth, swap, shuffle_from, shuffle, no_endpoint}

-- How many elements pass the test.
abbrev pub count : {A : Type 0} → (A → Bool) → List A → ℕ
count p [] = 0
count p (x ∷ xs) = (if p x then 1 else 0) + count p xs

module _ {A : Type 0} (default : A) (p : A → Bool) where
  abbrev one : A → ℕ
  one x = if p x then 1 else 0

  count-set_nth :
      (v : A) (i : ℕ) (xs : List A)
      → i < length xs
      → count p (set_nth v i xs) + one (nth default i xs) ≡ count p xs + one v
  unfolding set_nth nth
  count-set_nth v i [] h = absurd (omega arith)
  count-set_nth v zero (x ∷ xs) h = omega arith
  count-set_nth v (suc i) (x ∷ xs) h =
      let rest = count-set_nth v i xs (omega arith) in omega (arith, rest)

  nth-set_nth :
      (i j : ℕ) (xs : List A) → nth default j (set_nth (nth default j xs) i xs) ≡ nth default j xs
  unfolding set_nth nth
  nth-set_nth i j [] = refl
  nth-set_nth zero zero (x ∷ xs) = refl
  nth-set_nth zero (suc j) (x ∷ xs) = refl
  nth-set_nth (suc i) zero (x ∷ xs) = refl
  nth-set_nth (suc i) (suc j) (x ∷ xs) = nth-set_nth i j xs

  length-set_nth : (v : A) (i : ℕ) (xs : List A) → length (set_nth v i xs) ≡ length xs
  unfolding set_nth
  length-set_nth v i [] = refl
  length-set_nth v zero (x ∷ xs) = refl
  length-set_nth v (suc i) (x ∷ xs) = ap suc (length-set_nth v i xs)

  count-swap :
      (i j : ℕ) (xs : List A)
      → i < length xs
      → j < length xs
      → count p (swap default i j xs) ≡ count p xs
  unfolding swap
  count-swap i j xs hi hj =
      let first = count-set_nth (nth default j xs) i xs hi in
      let middle = set_nth (nth default j xs) i xs in
      let second =
        count-set_nth (nth default i xs) j middle
          (subst⁻¹ (λ n. j < n) (length-set_nth (nth default j xs) i xs) hj) in
      let same = ap one (nth-set_nth i j xs) in omega (arith, first, second, same)

  length-swap : (i j : ℕ) (xs : List A) → length (swap default i j xs) ≡ length xs
  unfolding swap
  length-swap i j xs =
      length-set_nth (nth default i xs) j (set_nth (nth default j xs) i xs)
      ∙ length-set_nth (nth default j xs) i xs

  count-shuffle_from :
      (random : ℕ → ℕ) (rounds i : ℕ) (xs : List A)
      → rounds + i ≡ length xs
      → count p (shuffle_from default random rounds i xs) ≡ count p xs
  unfolding shuffle_from
  count-shuffle_from random zero i xs h = refl
  count-shuffle_from random (suc rounds) i xs h =
      let j = random i % suc i in
      let below : j < suc i = mod-lt (random i) (omega arith) in
      count-shuffle_from random rounds (suc i) (swap default i j xs)
        (omega (arith, length-swap i j xs))
      ∙ count-swap i j xs (omega arith) (omega arith)

-- Whatever the random numbers are, a shuffled list holds the same endpoints, each as often.
count-shuffle :
    (p : EndpointInfo → Bool) (random : ℕ → ℕ) (endpoints : List EndpointInfo)
    → count p (shuffle random endpoints) ≡ count p endpoints
unfolding shuffle
count-shuffle p random endpoints =
    count-shuffle_from no_endpoint p random (length endpoints) 0 endpoints (omega arith)
