-- ===== src/Prelude/Decimal.antt =====
-- strconv.Itoa on the numbers at least 0.
use Prim.Native.Nat.{ℕ, zero, suc, ◌/◌, ◌%◌, ◌<◌, ◌≤◌}
use Prim.Native.String.{String, ◌++◌ as append}
use mathlib.Core.Path.{◌≡◌, refl, ap}
use mathlib.Core.Bool.{false}
use mathlib.Core.Logic.{inl, inr}
use native.Mathlib.Omega.{arith}
use kube_router.Prelude.Tests.{ltb, ltb_iff, Bool-cases, if◌then◌else◌}

unfoldable pub digit_text : ℕ → String
digit_text zero = "0"
digit_text (suc zero) = "1"
digit_text (suc (suc zero)) = "2"
digit_text (suc (suc (suc zero))) = "3"
digit_text (suc (suc (suc (suc zero)))) = "4"
digit_text (suc (suc (suc (suc (suc zero))))) = "5"
digit_text (suc (suc (suc (suc (suc (suc zero)))))) = "6"
digit_text (suc (suc (suc (suc (suc (suc (suc zero))))))) = "7"
digit_text (suc (suc (suc (suc (suc (suc (suc (suc zero)))))))) = "8"
digit_text _ = "9"

-- A number has at most as many digits as it has units, and at least one.
unfoldable pub itoa_fuel : ℕ → ℕ → String
unfolding digit_text
itoa_fuel zero n = ""
itoa_fuel (suc fuel) n =
    let more = append (itoa_fuel fuel (n / 10)) (digit_text (n % 10)) in
    if ltb n 10 then digit_text n else more

unfoldable pub itoa : ℕ → String
unfolding itoa_fuel
itoa n = itoa_fuel (suc n) n

-- Fuel above the number is enough, and more changes nothing.
itoa_fuel-enough : (f g n : ℕ) → n < f → n < g → itoa_fuel f n ≡ itoa_fuel g n
unfolding itoa_fuel
itoa_fuel-enough zero g n h k = absurd (omega arith)
itoa_fuel-enough (suc f) zero n h k = absurd (omega arith)
itoa_fuel-enough (suc f) (suc g) n h k = elim (Bool-cases (ltb n 10)) [
  | inl e ↦ rw e refl
  | inr e ↦
      let big : 10 ≤ n = ground (arith, ltb_iff n 10) in
      rw e (
        ap (λ s. append s (digit_text (n % 10)))
          (itoa_fuel-enough f g (n / 10) (omega arith) (omega arith)))
]

-- From ten on, the text of a number is that of its tenth, and its last digit.
itoa_tens : (n : ℕ) → 10 ≤ n → itoa n ≡ append (itoa (n / 10)) (digit_text (n % 10))
unfolding itoa itoa_fuel
itoa_tens n h =
    let big : ltb n 10 ≡ false = ground (arith, ltb_iff n 10) in
    rw big (
      ap (λ s. append s (digit_text (n % 10)))
        (itoa_fuel-enough n (suc (n / 10)) (n / 10) (omega arith) (omega arith)))

itoa_test : itoa 65535 ≡ "65535"
unfolding itoa
itoa_test = refl
