-- ===== src/Prelude/Parse.antt =====
-- strconv.Atoi and strconv.ParseUint on decimal texts.
use Prim.Native.Char.{code}
use Prim.Native.Nat.{ℕ, ◌+◌, ◌-◌, ◌*◌, ◌^◌}
use Prim.Native.String.{String}
use mathlib.Core.Bool.{◌&&◌}
use mathlib.Core.Path.{◌≡◌, refl}
use mathlib.Core.Option.{Option, none, some}
use kube_router.Prelude.Tests.{if◌then◌else◌, eqb, leb, ltb}

-- The digits from here on, behind a number that is read already.
unfoldable digits : ℕ → String → Option ℕ
digits n String.[] = some n
digits n (String.◌∷◌ c s) =
    let rest = digits (10 * n + (code c - 48)) s in
    if leb 48 (code c) && leb (code c) 57 then rest else none

unfoldable parse_digits : String → Option ℕ
unfolding digits
parse_digits String.[] = none
parse_digits (String.◌∷◌ c s) = digits 0 (String.◌∷◌ c s)

unfoldable below : ℕ → Option ℕ → Option ℕ
below bound none = none
below bound (some n) = if ltb n bound then some n else none

-- strconv.ParseUint(s, 10, bits); `none` is an error.
unfoldable pub parse_uint : ℕ → String → Option ℕ
unfolding below parse_digits
parse_uint bits s = below (2 ^ bits) (parse_digits s)

unfoldable zero_only : Option ℕ → Option ℕ
zero_only none = none
zero_only (some n) = if eqb n 0 then some 0 else none

-- strconv.Atoi where the caller rejects negative numbers too: `none` is an error or such a number.
unfoldable pub atoi_nonneg : String → Option ℕ
unfolding below parse_digits zero_only
atoi_nonneg String.[] = none
atoi_nonneg (String.◌∷◌ c s) =
    if eqb (code c) 45
    then zero_only (parse_digits s)
    else (if eqb (code c) 43
        then below (2 ^ 63) (parse_digits s)
        else below (2 ^ 63) (parse_digits (String.◌∷◌ c s)))

test_uint : parse_uint 32 "4294967296" ≡ none
unfolding parse_uint
test_uint = refl

test_atoi : atoi_nonneg "+24" ≡ some 24
unfolding atoi_nonneg
test_atoi = refl
