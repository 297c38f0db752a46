-- ===== src/Proxy/Marks.antt =====
-- FW marks of services (generateUniqueFWMark and the two lookups of pkg/controllers/proxy/utils.go).
pub mod Found
pub mod Kept
mod Tests
use Prim.Native.Char.{code}
use kube_router.Prelude.{
  String, ℕ, zero, suc, ◌+◌, ◌*◌, ◌/◌, ◌%◌, ◌^◌, Bool, true, false, Option, none, some, List, [],
  ◌∷◌, ◌&&◌, not, eqb, leb, if◌then◌else◌, ◌==◌,
}
use kube_router.Prelude.Decimal.{itoa}
use kube_router.Prelude.Text.{cat, split}
use kube_router.Prelude.Parse.{parse_uint}
use kube_router.Exec.{Result, ok, err}

-- fwMarkMap, as an association list in the order of insertion.
abbrev pub MarkMap : Type 0
MarkMap = List (ℕ × String)

unfoldable pub service_of : ℕ → MarkMap → Option String
service_of mark [] = none
service_of mark (e ∷ m) = let later = service_of mark m in if eqb e.0 mark then some e.1 else later

unfoldable pub assign : ℕ → String → MarkMap → MarkMap
assign mark service [] = (mark, service) ∷ []
assign mark service (e ∷ m) =
    let later = assign mark service m in if eqb e.0 mark then (mark, service) ∷ m else e ∷ later

-- The exclusive or of the lowest bits of two numbers.
unfoldable xor_bits : ℕ → ℕ → ℕ → ℕ
xor_bits zero a b = 0
xor_bits (suc bits) a b = (a % 2 + b % 2) % 2 + 2 * xor_bits bits (a / 2) (b / 2)

-- hash/fnv.New32a over the bytes of an ASCII text.
unfoldable fnv : ℕ → String → ℕ
unfolding xor_bits
fnv h String.[] = h
fnv h (String.◌∷◌ c s) = fnv ((xor_bits 32 h (code c) * 16777619) % 2 ^ 32) s

unfoldable pub service_key : String → String → String → String
service_key ip protocol port = cat ip (cat "-" (cat protocol (cat "-" port)))

unfoldable pub hashed_text : String → ℕ → String
hashed_text key zero = key
hashed_text key (suc increment) = cat key (cat "-" (itoa (suc increment)))

-- generateFWMark, the anonymous function; writing to a hash does not fail.
unfoldable pub generate_fw_mark : String → ℕ → ℕ
unfolding fnv hashed_text
generate_fw_mark key increment = fnv 2166136261 (hashed_text key increment) % 16384

-- The mark belongs to another service.
unfoldable pub taken : String → MarkMap → ℕ → Bool
unfolding service_of
taken key m mark = elim (service_of mark m) [ none ↦ false | some found ↦ not (found == key) ]

abbrev pub max_unique_fw_mark_inc : ℕ
max_unique_fw_mark_inc = 16380

abbrev pub Marked : Type 0
Marked = Option (Result ℕ × MarkMap)

-- The end of the loop at a mark that is not taken.
unfoldable pub settle : String → MarkMap → ℕ → ℕ → Marked
unfolding assign
settle key m increment mark =
    if leb max_unique_fw_mark_inc increment
    then some (err "could not obtain a unique FWMark", m)
    else some (ok mark, assign mark key m)

unfoldable pub next_or : Bool → Marked → Marked → Marked
next_or true next settled = next
next_or false next settled = settled

-- The loop of generateUniqueFWMark; `none` is more rounds than the fuel. The mark is a parameter here, a
-- function of the increment.
unfoldable pub search_mark : String → MarkMap → (ℕ → ℕ) → ℕ → ℕ → Marked
unfolding next_or taken settle
search_mark key m mark_at zero increment = none
search_mark key m mark_at (suc fuel) increment =
    next_or (taken key m (mark_at increment)) (search_mark key m mark_at fuel (suc increment))
      (settle key m increment (mark_at increment))

-- generateUniqueFWMark
unfoldable pub generate_unique_fw_mark : ℕ → String → String → String → MarkMap → Marked
unfolding search_mark generate_fw_mark service_key
generate_unique_fw_mark fuel ip protocol port m =
    search_mark (service_key ip protocol port) m (generate_fw_mark (service_key ip protocol port))
      fuel 0

-- lookupFWMarkByService; 0 if there is none. Go leaves the order of iteration open, the model takes the
-- order of insertion.
unfoldable pub mark_of : String → MarkMap → ℕ
mark_of needle [] = 0
mark_of needle (e ∷ m) = let later = mark_of needle m in if needle == e.1 then e.0 else later

unfoldable pub lookup_fw_mark_by_service : String → String → String → MarkMap → ℕ
unfolding mark_of service_key
lookup_fw_mark_by_service ip protocol port m = mark_of (service_key ip protocol port) m

-- The key must have three parts, the last a number below 2^31. strconv.ParseInt takes a sign too, which no
-- key that the loop has written has.
unfoldable pub with_port : String → String → Option ℕ → Result (String × String × ℕ)
with_port ip protocol none =
    err "port number for service key for found FW mark was not a 32-bit int"
with_port ip protocol (some port) = ok (ip, protocol, port)

unfoldable pub of_parts : List String → Result (String × String × ℕ)
unfolding with_port
of_parts (ip ∷ protocol ∷ port ∷ []) = with_port ip protocol (parse_uint 31 port)
of_parts _ = err "service key for found FW mark did not have 3 parts, this shouldn't be possible"

unfoldable pub of_service : Option String → Result (String × String × ℕ)
unfolding of_parts
of_service none = err "could not find service matching the given FW mark"
of_service (some key) = of_parts (split "-" key)

-- lookupServiceByFWMark
unfoldable pub lookup_service_by_fw_mark : ℕ → MarkMap → Result (String × String × ℕ)
unfolding of_service service_of
lookup_service_by_fw_mark mark m = of_service (service_of mark m)
