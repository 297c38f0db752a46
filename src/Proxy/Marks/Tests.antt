-- ===== src/Proxy/Marks/Tests.antt =====
-- Runs of the search for FW marks (pkg/controllers/proxy/utils.go).
use kube_router.Prelude.{
  String, ℕ, zero, suc, ◌<◌, ◌≡◌, refl, ◌∙◌, ap, true, false, some, none, [], ◌∷◌, arith, leb,
  eqb_iff, if◌then◌else◌, ◌==◌,
}
use kube_router.Prelude.Decimal.{itoa}
use kube_router.Exec.{ok, err}
use kube_router.Prelude.Parse.{parse_uint}
use kube_router.Prelude.Text.Split.{lacks}
use kube_router.Proxy.Marks.{
  MarkMap, service_of, assign, service_key, generate_fw_mark, taken, generate_unique_fw_mark,
  lookup_service_by_fw_mark,
}
use kube_router.Proxy.Marks.Found.{
  all_taken, generate_unique_fw_mark-ends, generate_unique_fw_mark-none,
}
use kube_router.Proxy.Marks.Kept.{lookup-generate_unique_fw_mark}

test_mark : generate_fw_mark "192.0.2.1-tcp-80" 0 ≡ 10045
unfolding generate_fw_mark
test_mark = refl

-- The first mark of the service belongs to another one.
abbrev one_taken : MarkMap
one_taken = (10045, "192.0.2.7-tcp-443") ∷ []

abbrev key : String
key = service_key "192.0.2.1" "tcp" "80"

first_taken : all_taken key one_taken (generate_fw_mark key) 0 1 ≡ true
unfolding all_taken taken service_of service_key generate_fw_mark
first_taken = refl

second_free : taken key one_taken (generate_fw_mark key 1) ≡ false
unfolding taken service_of service_key generate_fw_mark itoa
second_free = refl

generate_unique_fw_mark-ends_example :
    generate_unique_fw_mark 2 "192.0.2.1" "tcp" "80" one_taken ≡ (
      if leb 16380 1
      then some (err "could not obtain a unique FWMark", one_taken)
      else some (ok (generate_fw_mark key 1), assign (generate_fw_mark key 1) key one_taken))
generate_unique_fw_mark-ends_example =
    generate_unique_fw_mark-ends "192.0.2.1" "tcp" "80" one_taken 1 2 first_taken second_free
      (omega arith)

-- A map in which another service has every mark below a bound.
unfoldable fill : ℕ → MarkMap
fill zero = []
fill (suc n) = (n, "192.0.2.7-tcp-443") ∷ fill n

taken-fill : (n mark : ℕ) → mark < n → taken key (fill n) mark ≡ true
unfolding fill taken service_of service_key
taken-fill zero mark h = absurd (omega arith)
taken-fill (suc n) mark h = let later = taken-fill n mark in ground (arith, later, eqb_iff n mark)

generate_unique_fw_mark-none_example :
    generate_unique_fw_mark 20000 "192.0.2.1" "tcp" "80" (fill 16384) ≡ none
generate_unique_fw_mark-none_example =
    generate_unique_fw_mark-none "192.0.2.1" "tcp" "80" (fill 16384) (taken-fill 16384) 20000

second_mark : generate_fw_mark key 1 ≡ 7059
unfolding generate_fw_mark service_key itoa
second_mark = refl

abbrev with_second : MarkMap
with_second = assign 7059 key one_taken

found_second :
    generate_unique_fw_mark 2 "192.0.2.1" "tcp" "80" one_taken ≡ some (ok 7059, with_second)
found_second =
    generate_unique_fw_mark-ends_example ∙ ap (λ n. some (ok n, assign n key one_taken)) second_mark

no_dash : (lacks "-" "192.0.2.1" ≡ true) × (lacks "-" "tcp" ≡ true) × (lacks "-" "80" ≡ true)
unfolding lacks
no_dash = (refl, refl, refl)

port_80 : parse_uint 31 "80" ≡ some 80
unfolding parse_uint
port_80 = refl

lookup-generate_unique_fw_mark_example :
    (lookup_service_by_fw_mark 7059 with_second ≡ ok ("192.0.2.1", "tcp", 80))
    × ((other : ℕ) (found : String)
        → service_of other one_taken ≡ some found
        → (found == key) ≡ false
        → service_of other with_second ≡ some found)
lookup-generate_unique_fw_mark_example =
    lookup-generate_unique_fw_mark "192.0.2.1" "tcp" "80" one_taken with_second 2 7059 80 no_dash.0
      no_dash.1 no_dash.2 port_80 found_second
