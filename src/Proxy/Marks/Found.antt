-- ===== src/Proxy/Marks/Found.antt =====
-- When the loop of generateUniqueFWMark ends (pkg/controllers/proxy/utils.go).
use kube_router.Prelude.{
  String, ℕ, zero, suc, ◌+◌, ◌<◌, ◌≡◌, refl, ◌∙◌, ap, if◌then◌else◌, Bool, true, false, none, some,
  ◌&&◌, arith, leb,
}
use kube_router.Exec.{ok, err}
use kube_router.Proxy.Marks.{
  MarkMap, Marked, service_key, generate_fw_mark, taken, settle, assign, next_or, search_mark,
  generate_unique_fw_mark,
}

go_on : (b : Bool) (next settled : Marked) → b ≡ true → next_or b next settled ≡ next
unfolding next_or
go_on true next settled h = refl
go_on false next settled h = absurd cc

stop : (b : Bool) (next settled : Marked) → b ≡ false → next_or b next settled ≡ settled
unfolding next_or
stop false next settled h = refl
stop true next settled h = absurd cc

-- The increment so many rounds later.
unfoldable later : ℕ → ℕ → ℕ
later zero start = start
later (suc rounds) start = later rounds (suc start)

later_sum : (rounds start : ℕ) → later rounds start ≡ rounds + start
unfolding later
later_sum zero start = omega arith
later_sum (suc rounds) start = later_sum rounds (suc start) ∙ omega arith

module _ (key : String) (m : MarkMap) (mark_at : ℕ → ℕ) where
  -- The marks of so many rounds from a start are all taken.
  unfoldable pub all_taken : ℕ → ℕ → Bool
  all_taken start zero = true
  all_taken start (suc rounds) = taken key m (mark_at start) && all_taken (suc start) rounds

  -- With more fuel than rounds at taken marks, the loop settles at the first one that is not.
  search_mark-settle :
      (rounds fuel start : ℕ)
      → rounds < fuel
      → all_taken start rounds ≡ true
      → taken key m (mark_at (later rounds start)) ≡ false
      → search_mark key m mark_at fuel start
        ≡ settle key m (later rounds start) (mark_at (later rounds start))
  unfolding search_mark all_taken later
  search_mark-settle rounds zero start enough h free = absurd (omega arith)
  search_mark-settle zero (suc fuel) start enough h free = stop _ _ _ free
  search_mark-settle (suc rounds) (suc fuel) start enough h free =
      go_on (taken key m (mark_at start)) _ _ (ground arith)
      ∙ search_mark-settle rounds fuel (suc start) (omega arith) (ground arith) free

  search_mark-none :
      ((increment : ℕ) → taken key m (mark_at increment) ≡ true)
      → (fuel start : ℕ) → search_mark key m mark_at fuel start ≡ none
  unfolding search_mark next_or
  search_mark-none h zero start = refl
  search_mark-none h (suc fuel) start = go_on _ _ _ (h start) ∙ search_mark-none h fuel (suc start)

-- If the marks of the first rounds belong to other services and the next one does not, the loop ends, with
-- any fuel above the rounds: with that mark if it took fewer than 16380 rounds, else with an error.
pub generate_unique_fw_mark-ends :
    (ip protocol port : String) (m : MarkMap) (rounds fuel : ℕ)
    → let key = service_key ip protocol port in
      all_taken key m (generate_fw_mark key) 0 rounds ≡ true
      → taken key m (generate_fw_mark key rounds) ≡ false
      → rounds < fuel
      → generate_unique_fw_mark fuel ip protocol port m ≡ (
          if leb 16380 rounds
          then some (err "could not obtain a unique FWMark", m)
          else some (ok (generate_fw_mark key rounds), assign (generate_fw_mark key rounds) key m))
unfolding generate_unique_fw_mark settle
generate_unique_fw_mark-ends ip protocol port m rounds fuel h free enough =
    let key = service_key ip protocol port in
    let at : later rounds 0 ≡ rounds = later_sum rounds 0 ∙ omega arith in
    search_mark-settle key m (generate_fw_mark key) rounds fuel 0 enough h
      (ap (λ n. taken key m (generate_fw_mark key n)) at ∙ free)
    ∙ ap (λ n. settle key m n (generate_fw_mark key n)) at

-- If every mark belongs to another service, the loop never ends, although it means to give up after 16380
-- rounds.
pub generate_unique_fw_mark-none :
    (ip protocol port : String) (m : MarkMap)
    → ((mark : ℕ) → mark < 16384 → taken (service_key ip protocol port) m mark ≡ true)
    → (fuel : ℕ) → generate_unique_fw_mark fuel ip protocol port m ≡ none
unfolding generate_unique_fw_mark generate_fw_mark
generate_unique_fw_mark-none ip protocol port m full fuel =
    search_mark-none _ m _
      (λ increment. full (generate_fw_mark (service_key ip protocol port) increment) (omega arith))
      fuel 0
