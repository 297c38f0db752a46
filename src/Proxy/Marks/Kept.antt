-- ===== src/Proxy/Marks/Kept.antt =====
-- What an assigned mark is good for (pkg/controllers/proxy/utils.go).
use mathlib.Core.Path.{subst}
use mathlib.Core.Bool.{true≢false}
use kube_router.Prelude.{
  String, ℕ, zero, suc, ◌≡◌, refl, ◌∙◌, sym, ap, Bool, true, false, Option, none, some, [], ◌∷◌,
  not, arith, eqb, eqb_iff, if◌then◌else◌, ◌==◌, Bool-cases, inl, inr, if_false,
}
use kube_router.Prelude.Text.{cat, split}
use kube_router.Prelude.Text.Split.{lacks, split-cat, split_last}
use kube_router.Prelude.Text.Words.{cat-one}
use kube_router.Prelude.Parse.{parse_uint}
use kube_router.Exec.{ok, err}
use kube_router.Proxy.Marks.{
  MarkMap, Marked, service_of, assign, service_key, taken, settle, next_or, search_mark,
  generate_unique_fw_mark, lookup_service_by_fw_mark, of_service, of_parts, with_port,
}

service_of-assign :
    (mark other : ℕ) (key : String) (m : MarkMap)
    → service_of other (assign mark key m)
      ≡ (if eqb mark other then some key else service_of other m)
unfolding service_of assign
service_of-assign mark other key [] = refl
service_of-assign mark other key (e ∷ m) = ground (
  arith,
  service_of-assign mark other key m,
  eqb_iff e.0 mark,
  eqb_iff e.0 other,
  eqb_iff mark other,
)

free_of :
    (key : String) (o : Option String) (found : String)
    → o ≡ some found
    → elim o [ none ↦ false | some s ↦ not (s == key) ] ≡ false
    → not (found == key) ≡ false
free_of key none found h k = absurd cc
free_of key (some s) found h k = cc

-- The loop has given the service the mark, and taken none from another service.
abbrev Given : String → MarkMap → ℕ → MarkMap → Type 0
Given key m mark m' =
    (service_of mark m' ≡ some key)
    × ((other : ℕ) (found : String)
        → service_of other m ≡ some found
        → (found == key) ≡ false
        → service_of other m' ≡ some found)

Given-assign :
    (key : String) (m : MarkMap) (mark : ℕ)
    → taken key m mark ≡ false
    → Given key m mark (assign mark key m)
unfolding taken
Given-assign key m mark free = (
  service_of-assign mark mark key m ∙ ground (arith, eqb_iff mark mark),
  λ other found h differs. service_of-assign mark other key m ∙ elim (Bool-cases (eqb mark other)) [
    | inl e ↦
        let same : mark ≡ other = (eqb_iff mark other).0 e in
        absurd (
          true≢false (
            ap not (sym differs)
            ∙ free_of key (service_of mark m) found (ap (λ n. service_of n m) same ∙ h) free))
    | inr e ↦ if_false (eqb mark other) (some key) (service_of other m) e ∙ h
  ],
)

Given-if :
    (b : Bool) (key : String) (m m' : MarkMap) (mark found : ℕ) (e : String)
    → taken key m mark ≡ false
    → if◌then◌else◌ {A = Marked} b (some (err e, m)) (some (ok mark, assign mark key m))
      ≡ some (ok found, m')
    → Given key m found m'
Given-if true key m m' mark found e free h = absurd cc
Given-if false key m m' mark found e free h =
    let same : mark ≡ found = cc in
    let maps : assign mark key m ≡ m' = cc in
    subst (λ n. Given key m n m') same
      (subst (λ n. Given key m mark n) maps (Given-assign key m mark free))

Given-next_or :
    (b : Bool) (key : String) (m m' : MarkMap) (next : Marked) (increment mark found : ℕ)
    → taken key m mark ≡ b
    → (next ≡ some (ok found, m') → Given key m found m')
    → next_or b next (settle key m increment mark) ≡ some (ok found, m')
    → Given key m found m'
unfolding next_or settle
Given-next_or true key m m' next increment mark found free later h = later h
Given-next_or false key m m' next increment mark found free later h =
    Given-if _ key m m' mark found _ free h

Given-search_mark :
    (key : String) (m m' : MarkMap) (mark_at : ℕ → ℕ) (fuel increment found : ℕ)
    → search_mark key m mark_at fuel increment ≡ some (ok found, m')
    → Given key m found m'
unfolding search_mark
Given-search_mark key m m' mark_at zero increment found h = absurd cc
Given-search_mark key m m' mark_at (suc fuel) increment found h =
    Given-next_or (taken key m (mark_at increment)) key m m' _ increment (mark_at increment) found
      refl (Given-search_mark key m m' mark_at fuel (suc increment) found) h

split-service_key :
    (ip protocol port : String)
    → lacks "-" ip ≡ true
    → lacks "-" protocol ≡ true
    → lacks "-" port ≡ true
    → split "-" (service_key ip protocol port) ≡ ip ∷ protocol ∷ port ∷ []
unfolding service_key
split-service_key ip protocol port hi hp ho =
    ap (λ t. split "-" (cat ip t)) (cat-one "-" (cat protocol (cat "-" port)))
    ∙ split-cat "-" ip (cat protocol (cat "-" port)) hi
    ∙ ap (λ t. ip ∷ split "-" (cat protocol t)) (cat-one "-" port)
    ∙ ap (◌∷◌ ip) (split-cat "-" protocol port hp ∙ ap (◌∷◌ protocol) (split_last "-" port ho))

lookup-key :
    (ip protocol port : String) (mark : ℕ) (m : MarkMap)
    → lacks "-" ip ≡ true
    → lacks "-" protocol ≡ true
    → lacks "-" port ≡ true
    → service_of mark m ≡ some (service_key ip protocol port)
    → lookup_service_by_fw_mark mark m ≡ with_port ip protocol (parse_uint 31 port)
unfolding lookup_service_by_fw_mark of_service of_parts service_key
lookup-key ip protocol port mark m hi hp ho h =
    ap of_service h ∙ ap of_parts (split-service_key ip protocol port hi hp ho)

-- A mark that generateUniqueFWMark returns is one by which the service is found again, if its address,
-- protocol and port hold no dash and the port is a number below 2^31, and no other service has lost a mark.
pub lookup-generate_unique_fw_mark :
    (ip protocol port : String) (m m' : MarkMap) (fuel mark n : ℕ)
    → lacks "-" ip ≡ true
    → lacks "-" protocol ≡ true
    → lacks "-" port ≡ true
    → parse_uint 31 port ≡ some n
    → generate_unique_fw_mark fuel ip protocol port m ≡ some (ok mark, m')
    → (lookup_service_by_fw_mark mark m' ≡ ok (ip, protocol, n))
      × ((other : ℕ) (found : String)
          → service_of other m ≡ some found
          → (found == service_key ip protocol port) ≡ false
          → service_of other m' ≡ some found)
unfolding generate_unique_fw_mark with_port
lookup-generate_unique_fw_mark ip protocol port m m' fuel mark n hi hp ho hn h =
    let given = Given-search_mark (service_key ip protocol port) m m' _ fuel 0 mark h in
    (lookup-key ip protocol port mark m' hi hp ho given.0 ∙ ap (with_port ip protocol) hn, given.1)
