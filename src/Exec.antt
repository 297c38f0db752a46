-- ===== src/Exec.antt =====
-- Go functions that return an error beside a value and change shared state: what was written before
-- the error stays written, so the state comes back beside the error too.
use kube_router.Prelude.{String}

pub data Result {ℓ} (A : Type ℓ) : Type ℓ where
  ok : A → Result A
  err : String → Result A

abbrev pub Exec : Type 0 → Type 0 → Type 0
Exec S A = S → Result A × S

-- `return a, nil`
abbrev pub pure : {S A : Type 0} → A → Exec S A
pure a s = (ok a, s)

-- `if err != nil { return err }` behind a call.
infixl 5 ◌>>=◌ ◌>>◌
abbrev pub ◌>>=◌ : {S A B : Type 0} → Exec S A → (A → Exec S B) → Exec S B
◌>>=◌ call next s =
    let (result, s') = call s in elim result [ ok a ↦ next a s' | err e ↦ (err e, s') ]

abbrev pub ◌>>◌ : {S A B : Type 0} → Exec S A → Exec S B → Exec S B
call >> next = call >>= λ _. next

-- `fmt.Errorf("...: %s", err)`
abbrev pub wrap_error : {S A : Type 0} → (String → String) → Exec S A → Exec S A
wrap_error f call s =
    let (result, s') = call s in (elim result [ ok a ↦ ok a | err e ↦ err (f e) ], s')
