-- ===== src/Prelude/Results.antt =====
-- errors.ts (shared/protocol/src/errors.ts): the codes of `BridgeError`, and the result of code
-- that may throw one. Messages and details are not modelled, except where code reads them.
use mathlib.Core.Path.{◌≡◌, refl}
use mathlib.Core.Bool.{Bool, true, false}

pub data ErrorCode : Type 0 where
  invalid_argument not_found illegal_transition not_owner scope_conflict lease_invalid : ErrorCode
  dependency_unsatisfied dependency_cycle idempotency_mismatch revision_conflict : ErrorCode
  timeout runtime_stop_unconfirmed telemetry_incomplete operation_in_progress : ErrorCode
  task_cancelled adapter_failure runtime_profile_mismatch unimplemented internal : ErrorCode

-- What a call gives back: a value, or the code of the error that it throws.
pub data Result {ℓ} (A : Type ℓ) : Type ℓ where
  err : (code : ErrorCode) → Result A
  ok : (value : A) → Result A

abbrev pub is_ok {ℓ} : {A : Type ℓ} → Result A → Bool
is_ok (err code) = false
is_ok (ok value) = true

-- `if (bad) throw`.
abbrev pub throw_if : (bad : Bool) → ErrorCode → Result (Unit {0})
throw_if false code = ok tt
throw_if true code = err code

pub throw_if-eq-ok : (bad : Bool) (code : ErrorCode) → throw_if bad code ≡ ok tt → bad ≡ false
throw_if-eq-ok false code accepted = refl
throw_if-eq-ok true code accepted = cc

infixl 5 ◌>>◌ ◌>>=◌
-- What follows a call does not run when the call throws.
abbrev pub ◌>>=◌ {ℓ κ} :
    {A : Type ℓ} {B : Type κ} → (first : Result A) (next : (value : A) → Result B) → Result B
err code >>= next = err code
ok value >>= next = next value

pub >>=-eq-ok {ℓ κ} :
    {A : Type ℓ} {B : Type κ} (first : Result A) (next : A → Result B) {last : B}
    → (first >>= next) ≡ ok last
    → (value : A) × (first ≡ ok value) × (next value ≡ ok last)
>>=-eq-ok (err code) next accepted = cc
>>=-eq-ok (ok value) next accepted = (value, refl, accepted)

abbrev pub ◌>>◌ {κ} : {B : Type κ} → Result (Unit {0}) → Result B → Result B
check >> rest = check >>= λ (u : Unit {0}). rest

-- A check that has passed, and what follows it.
pub throw_if-passed {κ} :
    {B : Type κ} (bad : Bool) (code : ErrorCode) (rest : Result B) {last : B}
    → (throw_if bad code >> rest) ≡ ok last
    → (bad ≡ false) × (rest ≡ ok last)
throw_if-passed false code rest accepted = (refl, accepted)
throw_if-passed true code rest accepted = cc

pub throw_if-skipped {κ} :
    {B : Type κ} (bad : Bool) (code : ErrorCode) (rest : Result B)
    → bad ≡ false
    → (throw_if bad code >> rest) ≡ rest
throw_if-skipped false code rest fine = refl
throw_if-skipped true code rest fine = cc

pub throw_if-thrown {κ} :
    {B : Type κ} (bad : Bool) (code : ErrorCode) (rest : Result B)
    → bad ≡ true
    → (throw_if bad code >> rest) ≡ err code
throw_if-thrown false code rest failed = cc
throw_if-thrown true code rest failed = refl

pub ok-ok {ℓ} : {A : Type ℓ} {x y : A} → ◌≡◌ {A = Result A} (ok x) (ok y) → x ≡ y
ok-ok same = cc
