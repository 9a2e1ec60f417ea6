-- ===== src/Prelude/Outcomes.antt =====
-- What holds of the value of a call that may throw.
use mathlib.Core.Path.{◌≡◌, refl}
use mathlib.Core.Bool.{Bool, true, false}
use bidirectional_bridge_cla.Prelude.Results.{
  ErrorCode, invalid_argument, Result, ok, err, ◌>>=◌, ◌>>◌, throw_if,
}

-- If the call answers, then so.
unfoldable pub Gives {ℓ} : {A : Type ℓ} → (P : A → Type 0) → Result A → Type 0
Gives P (err code) = Unit
Gives P (ok value) = P value

pub Gives->>= {ℓ κ} :
    {A : Type ℓ} {B : Type κ} (P : A → Type 0) (Q : B → Type 0) (first : Result A)
    (next : A → Result B)
    → Gives P first
    → ((value : A) → P value → Gives Q (next value))
    → Gives Q (first >>= next)
unfolding Gives
Gives->>= P Q (err code) next h k = tt
Gives->>= P Q (ok value) next h k = k value h

pub Gives-ok {ℓ} : {A : Type ℓ} (P : A → Type 0) (value : A) → P value → Gives P (ok value)
unfolding Gives
Gives-ok P value h = h

pub Gives-err {ℓ} : {A : Type ℓ} (P : A → Type 0) (code : ErrorCode) → Gives P (err code)
unfolding Gives
Gives-err P code = tt

pub Gives-any {ℓ} : {A : Type ℓ} (first : Result A) → Gives (λ _. Unit) first
unfolding Gives
Gives-any (err code) = tt
Gives-any (ok value) = tt

pub Gives-throw_if {κ} :
    {B : Type κ} (Q : B → Type 0) (bad : Bool) (code : ErrorCode) (rest : Result B)
    → Gives Q rest
    → Gives Q (throw_if bad code >> rest)
unfolding Gives
Gives-throw_if Q true code rest h = tt
Gives-throw_if Q false code rest h = h

-- A call that answers with what the predicate holds of, or throws INVALID_ARGUMENT.
unfoldable pub Answers {ℓ} : {A : Type ℓ} → (P : A → Type 0) → Result A → Type 0
Answers P (err code) = code ≡ invalid_argument
Answers P (ok value) = P value

pub Answers->>= {ℓ κ} :
    {A : Type ℓ} {B : Type κ} (P : A → Type 0) (Q : B → Type 0) (first : Result A)
    (next : A → Result B)
    → Answers P first
    → ((value : A) → P value → Answers Q (next value))
    → Answers Q (first >>= next)
unfolding Answers
Answers->>= P Q (err code) next h k = h
Answers->>= P Q (ok value) next h k = k value h

pub Answers-impl {ℓ} :
    {A : Type ℓ} (P Q : A → Type 0) (result : Result A)
    → Answers P result
    → ((value : A) → P value → Q value)
    → Answers Q result
unfolding Answers
Answers-impl P Q (err code) h k = h
Answers-impl P Q (ok value) h k = k value h

pub Answers-throw_if {κ} :
    {B : Type κ} (Q : B → Type 0) (bad : Bool) (rest : Result B)
    → (bad ≡ false → Answers Q rest)
    → Answers Q (throw_if bad invalid_argument >> rest)
unfolding Answers
Answers-throw_if Q true rest h = refl
Answers-throw_if Q false rest h = h refl
