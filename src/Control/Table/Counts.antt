-- ===== src/Control/Table/Counts.antt =====
-- Rows of a table with one row for each key: how many pass a test, and what holds of all of them,
-- after a row is written.
use mathlib.Core.Path.{subst}
use bidirectional_bridge_cla.Prelude.{
  ℕ, ◌+◌, ◌≤◌, ◌≡◌, refl, ap, ◌∙◌, Bool, true, false, none, some, List, [], ◌∷◌, ◌++◌, arith, ◌==◌,
  ==_iff, if◌then◌else◌, Bool-cases, Option-cases, inl, inr, All, length, filter,
}
use bidirectional_bridge_cla.Control.Table.{get, replace, upsert, get-replace, get-append}

abbrev pub point {ℓ} : {A : Type ℓ} → (A → Bool) → A → ℕ
point p a = if p a then 1 else 0

pub point-false {ℓ} : {A : Type ℓ} (p : A → Bool) (a : A) → p a ≡ false → point p a ≡ 0
point-false p a h = rw h refl

pub point-true {ℓ} : {A : Type ℓ} (p : A → Bool) (a : A) → p a ≡ true → point p a ≡ 1
point-true p a h = rw h refl

pub point_le {ℓ} : {A : Type ℓ} (p : A → Bool) (a : A) → point p a ≤ 1
point_le p a = elim (Bool-cases (p a)) [ inl e ↦ rw e (omega arith) | inr e ↦ rw e (omega arith) ]

unfoldable pub count {ℓ} : {A : Type ℓ} → (A → Bool) → List A → ℕ
count p [] = 0
count p (x ∷ xs) = point p x + count p xs

pub length-filter {ℓ} :
    {A : Type ℓ} (p : A → Bool) (xs : List A) → length (filter p xs) ≡ count p xs
unfolding count
length-filter p [] = refl
length-filter p (x ∷ xs) = elim (Bool-cases (p x)) [
  | inl e ↦ rw e (omega (arith, length-filter p xs))
  | inr e ↦ rw e (omega (arith, length-filter p xs))
]

pub count-append {ℓ} :
    {A : Type ℓ} (p : A → Bool) (xs ys : List A) → count p (xs ++ ys) ≡ count p xs + count p ys
unfolding count
count-append p [] ys = omega arith
count-append p (x ∷ xs) ys = omega (arith, count-append p xs ys)

module _ {A : Type 0} (key : A → ℕ) where
  -- No two rows have one key.
  unfoldable pub Unique : List A → Type 0
  Unique [] = Unit
  Unique (x ∷ xs) = (get key (key x) xs ≡ none) × Unique xs

  replace-absent : (a : A) (xs : List A) → get key (key a) xs ≡ none → replace key a xs ≡ xs
  unfolding get replace
  replace-absent a [] h = refl
  replace-absent a (x ∷ xs) h = elim (Bool-cases (key x == key a)) [
    | inl e ↦ absurd (here (rw e at h))
    | inr e ↦ rw e (ap (λ t. x ∷ t) (replace-absent a xs (rw e at h)))
  ]
    where
      here : {x : A} → some x ≡ none → ⊥
      here h = cc

  -- A row that is written over takes the place of the old one in the count.
  pub count-replace :
      (p : A → Bool) (a old : A) (xs : List A)
      → Unique xs
      → get key (key a) xs ≡ some old
      → count p (replace key a xs) + point p old ≡ count p xs + point p a
  unfolding get replace count Unique
  count-replace p a old [] u h = cc
  count-replace p a old (x ∷ xs) u h = elim (Bool-cases (key x == key a)) [
    | inl e ↦
        let same : x ≡ old = first (rw e at h) in
        let rest : replace key a xs ≡ xs =
          replace-absent a xs (subst (λ k. get key k xs ≡ none) ((==_iff _ _).0 e) u.0) in
        rw (e, rest, same) (omega arith)
    | inr e ↦ rw e (omega (arith, count-replace p a old xs u.1 (rw e at h)))
  ]
    where
      first : {x : A} → some x ≡ some old → x ≡ old
      first h = cc

  pub count-upsert-new :
      (p : A → Bool) (a : A) (xs : List A)
      → get key (key a) xs ≡ none
      → count p (upsert key a xs) ≡ count p xs + point p a
  unfolding upsert count
  count-upsert-new p a xs h = rw h (omega (arith, count-append p xs (a ∷ [])))

  pub count-upsert-old :
      (p : A → Bool) (a old : A) (xs : List A)
      → Unique xs
      → get key (key a) xs ≡ some old
      → count p (upsert key a xs) + point p old ≡ count p xs + point p a
  unfolding upsert
  count-upsert-old p a old xs u h = rw h (count-replace p a old xs u h)

  -- A write adds one at most.
  pub count-upsert-le :
      (p : A → Bool) (a : A) (xs : List A)
      → Unique xs
      → count p (upsert key a xs) ≤ count p xs + point p a
  count-upsert-le p a xs u = elim (Option-cases (get key (key a) xs)) [
    | inl e ↦ omega (arith, count-upsert-new p a xs e)
    | inr (old, e) ↦ omega (arith, count-upsert-old p a old xs u e)
  ]

  Unique-replace : (a : A) (xs : List A) → Unique xs → Unique (replace key a xs)
  unfolding replace Unique
  Unique-replace a [] u = tt
  Unique-replace a (x ∷ xs) u = elim (Bool-cases (key x == key a)) [
    | inl e ↦ rw e (
      absent a xs (subst (λ k. get key k xs ≡ none) ((==_iff _ _).0 e) u.0),
      Unique-replace a xs u.1,
    )
    | inr e ↦ rw e (absent x xs u.0, Unique-replace a xs u.1)
  ]
    where
      absent :
          (b : A) (xs : List A)
          → get key (key b) xs ≡ none
          → get key (key b) (replace key a xs) ≡ none
      absent b xs h = get-replace key (key b) a xs ∙ rw h (ground arith)

  Unique-append :
      (a : A) (xs : List A) → Unique xs → get key (key a) xs ≡ none → Unique (xs ++ a ∷ [])
  unfolding Unique get
  Unique-append a [] u h = (refl, tt)
  Unique-append a (x ∷ xs) u h = elim (Bool-cases (key x == key a)) [
    | inl e ↦ absurd (here (rw e at h))
    | inr e ↦
        (get-append key (key x) a xs ∙ rw u.0 (ground arith), Unique-append a xs u.1 (rw e at h))
  ]
    where
      here : {x : A} → some x ≡ none → ⊥
      here h = cc

  pub Unique-upsert : (a : A) (xs : List A) → Unique xs → Unique (upsert key a xs)
  unfolding upsert
  Unique-upsert a xs u = elim (Option-cases (get key (key a) xs)) [
    | inl e ↦ rw e (Unique-append a xs u e)
    | inr (old, e) ↦ rw e (Unique-replace a xs u)
  ]

  All-replace {κ} :
      (P : A → Type κ) (a : A) (xs : List A) → All P xs → P a → All P (replace key a xs)
  unfolding replace
  All-replace P a [] h p = h
  All-replace P a (x ∷ xs) (h, hs) p = elim (Bool-cases (key x == key a)) [
    | inl e ↦ rw e (p, All-replace P a xs hs p)
    | inr e ↦ rw e (h, All-replace P a xs hs p)
  ]

  All-append {κ} : (P : A → Type κ) (xs ys : List A) → All P xs → All P ys → All P (xs ++ ys)
  All-append P [] ys h k = k
  All-append P (x ∷ xs) ys (h, hs) k = (h, All-append P xs ys hs k)

  pub All-upsert {κ} :
      (P : A → Type κ) (a : A) (xs : List A) → All P xs → P a → All P (upsert key a xs)
  unfolding upsert
  All-upsert P a xs h p = elim (Option-cases (get key (key a) xs)) [
    | inl e ↦ rw e (All-append P xs (a ∷ []) h (p, tt))
    | inr (old, e) ↦ rw e (All-replace P a xs h p)
  ]

  pub All-get {κ} :
      (P : A → Type κ) (k : ℕ) (a : A) (xs : List A) → All P xs → get key k xs ≡ some a → P a
  unfolding get
  All-get P k a [] h e = cc
  All-get P k a (x ∷ xs) (h, hs) e = elim (Bool-cases (key x == k)) [
    | inl c ↦ subst P (here (rw c at e)) h
    | inr c ↦ All-get P k a xs hs (rw c at e)
  ]
    where
      here : {x : A} → some x ≡ some a → x ≡ a
      here e = cc
