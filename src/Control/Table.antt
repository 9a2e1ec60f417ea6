-- ===== src/Control/Table.antt =====
-- A table of the database with a primary key: its rows in the order of insertion.
pub mod Counts
pub mod Snapshot
use bidirectional_bridge_cla.Prelude.{
  ℕ, ◌≡◌, Option, none, some, List, [], ◌∷◌, ◌++◌, arith, ◌==◌, is_some, or_else, if◌then◌else◌,
}

module _ {A : Type 0} (key : A → ℕ) where
  -- SELECT … WHERE key = ?
  unfoldable pub get : ℕ → List A → Option A
  get k [] = none
  get k (x ∷ xs) = if key x == k then some x else get k xs

  -- UPDATE … WHERE key = ?
  unfoldable pub replace : A → List A → List A
  replace a [] = []
  replace a (x ∷ xs) = if key x == key a then a ∷ replace a xs else x ∷ replace a xs

  -- INSERT … ON CONFLICT(key) DO UPDATE.
  unfoldable pub upsert : A → List A → List A
  unfolding get
  upsert a xs = if is_some (get (key a) xs) then replace a xs else xs ++ a ∷ []

  pub get-replace :
      (k : ℕ) (a : A) (xs : List A)
      → get k (replace a xs)
        ≡ (if key a == k then (if is_some (get k xs) then some a else none) else get k xs)
  unfolding get replace
  get-replace k a [] = ground arith
  get-replace k a (x ∷ xs) = ground (arith, get-replace k a xs)

  pub get-append :
      (k : ℕ) (a : A) (xs : List A)
      → get k (xs ++ a ∷ []) ≡ or_else (get k xs) (if key a == k then some a else none)
  unfolding get
  get-append k a [] = ground arith
  get-append k a (x ∷ xs) = ground (arith, get-append k a xs)

  pub get-upsert :
      (k : ℕ) (a : A) (xs : List A)
      → get k (upsert a xs) ≡ (if key a == k then some a else get k xs)
  unfolding upsert
  get-upsert k a xs = ground (arith, get-replace k a xs, get-append k a xs)

  pub get-key : (k : ℕ) (a : A) (xs : List A) → get k xs ≡ some a → key a ≡ k
  unfolding get
  get-key k a [] h = ground arith
  get-key k a (x ∷ xs) h = ground (arith, get-key k a xs)

pub ruleset table_laws = (get-replace, get-append, get-upsert)
