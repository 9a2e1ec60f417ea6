-- ===== src/Control/Table/Snapshot.antt =====
-- A list of rows read from a table, which a loop goes through while it writes to the table.
use mathlib.Core.Path.{subst}
use bidirectional_bridge_cla.Prelude.{
  ℕ, ◌≡◌, refl, ◌∙◌, Bool, false, none, some, List, [], ◌∷◌, arith, ◌==◌, ==_iff, ==_refl,
  Bool-cases, inl, inr, All, filter,
}
use bidirectional_bridge_cla.Control.Table.{get, upsert, get-upsert}
use bidirectional_bridge_cla.Control.Table.Counts.{Unique}

module _ {A : Type 0} (key : A → ℕ) where
  -- Each row of the list is the row of its key.
  abbrev pub Stored : List A → List A → Type 0
  Stored rows table = All (λ a. get key (key a) table ≡ some a) rows

  tail_absent :
      (k : ℕ) (x : A) (xs : List A)
      → get key k (x ∷ xs) ≡ none
      → ((key x == k) ≡ false) × (get key k xs ≡ none)
  unfolding get
  tail_absent k x xs h = elim (Bool-cases (key x == k)) [
    | inl e ↦ absurd (here (rw e at h))
    | inr e ↦ (e, rw e at h)
  ]
    where
      here : {x : A} → some x ≡ none → ⊥
      here h = cc

  -- A write under a key that the list does not have.
  pub Stored-upsert :
      (a : A) (rows table : List A)
      → get key (key a) rows ≡ none
      → Stored rows table
      → Stored rows (upsert key a table)
  Stored-upsert a [] table h s = tt
  Stored-upsert a (r ∷ rows) table h (s, ss) =
      let (e, g) = tail_absent (key a) r rows h in
      (
        get-upsert key (key r) a table ∙ rw (not_same (key a) (key r) e) s,
        Stored-upsert a rows table g ss,
      )
    where
      not_same : (m n : ℕ) → (n == m) ≡ false → (m == n) ≡ false
      not_same m n e = ground arith

  Stored-cons :
      (x : A) (rows xs : List A) → get key (key x) xs ≡ none → Stored rows xs → Stored rows (x ∷ xs)
  unfolding get
  Stored-cons x [] xs h s = tt
  Stored-cons x (r ∷ rows) xs h (s, ss) = elim (Bool-cases (key x == key r)) [
    | inl e ↦ absurd (clash _ (subst (λ k. get key k xs ≡ none) ((==_iff _ _).0 e) h) s)
    | inr e ↦ (rw e s, Stored-cons x rows xs h ss)
  ]
    where
      clash : (k : ℕ) {r : A} → get key k xs ≡ none → get key k xs ≡ some r → ⊥
      clash k h s = cc

  -- The rows of a table with one row for each key.
  pub Stored-self : (table : List A) → Unique key table → Stored table table
  unfolding get Unique
  Stored-self [] u = tt
  Stored-self (x ∷ xs) u = (rw (==_refl (key x)) refl, Stored-cons x xs xs u.0 (Stored-self xs u.1))

  pub Stored-filter :
      (p : A → Bool) (rows table : List A) → Stored rows table → Stored (filter p rows) table
  Stored-filter p [] table s = tt
  Stored-filter p (r ∷ rows) table (s, ss) = elim (Bool-cases (p r)) [
    | inl e ↦ rw e (s, Stored-filter p rows table ss)
    | inr e ↦ rw e (Stored-filter p rows table ss)
  ]

  get-filter-none :
      (p : A → Bool) (k : ℕ) (rows : List A)
      → get key k rows ≡ none
      → get key k (filter p rows) ≡ none
  unfolding get
  get-filter-none p k [] h = refl
  get-filter-none p k (r ∷ rows) h =
      let (e, g) = tail_absent k r rows h in
      elim (Bool-cases (p r)) [
        | inl t ↦ rw (t, e) (get-filter-none p k rows g)
        | inr t ↦ rw t (get-filter-none p k rows g)
      ]

  pub Unique-filter : (p : A → Bool) (rows : List A) → Unique key rows → Unique key (filter p rows)
  unfolding Unique
  Unique-filter p [] u = tt
  Unique-filter p (r ∷ rows) u = elim (Bool-cases (p r)) [
    | inl e ↦ rw e (get-filter-none p (key r) rows u.0, Unique-filter p rows u.1)
    | inr e ↦ rw e (Unique-filter p rows u.1)
  ]
