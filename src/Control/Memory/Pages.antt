-- ===== src/Control/Memory/Pages.antt =====
-- memory-service.ts: the pages of `getChanges`, one after the other, are all the changes.
use mathlib.Core.Path.{subst}
use mathlib.Core.List.{append_assoc}
use bidirectional_bridge_cla.Prelude.{
  ℕ, zero, suc, ◌+◌, ◌≤◌, ◌<◌, ◌≡◌, ◌⊎◌, refl, sym, ap, ◌∙◌, inl, inr, Bool, true, false, not, List,
  [], ◌∷◌, ◌++◌, All, arith, ltb, filter, take, drop, length, length-append, is_empty, ok,
  invalid_argument, internal, >>=-eq-ok, throw_if-passed, ok-ok,
}
use bidirectional_bridge_cla.Protocol.Memory.{MemoryScope, MemoryNote}
use bidirectional_bridge_cla.Control.Store.{Store}
use bidirectional_bridge_cla.Control.Memory.Table.{is_change, changes_between, list_memory_changes}
use bidirectional_bridge_cla.Control.Memory.Notes.{
  Ascending, changes_between-filter, changes-behind, All-is_change,
}
use bidirectional_bridge_cla.Control.Memory.Reading.{
  Sizes, ChangesPage, MemoryReadNote, changes_loop, closed, empty_page, fill_changes,
}
use bidirectional_bridge_cla.Control.Memory.Filling.{
  last_cursor, notes_of, notes_of-length, Filled, changes_loop-Filled,
}

pub record IsPage (s : Store) (scope : MemoryScope) (after head : ℕ) (page : ChangesPage)
    : Type 0 where
  pub rest : List MemoryNote
  pub whole : changes_between s scope after head ≡ notes_of page.changes ++ rest
  pub next : changes_between s scope page.change_cursor head ≡ rest
  pub more : page.has_more ≡ not (is_empty rest)
  pub progress : changes_between s scope after head ≡ [] ⊎ (is_empty page.changes ≡ false)

take-drop {ℓ} : {A : Type ℓ} (n : ℕ) (xs : List A) → xs ≡ take n xs ++ drop n xs
take-drop zero xs = refl
take-drop (suc n) [] = refl
take-drop (suc n) (x ∷ xs) = ap (λ t. x ∷ t) (take-drop n xs)

take-take {ℓ} : {A : Type ℓ} (n : ℕ) (xs : List A) → take n (take (suc n) xs) ≡ take n xs
take-take zero xs = refl
take-take (suc n) [] = refl
take-take (suc n) (x ∷ xs) = ap (λ t. x ∷ t) (take-take n xs)

take-length-le {ℓ} :
    {A : Type ℓ} (n : ℕ) (xs : List A) → (length (take n xs) ≤ n) × (length (take n xs) ≤ length xs)
take-length-le zero xs = (omega arith, omega arith)
take-length-le (suc n) [] = (omega arith, omega arith)
take-length-le (suc n) (x ∷ xs) = let (a, b) = take-length-le n xs in (omega arith, omega arith)

take-length-lt {ℓ} :
    {A : Type ℓ} (c n : ℕ) (xs : List A) → c < n → c < length xs → c < length (take n xs)
take-length-lt c zero xs h k = absurd (omega arith)
take-length-lt c (suc n) [] h k = absurd (omega arith)
take-length-lt zero (suc n) (x ∷ xs) h k = omega arith
take-length-lt (suc c) (suc n) (x ∷ xs) h k =
    omega (arith, take-length-lt c n xs (omega arith) (omega arith))

-- A list is empty or has a last member.
Last-cases {ℓ} :
    {A : Type ℓ} (xs : List A) → (xs ≡ []) ⊎ ((zs : List A) × (z : A) × (xs ≡ zs ++ z ∷ []))
Last-cases [] = inl refl
Last-cases (x ∷ xs) = elim (Last-cases xs) [
  | inl e ↦ inr ([], x, ap (λ t. x ∷ t) e)
  | inr (zs, z, e) ↦ inr (x ∷ zs, z, ap (λ t. x ∷ t) e)
]

last_cursor-last :
    (c : ℕ) (zs : List MemoryNote) (z : MemoryNote) → last_cursor c (zs ++ z ∷ []) ≡ z.change_cursor
unfolding last_cursor
last_cursor-last c [] z = refl
last_cursor-last c (x ∷ zs) z = last_cursor-last x.change_cursor zs z

All-middle :
    (P : MemoryNote → Type 0) (zs : List MemoryNote) (z : MemoryNote) (rest : List MemoryNote)
    → All P (zs ++ z ∷ rest)
    → P z
All-middle P [] z rest h = h.0
All-middle P (x ∷ zs) z rest h = All-middle P zs z rest h.1

-- The changes behind what has been taken are what is left.
changes-left :
    (s : Store) (scope : MemoryScope) (after head : ℕ) (taken rest : List MemoryNote)
    → Ascending s.memory_notes
    → changes_between s scope after head ≡ taken ++ rest
    → changes_between s scope (last_cursor after taken) head ≡ rest
unfolding last_cursor
changes-left s scope after head taken rest a e = elim (Last-cases taken) [
  | inl none_taken ↦
      ap (λ t. changes_between s scope (last_cursor after t) head) none_taken
      ∙ e
      ∙ ap (λ t. t ++ rest) none_taken
  | inr (zs, z, last) ↦
      let all : filter (is_change scope after head) s.memory_notes ≡ zs ++ z ∷ rest =
        sym (changes_between-filter s scope after head a)
        ∙ e
        ∙ ap (λ t. t ++ rest) last
        ∙ append_assoc zs (z ∷ []) rest in
      ap (λ c. changes_between s scope c head)
        (ap (last_cursor after) last ∙ last_cursor-last after zs z)
      ∙ changes_between-filter s scope z.change_cursor head a
      ∙ changes-behind s.memory_notes scope after head zs z rest a all (
          All-middle (λ m. after < m.change_cursor) zs z rest
            (subst (All (λ m. after < m.change_cursor)) all
              (All-is_change s.memory_notes scope after head)))
]

-- `rows.length` is over the number of changes on the page exactly if some are left.
has_more_lem :
    (all taken rest : List MemoryNote) (limit : ℕ)
    → all ≡ taken ++ rest
    → length taken ≤ limit
    → ltb (length taken) (length (take (suc limit) all)) ≡ not (is_empty rest)
has_more_lem all taken [] limit e h =
    enough (length taken) (length (take (suc limit) all)) (length all)
      (take-length-le (suc limit) all).1 (ap length e ∙ length-append taken [])
  where
    enough : (t r a : ℕ) → r ≤ a → a ≡ t + 0 → ltb t r ≡ false
    enough t r a h k = ground arith
has_more_lem all taken (x ∷ rest) limit e h = more (length taken) (length (take (suc limit) all)) (
    take-length-lt (length taken) (suc limit) all (omega arith) (
      longer (length taken) (length all) (length rest)
        (ap length e ∙ length-append taken (x ∷ rest))))
  where
    longer : (t a r : ℕ) → a ≡ t + suc r → t < a
    longer t a r h = omega arith

    more : (t r : ℕ) → t < r → ltb t r ≡ true
    more t r h = ground arith

prefix-length {ℓ} : {A : Type ℓ} (xs ys zs : List A) (n : ℕ) → take n zs ≡ xs ++ ys → length xs ≤ n
prefix-length xs ys zs n e =
    shorter (length xs) (length ys) (length (take n zs)) n (ap length e ∙ length-append xs ys)
      (take-length-le n zs).0
  where
    shorter : (a b t n : ℕ) → t ≡ a + b → t ≤ n → a ≤ n
    shorter a b t n h k = omega arith

module _ (is_intact : (artifact_id : ℕ) → Bool) (sizes : Sizes) where
  closed-IsPage :
      (s : Store) (scope : MemoryScope) (after head limit : ℕ) (page : ChangesPage)
      → Ascending s.memory_notes
      → 1 ≤ limit
      → Filled
          (take limit (list_memory_changes s scope after head (suc limit)))
          (empty_page scope after head)
          page
      → IsPage s scope after head (closed (list_memory_changes s scope after head (suc limit)) page)
  unfolding list_memory_changes
  closed-IsPage s scope after head limit page a some_room f =
      let all = changes_between s scope after head in
      let prefix : take limit all ≡ f.taken ++ f.left = sym (take-take limit all) ∙ f.split in
      let rest = f.left ++ drop limit all in
      let whole : all ≡ f.taken ++ rest =
        take-drop limit all
        ∙ ap (λ t. t ++ drop limit all) prefix
        ∙ append_assoc f.taken f.left (drop limit all) in
      let size : length page.changes ≡ length f.taken =
        sym (notes_of-length page.changes) ∙ ap length f.notes in
      record {
        rest = rest;
        whole = whole ∙ ap (λ t. t ++ rest) (sym f.notes);
        next =
            ap (λ c. changes_between s scope c head) f.cursor
            ∙ changes-left s scope after head f.taken rest a whole;
        more =
            ap (λ n. ltb n (length (take (suc limit) all))) size
            ∙ has_more_lem all f.taken rest limit whole
                (prefix-length f.taken f.left all limit prefix);
        progress = elim (f.progress refl) [
          | inl none_read ↦
              inl (nothing limit some_room all (sym (take-take limit all) ∙ none_read))
          | inr some_read ↦ inr (as_many page.changes f.taken f.notes some_read)
        ];
      }
    where
      nothing : (n : ℕ) → 1 ≤ n → (xs : List MemoryNote) → take n xs ≡ [] → xs ≡ []
      nothing zero h xs e = absurd (omega arith)
      nothing (suc n) h [] e = refl
      nothing (suc n) h (x ∷ xs) e = cc

      as_many :
          (cs : List MemoryReadNote) (ns : List MemoryNote)
          → notes_of cs ≡ ns
          → is_empty ns ≡ false
          → is_empty cs ≡ false
      as_many [] [] e h = h
      as_many [] (n ∷ ns) e h = cc
      as_many (c ∷ cs) ns e h = refl

  pub fill_changes-IsPage :
      (s : Store) (scope : MemoryScope) (after head limit budget : ℕ) (page : ChangesPage)
      → Ascending s.memory_notes
      → 1 ≤ limit
      → fill_changes is_intact sizes s scope after head limit budget ≡ ok page
      → IsPage s scope after head page
  unfolding fill_changes
  fill_changes-IsPage s scope after head limit budget page a some_room h =
      let (fits, h1) =
        throw_if-passed (ltb budget (sizes.changes_bytes (empty_page scope after head)))
          invalid_argument _ h in
      let (filled, looped, h2) =
        >>=-eq-ok
          (changes_loop is_intact sizes s budget
            (take limit (list_memory_changes s scope after head (suc limit)))
            (empty_page scope after head))
          _ h1 in
      let (small, h3) =
        throw_if-passed
          (ltb budget (
            sizes.changes_bytes
              (closed (list_memory_changes s scope after head (suc limit)) filled)))
          internal _ h2 in
      subst (IsPage s scope after head) (ok-ok h3) (
        closed-IsPage s scope after head limit filled a some_room (
          changes_loop-Filled is_intact sizes s budget _ (empty_page scope after head) filled
            looped))
