-- ===== src/Control/Memory/Budget.antt =====
-- memory-service.ts: the budgets of the responses.
use mathlib.Core.Path.{subst}
use bidirectional_bridge_cla.Prelude.{
  Answers, Answers->>=, Answers-throw_if, ℕ, suc, ◌≤◌, ◌≡◌, refl, inl, inr, Bool, false, ◌||◌,
  Option, none, some, List, [], ◌∷◌, arith, or-false, ltb, is_empty, take, Bool-cases, ok, ◌>>◌,
  throw_if, internal,
}
use bidirectional_bridge_cla.Protocol.Memory.{MemoryScope, MemoryNote}
use bidirectional_bridge_cla.Control.Store.{Store, last_event_id}
use bidirectional_bridge_cla.Control.Memory.Table.{list_memory_changes}
use bidirectional_bridge_cla.Control.Memory.Reading.{
  Sizes, ChangesPage, MemoryChangesInput, integer, closed, empty_page, with_change, changes_loop,
  fill_changes, get_changes,
}

-- `value ?? fallback`.
abbrev pub chosen : Option ℕ → (fallback : ℕ) → ℕ
chosen none fallback = fallback
chosen (some n) fallback = n

-- The number that a caller has chosen, which is not below the least.
abbrev pub IsChosen : Option ℕ → (fallback least n : ℕ) → Type 0
IsChosen value fallback least n = (n ≡ chosen value fallback) × (least ≤ n)

pub Answers-integer :
    (value : Option ℕ) (fallback least most : ℕ)
    → Answers (IsChosen value fallback least) (integer value fallback least most)
unfolding integer Answers
Answers-integer none fallback least most =
    Answers-throw_if (IsChosen none fallback least) (ltb fallback least || ltb most fallback)
      (ok fallback) (λ fine. (refl, not_below fallback least (or-false _ _ fine).0))
  where
    not_below : (a b : ℕ) → ltb a b ≡ false → b ≤ a
    not_below a b h = ground arith
Answers-integer (some n) fallback least most =
    Answers-throw_if (IsChosen (some n) fallback least) (ltb n least || ltb most n) (ok n)
      (λ fine. (refl, not_below n least (or-false _ _ fine).0))
  where
    not_below : (a b : ℕ) → ltb a b ≡ false → b ≤ a
    not_below a b h = ground arith

pub fits_below : (budget size : ℕ) → ltb budget size ≡ false → size ≤ budget
fits_below budget size h = ground arith

pub not_above : (budget size : ℕ) → size ≤ budget → ltb budget size ≡ false
not_above budget size h = ground arith

unfoldable pub Within {ℓ} : {A : Type ℓ} → (bytes : A → ℕ) (budget : ℕ) → A → Type 0
Within bytes budget page = bytes page ≤ budget

module _ (is_intact : (artifact_id : ℕ) → Bool) (sizes : Sizes)
    (closing : (rows : List MemoryNote) (page : ChangesPage)
      → page.has_more ≡ false
      → sizes.changes_bytes (closed rows page) ≤ sizes.changes_bytes page) where
  Fits : ℕ → ChangesPage → Type 0
  Fits budget page = (sizes.changes_bytes page ≤ budget) × (page.has_more ≡ false)

  changes_loop-Fits :
      (s : Store) (budget : ℕ) (rows : List MemoryNote) (page : ChangesPage)
      → Fits budget page
      → Answers (Fits budget) (changes_loop is_intact sizes s budget rows page)
  unfolding changes_loop Fits Answers
  changes_loop-Fits s budget [] page h = h
  changes_loop-Fits s budget (row ∷ rows) page h =
      elim (Bool-cases
        (ltb budget (sizes.changes_bytes (with_change is_intact sizes s page row)))) [
          | inl e ↦
              rw e
                (elim (Bool-cases (is_empty page.changes)) [ inl f ↦ rw f refl | inr f ↦ rw f h ])
          | inr e ↦ rw e (
              changes_loop-Fits s budget rows (with_change is_intact sizes s page row)
                (fits_below budget _ e, h.1))
        ]

  Answers-last :
      (budget : ℕ) (rows : List MemoryNote) (page : ChangesPage)
      → Fits budget page
      → Answers (Within sizes.changes_bytes budget) (
          throw_if (ltb budget (sizes.changes_bytes (closed rows page))) internal
          >> ok (closed rows page))
  unfolding Fits Within Answers
  Answers-last budget rows page h =
      let small = at_most (closing rows page h.1) h.0 in
      rw (not_above budget (sizes.changes_bytes (closed rows page)) small) small
    where
      at_most : {a b c : ℕ} → a ≤ b → b ≤ c → a ≤ c
      at_most h k = omega (arith, h, k)

  fill_changes-Within :
      (s : Store) (scope : MemoryScope) (after head limit budget : ℕ)
      → Answers
          (Within sizes.changes_bytes budget)
          (fill_changes is_intact sizes s scope after head limit budget)
  unfolding fill_changes Fits
  fill_changes-Within s scope after head limit budget =
      Answers-throw_if _ (ltb budget (sizes.changes_bytes (empty_page scope after head))) _
        (λ small.
          Answers->>= _ _
            (changes_loop is_intact sizes s budget
              (take limit (list_memory_changes s scope after head (suc limit)))
              (empty_page scope after head))
            _ (changes_loop-Fits s budget _ (empty_page scope after head) (empty_fits small))
            (λ page fits.
              Answers-last budget (list_memory_changes s scope after head (suc limit)) page fits))
    where
      empty_fits :
          ltb budget (sizes.changes_bytes (empty_page scope after head)) ≡ false
          → Fits budget (empty_page scope after head)
      empty_fits small = (fits_below budget _ small, refl)

  -- If a response does not grow when it says whether more is left, `getChanges` answers within the
  -- budget that the caller has chosen, 16384 bytes by default, or throws INVALID_ARGUMENT, and
  -- never INTERNAL.
  pub get_changes-Within :
      (s : Store) (input : MemoryChangesInput)
      → Answers
          (Within sizes.changes_bytes (chosen input.max_bytes 16384))
          (get_changes is_intact sizes s input)
  unfolding get_changes
  get_changes-Within s input =
      Answers->>= _ _ (integer input.limit 25 1 100) _ (Answers-integer input.limit 25 1 100)
        (λ limit _.
          Answers->>= _ _ (integer input.max_bytes 16384 2048 65536) _
            (Answers-integer input.max_bytes 16384 2048 65536)
            (λ budget b.
              Answers->>= _ _
                (integer input.until_cursor (last_event_id s.events) 0 (last_event_id s.events)) _
                (Answers-integer input.until_cursor (last_event_id s.events) 0
                  (last_event_id s.events))
                (λ head _.
                  Answers->>= _ _ (integer input.change_cursor 0 0 head) _
                    (Answers-integer input.change_cursor 0 0 head)
                    (λ after _.
                      subst
                        (λ k.
                          Answers (Within sizes.changes_bytes k)
                            (fill_changes is_intact sizes s input.scope after head limit budget))
                        b.0 (fill_changes-Within s input.scope after head limit budget)))))
