-- ===== src/Control/Memory/Fitting.antt =====
-- memory-service.ts: the budget of the response of `getContext`.
use mathlib.Core.Path.{subst}
use bidirectional_bridge_cla.Prelude.{
  Answers, Answers->>=, Answers-impl, Answers-throw_if, ℕ, zero, suc, ◌≤◌, ◌≡◌, ◌⊎◌, refl, ◌∙◌, inl,
  inr, Bool, true, false, Option, none, some, List, [], ◌∷◌, All, arith, ltb, ◌==◌, is_empty, take,
  length, Bool-cases, ok, ◌>>◌, throw_if, internal,
}
use bidirectional_bridge_cla.Protocol.Path.{Text}
use bidirectional_bridge_cla.Protocol.Memory.{MemoryScope, MemoryNote}
use bidirectional_bridge_cla.Control.Store.{Store, last_event_id}
use bidirectional_bridge_cla.Control.Memory.Table.{list_memory_notes, MemoryNoteQuery}
use bidirectional_bridge_cla.Control.Memory.Reading.{integer}
use bidirectional_bridge_cla.Control.Memory.Context.{
  ContextPage, MemoryContextInput, ContextLoop, check_after_key, check_keys, lifecycles_of,
  query_of, omission, empty_context, processed_row, started, finished, candidate, context_loop,
  fill_context, get_context,
}
use bidirectional_bridge_cla.Control.Memory.Listed.{
  list_memory_notes-All, All-take, check_after_key-Answers, check_keys-Answers,
}
use bidirectional_bridge_cla.Control.Memory.Budget.{
  Answers-integer, chosen, fits_below, not_above, Within,
}

-- A key that takes as many bytes in JSON as `null`, or more.
abbrev pub IsLong : MemoryNote → Type 0
IsLong n = 2 ≤ length n.key

abbrev pub keyed : ContextPage → Text → ContextPage
keyed page key = record page { next_key = some key }

-- The size in JSON: `true` is shorter than `false`, and `null` is not longer than a key of two or
-- more characters with its quotes.
pub record JsonSizes (context_bytes : ContextPage → ℕ) : Type 0 where
  pub more :
      (page : ContextPage) (key : Option Text)
      → page.has_more ≡ false
      → context_bytes (record page { has_more = true; next_key = key })
        ≤ context_bytes (record page { next_key = key })
  pub no_key :
      (page : ContextPage) (key : Text)
      → 2 ≤ length key
      → context_bytes (record page { next_key = none }) ≤ context_bytes (keyed page key)

module _ (is_intact : (artifact_id : ℕ) → Bool) (context_bytes : ContextPage → ℕ)
    (json : JsonSizes context_bytes) where
  -- A row has been done with, and the page fits with its key.
  record Touched (budget : ℕ) (st : ContextLoop) : Type 0 where
    key : Text
    last : st.last ≡ some key
    long : 2 ≤ length key
    unfinished : st.page.has_more ≡ false
    fits : context_bytes (keyed st.page key) ≤ budget

  -- What holds after a row.
  context_loop-row :
      (P : ContextLoop → Type 0) (s : Store) (budget : ℕ) (row : MemoryNote)
      (rows : List MemoryNote) (st : ContextLoop)
      → (stopped : (is_empty st.page.notes ≡ false) ⊎ ((st.processed == 0) ≡ false) → P st)
      → (continued : (page : ContextPage)
          → context_bytes page ≤ budget
          → page.next_key ≡ some row.key
          → page.has_more ≡ st.page.has_more
          → Answers P
              (context_loop is_intact context_bytes s budget rows (processed_row st page row)))
      → Answers P (context_loop is_intact context_bytes s budget (row ∷ rows) st)
  unfolding context_loop Answers
  context_loop-row P s budget row rows st stopped continued =
      let whole = candidate is_intact context_bytes s st.page row in
      let less = omission st.page row (context_bytes whole) in
      elim (Bool-cases (ltb budget (context_bytes whole))) [
        | inr e ↦ rw e (continued whole (fits_below budget (context_bytes whole) e) refl refl)
        | inl e ↦ rw e (elim (Bool-cases (is_empty st.page.notes)) [
          | inr f ↦ rw f (stopped (inl f))
          | inl f ↦ rw f (elim (Bool-cases (ltb budget (context_bytes less))) [
            | inl g ↦ rw g (elim (Bool-cases (st.processed == 0)) [
              | inl z ↦ rw z refl
              | inr z ↦ rw z (stopped (inr z))
            ])
            | inr g ↦ rw g (continued less (fits_below budget (context_bytes less) g) refl refl)
          ])
        ])
      ]

  processed_row-Touched :
      (budget : ℕ) (st : ContextLoop) (page : ContextPage) (row : MemoryNote)
      → IsLong row
      → st.page.has_more ≡ false
      → context_bytes page ≤ budget
      → page.next_key ≡ some row.key
      → page.has_more ≡ st.page.has_more
      → Touched budget (processed_row st page row)
  processed_row-Touched budget st page row long unfinished fits named same = record {
    key = row.key;
    last = refl;
    long = long;
    unfinished = same ∙ unfinished;
    fits = subst (λ k. context_bytes (record page { next_key = k }) ≤ budget) named fits;
  }

  context_loop-Touched :
      (s : Store) (budget : ℕ) (rows : List MemoryNote) (st : ContextLoop)
      → All IsLong rows
      → Touched budget st
      → Answers (Touched budget) (context_loop is_intact context_bytes s budget rows st)
  unfolding context_loop Answers
  context_loop-Touched s budget [] st l h = h
  context_loop-Touched s budget (row ∷ rows) st l h =
      context_loop-row (Touched budget) s budget row rows st (λ _. h)
        (λ page fits named same.
          context_loop-Touched s budget rows (processed_row st page row) l.1
            (processed_row-Touched budget st page row l.0 h.unfinished fits named same))

  -- From the start, with a row to read, a row is done with.
  context_loop-started :
      (s : Store) (budget : ℕ) (row : MemoryNote) (rows : List MemoryNote) (scope : MemoryScope)
      (head : ℕ) (last : Option Text)
      → All IsLong (row ∷ rows)
      → Answers
          (Touched budget)
          (context_loop is_intact context_bytes s budget (row ∷ rows) (started scope head last))
  context_loop-started s budget row rows scope head last l =
      context_loop-row (Touched budget) s budget row rows (started scope head last)
        (λ stopped. elim stopped [ inl e ↦ cc | inr e ↦ ground arith ])
        (λ page fits named same. context_loop-Touched s budget rows _ l.1 (
          processed_row-Touched budget (started scope head last) page row l.0 refl fits named same))

  finished-fits :
      (budget : ℕ) (rows : List MemoryNote) (st : ContextLoop)
      → Touched budget st
      → context_bytes (finished rows st) ≤ budget
  finished-fits budget rows st t = elim (Bool-cases (ltb st.processed (length rows))) [
    | inl e ↦ rw (e, t.last) (at_most (json.more st.page (some t.key) t.unfinished) t.fits)
    | inr e ↦ rw e (
        at_most
          (subst
            (λ b.
              context_bytes (record st.page { has_more = b; next_key = none })
              ≤ context_bytes (keyed st.page t.key))
            t.unfinished (json.no_key st.page t.key t.long))
          t.fits)
  ]
    where
      at_most : {a b c : ℕ} → a ≤ b → b ≤ c → a ≤ c
      at_most h k = omega (arith, h, k)

  -- The loop over the rows, and what it leaves to send.
  loop_fits :
      (s : Store) (budget limit : ℕ) (query : MemoryNoteQuery) (rows : List MemoryNote)
      → 1 ≤ limit
      → All IsLong rows
      → context_bytes (empty_context query.scope query.before_cursor) ≤ budget
      → Answers
          (λ st. context_bytes (finished rows st) ≤ budget)
          (context_loop is_intact context_bytes s budget
            (take limit rows)
            (started query.scope query.before_cursor query.after_key))
  unfolding context_loop Answers
  loop_fits s budget zero query rows some_room long fits = absurd (omega (arith, some_room))
  loop_fits s budget (suc n) query [] some_room long fits = fits
  loop_fits s budget (suc n) query (row ∷ rows) some_room long fits =
      Answers-impl (Touched budget) (λ st. context_bytes (finished (row ∷ rows) st) ≤ budget)
        (context_loop is_intact context_bytes s budget (row ∷ take n rows)
          (started query.scope query.before_cursor query.after_key))
        (context_loop-started s budget row (take n rows) query.scope query.before_cursor
          query.after_key (long.0, All-take IsLong n rows long.1))
        (λ st t. finished-fits budget (row ∷ rows) st t)

  Answers-last :
      (budget : ℕ) (rows : List MemoryNote) (st : ContextLoop)
      → context_bytes (finished rows st) ≤ budget
      → Answers (Within context_bytes budget) (
          throw_if (ltb budget (context_bytes (finished rows st))) internal
          >> ok (finished rows st))
  unfolding Within Answers
  Answers-last budget rows st small =
      rw (not_above budget (context_bytes (finished rows st)) small) small

  fill_context-Within :
      (s : Store) (budget limit : ℕ) (query : MemoryNoteQuery)
      → 1 ≤ limit
      → All IsLong s.memory_notes
      → Answers
          (Within context_bytes budget)
          (fill_context is_intact context_bytes s budget limit query)
  unfolding fill_context
  fill_context-Within s budget limit query some_room long =
      Answers-throw_if _
        (ltb budget (context_bytes (empty_context query.scope query.before_cursor))) _
        (λ small.
          Answers->>= _ _
            (context_loop is_intact context_bytes s budget (take limit (list_memory_notes s query))
              (started query.scope query.before_cursor query.after_key))
            _
            (loop_fits s budget limit query (list_memory_notes s query) some_room
              (list_memory_notes-All IsLong s query long) (fits_below budget _ small))
            (λ st fits. Answers-last budget (list_memory_notes s query) st fits))

  -- If no key in the table is shorter than two characters, and sizes are those of JSON in that
  -- `true` is not longer than `false`, and `null` not longer than such a key in quotes,
  -- `getContext` answers within the budget that the caller has chosen, 16384 bytes by default, or
  -- throws INVALID_ARGUMENT, and never INTERNAL.
  pub get_context-Within :
      (s : Store) (input : MemoryContextInput)
      → All IsLong s.memory_notes
      → Answers
          (Within context_bytes (chosen input.max_bytes 16384))
          (get_context is_intact context_bytes s input)
  unfolding get_context
  get_context-Within s input long =
      Answers->>= _ _ (integer input.limit 20 1 50) _ (Answers-integer input.limit 20 1 50)
        (λ limit l.
          Answers->>= _ _ (integer input.max_bytes 16384 2048 65536) _
            (Answers-integer input.max_bytes 16384 2048 65536)
            (λ budget b.
              Answers->>= _ _ (check_after_key input.after_key) _
                (check_after_key-Answers input.after_key)
                (λ _ _.
                  Answers->>= _ _ (check_keys input.keys) _ (check_keys-Answers input.keys) (λ _ _.
                    Answers-throw_if _ (is_empty (lifecycles_of input.lifecycles)) _ (λ _.
                      Answers->>= _ _
                        (integer input.at_cursor (last_event_id s.events) 0
                          (last_event_id s.events))
                        _
                        (Answers-integer input.at_cursor (last_event_id s.events) 0
                          (last_event_id s.events))
                        (λ head _.
                          subst
                            (λ k. Answers (Within context_bytes k) (
                              fill_context is_intact context_bytes s budget limit
                                (query_of input limit head)))
                            b.0
                            (fill_context-Within s budget limit (query_of input limit head) l.1
                              long)))))))
