-- ===== src/Control/Memory/Writes.antt =====
-- memory-service.ts, `upsert`: histories of writes, and what they leave in the table of notes.
use mathlib.Core.Path.{subst}
use mathlib.Core.List.{append-nil}
use bidirectional_bridge_cla.Prelude.{
  ℕ, ◌+◌, ◌<◌, ◌≡◌, ◌⊎◌, refl, sym, ap, ◌∙◌, inl, inr, Bool, true, not, List, [], ◌∷◌, ◌++◌, ltb,
  ◌==◌, filter, Bool-cases, Result, ok, err, >>=-eq-ok, throw_if-passed, ok-ok, invalid_argument,
  illegal_transition, revision_conflict,
}
use bidirectional_bridge_cla.Protocol.Path.{Text}
use bidirectional_bridge_cla.Protocol.Memory.{MemoryScope, MemoryNote}
use bidirectional_bridge_cla.Protocol.Records.{Task}
use bidirectional_bridge_cla.Control.Store.{Store, append_event, last_event_id}
use bidirectional_bridge_cla.Control.Memory.{
  MemoryUpsertInput, memory_max_note_bytes, may_write, check_references, check_related, with_event,
  new_note, write_note,
}
use bidirectional_bridge_cla.Control.Memory.Table.{
  max_revision, max_cursor, is_note_of, insert_memory_note, get_memory_note, revision_of,
}
use bidirectional_bridge_cla.Control.Memory.Notes.{Ascending, filter-append}
use bidirectional_bridge_cla.Control.Memory.Revisions.{
  is_note_of-eq, Counted, Counted-next, Ascending-append, Inserted, insert_memory_note-Inserted,
}

-- A call of the body of `upsert`: `others` is the store as the other services have left it, apart
-- from the notes, which only this service writes.
pub record Write : Type 0 where
  pub input : MemoryUpsertInput
  pub task : Task
  pub now : ℕ
  pub others : Store

abbrev pub with_notes : Store → List MemoryNote → Store
with_notes s ns = record s { memory_notes = ns }

abbrev newest : MemoryScope → Text → List MemoryNote → ℕ
newest scope key ns = max_revision (filter (is_note_of scope key) ns)

-- What one call does to the notes: nothing, or one more of them.
record Added (ns : List MemoryNote) (n : MemoryNote) (after : List MemoryNote) : Type 0 where
  numbered : n.revision ≡ newest n.scope n.key ns + 1
  behind : max_cursor ns < n.change_cursor
  notes : after ≡ ns ++ n ∷ []

-- The order of the notes, and the revisions of each key.
pub record Numbered (ns : List MemoryNote) : Type 0 where
  pub ordered : Ascending ns
  pub counted : (scope : MemoryScope) (key : Text) → Counted 0 (filter (is_note_of scope key) ns)

Numbered-Added :
    (ns : List MemoryNote) (n : MemoryNote) (after : List MemoryNote)
    → Added ns n after
    → Numbered ns
    → Numbered after
Numbered-Added ns n after added h = subst Numbered (sym added.notes) (record {
  ordered = Ascending-append ns n h.ordered added.behind;
  counted = λ scope key.
      rw (filter-append (is_note_of scope key) ns (n ∷ []))
        (elim (Bool-cases (is_note_of scope key n)) [
          | inl e ↦ rw e (counted_on scope key e)
          | inr e ↦ rw (e, append-nil (filter (is_note_of scope key) ns)) (h.counted scope key)
        ]);
})
  where
    counted_on :
        (scope : MemoryScope) (key : Text)
        → is_note_of scope key n ≡ true
        → Counted 0 (filter (is_note_of scope key) ns ++ n ∷ [])
    counted_on scope key e =
        let (scoped, keyed) = is_note_of-eq scope key n e in
        Counted-next (filter (is_note_of scope key) ns) n (h.counted scope key) (
          added.numbered
          ∙ ap (λ k. k + 1)
              (ap (λ c. newest c n.key ns) scoped ∙ ap (λ t. newest scope t ns) keyed))

module _ (intact : (artifact_id : ℕ) → Bool) (note_bytes : MemoryNote → ℕ) where
  abbrev pub written : Write → List MemoryNote → Result (MemoryNote × Store)
  written w ns = write_note intact note_bytes w.input w.task w.now (with_notes w.others ns)

  abbrev pub notes_after : List MemoryNote → Result (MemoryNote × Store) → List MemoryNote
  notes_after ns (err code) = ns
  notes_after ns (ok (n, s)) = s.memory_notes

  -- The notes after writes, each accepted or refused.
  unfoldable pub run_writes : List Write → List MemoryNote → List MemoryNote
  run_writes [] ns = ns
  run_writes (w ∷ ws) ns = run_writes ws (notes_after ns (written w ns))

  -- An accepted write adds one note, of the scope and key that it names.
  record Wrote (input : MemoryUpsertInput) (s : Store) (n : MemoryNote) (s1 : Store) : Type 0 where
    scoped : n.scope ≡ input.scope
    keyed : n.key ≡ input.key
    numbered : n.revision ≡ input.expected_revision + 1
    inserted : Inserted s n input.expected_revision s1

  write_note-Wrote :
      (input : MemoryUpsertInput) (task : Task) (now : ℕ) (s : Store) (n : MemoryNote) (s1 : Store)
      → write_note intact note_bytes input task now s ≡ ok (n, s1)
      → Wrote input s n s1
  unfolding write_note append_event
  write_note-Wrote input task now s n s1 h =
      let (a, h1) = throw_if-passed (not (may_write task)) illegal_transition _ h in
      let (b, h2) =
        throw_if-passed
          (not (revision_of (get_memory_note s input.scope input.key) == input.expected_revision))
          revision_conflict _ h1 in
      let (u, c, h3) = >>=-eq-ok (check_references intact s input.note.references) _ h2 in
      let (v, d, h4) = >>=-eq-ok (check_related s input.note.related_task_ids) _ h3 in
      let made = new_note input task (last_event_id (with_event input task now s).events) now in
      let (e, h5) =
        throw_if-passed (ltb memory_max_note_bytes (note_bytes made)) invalid_argument _ h4 in
      let (s2, i, h6) =
        >>=-eq-ok (insert_memory_note (with_event input task now s) made input.expected_revision) _
          h5 in
      let same : (made, s2) ≡ (n, s1) = ok-ok h6 in
      let whole =
        insert_memory_note-Inserted (with_event input task now s) made input.expected_revision s2
          i in
      subst (λ (p : MemoryNote × Store). Wrote input s p.0 p.1) same
        (record {
          scoped = refl;
          keyed = refl;
          numbered = refl;
          inserted = record {
            numbered = whole.numbered;
            latest_was = whole.latest_was;
            behind = whole.behind;
            notes = whole.notes;
          };
        })

  notes_after-cases :
      (w : Write) (ns : List MemoryNote)
      → (notes_after ns (written w ns) ≡ ns)
        ⊎ ((n : MemoryNote) × Added ns n (notes_after ns (written w ns)))
  notes_after-cases w ns = of_result (written w ns) refl
    where
      of_result :
          (r : Result (MemoryNote × Store))
          → written w ns ≡ r
          → (notes_after ns r ≡ ns) ⊎ ((n : MemoryNote) × Added ns n (notes_after ns r))
      of_result (err code) h = inl refl
      of_result (ok (n, s1)) h =
          let wrote = write_note-Wrote w.input w.task w.now (with_notes w.others ns) n s1 h in
          inr (
            n,
            record {
              numbered = wrote.numbered ∙ ap (λ k. k + 1) (sym wrote.inserted.latest_was);
              behind = wrote.inserted.behind;
              notes = wrote.inserted.notes;
            },
          )

  -- If in the table of notes the cursors ascend and the revisions of each scope and key are the
  -- numbers from one on, in order, then so they are after any writes, accepted or refused, between
  -- which the other services may change the other tables.
  pub run_writes-Numbered :
      (ws : List Write) (ns : List MemoryNote) → Numbered ns → Numbered (run_writes ws ns)
  unfolding run_writes
  run_writes-Numbered [] ns h = h
  run_writes-Numbered (w ∷ ws) ns h = elim (notes_after-cases w ns) [
    | inl same ↦ run_writes-Numbered ws _ (subst Numbered (sym same) h)
    | inr (n, added) ↦ run_writes-Numbered ws _ (Numbered-Added ns n _ added h)
  ]
