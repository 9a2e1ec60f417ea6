-- ===== src/Control/Memory/Table.antt =====
-- store/sqlite-store.ts: the table of memory notes, in the order of insertion. A revision is never
-- changed or deleted.
use bidirectional_bridge_cla.Prelude.{
  ℕ, ◌+◌, Bool, true, false, not, ◌&&◌, ◌||◌, Option, none, some, List, [], ◌∷◌, ◌++◌, ◌==◌, leb,
  ltb, any, filter, take, text_eq, if◌then◌else◌, Result, ok, ◌>>◌, throw_if, invalid_argument,
  revision_conflict,
}
use bidirectional_bridge_cla.Protocol.Path.{Text}
use bidirectional_bridge_cla.Protocol.Memory.{
  MemoryScope, MemoryNote, MemoryLifecycle, active, superseded, archived, same_scope,
}
use bidirectional_bridge_cla.Control.Table.{get}
use bidirectional_bridge_cla.Control.Store.{Store, Artifact}

unfoldable pub get_artifact : Store → ℕ → Option Artifact
get_artifact s id = get (λ a. a.artifact_id) id s.artifacts

abbrev pub is_note_of : MemoryScope → Text → MemoryNote → Bool
is_note_of scope key n = same_scope n.scope scope && text_eq n.key key

-- ORDER BY revision DESC LIMIT 1.
unfoldable pub latest : List MemoryNote → Option MemoryNote
latest [] = none
latest (n ∷ ns) = elim (latest ns) [
  | none ↦ some n
  | some m ↦ if ltb n.revision m.revision then some m else some n
]

unfoldable pub get_memory_note : Store → MemoryScope → Text → Option MemoryNote
unfolding latest
get_memory_note s scope key = latest (filter (is_note_of scope key) s.memory_notes)

-- `current?.revision ?? 0`.
abbrev pub revision_of : Option MemoryNote → ℕ
revision_of none = 0
revision_of (some n) = n.revision

-- COALESCE(MAX(…), 0).
unfoldable pub max_revision : List MemoryNote → ℕ
max_revision [] = 0
max_revision (n ∷ ns) =
    let rest = max_revision ns in if ltb rest n.revision then n.revision else rest

unfoldable pub max_cursor : List MemoryNote → ℕ
max_cursor [] = 0
max_cursor (n ∷ ns) =
    let rest = max_cursor ns in if ltb rest n.change_cursor then n.change_cursor else rest

unfoldable pub insert_memory_note : Store → MemoryNote → (expected_revision : ℕ) → Result Store
insert_memory_note s note expected_revision = do
  throw_if (not (note.revision == expected_revision + 1)) invalid_argument
  throw_if (ltb note.change_cursor 1) invalid_argument
  throw_if
      (not (
        max_revision (filter (is_note_of note.scope note.key) s.memory_notes) == expected_revision))
      revision_conflict
  throw_if (leb note.change_cursor (max_cursor s.memory_notes)) invalid_argument
  ok (record s { memory_notes = s.memory_notes ++ note ∷ [] })

-- listMemoryChanges

unfoldable pub insert_by_cursor : MemoryNote → List MemoryNote → List MemoryNote
insert_by_cursor n [] = n ∷ []
insert_by_cursor n (m ∷ ms) =
    if ltb m.change_cursor n.change_cursor then m ∷ insert_by_cursor n ms else n ∷ m ∷ ms

unfoldable pub by_cursor : List MemoryNote → List MemoryNote
by_cursor [] = []
by_cursor (n ∷ ns) = insert_by_cursor n (by_cursor ns)

abbrev pub is_change : MemoryScope → (after before_cursor : ℕ) → MemoryNote → Bool
is_change scope after before_cursor n =
    same_scope n.scope scope && (ltb after n.change_cursor && leb n.change_cursor before_cursor)

-- Every change of the scope after the one cursor and up to the other, the oldest first.
unfoldable pub changes_between : Store → MemoryScope → (after before_cursor : ℕ) → List MemoryNote
changes_between s scope after before_cursor =
    by_cursor (filter (is_change scope after before_cursor) s.memory_notes)

unfoldable pub list_memory_changes :
    Store → MemoryScope → (after before_cursor limit : ℕ) → List MemoryNote
unfolding changes_between
list_memory_changes s scope after before_cursor limit =
    take limit (changes_between s scope after before_cursor)

-- listMemoryNotes

-- The binary order of keys, which are ASCII.
unfoldable pub text_lt : Text → Text → Bool
text_lt [] [] = false
text_lt [] (y ∷ ys) = true
text_lt (x ∷ xs) [] = false
text_lt (x ∷ xs) (y ∷ ys) = ltb x y || (x == y && text_lt xs ys)

unfoldable pub insert_by_key : MemoryNote → List MemoryNote → List MemoryNote
insert_by_key n [] = n ∷ []
insert_by_key n (m ∷ ms) = if text_lt m.key n.key then m ∷ insert_by_key n ms else n ∷ m ∷ ms

unfoldable pub by_key : List MemoryNote → List MemoryNote
by_key [] = []
by_key (n ∷ ns) = insert_by_key n (by_key ns)

abbrev pub same_lifecycle : MemoryLifecycle → MemoryLifecycle → Bool
same_lifecycle active active = true
same_lifecycle superseded superseded = true
same_lifecycle archived archived = true
same_lifecycle _ _ = false

pub record MemoryNoteQuery : Type 0 where
  pub scope : MemoryScope
  pub before_cursor : ℕ
  pub after_key : Option Text
  pub keys : Option (List Text)
  pub lifecycles : List MemoryLifecycle
  pub limit : ℕ

-- NOT EXISTS a later revision of the key in the snapshot.
abbrev pub is_hidden : List MemoryNote → ℕ → MemoryNote → Bool
is_hidden notes before_cursor m =
    any
      (λ n.
        is_note_of m.scope m.key n
        && (ltb m.revision n.revision && leb n.change_cursor before_cursor))
      notes

abbrev pub is_wanted_key : Option (List Text) → Text → Bool
is_wanted_key none key = true
is_wanted_key (some keys) key = any (text_eq key) keys

abbrev pub is_after_key : Option Text → Text → Bool
is_after_key none key = true
is_after_key (some after) key = text_lt after key

abbrev pub is_selected : List MemoryNote → MemoryNoteQuery → MemoryNote → Bool
is_selected notes q m =
    same_scope m.scope q.scope
    && (leb m.change_cursor q.before_cursor
        && (not (is_hidden notes q.before_cursor m)
            && (any (same_lifecycle m.draft.lifecycle) q.lifecycles
                && (is_wanted_key q.keys m.key && is_after_key q.after_key m.key))))

-- Without lifecycles, and with an empty list of keys, nothing is selected.
unfoldable pub list_memory_notes : Store → MemoryNoteQuery → List MemoryNote
list_memory_notes s q = take q.limit (by_key (filter (is_selected s.memory_notes q) s.memory_notes))
