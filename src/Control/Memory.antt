-- ===== src/Control/Memory.antt =====
-- shared/control-plane/src/memory-service.ts, `upsert`, with the statements on the table of notes
-- (store/sqlite-store.ts). The sizes of values in JSON are a parameter, `Sizes`, and so is whether
-- the content of an artifact is intact, which the registry finds out from its file.
pub mod Table
pub mod Notes
pub mod Revisions
pub mod Writes
pub mod Reading
pub mod Context
pub mod Budget
pub mod Listed
pub mod Fitting
pub mod Overflow
pub mod Filling
pub mod Pages
pub mod Following
mod Examples
mod Responses
use bidirectional_bridge_cla.Prelude.{
  ℕ, zero, suc, ◌+◌, Bool, true, false, not, ◌&&◌, ◌||◌, Option, none, some, List, [], ◌∷◌, ◌++◌,
  ◌==◌, leb, ltb, is_some, any, all, includes, length, is_empty, text_eq, if◌then◌else◌, Result, ok,
  err, ◌>>=◌, ◌>>◌, throw_if, invalid_argument, not_found, not_owner, illegal_transition,
  revision_conflict,
}
use bidirectional_bridge_cla.Protocol.Path.{Text}
use bidirectional_bridge_cla.Protocol.Lifecycle.{TaskState, same_state}
use bidirectional_bridge_cla.Protocol.Memory.{
  MemoryScope, MemoryNoteDraft, MemoryNote, MemoryArtifactReference, MemoryKind, abandoned_track,
  same_scope,
}
use bidirectional_bridge_cla.Protocol.Records.{TaskId, AgentId, Task, memory_updated, memory_update}
use bidirectional_bridge_cla.Control.Store.{Store, Artifact, get_task, append_event, last_event_id}
use Table.{get_memory_note, insert_memory_note, get_artifact, revision_of}

pub record MemoryUpsertInput : Type 0 where
  pub scope : MemoryScope
  pub key : Text
  pub expected_revision : ℕ
  pub note : MemoryNoteDraft
  pub task_id : TaskId
  pub agent : AgentId
  pub idempotency_key : ℕ

abbrev pub memory_max_note_bytes : ℕ
memory_max_note_bytes = 32768

-- `a in ['WORKING', 'VERIFYING']`.
abbrev pub may_write : Task → Bool
may_write task =
    same_state task.state TaskState.working || same_state task.state TaskState.verifying

unfoldable pub check_references :
    ((artifact_id : ℕ) → Bool) → Store → List MemoryArtifactReference → Result (Unit {0})
check_references intact s [] = ok tt
check_references intact s (r ∷ rs) = elim (get_artifact s r.artifact_id) [
  | none ↦ err not_found
  | some artifact ↦ do
    throw_if (not (artifact.sha256 == r.sha256) || not (intact r.artifact_id)) invalid_argument
    check_references intact s rs
]

unfoldable pub check_related : Store → List TaskId → Result (Unit {0})
check_related s [] = ok tt
check_related s (id ∷ ids) = do
  throw_if (not (is_some (get_task s id))) not_found
  check_related s ids

abbrev pub new_note : MemoryUpsertInput → Task → (cursor now : ℕ) → MemoryNote
new_note input task cursor now = record {
  scope = input.scope;
  key = input.key;
  revision = input.expected_revision + 1;
  draft = input.note;
  change_cursor = cursor;
  at = now;
  provenance = record {
    agent = input.agent;
    task_id = task.task_id;
    run_id = task.run_id;
    attempt = task.attempt;
  };
}

abbrev pub with_event : MemoryUpsertInput → Task → ℕ → Store → Store
with_event input task now s =
    append_event s memory_updated task.task_id input.agent
      (memory_update input.scope input.key (input.expected_revision + 1) input.note.lifecycle)
      (some input.idempotency_key) now

-- The body that `runIdempotent` runs, for the task that the transaction has read. `note_bytes` is
-- the size of a note in JSON.
unfoldable pub write_note :
    (intact : (artifact_id : ℕ) → Bool)
    → (note_bytes : MemoryNote → ℕ) → MemoryUpsertInput
    → Task
    → (now : ℕ) → Store
    → Result (MemoryNote × Store)
write_note intact note_bytes input task now s = do
  throw_if (not (may_write task)) illegal_transition
  throw_if (not (revision_of (get_memory_note s input.scope input.key) == input.expected_revision))
      revision_conflict
  check_references intact s input.note.references
  check_related s input.note.related_task_ids
  let s1 = with_event input task now s
  let note = new_note input task (last_event_id s1.events) now
  throw_if (ltb memory_max_note_bytes (note_bytes note)) invalid_argument
  s2 ← insert_memory_note s1 note input.expected_revision
  ok (note, s2)

-- The task that a write is made for, which must be the caller's.
unfoldable pub writing_task : Store → TaskId → AgentId → Result Task
writing_task s task_id agent = elim (get_task s task_id) [
  | none ↦ err not_found
  | some task ↦ do
    throw_if (elim task.owner [ none ↦ true | some owner ↦ not (owner == agent) ]) not_owner
    ok task
]

unfoldable pub has_duplicates : List ℕ → Bool
has_duplicates [] = false
has_duplicates (x ∷ xs) = includes xs x || has_duplicates xs

abbrev pub is_abandoned : MemoryKind → Bool
is_abandoned abandoned_track = true
is_abandoned _ = false

-- The checks on a draft beyond its schema.
unfoldable pub check_draft :
    (draft_bytes : MemoryNoteDraft → ℕ) → MemoryNoteDraft → Result (Unit {0})
check_draft draft_bytes draft = do
  throw_if (has_duplicates draft.related_task_ids) invalid_argument
  throw_if (is_abandoned draft.kind && not (is_some draft.abandonment)) invalid_argument
  throw_if (ltb memory_max_note_bytes (draft_bytes draft)) invalid_argument
