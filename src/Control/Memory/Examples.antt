-- ===== src/Control/Memory/Examples.antt =====
-- memory-service.ts, `upsert`: notes that two agents write, on a small table.
use bidirectional_bridge_cla.Prelude.{ℕ, ◌≡◌, refl, Bool, true, none, some, List, [], ◌∷◌}
use bidirectional_bridge_cla.Protocol.Path.{Text}
use bidirectional_bridge_cla.Protocol.Scope.{codes}
use bidirectional_bridge_cla.Protocol.Lifecycle.{TaskState}
use bidirectional_bridge_cla.Protocol.Memory.{
  MemoryScope, MemoryNoteDraft, MemoryNote, Namespace, MemoryKind, MemoryLifecycle, same_scope,
}
use bidirectional_bridge_cla.Protocol.Records.{Task, EventType, Payload}
use bidirectional_bridge_cla.Control.Store.{Store, append_event, last_event_id}
use bidirectional_bridge_cla.Control.Samples.{nothing, a_task}
use bidirectional_bridge_cla.Control.Memory.{
  MemoryUpsertInput, write_note, check_references, check_related,
}
use bidirectional_bridge_cla.Control.Memory.Table.{
  get_memory_note, insert_memory_note, latest, max_revision, max_cursor,
}
use bidirectional_bridge_cla.Control.Memory.Writes.{
  Write, run_writes, Numbered, run_writes-Numbered,
}
use bidirectional_bridge_cla.Control.Memory.Notes.{Ascending}
use bidirectional_bridge_cla.Control.Memory.Revisions.{Counted}

abbrev pub intact : ℕ → Bool
intact _ = true

abbrev pub bytes_of_note : MemoryNote → ℕ
bytes_of_note _ = 500

abbrev pub notebook : MemoryScope
notebook = record {
  namespace = Namespace.development;
  context_id = codes "main";
  branch = none;
  application_version = none;
  epoch = none;
}

abbrev pub draft : MemoryNoteDraft
draft = record {
  kind = MemoryKind.decision;
  title = codes "t";
  summary = codes "s";
  lifecycle = MemoryLifecycle.active;
  references = [];
  related_task_ids = [];
  abandonment = none;
}

abbrev pub upsert_of : Text → (expected : ℕ) → MemoryUpsertInput
upsert_of key expected = record {
  scope = notebook;
  key = key;
  expected_revision = expected;
  note = draft;
  task_id = 1;
  agent = 7;
  idempotency_key = 3;
}

-- A store in which events have been written.
abbrev pub after_events : ℕ → Store
after_events n = record nothing {
  events =
      record {
        event_id = n;
        type = EventType.task_claimed;
        task_id = none;
        agent = 7;
        at = 0;
        payload = Payload.reason [];
        idempotency_key = none;
      }
      ∷ [];
}

abbrev pub writer : Task
writer = a_task 1 TaskState.working (some 7)

abbrev pub write_of : Text → (expected events : ℕ) → Write
write_of key expected events = record {
  input = upsert_of key expected;
  task = writer;
  now = 5;
  others = after_events events;
}

-- The second write comes too late for its revision.
abbrev pub writes : List Write
writes =
    write_of (codes "ab") 0 0
    ∷ write_of (codes "ab") 0 1
    ∷ write_of (codes "ab") 1 1
    ∷ write_of (codes "cd") 0 2
    ∷ []

abbrev pub note_of : Text → (revision cursor : ℕ) → MemoryNote
note_of key revision cursor = record {
  scope = notebook;
  key = key;
  revision = revision;
  draft = draft;
  change_cursor = cursor;
  at = 5;
  provenance = record { agent = 7; task_id = 1; run_id = 1; attempt = 0 };
}

abbrev pub notes : List MemoryNote
notes = note_of (codes "ab") 1 1 ∷ note_of (codes "ab") 2 2 ∷ note_of (codes "cd") 1 3 ∷ []

written_notes : run_writes intact bytes_of_note writes [] ≡ notes
unfolding run_writes write_note get_memory_note insert_memory_note latest max_revision max_cursor
    append_event last_event_id check_references check_related same_scope
written_notes = refl

no_notes : Numbered []
unfolding Ascending Counted
no_notes = record { ordered = tt; counted = λ scope key. tt }

run_writes-Numbered_example : Numbered (run_writes intact bytes_of_note writes [])
run_writes-Numbered_example = run_writes-Numbered intact bytes_of_note writes [] no_notes

abbrev pub first_written : Store
first_written =
    record (append_event (after_events 0) EventType.memory_updated 1 7
      (Payload.memory_update notebook (codes "ab") 1 MemoryLifecycle.active) (some 3) 5) {
        memory_notes = note_of (codes "ab") 1 1 ∷ [];
      }
