-- ===== src/Control/Memory/Responses.antt =====
-- memory-service.ts: the responses to two readers of a small table.
use bidirectional_bridge_cla.Prelude.{
  Answers, ℕ, ◌+◌, ◌*◌, ◌≤◌, ◌≡◌, refl, Bool, true, false, Option, none, some, List, [], ◌∷◌, ◌++◌,
  arith, ltb, length, err, internal,
}
use bidirectional_bridge_cla.Protocol.Path.{Text}
use bidirectional_bridge_cla.Protocol.Scope.{codes}
use bidirectional_bridge_cla.Protocol.Memory.{MemoryNote, same_scope}
use bidirectional_bridge_cla.Control.Store.{Store, last_event_id}
use bidirectional_bridge_cla.Control.Memory.Table.{
  changes_between, list_memory_changes, by_cursor, insert_by_cursor, list_memory_notes, by_key,
  insert_by_key, text_lt,
}
use bidirectional_bridge_cla.Control.Memory.Notes.{Ascending}
use bidirectional_bridge_cla.Control.Memory.Reading.{
  ChangesPage, MemoryReadNote, Sizes, MemoryChangesInput, read_note, integer, closed, get_changes,
  fill_changes, changes_loop,
}
use bidirectional_bridge_cla.Control.Memory.Following.{
  ChangesRead, Follows, notes_read, notes_read-changes,
}
use bidirectional_bridge_cla.Control.Memory.Context.{
  ContextPage, MemoryContextInput, get_context, query_of, fill_context,
}
use bidirectional_bridge_cla.Control.Memory.Budget.{Within, get_changes-Within}
use bidirectional_bridge_cla.Control.Memory.Overflow.{fill_context_overflows}
use bidirectional_bridge_cla.Control.Memory.Fitting.{JsonSizes, get_context-Within}
use bidirectional_bridge_cla.Control.Memory.Examples.{
  intact, notebook, note_of, notes, after_events,
}

abbrev flag_bytes : Bool → ℕ
flag_bytes true = 4
flag_bytes false = 5

abbrev key_bytes : Option Text → ℕ
key_bytes none = 4
key_bytes (some key) = length key + 2

abbrev sizes : Sizes
sizes = record { changes_bytes = λ page. flag_bytes page.has_more + 2040 * length page.changes }

abbrev context_bytes : ContextPage → ℕ
context_bytes page = flag_bytes page.has_more + (key_bytes page.next_key + 2040 * length page.notes)

closing :
    (rows : List MemoryNote) (page : ChangesPage)
    → page.has_more ≡ false
    → sizes.changes_bytes (closed rows page) ≤ sizes.changes_bytes page
closing rows page h =
    rw h (shorter (ltb (length page.changes) (length rows)) (2040 * length page.changes))
  where
    shorter : (b : Bool) (n : ℕ) → flag_bytes b + n ≤ 5 + n
    shorter true n = omega arith
    shorter false n = omega arith

json : JsonSizes context_bytes
json = record { more = λ page key h. rw h (omega arith); no_key = λ page key h. omega (arith, h) }

abbrev full : Store
full = record (after_events 3) { memory_notes = notes }

abbrev changes_input : MemoryChangesInput
changes_input = record {
  scope = notebook;
  change_cursor = some 1;
  until_cursor = none;
  limit = none;
  max_bytes = some 2048;
}

get_changes-Within_example :
    Answers (Within sizes.changes_bytes 2048) (get_changes intact sizes full changes_input)
get_changes-Within_example = get_changes-Within intact sizes closing full changes_input

abbrev context_input : MemoryContextInput
context_input = record {
  scope = notebook;
  keys = none;
  lifecycles = none;
  after_key = none;
  at_cursor = some 3;
  limit = some 1;
  max_bytes = none;
}

get_context-Within_example :
    Answers (Within context_bytes 16384) (get_context intact context_bytes full context_input)
get_context-Within_example =
    get_context-Within intact context_bytes json full context_input
      (omega arith, (omega arith, (omega arith, tt)))

-- A note whose key is one character, for which the budget is just enough.
abbrev short : Store
short = record (after_events 3) { memory_notes = note_of (codes "a") 1 1 ∷ [] }

only_row : list_memory_notes short (query_of context_input 1 3) ≡ note_of (codes "a") 1 1 ∷ []
unfolding list_memory_notes by_key insert_by_key text_lt same_scope
only_row = refl

fill_context_overflows_example :
    fill_context intact context_bytes short 2048 1 (query_of context_input 1 3) ≡ err internal
fill_context_overflows_example =
    fill_context_overflows intact context_bytes short 2048 1 (query_of context_input 1 3)
      (note_of (codes "a") 1 1) (omega arith) only_row (omega arith) refl (λ page. omega arith)

-- A reader of the changes up to the head 3, during whose reads another note is written.

abbrev read_at :
    Store → (limit : Option ℕ) → List MemoryReadNote → (cursor : ℕ) → Bool → ChangesRead
read_at s limit changes cursor has_more = record {
  store = s;
  limit = limit;
  max_bytes = some 65536;
  page = record {
    scope = notebook;
    changes = changes;
    change_cursor = cursor;
    head_cursor = 3;
    has_more = has_more;
  };
}

abbrev plain : MemoryNote → MemoryReadNote
plain note = record { note = note; reference_states = [] }

abbrev grown : Store
grown = record (after_events 4) { memory_notes = notes ++ note_of (codes "ab") 3 4 ∷ [] }

abbrev reads : List ChangesRead
reads =
    read_at full (some 1) (plain (note_of (codes "ab") 1 1) ∷ []) 1 true
    ∷ read_at grown none (plain (note_of (codes "ab") 2 2) ∷ plain (note_of (codes "cd") 1 3) ∷ [])
        3 false
    ∷ []

notes-Ascending : Ascending notes
unfolding Ascending
notes-Ascending = ((omega arith, (omega arith, tt)), ((omega arith, tt), (tt, tt)))

grown-Ascending : Ascending grown.memory_notes
unfolding Ascending
grown-Ascending = (
  (omega arith, (omega arith, (omega arith, tt))),
  ((omega arith, (omega arith, tt)), ((omega arith, tt), (tt, tt))),
)

reads-Follows : Follows intact sizes full notebook 3 notes-Ascending 0 reads
unfolding Follows get_changes fill_changes changes_loop integer list_memory_changes changes_between
    by_cursor insert_by_cursor same_scope read_note last_event_id
reads-Follows = (
  (record { added = []; kept = refl; ordered = notes-Ascending; beyond = tt }, refl),
  refl,
  (
    (
      record {
        added = note_of (codes "ab") 3 4 ∷ [];
        kept = refl;
        ordered = grown-Ascending;
        beyond = (omega arith, tt);
      },
      refl,
    ),
    refl,
  ),
)

notes_read-changes_example : notes_read reads ≡ changes_between full notebook 0 3
notes_read-changes_example =
    notes_read-changes intact sizes full notebook 3 notes-Ascending 0 reads reads-Follows
