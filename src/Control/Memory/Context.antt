-- ===== src/Control/Memory/Context.antt =====
-- memory-service.ts: `getContext`, after the check of the scope. `context_bytes` is the size of its
-- response in JSON.
use bidirectional_bridge_cla.Prelude.{
  ℕ, ◌+◌, Bool, false, not, ◌&&◌, ◌||◌, Option, none, some, List, [], ◌∷◌, ◌++◌, ◌==◌, leb, ltb,
  length, take, all, includes, is_empty, if◌then◌else◌, Result, ok, err, ◌>>=◌, ◌>>◌, throw_if,
  invalid_argument, internal,
}
use bidirectional_bridge_cla.Protocol.Path.{Text, is_letter}
use bidirectional_bridge_cla.Protocol.Scope.{codes}
use bidirectional_bridge_cla.Protocol.Lifecycle.{TaskState, is_terminal}
use bidirectional_bridge_cla.Protocol.Memory.{MemoryScope, MemoryNote, MemoryLifecycle, active}
use bidirectional_bridge_cla.Protocol.Records.{TaskId}
use bidirectional_bridge_cla.Control.Store.{Store, get_task, last_event_id}
use bidirectional_bridge_cla.Control.Memory.Table.{list_memory_notes, MemoryNoteQuery}
use bidirectional_bridge_cla.Control.Memory.Reading.{MemoryReadNote, read_note, integer}

pub record Omitted : Type 0 where
  pub key : Text
  pub revision : ℕ
  pub minimum_bytes : ℕ

pub record ContextPage : Type 0 where
  pub scope : MemoryScope
  pub change_cursor : ℕ
  pub notes : List MemoryReadNote
  pub pending_tasks : List (TaskId × TaskState)
  pub omitted : List Omitted
  pub has_more : Bool
  pub next_key : Option Text

pub record MemoryContextInput : Type 0 where
  pub scope : MemoryScope
  pub keys : Option (List Text)
  pub lifecycles : Option (List MemoryLifecycle)
  pub after_key : Option Text
  pub at_cursor : Option ℕ
  pub limit : Option ℕ
  pub max_bytes : Option ℕ

-- A code unit of a key: a letter, a digit, or, behind the first, one of `._:/-`.
abbrev pub is_alphanumeric : ℕ → Bool
is_alphanumeric c = is_letter c || (leb 48 c && leb c 57)

abbrev pub is_key_unit : ℕ → Bool
is_key_unit c = is_alphanumeric c || includes (codes "._:/-") c

unfoldable pub check_key : Text → Result (Unit {0})
check_key [] = err invalid_argument
check_key (c ∷ cs) =
    throw_if (not (is_alphanumeric c && (all is_key_unit cs && leb (length cs) 127)))
      invalid_argument

unfoldable pub check_all_keys : List Text → Result (Unit {0})
unfolding check_key
check_all_keys [] = ok tt
check_all_keys (key ∷ keys) = do check_key key; check_all_keys keys

unfoldable pub check_after_key : Option Text → Result (Unit {0})
unfolding check_key
check_after_key none = ok tt
check_after_key (some key) = check_key key

unfoldable pub check_keys : Option (List Text) → Result (Unit {0})
unfolding check_all_keys
check_keys none = ok tt
check_keys (some keys) = do
  throw_if (ltb (length keys) 1 || ltb 100 (length keys)) invalid_argument
  check_all_keys keys

-- `Map.set` on the tasks that are pending, which keeps the place of a key that is there.
unfoldable pub set_pending :
    List (TaskId × TaskState) → TaskId → TaskState → List (TaskId × TaskState)
set_pending [] id state = (id, state) ∷ []
set_pending (t ∷ ts) id state =
    let rest = set_pending ts id state in if t.0 == id then (id, state) ∷ ts else t ∷ rest

unfoldable pub pending_with :
    Store → List (TaskId × TaskState) → List TaskId → List (TaskId × TaskState)
unfolding set_pending
pending_with s tasks [] = tasks
pending_with s tasks (id ∷ ids) =
    pending_with s
      (elim (get_task s id) [
        | none ↦ tasks
        | some task ↦ if is_terminal task.state then tasks else set_pending tasks id task.state
      ])
      ids

abbrev pub omission : ContextPage → MemoryNote → (minimum_bytes : ℕ) → ContextPage
omission page row minimum_bytes = record page {
  omitted =
      page.omitted
      ++ record { key = row.key; revision = row.revision; minimum_bytes = minimum_bytes } ∷ [];
  next_key = some row.key;
}

abbrev pub empty_context : MemoryScope → (head : ℕ) → ContextPage
empty_context scope head = record {
  scope = scope;
  change_cursor = head;
  notes = [];
  pending_tasks = [];
  omitted = [];
  has_more = false;
  next_key = none;
}

-- `result`, `last` and `processed` of the loop.
pub record ContextLoop : Type 0 where
  pub page : ContextPage
  pub last : Option Text
  pub processed : ℕ

abbrev pub started : MemoryScope → (head : ℕ) → (last : Option Text) → ContextLoop
started scope head last = record { page = empty_context scope head; last = last; processed = 0 }

-- The row is done with, and `page` is what it has left; the key that a candidate has carried for its
-- size is dropped again.
abbrev pub processed_row : ContextLoop → ContextPage → MemoryNote → ContextLoop
processed_row st page row = record {
  page = record page { next_key = st.page.next_key };
  last = some row.key;
  processed = st.processed + 1;
}

abbrev pub finished : List MemoryNote → ContextLoop → ContextPage
finished rows st =
    let more = ltb st.processed (length rows) in
    record st.page { has_more = more; next_key = if more then st.last else none }

-- `input.lifecycles ?? ["active"]`.
abbrev pub lifecycles_of : Option (List MemoryLifecycle) → List MemoryLifecycle
lifecycles_of none = active ∷ []
lifecycles_of (some lifecycles) = lifecycles

abbrev pub query_of : MemoryContextInput → (limit head : ℕ) → MemoryNoteQuery
query_of input limit head = record {
  scope = input.scope;
  before_cursor = head;
  after_key = input.after_key;
  keys = input.keys;
  lifecycles = lifecycles_of input.lifecycles;
  limit = limit + 1;
}

module _ (is_intact : (artifact_id : ℕ) → Bool) (context_bytes : ContextPage → ℕ) where
  abbrev pub candidate : Store → ContextPage → MemoryNote → ContextPage
  candidate s page row = record page {
    notes = page.notes ++ read_note is_intact s row ∷ [];
    pending_tasks = pending_with s page.pending_tasks row.draft.related_task_ids;
    next_key = some row.key;
  }

  unfoldable pub context_loop :
      Store → (budget : ℕ) → List MemoryNote → ContextLoop → Result ContextLoop
  context_loop s budget [] st = ok st
  context_loop s budget (row ∷ rows) st =
      let whole = candidate s st.page row in
      let omitted = omission st.page row (context_bytes whole) in
      let taken = context_loop s budget rows (processed_row st whole row) in
      let skipped = context_loop s budget rows (processed_row st omitted row) in
      let refused = if st.processed == 0 then err invalid_argument else ok st in
      let without = if ltb budget (context_bytes omitted) then refused else skipped in
      if ltb budget (context_bytes whole)
      then (if is_empty st.page.notes then without else ok st)
      else taken

  unfoldable pub fill_context : Store → (budget limit : ℕ) → MemoryNoteQuery → Result ContextPage
  fill_context s budget limit query = do
    let rows = list_memory_notes s query
    throw_if (ltb budget (context_bytes (empty_context query.scope query.before_cursor)))
        invalid_argument
    st ←
        context_loop s budget (take limit rows)
          (started query.scope query.before_cursor query.after_key)
    throw_if (ltb budget (context_bytes (finished rows st))) internal
    ok (finished rows st)

  unfoldable pub get_context : Store → MemoryContextInput → Result ContextPage
  unfolding integer check_after_key check_keys
  get_context s input = do
    limit ← integer input.limit 20 1 50
    budget ← integer input.max_bytes 16384 2048 65536
    check_after_key input.after_key
    check_keys input.keys
    throw_if (is_empty (lifecycles_of input.lifecycles)) invalid_argument
    head ← integer input.at_cursor (last_event_id s.events) 0 (last_event_id s.events)
    fill_context s budget limit (query_of input limit head)
