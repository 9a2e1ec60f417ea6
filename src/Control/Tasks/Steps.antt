-- ===== src/Control/Tasks/Steps.antt =====
-- task-service.ts: every operation as steps that write one task and the event that tells of it.
use bidirectional_bridge_cla.Prelude.{
  Bool, true, false, ℕ, ◌+◌, ◌≡◌, refl, sym, ap, ◌∙◌, ◌⊎◌, true, Option, none, some, arith, ◌==◌,
  is, Result, ok, err, >>=-eq-ok, not_found,
}
use bidirectional_bridge_cla.Protocol.Lifecycle.{TaskState, can_transition}
use bidirectional_bridge_cla.Protocol.Records.{
  TaskId, AgentId, Task, EventType, Payload, task_created, task_claimed, task_released,
  task_state_changed, task_blocked, task_unblocked, transition, finalization, recovery,
}
use bidirectional_bridge_cla.Control.Store.{Store, get_task, set_columns, update_task, append_event}
use bidirectional_bridge_cla.Control.Store.Laws.{
  with_task, Updates, update_task-Updates, get_task-key,
}
use bidirectional_bridge_cla.Control.Tasks.Guards.{
  require_task, assert_owner, assert_transition, write,
}

-- The state in which an event leaves its task, if it tells of one.
abbrev payload_state : Payload → Option TaskState
payload_state (transition from to why) = some to
payload_state (finalization from to why blocker) = some to
payload_state (recovery from to why attempt) = some to
payload_state p = none

abbrev pub event_state : EventType → Payload → Option TaskState
event_state task_created p = some TaskState.pending
event_state task_claimed p = some TaskState.claimed
event_state task_released p = some TaskState.pending
event_state task_blocked p = some TaskState.blocked
event_state task_unblocked p = some TaskState.working
event_state task_state_changed p = payload_state p
event_state _ p = none

-- What is fixed when a task is created.
pub record SameIdentity (old new : Task) : Type 0 where
  pub task_id : new.task_id ≡ old.task_id
  pub run_id : new.run_id ≡ old.run_id
  pub parent : new.parent_task_id ≡ old.parent_task_id
  pub depth : new.delegation_depth ≡ old.delegation_depth
  pub creator : new.created_by ≡ old.created_by
  pub created : new.created_at ≡ old.created_at

-- The states that a recovery may leave.
abbrev pub is_resumable : TaskState → Bool
is_resumable TaskState.claimed = true
is_resumable TaskState.working = true
is_resumable TaskState.blocked = true
is_resumable TaskState.verifying = true
is_resumable TaskState.failed = true
is_resumable _ = false

-- A move of the state: along the table, by a retry, or by a recovery, which the table does not list.
abbrev pub Moves : TaskState → TaskState → Type 0
Moves from to =
    (can_transition from to ≡ true)
    ⊎ (from ≡ TaskState.failed) × (to ≡ TaskState.pending)
    ⊎ (is_resumable from ≡ true) × (to ≡ TaskState.working)

-- One write: `old` is the row before it, `new` the row after it.
pub record Writes (s : Store) (old new : Task) (s' : Store) : Type 0 where
  pub type : EventType
  pub agent : AgentId
  pub payload : Payload
  pub key : Option ℕ
  pub now : ℕ
  pub found : get_task s old.task_id ≡ some old
  pub identity : SameIdentity old new
  pub moves : Moves old.state new.state
  pub version : new.version ≡ old.version + 1
  pub told : event_state type payload ≡ some new.state
  pub stored : s' ≡ append_event (with_task s new) type new.task_id agent payload key now

-- What an operation on a task does to the store: nothing, or one write.
pub data Step (s : Store) (t : Task) (s' : Store) : Type 0 where
  stays : s' ≡ s → get_task s t.task_id ≡ some t → Step s t s'
  writes : (old : Task) → Writes s old t s' → Step s t s'

pub ok-pair :
    {x y : Task} {a b : Store}
    → ◌≡◌ {A = Result (Task × Store)} (ok (x, a)) (ok (y, b))
    → (x ≡ y) × (a ≡ b)
ok-pair e = (cc, cc)

pub require_task-found :
    (s : Store) (id : TaskId) (t : Task)
    → require_task s id ≡ ok t
    → (get_task s id ≡ some t) × (t.task_id ≡ id)
unfolding require_task
require_task-found s id t h = let e = found (get_task s id) refl h in (e, get_task-key s id t e)
  where
    found :
        (o : Option Task)
        → get_task s id ≡ o
        → (elim o as (λ _. Result Task) [ none ↦ err not_found | some task ↦ ok task ]) ≡ ok t
        → get_task s id ≡ some t
    found none e h = cc
    found (some x) e h = ground arith

pub assert_owner-same :
    (task : Task) (agent : AgentId) (t : Task)
    → assert_owner task agent ≡ ok t
    → (t ≡ task) × (is task.owner agent ≡ true)
unfolding assert_owner
assert_owner-same task agent t h = ground arith

pub assert_transition-legal :
    (task : Task) (to : TaskState) (u : Unit {0})
    → assert_transition task to ≡ ok u
    → can_transition task.state to ≡ true
unfolding assert_transition
assert_transition-legal task to u h = ground arith

same_identity : (old new : Task) → set_columns old new ≡ new → SameIdentity old new
same_identity old new e = record {
  task_id = sym (ap (λ t. t.task_id) e);
  run_id = sym (ap (λ t. t.run_id) e);
  parent = sym (ap (λ t. t.parent_task_id) e);
  depth = sym (ap (λ t. t.delegation_depth) e);
  creator = sym (ap (λ t. t.created_by) e);
  created = sym (ap (λ t. t.created_at) e);
}

-- A write of a task made from the row that was read.
pub write-Writes :
    (s : Store) (old new : Task) (type : EventType) (agent : AgentId) (payload : Payload)
    (key : Option ℕ) (now : ℕ) (t : Task) (s' : Store)
    → get_task s old.task_id ≡ some old
    → set_columns old new ≡ new
    → Moves old.state new.state
    → event_state type payload ≡ some new.state
    → write s new type agent payload key now ≡ ok (t, s')
    → (t ≡ new) × Writes s old new s'
unfolding write
write-Writes s old new type agent payload key now t s' found cols moves told h =
    let id = same_identity old new cols in
    let (s1, u, e) = >>=-eq-ok (update_task s new) _ h in
    let up = update_task-Updates s new s1 u in
    let row : up.row ≡ old = some-eq (sym up.found ∙ ap (get_task s) id.task_id ∙ found) in
    (
      ground arith,
      record {
        type = type;
        agent = agent;
        payload = payload;
        key = key;
        now = now;
        found = found;
        identity = id;
        moves = moves;
        version = rw row at up.next;
        told = told;
        stored = placed s1 up row e;
      },
    )
  where
    placed :
        (s1 : Store) (up : Updates s new s1)
        → up.row ≡ old
        → ◌≡◌ {A = Result (Task × Store)}
            (ok (new, append_event s1 type new.task_id agent payload key now))
            (ok (t, s'))
        → s' ≡ append_event (with_task s new) type new.task_id agent payload key now
    placed s1 up row e =
        let here : s1 ≡ with_task s new =
          up.stored ∙ ap (λ x. with_task s (set_columns x new)) row ∙ ap (with_task s) cols in
        sym (ok-pair e).1 ∙ ap (λ x. append_event x type new.task_id agent payload key now) here

    some-eq : {x y : Task} → some x ≡ some y → x ≡ y
    some-eq e = cc

-- So for the row that `get` has read under `id`, with the written task as the answer.
pub write-Step :
    (s : Store) (id : TaskId) (old new : Task) (type : EventType) (agent : AgentId)
    (payload : Payload) (key : Option ℕ) (now : ℕ) (t : Task) (s' : Store)
    → get_task s id ≡ some old
    → set_columns old new ≡ new
    → Moves old.state new.state
    → event_state type payload ≡ some new.state
    → write s new type agent payload key now ≡ ok (t, s')
    → Step s t s'
write-Step s id old new type agent payload key now t s' found cols moves told h =
    let found' : get_task s old.task_id ≡ some old =
      ap (get_task s) (get_task-key s id old found) ∙ found in
    let (e, w) = write-Writes s old new type agent payload key now t s' found' cols moves told h in
    rw e (writes old w)

-- And for an answer that leaves the store as it was.
pub stays-Step :
    (s : Store) (id : TaskId) (old t : Task) (s' : Store)
    → get_task s id ≡ some old
    → ◌≡◌ {A = Result (Task × Store)} (ok (old, s)) (ok (t, s'))
    → Step s t s'
stays-Step s id old t s' found h =
    let (e, f) = ok-pair h in
    stays (sym f) (
      ap (λ x. get_task s x.task_id) (sym e)
      ∙ ap (get_task s) (get_task-key s id old found)
      ∙ found
      ∙ ap some e)

-- The checks and the write when nothing stands in their way.
pub require_task-ok :
    (s : Store) (id : TaskId) (task : Task)
    → get_task s id ≡ some task
    → require_task s id ≡ ok task
unfolding require_task
require_task-ok s id task e = rw (e, require_task)

pub assert_owner-ok :
    (task : Task) (agent : AgentId) → task.owner ≡ some agent → assert_owner task agent ≡ ok task
unfolding assert_owner
assert_owner-ok task agent e = ground arith

pub write-ok :
    (s : Store) (row new : Task) (type : EventType) (agent : AgentId) (payload : Payload)
    (key : Option ℕ) (now : ℕ)
    → get_task s new.task_id ≡ some row
    → set_columns row new ≡ new
    → new.version ≡ row.version + 1
    → write s new type agent payload key now
      ≡ ok (new, append_event (with_task s new) type new.task_id agent payload key now)
unfolding write update_task
write-ok s row new type agent payload key now e cols v =
    rw (e, update_task, test)
      (ap (λ x. ok (new, append_event (with_task s x) type new.task_id agent payload key now)) cols)
  where
    test : (row.version + 1 == new.version) ≡ true
    test = ground arith
