-- ===== src/Control/Tasks/Log.antt =====
-- task-service.ts: the event log tells the state of every task.
use bidirectional_bridge_cla.Prelude.{
  ℕ, ◌≡◌, refl, ap, ◌∙◌, inl, inr, Option, none, some, List, [], ◌∷◌, ◌==◌, is, if◌then◌else◌,
  or_else, Bool-cases, is_some,
}
use bidirectional_bridge_cla.Protocol.Lifecycle.{TaskState}
use bidirectional_bridge_cla.Protocol.Records.{
  TaskId, AgentId, Task, EventType, Payload, BridgeEvent,
}
use bidirectional_bridge_cla.Control.Store.{
  Store, get_task, append_event, IdempotencyRecord, put_idempotency, get_idempotency,
}
use bidirectional_bridge_cla.Control.Store.Laws.{with_task, get_task-with_task}
use bidirectional_bridge_cla.Control.Tasks.Steps.{Step, stays, writes, Writes, event_state}

-- The state that an event tells of the task `id`.
abbrev pub told_state : TaskId → BridgeEvent → Option TaskState
told_state id e = if is e.task_id id then event_state e.type e.payload else none

-- What the log tells of a task: its last event that tells a state. The newest event comes first.
unfoldable pub last_state : TaskId → List BridgeEvent → Option TaskState
last_state id [] = none
last_state id (e ∷ es) = or_else (told_state id e) (last_state id es)

abbrev pub state_of : Option Task → Option TaskState
state_of none = none
state_of (some t) = some t.state

-- The log tells the state of each task, and of no other task.
pub record LogAgrees (s : Store) : Type 0 where
  pub at : (id : TaskId) → last_state id s.events ≡ state_of (get_task s id)

pub get_task-append_event :
    (s : Store) (ty : EventType) (id : TaskId) (ag : AgentId) (p : Payload) (key : Option ℕ)
    (now : ℕ) (k : TaskId)
    → get_task (append_event s ty id ag p key now) k ≡ get_task s k
unfolding get_task append_event
get_task-append_event s ty id ag p key now k = refl

pub last_state-append_event :
    (s : Store) (ty : EventType) (id : TaskId) (ag : AgentId) (p : Payload) (key : Option ℕ)
    (now : ℕ) (k : TaskId)
    → last_state k (append_event s ty id ag p key now).events
      ≡ or_else (if id == k then event_state ty p else none) (last_state k s.events)
unfolding last_state append_event
last_state-append_event s ty id ag p key now k = refl

-- Other reads of the tasks after a write.
pub get_task-Writes :
    (s : Store) (old t : Task) (s' : Store) (k : TaskId)
    → Writes s old t s'
    → get_task s' k ≡ (if t.task_id == k then some t else get_task s k)
get_task-Writes s old t s' k w =
    rw
      (
        w.stored,
        get_task-append_event (with_task s t) w.type t.task_id w.agent w.payload w.key w.now k,
      )
      (get_task-with_task s old t k (ap (get_task s) w.identity.task_id ∙ w.found))

Writes-LogAgrees :
    (s : Store) (old t : Task) (s' : Store) → LogAgrees s → Writes s old t s' → LogAgrees s'
Writes-LogAgrees s old t s' l w = record {
  at = λ k.
      rw
        (
          get_task-Writes s old t s' k w,
          w.stored,
          last_state-append_event (with_task s t) w.type t.task_id w.agent w.payload w.key w.now k,
          w.told,
        )
        (elim (Bool-cases (t.task_id == k)) [ inl hit ↦ rw hit | inr miss ↦ rw miss (l.at k) ]);
}

pub Step-LogAgrees : (s : Store) (t : Task) (s' : Store) → LogAgrees s → Step s t s' → LogAgrees s'
Step-LogAgrees s t s' l (stays e f) = rw e l
Step-LogAgrees s t s' l (writes old w) = Writes-LogAgrees s old t s' l w

-- The cached responses are no part of it.
pub put_idempotency-LogAgrees :
    (s : Store) (r : IdempotencyRecord) → LogAgrees s → LogAgrees (put_idempotency s r)
unfolding put_idempotency get_task
put_idempotency-LogAgrees s r l = elim (Bool-cases (is_some (get_idempotency s r.key))) [
  | inl e ↦ rw e l
  | inr e ↦ rw e (record { at = l.at })
]
