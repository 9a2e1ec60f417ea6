-- ===== src/Control/Store.antt =====
-- shared/control-plane/src/store/sqlite-store.ts: the statements on the tables. An operation that throws yields no store: its
-- transaction is rolled back.
pub mod Laws
pub use bidirectional_bridge_cla.Control.Rows.{
  Operation, task_create, task_claim, task_transition, same_operation, IdempotencyRecord, Phase,
  ExecutionRecord, AttemptTelemetry, AttemptObservation, Evidence, DeliverableRow, Artifact, Store,
  DelegationPhase, preparing, authorized, finished, uncertain, DelegationOperation,
}
use bidirectional_bridge_cla.Prelude.{
  ℕ, zero, suc, ◌+◌, Bool, true, false, ◌&&◌, Option, none, some, List, [], ◌∷◌, ◌++◌, map, leb,
  ltb, ◌==◌, is, is_some, any, filter, take, if◌then◌else◌, Result, ok, err, internal, ◌>>=◌,
}
use bidirectional_bridge_cla.Protocol.Lifecycle.{TaskState, same_state}
use bidirectional_bridge_cla.Protocol.Records.{
  TaskId, RunId, LeaseId, AgentId, Task, Lease, LeaseState, held, quarantined, Deliverable,
  VerificationResult, RuntimeFailure, TaskAttempt, StatusUpdate, EventType, Payload, BridgeEvent,
}
use bidirectional_bridge_cla.Control.Table.{get, replace, upsert}

-- tasks

unfoldable pub get_task : Store → TaskId → Option Task
get_task s id = get (λ t. t.task_id) id s.tasks

-- INSERT OR IGNORE.
unfoldable pub add_dependency : TaskId → TaskId → List (TaskId × TaskId) → List (TaskId × TaskId)
add_dependency task_id depends_on edges =
    if any (λ e. e.0 == task_id && e.1 == depends_on) edges
    then edges
    else edges ++ (task_id, depends_on) ∷ []

unfoldable pub add_dependencies :
    TaskId → List TaskId → List (TaskId × TaskId) → List (TaskId × TaskId)
add_dependencies task_id [] edges = edges
add_dependencies task_id (dep ∷ deps) edges =
    add_dependencies task_id deps (add_dependency task_id dep edges)

-- A second row with the same primary key is an error of the database.
unfoldable pub insert_task : Store → Task → Result Store
insert_task s task =
    if is_some (get_task s task.task_id)
    then err internal
    else ok (record s {
      tasks = s.tasks ++ task ∷ [];
      dependencies = add_dependencies task.task_id task.spec.dependencies s.dependencies;
    })

-- The columns that the UPDATE sets; the others keep the values of the row.
abbrev pub set_columns : Task → Task → Task
set_columns row task = record row {
  spec = task.spec;
  state = task.state;
  owner = task.owner;
  updated_at = task.updated_at;
  claimed_at = task.claimed_at;
  completed_at = task.completed_at;
  blockers = task.blockers;
  version = task.version;
  attempt = task.attempt;
}

-- UPDATE … WHERE task_id = ? AND version = task.version - 1, which must change a row.
unfoldable pub update_task : Store → Task → Result Store
update_task s task = elim (get_task s task.task_id) [
  | none ↦ err internal
  | some row ↦
      if row.version + 1 == task.version
      then ok (record s { tasks = replace (λ t. t.task_id) (set_columns row task) s.tasks })
      else err internal
]

-- ORDER BY created_at ASC, rows of one instant in the order of insertion.
unfoldable pub insert_by_creation : Task → List Task → List Task
insert_by_creation t [] = t ∷ []
insert_by_creation t (u ∷ us) =
    if ltb u.created_at t.created_at then u ∷ insert_by_creation t us else t ∷ u ∷ us

unfoldable pub by_creation : List Task → List Task
by_creation [] = []
by_creation (t ∷ ts) = insert_by_creation t (by_creation ts)

unfoldable pub list_tasks_in : Store → TaskState → List Task
list_tasks_in s state = take 1000 (by_creation (filter (λ t. same_state t.state state) s.tasks))

-- dependencies

unfoldable pub insert_ascending : ℕ → List ℕ → List ℕ
insert_ascending x [] = x ∷ []
insert_ascending x (y ∷ ys) = if leb x y then x ∷ y ∷ ys else y ∷ insert_ascending x ys

unfoldable pub targets : TaskId → List (TaskId × TaskId) → List TaskId
targets task_id [] = []
targets task_id ((from, to) ∷ edges) =
    let rest = targets task_id edges in if from == task_id then insert_ascending to rest else rest

unfoldable pub get_dependencies : Store → TaskId → List TaskId
get_dependencies s task_id = targets task_id s.dependencies

-- attempts and observations

unfoldable pub find {ℓ} : {A : Type ℓ} → (A → Bool) → List A → Option A
find p [] = none
find p (x ∷ xs) = if p x then some x else find p xs

unfoldable pub get_attempt : Store → TaskId → ℕ → Option TaskAttempt
get_attempt s task_id attempt = find (λ a. a.task_id == task_id && a.attempt == attempt) s.attempts

unfoldable pub get_observation : Store → TaskId → ℕ → Option AttemptObservation
get_observation s task_id attempt =
    find (λ o. o.task_id == task_id && o.attempt == attempt) s.observations

unfoldable pub get_telemetry : Store → TaskId → ℕ → Option AttemptTelemetry
get_telemetry s task_id attempt =
    find (λ o. o.task_id == task_id && o.attempt == attempt) s.telemetry

-- leases and executions

unfoldable pub get_lease : Store → LeaseId → Option Lease
get_lease s id = get (λ l. l.lease_id) id s.leases

unfoldable pub insert_lease : Store → Lease → Result Store
insert_lease s lease =
    if is_some (get_lease s lease.lease_id)
    then err internal
    else ok (record s { leases = s.leases ++ lease ∷ [] })

-- UPDATE leases SET state, expires_at, released_at: the other columns of the row stay.
unfoldable pub update_lease : Store → Lease → Store
update_lease s lease = elim (get_lease s lease.lease_id) [
  | none ↦ s
  | some row ↦ record s {
    leases =
        replace (λ l. l.lease_id)
          (record row {
            state = lease.state;
            expires_at = lease.expires_at;
            released_at = lease.released_at;
          })
          s.leases;
  }
]

abbrev pub is_held : LeaseState → Bool
is_held held = true
is_held _ = false

abbrev pub is_quarantined : LeaseState → Bool
is_quarantined quarantined = true
is_quarantined _ = false

abbrev pub is_open : LeaseState → Bool
is_open held = true
is_open quarantined = true
is_open _ = false

unfoldable pub insert_by_acquisition : Lease → List Lease → List Lease
insert_by_acquisition l [] = l ∷ []
insert_by_acquisition l (m ∷ ms) =
    if ltb m.acquired_at l.acquired_at then m ∷ insert_by_acquisition l ms else l ∷ m ∷ ms

unfoldable pub open_leases : List Lease → List Lease
open_leases [] = []
open_leases (l ∷ ls) =
    let rest = open_leases ls in if is_open l.state then insert_by_acquisition l rest else rest

-- The leases in HELD or QUARANTINED, the oldest first.
unfoldable pub list_held_leases : Store → List Lease
list_held_leases s = open_leases s.leases

unfoldable pub get_execution : Store → TaskId → Option ExecutionRecord
get_execution s task_id = get (λ e. e.task_id) task_id s.executions

unfoldable pub put_execution : Store → ExecutionRecord → Store
put_execution s e = record s { executions = upsert (λ x. x.task_id) e s.executions }

-- In the order of insertion; without an agent, all of them.
unfoldable pub list_executions : Store → Option AgentId → List ExecutionRecord
list_executions s none = s.executions
list_executions s (some agent) = filter (λ e. e.agent == agent) s.executions

-- status, deliverables and evidence

unfoldable pub insert_status : Store → StatusUpdate → Store
insert_status s update = record s { statuses = update ∷ s.statuses }

unfoldable pub insert_deliverable : Store → Deliverable → ℕ → Store
insert_deliverable s d attempt = record s {
  deliverables =
      upsert (λ x. x.task_id) (record { task_id = d.task_id; deliverable = d; attempt = attempt })
        s.deliverables;
}

unfoldable pub get_deliverable : Store → TaskId → Option Deliverable
get_deliverable s task_id = elim (get (λ d. d.task_id) task_id s.deliverables) [
  | none ↦ none
  | some row ↦ some row.deliverable
]

unfoldable pub insert_verification : Store → TaskId → VerificationResult → ℕ → Store
insert_verification s task_id r attempt = record s {
  verifications =
      s.verifications ++ record { task_id = task_id; result = r; attempt = attempt } ∷ [];
}

unfoldable pub results_of : TaskId → ℕ → List Evidence → List VerificationResult
results_of task_id attempt [] = []
results_of task_id attempt (e ∷ es) =
    let rest = results_of task_id attempt es in
    if e.task_id == task_id && e.attempt == attempt then e.result ∷ rest else rest

unfoldable pub list_verifications : Store → TaskId → ℕ → List VerificationResult
list_verifications s task_id attempt = results_of task_id attempt s.verifications

-- the event log

unfoldable pub last_event_id : List BridgeEvent → ℕ
last_event_id [] = 0
last_event_id (e ∷ es) = e.event_id

-- The arguments of `appendEvent`: the type, the task, the agent, the payload, the key, the time.
unfoldable pub append_event : Store → EventType → TaskId → AgentId → Payload → Option ℕ → ℕ → Store
append_event s type task_id agent payload key at = record s {
  events =
      record {
        event_id = suc (last_event_id s.events);
        type = type;
        task_id = some task_id;
        agent = agent;
        at = at;
        payload = payload;
        idempotency_key = key;
      }
      ∷ s.events;
}

-- idempotency

unfoldable pub get_idempotency : Store → ℕ → Option IdempotencyRecord
get_idempotency s key = get (λ r. r.key) key s.idempotency

-- INSERT … ON CONFLICT(key) DO NOTHING.
unfoldable pub put_idempotency : Store → IdempotencyRecord → Store
put_idempotency s r =
    if is_some (get_idempotency s r.key)
    then s
    else record s { idempotency = s.idempotency ++ r ∷ [] }

-- delegations

abbrev pub is_operation : AgentId → (key : ℕ) → DelegationOperation → Bool
is_operation caller key o = o.caller == caller && o.key == key

unfoldable pub get_operation :
    AgentId → (key : ℕ) → List DelegationOperation → Option DelegationOperation
get_operation caller key [] = none
get_operation caller key (o ∷ os) =
    let rest = get_operation caller key os in if is_operation caller key o then some o else rest

unfoldable pub put_operation :
    DelegationOperation → List DelegationOperation → List DelegationOperation
put_operation r [] = r ∷ []
put_operation r (o ∷ os) =
    let rest = put_operation r os in if is_operation r.caller r.key o then r ∷ os else o ∷ rest

unfoldable pub get_delegation_operation : Store → AgentId → (key : ℕ) → Option DelegationOperation
unfolding get_operation
get_delegation_operation s caller key = get_operation caller key s.operations

unfoldable pub put_delegation_operation : Store → DelegationOperation → Store
unfolding put_operation
put_delegation_operation s r = record s { operations = put_operation r s.operations }
