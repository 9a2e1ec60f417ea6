-- ===== src/Control/Executions.antt =====
-- shared/control-plane/src/execution-service.ts. `alive` is `processAlive`, the answer of the
-- operating system, and a generation is what the random source yields; the clock is an argument.
pub mod Capacity
pub mod Active
pub mod Admission
pub mod History
pub mod Order
pub mod Turns
pub mod Fences
mod Examples
use bidirectional_bridge_cla.Prelude.{
  ℕ, zero, suc, ◌+◌, Bool, true, false, not, ◌&&◌, ◌||◌, Option, none, some, List, [], ◌∷◌, ◌==◌,
  leb, ltb, is, is_some, filter, length, if◌then◌else◌, Result, ok, err, ◌>>=◌, ◌>>◌, throw_if,
  illegal_transition, lease_invalid, adapter_failure, operation_in_progress,
}
use bidirectional_bridge_cla.Protocol.Lifecycle.{TaskState, is_terminal}
use bidirectional_bridge_cla.Protocol.Records.{
  TaskId, AgentId, Task, Lease, LeaseState, lease_released, lease_quarantined, executor_died,
  executor_lost,
}
use bidirectional_bridge_cla.Control.Store.{
  Store, Phase, ExecutionRecord, get_task, get_execution, put_execution, list_executions, get_lease,
  update_lease, is_held, append_event,
}
use bidirectional_bridge_cla.Control.Leases.{stop_confirmed}

abbrev pub is_queued : Phase → Bool
is_queued Phase.queued = true
is_queued _ = false

abbrev pub is_stopped_phase : Phase → Bool
is_stopped_phase Phase.stopped = true
is_stopped_phase _ = false

-- RUNNING or QUARANTINED: the execution takes a place.
abbrev pub is_occupying : Phase → Bool
is_occupying Phase.running = true
is_occupying Phase.quarantined = true
is_occupying _ = false

abbrev pub is_running : Phase → Bool
is_running Phase.running = true
is_running _ = false

-- STOPPED or QUARANTINED.
abbrev pub is_over : Phase → Bool
is_over Phase.stopped = true
is_over Phase.quarantined = true
is_over _ = false

unfoldable pub max_ticket : List ExecutionRecord → ℕ
max_ticket [] = 0
max_ticket (e ∷ es) =
    let rest = max_ticket es in if ltb rest e.queue_ticket then e.queue_ticket else rest

abbrev pub new_execution :
    Store
    → TaskId
    → (attempt : ℕ) → AgentId
    → (max_concurrency pid generation now : ℕ) → ExecutionRecord
new_execution s task_id attempt agent max_concurrency pid generation now = record {
  task_id = task_id;
  attempt = attempt;
  generation = generation;
  agent = agent;
  phase = Phase.queued;
  executor_pid = pid;
  max_concurrency = max_concurrency;
  queued_at = now;
  queue_ticket = max_ticket (list_executions s none) + 1;
  admitted_at = none;
  runtime_stop_confirmed = some true;
  lease_id = none;
  cancel_requested_at = none;
  cancel_requested_by = none;
  updated_at = now;
}

abbrev pub is_unfinished : Option ExecutionRecord → Bool
is_unfinished none = false
is_unfinished (some e) = not (is_stopped_phase e.phase)

abbrev pub is_full : Store → AgentId → Bool
is_full s agent = leb 64 (length (filter (λ e. is_queued e.phase) (list_executions s (some agent))))

unfoldable pub queue :
    Store
    → TaskId
    → (attempt : ℕ) → AgentId
    → (max_concurrency pid generation now : ℕ) → Result (ExecutionRecord × Store)
queue s task_id attempt agent max_concurrency pid generation now = do
  throw_if (is_unfinished (get_execution s task_id)) operation_in_progress
  throw_if (is_full s agent) adapter_failure
  let e = new_execution s task_id attempt agent max_concurrency pid generation now
  ok (e, put_execution s e)

abbrev pub current_of : Option ExecutionRecord → ExecutionRecord → Result ExecutionRecord
current_of none e = err illegal_transition
current_of (some current) e =
    if not (current.generation == e.generation) || not (current.attempt == e.attempt)
    then err illegal_transition
    else ok current

unfoldable pub assert_generation : Store → ExecutionRecord → Result ExecutionRecord
assert_generation s e = current_of (get_execution s e.task_id) e

-- reconcileExecutors

unfoldable pub lease_of : Store → ExecutionRecord → Option Lease
lease_of s e = elim e.lease_id [ none ↦ none | some id ↦ get_lease s id ]

abbrev pub release_held : Option Lease → ExecutionRecord → ℕ → Store → Store
release_held none e now s = s
release_held (some lease) e now s =
    if is_held lease.state
    then append_event
        (update_lease s (record lease { state = LeaseState.released; released_at = some now }))
        lease_released e.task_id e.agent (executor_died lease.lease_id lease.scope.paths) none now
    else s

abbrev pub quarantine_held : Option Lease → ExecutionRecord → ℕ → Store → Store
quarantine_held none e now s = s
quarantine_held (some lease) e now s =
    if is_held lease.state
    then append_event (update_lease s (record lease { state = LeaseState.quarantined }))
        lease_quarantined e.task_id e.agent (executor_lost lease.lease_id) none now
    else s

abbrev pub stop_record : ExecutionRecord → ℕ → ExecutionRecord
stop_record e now = record e {
  phase = Phase.stopped;
  runtime_stop_confirmed = some true;
  updated_at = now;
}

abbrev pub quarantine_record : ExecutionRecord → ℕ → ExecutionRecord
quarantine_record e now = record e { phase = Phase.quarantined; updated_at = now }

module _ (alive : (pid : ℕ) → Bool) where
  abbrev pub is_passed_over : ExecutionRecord → Bool
  is_passed_over e = is_over e.phase || (e.executor_pid == 0 || alive e.executor_pid)

  -- One round of the loop over the executions.
  unfoldable pub reconcile_one : ℕ → ExecutionRecord → Store → Store
  unfolding lease_of
  reconcile_one now e s =
      if is_passed_over e
      then s
      else if is_queued e.phase || stop_confirmed e.runtime_stop_confirmed
      then release_held (lease_of s e) e now (put_execution s (stop_record e now))
      else quarantine_held (lease_of s e) e now (put_execution s (quarantine_record e now))

  unfoldable pub reconcile_all : ℕ → List ExecutionRecord → Store → Store
  reconcile_all now [] s = s
  reconcile_all now (e ∷ es) s = reconcile_all now es (reconcile_one now e s)

  unfoldable pub reconcile_executors : ℕ → Option AgentId → Store → Store
  reconcile_executors now agent s = reconcile_all now (list_executions s agent) s

-- tryAdmit

-- `filter(e => e.phase !== "STOPPED")`, and the order by ticket.
unfoldable pub insert_by_ticket : ExecutionRecord → List ExecutionRecord → List ExecutionRecord
insert_by_ticket e [] = e ∷ []
insert_by_ticket e (f ∷ fs) =
    if ltb f.queue_ticket e.queue_ticket then f ∷ insert_by_ticket e fs else e ∷ f ∷ fs

unfoldable pub by_ticket : List ExecutionRecord → List ExecutionRecord
by_ticket [] = []
by_ticket (e ∷ es) = insert_by_ticket e (by_ticket es)

unfoldable pub active : Store → AgentId → List ExecutionRecord
active s agent =
    by_ticket (filter (λ e. not (is_stopped_phase e.phase)) (list_executions s (some agent)))

-- `Math.min(record.max_concurrency, ...all.map(e => e.max_concurrency))`.
unfoldable pub limit_of : ℕ → List ExecutionRecord → ℕ
limit_of least [] = least
limit_of least (e ∷ es) =
    limit_of (if ltb e.max_concurrency least then e.max_concurrency else least) es

abbrev pub is_waiting : ExecutionRecord → Bool
is_waiting e = is_queued e.phase && not (is_some e.cancel_requested_at)

-- `all.find(…)`.
unfoldable pub first_waiting : List ExecutionRecord → Option ExecutionRecord
first_waiting [] = none
first_waiting (e ∷ es) = if is_waiting e then some e else first_waiting es

abbrev pub occupied : List ExecutionRecord → ℕ
occupied es = length (filter (λ e. is_occupying e.phase) es)

abbrev pub is_turn_of : Option ExecutionRecord → ExecutionRecord → Bool
is_turn_of none e = false
is_turn_of (some first) e = first.generation == e.generation

abbrev pub admitted : ExecutionRecord → ℕ → ExecutionRecord
admitted e now = record e { phase = Phase.running; admitted_at = some now; updated_at = now }

abbrev pub admit_among :
    List ExecutionRecord → ExecutionRecord → ExecutionRecord → ℕ → Store → Bool × Store
admit_among all e current now s =
    if leb (limit_of e.max_concurrency all) (occupied all) || not (is_turn_of (first_waiting all) e)
    then (false, s)
    else (true, put_execution s (admitted current now))

unfoldable pub admit_current : Store → ExecutionRecord → ExecutionRecord → ℕ → Bool × Store
admit_current s e current now =
    if is_some current.cancel_requested_at
    then (false, s)
    else admit_among (active s e.agent) e current now s

unfoldable pub try_admit : ((pid : ℕ) → Bool) → Store → ExecutionRecord → ℕ → Result (Bool × Store)
try_admit alive s e now = do
  let s' = reconcile_executors alive now (some e.agent) s
  current ← assert_generation s' e
  ok (admit_current s' e current now)

-- update, requestCancel, assertCallback

-- `patch` is the spread of a partial record; what identifies the execution is put back after it.
abbrev pub updated :
    ExecutionRecord → (patch : ExecutionRecord → ExecutionRecord) → ℕ → ExecutionRecord
updated current patch now = record (patch current) {
  task_id = current.task_id;
  generation = current.generation;
  attempt = current.attempt;
  agent = current.agent;
  queue_ticket = current.queue_ticket;
  updated_at = now;
}

unfoldable pub update :
    Store
    → ExecutionRecord
    → (patch : ExecutionRecord → ExecutionRecord) → (now : ℕ) → Result (ExecutionRecord × Store)
update s e patch now = do
  current ← assert_generation s e
  let next = updated current patch now
  ok (next, put_execution s next)

abbrev pub is_settled : ExecutionRecord → Bool
is_settled e = is_stopped_phase e.phase || is_some e.cancel_requested_at

abbrev pub cancel_requested : ExecutionRecord → AgentId → ℕ → ExecutionRecord
cancel_requested e by now = record e {
  cancel_requested_by = some by;
  cancel_requested_at = some now;
  updated_at = now;
}

abbrev pub cancel_found :
    Option ExecutionRecord → Store → AgentId → ℕ → Option ExecutionRecord × Store
cancel_found none s by now = (none, s)
cancel_found (some e) s by now =
    if is_settled e
    then (some e, s)
    else (some (cancel_requested e by now), put_execution s (cancel_requested e by now))

unfoldable pub request_cancel : Store → TaskId → AgentId → ℕ → Option ExecutionRecord × Store
request_cancel s task_id by now = cancel_found (get_execution s task_id) s by now

abbrev pub is_foreign_task : Option Task → ExecutionRecord → Bool
is_foreign_task none e = true
is_foreign_task (some task) e =
    not (task.attempt == e.attempt) || not (is task.owner e.agent) || is_terminal task.state

abbrev pub is_outside_lease : Option Lease → ℕ → Bool
is_outside_lease none now = true
is_outside_lease (some lease) now = not (is_held lease.state) || leb lease.expires_at now

abbrev pub is_refused : Store → (current e : ExecutionRecord) → ℕ → Bool
is_refused s current e now =
    not (is_running current.phase)
    || (is_some current.cancel_requested_at
        || (is_foreign_task (get_task s e.task_id) e || is_outside_lease (lease_of s current) now))

unfoldable pub assert_callback : Store → ExecutionRecord → ℕ → Result (Unit {0})
assert_callback s e now = do
  current ← assert_generation s e
  throw_if (is_refused s current e now) lease_invalid
