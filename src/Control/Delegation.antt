-- ===== src/Control/Delegation.antt =====
-- shared/control-plane/src/delegation-operation.ts. The hash of a whole contract, the hash of a
-- specification and the processes that are alive are parameters.
pub mod Reserve
pub mod Kept
pub mod Rows
pub mod Launch
pub mod Calls
pub mod Once
mod Examples
use bidirectional_bridge_cla.Prelude.{
  ℕ, zero, suc, ◌+◌, Bool, true, false, not, ◌&&◌, ◌||◌, Option, none, some, List, [], ◌∷◌, ◌++◌,
  ◌==◌, is, ltb, is_some, or_else, if◌then◌else◌, Result, ok, err, ◌>>=◌, ◌>>◌, throw_if, internal,
  invalid_argument, not_found, illegal_transition, dependency_unsatisfied, idempotency_mismatch,
  operation_in_progress,
}
use bidirectional_bridge_cla.Protocol.Path.{Text}
use bidirectional_bridge_cla.Protocol.Scope.{codes}
use bidirectional_bridge_cla.Protocol.Lifecycle.{TaskState, same_state}
use bidirectional_bridge_cla.Protocol.Records.{
  TaskId, AgentId, RunId, Task, TaskSpec, TelemetryMode, operational, DelegationRequest,
  DelegationOutcome, delegation_requested, delegation,
}
use bidirectional_bridge_cla.Control.Store.{
  Store, Artifact, Phase, ExecutionRecord, DelegationPhase, DelegationOperation, get_execution,
  append_event, get_delegation_operation, put_delegation_operation,
}
use bidirectional_bridge_cla.Control.Memory.Table.{get_artifact}
use bidirectional_bridge_cla.Control.Tasks.Guards.{require_task}
use bidirectional_bridge_cla.Control.Tasks.Dependencies.{satisfied}
use bidirectional_bridge_cla.Control.Tasks.Lineage.{CreateTaskInput, create_body}
use bidirectional_bridge_cla.Control.Tasks.Transitions.{block}
use bidirectional_bridge_cla.Control.Leases.Holding.{quarantine}
use bidirectional_bridge_cla.Control.Executions.{update}

-- What `reserve` answers.
pub record Reservation : Type 0 where
  pub operation : DelegationOperation
  pub owned : Bool

-- `input.max_attempts ?? 0`.
abbrev pub retries : DelegationRequest → ℕ
retries input = elim input.max_attempts [ none ↦ 0 | some n ↦ n ]

abbrev pub is_bad_request : DelegationRequest → Bool
is_bad_request input =
    ltb input.deadline_ms 1000 || (ltb 86400000 input.deadline_ms || ltb 5 (retries input))

abbrev pub for_delegate : TaskSpec → AgentId → TaskSpec
for_delegate spec to = record spec {
  preferred_agent = some to;
  telemetry_mode = or_else spec.telemetry_mode (some operational);
}

-- The request with its defaults, for a task that is there or is to be created.
abbrev pub complete_request : DelegationRequest → Option TaskId → DelegationRequest
complete_request input none = record input {
  max_attempts = some (retries input);
  spec = for_delegate input.spec input.to;
}
complete_request input (some id) = record input { max_attempts = some (retries input) }

unfoldable pub resolve_many : Store → List ℕ → Result (List Artifact)
resolve_many s [] = ok []
resolve_many s (id ∷ ids) = elim (get_artifact s id) [
  | none ↦ err not_found
  | some artifact ↦ do artifacts ← resolve_many s ids; ok (artifact ∷ artifacts)
]

abbrev pub is_over : DelegationPhase → Bool
is_over DelegationPhase.finished = true
is_over DelegationPhase.uncertain = true
is_over _ = false

abbrev pub is_preparing : DelegationPhase → Bool
is_preparing DelegationPhase.preparing = true
is_preparing _ = false

abbrev pub is_uncertain : DelegationPhase → Bool
is_uncertain DelegationPhase.uncertain = true
is_uncertain _ = false

abbrev pub stop_is_confirmed : Option Bool → Bool
stop_is_confirmed none = false
stop_is_confirmed (some confirmed) = confirmed

-- `QUEUED`, or `RUNNING` with the stop of the runtime confirmed.
abbrev pub is_idle : Phase → Option Bool → Bool
is_idle Phase.queued confirmed = true
is_idle Phase.running confirmed = stop_is_confirmed confirmed
is_idle _ confirmed = false

abbrev pub set_phase : Phase → ExecutionRecord → ExecutionRecord
set_phase phase e = record e { phase = phase }

unfoldable pub stop_idle : Store → Option ExecutionRecord → (now : ℕ) → Result Store
stop_idle s none now = ok s
stop_idle s (some e) now =
    if is_idle e.phase e.runtime_stop_confirmed
    then (do (next, s1) ← update s e (set_phase Phase.stopped) now; ok s1)
    else ok s

unfoldable pub quarantine_lease_of : Store → ExecutionRecord → (now : ℕ) → Result Store
quarantine_lease_of s e now = elim e.lease_id [
  | none ↦ ok s
  | some lease_id ↦ do (lease, s1) ← quarantine s lease_id e.agent now; ok s1
]

unfoldable pub quarantine_unknown : Store → Option ExecutionRecord → (now : ℕ) → Result Store
unfolding quarantine_lease_of
quarantine_unknown s none now = ok s
quarantine_unknown s (some e) now = if stop_is_confirmed e.runtime_stop_confirmed then ok s else (do
  (next, s1) ← update s e (set_phase Phase.quarantined) now
  quarantine_lease_of s1 e now)

abbrev pub launch_uncertain : Text
launch_uncertain = codes "Launch outcome uncertain; positive stop evidence required"

unfoldable pub block_working : Store → Task → (now : ℕ) → Result Store
block_working s task now = elim task.owner [
  | none ↦ ok s
  | some owner ↦
      if same_state task.state TaskState.working
      then (do (blocked, s1) ← block s task.task_id owner launch_uncertain now; ok s1)
      else ok s
]

-- The executor of a launch that has been authorized is dead.
unfoldable pub give_up : DelegationOperation → (now : ℕ) → Store → Result (Reservation × Store)
unfolding quarantine_unknown block_working
give_up existing now s = do
  s1 ← quarantine_unknown s (get_execution s existing.task_id) now
  task ← require_task s1 existing.task_id
  s2 ← block_working s1 task now
  let unsure : DelegationOperation = record existing {
    phase = DelegationPhase.uncertain;
    updated_at = now;
  }
  ok (record { operation = unsure; owned = false }, put_delegation_operation s2 unsure)

-- Another executor goes on with a reservation that has launched nothing.
unfoldable pub take_over :
    DelegationOperation → (executor pid now : ℕ) → Store → Result (Reservation × Store)
unfolding stop_idle
take_over existing executor pid now s = do
  s1 ← stop_idle s (get_execution s existing.task_id) now
  let resumed : DelegationOperation = record existing {
    executor_id = executor;
    executor_pid = pid;
    updated_at = now;
  }
  ok (record { operation = resumed; owned = true }, put_delegation_operation s1 resumed)

-- The key is there.
unfoldable pub reserve_again :
    (alive : (pid : ℕ) → Bool)
    → DelegationOperation
    → (hash executor pid now : ℕ) → Store
    → Result (Reservation × Store)
unfolding give_up take_over
reserve_again alive existing hash executor pid now s = do
  throw_if (not (existing.request_hash == hash)) idempotency_mismatch
  if is_over existing.phase
      then ok (record { operation = existing; owned = false }, s)
      else if existing.executor_id == executor
      then ok (record { operation = existing; owned = true }, s)
      else if alive existing.executor_pid
      then ok (record { operation = existing; owned = false }, s)
      else if is_preparing existing.phase
      then take_over existing executor pid now s
      else give_up existing now s

-- A missing row, which the source rules out by `!`, is an error of the program.
unfoldable pub authorize : (executor : ℕ) → DelegationOperation → (now : ℕ) → Store → Result Store
authorize executor operation now s =
    elim (get_delegation_operation s operation.caller operation.key) [
      | none ↦ err internal
      | some current ↦ do
        throw_if
            (not (current.executor_id == executor)
              || (is_some current.outcome || is_uncertain current.phase))
            operation_in_progress
        ok (
            put_delegation_operation s
              (record current { phase = DelegationPhase.authorized; updated_at = now }))
    ]

unfoldable pub finish :
    (executor : ℕ)
    → DelegationOperation
    → DelegationOutcome
    → (now : ℕ) → Store
    → Result (DelegationOutcome × Store)
finish executor operation outcome now s =
    elim (get_delegation_operation s operation.caller operation.key) [
      | none ↦ err internal
      | some current ↦ elim current.outcome [
        | some earlier ↦ ok (earlier, s)
        | none ↦ do
          throw_if (not (current.executor_id == executor)) operation_in_progress
          ok (
            outcome,
            put_delegation_operation s (record current {
              phase = DelegationPhase.finished;
              outcome = some outcome;
              updated_at = now;
            }),
          )
      ]
    ]
