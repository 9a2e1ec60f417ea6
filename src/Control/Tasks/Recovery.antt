-- ===== src/Control/Tasks/Recovery.antt =====
-- task-service.ts: `beginRecovery`, `assertRecoverable` and `assertPersistedLineage`.
use bidirectional_bridge_cla.Prelude.{
  ℕ, zero, suc, ◌+◌, Bool, true, false, not, ◌&&◌, ◌||◌, Option, none, some, List, [], ◌∷◌, ◌==◌,
  leb, ltb, is, is_some, or_else, includes, length, all, if◌then◌else◌, Result, ok, err, ◌>>=◌,
  ◌>>◌, throw_if, invalid_argument, not_found, operation_in_progress, illegal_transition,
  dependency_unsatisfied, internal,
}
use bidirectional_bridge_cla.Protocol.Path.{Text}
use bidirectional_bridge_cla.Protocol.Lifecycle.{TaskState, same_state}
use bidirectional_bridge_cla.Protocol.Scope.{codes}
use bidirectional_bridge_cla.Protocol.Records.{
  TaskId, AgentId, Task, profile, contract, RuntimeFailure, AttemptOutcome, adapter_failed,
  timed_out, TaskAttempt, task_state_changed, recovery,
}
use bidirectional_bridge_cla.Control.Store.{
  Store, AttemptTelemetry, AttemptObservation, get_task, get_attempt, get_observation,
  get_telemetry, get_deliverable,
}
use bidirectional_bridge_cla.Control.Tasks.Guards.{require_task, assert_owner, write}
use bidirectional_bridge_cla.Control.Tasks.Dependencies.{satisfied}
use bidirectional_bridge_cla.Control.Tasks.Lineage.{assert_target_not_in_ancestors}

abbrev telemetry_of : Option AttemptObservation → Option AttemptTelemetry
telemetry_of none = none
telemetry_of (some o) = o.telemetry

abbrev failure_of : Option AttemptTelemetry → Option RuntimeFailure
failure_of none = none
failure_of (some t) = t.runtime_failure

-- The failure of the task's attempt: that of the observation, or else of the sealed telemetry.
unfoldable pub runtime_failure_of : Store → Task → Option RuntimeFailure
runtime_failure_of s task = failure_of (
    or_else (telemetry_of (get_observation s task.task_id task.attempt))
      (get_telemetry s task.task_id task.attempt))

abbrev pub needs_repair : Option RuntimeFailure → Bool
needs_repair none = false
needs_repair (some f) = elim f.category [ profile ↦ true | contract ↦ true | _ ↦ false ]

-- `retry_after_at != null && retry_after_at > now`.
abbrev pub must_wait : Option RuntimeFailure → ℕ → Bool
must_wait none now = false
must_wait (some f) now = elim f.retry_after_at [ none ↦ false | some at ↦ ltb now at ]

-- The code units that `trim` removes.
abbrev is_space : ℕ → Bool
is_space c =
    (leb 9 c && leb c 13)
    || c == 32
    || c == 160
    || c == 5760
    || (leb 8192 c && leb c 8202)
    || c == 8232
    || c == 8233
    || c == 8239
    || c == 8287
    || c == 12288
    || c == 65279

-- `Boolean(execution_handle?.trim())`.
abbrev has_handle : Option Text → Bool
has_handle none = false
has_handle (some handle) = not (all is_space handle)

abbrev was_interrupted : Option AttemptOutcome → Bool
was_interrupted none = false
was_interrupted (some outcome) = elim outcome [
  | adapter_failed ↦ true
  | timed_out ↦ true
  | _ ↦ false
]

-- The attempt ended by the fault of the runtime, and left something to resume.
abbrev pub ended_by_runtime : Option TaskAttempt → Option AgentId → Bool
ended_by_runtime none owner = false
ended_by_runtime (some a) owner =
    is owner a.agent
    && is_some a.ended_at
    && has_handle a.execution_handle
    && was_interrupted a.outcome

unfoldable pub interrupted_runtime : Store → Task → Bool
interrupted_runtime s task =
    same_state task.state TaskState.failed
    && not (is_some (get_deliverable s task.task_id))
    && ended_by_runtime (get_attempt s task.task_id task.attempt) task.owner

-- `state` of a task that cannot be resumed.
abbrev pub cannot_resume : TaskState → Bool → Bool
cannot_resume state interrupted =
    same_state state TaskState.pending
    || same_state state TaskState.done
    || same_state state TaskState.failed && not interrupted
    || same_state state TaskState.cancelled

unfoldable pub assert_recoverable : Store → Task → ℕ → Result (Unit {0})
assert_recoverable s task now = do
  throw_if (needs_repair (runtime_failure_of s task)) invalid_argument
  throw_if (must_wait (runtime_failure_of s task) now) operation_in_progress
  throw_if (cannot_resume task.state (interrupted_runtime s task)) illegal_transition

-- The guard on a child and its parent.
abbrev pub lineage_differs : Task → Task → Bool
lineage_differs current parent =
    not (current.run_id == parent.run_id)
    || not (current.delegation_depth == parent.delegation_depth + 1)

-- The loop of `assertPersistedLineage`; `none` means that the fuel ran out.
unfoldable pub lineage_loop : ℕ → Store → List TaskId → Task → Option (Result (Unit {0}))
lineage_loop zero s seen current = none
lineage_loop (suc fuel) s seen current =
    if includes seen current.task_id
    then some (err invalid_argument)
    else elim current.parent_task_id [
      | none ↦ some (throw_if (not (current.delegation_depth == 0)) invalid_argument)
      | some id ↦ elim (get_task s id) [
        | none ↦ some (err not_found)
        | some parent ↦
            let rest = lineage_loop fuel s (current.task_id ∷ seen) parent in
            if lineage_differs current parent then some (err invalid_argument) else rest
      ]
    ]

-- A walk that has not ended stands as an internal error.
abbrev ended : Option (Result (Unit {0})) → Result (Unit {0})
ended none = err internal
ended (some r) = r

abbrev owner_apart : Store → Option AgentId → Option TaskId → Result (Unit {0})
owner_apart s (some owner) (some parent) = ended (assert_target_not_in_ancestors s parent owner)
owner_apart s _ _ = ok tt

-- Each round but the first starts from a task of the table that no earlier round has seen.
unfoldable pub assert_persisted_lineage : Store → Task → Result (Unit {0})
assert_persisted_lineage s task = do
  ended (lineage_loop (suc (suc (length s.tasks))) s [] task)
  owner_apart s task.owner task.parent_task_id

pub record BeginRecoveryInput : Type 0 where
  pub task_id : TaskId
  pub agent : AgentId
  pub next_attempt : ℕ

abbrev pub recovered_task : Task → ℕ → ℕ → Task
recovered_task task next_attempt now = record task {
  state = TaskState.working;
  attempt = next_attempt;
  completed_at = none;
  blockers = [];
  updated_at = now;
  version = task.version + 1;
}

unfoldable pub begin_recovery : Store → BeginRecoveryInput → ℕ → Result (Task × Store)
begin_recovery s input now = do
  found ← require_task s input.task_id
  task ← assert_owner found input.agent
  assert_recoverable s task now
  throw_if (not (input.next_attempt == task.attempt + 1)) illegal_transition
  throw_if (not (satisfied s task.task_id)) dependency_unsatisfied
  assert_persisted_lineage s task
  write s (recovered_task task input.next_attempt now) task_state_changed input.agent
      (recovery task.state TaskState.working (codes "recovery") input.next_attempt) none now
