-- ===== src/Control/Delegation/Reserve.antt =====
-- delegation-operation.ts, `reserveTask`: a new reservation, and the call as a whole.
use bidirectional_bridge_cla.Prelude.{
  ℕ, ◌+◌, Bool, true, false, not, ◌&&◌, ◌||◌, Option, none, some, List, ◌==◌, is, is_some, Result,
  ok, ◌>>=◌, ◌>>◌, throw_if, invalid_argument, illegal_transition, dependency_unsatisfied,
}
use bidirectional_bridge_cla.Protocol.Lifecycle.{TaskState, same_state}
use bidirectional_bridge_cla.Protocol.Records.{
  TaskId, RunId, Task, TaskSpec, DelegationRequest, delegation_requested, delegation,
}
use bidirectional_bridge_cla.Control.Store.{
  Store, Artifact, DelegationPhase, DelegationOperation, append_event, get_delegation_operation,
  put_delegation_operation,
}
use bidirectional_bridge_cla.Control.Tasks.Guards.{require_task}
use bidirectional_bridge_cla.Control.Tasks.Dependencies.{satisfied}
use bidirectional_bridge_cla.Control.Tasks.Lineage.{CreateTaskInput, create_body}
use bidirectional_bridge_cla.Control.Delegation.{
  Reservation, retries, is_bad_request, complete_request, resolve_many, reserve_again,
}

-- `===` on fields of which the second may be left out.
abbrev pub is_parent_of : Option TaskId → Option (Option TaskId) → Bool
is_parent_of parent none = false
is_parent_of none (some none) = true
is_parent_of (some p) (some none) = false
is_parent_of parent (some (some q)) = is parent q

abbrev pub is_same_contract : (spec_hash : TaskSpec → ℕ) → Task → DelegationRequest → Bool
is_same_contract spec_hash task input =
    task.created_by == input.from
    && (is input.run_id task.run_id
        && (is_parent_of task.parent_task_id input.parent_task_id
            && (is input.delegation_depth task.delegation_depth
                && spec_hash task.spec == spec_hash input.spec)))

unfoldable pub existing_task :
    (spec_hash : TaskSpec → ℕ) → DelegationRequest → TaskId → Store → Result (Task × Store)
existing_task spec_hash input id s = do
  task ← require_task s id
  throw_if (not (same_state task.state TaskState.pending) || is_some task.owner) illegal_transition
  throw_if (not (is_same_contract spec_hash task input)) invalid_argument
  throw_if (not (satisfied s id)) dependency_unsatisfied
  ok (task, s)

abbrev pub creation_of : DelegationRequest → TaskSpec → CreateTaskInput
creation_of input spec = record {
  spec = spec;
  created_by = input.from;
  run_id = input.run_id;
  parent_task_id = elim input.parent_task_id [ none ↦ none | some parent ↦ parent ];
  delegation_depth = input.delegation_depth;
  idempotency_key = none;
}

-- The task of a new reservation, which is there or is created. Without a key of idempotency,
-- `create` runs its body.
unfoldable pub task_for :
    (spec_hash : TaskSpec → ℕ)
    → DelegationRequest
    → (existing : Option TaskId) → (fresh_id fresh_run now : ℕ) → Store
    → Result (Task × Store)
unfolding existing_task
task_for spec_hash input (some id) fresh_id fresh_run now s = existing_task spec_hash input id s
task_for spec_hash input none fresh_id fresh_run now s =
    create_body (creation_of input (complete_request input none).spec) fresh_id fresh_run now s

abbrev pub requested_event :
    DelegationRequest → DelegationRequest → Task → (now : ℕ) → Store → Store
requested_event input request task now s =
    append_event s delegation_requested task.task_id input.from
      (delegation input.to task.run_id task.parent_task_id task.delegation_depth
        request.spec.objective input.deadline_ms input.input_artifacts (retries input + 1)
        (elim input.total_deadline_ms [ none ↦ none | some total ↦ some (now + total) ]))
      none now

abbrev pub new_operation :
    DelegationRequest
    → Task
    → (key hash executor pid now : ℕ) → DelegationRequest
    → DelegationOperation
new_operation input task key hash executor pid now request = record {
  caller = input.from;
  key = key;
  request_hash = hash;
  task_id = task.task_id;
  request = request;
  phase = DelegationPhase.preparing;
  executor_id = executor;
  executor_pid = pid;
  started_at = now;
  updated_at = now;
  outcome = none;
}

-- The three numbers of the random source that a call may use, its executor and its time.
pub record ReserveCall : Type 0 where
  pub executor : ℕ
  pub pid : ℕ
  pub fresh_key : ℕ
  pub fresh_id : TaskId
  pub fresh_run : RunId
  pub now : ℕ

abbrev pub key_of : DelegationRequest → ReserveCall → ℕ
key_of input call = elim input.idempotency_key [ none ↦ call.fresh_key | some key ↦ key ]

module _ (fingerprint : DelegationRequest → List Artifact → Option TaskId → ℕ)
    (spec_hash : TaskSpec → ℕ) (alive : (pid : ℕ) → Bool) where
  unfoldable pub reserve_new :
      DelegationRequest
      → Option TaskId
      → (hash : ℕ) → ReserveCall
      → Store
      → Result (Reservation × Store)
  unfolding task_for
  reserve_new input existing hash call s = do
    (task, s1) ← task_for spec_hash input existing call.fresh_id call.fresh_run call.now s
    let request = complete_request input existing
    let operation =
        new_operation input task (key_of input call) hash call.executor call.pid call.now request
    ok (
      record { operation = operation; owned = true },
      put_delegation_operation (requested_event input request task call.now s1) operation,
    )

  -- Inside the transaction.
  unfoldable pub reserve_keyed :
      DelegationRequest
      → Option TaskId
      → (hash : ℕ) → ReserveCall
      → Store
      → Result (Reservation × Store)
  unfolding reserve_new reserve_again
  reserve_keyed input existing hash call s =
      elim (get_delegation_operation s input.from (key_of input call)) [
        | none ↦ reserve_new input existing hash call s
        | some operation ↦ reserve_again alive operation hash call.executor call.pid call.now s
      ]

  -- The artifacts are read before the transaction, and no artifact is ever changed.
  unfoldable pub reserve_task :
      DelegationRequest → Option TaskId → ReserveCall → Store → Result (Reservation × Store)
  unfolding reserve_keyed resolve_many
  reserve_task input existing call s = do
    throw_if (is_bad_request input) invalid_argument
    artifacts ← resolve_many s input.input_artifacts
    reserve_keyed input existing (fingerprint (complete_request input existing) artifacts existing)
        call s
