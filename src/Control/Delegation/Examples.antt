-- ===== src/Control/Delegation/Examples.antt =====
-- delegation-operation.ts: a delegation whose executor dies after it has been let to launch.
use bidirectional_bridge_cla.Prelude.{
  Gives, ℕ, ◌≡◌, ◌≢◌, refl, Bool, false, Option, none, some, List, [], ◌∷◌, arith, ◌==◌, ok, err,
  operation_in_progress,
}
use bidirectional_bridge_cla.Protocol.Lifecycle.{TaskState}
use bidirectional_bridge_cla.Protocol.Records.{TaskId, TaskSpec, DelegationRequest}
use bidirectional_bridge_cla.Control.Store.{
  Store, Artifact, DelegationPhase, DelegationOperation, get_delegation_operation,
  put_delegation_operation, get_operation, put_operation,
}
use bidirectional_bridge_cla.Control.Samples.{nothing, a_spec, a_task}
use bidirectional_bridge_cla.Control.Delegation.{Reservation, authorize}
use bidirectional_bridge_cla.Control.Delegation.Reserve.{ReserveCall, reserve_task}
use bidirectional_bridge_cla.Control.Delegation.Calls.{
  DelegationCall, reserves, authorizes, run_delegations,
}
use bidirectional_bridge_cla.Control.Delegation.Once.{launch_once}

abbrev hash : DelegationRequest → List Artifact → Option TaskId → ℕ
hash request artifacts existing = request.deadline_ms

abbrev hash_spec : TaskSpec → ℕ
hash_spec _ = 0

abbrev nobody : ℕ → Bool
nobody _ = false

abbrev request : DelegationRequest
request = record {
  from = 7;
  to = 8;
  run_id = none;
  parent_task_id = none;
  delegation_depth = none;
  spec = a_spec [];
  input_artifacts = [];
  deadline_ms = 5000;
  total_deadline_ms = none;
  max_attempts = none;
  idempotency_key = some 3;
}

abbrev operation_in : DelegationPhase → (at : ℕ) → DelegationOperation
operation_in phase at = record {
  caller = 7;
  key = 3;
  request_hash = 5000;
  task_id = 1;
  request = request;
  phase = phase;
  executor_id = 1;
  executor_pid = 100;
  started_at = 0;
  updated_at = at;
  outcome = none;
}

abbrev reserved : Store
reserved = record nothing {
  tasks = a_task 1 TaskState.working (some 8) ∷ [];
  operations = operation_in DelegationPhase.preparing 0 ∷ [];
}

abbrev launched : Store
launched = record reserved { operations = operation_in DelegationPhase.authorized 5 ∷ [] }

launches : authorize 1 (operation_in DelegationPhase.preparing 0) 5 reserved ≡ ok launched
unfolding authorize get_delegation_operation put_delegation_operation get_operation put_operation
launches = refl

abbrev call_of : (executor : ℕ) → ReserveCall
call_of executor = record {
  executor = executor;
  pid = 200;
  fresh_key = 50;
  fresh_id = 60;
  fresh_run = 70;
  now = 9;
}

-- The second executor asks while the first is alive, and once it is dead.
abbrev asked_before : List DelegationCall
asked_before =
    reserves (λ pid. pid == 100) request none (call_of 2)
    ∷ reserves nobody request none (call_of 2)
    ∷ authorizes 2 (operation_in DelegationPhase.preparing 0) 8
    ∷ []

abbrev second : ℕ
second = 2

abbrev first : ℕ
first = 1

second-first : second ≢ first
second-first h = omega (arith, h)

launch_once_example :
    Gives
      (λ (p : Reservation × Store). p.0.owned ≡ false)
      (reserve_task hash hash_spec nobody request none
        (call_of 2)
        (run_delegations hash hash_spec asked_before launched))
    × (authorize 2
          (operation_in DelegationPhase.preparing 0)
          9
          (run_delegations hash hash_spec asked_before launched)
        ≡ err operation_in_progress)
launch_once_example =
    launch_once hash hash_spec 1 (operation_in DelegationPhase.preparing 0) 5 reserved launched
      asked_before nobody request none (call_of 2) launches refl refl second-first
