-- ===== src/Control/Rows.antt =====
-- shared/control-plane/src/store/state-store.ts: the rows of the tables, and the store as the
-- tables that the services use.
use bidirectional_bridge_cla.Prelude.{ℕ, Bool, true, false, Option, List}
use bidirectional_bridge_cla.Protocol.Memory.{MemoryNote}
use bidirectional_bridge_cla.Protocol.Records.{
  TaskId, LeaseId, AgentId, Task, Lease, Deliverable, VerificationResult, RuntimeFailure,
  TaskAttempt, StatusUpdate, BridgeEvent, DelegationRequest, DelegationOutcome,
}

pub data Operation : Type 0 where
  task_create task_claim task_transition : Operation

abbrev pub same_operation : Operation → Operation → Bool
same_operation task_create task_create = true
same_operation task_claim task_claim = true
same_operation task_transition task_transition = true
same_operation _ _ = false

-- The responses that are cached are tasks.
pub record IdempotencyRecord : Type 0 where
  pub key : ℕ
  pub operation : Operation
  pub request_hash : ℕ
  pub response : Task
  pub created_at : ℕ

pub data Phase : Type 0 where
  queued running stopped quarantined : Phase

pub record ExecutionRecord : Type 0 where
  pub task_id : TaskId
  pub attempt : ℕ
  pub generation : ℕ
  pub agent : AgentId
  pub phase : Phase
  pub executor_pid : ℕ
  pub max_concurrency : ℕ
  pub queued_at : ℕ
  pub queue_ticket : ℕ
  pub admitted_at : Option ℕ
  pub runtime_stop_confirmed : Option Bool
  pub lease_id : Option LeaseId
  pub cancel_requested_at : Option ℕ
  pub cancel_requested_by : Option AgentId
  pub updated_at : ℕ

-- What recovery reads of a sealed telemetry record.
pub record AttemptTelemetry : Type 0 where
  pub task_id : TaskId
  pub attempt : ℕ
  pub runtime_failure : Option RuntimeFailure

pub record AttemptObservation : Type 0 where
  pub task_id : TaskId
  pub attempt : ℕ
  pub telemetry : Option AttemptTelemetry

pub record Evidence : Type 0 where
  pub task_id : TaskId
  pub result : VerificationResult
  pub attempt : ℕ

pub record DeliverableRow : Type 0 where
  pub task_id : TaskId
  pub deliverable : Deliverable
  pub attempt : ℕ

-- What the services read of an artifact.
pub record Artifact : Type 0 where
  pub artifact_id : ℕ
  pub sha256 : ℕ
  pub bytes : ℕ

pub data DelegationPhase : Type 0 where
  preparing authorized finished uncertain : DelegationPhase

pub record DelegationOperation : Type 0 where
  pub caller : AgentId
  pub key : ℕ
  pub request_hash : ℕ
  pub task_id : TaskId
  pub request : DelegationRequest
  pub phase : DelegationPhase
  pub executor_id : ℕ
  pub executor_pid : ℕ
  pub started_at : ℕ
  pub updated_at : ℕ
  pub outcome : Option DelegationOutcome

-- The events are held newest first.
pub record Store : Type 0 where
  pub tasks : List Task
  pub dependencies : List (TaskId × TaskId)
  pub attempts : List TaskAttempt
  pub telemetry : List AttemptTelemetry
  pub observations : List AttemptObservation
  pub leases : List Lease
  pub executions : List ExecutionRecord
  pub deliverables : List DeliverableRow
  pub verifications : List Evidence
  pub statuses : List StatusUpdate
  pub events : List BridgeEvent
  pub idempotency : List IdempotencyRecord
  pub artifacts : List Artifact
  pub memory_notes : List MemoryNote
  pub operations : List DelegationOperation
