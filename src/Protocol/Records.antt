-- ===== src/Protocol/Records.antt =====
-- shared/protocol/src/types.ts and ids.ts: the records that cross the bridge. An identifier is an
-- opaque text that code only compares, and stands here as a number; times are epoch milliseconds.
use bidirectional_bridge_cla.Prelude.{ℕ, Bool, Option, List, ErrorCode}
use bidirectional_bridge_cla.Protocol.Path.{Text}
use bidirectional_bridge_cla.Protocol.Lifecycle.{TaskState, DeliverableStatus}
use bidirectional_bridge_cla.Protocol.Scope.{WriteScope}
use bidirectional_bridge_cla.Protocol.Memory.{MemoryScope, MemoryLifecycle}

abbrev pub TaskId : Type 0
TaskId = ℕ

abbrev pub RunId : Type 0
RunId = ℕ

abbrev pub LeaseId : Type 0
LeaseId = ℕ

abbrev pub AgentId : Type 0
AgentId = ℕ

pub data TelemetryMode : Type 0 where
  operational strict : TelemetryMode

pub record TaskSpec : Type 0 where
  pub objective : Text
  pub scope : WriteScope
  pub dependencies : List TaskId
  pub expected_deliverable : Text
  pub verification_criteria : List Text
  pub preferred_agent : Option AgentId
  pub deadline_ms : Option ℕ
  pub max_turns : Option ℕ
  pub telemetry_mode : Option TelemetryMode
  pub priority : Option ℕ
  pub tags : Option (List Text)

pub record Task : Type 0 where
  pub task_id : TaskId
  pub run_id : RunId
  pub parent_task_id : Option TaskId
  pub delegation_depth : ℕ
  pub spec : TaskSpec
  pub state : TaskState
  pub owner : Option AgentId
  pub created_by : AgentId
  pub created_at : ℕ
  pub updated_at : ℕ
  pub claimed_at : Option ℕ
  pub completed_at : Option ℕ
  pub blockers : List Text
  pub version : ℕ
  pub attempt : ℕ

pub data LeaseState : Type 0 where
  held quarantined released expired : LeaseState

pub record Lease : Type 0 where
  pub lease_id : LeaseId
  pub task_id : TaskId
  pub holder : AgentId
  pub scope : WriteScope
  pub state : LeaseState
  pub acquired_at : ℕ
  pub expires_at : ℕ
  pub released_at : Option ℕ

-- lease-manager.ts: a live lease in the way, and the pairs of globs that overlap.
pub record LeaseConflict : Type 0 where
  pub lease_id : LeaseId
  pub holder : AgentId
  pub task_id : TaskId
  pub overlapping : List (Text × Text)

pub data VerificationKind : Type 0 where
  test typecheck build lint static_analysis benchmark manual : VerificationKind

-- An exit code is a signed integer; the code asks only whether it is zero.
pub data ExitCode : Type 0 where
  zero_exit nonzero_exit : ExitCode

pub record VerificationResult : Type 0 where
  pub kind : VerificationKind
  pub command : Text
  pub passed : Bool
  pub exit_code : Option ExitCode
  pub summary : Text
  pub duration_ms : Option ℕ
  pub output_excerpt : Option Text
  pub log_artifact_id : Option ℕ

pub record Deliverable : Type 0 where
  pub task_id : TaskId
  pub agent : AgentId
  pub status : DeliverableStatus
  pub summary : Text
  pub changed_scope : List Text
  pub artifacts : List ℕ
  pub commit_or_diff : Option Text
  pub verification_performed : List Text
  pub verification_results : List VerificationResult
  pub remaining_risks : List Text
  pub dependencies_unblocked : List TaskId
  pub recommended_next_action : Text
  pub at : ℕ

pub data FailureCategory : Type 0 where
  quota auth transient profile contract turn_limit unknown : FailureCategory

pub record RuntimeFailure : Type 0 where
  pub category : FailureCategory
  pub retryable : Bool
  pub retry_after_at : Option ℕ

pub data AttemptOutcome : Type 0 where
  adapter_failed timed_out other_outcome : AttemptOutcome

pub record TaskAttempt : Type 0 where
  pub task_id : TaskId
  pub attempt : ℕ
  pub agent : AgentId
  pub resumed_from_attempt : Option ℕ
  pub execution_handle : Option Text
  pub started_at : ℕ
  pub updated_at : ℕ
  pub ended_at : Option ℕ
  pub outcome : Option AttemptOutcome

-- The progress is a ratio that code only copies.
pub record StatusUpdate : Type 0 where
  pub task_id : TaskId
  pub agent : AgentId
  pub state : TaskState
  pub current_action : Text
  pub owned_scope : List Text
  pub progress : Option ℕ
  pub artifacts : List ℕ
  pub blockers : List Text
  pub next_action : Text
  pub at : ℕ

pub data EventType : Type 0 where
  task_created task_claimed task_state_changed task_released task_blocked task_unblocked : EventType
  task_dependency_added : EventType
  lease_acquired lease_released lease_expired lease_denied lease_quarantined : EventType
  status_reported deliverable_submitted verification_recorded memory_updated delegation_requested :
      EventType

-- The fields of the payloads, one constructor for each object literal in the source.
pub data Payload : Type 0 where
  creation : TaskSpec → RunId → Option TaskId → ℕ → Payload
  previous_state : TaskState → Payload
  reason : Text → Payload
  dependency : TaskId → Payload
  transition : (from : Option TaskState) (to : TaskState) (why : Option Text) → Payload
  finalization :
      (from : Option TaskState) (to : TaskState) (why : Text) (blocker : Option Text) → Payload
  recovery : (from : TaskState) (to : TaskState) (why : Text) (attempt : ℕ) → Payload
  blocked_from : (why : Text) (from : TaskState) → Payload
  status :
      (state : TaskState) (current_action : Text) (progress : Option ℕ) (next_action : Text)
      (blockers : List Text)
      → Payload
  lease_paths : LeaseId → List Text → Payload
  lease_acquisition : (lease_id : LeaseId) (paths : List Text) (expires_at : ℕ) → Payload
  lease_expiry : (lease_id : LeaseId) (paths : List Text) (expired_at : ℕ) → Payload
  lease_denial : (requested : List Text) (conflicts : List LeaseConflict) → Payload
  quarantine_reason : LeaseId → Payload
  executor_died : LeaseId → (paths : List Text) → Payload
  executor_lost : LeaseId → Payload
  memory_update : MemoryScope → (key : Text) (revision : ℕ) → MemoryLifecycle → Payload
  delegation :
      (to : AgentId) (run : RunId) (parent : Option TaskId) (depth : ℕ) (objective : Text)
      (deadline_ms : ℕ) (input_artifacts : List ℕ) (max_attempts : ℕ) (total_deadline_at : Option ℕ)
      → Payload
  submission :
      (attempt : ℕ) (status : DeliverableStatus) (summary : Text) (artifacts : List ℕ)
      (changed_scope : List Text) (verification_count : ℕ) (waiver_reason : Option Text)
      → Payload
  verification :
      (attempt : ℕ) (kind : VerificationKind) (command : Text) (passed : Bool)
      (exit_code : Option ExitCode) (summary : Text)
      → Payload

pub record BridgeEvent : Type 0 where
  pub event_id : ℕ
  pub type : EventType
  pub task_id : Option TaskId
  pub agent : AgentId
  pub at : ℕ
  pub payload : Payload
  pub idempotency_key : Option ℕ

-- Of a field that may be left out or be null, the outer `none` is left out.
pub record DelegationRequest : Type 0 where
  pub from : AgentId
  pub to : AgentId
  pub run_id : Option RunId
  pub parent_task_id : Option (Option TaskId)
  pub delegation_depth : Option ℕ
  pub spec : TaskSpec
  pub input_artifacts : List ℕ
  pub deadline_ms : ℕ
  pub total_deadline_ms : Option ℕ
  pub max_attempts : Option ℕ
  pub idempotency_key : Option ℕ

-- The observation that an outcome may carry is left out.
pub record DelegationOutcome : Type 0 where
  pub task_id : TaskId
  pub delegate : AgentId
  pub deliverable : Option Deliverable
  pub error : Option ErrorCode
  pub attempts : ℕ
  pub duration_ms : ℕ
