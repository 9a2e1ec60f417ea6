-- ===== src/Control/Tasks/Ownership.antt =====
-- task-service.ts: `claim`, `release`, `retry` and `reportStatus`.
use bidirectional_bridge_cla.Prelude.{
  ℕ, ◌+◌, Bool, not, ◌&&◌, Option, none, some, [], leb, is, is_some, if◌then◌else◌, Result, ok,
  ◌>>=◌, ◌>>◌, throw_if, not_owner, illegal_transition,
}
use bidirectional_bridge_cla.Protocol.Path.{Text}
use bidirectional_bridge_cla.Protocol.Lifecycle.{TaskState, same_state}
use bidirectional_bridge_cla.Protocol.Scope.{codes}
use bidirectional_bridge_cla.Protocol.Records.{
  TaskId, AgentId, Task, StatusUpdate, task_claimed, task_released, task_state_changed,
  status_reported, previous_state, reason, recovery, status,
}
use bidirectional_bridge_cla.Control.Store.{Store, insert_status, append_event, task_claim}
use bidirectional_bridge_cla.Control.Idempotency.{run_idempotent}
use bidirectional_bridge_cla.Control.Tasks.Guards.{
  require_task, assert_owner, assert_transition, write,
}

-- `task.owner && task.owner !== agent`.
abbrev pub owned_by_other : Task → AgentId → Bool
owned_by_other task agent = is_some task.owner && not (is task.owner agent)

abbrev pub claimed_task : Task → AgentId → ℕ → Task
claimed_task task agent now = record task {
  state = TaskState.claimed;
  owner = some agent;
  claimed_at = some now;
  updated_at = now;
  version = task.version + 1;
}

unfoldable pub claim_body : TaskId → AgentId → Option ℕ → ℕ → Store → Result (Task × Store)
claim_body task_id agent key now s = do
  task ← require_task s task_id
  throw_if (owned_by_other task agent) not_owner
  if is task.owner agent && not (same_state task.state TaskState.pending) then ok (task, s) else do
    assert_transition task TaskState.claimed
    write s (claimed_task task agent now) task_claimed agent (previous_state task.state) key now

unfoldable pub claim :
    (TaskId → AgentId → ℕ) → Store → TaskId → AgentId → Option ℕ → ℕ → Store → Result (Task × Store)
claim hash seen task_id agent key now =
    run_idempotent seen
      (record { key = key; operation = task_claim; request_hash = hash task_id agent }) now
      (claim_body task_id agent key now)

unfoldable pub release : Store → TaskId → AgentId → Text → ℕ → Result (Task × Store)
release s task_id agent why now = do
  found ← require_task s task_id
  task ← assert_owner found agent
  assert_transition task TaskState.pending
  write s
      (record task {
        state = TaskState.pending;
        owner = none;
        updated_at = now;
        version = task.version + 1;
      })
      task_released agent (reason why) none now

unfoldable pub retry : Store → TaskId → AgentId → ℕ → ℕ → Result (Task × Store)
retry s task_id agent max_attempts now = do
  task ← require_task s task_id
  throw_if (not (same_state task.state TaskState.failed)) illegal_transition
  throw_if (leb max_attempts (task.attempt + 1)) illegal_transition
  write s
      (record task {
        state = TaskState.pending;
        owner = none;
        blockers = [];
        attempt = task.attempt + 1;
        updated_at = now;
        version = task.version + 1;
      })
      task_state_changed agent
      (recovery TaskState.failed TaskState.pending (codes "retry") (task.attempt + 1)) none now

-- The event's time is the update's own.
unfoldable pub report_status : Store → StatusUpdate → Result Store
report_status s update = do
  found ← require_task s update.task_id
  task ← assert_owner found update.agent
  ok (
      append_event (insert_status s update) status_reported update.task_id update.agent
        (status update.state update.current_action update.progress update.next_action
          update.blockers)
        none update.at)
