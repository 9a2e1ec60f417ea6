-- ===== src/Control/Tasks/Guards.antt =====
-- task-service.ts: the checks that the operations share, and the write of a task with its event.
use bidirectional_bridge_cla.Prelude.{
  ℕ, Option, none, some, is, if◌then◌else◌, Result, ok, err, ◌>>=◌, not_found, not_owner,
  illegal_transition,
}
use bidirectional_bridge_cla.Protocol.Lifecycle.{TaskState, can_transition}
use bidirectional_bridge_cla.Protocol.Records.{TaskId, AgentId, Task, EventType, Payload}
use bidirectional_bridge_cla.Control.Store.{Store, get_task, update_task, append_event}

-- `get`.
unfoldable pub require_task : Store → TaskId → Result Task
require_task s task_id = elim (get_task s task_id) [ none ↦ err not_found | some task ↦ ok task ]

unfoldable pub assert_owner : Task → AgentId → Result Task
assert_owner task agent = if is task.owner agent then ok task else err not_owner

unfoldable pub assert_transition : Task → TaskState → Result (Unit {0})
assert_transition task to = if can_transition task.state to then ok tt else err illegal_transition

-- The two statements that end each state change, in one transaction.
unfoldable pub write :
    Store → Task → EventType → AgentId → Payload → Option ℕ → ℕ → Result (Task × Store)
write s task type agent payload key now = do
  s' ← update_task s task
  ok (task, append_event s' type task.task_id agent payload key now)
