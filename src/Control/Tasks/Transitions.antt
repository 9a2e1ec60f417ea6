-- ===== src/Control/Tasks/Transitions.antt =====
-- task-service.ts: `transition`, `block`, `unblock` and `finalizeDeliverable`.
use bidirectional_bridge_cla.Prelude.{
  ℕ, ◌+◌, not, ◌&&◌, Option, none, some, List, [], ◌∷◌, ◌++◌, if◌then◌else◌, Result, ok, ◌>>=◌,
  ◌>>◌, throw_if, illegal_transition, dependency_unsatisfied,
}
use bidirectional_bridge_cla.Protocol.Path.{Text}
use bidirectional_bridge_cla.Protocol.Lifecycle.{TaskState, same_state, is_terminal, can_transition}
use bidirectional_bridge_cla.Protocol.Scope.{kept_note}
use bidirectional_bridge_cla.Protocol.Records.{
  TaskId, AgentId, Task, EventType, task_state_changed, task_blocked, task_unblocked, transition,
  finalization, blocked_from, reason,
}
use bidirectional_bridge_cla.Control.Store.{Store, task_transition}
use bidirectional_bridge_cla.Control.Idempotency.{run_idempotent}
use bidirectional_bridge_cla.Control.Tasks.Guards.{
  require_task, assert_owner, assert_transition, write,
}
use bidirectional_bridge_cla.Control.Tasks.Dependencies.{satisfied}

pub record TransitionInput : Type 0 where
  pub task_id : TaskId
  pub agent : AgentId
  pub to : TaskState
  pub why : Option Text
  pub idempotency_key : Option ℕ

-- `next`: the fields that depend on the target are spread in.
abbrev pub moved_task : Task → TaskState → ℕ → Task
moved_task task to now = record task {
  state = to;
  updated_at = now;
  version = task.version + 1;
  completed_at = if is_terminal to then some now else task.completed_at;
  blockers = if same_state to TaskState.working then [] else task.blockers;
}

unfoldable pub transition_body : TransitionInput → ℕ → Store → Result (Task × Store)
transition_body input now s = do
  found ← require_task s input.task_id
  task ← assert_owner found input.agent
  if same_state task.state input.to then ok (task, s) else do
    assert_transition task input.to
    throw_if (same_state input.to TaskState.working && not (satisfied s input.task_id))
        dependency_unsatisfied
    write s (moved_task task input.to now) task_state_changed input.agent
        (transition (some task.state) input.to (kept_note input.why)) input.idempotency_key now

unfoldable pub transition_task :
    (TaskId → TaskState → AgentId → ℕ) → Store → TransitionInput → ℕ → Store → Result (Task × Store)
transition_task hash seen input now =
    run_idempotent seen
      (record {
        key = input.idempotency_key;
        operation = task_transition;
        request_hash = hash input.task_id input.to input.agent;
      })
      now (transition_body input now)

unfoldable pub block : Store → TaskId → AgentId → Text → ℕ → Result (Task × Store)
block s task_id agent why now = do
  found ← require_task s task_id
  task ← assert_owner found agent
  assert_transition task TaskState.blocked
  write s
      (record task {
        state = TaskState.blocked;
        blockers = task.blockers ++ why ∷ [];
        updated_at = now;
        version = task.version + 1;
      })
      task_blocked agent (blocked_from why task.state) none now

abbrev pub unblocked_task : Task → ℕ → Task
unblocked_task task now = record task {
  state = TaskState.working;
  blockers = [];
  updated_at = now;
  version = task.version + 1;
}

unfoldable pub unblock : Store → TaskId → AgentId → Text → ℕ → Result (Task × Store)
unblock s task_id agent resolution now = do
  found ← require_task s task_id
  task ← assert_owner found agent
  if not (same_state task.state TaskState.blocked)
      then ok (task, s)
      else write s (unblocked_task task now) task_unblocked agent (reason resolution) none now

pub record FinalizeInput : Type 0 where
  pub task_id : TaskId
  pub agent : AgentId
  pub to : TaskState
  pub why : Text
  pub blocker : Option Text

abbrev pub add_blocker : TaskState → Option Text → List Text → List Text
add_blocker TaskState.blocked (some blocker) blockers = blockers ++ blocker ∷ []
add_blocker _ _ blockers = blockers

-- `current` after one round of the loop.
abbrev pub hop_task : FinalizeInput → Task → TaskState → ℕ → Task
hop_task input current next now = record current {
  state = next;
  blockers = add_blocker next (kept_note input.blocker) current.blockers;
  updated_at = now;
  version = current.version + 1;
  completed_at = if is_terminal next then some now else current.completed_at;
}

-- The payload's `from`: `current` has been assigned already when the source compares it.
abbrev pub hop_from : Task → Task → Option TaskState
hop_from task current = if same_state task.state current.state then some task.state else none

abbrev pub hop_blocker : TaskState → Option Text → Option Text
hop_blocker next blocker = if same_state next TaskState.blocked then blocker else none

abbrev pub hop_type : TaskState → EventType
hop_type next = if same_state next TaskState.blocked then task_blocked else task_state_changed

-- The loop over `path`; `task` is the task that was read.
unfoldable pub finalize_hops :
    FinalizeInput → Task → ℕ → List TaskState → Task → Store → Result (Task × Store)
finalize_hops input task now [] current s = ok (current, s)
finalize_hops input task now (next ∷ path) current s = do
  throw_if (not (can_transition current.state next)) illegal_transition
  let hopped : Task = hop_task input current next now
  (current', s') ←
      write s hopped (hop_type next) input.agent
        (finalization (hop_from task hopped) next input.why
          (hop_blocker next (kept_note input.blocker)))
        none now
  finalize_hops input task now path current' s'

abbrev pub hop_path : TaskState → TaskState → List TaskState
hop_path from to =
    if same_state to TaskState.done && same_state from TaskState.working
    then TaskState.verifying ∷ to ∷ []
    else to ∷ []

unfoldable pub finalize_deliverable : Store → FinalizeInput → ℕ → Result (Task × Store)
finalize_deliverable s input now = do
  found ← require_task s input.task_id
  task ← assert_owner found input.agent
  if same_state task.state input.to
      then ok (task, s)
      else finalize_hops input task now (hop_path task.state input.to) task s
