-- ===== src/Control/Tasks/Dependencies.antt =====
-- task-service.ts: `addDependency`, `reaches`, `checkDependencies` and `readyTasks`.
use bidirectional_bridge_cla.Prelude.{
  ℕ, zero, suc, ◌+◌, Bool, true, false, not, ◌&&◌, Option, none, some, List, [], ◌∷◌, ◌++◌, reverse,
  length, ◌==◌, is_some, is_empty, includes, filter, if◌then◌else◌, Result, ok, err, ◌>>=◌, ◌>>◌,
  throw_if, dependency_cycle, internal,
}
use bidirectional_bridge_cla.Protocol.Lifecycle.{TaskState, same_state}
use bidirectional_bridge_cla.Protocol.Records.{
  TaskId, AgentId, Task, task_dependency_added, dependency,
}
use bidirectional_bridge_cla.Control.Store.{
  Store, get_task, update_task, append_event, add_dependency, get_dependencies, list_tasks_in,
}
use bidirectional_bridge_cla.Control.Tasks.Guards.{require_task}

-- The loop of `reaches`. The stack holds its top first; `none` means that the fuel ran out.
unfoldable pub reaches_loop : ℕ → Store → TaskId → List TaskId → List TaskId → Option Bool
reaches_loop zero s to seen stack = none
reaches_loop (suc fuel) s to seen [] = some false
reaches_loop (suc fuel) s to seen (current ∷ stack) =
    let skip = reaches_loop fuel s to seen stack in
    let visit =
      reaches_loop fuel s to (current ∷ seen) (reverse (get_dependencies s current) ++ stack) in
    if current == to then some true else if includes seen current then skip else visit

-- One round for each edge, one for the start, and one to see the empty stack.
unfoldable pub reaches : Store → TaskId → TaskId → Option Bool
unfolding reaches_loop
reaches s from to = reaches_loop (suc (suc (length s.dependencies))) s to [] (from ∷ [])

pub record Unsatisfied : Type 0 where
  pub task_id : TaskId
  pub state : Option TaskState

-- `none` is "MISSING".
unfoldable pub unsatisfied_among : Store → List TaskId → List Unsatisfied
unsatisfied_among s [] = []
unsatisfied_among s (dep ∷ deps) =
    let rest = unsatisfied_among s deps in
    elim (get_task s dep) [
      | none ↦ record { task_id = dep; state = none } ∷ rest
      | some task ↦
          if same_state task.state TaskState.done
          then rest
          else record { task_id = dep; state = some task.state } ∷ rest
    ]

unfoldable pub check_dependencies : Store → TaskId → List Unsatisfied
check_dependencies s task_id = unsatisfied_among s (get_dependencies s task_id)

-- `satisfied`.
unfoldable pub satisfied : Store → TaskId → Bool
satisfied s task_id = is_empty (check_dependencies s task_id)

unfoldable pub ready_tasks : Store → List Task
ready_tasks s =
    filter (λ t. not (is_some t.owner) && satisfied s t.task_id) (list_tasks_in s TaskState.pending)

abbrev pub depending_task : Task → TaskId → ℕ → Task
depending_task task depends_on now = record task {
  spec = record task.spec { dependencies = task.spec.dependencies ++ depends_on ∷ [] };
  updated_at = now;
  version = task.version + 1;
}

-- The edge and the event, on the store that `updateTask` has left.
abbrev pub with_edge : Store → TaskId → TaskId → AgentId → ℕ → Store
with_edge s task_id depends_on agent now =
    append_event (record s { dependencies = add_dependency task_id depends_on s.dependencies })
      task_dependency_added task_id agent (dependency depends_on) none now

-- The branch of `addDependency` that writes.
unfoldable pub write_dependency : Store → Task → TaskId → AgentId → ℕ → Result (Task × Store)
write_dependency s task depends_on agent now = do
  let updated = depending_task task depends_on now
  s' ← update_task s updated
  ok (updated, with_edge s' task.task_id depends_on agent now)

-- A search that has not ended stands as an internal error.
abbrev pub reaches_or_fail : Store → TaskId → TaskId → Result Bool
reaches_or_fail s from to = elim (reaches s from to) [ none ↦ err internal | some b ↦ ok b ]

unfoldable pub add_task_dependency : Store → TaskId → TaskId → AgentId → ℕ → Result (Task × Store)
add_task_dependency s task_id depends_on agent now = do
  task ← require_task s task_id
  target ← require_task s depends_on
  throw_if (task_id == depends_on) dependency_cycle
  cycle ← reaches_or_fail s depends_on task_id
  throw_if cycle dependency_cycle
  if includes task.spec.dependencies depends_on
      then ok (task, s)
      else write_dependency s task depends_on agent now
