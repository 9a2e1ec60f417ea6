-- ===== src/Control/Tasks/Lineage.antt =====
-- task-service.ts: `create` and the checks of the lineage.
use bidirectional_bridge_cla.Prelude.{
  ℕ, zero, suc, ◌+◌, Bool, true, false, not, ◌&&◌, Option, none, some, List, [], ◌∷◌, length, ◌==◌,
  leb, ltb, is_some, or_else, includes, all, if◌then◌else◌, Result, ok, err, ◌>>=◌, ◌>>◌, throw_if,
  invalid_argument, not_found,
}
use bidirectional_bridge_cla.Protocol.Path.{Text}
use bidirectional_bridge_cla.Protocol.Lifecycle.{TaskState}
use bidirectional_bridge_cla.Protocol.Scope.{normalize_scope}
use bidirectional_bridge_cla.Protocol.Records.{
  TaskId, RunId, AgentId, TaskSpec, Task, task_created, creation,
}
use bidirectional_bridge_cla.Control.Store.{Store, get_task, insert_task, append_event, task_create}
use bidirectional_bridge_cla.Control.Idempotency.{run_idempotent}

abbrev pub max_delegation_depth : ℕ
max_delegation_depth = 32

abbrev pub within : ℕ → ℕ → ℕ → Bool
within lo hi n = leb lo n && leb n hi

abbrev pub optional {ℓ} : {A : Type ℓ} → (A → Bool) → Option A → Bool
optional p none = true
optional p (some a) = p a

-- `TaskSpecSchema` (schemas.ts) on a value that has the type `TaskSpec`; the patterns of the
-- identifiers hold by their type.
unfoldable pub valid_spec : TaskSpec → Bool
valid_spec spec =
    within 1 2000 (length spec.objective)
    && within 1 256 (length spec.scope.paths)
    && all (λ p. within 1 512 (length p)) spec.scope.paths
    && optional (λ n. leb (length n) 1024) spec.scope.note
    && leb (length spec.dependencies) 128
    && within 1 4000 (length spec.expected_deliverable)
    && within 1 64 (length spec.verification_criteria)
    && all (λ c. within 1 1000 (length c)) spec.verification_criteria
    && optional (within 1000 86_400_000) spec.deadline_ms
    && optional (within 1 64) spec.max_turns
    && optional (within 0 100) spec.priority
    && optional (λ ts. leb (length ts) 32 && all (λ (t : Text). leb (length t) 64) ts) spec.tags

pub record CreateTaskInput : Type 0 where
  pub spec : TaskSpec
  pub created_by : AgentId
  pub run_id : Option RunId
  pub parent_task_id : Option TaskId
  pub delegation_depth : Option ℕ
  pub idempotency_key : Option ℕ

-- `parentTaskId === null ? undefined : getTask(parentTaskId)`, and the throw when it is missing.
unfoldable pub find_parent : Store → Option TaskId → Result (Option Task)
find_parent s none = ok none
find_parent s (some id) = elim (get_task s id) [ none ↦ err not_found | some p ↦ ok (some p) ]

abbrev pub expected_depth : Option Task → ℕ
expected_depth none = 0
expected_depth (some parent) = parent.delegation_depth + 1

abbrev pub run_id_of : Option Task → Option RunId → RunId → RunId
run_id_of (some parent) given fresh = parent.run_id
run_id_of none (some given) fresh = given
run_id_of none none fresh = fresh

abbrev pub run_id_differs : Option Task → Option RunId → Bool
run_id_differs (some parent) (some given) = not (given == parent.run_id)
run_id_differs _ _ = false

abbrev pub new_task : CreateTaskInput → TaskSpec → Option Task → TaskId → RunId → ℕ → Task
new_task input spec parent fresh_id fresh_run now = record {
  task_id = fresh_id;
  run_id = run_id_of parent input.run_id fresh_run;
  parent_task_id = input.parent_task_id;
  delegation_depth = expected_depth parent;
  spec = spec;
  state = TaskState.pending;
  owner = none;
  created_by = input.created_by;
  created_at = now;
  updated_at = now;
  claimed_at = none;
  completed_at = none;
  blockers = [];
  version = 1;
  attempt = 0;
}

-- The body of `create`. The two fresh identifiers are what the random source yields.
unfoldable pub create_body : CreateTaskInput → TaskId → RunId → ℕ → Store → Result (Task × Store)
create_body input fresh_id fresh_run now s = do
  throw_if (not (valid_spec input.spec)) invalid_argument
  scope ← normalize_scope input.spec.scope
  let spec : TaskSpec = record input.spec { scope = scope }
  throw_if (not (all (λ dep. is_some (get_task s dep)) spec.dependencies)) not_found
  parent ← find_parent s input.parent_task_id
  throw_if (run_id_differs parent input.run_id) invalid_argument
  throw_if (not (optional (λ d. d == expected_depth parent) input.delegation_depth))
      invalid_argument
  throw_if (ltb max_delegation_depth (expected_depth parent)) invalid_argument
  let task = new_task input spec parent fresh_id fresh_run now
  s' ← insert_task s task
  ok (
    task,
    append_event s' task_created task.task_id input.created_by
        (creation spec task.run_id task.parent_task_id task.delegation_depth) input.idempotency_key
        now,
  )

unfoldable pub create :
    (CreateTaskInput → ℕ)
    → Store
    → CreateTaskInput
    → TaskId
    → RunId
    → ℕ
    → Store
    → Result (Task × Store)
create hash seen input fresh_id fresh_run now =
    run_idempotent seen
      (record { key = input.idempotency_key; operation = task_create; request_hash = hash input })
      now (create_body input fresh_id fresh_run now)

-- `task.owner ?? task.spec.preferred_agent ?? task.created_by`.
abbrev pub lineage_agent : Task → AgentId
lineage_agent task = elim (or_else task.owner task.spec.preferred_agent) [
  | none ↦ task.created_by
  | some agent ↦ agent
]

-- The loop of `assertDelegationTargetNotInAncestors`; `none` means that the fuel ran out.
unfoldable pub ancestors_loop :
    ℕ → Store → AgentId → List TaskId → Option TaskId → Option (Result (Unit {0}))
ancestors_loop zero s target seen current = none
ancestors_loop (suc fuel) s target seen none = some (ok tt)
ancestors_loop (suc fuel) s target seen (some id) =
    if includes seen id then some (err invalid_argument) else elim (get_task s id) [
      | none ↦ some (err not_found)
      | some task ↦
          let rest = ancestors_loop fuel s target (id ∷ seen) task.parent_task_id in
          if lineage_agent task == target then some (err invalid_argument) else rest
    ]

-- Each round adds a task of the table to `seen`.
unfoldable pub assert_target_not_in_ancestors :
    Store → TaskId → AgentId → Option (Result (Unit {0}))
assert_target_not_in_ancestors s parent target =
    ancestors_loop (suc (suc (length s.tasks))) s target [] (some parent)
