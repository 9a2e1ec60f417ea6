-- ===== src/Control/Tasks/Examples.antt =====
-- task-service.ts: small stores, and the laws at them.
use bidirectional_bridge_cla.Prelude.{
  ◌==◌, true, false, ℕ, ◌≡◌, refl, ◌⊎◌, inr, Option, none, some, List, [], ◌∷◌, Result, ok, err,
  dependency_unsatisfied, not_owner,
}
use bidirectional_bridge_cla.Protocol.Path.{
  normalize_path, strip_dot_slash, collapse, strip_slashes, split_slash,
}
use bidirectional_bridge_cla.Protocol.Lifecycle.{TaskState, can_transition}
use bidirectional_bridge_cla.Protocol.Scope.{
  codes, normalize_scope, normalize_all, add_seen, some_of, is_read_only_pattern,
}
use bidirectional_bridge_cla.Protocol.Records.{TaskId, AgentId, Task}
use bidirectional_bridge_cla.Control.Samples.{nothing, a_spec, a_task}
use bidirectional_bridge_cla.Control.Table.{get, replace}
use bidirectional_bridge_cla.Control.Store.{
  insert_ascending, get_observation, find, get_telemetry, get_deliverable, get_attempt,
  add_dependency, Store, get_task, insert_task, update_task, append_event, get_dependencies,
  targets, insert_ascending, get_idempotency, put_idempotency, task_claim,
}
use bidirectional_bridge_cla.Control.Idempotency.{run_idempotent, run_with_key, run_in_transaction}
use bidirectional_bridge_cla.Control.Idempotency.Refused.{Replays}
use bidirectional_bridge_cla.Control.Tasks.Guards.{
  require_task, assert_owner, assert_transition, write,
}
use bidirectional_bridge_cla.Control.Tasks.Dependencies.{
  reaches_loop, reaches, write_dependency, add_task_dependency, satisfied, check_dependencies,
  unsatisfied_among,
}
use bidirectional_bridge_cla.Control.Tasks.Lineage.{
  lineage_agent, assert_target_not_in_ancestors, CreateTaskInput, valid_spec, find_parent,
  create_body,
}
use bidirectional_bridge_cla.Control.Tasks.Ownership.{claim_body, claim}
use bidirectional_bridge_cla.Control.Tasks.Transitions.{TransitionInput, transition_body, unblock}
use bidirectional_bridge_cla.Control.Tasks.Log.{LogAgrees, last_state}
use bidirectional_bridge_cla.Control.Tasks.History.{
  Hashes, Call, creates, claims, blocks, unblocks, finalizes, run, run-LogAgrees,
}
use bidirectional_bridge_cla.Control.Tasks.Created.{Created, create_body-Created}
use bidirectional_bridge_cla.Control.Tasks.Gate.{IsDone, transition-IsDone, unblock_ungated}
use bidirectional_bridge_cla.Control.Tasks.Replay.{claim_twice}
use bidirectional_bridge_cla.Control.Tasks.Ancestors.{Ancestor, assert_target_not_in_ancestors-ends}
use bidirectional_bridge_cla.Control.Tasks.Recovery.{
  BeginRecoveryInput, begin_recovery, assert_recoverable, runtime_failure_of, interrupted_runtime,
  assert_persisted_lineage, lineage_loop,
}
use bidirectional_bridge_cla.Control.Tasks.Resumed.{Resumed, begin_recovery-Resumed}
use bidirectional_bridge_cla.Control.Tasks.Persisted.{lineage_loop-answers}
use bidirectional_bridge_cla.Control.Tasks.Reach.{Reach}
use bidirectional_bridge_cla.Control.Tasks.Search.{reaches-Reach}
use bidirectional_bridge_cla.Control.Tasks.Acyclic.{IsAcyclic, add_task_dependency-IsAcyclic}
use bidirectional_bridge_cla.Control.Tasks.Exclusive.{claim_exclusive, transition_keeps_owner}

abbrev an_input : List TaskId → CreateTaskInput
an_input deps = record {
  spec = a_spec deps;
  created_by = 7;
  run_id = none;
  parent_task_id = none;
  delegation_depth = none;
  idempotency_key = none;
}

abbrev task_of : Task → Result (Task × Store) → Task
task_of t (ok (u, s)) = u
task_of t (err e) = t

abbrev store_of : Store → Result (Task × Store) → Store
store_of s (ok (u, s')) = s'
store_of s (err e) = s

-- Task 2, which depends on the task 1.
abbrev two_tasks : TaskState → TaskState → Option AgentId → Store
two_tasks first second owner = record nothing {
  tasks = a_task 1 first none ∷ a_task 2 second owner ∷ [];
  dependencies = (2, 1) ∷ [];
}

create_body-Created_example :
    Created
      (an_input [])
      nothing
      (task_of (a_task 5 TaskState.pending none) (create_body (an_input []) 5 6 100 nothing))
      (store_of nothing (create_body (an_input []) 5 6 100 nothing))
unfolding create_body valid_spec normalize_scope normalize_path find_parent insert_task append_event
    normalize_all strip_dot_slash collapse strip_slashes split_slash some_of add_seen
    is_read_only_pattern get_task get
create_body-Created_example = create_body-Created (an_input []) 5 6 100 nothing _ _ refl

abbrev at_rest : Store
at_rest = two_tasks TaskState.done TaskState.pending none

abbrev claimed : Result (Task × Store)
claimed = claim (λ _ a. a) at_rest 2 8 (some 4) 50 at_rest

-- The claim of agent 9 is refused, or, had its key been used, answered from the record of the key.
claim_exclusive_example :
    (claim (λ _ a. a) at_rest 2 9 (some 5) 60 (store_of nothing claimed) ≡ err not_owner)
    ⊎ Replays at_rest
        (store_of nothing claimed)
        (record { key = some 5; operation = task_claim; request_hash = 9 })
        (claim (λ _ a. a) at_rest 2 9 (some 5) 60 (store_of nothing claimed))
unfolding claim claim_body require_task get_task get assert_transition write update_task replace
    append_event can_transition get_idempotency put_idempotency run_idempotent run_with_key
    run_in_transaction
claim_exclusive_example =
    claim_exclusive (λ _ a. a) 2 8 9 (some 4) (some 5) 50 60 at_rest at_rest
      (task_of (a_task 2 TaskState.pending none) claimed) (store_of nothing claimed) at_rest
      (λ k e. refl) (λ k e. refl) refl (λ e. cc)

-- A call of `transition` to WORKING.
abbrev to_working : TransitionInput
to_working = record {
  task_id = 2;
  agent = 8;
  to = TaskState.working;
  why = none;
  idempotency_key = none;
}

abbrev moved : Result (Task × Store)
moved = transition_body to_working 50 (two_tasks TaskState.done TaskState.claimed (some 8))

transition-IsDone_example :
    ((store_of nothing moved ≡ two_tasks TaskState.done TaskState.claimed (some 8))
      × ((task_of (a_task 2 TaskState.claimed none) moved).state ≡ TaskState.working))
    ⊎ IsDone (two_tasks TaskState.done TaskState.claimed (some 8)) 1
unfolding transition_body require_task get_task get assert_owner assert_transition satisfied
    check_dependencies unsatisfied_among get_dependencies targets insert_ascending write update_task
    replace append_event can_transition
transition-IsDone_example =
    transition-IsDone to_working 50 (two_tasks TaskState.done TaskState.claimed (some 8))
      (task_of (a_task 2 TaskState.claimed none) moved) (store_of nothing moved) 1 refl refl refl

unblock_ungated_example :
    ((t : Task) × (s' : Store) × (unblock
          (two_tasks TaskState.working TaskState.blocked (some 8))
          2
          8
          (codes "go")
          50
        ≡ ok (t, s'))
      × (t.state ≡ TaskState.working))
    × (transition_body to_working 50 (two_tasks TaskState.working TaskState.blocked (some 8))
        ≡ err dependency_unsatisfied)
unfolding get_task get satisfied check_dependencies unsatisfied_among get_dependencies targets
    insert_ascending
unblock_ungated_example =
    unblock_ungated (two_tasks TaskState.working TaskState.blocked (some 8)) 2 8 (codes "go") 50
      (a_task 2 TaskState.blocked (some 8)) refl refl refl refl

transition_keeps_owner_example :
    (t : Task) × (s' : Store) × (transition_body
        (record to_working { to = TaskState.pending })
        50
        (two_tasks TaskState.done TaskState.claimed (some 8))
      ≡ ok (t, s'))
    × (t.state ≡ TaskState.pending)
    × (t.owner ≡ some 8)
    × (get_task s' 2 ≡ some t)
unfolding get_task get
transition_keeps_owner_example =
    transition_keeps_owner (two_tasks TaskState.done TaskState.claimed (some 8))
      (record to_working { to = TaskState.pending }) 50 (a_task 2 TaskState.claimed (some 8)) refl
      refl refl refl

abbrev hashes : Hashes
hashes = record {
  of_create = λ input. input.created_by;
  of_claim = λ id agent. agent;
  of_transition = λ id to agent. agent;
}

abbrev story : List (ℕ × Call)
story =
    (1, creates (an_input []) 1 9)
    ∷ (2, claims 1 8 (some 3))
    ∷ (3, blocks 1 8 (codes "stuck"))
    ∷ (4, unblocks 1 8 (codes "go"))
    ∷ (
      5,
      finalizes (record {
        task_id = 1;
        agent = 8;
        to = TaskState.done;
        why = codes "ok";
        blocker = none;
      }),
    )
    ∷ []

run-LogAgrees_example : LogAgrees (run hashes story nothing)
unfolding last_state get_task get
run-LogAgrees_example = run-LogAgrees hashes story nothing (record { at = λ id. refl })

abbrev keyed_claim : Result (Task × Store)
keyed_claim =
    claim (λ id agent. agent) (two_tasks TaskState.done TaskState.pending none) 2 8 (some 4) 50
      (two_tasks TaskState.done TaskState.pending none)

claim_twice_example :
    claim
      (λ id agent. agent)
      (two_tasks TaskState.done TaskState.pending none)
      2
      8
      (some 4)
      99
      (store_of nothing keyed_claim)
    ≡ ok (task_of (a_task 2 TaskState.pending none) keyed_claim, store_of nothing keyed_claim)
unfolding claim run_idempotent run_with_key run_in_transaction put_idempotency get_idempotency
    claim_body require_task get_task get assert_transition write update_task replace append_event
    can_transition
claim_twice_example =
    claim_twice (λ id agent. agent) 2 8 4 50 99 (two_tasks TaskState.done TaskState.pending none)
      (task_of (a_task 2 TaskState.pending none) keyed_claim) (store_of nothing keyed_claim)
      (two_tasks TaskState.done TaskState.pending none) refl refl (inr refl)

-- Task 1 on its own way to depend on task 2, and the other way round.
abbrev free_tasks : Store
free_tasks = record nothing {
  tasks = a_task 1 TaskState.pending none ∷ a_task 2 TaskState.pending none ∷ [];
}

abbrev with_dependency : Result (Task × Store)
with_dependency = add_task_dependency free_tasks 1 2 7 50

add_task_dependency-IsAcyclic_example : IsAcyclic (store_of nothing with_dependency)
unfolding add_task_dependency require_task get_task get reaches reaches_loop get_dependencies
    targets write_dependency update_task replace append_event add_dependency
add_task_dependency-IsAcyclic_example =
    add_task_dependency-IsAcyclic free_tasks 1 2 7 50
      (task_of (a_task 1 TaskState.pending none) with_dependency) (store_of nothing with_dependency)
      (λ x y d r. elim (never d) [ ]) refl
  where
    never : false ≡ true → ⊥
    never d = cc

reaches-Reach_example :
    (reaches (two_tasks TaskState.done TaskState.pending none) 2 1 ≡ some true)
      × Reach (two_tasks TaskState.done TaskState.pending none) 2 1
    ⊎ (reaches (two_tasks TaskState.done TaskState.pending none) 2 1 ≡ some false)
      × (Reach (two_tasks TaskState.done TaskState.pending none) 2 1 → ⊥)
reaches-Reach_example = reaches-Reach (two_tasks TaskState.done TaskState.pending none) 2 1

assert_target_not_in_ancestors-ends_example :
    (r : Result (Unit {0})) × (assert_target_not_in_ancestors
        (two_tasks TaskState.done TaskState.pending none)
        2
        9
      ≡ some r)
    × (r ≡ ok tt
        → (u : Task) → Ancestor (two_tasks TaskState.done TaskState.pending none) 2 u
        → (lineage_agent u == 9) ≡ false)
assert_target_not_in_ancestors-ends_example =
    assert_target_not_in_ancestors-ends (two_tasks TaskState.done TaskState.pending none) 2 9

lineage_loop-answers_example :
    (r : Result (Unit {0})) × (lineage_loop 4
        (two_tasks TaskState.done TaskState.pending none)
        []
        (a_task 2 TaskState.pending none)
      ≡ some r)
unfolding get_task get
lineage_loop-answers_example =
    lineage_loop-answers (two_tasks TaskState.done TaskState.pending none)
      (a_task 2 TaskState.pending none) refl

abbrev recover_two : BeginRecoveryInput
recover_two = record { task_id = 2; agent = 8; next_attempt = 1 }

abbrev recovered : Result (Task × Store)
recovered = begin_recovery (two_tasks TaskState.done TaskState.blocked (some 8)) recover_two 50

begin_recovery-Resumed_example :
    Resumed
      (two_tasks TaskState.done TaskState.blocked (some 8))
      recover_two
      (task_of (a_task 2 TaskState.blocked none) recovered)
      (store_of nothing recovered)
unfolding begin_recovery require_task get_task get assert_owner assert_recoverable
    runtime_failure_of get_observation find get_telemetry interrupted_runtime get_deliverable
    get_attempt satisfied check_dependencies unsatisfied_among get_dependencies targets
    insert_ascending assert_persisted_lineage lineage_loop write update_task replace append_event
begin_recovery-Resumed_example =
    begin_recovery-Resumed (two_tasks TaskState.done TaskState.blocked (some 8)) recover_two 50
      (task_of (a_task 2 TaskState.blocked none) recovered) (store_of nothing recovered) refl
