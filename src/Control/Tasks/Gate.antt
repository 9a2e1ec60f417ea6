-- ===== src/Control/Tasks/Gate.antt =====
-- task-service.ts: which tasks may enter WORKING.
use bidirectional_bridge_cla.Prelude.{
  ℕ, ◌≡◌, refl, sym, ap, ◌∙◌, ◌⊎◌, inl, inr, Bool, true, false, not, ◌&&◌, none, some, List, [],
  ◌∷◌, arith, ◌==◌, is_empty, includes, ok, err, >>=-eq-ok, throw_if, throw_if-eq-ok, Bool-cases,
  ==_iff, dependency_unsatisfied, Option-cases,
}
use bidirectional_bridge_cla.Protocol.Path.{Text}
use bidirectional_bridge_cla.Protocol.Lifecycle.{
  TaskState, same_state, same_state-eq, can_transition,
}
use bidirectional_bridge_cla.Protocol.Records.{TaskId, AgentId, Task, task_unblocked, reason}
use bidirectional_bridge_cla.Control.Store.{Store, get_task, append_event, get_dependencies}
use bidirectional_bridge_cla.Control.Store.Laws.{with_task, get_task-key}
use bidirectional_bridge_cla.Control.Tasks.Guards.{assert_transition}
use bidirectional_bridge_cla.Control.Tasks.Dependencies.{
  unsatisfied_among, check_dependencies, satisfied,
}
use bidirectional_bridge_cla.Control.Tasks.Transitions.{
  TransitionInput, transition_body, unblocked_task, unblock,
}
use bidirectional_bridge_cla.Control.Tasks.Operations.{Owned-row}
use bidirectional_bridge_cla.Control.Tasks.Steps.{
  ok-pair, require_task-ok, assert_owner-ok, write-ok,
}

-- A dependency that has reached DONE.
abbrev pub IsDone : Store → TaskId → Type 0
IsDone s dep = (task : Task) × (get_task s dep ≡ some task) × (task.state ≡ TaskState.done)

pub unsatisfied_among-IsDone :
    (s : Store) (deps : List TaskId) (dep : TaskId)
    → is_empty (unsatisfied_among s deps) ≡ true
    → includes deps dep ≡ true
    → IsDone s dep
unfolding unsatisfied_among
unsatisfied_among-IsDone s [] dep e h = cc
unsatisfied_among-IsDone s (d ∷ deps) dep e h = elim (Option-cases (get_task s d)) [
  | inl m ↦ clash (rw (m, unsatisfied_among) at e)
  | inr (task, m) ↦ elim (Bool-cases (same_state task.state TaskState.done)) [
    | inl b ↦ elim (Bool-cases (d == dep)) [
      | inl hit ↦ (
        task,
        ap (get_task s) (sym ((==_iff d dep).0 hit)) ∙ m,
        same_state-eq task.state TaskState.done b,
      )
      | inr miss ↦
          unsatisfied_among-IsDone s deps dep (rw (m, unsatisfied_among, b) at e) (rw miss at h)
    ]
    | inr b ↦ clash (rw (m, unsatisfied_among, b) at e)
  ]
]
  where
    clash : false ≡ true → IsDone s dep
    clash e = cc

-- When `transition` to WORKING is accepted, either nothing changes because the task works already,
-- or each of its dependencies is DONE.
pub transition-IsDone :
    (input : TransitionInput) (now : ℕ) (s : Store) (t : Task) (s' : Store) (dep : TaskId)
    → input.to ≡ TaskState.working
    → transition_body input now s ≡ ok (t, s')
    → includes (get_dependencies s input.task_id) dep ≡ true
    → ((s' ≡ s) × (t.state ≡ TaskState.working)) ⊎ IsDone s dep
unfolding transition_body satisfied check_dependencies
transition-IsDone input now s t s' dep to h d =
    let (task, own, h1) = Owned-row s input.task_id input.agent _ (t, s') h in
    elim (Bool-cases (same_state task.state input.to)) [
      | inl c ↦
          let (e, f) = ok-pair (rw c at h1) in
          inl (sym f, ap (λ x. x.state) (sym e) ∙ same_state-eq task.state input.to c ∙ to)
      | inr c ↦
          let (u, a, h2) = >>=-eq-ok (assert_transition task input.to) _ (rw c at h1) in
          let (_, g, _) =
            >>=-eq-ok
              (throw_if (same_state input.to TaskState.working && not (satisfied s input.task_id))
                dependency_unsatisfied)
              _ h2 in
          inr (
            unsatisfied_among-IsDone s (get_dependencies s input.task_id) dep
              (passed input.to to _ (throw_if-eq-ok _ _ g)) d)
    ]
  where
    passed :
        (x : TaskState)
        → x ≡ TaskState.working
        → (b : Bool) → (same_state x TaskState.working && not b) ≡ false
        → b ≡ true
    passed x e b h = ground arith

-- When the owner of a BLOCKED task with a dependency that is not DONE asks for it, `unblock` moves
-- the task to WORKING, where `transition` to WORKING is refused with DEPENDENCY_UNSATISFIED.
pub unblock_ungated :
    (s : Store) (id : TaskId) (agent : AgentId) (why : Text) (now : ℕ) (task : Task)
    → get_task s id ≡ some task
    → task.owner ≡ some agent
    → task.state ≡ TaskState.blocked
    → satisfied s id ≡ false
    → ((t : Task) × (s' : Store) × (unblock s id agent why now ≡ ok (t, s'))
        × (t.state ≡ TaskState.working))
      × (transition_body
            (record {
              task_id = id;
              agent = agent;
              to = TaskState.working;
              why = none;
              idempotency_key = none;
            })
            now
            s
          ≡ err dependency_unsatisfied)
unfolding unblock transition_body assert_transition can_transition
unblock_ungated s id agent why now task found owner state unmet =
    ((unblocked_task task now, after, opened, refl), refused)
  where
    is_blocked : same_state task.state TaskState.blocked ≡ true
    is_blocked = ap (λ x. same_state x TaskState.blocked) state

    not_working : same_state task.state TaskState.working ≡ false
    not_working = ap (λ x. same_state x TaskState.working) state

    legal : can_transition task.state TaskState.working ≡ true
    legal = ap (λ x. can_transition x TaskState.working) state

    after : Store
    after =
        append_event (with_task s (unblocked_task task now)) task_unblocked task.task_id agent
          (reason why) none now

    opened : unblock s id agent why now ≡ ok (unblocked_task task now, after)
    opened =
        rw (require_task-ok s id task found, assert_owner-ok task agent owner, is_blocked)
          (write-ok s task (unblocked_task task now) task_unblocked agent (reason why) none now
            (ap (get_task s) (get_task-key s id task found) ∙ found) refl refl)

    refused :
        transition_body
          (record {
            task_id = id;
            agent = agent;
            to = TaskState.working;
            why = none;
            idempotency_key = none;
          })
          now
          s
        ≡ err dependency_unsatisfied
    refused = rw (
      require_task-ok s id task found,
      assert_owner-ok task agent owner,
      not_working,
      legal,
      unmet,
    )
