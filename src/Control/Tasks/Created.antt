-- ===== src/Control/Tasks/Created.antt =====
-- task-service.ts, `create`: what an accepted call has checked and stored.
use mathlib.Core.Path.{subst}
use bidirectional_bridge_cla.Prelude.{
  ℕ, ◌≤◌, ◌≡◌, refl, sym, ap, ◌∙◌, inl, inr, Bool, true, false, not, Option, none, some, arith,
  ◌==◌, ==_iff, ltb, is_some, all, Result, ok, err, >>=-eq-ok, throw_if, throw_if-eq-ok, Bool-cases,
  invalid_argument, not_found,
}
use bidirectional_bridge_cla.Protocol.Lifecycle.{TaskState}
use bidirectional_bridge_cla.Protocol.Scope.{normalize_scope}
use bidirectional_bridge_cla.Protocol.Records.{
  TaskId, RunId, Task, TaskSpec, task_created, creation,
}
use bidirectional_bridge_cla.Control.Store.{Store, get_task, insert_task, append_event}
use bidirectional_bridge_cla.Control.Store.Laws.{with_new_task, insert_task-cases, get_task-insert}
use bidirectional_bridge_cla.Control.Tasks.Steps.{ok-pair}
use bidirectional_bridge_cla.Control.Tasks.Log.{
  LogAgrees, last_state-append_event, get_task-append_event,
}
use bidirectional_bridge_cla.Control.Tasks.Lineage.{
  CreateTaskInput, create_body, valid_spec, find_parent, expected_depth, run_id_of, run_id_differs,
  new_task, optional, max_delegation_depth,
}

-- The parent that the input names, as it stands in the store.
abbrev pub IsParent : Store → Option TaskId → Option Task → Type 0
IsParent s none p = p ≡ none
IsParent s (some id) p = (task : Task) × (p ≡ some task) × (get_task s id ≡ some task)

-- What an accepted creation has checked of its input, and what it has stored.
pub record Created (input : CreateTaskInput) (s : Store) (t : Task) (s' : Store) : Type 0 where
  pub parent : Option Task
  pub spec_fits : valid_spec input.spec ≡ true
  pub kept_spec : t.spec ≡ record input.spec { scope = t.spec.scope }
  pub normal_scope : normalize_scope input.spec.scope ≡ ok t.spec.scope
  pub known_dependencies : all (λ dep. is_some (get_task s dep)) input.spec.dependencies ≡ true
  pub is_parent : IsParent s input.parent_task_id parent
  pub parent_id : t.parent_task_id ≡ input.parent_task_id
  pub depth : t.delegation_depth ≡ expected_depth parent
  pub given_depth : (d : ℕ) → input.delegation_depth ≡ some d → t.delegation_depth ≡ d
  pub bounded : t.delegation_depth ≤ max_delegation_depth
  pub same_run : (p : Task) → parent ≡ some p → t.run_id ≡ p.run_id
  pub given_run : (r : RunId) → input.run_id ≡ some r → t.run_id ≡ r
  pub fresh : get_task s t.task_id ≡ none
  pub pending : t.state ≡ TaskState.pending
  pub unowned : t.owner ≡ none
  pub creator : t.created_by ≡ input.created_by
  pub version : t.version ≡ 1
  pub now : ℕ
  pub stored :
      s'
      ≡ append_event
          (with_new_task s t)
          task_created
          t.task_id
          input.created_by
          (creation t.spec t.run_id t.parent_task_id t.delegation_depth)
          input.idempotency_key
          now

find_parent-IsParent :
    (s : Store) (o : Option TaskId) (p : Option Task) → find_parent s o ≡ ok p → IsParent s o p
unfolding find_parent
find_parent-IsParent s none p h = cc
find_parent-IsParent s (some id) p h = cases (get_task s id) refl h
  where
    cases :
        (o : Option Task)
        → get_task s id ≡ o
        → (elim o as (λ _. Result (Option Task)) [ none ↦ err not_found | some q ↦ ok (some q) ])
          ≡ ok p
        → IsParent s (some id) p
    cases none e h = cc
    cases (some q) e h = (q, cc, e)

not-false : (b : Bool) → not b ≡ false → b ≡ true
not-false b h = ground arith

-- The depth that the input gives, when it gives one, is the one that the parent leads to.
same_depth :
    (o : Option ℕ) (expected : ℕ)
    → not (optional (λ x. x == expected) o) ≡ false
    → (d : ℕ) → o ≡ some d
    → expected ≡ d
same_depth none expected h d e = cc
same_depth (some x) expected h d e = let same = (==_iff x expected).0 (not-false _ h) in cc

-- The run that the input gives, when it gives one, is that of the task.
same_id :
    (parent : Option Task) (o : Option RunId) (fresh : RunId)
    → run_id_differs parent o ≡ false
    → (r : RunId) → o ≡ some r
    → run_id_of parent o fresh ≡ r
same_id parent none fresh h r e = cc
same_id none (some x) fresh h r e = cc
same_id (some p) (some x) fresh h r e = let same = (==_iff x p.run_id).0 (not-false _ h) in cc

within_depth : (n : ℕ) → ltb max_delegation_depth n ≡ false → n ≤ max_delegation_depth
within_depth n h = ground arith

-- A creation that is accepted was given a valid specification, whose scope can be normalized and
-- whose dependencies are tasks of the store, and stores a task with that specification, its scope
-- normalized and all else as given. The task has a fresh identifier, is PENDING, without owner, at
-- version 1, of the creator that the input names; its parent, if the input names one, is in the
-- store; it is one level below the parent and in the parent's run, or at depth 0 without parent,
-- at most at depth 32, and a run or a depth that the input gives is the task's. The store that is
-- left is the old one with the task and the event that tells of it.
pub create_body-Created :
    (input : CreateTaskInput) (fresh_id : TaskId) (fresh_run : RunId) (now : ℕ) (s : Store)
    (t : Task) (s' : Store)
    → create_body input fresh_id fresh_run now s ≡ ok (t, s')
    → Created input s t s'
unfolding create_body
create_body-Created input fresh_id fresh_run now s t s' h =
    let (_, v, h1) = >>=-eq-ok (throw_if (not (valid_spec input.spec)) invalid_argument) _ h in
    let (scope, n, h2) = >>=-eq-ok (normalize_scope input.spec.scope) _ h1 in
    let spec : TaskSpec = record input.spec { scope = scope } in
    let (_, d, h3) =
      >>=-eq-ok (throw_if (not (all (λ dep. is_some (get_task s dep)) spec.dependencies)) not_found)
        _ h2 in
    let (parent, p, h4) = >>=-eq-ok (find_parent s input.parent_task_id) _ h3 in
    let (_, r, h5) =
      >>=-eq-ok (throw_if (run_id_differs parent input.run_id) invalid_argument) _ h4 in
    let (_, dd, h6) =
      >>=-eq-ok
        (throw_if (not (optional (λ x. x == expected_depth parent) input.delegation_depth))
          invalid_argument)
        _ h5 in
    let (_, b, h7) =
      >>=-eq-ok (throw_if (ltb max_delegation_depth (expected_depth parent)) invalid_argument) _
        h6 in
    let task = new_task input spec parent fresh_id fresh_run now in
    let (s1, i, h8) = >>=-eq-ok (insert_task s task) _ h7 in
    let (fresh, placed) = insert_task-cases s task s1 i in
    let (same, rest) = ok-pair h8 in
    subst (λ x. Created input s x s') same
      (record {
        parent = parent;
        spec_fits = not-false _ (throw_if-eq-ok _ _ v);
        kept_spec = refl;
        normal_scope = n;
        known_dependencies = not-false _ (throw_if-eq-ok _ _ d);
        is_parent = find_parent-IsParent s input.parent_task_id parent p;
        parent_id = refl;
        depth = refl;
        given_depth = λ n e. same_depth input.delegation_depth _ (throw_if-eq-ok _ _ dd) n e;
        bounded = within_depth _ (throw_if-eq-ok _ _ b);
        same_run = λ q e. ap (λ x. run_id_of x input.run_id fresh_run) e;
        given_run = λ id e. same_id parent input.run_id fresh_run (throw_if-eq-ok _ _ r) id e;
        fresh = fresh;
        pending = refl;
        unowned = refl;
        creator = refl;
        version = refl;
        now = now;
        stored =
            sym rest
            ∙ ap
                (λ x.
                  append_event x task_created task.task_id input.created_by
                    (creation task.spec task.run_id task.parent_task_id task.delegation_depth)
                    input.idempotency_key now)
                placed;
      })

pub Created-LogAgrees :
    (input : CreateTaskInput) (s : Store) (t : Task) (s' : Store)
    → LogAgrees s
    → Created input s t s'
    → LogAgrees s'
Created-LogAgrees input s t s' l c = record {
  at = λ k.
      rw
        (
          c.stored,
          get_task-append_event (with_new_task s t) task_created t.task_id input.created_by
              (creation t.spec t.run_id t.parent_task_id t.delegation_depth) input.idempotency_key
              c.now k,
          last_state-append_event (with_new_task s t) task_created t.task_id input.created_by
              (creation t.spec t.run_id t.parent_task_id t.delegation_depth) input.idempotency_key
              c.now k,
          get_task-insert s t k c.fresh,
        )
        (elim (Bool-cases (t.task_id == k)) [
          | inl hit ↦ rw (hit, c.pending)
          | inr miss ↦ rw miss (l.at k)
        ]);
}
