-- ===== src/Control/Tasks/Resumed.antt =====
-- task-service.ts, `beginRecovery`: what an accepted recovery has checked.
use mathlib.Core.Path.{subst}
use bidirectional_bridge_cla.Prelude.{
  includes, ℕ, ◌+◌, ◌≡◌, refl, sym, ap, ◌∙◌, inr, Bool, true, false, not, none, some, arith, ◌==◌,
  is, ok, >>=-eq-ok, throw_if, throw_if-eq-ok, ==_iff, invalid_argument, illegal_transition,
  dependency_unsatisfied, operation_in_progress,
}
use bidirectional_bridge_cla.Protocol.Lifecycle.{TaskState}
use bidirectional_bridge_cla.Protocol.Records.{TaskId, Task, task_state_changed}
use bidirectional_bridge_cla.Control.Store.{get_dependencies, Store, get_task}
use bidirectional_bridge_cla.Control.Store.Laws.{get_task-key}
use bidirectional_bridge_cla.Control.Tasks.Dependencies.{satisfied, check_dependencies}
use bidirectional_bridge_cla.Control.Tasks.Gate.{IsDone, unsatisfied_among-IsDone}
use bidirectional_bridge_cla.Control.Tasks.Steps.{Writes, is_resumable, write-Writes}
use bidirectional_bridge_cla.Control.Tasks.Operations.{Owned-row}
use bidirectional_bridge_cla.Control.Tasks.Calls.{read_back}
use bidirectional_bridge_cla.Control.Tasks.Recovery.{
  interrupted_runtime, needs_repair, must_wait, cannot_resume, assert_recoverable,
  runtime_failure_of, assert_persisted_lineage, BeginRecoveryInput, recovered_task, begin_recovery,
}

-- The row before and after an accepted recovery.
pub record Resumed (s : Store) (input : BeginRecoveryInput) (t : Task) (s' : Store) : Type 0 where
  pub task : Task
  pub found : get_task s input.task_id ≡ some task
  pub mine : is task.owner input.agent ≡ true
  pub recoverable : is_resumable task.state ≡ true
  pub interrupted : (task.state ≡ TaskState.failed) → interrupted_runtime s task ≡ true
  pub ready : (dep : TaskId) → includes (get_dependencies s input.task_id) dep ≡ true → IsDone s dep
  pub next : t.attempt ≡ task.attempt + 1
  pub resumed : t.state ≡ TaskState.working
  pub same_owner : t.owner ≡ task.owner
  pub written : Writes s task t s'
  pub stored : get_task s' input.task_id ≡ some t

-- A recovery that is accepted was asked by the owner of a task that is neither PENDING, DONE nor
-- CANCELLED, whose dependencies are DONE and which, if it is FAILED, was interrupted by its
-- runtime; it moves the task to WORKING with the next attempt and the same owner, in one write
-- with one event.
pub begin_recovery-Resumed :
    (s : Store) (input : BeginRecoveryInput) (now : ℕ) (t : Task) (s' : Store)
    → begin_recovery s input now ≡ ok (t, s')
    → Resumed s input t s'
unfolding begin_recovery assert_recoverable satisfied check_dependencies
begin_recovery-Resumed s input now t s' h =
    let (task, own, h1) = Owned-row s input.task_id input.agent _ (t, s') h in
    let (_, r, h2) = >>=-eq-ok (assert_recoverable s task now) _ h1 in
    let (_, n, h3) =
      >>=-eq-ok (throw_if (not (input.next_attempt == task.attempt + 1)) illegal_transition) _ h2 in
    let (_, d0, h4) =
      >>=-eq-ok (throw_if (not (satisfied s task.task_id)) dependency_unsatisfied) _ h3 in
    let (_, _, h5) = >>=-eq-ok (assert_persisted_lineage s task) _ h4 in
    let key : task.task_id ≡ input.task_id = get_task-key s input.task_id task own.0 in
    let state = can_resume task r in
    let (same, w) =
      write-Writes s task (recovered_task task input.next_attempt now) task_state_changed
        input.agent _ none now t s' (ap (get_task s) key ∙ own.0) refl
        (inr (inr (resumable task.state _ state, refl))) refl h5 in
    let new = recovered_task task input.next_attempt now in
    subst (λ z. Resumed s input z s') (sym same)
      (record {
        task = task;
        found = own.0;
        mine = own.1;
        recoverable = resumable task.state _ state;
        interrupted = λ e.
            only_interrupted (interrupted_runtime s task)
              (ap (λ z. cannot_resume z (interrupted_runtime s task)) (sym e) ∙ state);
        ready = λ dep d.
            unsatisfied_among-IsDone s (get_dependencies s input.task_id) dep
              (ap (satisfied s) (sym key) ∙ affirmed _ (throw_if-eq-ok _ dependency_unsatisfied d0))
              d;
        next =
            (==_iff input.next_attempt (task.attempt + 1)).0
              (affirmed _ (throw_if-eq-ok _ illegal_transition n));
        resumed = refl;
        same_owner = refl;
        written = w;
        stored = ap (get_task s') (sym key) ∙ read_back s task new s' w;
      })
  where
    affirmed : (b : Bool) → not b ≡ false → b ≡ true
    affirmed b e = ground arith

    can_resume :
        (task : Task)
        → assert_recoverable s task now ≡ ok tt
        → cannot_resume task.state (interrupted_runtime s task) ≡ false
    can_resume task r =
        let (_, _, r1) =
          >>=-eq-ok (throw_if (needs_repair (runtime_failure_of s task)) invalid_argument) _ r in
        let (_, _, r2) =
          >>=-eq-ok (throw_if (must_wait (runtime_failure_of s task) now) operation_in_progress) _
            r1 in
        throw_if-eq-ok (cannot_resume task.state (interrupted_runtime s task)) illegal_transition r2

    resumable : (x : TaskState) (b : Bool) → cannot_resume x b ≡ false → is_resumable x ≡ true
    resumable TaskState.pending b e = cc
    resumable TaskState.claimed b e = refl
    resumable TaskState.working b e = refl
    resumable TaskState.blocked b e = refl
    resumable TaskState.verifying b e = refl
    resumable TaskState.done b e = cc
    resumable TaskState.failed b e = refl
    resumable TaskState.cancelled true e = cc
    resumable TaskState.cancelled false e = cc

    only_interrupted : (b : Bool) → cannot_resume TaskState.failed b ≡ false → b ≡ true
    only_interrupted true e = refl
    only_interrupted false e = cc
