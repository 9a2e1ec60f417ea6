-- ===== src/Control/Tasks/Operations.antt =====
-- task-service.ts: each operation that answers is a step.
use bidirectional_bridge_cla.Prelude.{
  ℕ, ◌+◌, ◌≡◌, refl, inl, inr, true, false, not, ◌&&◌, Option, none, some, arith, leb, is, Result,
  ok, ◌>>=◌, >>=-eq-ok, throw_if, throw_if-eq-ok, Bool-cases, not_owner, illegal_transition,
  dependency_unsatisfied,
}
use bidirectional_bridge_cla.Protocol.Path.{Text}
use bidirectional_bridge_cla.Protocol.Lifecycle.{TaskState, same_state, can_transition}
use bidirectional_bridge_cla.Protocol.Records.{TaskId, AgentId, Task}
use bidirectional_bridge_cla.Control.Store.{Store, get_task}
use bidirectional_bridge_cla.Control.Tasks.Guards.{require_task, assert_owner, assert_transition}
use bidirectional_bridge_cla.Control.Tasks.Steps.{
  Step, write-Step, stays-Step, require_task-found, assert_owner-same, assert_transition-legal,
}
use bidirectional_bridge_cla.Control.Tasks.Ownership.{owned_by_other, claim_body, release, retry}
use bidirectional_bridge_cla.Control.Tasks.Dependencies.{satisfied}
use bidirectional_bridge_cla.Control.Tasks.Transitions.{
  TransitionInput, transition_body, block, unblock,
}

pub claim_body-Step :
    (id : TaskId) (agent : AgentId) (key : Option ℕ) (now : ℕ) (s : Store) (t : Task) (s' : Store)
    → claim_body id agent key now s ≡ ok (t, s')
    → Step s t s'
unfolding claim_body
claim_body-Step id agent key now s t s' h =
    let (task, e, h1) = >>=-eq-ok (require_task s id) _ h in
    let (found, _) = require_task-found s id task e in
    let (_, _, h2) = >>=-eq-ok (throw_if (owned_by_other task agent) not_owner) _ h1 in
    elim (Bool-cases (is task.owner agent && not (same_state task.state TaskState.pending))) [
      | inl c ↦ stays-Step s id task t s' found (rw c at h2)
      | inr c ↦
          let (u, a, h3) = >>=-eq-ok (assert_transition task TaskState.claimed) _ (rw c at h2) in
          write-Step s id task _ _ agent _ key now t s' found refl
            (inl (assert_transition-legal task TaskState.claimed u a)) refl h3
    ]

-- The row that the owner's check has let through.
abbrev pub Owned : Store → TaskId → AgentId → Task → Type 0
Owned s id agent task = (get_task s id ≡ some task) × (is task.owner agent ≡ true)

pub Owned-row :
    (s : Store) (id : TaskId) (agent : AgentId) (f : Task → Result (Task × Store))
    (r : Task × Store)
    → (require_task s id >>= λ found. assert_owner found agent >>= f) ≡ ok r
    → (task : Task) × Owned s id agent task × (f task ≡ ok r)
Owned-row s id agent f r h =
    let (found, e, h1) = >>=-eq-ok (require_task s id) _ h in
    let (task, a, h2) = >>=-eq-ok (assert_owner found agent) f h1 in
    let (same, owner) = assert_owner-same found agent task a in
    (task, (rw same (require_task-found s id found e).0, rw same owner), h2)

pub release-Step :
    (s : Store) (id : TaskId) (agent : AgentId) (why : Text) (now : ℕ) (t : Task) (s' : Store)
    → release s id agent why now ≡ ok (t, s')
    → Step s t s'
unfolding release
release-Step s id agent why now t s' h =
    let (task, own, h1) = Owned-row s id agent _ (t, s') h in
    let (u, a, h2) = >>=-eq-ok (assert_transition task TaskState.pending) _ h1 in
    write-Step s id task _ _ agent _ none now t s' own.0 refl
      (inl (assert_transition-legal task TaskState.pending u a)) refl h2

pub retry-Step :
    (s : Store) (id : TaskId) (agent : AgentId) (max_attempts now : ℕ) (t : Task) (s' : Store)
    → retry s id agent max_attempts now ≡ ok (t, s')
    → Step s t s'
unfolding retry
retry-Step s id agent max_attempts now t s' h =
    let (task, e, h1) = >>=-eq-ok (require_task s id) _ h in
    let (found, _) = require_task-found s id task e in
    let (_, f, h2) =
      >>=-eq-ok (throw_if (not (same_state task.state TaskState.failed)) illegal_transition) _ h1 in
    let (_, _, h3) =
      >>=-eq-ok (throw_if (leb max_attempts (task.attempt + 1)) illegal_transition) _ h2 in
    write-Step s id task _ _ agent _ none now t s' found refl
      (inr (inl (is_failed task.state (throw_if-eq-ok _ _ f), refl))) refl h3
  where
    is_failed : (x : TaskState) → not (same_state x TaskState.failed) ≡ false → x ≡ TaskState.failed
    is_failed x h = ground arith

pub block-Step :
    (s : Store) (id : TaskId) (agent : AgentId) (why : Text) (now : ℕ) (t : Task) (s' : Store)
    → block s id agent why now ≡ ok (t, s')
    → Step s t s'
unfolding block
block-Step s id agent why now t s' h =
    let (task, own, h1) = Owned-row s id agent _ (t, s') h in
    let (u, a, h2) = >>=-eq-ok (assert_transition task TaskState.blocked) _ h1 in
    write-Step s id task _ _ agent _ none now t s' own.0 refl
      (inl (assert_transition-legal task TaskState.blocked u a)) refl h2

from_blocked :
    (x : TaskState)
    → not (same_state x TaskState.blocked) ≡ false
    → can_transition x TaskState.working ≡ true
unfolding can_transition
from_blocked x h = ground arith

pub unblock-Step :
    (s : Store) (id : TaskId) (agent : AgentId) (resolution : Text) (now : ℕ) (t : Task)
    (s' : Store)
    → unblock s id agent resolution now ≡ ok (t, s')
    → Step s t s'
unfolding unblock
unblock-Step s id agent resolution now t s' h =
    let (task, own, h1) = Owned-row s id agent _ (t, s') h in
    elim (Bool-cases (not (same_state task.state TaskState.blocked))) [
      | inl c ↦ stays-Step s id task t s' own.0 (rw c at h1)
      | inr c ↦
          write-Step s id task _ _ agent _ none now t s' own.0 refl
            (inl (from_blocked task.state c)) refl (rw c at h1)
    ]

pub transition_body-Step :
    (input : TransitionInput) (now : ℕ) (s : Store) (t : Task) (s' : Store)
    → transition_body input now s ≡ ok (t, s')
    → Step s t s'
unfolding transition_body
transition_body-Step input now s t s' h =
    let (task, own, h1) = Owned-row s input.task_id input.agent _ (t, s') h in
    elim (Bool-cases (same_state task.state input.to)) [
      | inl c ↦ stays-Step s input.task_id task t s' own.0 (rw c at h1)
      | inr c ↦
          let (u, a, h2) = >>=-eq-ok (assert_transition task input.to) _ (rw c at h1) in
          let (_, _, h3) =
            >>=-eq-ok
              (throw_if (same_state input.to TaskState.working && not (satisfied s input.task_id))
                dependency_unsatisfied)
              _ h2 in
          write-Step s input.task_id task _ _ input.agent _ input.idempotency_key now t s' own.0
            refl (inl (assert_transition-legal task input.to u a)) refl h3
    ]
