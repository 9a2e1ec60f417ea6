-- ===== src/Control/Deliverables/Logged.antt =====
-- deliverable-service.ts: submissions and evidence, and the event log.
use mathlib.Core.Path.{subst}
use bidirectional_bridge_cla.Prelude.{
  ℕ, ◌≡◌, inl, inr, Option, ◌==◌, Bool-cases, Result, ok, >>=-eq-ok, throw_if, illegal_transition,
}
use bidirectional_bridge_cla.Protocol.Records.{
  TaskId, AgentId, Task, VerificationResult, Deliverable,
}
use bidirectional_bridge_cla.Control.Store.{
  Store, get_task, append_event, insert_deliverable, insert_verification,
}
use bidirectional_bridge_cla.Control.Tasks.Guards.{require_task, assert_owner}
use bidirectional_bridge_cla.Control.Tasks.Log.{LogAgrees, last_state}
use bidirectional_bridge_cla.Control.Tasks.Calls.{Steps-LogAgrees}
use bidirectional_bridge_cla.Control.Deliverables.{
  SubmitOptions, with_submission, submit, is_obsolete, validate_verification_result,
  record_verification,
}
use bidirectional_bridge_cla.Control.Deliverables.Verified.{submit-Submitted}

-- The event of a submission tells no state.
with_submission-LogAgrees :
    (s : Store) (task : Task) (d : Deliverable) (options : SubmitOptions) (now : ℕ)
    → LogAgrees s
    → LogAgrees (with_submission s task d options now)
unfolding insert_deliverable append_event get_task last_state
with_submission-LogAgrees s task d options now l = record {
  at = λ k. elim (Bool-cases (d.task_id == k)) [ inl e ↦ rw e (l.at k) | inr e ↦ rw e (l.at k) ];
}

-- A submission that is accepted in a store whose log agrees with its tasks leaves a store whose
-- log agrees with its tasks.
pub submit-LogAgrees :
    (s : Store) (d : Deliverable) (options : SubmitOptions) (now : ℕ) (out : Deliverable)
    (s' : Store)
    → LogAgrees s
    → submit s d options now ≡ ok (out, s')
    → LogAgrees s'
submit-LogAgrees s d options now out s' l h =
    let x = submit-Submitted s d options now out s' h in
    Steps-LogAgrees (with_submission-LogAgrees s x.task out options x.at l) x.steps

-- And so does the record of a check.
pub record_verification-LogAgrees :
    (s : Store) (id : TaskId) (agent : AgentId) (r : VerificationResult) (attempt : Option ℕ)
    (now : ℕ) (s' : Store)
    → LogAgrees s
    → record_verification s id agent r attempt now ≡ ok s'
    → LogAgrees s'
unfolding record_verification insert_verification append_event get_task last_state
record_verification-LogAgrees s id agent r attempt now s' l h =
    let (_, _, h1) = >>=-eq-ok (validate_verification_result r) _ h in
    let (found, _, h2) = >>=-eq-ok (require_task s id) _ h1 in
    let (task, _, h3) = >>=-eq-ok (assert_owner found agent) _ h2 in
    let (_, _, h4) = >>=-eq-ok (throw_if (is_obsolete attempt task) illegal_transition) _ h3 in
    subst LogAgrees (ok-same h4) (record {
      at = λ k. elim (Bool-cases (id == k)) [ inl e ↦ rw e (l.at k) | inr e ↦ rw e (l.at k) ];
    })
  where
    ok-same : {a b : Store} → ◌≡◌ {A = Result Store} (ok a) (ok b) → a ≡ b
    ok-same e = cc
