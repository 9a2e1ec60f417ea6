-- ===== src/Control/Deliverables/Verified.antt =====
-- deliverable-service.ts, `submit`: a task becomes DONE only with evidence that passes.
use mathlib.Core.Path.{subst}
use bidirectional_bridge_cla.Prelude.{
  ℕ, ◌≡◌, refl, ap, ◌∙◌, ◌⊎◌, inl, inr, Bool, true, false, not, ◌&&◌, Option, none, some, List, [],
  ◌∷◌, arith, is_empty, All, if◌then◌else◌, Result, ok, >>=-eq-ok, throw_if, throw_if-eq-ok,
  Bool-cases, ==_refl, invalid_argument, illegal_transition,
}
use bidirectional_bridge_cla.Protocol.Lifecycle.{
  TaskState, same_state, DeliverableStatus, deliverable_terminal_state,
}
use bidirectional_bridge_cla.Protocol.Scope.{codes, is_read_only_scope}
use bidirectional_bridge_cla.Protocol.Records.{
  Task, VerificationKind, ExitCode, zero_exit, nonzero_exit, VerificationResult, Deliverable,
}
use bidirectional_bridge_cla.Control.Table.{get, get-upsert}
use bidirectional_bridge_cla.Control.Store.{
  Store, DeliverableRow, get_task, append_event, list_verifications, insert_deliverable,
  get_deliverable,
}
use bidirectional_bridge_cla.Control.Tasks.Guards.{require_task, assert_owner}
use bidirectional_bridge_cla.Control.Tasks.Steps.{Step, stays, writes}
use bidirectional_bridge_cla.Control.Tasks.Calls.{Steps, here, next, finalize-Steps}
use bidirectional_bridge_cla.Control.Tasks.Operations.{unblock-Step}
use bidirectional_bridge_cla.Control.Tasks.Final.{finalize-end}
use bidirectional_bridge_cla.Control.Tasks.Transitions.{unblock}
use bidirectional_bridge_cla.Control.Deliverables.{
  valid_result, is_manual, contradicts, lacks_exit, validate_verification_result, validate_all,
  is_obsolete, merge_evidence, valid_deliverable, SubmitOptions, is_complete, failing,
  check_complete, final_input, clear_blocker, apply_terminal_state, with_submission, submit,
}

-- The check passed, and a command ended with the exit code 0, unless a person made the check.
pub record HasPassed (r : VerificationResult) : Type 0 where
  pub passed : r.passed ≡ true
  pub exited : (is_manual r.kind ≡ true) ⊎ (r.exit_code ≡ some zero_exit)

-- What the result of `validateVerificationResult` means for a check that passed.
validated-HasPassed :
    (r : VerificationResult)
    → validate_verification_result r ≡ ok tt
    → r.passed ≡ true
    → HasPassed r
unfolding validate_verification_result
validated-HasPassed r h p =
    let (_, _, h1) = >>=-eq-ok (throw_if (not (valid_result r)) invalid_argument) _ h in
    let (_, c, h2) =
      >>=-eq-ok (throw_if (contradicts r.passed r.exit_code) invalid_argument) _ h1 in
    record {
      passed = p;
      exited =
          cases r.kind r.passed r.exit_code p (throw_if-eq-ok _ invalid_argument c)
            (throw_if-eq-ok (lacks_exit r.kind r.exit_code) invalid_argument h2);
    }
  where
    cases :
        (kind : VerificationKind) (passed : Bool) (code : Option ExitCode)
        → passed ≡ true
        → contradicts passed code ≡ false
        → lacks_exit kind code ≡ false
        → (is_manual kind ≡ true) ⊎ (code ≡ some zero_exit)
    cases kind passed none p c l = inl (ground arith)
    cases kind true (some zero_exit) p c l = inr refl
    cases kind true (some nonzero_exit) p c l = cc
    cases kind false (some code) p c l = cc

evidence-HasPassed :
    (evidence : List VerificationResult)
    → validate_all evidence ≡ ok tt
    → is_empty (failing evidence) ≡ true
    → All HasPassed evidence
unfolding validate_all
evidence-HasPassed [] h e = tt
evidence-HasPassed (r ∷ rs) h e =
    let (_, v, h1) = >>=-eq-ok (validate_verification_result r) _ h in
    elim (Bool-cases r.passed) [
      | inl p ↦ (validated-HasPassed r v p, evidence-HasPassed rs h1 (rw p at e))
      | inr p ↦ clash (rw p at e)
    ]
  where
    clash : false ≡ true → HasPassed r × All HasPassed rs
    clash e = cc

Step-deliverables :
    (s : Store) (t : Task) (s' : Store) → Step s t s' → s'.deliverables ≡ s.deliverables
unfolding append_event
Step-deliverables s t s' (stays e f) = ap (λ x. x.deliverables) e
Step-deliverables s t s' (writes old w) = ap (λ x. x.deliverables) w.stored

Steps-deliverables : {s s' : Store} → Steps s s' → s'.deliverables ≡ s.deliverables
Steps-deliverables here = refl
Steps-deliverables (next {s1 = a} {s2 = b} t r st) =
    Step-deliverables a t b st ∙ Steps-deliverables r

-- The calls on the task service at the end of `submit`.
pub apply_terminal_state-Steps :
    (s : Store) (d : Deliverable) (current : TaskState) (now : ℕ) (t : Task) (s' : Store)
    → apply_terminal_state s d current now ≡ ok (t, s')
    → Steps s s'
      × (get_task s' d.task_id ≡ some t)
      × (t.state ≡ deliverable_terminal_state d.status)
unfolding apply_terminal_state clear_blocker
apply_terminal_state-Steps s d current now t s' h =
    let (s1, e, h1) = >>=-eq-ok (clear_blocker s d current now) _ h in
    let (found, ends) = finalize-end s1 (final_input d) now t s' h1 in
    (joined (cleared s1 e) (finalize-Steps s1 (final_input d) now t s' h1), found, ends)
  where
    joined : {a b c : Store} → Steps a b → Steps b c → Steps a c
    joined r here = r
    joined r (next t q st) = next t (joined r q) st

    ok-store : {x y : Store} → ◌≡◌ {A = Result Store} (ok x) (ok y) → x ≡ y
    ok-store e = cc

    cleared : (s1 : Store) → clear_blocker s d current now ≡ ok s1 → Steps s s1
    cleared s1 e =
        elim (Bool-cases (
          same_state current TaskState.blocked
          && same_state (deliverable_terminal_state d.status) TaskState.done)) [
            | inl b ↦
                let ((u, s2), f, g) =
                  >>=-eq-ok (unblock s d.task_id d.agent (codes "resolved on submission") now) _
                    (rw b at e) in
                subst (Steps s) (ok-store g)
                  (next u here (unblock-Step s d.task_id d.agent _ now u s2 f))
            | inr b ↦ subst (Steps s) (ok-store (rw b at e)) here
          ]

-- What a submission that is accepted has checked, and what it leaves.
pub record Submitted (s : Store) (d : Deliverable) (options : SubmitOptions) (out : Deliverable)
    (s' : Store) : Type 0 where
  pub task : Task
  pub at : ℕ
  pub steps : Steps (with_submission s task out options at) s'
  pub checked : validate_all out.verification_results ≡ ok tt
  pub complete :
      is_complete d.status ≡ true
      → check_complete out.verification_results options.allow_unverified ≡ ok tt
  pub status : out.status ≡ d.status
  pub stored : get_deliverable s' d.task_id ≡ some out
  pub final : Task
  pub found : get_task s' d.task_id ≡ some final
  pub ends : final.state ≡ deliverable_terminal_state d.status

ok-delivered :
    {x y : Deliverable} {a b : Store}
    → ◌≡◌ {A = Result (Deliverable × Store)} (ok (x, a)) (ok (y, b))
    → (x ≡ y) × (a ≡ b)
ok-delivered e = (cc, cc)

stored_deliverable :
    (s : Store) (task : Task) (d : Deliverable) (options : SubmitOptions) (now : ℕ) (s' : Store)
    → Steps (with_submission s task d options now) s'
    → get_deliverable s' d.task_id ≡ some d
unfolding get_deliverable insert_deliverable append_event
stored_deliverable s task d options now s' r = shown s'.deliverables (
    ap (get (λ x. x.task_id) d.task_id) (Steps-deliverables r)
    ∙ get-upsert (λ x. x.task_id) d.task_id row s.deliverables
    ∙ ap (λ b. if b then some row else get (λ x. x.task_id) d.task_id s.deliverables)
        (==_refl d.task_id))
  where
    row : DeliverableRow
    row = record { task_id = d.task_id; deliverable = d; attempt = task.attempt }

    shown :
        (rows : List DeliverableRow)
        → get (λ x. x.task_id) d.task_id rows ≡ some row
        → (elim (get (λ x. x.task_id) d.task_id rows) as (λ _. Option Deliverable) [
          | none ↦ none
          | some x ↦ some x.deliverable
        ])
          ≡ some d
    shown rows e = rw e

pub submit-Submitted :
    (s : Store) (d : Deliverable) (options : SubmitOptions) (now : ℕ) (out : Deliverable)
    (s' : Store)
    → submit s d options now ≡ ok (out, s')
    → Submitted s d options out s'
unfolding submit
submit-Submitted s d options now out s' h =
    let (_, _, h1) = >>=-eq-ok (throw_if (not (valid_deliverable d)) invalid_argument) _ h in
    let (row, _, h2) = >>=-eq-ok (require_task s d.task_id) _ h1 in
    let (task, _, h3) = >>=-eq-ok (assert_owner row d.agent) _ h2 in
    let (_, _, h4) =
      >>=-eq-ok (throw_if (is_obsolete options.attempt task) illegal_transition) _ h3 in
    let (read_only, _, h5) = >>=-eq-ok (is_read_only_scope task.spec.scope) _ h4 in
    let (_, _, h6) =
      >>=-eq-ok (throw_if (read_only && not (is_empty d.changed_scope)) invalid_argument) _ h5 in
    let evidence : List VerificationResult =
      merge_evidence (list_verifications s d.task_id task.attempt) d.verification_results in
    let (u, checked, h7) = >>=-eq-ok (validate_all evidence) _ h6 in
    let (v, complete, h8) =
      >>=-eq-ok
        (if is_complete d.status then check_complete evidence options.allow_unverified else ok tt) _
        h7 in
    let final : Deliverable = record d { verification_results = evidence } in
    let ((t, s1), applied, h9) =
      >>=-eq-ok
        (apply_terminal_state (with_submission s task final options now) final task.state now) _
        h8 in
    let (same, end) = ok-delivered h9 in
    let (steps, found, ends) =
      apply_terminal_state-Steps (with_submission s task final options now) final task.state now t
        s1 applied in
    subst (λ z. Submitted s d options z s') same
      (subst (λ z. Submitted s d options final z) end
        (record {
          task = task;
          at = now;
          steps = steps;
          checked = checked;
          complete = taken (is_complete d.status) _ complete;
          status = refl;
          stored = stored_deliverable s task final options now s1 steps;
          final = t;
          found = found;
          ends = ends;
        }))
  where
    taken :
        (b : Bool) (m : Result (Unit {0})) → (if b then m else ok tt) ≡ ok tt → b ≡ true → m ≡ ok tt
    taken true m h e = h
    taken false m h e = cc

-- A COMPLETE deliverable that is accepted without a waiver carries at least one check, each of
-- which has passed, with the exit code 0 unless it is manual; its task is DONE, and the store
-- gives the deliverable back.
pub submit-HasPassed :
    (s : Store) (d : Deliverable) (options : SubmitOptions) (now : ℕ) (out : Deliverable)
    (s' : Store)
    → submit s d options now ≡ ok (out, s')
    → d.status ≡ DeliverableStatus.complete
    → options.allow_unverified ≡ false
    → (is_empty out.verification_results ≡ false)
      × All HasPassed out.verification_results
      × ((t : Task) × (get_task s' d.task_id ≡ some t) × (t.state ≡ TaskState.done))
      × (get_deliverable s' d.task_id ≡ some out)
unfolding check_complete deliverable_terminal_state
submit-HasPassed s d options now out s' h status strict =
    let x = submit-Submitted s d options now out s' h in
    let (_, pass, h1) =
      >>=-eq-ok (throw_if (not (is_empty (failing out.verification_results))) invalid_argument) _
        (x.complete (ap is_complete status)) in
    (
      present (is_empty out.verification_results) (throw_if-eq-ok _ invalid_argument h1),
      evidence-HasPassed out.verification_results x.checked (
          affirmed (is_empty (failing out.verification_results))
            (throw_if-eq-ok _ invalid_argument pass)),
      (x.final, x.found, x.ends ∙ ap deliverable_terminal_state status),
      x.stored,
    )
  where
    affirmed : (b : Bool) → not b ≡ false → b ≡ true
    affirmed b e = ground arith

    present : (b : Bool) → (b && not options.allow_unverified) ≡ false → b ≡ false
    present b e = ground (arith, strict)
