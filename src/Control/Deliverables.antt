-- ===== src/Control/Deliverables.antt =====
-- shared/control-plane/src/deliverable-service.ts, and the contract of evidence in
-- shared/protocol/src/verification.ts. A schema is tested on values that have the type it describes.
pub mod Verified
pub mod Evidence
pub mod Logged
mod Examples
use bidirectional_bridge_cla.Prelude.{
  ℕ, Bool, true, false, not, ◌&&◌, ◌||◌, Option, none, some, List, [], ◌∷◌, ◌++◌, ◌==◌, leb, is,
  is_empty, length, all, filter, text_eq, if◌then◌else◌, Result, ok, err, ◌>>=◌, ◌>>◌, throw_if,
  invalid_argument, not_owner, illegal_transition,
}
use bidirectional_bridge_cla.Protocol.Path.{Text}
use bidirectional_bridge_cla.Protocol.Lifecycle.{
  TaskState, same_state, DeliverableStatus, deliverable_terminal_state,
}
use bidirectional_bridge_cla.Protocol.Scope.{codes, is_read_only_scope}
use bidirectional_bridge_cla.Protocol.Records.{
  TaskId, AgentId, Task, VerificationKind, test, typecheck, build, lint, static_analysis, benchmark,
  manual, ExitCode, zero_exit, nonzero_exit, VerificationResult, Deliverable, verification_recorded,
  deliverable_submitted, verification, submission,
}
use bidirectional_bridge_cla.Control.Store.{
  Store, append_event, insert_verification, list_verifications, insert_deliverable,
}
use bidirectional_bridge_cla.Control.Tasks.Lineage.{within, optional}
use bidirectional_bridge_cla.Control.Tasks.Guards.{require_task, assert_owner}
use bidirectional_bridge_cla.Control.Tasks.Transitions.{
  unblock, FinalizeInput, finalize_deliverable,
}

-- `VerificationResultSchema`.
unfoldable pub valid_result : VerificationResult → Bool
valid_result r =
    within 1 2000 (length r.command)
    && leb (length r.summary) 4000
    && optional (λ (t : Text). leb (length t) 20000) r.output_excerpt

abbrev pub is_zero_exit : ExitCode → Bool
is_zero_exit zero_exit = true
is_zero_exit nonzero_exit = false

abbrev pub is_manual : VerificationKind → Bool
is_manual manual = true
is_manual _ = false

abbrev pub same_flag : Bool → Bool → Bool
same_flag true b = b
same_flag false b = not b

-- `exit_code !== null && passed !== (exit_code === 0)`.
abbrev pub contradicts : Bool → Option ExitCode → Bool
contradicts passed none = false
contradicts passed (some code) = not (same_flag passed (is_zero_exit code))

-- `kind !== MANUAL && exit_code === null`.
abbrev pub lacks_exit : VerificationKind → Option ExitCode → Bool
lacks_exit kind none = not (is_manual kind)
lacks_exit kind (some code) = false

unfoldable pub validate_verification_result : VerificationResult → Result (Unit {0})
validate_verification_result r = do
  throw_if (not (valid_result r)) invalid_argument
  throw_if (contradicts r.passed r.exit_code) invalid_argument
  throw_if (lacks_exit r.kind r.exit_code) invalid_argument

-- `evidence.forEach(validateVerificationResult)`.
unfoldable pub validate_all : List VerificationResult → Result (Unit {0})
validate_all [] = ok tt
validate_all (r ∷ rs) = do validate_verification_result r; validate_all rs

abbrev pub is_obsolete : Option ℕ → Task → Bool
is_obsolete none task = false
is_obsolete (some attempt) task = not (attempt == task.attempt)

unfoldable pub record_verification :
    Store → TaskId → AgentId → VerificationResult → Option ℕ → ℕ → Result Store
record_verification s task_id agent r attempt now = do
  validate_verification_result r
  found ← require_task s task_id
  task ← assert_owner found agent
  throw_if (is_obsolete attempt task) illegal_transition
  ok (
      append_event (insert_verification s task_id r task.attempt) verification_recorded task_id
        agent (verification task.attempt r.kind r.command r.passed r.exit_code r.summary) none now)

abbrev pub kind_rank : VerificationKind → ℕ
kind_rank test = 0
kind_rank typecheck = 1
kind_rank build = 2
kind_rank lint = 3
kind_rank static_analysis = 4
kind_rank benchmark = 5
kind_rank manual = 6

-- The keys `${kind}::${command}` are equal: no kind has a colon.
abbrev pub same_check : VerificationResult → VerificationResult → Bool
same_check a b = kind_rank a.kind == kind_rank b.kind && text_eq a.command b.command

-- `byKey.set`: a key that is there keeps its place.
unfoldable pub set_check : VerificationResult → List VerificationResult → List VerificationResult
set_check r [] = r ∷ []
set_check r (q ∷ rs) = let rest = set_check r rs in if same_check q r then r ∷ rs else q ∷ rest

unfoldable pub set_checks :
    List VerificationResult → List VerificationResult → List VerificationResult
set_checks [] by_key = by_key
set_checks (r ∷ rs) by_key = set_checks rs (set_check r by_key)

unfoldable pub merge_evidence :
    List VerificationResult → List VerificationResult → List VerificationResult
merge_evidence recorded submitted = set_checks submitted (set_checks recorded [])

-- `DeliverableSchema`.
unfoldable pub valid_deliverable : Deliverable → Bool
valid_deliverable d =
    within 1 8000 (length d.summary)
    && all (λ (t : Text). leb (length t) 512) d.changed_scope
    && optional (λ (t : Text). leb (length t) 4000) d.commit_or_diff
    && all (λ (t : Text). leb (length t) 2000) d.verification_performed
    && all valid_result d.verification_results
    && all (λ (t : Text). leb (length t) 2000) d.remaining_risks
    && leb (length d.recommended_next_action) 2000

pub record SubmitOptions : Type 0 where
  pub attempt : Option ℕ
  pub allow_unverified : Bool
  pub waiver_reason : Option Text

abbrev pub is_complete : DeliverableStatus → Bool
is_complete DeliverableStatus.complete = true
is_complete _ = false

abbrev pub failing : List VerificationResult → List VerificationResult
failing evidence = filter (λ r. not r.passed) evidence

-- The refusals of a COMPLETE deliverable.
unfoldable pub check_complete : List VerificationResult → Bool → Result (Unit {0})
check_complete evidence allow_unverified = do
  throw_if (not (is_empty (failing evidence))) invalid_argument
  throw_if (is_empty evidence && not allow_unverified) invalid_argument

abbrev pub status_name : DeliverableStatus → Text
status_name DeliverableStatus.complete = codes "COMPLETE"
status_name DeliverableStatus.partial = codes "PARTIAL"
status_name DeliverableStatus.failed = codes "FAILED"

abbrev pub first_risk : List Text → Text
first_risk [] = codes "partial deliverable: work is incomplete"
first_risk (risk ∷ risks) = risk

abbrev pub final_input : Deliverable → FinalizeInput
final_input d = record {
  task_id = d.task_id;
  agent = d.agent;
  to = deliverable_terminal_state d.status;
  why = codes "deliverable " ++ status_name d.status;
  blocker =
      if same_state (deliverable_terminal_state d.status) TaskState.blocked
      then some (first_risk d.remaining_risks)
      else none;
}

-- The blocker is cleared first when a BLOCKED task submits COMPLETE.
unfoldable pub clear_blocker : Store → Deliverable → TaskState → ℕ → Result Store
clear_blocker s d current now =
    if same_state current TaskState.blocked
      && same_state (deliverable_terminal_state d.status) TaskState.done
    then (do (task, s') ← unblock s d.task_id d.agent (codes "resolved on submission") now; ok s')
    else ok s

unfoldable pub apply_terminal_state : Store → Deliverable → TaskState → ℕ → Result (Task × Store)
apply_terminal_state s d current now = do
  s' ← clear_blocker s d current now
  finalize_deliverable s' (final_input d) now

abbrev pub waiver : SubmitOptions → Option Text
waiver options =
    if options.allow_unverified
    then (elim options.waiver_reason [ none ↦ some (codes "unspecified") | some why ↦ some why ])
    else none

-- The row and the event of a submission that is accepted.
abbrev pub with_submission : Store → Task → Deliverable → SubmitOptions → ℕ → Store
with_submission s task d options now =
    append_event (insert_deliverable s d task.attempt) deliverable_submitted d.task_id d.agent
      (submission task.attempt d.status d.summary d.artifacts d.changed_scope
        (length d.verification_results) (waiver options))
      none now

unfoldable pub submit : Store → Deliverable → SubmitOptions → ℕ → Result (Deliverable × Store)
submit s d options now = do
  throw_if (not (valid_deliverable d)) invalid_argument
  found ← require_task s d.task_id
  task ← assert_owner found d.agent
  throw_if (is_obsolete options.attempt task) illegal_transition
  read_only ← is_read_only_scope task.spec.scope
  throw_if (read_only && not (is_empty d.changed_scope)) invalid_argument
  let evidence = merge_evidence (list_verifications s d.task_id task.attempt) d.verification_results
  validate_all evidence
  if is_complete d.status then check_complete evidence options.allow_unverified else ok tt
  let final : Deliverable = record d { verification_results = evidence }
  (ended, s') ← apply_terminal_state (with_submission s task final options now) final task.state now
  ok (final, s')
