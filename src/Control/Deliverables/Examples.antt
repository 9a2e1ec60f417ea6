-- ===== src/Control/Deliverables/Examples.antt =====
-- deliverable-service.ts: a small store, and the laws at it.
use bidirectional_bridge_cla.Control.Samples.{nothing}
use bidirectional_bridge_cla.Control.Tasks.Log.{LogAgrees, last_state}
use bidirectional_bridge_cla.Control.Deliverables.Logged.{submit-LogAgrees}
use bidirectional_bridge_cla.Prelude.{
  ◌==◌, Bool-cases, inl, inr, ◌≡◌, refl, Bool, true, false, none, some, [], ◌∷◌, All, is_empty,
  or_else, Result, ok, err,
}
use bidirectional_bridge_cla.Protocol.Lifecycle.{
  TaskState, DeliverableStatus, can_transition, deliverable_terminal_state,
}
use bidirectional_bridge_cla.Protocol.Scope.{
  codes, is_read_only_scope, every_of, is_read_only_pattern,
}
use bidirectional_bridge_cla.Protocol.Path.{
  normalize_path, strip_dot_slash, collapse, strip_slashes, split_slash,
}
use bidirectional_bridge_cla.Protocol.Records.{
  task_state_changed, transition, VerificationKind, test, lint, zero_exit, VerificationResult, Task,
  Deliverable,
}
use bidirectional_bridge_cla.Control.Table.{get, replace, upsert}
use bidirectional_bridge_cla.Control.Store.{
  Store, get_task, get_deliverable, append_event, insert_deliverable, list_verifications,
  results_of, update_task,
}
use bidirectional_bridge_cla.Control.Tasks.Guards.{require_task, assert_owner, write}
use bidirectional_bridge_cla.Control.Tasks.Transitions.{finalize_deliverable, finalize_hops}
use bidirectional_bridge_cla.Control.Deliverables.{
  SubmitOptions, submit, merge_evidence, valid_deliverable, valid_result, validate_all, set_checks,
  set_check, apply_terminal_state, check_complete, clear_blocker, validate_verification_result,
}
use bidirectional_bridge_cla.Control.Deliverables.Verified.{HasPassed, submit-HasPassed}
use bidirectional_bridge_cla.Control.Deliverables.Evidence.{
  find_check, last_check, find_check-merge_evidence,
}

abbrev a_check : VerificationKind → Bool → VerificationResult
a_check kind passed = record {
  kind = kind;
  command = codes "npm test";
  passed = passed;
  exit_code = some zero_exit;
  summary = [];
  duration_ms = none;
  output_excerpt = none;
  log_artifact_id = none;
}

abbrev a_task : Task
a_task = record {
  task_id = 1;
  run_id = 1;
  parent_task_id = none;
  delegation_depth = 0;
  spec = record {
    objective = codes "fix";
    scope = record { paths = codes "src" ∷ []; note = none };
    dependencies = [];
    expected_deliverable = codes "patch";
    verification_criteria = codes "tests" ∷ [];
    preferred_agent = none;
    deadline_ms = none;
    max_turns = none;
    telemetry_mode = none;
    priority = none;
    tags = none;
  };
  state = TaskState.working;
  owner = some 8;
  created_by = 7;
  created_at = 0;
  updated_at = 0;
  claimed_at = none;
  completed_at = none;
  blockers = [];
  version = 3;
  attempt = 0;
}

abbrev one_task : Store
one_task = record nothing {
  tasks = a_task ∷ [];
  verifications = record { task_id = 1; result = a_check test true; attempt = 0 } ∷ [];
}

abbrev a_deliverable : Deliverable
a_deliverable = record {
  task_id = 1;
  agent = 8;
  status = DeliverableStatus.complete;
  summary = codes "done";
  changed_scope = codes "src/a" ∷ [];
  artifacts = [];
  commit_or_diff = none;
  verification_performed = [];
  verification_results = a_check lint true ∷ [];
  remaining_risks = [];
  dependencies_unblocked = [];
  recommended_next_action = [];
  at = 5;
}

abbrev strict : SubmitOptions
strict = record { attempt = some 0; allow_unverified = false; waiver_reason = none }

abbrev delivered : Result (Deliverable × Store)
delivered = submit one_task a_deliverable strict 9

abbrev out_of : Result (Deliverable × Store) → Deliverable
out_of (ok (d, s)) = d
out_of (err code) = a_deliverable

abbrev store_of : Result (Deliverable × Store) → Store
store_of (ok (d, s)) = s
store_of (err code) = one_task

submit-HasPassed_example :
    (is_empty (out_of delivered).verification_results ≡ false)
    × All HasPassed (out_of delivered).verification_results
    × ((t : Task) × (get_task (store_of delivered) 1 ≡ some t) × (t.state ≡ TaskState.done))
    × (get_deliverable (store_of delivered) 1 ≡ some (out_of delivered))
unfolding submit valid_deliverable valid_result require_task get_task get assert_owner
    is_read_only_scope every_of is_read_only_pattern normalize_path strip_dot_slash collapse
    strip_slashes split_slash validate_all merge_evidence set_checks apply_terminal_state
    check_complete clear_blocker set_check validate_verification_result append_event
    insert_deliverable list_verifications results_of update_task replace upsert write
    finalize_deliverable finalize_hops can_transition deliverable_terminal_state
submit-HasPassed_example =
    submit-HasPassed one_task a_deliverable strict 9 (out_of delivered) (store_of delivered) refl
      refl refl

-- The store after the event that put the task to work.
abbrev logged : Store
logged = record one_task {
  events =
      record {
        event_id = 1;
        type = task_state_changed;
        task_id = some 1;
        agent = 8;
        at = 0;
        payload = transition none TaskState.working none;
        idempotency_key = none;
      }
      ∷ [];
}

logged-LogAgrees : LogAgrees logged
unfolding last_state get_task get
logged-LogAgrees = record {
  at = λ id. elim (Bool-cases (1 == id)) [ inl e ↦ rw e refl | inr e ↦ rw e refl ];
}

abbrev sent : Result (Deliverable × Store)
sent = submit logged a_deliverable strict 9

submit-LogAgrees_example : LogAgrees (store_of sent)
unfolding submit valid_deliverable valid_result require_task get_task get assert_owner
    is_read_only_scope every_of is_read_only_pattern normalize_path strip_dot_slash collapse
    strip_slashes split_slash validate_all merge_evidence set_checks apply_terminal_state
    check_complete clear_blocker set_check validate_verification_result append_event
    insert_deliverable list_verifications results_of update_task replace upsert write
    finalize_deliverable finalize_hops can_transition deliverable_terminal_state
submit-LogAgrees_example =
    submit-LogAgrees logged a_deliverable strict 9 (out_of sent) (store_of sent) logged-LogAgrees
      refl

find_check-merge_evidence_example :
    find_check
      (a_check test true)
      (merge_evidence (a_check test false ∷ a_check lint true ∷ []) (a_check test true ∷ []))
    ≡ or_else
        (last_check (a_check test true) (a_check test true ∷ []))
        (last_check (a_check test true) (a_check test false ∷ a_check lint true ∷ []))
find_check-merge_evidence_example =
    find_check-merge_evidence (a_check test true) (a_check test false ∷ a_check lint true ∷ [])
      (a_check test true ∷ [])
