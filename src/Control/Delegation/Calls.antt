-- ===== src/Control/Delegation/Calls.antt =====
-- delegation-operation.ts: histories of calls by several executors, and an authorization that opens one.
use mathlib.Core.Path.{subst}
use bidirectional_bridge_cla.Prelude.{
  Gives, ℕ, ◌≡◌, refl, ◌∙◌, Bool, true, false, not, ◌||◌, Option, none, some, List, [], ◌∷◌, ◌==◌,
  arith, is_some, if◌then◌else◌, Result, ok, err, ◌>>◌, throw_if, throw_if-passed, ok-ok,
  operation_in_progress, internal, or-false,
}
use bidirectional_bridge_cla.Protocol.Records.{
  TaskId, AgentId, TaskSpec, DelegationRequest, DelegationOutcome,
}
use bidirectional_bridge_cla.Control.Store.{
  Store, Artifact, DelegationPhase, DelegationOperation, get_operation, get_delegation_operation,
  put_delegation_operation, put_operation, is_operation,
}
use bidirectional_bridge_cla.Control.Delegation.{is_uncertain, authorize, finish}
use bidirectional_bridge_cla.Control.Delegation.Reserve.{ReserveCall, reserve_task}
use bidirectional_bridge_cla.Control.Delegation.Rows.{Launched, get_operation-put, get_operation-is}
use bidirectional_bridge_cla.Control.Delegation.Launch.{LaunchedAfter}

-- A call by some executor. Other services may do anything to the other tables.
pub data DelegationCall : Type 0 where
  reserves :
      (alive : (pid : ℕ) → Bool) (input : DelegationRequest) (existing : Option TaskId)
      (call : ReserveCall)
      → DelegationCall
  authorizes : (executor : ℕ) (operation : DelegationOperation) (now : ℕ) → DelegationCall
  finishes :
      (executor : ℕ) (operation : DelegationOperation) (outcome : DelegationOutcome) (now : ℕ)
      → DelegationCall
  elsewhere : (others : Store) → DelegationCall

abbrev pub kept_or {ℓ} : {A : Type ℓ} → Store → Result (A × Store) → Store
kept_or s (err code) = s
kept_or s (ok (answer, s1)) = s1

abbrev pub store_or : Store → Result Store → Store
store_or s (err code) = s
store_or s (ok s1) = s1

module _ (fingerprint : DelegationRequest → List Artifact → Option TaskId → ℕ)
    (spec_hash : TaskSpec → ℕ) where
  unfoldable pub run_delegation : DelegationCall → Store → Store
  run_delegation (reserves alive input existing call) s =
      kept_or s (reserve_task fingerprint spec_hash alive input existing call s)
  run_delegation (authorizes executor operation now) s =
      store_or s (authorize executor operation now s)
  run_delegation (finishes executor operation outcome now) s =
      kept_or s (finish executor operation outcome now s)
  run_delegation (elsewhere others) s = record others { operations = s.operations }

  unfoldable pub run_delegations : List DelegationCall → Store → Store
  unfolding run_delegation
  run_delegations [] s = s
  run_delegations (c ∷ cs) s = run_delegations cs (run_delegation c s)

pub kept_or-Launched :
    {A : Type 0} (executor : ℕ) (caller : AgentId) (key : ℕ) (s : Store) (r : Result (A × Store))
    → Launched executor caller key s.operations
    → Gives (LaunchedAfter executor caller key) r
    → Launched executor caller key (kept_or s r).operations
unfolding Gives
kept_or-Launched executor caller key s (err code) l h = l
kept_or-Launched executor caller key s (ok (answer, s1)) l h = h

pub store_or-Launched :
    (executor : ℕ) (caller : AgentId) (key : ℕ) (s : Store) (r : Result Store)
    → Launched executor caller key s.operations
    → Gives (λ s1. Launched executor caller key s1.operations) r
    → Launched executor caller key (store_or s r).operations
unfolding Gives
store_or-Launched executor caller key s (err code) l h = l
store_or-Launched executor caller key s (ok s1) l h = h

-- An executor that has been let to launch.
pub authorize-launches :
    (executor : ℕ) (operation : DelegationOperation) (now : ℕ) (s s1 : Store)
    → authorize executor operation now s ≡ ok s1
    → Launched executor operation.caller operation.key s1.operations
unfolding authorize get_delegation_operation put_delegation_operation
authorize-launches executor operation now s s1 h =
    of_row (get_operation operation.caller operation.key s.operations) refl h
  where
    of_row :
        (o : Option DelegationOperation)
        → get_operation operation.caller operation.key s.operations ≡ o
        → (elim o as (λ _. Result Store) [
          | none ↦ err internal
          | some current ↦
              (throw_if
                  (not (current.executor_id == executor)
                    || (is_some current.outcome || is_uncertain current.phase))
                  operation_in_progress
                >> ok (record s {
                  operations =
                      put_operation
                        (record current { phase = DelegationPhase.authorized; updated_at = now })
                        s.operations;
                }))
        ])
          ≡ ok s1
        → Launched executor operation.caller operation.key s1.operations
    of_row none e g = cc
    of_row (some row) e g =
        let (fine, same) =
          throw_if-passed
            (not (row.executor_id == executor) || (is_some row.outcome || is_uncertain row.phase))
            operation_in_progress _ g in
        let next : DelegationOperation = record row {
          phase = DelegationPhase.authorized;
          updated_at = now;
        } in
        subst (λ (t : Store). Launched executor operation.caller operation.key t.operations)
          (ok-ok same)
          (record {
            row = next;
            found =
                get_operation-put operation.caller operation.key next s.operations
                ∙ if-true (is_operation operation.caller operation.key next) (some next)
                    (get_operation operation.caller operation.key s.operations)
                    (get_operation-is operation.caller operation.key s.operations row e);
            begun = refl;
            mine = equal row.executor_id executor (or-false _ _ fine).0;
          })
      where
        equal : (a b : ℕ) → not (a == b) ≡ false → a ≡ b
        equal a b h = ground arith

        if-true :
            (b : Bool) (x y : Option DelegationOperation) → b ≡ true → (if b then x else y) ≡ x
        if-true true x y h = refl
        if-true false x y h = cc
