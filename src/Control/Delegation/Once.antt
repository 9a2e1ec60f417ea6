-- ===== src/Control/Delegation/Once.antt =====
-- delegation-operation.ts: histories of calls by several executors, after one has been let to launch.
use mathlib.Core.Path.{subst}
use bidirectional_bridge_cla.Prelude.{
  Gives, Gives->>=, Gives-any, Gives-ok, Gives-throw_if, ℕ, ◌≡◌, ◌≢◌, refl, inl, inr, Bool, true,
  false, not, ◌||◌, Option, List, [], ◌∷◌, ◌==◌, arith, Bool-cases, is_some, ok, err,
  throw_if-thrown, invalid_argument, idempotency_mismatch, operation_in_progress,
}
use bidirectional_bridge_cla.Protocol.Records.{TaskId, AgentId, TaskSpec, DelegationRequest}
use bidirectional_bridge_cla.Control.Store.{
  Store, Artifact, DelegationOperation, get_delegation_operation, get_execution,
}
use bidirectional_bridge_cla.Control.Tasks.Guards.{require_task}
use bidirectional_bridge_cla.Control.Delegation.{
  Reservation, reserve_again, give_up, is_preparing, is_over, is_uncertain, is_bad_request,
  resolve_many, quarantine_unknown, block_working, authorize, finish,
}
use bidirectional_bridge_cla.Control.Delegation.Reserve.{
  ReserveCall, reserve_task, reserve_keyed, key_of,
}
use bidirectional_bridge_cla.Control.Delegation.Rows.{Launched}
use bidirectional_bridge_cla.Control.Delegation.Launch.{
  reserve_task-Launched, authorize-Launched, finish-Launched,
}
use bidirectional_bridge_cla.Control.Delegation.Calls.{
  DelegationCall, reserves, authorizes, finishes, elsewhere, run_delegation, run_delegations,
  kept_or-Launched, store_or-Launched, authorize-launches,
}

-- Another executor does not get an operation that has been launched.

reserve_again_refused :
    (alive : (pid : ℕ) → Bool) (executor : ℕ) (row : DelegationOperation) (hash other pid now : ℕ)
    (s : Store)
    → row.executor_id ≡ executor
    → is_preparing row.phase ≡ false
    → other ≢ executor
    → Gives
        (λ (p : Reservation × Store). p.0.owned ≡ false)
        (reserve_again alive row hash other pid now s)
unfolding reserve_again give_up
reserve_again_refused alive executor row hash other pid now s mine begun differs =
    Gives-throw_if _ (not (row.request_hash == hash)) idempotency_mismatch _
      (elim (Bool-cases (is_over row.phase)) [
        | inl e ↦ rw e (Gives-ok _ _ refl)
        | inr e ↦
            rw (e, not_same row.executor_id mine)
              (elim (Bool-cases (alive row.executor_pid)) [
                | inl g ↦ rw g (Gives-ok _ _ refl)
                | inr g ↦
                    rw (g, begun)
                      (Gives->>= _ _ (quarantine_unknown s (get_execution s row.task_id) now) _
                        (Gives-any _)
                        (λ s1 _.
                          Gives->>= _ _ (require_task s1 row.task_id) _ (Gives-any _) (λ task _.
                            Gives->>= _ _ (block_working s1 task now) _ (Gives-any _)
                              (λ s2 _. Gives-ok _ _ refl))))
              ])
      ])
  where
    not_same : (mine : ℕ) → mine ≡ executor → (mine == other) ≡ false
    not_same m h = ground arith

authorize_refused :
    (executor other : ℕ) (operation : DelegationOperation) (now : ℕ) (s : Store)
    → Launched executor operation.caller operation.key s.operations
    → other ≢ executor
    → authorize other operation now s ≡ err operation_in_progress
unfolding authorize get_delegation_operation
authorize_refused executor other operation now s l differs =
    rw (l.found, authorize)
      (throw_if-thrown
        (not (l.row.executor_id == other) || (is_some l.row.outcome || is_uncertain l.row.phase))
        operation_in_progress _ (foreign l.row.executor_id l.mine _))
  where
    foreign : (mine : ℕ) → mine ≡ executor → (b : Bool) → (not (mine == other) || b) ≡ true
    foreign m h b = ground arith

module _ (fingerprint : DelegationRequest → List Artifact → Option TaskId → ℕ)
    (spec_hash : TaskSpec → ℕ) where
  run_delegations-Launched :
      (executor : ℕ) (caller : AgentId) (key : ℕ) (calls : List DelegationCall) (s : Store)
      → Launched executor caller key s.operations
      → Launched executor caller key (run_delegations fingerprint spec_hash calls s).operations
  unfolding run_delegations run_delegation
  run_delegations-Launched executor caller key [] s l = l
  run_delegations-Launched executor caller key (reserves alive input existing call ∷ calls) s l =
      run_delegations-Launched executor caller key calls _ (
        kept_or-Launched executor caller key s
          (reserve_task fingerprint spec_hash alive input existing call s) l
          (reserve_task-Launched fingerprint spec_hash alive executor caller key input existing call
            s l))
  run_delegations-Launched executor caller key (authorizes other operation now ∷ calls) s l =
      run_delegations-Launched executor caller key calls _ (
        store_or-Launched executor caller key s (authorize other operation now s) l
          (authorize-Launched executor caller key other operation now s l))
  run_delegations-Launched executor caller key (finishes other operation outcome now ∷ calls) s l =
      run_delegations-Launched executor caller key calls _ (
        kept_or-Launched executor caller key s (finish other operation outcome now s) l
          (finish-Launched executor caller key other operation outcome now s l))
  run_delegations-Launched executor caller key (elsewhere others ∷ calls) s l =
      run_delegations-Launched executor caller key calls _ l

  reserve_task_refused :
      (alive : (pid : ℕ) → Bool) (executor : ℕ) (input : DelegationRequest)
      (existing : Option TaskId) (call : ReserveCall) (s : Store)
      → Launched executor input.from (key_of input call) s.operations
      → call.executor ≢ executor
      → Gives
          (λ (p : Reservation × Store). p.0.owned ≡ false)
          (reserve_task fingerprint spec_hash alive input existing call s)
  unfolding reserve_task reserve_keyed get_delegation_operation
  reserve_task_refused alive executor input existing call s l differs =
      Gives-throw_if _ (is_bad_request input) invalid_argument _ (
        Gives->>= _ _ (resolve_many s input.input_artifacts) _ (Gives-any _) (λ artifacts _.
          rw (l.found, reserve_keyed)
            (reserve_again_refused alive executor l.row _ call.executor call.pid call.now s l.mine
              l.begun differs)))

  -- Once an executor has been let to launch a delegation, no other executor is: whatever executors
  -- reserve, authorize and finish from then on, each call of them one step, whichever processes
  -- are alive, and whatever the other services do to the other tables, a reservation of the same
  -- caller and key by another executor that answers is not owned, and its authorization throws
  -- OPERATION_IN_PROGRESS.
  pub launch_once :
      (executor : ℕ) (operation : DelegationOperation) (now : ℕ) (s s1 : Store)
      (calls : List DelegationCall) (alive : (pid : ℕ) → Bool) (input : DelegationRequest)
      (existing : Option TaskId) (call : ReserveCall)
      → authorize executor operation now s ≡ ok s1
      → operation.caller ≡ input.from
      → operation.key ≡ key_of input call
      → call.executor ≢ executor
      → Gives
          (λ (p : Reservation × Store). p.0.owned ≡ false)
          (reserve_task fingerprint spec_hash alive input existing call
            (run_delegations fingerprint spec_hash calls s1))
        × (authorize call.executor operation call.now
              (run_delegations fingerprint spec_hash calls s1)
            ≡ err operation_in_progress)
  launch_once executor operation now s s1 calls alive input existing call h same_caller same_key
        differs =
      let l =
        run_delegations-Launched executor operation.caller operation.key calls s1
          (authorize-launches executor operation now s s1 h) in
      (
        reserve_task_refused alive executor input existing call _
            (subst
              (λ k.
                Launched executor input.from k
                  (run_delegations fingerprint spec_hash calls s1).operations)
              same_key
              (subst
                (λ c.
                  Launched executor c operation.key
                    (run_delegations fingerprint spec_hash calls s1).operations)
                same_caller l))
            differs,
        authorize_refused executor call.executor operation call.now _ l differs,
      )
