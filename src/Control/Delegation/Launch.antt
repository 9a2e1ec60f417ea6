-- ===== src/Control/Delegation/Launch.antt =====
-- delegation-operation.ts: no operation takes a delegation from the executor that has been let to
-- launch it.
use mathlib.Core.Path.{subst}
use bidirectional_bridge_cla.Prelude.{
  Gives, Gives->>=, Gives-any, Gives-err, Gives-ok, Gives-throw_if, ℕ, ◌≡◌, refl, sym, inl, inr,
  Bool, true, false, not, ◌||◌, Option, none, some, List, ◌==◌, Bool-cases, Option-cases, is_some,
  ok, invalid_argument, idempotency_mismatch, operation_in_progress, internal,
}
use bidirectional_bridge_cla.Protocol.Records.{
  TaskId, AgentId, TaskSpec, DelegationRequest, DelegationOutcome,
}
use bidirectional_bridge_cla.Control.Store.{
  Store, Artifact, DelegationOperation, is_operation, get_operation, get_delegation_operation,
  put_delegation_operation, get_execution,
}
use bidirectional_bridge_cla.Control.Tasks.Guards.{require_task}
use bidirectional_bridge_cla.Control.Delegation.{
  Reservation, reserve_again, take_over, give_up, is_preparing, is_over, is_uncertain,
  is_bad_request, resolve_many, complete_request, stop_idle, quarantine_unknown, block_working,
  authorize, finish,
}
use bidirectional_bridge_cla.Control.Delegation.Reserve.{
  ReserveCall, reserve_task, reserve_keyed, reserve_new, key_of, requested_event, task_for,
}
use bidirectional_bridge_cla.Control.Delegation.Kept.{
  Kept, stop_idle-Kept, quarantine_unknown-Kept, block_working-Kept, task_for-Kept,
  append_event-Kept,
}
use bidirectional_bridge_cla.Control.Delegation.Rows.{
  Launched, put_operation-Launched, same_row, unlaunched,
}

-- The answer of a call leaves the operation launched.
abbrev pub LaunchedAfter {ℓ} : {A : Type ℓ} → ℕ → AgentId → ℕ → A × Store → Type 0
LaunchedAfter executor caller key p = Launched executor caller key p.1.operations

answered :
    (executor : ℕ) (caller : AgentId) (key : ℕ) (p : Reservation × Store)
    → Launched executor caller key p.1.operations
    → Gives (LaunchedAfter executor caller key) (ok p)
unfolding Gives
answered executor caller key p l = l

-- A row is put after other services have been called.
put-LaunchedAfter :
    (executor : ℕ) (caller : AgentId) (key : ℕ) (s s1 : Store) (reservation : Reservation)
    (r : DelegationOperation)
    → Launched executor caller key s.operations
    → Kept s.operations s1
    → (is_operation caller key r ≡ true
        → (is_preparing r.phase ≡ false) × (r.executor_id ≡ executor))
    → Gives (LaunchedAfter executor caller key) (ok (reservation, put_delegation_operation s1 r))
unfolding Gives Kept put_delegation_operation
put-LaunchedAfter executor caller key s s1 reservation r l kept h =
    put_operation-Launched executor caller key s1.operations r h
      (subst (Launched executor caller key) (sym kept) l)

module _ (executor : ℕ) (caller : AgentId) (key : ℕ) where
  take_over-Launched :
      (existing : DelegationOperation) (other pid now : ℕ) (s : Store) (from : AgentId) (name : ℕ)
      → get_operation from name s.operations ≡ some existing
      → Launched executor caller key s.operations
      → is_preparing existing.phase ≡ true
      → Gives (LaunchedAfter executor caller key) (take_over existing other pid now s)
  unfolding take_over
  take_over-Launched existing other pid now s from name got l p =
      Gives->>= _ _ (stop_idle s (get_execution s existing.task_id) now) _
        (stop_idle-Kept s (get_execution s existing.task_id) now)
        (λ s1 kept. put-LaunchedAfter executor caller key s s1 _ _ l kept (λ h.
          absurd (clash (same_row executor caller key s.operations from name existing l got h).0)))
    where
      clash : is_preparing existing.phase ≡ false → ⊥
      clash q = cc

  give_up-Launched :
      (existing : DelegationOperation) (now : ℕ) (s : Store) (from : AgentId) (name : ℕ)
      → get_operation from name s.operations ≡ some existing
      → Launched executor caller key s.operations
      → Gives (LaunchedAfter executor caller key) (give_up existing now s)
  unfolding give_up
  give_up-Launched existing now s from name got l =
      Gives->>= _ _ (quarantine_unknown s (get_execution s existing.task_id) now) _
        (quarantine_unknown-Kept s (get_execution s existing.task_id) now)
        (λ s1 kept.
          Gives->>= _ _ (require_task s1 existing.task_id) _
            (Gives-any (require_task s1 existing.task_id))
            (λ task _.
              Gives->>= _ _ (block_working s1 task now) _
                (block_working-Kept s.operations s1 task now kept)
                (λ s2 kept2. put-LaunchedAfter executor caller key s s2 _ _ l kept2 (λ h. (
                  refl,
                  (same_row executor caller key s.operations from name existing l got h).1,
                )))))

module _ (alive : (pid : ℕ) → Bool) (executor : ℕ) (caller : AgentId) (key : ℕ) where
  reserve_again-Launched :
      (existing : DelegationOperation) (hash other pid now : ℕ) (s : Store) (from : AgentId)
      (name : ℕ)
      → get_operation from name s.operations ≡ some existing
      → Launched executor caller key s.operations
      → Gives
          (LaunchedAfter executor caller key)
          (reserve_again alive existing hash other pid now s)
  unfolding reserve_again take_over give_up
  reserve_again-Launched existing hash other pid now s from name got l =
      Gives-throw_if _ (not (existing.request_hash == hash)) idempotency_mismatch _
        (elim (Bool-cases (is_over existing.phase)) [
          | inl e ↦ rw e (answered executor caller key _ l)
          | inr e ↦ rw e (elim (Bool-cases (existing.executor_id == other)) [
            | inl f ↦ rw f (answered executor caller key _ l)
            | inr f ↦ rw f (elim (Bool-cases (alive existing.executor_pid)) [
              | inl g ↦ rw g (answered executor caller key _ l)
              | inr g ↦ rw g (elim (Bool-cases (is_preparing existing.phase)) [
                | inl p ↦ rw p (
                    take_over-Launched executor caller key existing other pid now s from name got l
                      p)
                | inr p ↦ rw p (give_up-Launched executor caller key existing now s from name got l)
              ])
            ])
          ])
        ])

module _ (fingerprint : DelegationRequest → List Artifact → Option TaskId → ℕ)
    (spec_hash : TaskSpec → ℕ) (alive : (pid : ℕ) → Bool) (executor : ℕ) (caller : AgentId)
    (key : ℕ) where
  reserve_new-Launched :
      (input : DelegationRequest) (existing : Option TaskId) (hash : ℕ) (call : ReserveCall)
      (s : Store)
      → get_operation input.from (key_of input call) s.operations ≡ none
      → Launched executor caller key s.operations
      → Gives
          (LaunchedAfter executor caller key)
          (reserve_new fingerprint spec_hash alive input existing hash call s)
  unfolding reserve_new
  reserve_new-Launched input existing hash call s missing l =
      Gives->>= _ _ (task_for spec_hash input existing call.fresh_id call.fresh_run call.now s) _
        (task_for-Kept spec_hash input existing call.fresh_id call.fresh_run call.now s)
        (λ p kept.
          put-LaunchedAfter executor caller key s
            (requested_event input (complete_request input existing) p.0 call.now p.1) _ _ l
            (append_event-Kept s.operations p.1 _ _ _ _ _ _ kept)
            (λ h. absurd (
              unlaunched executor caller key s.operations input.from (key_of input call) l missing
                h)))

  reserve_keyed-Launched :
      (input : DelegationRequest) (existing : Option TaskId) (hash : ℕ) (call : ReserveCall)
      (s : Store)
      → Launched executor caller key s.operations
      → Gives
          (LaunchedAfter executor caller key)
          (reserve_keyed fingerprint spec_hash alive input existing hash call s)
  unfolding reserve_keyed get_delegation_operation
  reserve_keyed-Launched input existing hash call s l =
      elim (Option-cases (get_operation input.from (key_of input call) s.operations)) [
        | inl e ↦ rw (e, reserve_keyed) (reserve_new-Launched input existing hash call s e l)
        | inr (row, e) ↦
            rw (e, reserve_keyed)
              (reserve_again-Launched alive executor caller key row hash call.executor call.pid
                call.now s input.from (key_of input call) e l)
      ]

  pub reserve_task-Launched :
      (input : DelegationRequest) (existing : Option TaskId) (call : ReserveCall) (s : Store)
      → Launched executor caller key s.operations
      → Gives
          (LaunchedAfter executor caller key)
          (reserve_task fingerprint spec_hash alive input existing call s)
  unfolding reserve_task
  reserve_task-Launched input existing call s l =
      Gives-throw_if _ (is_bad_request input) invalid_argument _ (
        Gives->>= _ _ (resolve_many s input.input_artifacts) _
          (Gives-any (resolve_many s input.input_artifacts))
          (λ artifacts _. reserve_keyed-Launched input existing _ call s l))

-- The other two operations.

pub authorize-Launched :
    (executor : ℕ) (caller : AgentId) (key other : ℕ) (operation : DelegationOperation) (now : ℕ)
    (s : Store)
    → Launched executor caller key s.operations
    → Gives (λ s1. Launched executor caller key s1.operations) (authorize other operation now s)
unfolding authorize get_delegation_operation put_delegation_operation
authorize-Launched executor caller key other operation now s l =
    elim (Option-cases (get_operation operation.caller operation.key s.operations)) [
      | inl e ↦ rw (e, authorize) (Gives-err _ internal)
      | inr (row, e) ↦
          rw (e, authorize)
            (Gives-throw_if _
              (not (row.executor_id == other) || (is_some row.outcome || is_uncertain row.phase))
              operation_in_progress _
              (Gives-ok (λ s1. Launched executor caller key s1.operations) _
                (put_operation-Launched executor caller key s.operations _
                  (λ h. (
                    refl,
                    (same_row executor caller key s.operations operation.caller operation.key row l
                        e h).1,
                  ))
                  l)))
    ]

pub finish-Launched :
    (executor : ℕ) (caller : AgentId) (key other : ℕ) (operation : DelegationOperation)
    (outcome : DelegationOutcome) (now : ℕ) (s : Store)
    → Launched executor caller key s.operations
    → Gives (LaunchedAfter executor caller key) (finish other operation outcome now s)
unfolding finish get_delegation_operation put_delegation_operation
finish-Launched executor caller key other operation outcome now s l =
    elim (Option-cases (get_operation operation.caller operation.key s.operations)) [
      | inl e ↦ rw (e, finish) (Gives-err _ internal)
      | inr (row, e) ↦
          rw (e, finish)
            (elim (Option-cases row.outcome) [
              | inr (earlier, f) ↦
                  rw f (Gives-ok (LaunchedAfter executor caller key) (earlier, s) l)
              | inl f ↦ rw f (
                  Gives-throw_if _ (not (row.executor_id == other)) operation_in_progress _ (
                    Gives-ok (LaunchedAfter executor caller key) _ (
                      put_operation-Launched executor caller key s.operations _
                        (λ h. (
                          refl,
                          (same_row executor caller key s.operations operation.caller operation.key
                              row l e h).1,
                        ))
                        l)))
            ])
    ]
