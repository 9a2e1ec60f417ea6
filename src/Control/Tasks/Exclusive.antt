-- ===== src/Control/Tasks/Exclusive.antt =====
-- task-service.ts: one owner at a time.
use mathlib.Core.Path.{subst}
use bidirectional_bridge_cla.Prelude.{
  ℕ, ◌≡◌, ◌≢◌, refl, sym, ap, ◌∙◌, inl, inr, Bool, true, false, not, ◌&&◌, ◌⊎◌, Option, Result,
  none, some, arith, is, is_some, ok, err, >>=-eq-ok, throw_if, Bool-cases, ==_refl, not_owner,
  dependency_unsatisfied,
}
use bidirectional_bridge_cla.Protocol.Lifecycle.{TaskState, same_state, can_transition}
use bidirectional_bridge_cla.Protocol.Scope.{kept_note}
use bidirectional_bridge_cla.Protocol.Records.{
  TaskId, AgentId, Task, task_claimed, task_state_changed, transition,
}
use bidirectional_bridge_cla.Control.Store.{
  Store, get_task, append_event, get_idempotency, put_idempotency, IdempotencyRecord, task_claim,
}
use bidirectional_bridge_cla.Control.Store.Laws.{with_task, get_task-key}
use bidirectional_bridge_cla.Control.Idempotency.{
  IdempotentOptions, Outcome, unkeyed, replayed, ran, run_idempotent-Outcome,
}
use bidirectional_bridge_cla.Control.Idempotency.Refused.{Replays, refused-Replays}
use bidirectional_bridge_cla.Control.Tasks.Guards.{require_task, assert_transition, write}
use bidirectional_bridge_cla.Control.Tasks.Ownership.{
  owned_by_other, claimed_task, claim_body, claim,
}
use bidirectional_bridge_cla.Control.Tasks.Dependencies.{satisfied}
use bidirectional_bridge_cla.Control.Tasks.Transitions.{
  TransitionInput, transition_body, moved_task,
}
use bidirectional_bridge_cla.Control.Tasks.Steps.{
  Writes, ok-pair, require_task-found, require_task-ok, assert_owner-ok, assert_transition-legal,
  write-Writes, write-ok,
}
use bidirectional_bridge_cla.Control.Tasks.Calls.{read_back}

-- The row after an accepted claim.
pub claim_body-owner :
    (id : TaskId) (agent : AgentId) (key : Option ℕ) (now : ℕ) (s : Store) (t : Task) (s' : Store)
    → claim_body id agent key now s ≡ ok (t, s')
    → (get_task s' id ≡ some t) × (is t.owner agent ≡ true)
unfolding claim_body
claim_body-owner id agent key now s t s' h =
    let (task, e, h1) = >>=-eq-ok (require_task s id) _ h in
    let (found, same) = require_task-found s id task e in
    let (_, _, h2) = >>=-eq-ok (throw_if (owned_by_other task agent) not_owner) _ h1 in
    elim (Bool-cases (is task.owner agent && not (same_state task.state TaskState.pending))) [
      | inl c ↦
          let (x, y) = ok-pair (rw c at h2) in
          (
            ap (λ z. get_task z id) (sym y) ∙ found ∙ ap some x,
            subst (λ z. is z.owner agent ≡ true) x (owner_test _ _ c),
          )
      | inr c ↦
          let (u, a, h3) = >>=-eq-ok (assert_transition task TaskState.claimed) _ (rw c at h2) in
          let (x, w) =
            write-Writes s task (claimed_task task agent now) task_claimed agent _ key now t s'
              (ap (get_task s) same ∙ found) refl
              (inl (assert_transition-legal task TaskState.claimed u a)) refl h3 in
          (
            ap (get_task s') (sym same)
                ∙ read_back s task (claimed_task task agent now) s' w
                ∙ ap some (sym x),
            subst (λ z. is z.owner agent ≡ true) (sym x) (==_refl agent),
          )
    ]
  where
    owner_test : (a b : Bool) → (a && b) ≡ true → a ≡ true
    owner_test a b h = ground arith

owned-refused :
    (id : TaskId) (a b : AgentId) (key : Option ℕ) (now : ℕ) (s : Store) (t : Task)
    → (get_task s id ≡ some t) × (is t.owner a ≡ true)
    → a ≢ b
    → claim_body id b key now s ≡ err not_owner
unfolding claim_body
owned-refused id a b key now s t (found, mine) differ =
    rw (require_task-ok s id t found, other t.owner mine)
  where
    other : (o : Option AgentId) → is o a ≡ true → (is_some o && not (is o b)) ≡ true
    other none h = ground arith
    other (some x) h = ground arith

-- The key of a call is new to the store.
abbrev pub IsNew : Option ℕ → Store → Type 0
IsNew key s = (k : ℕ) → key ≡ some k → get_idempotency s k ≡ none

get_task-put_idempotency :
    (s : Store) (r : IdempotencyRecord) (id : TaskId)
    → get_task (put_idempotency s r) id ≡ get_task s id
unfolding put_idempotency get_task
get_task-put_idempotency s r id = elim (Bool-cases (is_some (get_idempotency s r.key))) [
  | inl e ↦ rw e refl
  | inr e ↦ rw e refl
]

-- The row after an accepted claim under a key, when the claim is not the replay of an older one.
claim-owner :
    (hash : TaskId → AgentId → ℕ) (seen : Store) (id : TaskId) (agent : AgentId) (key : Option ℕ)
    (now : ℕ) (s : Store) (t : Task) (s' : Store)
    → IsNew key seen
    → IsNew key s
    → claim hash seen id agent key now s ≡ ok (t, s')
    → (get_task s' id ≡ some t) × (is t.owner agent ≡ true)
unfolding claim
claim-owner hash seen id agent key now s t s' fresh fresh' h =
    by_outcome (run_idempotent-Outcome seen opts now body s t s' h)
  where
    opts : IdempotentOptions
    opts = record { key = key; operation = task_claim; request_hash = hash id agent }

    body : Store → Result (Task × Store)
    body = claim_body id agent key now

    nothing_there : (r : IdempotencyRecord) → none ≡ some r → ⊥
    nothing_there r e = cc

    by_outcome :
        Outcome seen opts now body s t s' → (get_task s' id ≡ some t) × (is t.owner agent ≡ true)
    by_outcome (unkeyed _ f) = claim_body-owner id agent key now s t s' f
    by_outcome (replayed k r e (inl g) f) = absurd (nothing_there r (sym (fresh k e) ∙ g))
    by_outcome (replayed k r e (inr g) f) = absurd (nothing_there r (sym (fresh' k e) ∙ g))
    by_outcome (ran k s1 e _ f g) =
        let (found, mine) = claim_body-owner id agent key now s t s1 f in
        (ap (λ x. get_task x id) g ∙ get_task-put_idempotency s1 _ id ∙ found, mine)

-- After one agent's claim of a task has been accepted under no key, or under a key that neither of
-- its two reads of the store found in use, the claim of any other agent that comes next is refused
-- with NOT_OWNER, unless the other agent's key is in use, in the store at that claim's first read
-- or in its transaction: then it is answered from the record of the key, with
-- IDEMPOTENCY_MISMATCH, or, if the record is of a claim with the same request hash, with the
-- response that the record holds, and the store is left alone.
pub claim_exclusive :
    (hash : TaskId → AgentId → ℕ) (id : TaskId) (a b : AgentId) (key key' : Option ℕ)
    (now later : ℕ) (seen s : Store) (t : Task) (s' seen' : Store)
    → IsNew key seen
    → IsNew key s
    → claim hash seen id a key now s ≡ ok (t, s')
    → a ≢ b
    → (claim hash seen' id b key' later s' ≡ err not_owner)
      ⊎ Replays seen' s'
          (record { key = key'; operation = task_claim; request_hash = hash id b })
          (claim hash seen' id b key' later s')
unfolding claim
claim_exclusive hash id a b key key' now later seen s t s' seen' fresh fresh' h differ =
    refused-Replays seen' _ later (claim_body id b key' later) s' not_owner (
      owned-refused id a b key' later s' t
        (claim-owner hash seen id a key now s t s' fresh fresh' h) differ)

-- A transition of a CLAIMED task to PENDING that its owner asks for is accepted, and leaves the
-- owner in place.
pub transition_keeps_owner :
    (s : Store) (input : TransitionInput) (now : ℕ) (task : Task)
    → get_task s input.task_id ≡ some task
    → task.owner ≡ some input.agent
    → task.state ≡ TaskState.claimed
    → input.to ≡ TaskState.pending
    → (t : Task) × (s' : Store) × (transition_body input now s ≡ ok (t, s'))
      × (t.state ≡ TaskState.pending)
      × (t.owner ≡ some input.agent)
      × (get_task s' input.task_id ≡ some t)
unfolding transition_body assert_transition can_transition
transition_keeps_owner s input now task found owner state to = (
  moved,
  after,
  accepted,
  to,
  owner,
  ap (get_task after) (sym same) ∙ read_back s task moved after written,
)
  where
    moved : Task
    moved = moved_task task input.to now

    after : Store
    after =
        append_event (with_task s moved) task_state_changed task.task_id input.agent
          (transition (some task.state) input.to (kept_note input.why)) input.idempotency_key now

    differ : same_state task.state input.to ≡ false
    differ = ap (λ x. same_state x input.to) state ∙ ap (same_state TaskState.claimed) to

    legal : can_transition task.state input.to ≡ true
    legal = ap (λ x. can_transition x input.to) state ∙ ap (can_transition TaskState.claimed) to

    no_gate :
        throw_if
          (same_state input.to TaskState.working && not (satisfied s input.task_id))
          dependency_unsatisfied
        ≡ ok tt
    no_gate =
        ap
          (λ x.
            throw_if (same_state x TaskState.working && not (satisfied s input.task_id))
              dependency_unsatisfied)
          to

    same : task.task_id ≡ input.task_id
    same = get_task-key s input.task_id task found

    stored :
        write s moved task_state_changed input.agent
          (transition (some task.state) input.to (kept_note input.why))
          input.idempotency_key
          now
        ≡ ok (moved, after)
    stored =
        write-ok s task moved task_state_changed input.agent _ input.idempotency_key now
          (ap (get_task s) same ∙ found) refl refl

    written : Writes s task moved after
    written =
        (write-Writes s task moved task_state_changed input.agent _ input.idempotency_key now moved
          after (ap (get_task s) same ∙ found) refl (inl legal) refl stored).1

    accepted : transition_body input now s ≡ ok (moved, after)
    accepted =
        rw
          (
            require_task-ok s input.task_id task found,
            assert_owner-ok task input.agent owner,
            differ,
            legal,
            no_gate,
          )
          stored
