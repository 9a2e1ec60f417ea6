-- ===== src/Control/Delegation/Kept.antt =====
-- The other services leave the table of delegations alone.
use bidirectional_bridge_cla.Prelude.{
  Gives, Gives->>=, Gives-any, Gives-throw_if, ℕ, ◌+◌, ◌≡◌, refl, ap, ◌∙◌, inl, inr, not, Option,
  none, some, List, ◌==◌, Bool-cases, Option-cases, is_some, if◌then◌else◌, Result, ok, err, ◌>>◌,
  ◌||◌, throw_if, lease_invalid, not_owner, illegal_transition, invalid_argument,
  dependency_unsatisfied,
}
use bidirectional_bridge_cla.Protocol.Path.{Text}
use bidirectional_bridge_cla.Protocol.Lifecycle.{TaskState, same_state}
use bidirectional_bridge_cla.Protocol.Records.{
  TaskId, AgentId, LeaseId, RunId, Task, Lease, TaskSpec, DelegationRequest, EventType, Payload,
  lease_quarantined, quarantine_reason,
}
use bidirectional_bridge_cla.Control.Store.{
  Store, Phase, ExecutionRecord, DelegationOperation, get_task, put_execution, append_event,
  update_task, update_lease, get_lease, is_held, is_quarantined,
}
use bidirectional_bridge_cla.Control.Tasks.Guards.{
  require_task, assert_owner, assert_transition, write,
}
use bidirectional_bridge_cla.Control.Tasks.Dependencies.{satisfied}
use bidirectional_bridge_cla.Control.Tasks.Lineage.{CreateTaskInput, create_body}
use bidirectional_bridge_cla.Control.Tasks.Created.{create_body-Created}
use bidirectional_bridge_cla.Control.Tasks.Transitions.{block}
use bidirectional_bridge_cla.Control.Leases.Holding.{quarantine, require_lease, quarantined_lease}
use bidirectional_bridge_cla.Control.Executions.{update, assert_generation}
use bidirectional_bridge_cla.Control.Delegation.{
  stop_idle, quarantine_lease_of, quarantine_unknown, block_working, complete_request,
  launch_uncertain, set_phase, is_idle, stop_is_confirmed,
}
use bidirectional_bridge_cla.Control.Delegation.Reserve.{
  task_for, existing_task, creation_of, is_same_contract,
}

-- The delegations of a store.
unfoldable pub Kept : (before : List DelegationOperation) → Store → Type 0
Kept before s = s.operations ≡ before

abbrev pub KeptBy {ℓ} : {A : Type ℓ} → List DelegationOperation → A × Store → Type 0
KeptBy before p = Kept before p.1

given :
    {A : Type 0} (before : List DelegationOperation) (p : A × Store)
    → Kept before p.1
    → Gives (KeptBy before) (ok p)
unfolding Gives
given before p h = h

given_store :
    (before : List DelegationOperation) (s : Store) → Kept before s → Gives (Kept before) (ok s)
unfolding Gives
given_store before s h = h

kept : (s : Store) → Kept s.operations s
unfolding Kept
kept s = refl

Kept-trans :
    (before : List DelegationOperation) (s a : Store)
    → Kept s.operations a
    → Kept before s
    → Kept before a
unfolding Kept
Kept-trans before s a k h = k ∙ h

update_task-Kept : (s : Store) (task : Task) → Gives (Kept s.operations) (update_task s task)
unfolding update_task Gives Kept
update_task-Kept s task = elim (Option-cases (get_task s task.task_id)) [
  | inl e ↦ rw (e, Gives, update_task) tt
  | inr (row, e) ↦
      rw (e, Gives, update_task)
        (elim (Bool-cases (row.version + 1 == task.version)) [
          | inl f ↦ rw f refl
          | inr f ↦ rw f tt
        ])
]

pub append_event-Kept :
    (before : List DelegationOperation) (s : Store) (type : EventType) (task_id : TaskId)
    (agent : AgentId) (payload : Payload) (key : Option ℕ) (at : ℕ)
    → Kept before s
    → Kept before (append_event s type task_id agent payload key at)
unfolding append_event Kept
append_event-Kept before s type task_id agent payload key at h = h

update_lease-Kept : (s : Store) (lease : Lease) → Kept s.operations (update_lease s lease)
unfolding update_lease Kept
update_lease-Kept s lease = elim (Option-cases (get_lease s lease.lease_id)) [
  | inl e ↦ rw (e, Kept, update_lease) refl
  | inr (row, e) ↦ rw (e, Kept, update_lease) refl
]

write-Kept :
    (s : Store) (task : Task) (type : EventType) (agent : AgentId) (payload : Payload)
    (key : Option ℕ) (now : ℕ)
    → Gives (KeptBy s.operations) (write s task type agent payload key now)
unfolding write Gives
write-Kept s task type agent payload key now =
    Gives->>= (Kept s.operations) (KeptBy s.operations) (update_task s task) _
      (update_task-Kept s task)
      (λ s1 h. append_event-Kept s.operations s1 type task.task_id agent payload key now h)

pub block-Kept :
    (s : Store) (id : TaskId) (agent : AgentId) (why : Text) (now : ℕ)
    → Gives (KeptBy s.operations) (block s id agent why now)
unfolding block
block-Kept s id agent why now =
    Gives->>= _ _ (require_task s id) _ (Gives-any (require_task s id)) (λ found _.
      Gives->>= _ _ (assert_owner found agent) _ (Gives-any (assert_owner found agent)) (λ task _.
        Gives->>= _ _ (assert_transition task TaskState.blocked) _
          (Gives-any (assert_transition task TaskState.blocked))
          (λ _ _. write-Kept s _ _ agent _ none now)))

pub update-Kept :
    (s : Store) (e : ExecutionRecord) (patch : ExecutionRecord → ExecutionRecord) (now : ℕ)
    → Gives (KeptBy s.operations) (update s e patch now)
unfolding update put_execution Kept Gives
update-Kept s e patch now =
    Gives->>= (λ _. Unit) (KeptBy s.operations) (assert_generation s e) _
      (Gives-any (assert_generation s e)) (λ _ _. refl)

pub quarantine-Kept :
    (s : Store) (id : LeaseId) (holder : AgentId) (now : ℕ)
    → Gives (KeptBy s.operations) (quarantine s id holder now)
unfolding quarantine
quarantine-Kept s id holder now =
    Gives->>= _ _ (require_lease s id) _ (Gives-any (require_lease s id))
      (λ lease _. Gives-throw_if _ (not (lease.holder == holder)) not_owner _ (of_lease lease))
  where
    of_lease :
        (lease : Lease)
        → Gives (KeptBy s.operations) (
            if is_quarantined lease.state
            then ok (lease, s)
            else (throw_if (not (is_held lease.state)) lease_invalid
                >> ok (
                  quarantined_lease lease,
                  append_event
                      (update_lease s (quarantined_lease lease))
                      lease_quarantined
                      lease.task_id
                      holder
                      (quarantine_reason id)
                      none
                      now,
                )))
    of_lease lease = elim (Bool-cases (is_quarantined lease.state)) [
      | inl e ↦ rw e (given s.operations (lease, s) (kept s))
      | inr e ↦ rw e (
          Gives-throw_if _ (not (is_held lease.state)) lease_invalid _ (
            given s.operations _ (
              append_event-Kept s.operations _ lease_quarantined lease.task_id holder
                (quarantine_reason id) none now (update_lease-Kept s (quarantined_lease lease)))))
    ]

pub stop_idle-Kept :
    (s : Store) (e : Option ExecutionRecord) (now : ℕ)
    → Gives (Kept s.operations) (stop_idle s e now)
unfolding stop_idle
stop_idle-Kept s none now = given_store s.operations s (kept s)
stop_idle-Kept s (some e) now = elim (Bool-cases (is_idle e.phase e.runtime_stop_confirmed)) [
  | inl f ↦ rw f (
      Gives->>= _ _ (update s e (set_phase Phase.stopped) now) _
        (update-Kept s e (set_phase Phase.stopped) now) (λ p h. given_store s.operations p.1 h))
  | inr f ↦ rw f (given_store s.operations s (kept s))
]

quarantine_lease_of-Kept :
    (before : List DelegationOperation) (s : Store) (e : ExecutionRecord) (now : ℕ)
    → Kept before s
    → Gives (Kept before) (quarantine_lease_of s e now)
unfolding quarantine_lease_of
quarantine_lease_of-Kept before s e now h = elim (Option-cases e.lease_id) [
  | inl f ↦ rw f (given_store before s h)
  | inr (id, f) ↦ rw f (
      Gives->>= _ _ (quarantine s id e.agent now) _ (quarantine-Kept s id e.agent now)
        (λ p k. given_store before p.1 (Kept-trans before s p.1 k h)))
]

pub quarantine_unknown-Kept :
    (s : Store) (e : Option ExecutionRecord) (now : ℕ)
    → Gives (Kept s.operations) (quarantine_unknown s e now)
unfolding quarantine_unknown
quarantine_unknown-Kept s none now = given_store s.operations s (kept s)
quarantine_unknown-Kept s (some e) now =
    elim (Bool-cases (stop_is_confirmed e.runtime_stop_confirmed)) [
      | inl f ↦ rw f (given_store s.operations s (kept s))
      | inr f ↦ rw f (
          Gives->>= _ _ (update s e (set_phase Phase.quarantined) now) _
            (update-Kept s e (set_phase Phase.quarantined) now)
            (λ p h. quarantine_lease_of-Kept s.operations p.1 e now h))
    ]

pub block_working-Kept :
    (before : List DelegationOperation) (s : Store) (task : Task) (now : ℕ)
    → Kept before s
    → Gives (Kept before) (block_working s task now)
unfolding block_working
block_working-Kept before s task now h = elim (Option-cases task.owner) [
  | inl e ↦ rw e (given_store before s h)
  | inr (owner, e) ↦ rw e (elim (Bool-cases (same_state task.state TaskState.working)) [
    | inl f ↦ rw f (
        Gives->>= _ _ (block s task.task_id owner launch_uncertain now) _
          (block-Kept s task.task_id owner launch_uncertain now)
          (λ p k. given_store before p.1 (Kept-trans before s p.1 k h)))
    | inr f ↦ rw f (given_store before s h)
  ])
]

create_body-Kept :
    (input : CreateTaskInput) (fresh_id : TaskId) (fresh_run : RunId) (now : ℕ) (s : Store)
    → Gives (KeptBy s.operations) (create_body input fresh_id fresh_run now s)
unfolding Gives Kept append_event
create_body-Kept input fresh_id fresh_run now s =
    of_result (create_body input fresh_id fresh_run now s) refl
  where
    of_result :
        (r : Result (Task × Store))
        → create_body input fresh_id fresh_run now s ≡ r
        → Gives (KeptBy s.operations) r
    of_result (err code) e = tt
    of_result (ok (t, s1)) e =
        ap (λ (x : Store). x.operations)
          (create_body-Created input fresh_id fresh_run now s t s1 e).stored

pub task_for-Kept :
    (spec_hash : TaskSpec → ℕ) (input : DelegationRequest) (existing : Option TaskId)
    (fresh_id fresh_run now : ℕ) (s : Store)
    → Gives (KeptBy s.operations) (task_for spec_hash input existing fresh_id fresh_run now s)
unfolding task_for existing_task
task_for-Kept spec_hash input none fresh_id fresh_run now s =
    create_body-Kept (creation_of input (complete_request input none).spec) fresh_id fresh_run now s
task_for-Kept spec_hash input (some id) fresh_id fresh_run now s =
    Gives->>= _ _ (require_task s id) _ (Gives-any (require_task s id)) (λ task _.
      Gives-throw_if _ (not (same_state task.state TaskState.pending) || is_some task.owner)
        illegal_transition _
        (Gives-throw_if _ (not (is_same_contract spec_hash task input)) invalid_argument _ (
          Gives-throw_if _ (not (satisfied s id)) dependency_unsatisfied _
            (given s.operations (task, s) (kept s)))))
