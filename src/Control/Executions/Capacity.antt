-- ===== src/Control/Executions/Capacity.antt =====
-- execution-service.ts: how many executions of an agent take a place at one time.
use bidirectional_bridge_cla.Prelude.{
  ℕ, ◌≤◌, ◌≡◌, ◌⊎◌, refl, inl, inr, Bool, true, false, ◌&&◌, ◌||◌, Option, none, some, List, [],
  ◌∷◌, All, arith, ◌==◌, Bool-cases, or-false, Option-cases,
}
use bidirectional_bridge_cla.Protocol.Records.{TaskId, AgentId, Lease}
use bidirectional_bridge_cla.Control.Table.{get, upsert}
use bidirectional_bridge_cla.Control.Table.Counts.{
  point-true, point-false, point_le, count, count-upsert-old, count-upsert-le, Unique,
  Unique-upsert, All-upsert,
}
use bidirectional_bridge_cla.Control.Table.Snapshot.{
  Stored, Stored-upsert, Stored-self, Stored-filter, Unique-filter,
}
use bidirectional_bridge_cla.Control.Store.{
  Store, Phase, get_lease, ExecutionRecord, put_execution, list_executions, append_event,
  update_lease, is_held,
}
use bidirectional_bridge_cla.Control.Leases.{stop_confirmed}
use bidirectional_bridge_cla.Control.Executions.{
  is_queued, is_occupying, is_running, is_over, is_passed_over, stop_record, quarantine_record,
  release_held, quarantine_held, lease_of, reconcile_one, reconcile_all, reconcile_executors,
}

abbrev pub task_key : ExecutionRecord → TaskId
task_key e = e.task_id

-- An execution of the agent that takes a place.
abbrev pub takes_place : AgentId → ExecutionRecord → Bool
takes_place agent e = e.agent == agent && is_occupying e.phase

abbrev pub Fits : AgentId → ℕ → ExecutionRecord → Type 0
Fits agent limit e = e.agent ≡ agent → is_queued e.phase ≡ true → e.max_concurrency ≤ limit

-- One execution for a task, none in the queue of the agent that asks for more than `limit`, and
-- `limit` places taken at most.
pub record Within (agent : AgentId) (limit : ℕ) (es : List ExecutionRecord) : Type 0 where
  pub unique : Unique task_key es
  pub fits : All (Fits agent limit) es
  pub places : count (takes_place agent) es ≤ limit

module _ (agent : AgentId) (limit : ℕ) where
  -- A write that takes no place which the old row of the task has not taken.
  pub put-Within :
      (e : ExecutionRecord) (es : List ExecutionRecord)
      → Within agent limit es
      → Fits agent limit e
      → (takes_place agent e ≡ false)
        ⊎ ((old : ExecutionRecord) × (get task_key e.task_id es ≡ some old)
            × (takes_place agent old ≡ true))
      → Within agent limit (upsert task_key e es)
  put-Within e es w f p = record {
    unique = Unique-upsert task_key e es w.unique;
    fits = All-upsert task_key (Fits agent limit) e es w.fits f;
    places = room p;
  }
    where
      room :
          (takes_place agent e ≡ false)
            ⊎ ((old : ExecutionRecord) × (get task_key e.task_id es ≡ some old)
                × (takes_place agent old ≡ true))
          → count (takes_place agent) (upsert task_key e es) ≤ limit
      room (inl free) = omega (
        arith,
        count-upsert-le task_key (takes_place agent) e es w.unique,
        w.places,
        point-false (takes_place agent) e free,
      )
      room (inr (old, g, t)) = omega (
        arith,
        count-upsert-old task_key (takes_place agent) e old es w.unique g,
        w.places,
        point-true (takes_place agent) old t,
        point_le (takes_place agent) e,
      )

update_lease-executions : (s : Store) (l : Lease) → (update_lease s l).executions ≡ s.executions
unfolding update_lease
update_lease-executions s l = elim (Option-cases (get_lease s l.lease_id)) [
  | inl e ↦ rw (update_lease, e) refl
  | inr (row, e) ↦ rw (update_lease, e) refl
]

release_held-executions :
    (lease : Option Lease) (e : ExecutionRecord) (now : ℕ) (s : Store)
    → (release_held lease e now s).executions ≡ s.executions
unfolding append_event
release_held-executions none e now s = refl
release_held-executions (some lease) e now s = elim (Bool-cases (is_held lease.state)) [
  | inl h ↦ rw h (update_lease-executions s _)
  | inr h ↦ rw h refl
]

quarantine_held-executions :
    (lease : Option Lease) (e : ExecutionRecord) (now : ℕ) (s : Store)
    → (quarantine_held lease e now s).executions ≡ s.executions
unfolding append_event
quarantine_held-executions none e now s = refl
quarantine_held-executions (some lease) e now s = elim (Bool-cases (is_held lease.state)) [
  | inl h ↦ rw h (update_lease-executions s _)
  | inr h ↦ rw h refl
]

-- What a round of the reconciliation leaves in the table: the row as it was, the execution
-- stopped, or, if it was running, the execution in quarantine.
pub data Reconciled (now : ℕ) (e : ExecutionRecord) (es es' : List ExecutionRecord) : Type 0 where
  kept : es' ≡ es → Reconciled now e es es'
  ended : es' ≡ upsert task_key (stop_record e now) es → Reconciled now e es es'
  lost :
      is_running e.phase ≡ true
      → es' ≡ upsert task_key (quarantine_record e now) es
      → Reconciled now e es es'

not_passed-running :
    (p : Phase) (rest : Bool)
    → (is_over p || rest) ≡ false
    → is_queued p ≡ false
    → is_running p ≡ true
not_passed-running Phase.running rest h q = refl
not_passed-running Phase.queued rest h q = cc
not_passed-running Phase.stopped rest h q = cc
not_passed-running Phase.quarantined rest h q = cc

reconcile_one-Reconciled :
    (alive : (pid : ℕ) → Bool) (now : ℕ) (e : ExecutionRecord) (s : Store)
    → Reconciled now e s.executions (reconcile_one alive now e s).executions
unfolding reconcile_one put_execution
reconcile_one-Reconciled alive now e s = elim (Bool-cases (is_passed_over alive e)) [
  | inl over ↦ rw over (kept refl)
  | inr dead ↦ elim (Bool-cases (is_queued e.phase || stop_confirmed e.runtime_stop_confirmed)) [
    | inl safe ↦ rw (dead, safe) (ended (release_held-executions (lease_of s e) e now _))
    | inr unsure ↦
        rw (dead, unsure)
          (lost (not_passed-running e.phase _ dead (or-false _ _ unsure).0)
            (quarantine_held-executions (lease_of s e) e now _))
  ]
]

Stored-Reconciled :
    (now : ℕ) (e : ExecutionRecord) (snapshot es es' : List ExecutionRecord)
    → get task_key e.task_id snapshot ≡ none
    → Stored task_key snapshot es
    → Reconciled now e es es'
    → Stored task_key snapshot es'
Stored-Reconciled now e snapshot es es' u h (kept q) = rw q h
Stored-Reconciled now e snapshot es es' u h (ended q) =
    rw q (Stored-upsert task_key (stop_record e now) snapshot es u h)
Stored-Reconciled now e snapshot es es' u h (lost running q) =
    rw q (Stored-upsert task_key (quarantine_record e now) snapshot es u h)

pub and_false : (b : Bool) → (b && false) ≡ false
and_false true = refl
and_false false = refl

running-occupying : (p : Phase) → is_running p ≡ true → is_occupying p ≡ true
running-occupying Phase.running h = refl
running-occupying Phase.queued h = cc
running-occupying Phase.stopped h = cc
running-occupying Phase.quarantined h = cc

-- An execution that runs takes its place already.
quarantine-place :
    (agent : AgentId) (e : ExecutionRecord) (now : ℕ)
    → is_running e.phase ≡ true
    → (takes_place agent (quarantine_record e now) ≡ false) ⊎ (takes_place agent e ≡ true)
quarantine-place agent e now running = elim (Bool-cases (e.agent == agent)) [
  | inl a ↦ inr (rw (a, running-occupying e.phase running) refl)
  | inr a ↦ inl (rw a refl)
]

module _ (agent : AgentId) (limit : ℕ) where
  Within-Reconciled :
      (now : ℕ) (e : ExecutionRecord) (es es' : List ExecutionRecord)
      → get task_key e.task_id es ≡ some e
      → Within agent limit es
      → Reconciled now e es es'
      → Within agent limit es'
  Within-Reconciled now e es es' h w (kept q) = rw q w
  Within-Reconciled now e es es' h w (ended q) = rw q (
      put-Within agent limit (stop_record e now) es w (λ a b. absurd (cc))
        (inl (and_false (e.agent == agent))))
  Within-Reconciled now e es es' h w (lost running q) = rw q (
      put-Within agent limit (quarantine_record e now) es w (λ a b. absurd (cc))
        (place (quarantine-place agent e now running)))
    where
      place :
          (takes_place agent (quarantine_record e now) ≡ false) ⊎ (takes_place agent e ≡ true)
          → (takes_place agent (quarantine_record e now) ≡ false)
            ⊎ ((old : ExecutionRecord) × (get task_key e.task_id es ≡ some old)
                × (takes_place agent old ≡ true))
      place (inl free) = inl free
      place (inr taken) = inr (e, h, taken)

-- What a table of executions keeps under each round of the reconciliation, it keeps under all.
module _ (P : List ExecutionRecord → Type 0)
    (unique : (es : List ExecutionRecord) → P es → Unique task_key es)
    (round : (now : ℕ) (e : ExecutionRecord) (es es' : List ExecutionRecord)
      → get task_key e.task_id es ≡ some e
      → P es
      → Reconciled now e es es'
      → P es') where
  reconcile_all-keeps :
      (alive : (pid : ℕ) → Bool) (now : ℕ) (snapshot : List ExecutionRecord) (s : Store)
      → Unique task_key snapshot
      → Stored task_key snapshot s.executions
      → P s.executions
      → P (reconcile_all alive now snapshot s).executions
  unfolding reconcile_all Unique
  reconcile_all-keeps alive now [] s u h w = w
  reconcile_all-keeps alive now (e ∷ es) s u (h, hs) w =
      let r = reconcile_one-Reconciled alive now e s in
      reconcile_all-keeps alive now es (reconcile_one alive now e s) u.1
        (Stored-Reconciled now e es s.executions _ u.0 hs r) (round now e s.executions _ h w r)

  reconcile_executors-keeps :
      (alive : (pid : ℕ) → Bool) (now : ℕ) (of : Option AgentId) (s : Store)
      → P s.executions
      → P (reconcile_executors alive now of s).executions
  unfolding reconcile_executors list_executions
  reconcile_executors-keeps alive now none s w =
      let u = unique s.executions w in
      reconcile_all-keeps alive now s.executions s u (Stored-self task_key s.executions u) w
  reconcile_executors-keeps alive now (some a) s w =
      let u = unique s.executions w in
      reconcile_all-keeps alive now _ s (Unique-filter task_key _ s.executions u)
        (Stored-filter task_key _ s.executions s.executions (Stored-self task_key s.executions u)) w

pub reconcile_executors-Within :
    (agent : AgentId) (limit : ℕ) (alive : (pid : ℕ) → Bool) (now : ℕ) (of : Option AgentId)
    (s : Store)
    → Within agent limit s.executions
    → Within agent limit (reconcile_executors alive now of s).executions
reconcile_executors-Within agent limit =
    reconcile_executors-keeps (Within agent limit) (λ es w. w.unique)
      (Within-Reconciled agent limit)

pub reconcile_executors-Unique :
    (alive : (pid : ℕ) → Bool) (now : ℕ) (of : Option AgentId) (s : Store)
    → Unique task_key s.executions
    → Unique task_key (reconcile_executors alive now of s).executions
reconcile_executors-Unique = reconcile_executors-keeps (Unique task_key) (λ es u. u) round
  where
    round :
        (now : ℕ) (e : ExecutionRecord) (es es' : List ExecutionRecord)
        → get task_key e.task_id es ≡ some e
        → Unique task_key es
        → Reconciled now e es es'
        → Unique task_key es'
    round now e es es' h u (kept q) = rw q u
    round now e es es' h u (ended q) = rw q (Unique-upsert task_key (stop_record e now) es u)
    round now e es es' h u (lost running q) =
        rw q (Unique-upsert task_key (quarantine_record e now) es u)
