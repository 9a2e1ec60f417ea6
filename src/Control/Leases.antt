-- ===== src/Control/Leases.antt =====
-- shared/control-plane/src/lease-manager.ts. The clock is an argument of each operation, and the
-- identifier of a new lease is what the random source yields.
pub mod Holding
pub mod Reads
pub mod Outcomes
pub mod Conflicts
pub mod Exclusive
pub mod Keeps
pub mod Writers
pub mod Single
mod Examples
use bidirectional_bridge_cla.Prelude.{
  ℕ, ◌+◌, Bool, true, false, not, ◌&&◌, ◌||◌, Option, none, some, List, [], ◌∷◌, ◌++◌, ◌==◌, leb,
  ltb, is, is_empty, is_some, filter, if◌then◌else◌, Result, ok, err, ◌>>=◌, ◌>>◌, throw_if,
  invalid_argument, not_found, not_owner, scope_conflict, lease_invalid, runtime_stop_unconfirmed,
}
use bidirectional_bridge_cla.Protocol.Path.{Text}
use bidirectional_bridge_cla.Protocol.Scope.{
  WriteScope, conflicting_pairs, normalize_scope, scope_allows,
}
use bidirectional_bridge_cla.Protocol.Records.{
  TaskId, LeaseId, AgentId, Lease, LeaseState, held, quarantined, released, expired, LeaseConflict,
  lease_acquired, lease_released, lease_expired, lease_denied, lease_quarantined, lease_paths,
  lease_acquisition, lease_expiry, lease_denial, quarantine_reason,
}
use bidirectional_bridge_cla.Control.Store.{
  Store, ExecutionRecord, get_execution, get_lease, insert_lease, update_lease, is_held,
  is_quarantined, list_held_leases, append_event,
}

pub record AcquireLeaseInput : Type 0 where
  pub task_id : TaskId
  pub holder : AgentId
  pub scope : WriteScope
  pub ttl_ms : ℕ

-- `runtime_stop_confirmed === true`.
abbrev pub stop_confirmed : Option Bool → Bool
stop_confirmed (some true) = true
stop_confirmed _ = false

-- `execution?.lease_id === lease_id && execution.runtime_stop_confirmed !== true`.
abbrev pub runs_unconfirmed : Option ExecutionRecord → LeaseId → Bool
runs_unconfirmed none lease_id = false
runs_unconfirmed (some e) lease_id =
    is e.lease_id lease_id && not (stop_confirmed e.runtime_stop_confirmed)

-- `execution?.lease_id === lease_id && execution.runtime_stop_confirmed === true`.
abbrev pub confirms_stop : Option ExecutionRecord → LeaseId → Bool
confirms_stop none lease_id = false
confirms_stop (some e) lease_id = is e.lease_id lease_id && stop_confirmed e.runtime_stop_confirmed

-- `execution === undefined || execution.runtime_stop_confirmed === true`.
abbrev pub is_stopped : Option ExecutionRecord → Bool
is_stopped none = true
is_stopped (some e) = stop_confirmed e.runtime_stop_confirmed

unfoldable pub is_live : Store → Lease → ℕ → Bool
is_live s lease now =
    is_quarantined lease.state
    || is_held lease.state
      && (ltb now lease.expires_at
          || runs_unconfirmed (get_execution s lease.task_id) lease.lease_id)

-- `paths[0]!`: no stored scope is empty.
abbrev pub first_path : List Text → Text
first_path [] = []
first_path (p ∷ ps) = p

-- The lease belongs to the caller's own task, whose execution is not running.
abbrev pub is_own : Store → Lease → AgentId → Option TaskId → Bool
is_own s other holder task_id =
    other.holder == holder
    && is task_id other.task_id
    && is_held other.state
    && is_stopped (get_execution s other.task_id)

abbrev pub fenced_task : Store → Lease → Option TaskId → Bool
fenced_task s other task_id =
    is task_id other.task_id
    && (is_quarantined other.state
        || runs_unconfirmed (get_execution s other.task_id) other.lease_id)

abbrev pub with_fence : Bool → WriteScope → Lease → List (Text × Text) → List (Text × Text)
with_fence fenced scope other overlapping =
    if fenced && is_empty overlapping
    then (first_path scope.paths, first_path other.scope.paths) ∷ []
    else overlapping

abbrev pub conflict_with : Lease → List (Text × Text) → Option LeaseConflict
conflict_with other [] = none
conflict_with other (pair ∷ pairs) = some (record {
  lease_id = other.lease_id;
  holder = other.holder;
  task_id = other.task_id;
  overlapping = pair ∷ pairs;
})

-- One round of the loop of `findConflicts`.
unfoldable pub conflict_of :
    Store → WriteScope → AgentId → ℕ → Option TaskId → Lease → Result (Option LeaseConflict)
conflict_of s scope holder now task_id other =
    if not (is_live s other now) || is_own s other holder task_id then ok none else do
      overlapping ← conflicting_pairs scope other.scope
      ok (conflict_with other (with_fence (fenced_task s other task_id) scope other overlapping))

abbrev pub cons_some {ℓ} : {A : Type ℓ} → Option A → List A → List A
cons_some none xs = xs
cons_some (some x) xs = x ∷ xs

unfoldable pub conflicts_among :
    Store → WriteScope → AgentId → ℕ → Option TaskId → List Lease → Result (List LeaseConflict)
conflicts_among s scope holder now task_id [] = ok []
conflicts_among s scope holder now task_id (other ∷ others) = do
  found ← conflict_of s scope holder now task_id other
  more ← conflicts_among s scope holder now task_id others
  ok (cons_some found more)

unfoldable pub find_conflicts :
    Store → WriteScope → AgentId → ℕ → Option TaskId → Result (List LeaseConflict)
find_conflicts s scope holder now task_id =
    conflicts_among s scope holder now task_id (list_held_leases s)

abbrev pub new_lease : AcquireLeaseInput → WriteScope → LeaseId → ℕ → Lease
new_lease input scope fresh_id now = record {
  lease_id = fresh_id;
  task_id = input.task_id;
  holder = input.holder;
  scope = scope;
  state = held;
  acquired_at = now;
  expires_at = now + input.ttl_ms;
  released_at = none;
}

-- The transaction of `acquire`: the clock is read again, for the second look at the leases.
unfoldable pub acquire_checked :
    AcquireLeaseInput → WriteScope → LeaseId → ℕ → ℕ → Store → Result (Lease × Store)
acquire_checked input scope fresh_id now later s = do
  raced ← find_conflicts s scope input.holder later (some input.task_id)
  throw_if (not (is_empty raced)) scope_conflict
  let lease = new_lease input scope fresh_id now
  s' ← insert_lease s lease
  ok (
    lease,
    append_event s' lease_acquired input.task_id input.holder
        (lease_acquisition lease.lease_id scope.paths lease.expires_at) none now,
  )
