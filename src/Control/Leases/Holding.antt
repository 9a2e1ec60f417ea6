-- ===== src/Control/Leases/Holding.antt =====
-- lease-manager.ts: the operations of `LeaseManager`.
use bidirectional_bridge_cla.Prelude.{
  ℕ, ◌+◌, Bool, true, false, not, ◌&&◌, ◌||◌, none, some, List, [], ◌∷◌, ◌==◌, leb, filter,
  if◌then◌else◌, Result, ok, err, ◌>>=◌, ◌>>◌, throw_if, invalid_argument, not_found, not_owner,
  scope_conflict, lease_invalid, runtime_stop_unconfirmed,
}
use bidirectional_bridge_cla.Protocol.Path.{Text}
use bidirectional_bridge_cla.Protocol.Scope.{WriteScope, normalize_scope, scope_allows}
use bidirectional_bridge_cla.Protocol.Records.{
  LeaseId, AgentId, Lease, LeaseState, LeaseConflict, lease_released, lease_expired, lease_denied,
  lease_quarantined, lease_paths, lease_expiry, lease_denial, quarantine_reason,
}
use bidirectional_bridge_cla.Control.Store.{
  Store, get_execution, get_lease, update_lease, is_held, is_quarantined, list_held_leases,
  append_event,
}
use bidirectional_bridge_cla.Control.Leases.{
  AcquireLeaseInput, runs_unconfirmed, confirms_stop, is_live, find_conflicts, acquire_checked,
}

-- A call that may throw after it has committed an event: the answer, and the store it leaves.
abbrev pub Reply : Type 0
Reply = Result Lease × Store

abbrev pub reply_of : Store → Result (Lease × Store) → Reply
reply_of s (ok (lease, s')) = (ok lease, s')
reply_of s (err code) = (err code, s)

abbrev pub denied : Store → AcquireLeaseInput → WriteScope → List LeaseConflict → ℕ → Store
denied s input scope conflicts now =
    append_event s lease_denied input.task_id input.holder (lease_denial scope.paths conflicts) none
      now

-- `acquire` after its arguments have been checked. `conflicts` is what the first look found.
unfoldable pub acquire_unless :
    Result (List LeaseConflict) → AcquireLeaseInput → WriteScope → LeaseId → ℕ → ℕ → Store → Reply
acquire_unless (err code) input scope fresh_id now later s = (err code, s)
acquire_unless (ok (c ∷ cs)) input scope fresh_id now later s =
    (err scope_conflict, denied s input scope (c ∷ cs) now)
acquire_unless (ok []) input scope fresh_id now later s =
    reply_of s (acquire_checked input scope fresh_id now later s)

unfoldable pub acquire_scope :
    Result WriteScope → Store → AcquireLeaseInput → LeaseId → ℕ → ℕ → Store → Reply
acquire_scope (err code) seen input fresh_id now later s = (err code, s)
acquire_scope (ok scope) seen input fresh_id now later s =
    let conflicts = find_conflicts seen scope input.holder now (some input.task_id) in
    if input.ttl_ms == 0
    then (err invalid_argument, s)
    else acquire_unless conflicts input scope fresh_id now later s

-- `seen` is the store at the first look, at the time `now`; `s` is the store when the transaction
-- begins, at the time `later`. A `ttl_ms` that is not positive stands as 0.
unfoldable pub acquire : Store → AcquireLeaseInput → LeaseId → ℕ → ℕ → Store → Reply
acquire seen input fresh_id now later s =
    acquire_scope (normalize_scope input.scope) seen input fresh_id now later s

unfoldable pub require_lease : Store → LeaseId → Result Lease
require_lease s lease_id = elim (get_lease s lease_id) [
  | none ↦ err not_found
  | some lease ↦ ok lease
]

-- `lease.state !== HELD || lease.expires_at <= now`.
abbrev pub has_lapsed : Lease → ℕ → Bool
has_lapsed lease now = not (is_held lease.state) || leb lease.expires_at now

-- `some` over the open leases: it stops at the first quarantined one, other than `lease_id`, that
-- allows the path.
unfoldable pub is_quarantined_path : LeaseId → Text → List Lease → Result Bool
is_quarantined_path lease_id path [] = ok false
is_quarantined_path lease_id path (other ∷ others) =
    let rest = is_quarantined_path lease_id path others in
    if not (other.lease_id == lease_id) && is_quarantined other.state
    then (do allowed ← scope_allows other.scope path; if allowed then ok true else rest)
    else rest

unfoldable pub assert_writable : Store → LeaseId → AgentId → Text → ℕ → Result (Unit {0})
assert_writable s lease_id holder path now = do
  lease ← require_lease s lease_id
  throw_if (has_lapsed lease now) lease_invalid
  throw_if (not (lease.holder == holder)) not_owner
  fenced ← is_quarantined_path lease_id path (list_held_leases s)
  throw_if fenced runtime_stop_unconfirmed
  allowed ← scope_allows lease.scope path
  throw_if (not allowed) scope_conflict

unfoldable pub renew : Store → LeaseId → AgentId → ℕ → ℕ → Result (Lease × Store)
renew s lease_id holder ttl_ms now = do
  lease ← require_lease s lease_id
  throw_if (not (lease.holder == holder)) not_owner
  throw_if (has_lapsed lease now) lease_invalid
  let renewed : Lease = record lease { expires_at = now + ttl_ms }
  ok (renewed, update_lease s renewed)

abbrev pub released_lease : Lease → ℕ → Lease
released_lease lease now = record lease { state = LeaseState.released; released_at = some now }

unfoldable pub release : Store → LeaseId → AgentId → ℕ → Result (Lease × Store)
release s lease_id holder now = do
  lease ← require_lease s lease_id
  throw_if (not (lease.holder == holder)) not_owner
  throw_if
      (is_quarantined lease.state
        || is_held lease.state && runs_unconfirmed (get_execution s lease.task_id) lease_id)
      runtime_stop_unconfirmed
  if not (is_held lease.state)
      then ok (lease, s)
      else ok (
        released_lease lease now,
        append_event (update_lease s (released_lease lease now)) lease_released lease.task_id holder
            (lease_paths lease_id lease.scope.paths) none now,
      )

abbrev pub quarantined_lease : Lease → Lease
quarantined_lease lease = record lease { state = LeaseState.quarantined }

unfoldable pub quarantine : Store → LeaseId → AgentId → ℕ → Result (Lease × Store)
quarantine s lease_id holder now = do
  lease ← require_lease s lease_id
  throw_if (not (lease.holder == holder)) not_owner
  if is_quarantined lease.state then ok (lease, s) else do
    throw_if (not (is_held lease.state)) lease_invalid
    ok (
      quarantined_lease lease,
      append_event (update_lease s (quarantined_lease lease)) lease_quarantined lease.task_id holder
          (quarantine_reason lease_id) none now,
    )

-- The statement before the call of `release`, which runs in the same transaction.
abbrev pub held_again : Store → Lease → Store
held_again s lease =
    if is_quarantined lease.state
    then update_lease s (record lease { state = LeaseState.held })
    else s

unfoldable pub confirm_stopped : Store → LeaseId → AgentId → ℕ → Result (Lease × Store)
confirm_stopped s lease_id holder now = do
  lease ← require_lease s lease_id
  throw_if (not (lease.holder == holder)) not_owner
  throw_if (not (confirms_stop (get_execution s lease.task_id) lease_id)) runtime_stop_unconfirmed
  release (held_again s lease) lease_id holder now

abbrev pub expired_lease : Lease → Lease
expired_lease lease = record lease { state = LeaseState.expired }

abbrev pub with_expiry : Store → Lease → ℕ → Store
with_expiry s lease now =
    append_event (update_lease s (expired_lease lease)) lease_expired lease.task_id lease.holder
      (lease_expiry lease.lease_id lease.scope.paths lease.expires_at) none now

-- The loop of `reapExpired`, over the rows that were read.
unfoldable pub reap_loop : ℕ → List Lease → Store → Result (List Lease × Store)
reap_loop now [] s = ok ([], s)
reap_loop now (lease ∷ leases) s =
    if is_quarantined lease.state || not (leb lease.expires_at now)
    then reap_loop now leases s
    else (if runs_unconfirmed (get_execution s lease.task_id) lease.lease_id
        then (do (row, s') ← quarantine s lease.lease_id lease.holder now; reap_loop now leases s')
        else (do
          (reaped, s') ← reap_loop now leases (with_expiry s lease now)
          ok (expired_lease lease ∷ reaped, s')))

unfoldable pub reap_expired : Store → ℕ → Result (List Lease × Store)
reap_expired s now = reap_loop now (list_held_leases s) s

unfoldable pub list_live : Store → ℕ → List Lease
list_live s now = filter (λ l. is_live s l now) (list_held_leases s)
