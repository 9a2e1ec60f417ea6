-- ===== src/Control/Leases/Outcomes.antt =====
-- lease-manager.ts: what the operations on one lease that are accepted have changed.
use bidirectional_bridge_cla.Prelude.{
  ℕ, ◌+◌, ◌≡◌, refl, sym, ap, ◌∙◌, ◌⊎◌, inl, inr, true, false, not, ◌&&◌, ◌||◌, Option, some, ◌==◌,
  ok, >>=-eq-ok, throw_if, throw_if-eq-ok, Bool-cases, ==_refl, not_owner, lease_invalid,
  runtime_stop_unconfirmed,
}
use bidirectional_bridge_cla.Protocol.Records.{LeaseId, AgentId, Lease, LeaseState}
use bidirectional_bridge_cla.Control.Store.{
  Store, get_lease, update_lease, is_held, is_quarantined, get_execution, append_event,
}
use bidirectional_bridge_cla.Control.Leases.{runs_unconfirmed, confirms_stop}
use bidirectional_bridge_cla.Control.Leases.Holding.{
  require_lease, has_lapsed, released_lease, quarantined_lease, renew, release, quarantine,
  confirm_stopped,
}
use bidirectional_bridge_cla.Control.Leases.Reads.{
  Sets, ok-lease, require_lease-found, update_lease-Sets, changes,
}

-- A renewal sets the expiry of a lease that is held and has time left.
pub renew-Sets :
    (s : Store) (id : LeaseId) (holder : AgentId) (ttl now : ℕ) (l : Lease) (s' : Store)
    → renew s id holder ttl now ≡ ok (l, s')
    → (row : Lease) × (get_lease s id ≡ some row)
      × (has_lapsed row now ≡ false)
      × (l ≡ record row { expires_at = now + ttl })
      × Sets s id l s'
unfolding renew
renew-Sets s id holder ttl now l s' h =
    let (row, e, h1) = >>=-eq-ok (require_lease s id) _ h in
    let (found, key) = require_lease-found s id row e in
    let (_, _, h2) = >>=-eq-ok (throw_if (not (row.holder == holder)) not_owner) _ h1 in
    let (_, lapsed, h3) = >>=-eq-ok (throw_if (has_lapsed row now) lease_invalid) _ h2 in
    let (same, stored) = ok-lease h3 in
    (
      row,
      found,
      throw_if-eq-ok (has_lapsed row now) lease_invalid lapsed,
      sym same,
      changes s id row (record row { expires_at = now + ttl }) l _ s' found refl refl refl same
          stored,
    )

-- A release changes nothing, or sets the state of a lease that was held.
pub release-Sets :
    (s : Store) (id : LeaseId) (holder : AgentId) (now : ℕ) (l : Lease) (s' : Store)
    → release s id holder now ≡ ok (l, s')
    → (row : Lease) × (get_lease s id ≡ some row)
      × ((s' ≡ s) × (is_held row.state ≡ false) × (l ≡ row)
          ⊎ (l ≡ released_lease row now) × Sets s id l s')
unfolding release append_event
release-Sets s id holder now l s' h =
    let (row, e, h1) = >>=-eq-ok (require_lease s id) _ h in
    let (found, key) = require_lease-found s id row e in
    let (_, _, h2) = >>=-eq-ok (throw_if (not (row.holder == holder)) not_owner) _ h1 in
    let (_, _, h3) =
      >>=-eq-ok
        (throw_if
          (is_quarantined row.state
            || is_held row.state && runs_unconfirmed (get_execution s row.task_id) id)
          runtime_stop_unconfirmed)
        _ h2 in
    (
      row,
      found,
      elim (Bool-cases (is_held row.state)) [
        | inl b ↦
            let (same, stored) = ok-lease (rw b at h3) in
            inr (
              sym same,
              changes s id row (released_lease row now) l _ s' found refl refl refl same stored,
            )
        | inr b ↦ let (same, stored) = ok-lease (rw b at h3) in inl (sym stored, b, sym same)
      ],
    )

-- A quarantine changes nothing, or sets the state.
pub quarantine-Sets :
    (s : Store) (id : LeaseId) (holder : AgentId) (now : ℕ) (l : Lease) (s' : Store)
    → quarantine s id holder now ≡ ok (l, s')
    → (row : Lease) × (get_lease s id ≡ some row)
      × ((s' ≡ s) ⊎ (l ≡ quarantined_lease row) × Sets s id l s')
unfolding quarantine append_event
quarantine-Sets s id holder now l s' h =
    let (row, e, h1) = >>=-eq-ok (require_lease s id) _ h in
    let (found, key) = require_lease-found s id row e in
    let (_, _, h2) = >>=-eq-ok (throw_if (not (row.holder == holder)) not_owner) _ h1 in
    (
      row,
      found,
      elim (Bool-cases (is_quarantined row.state)) [
        | inl b ↦ let (same, stored) = ok-lease (rw b at h2) in inl (sym stored)
        | inr b ↦
            let (_, _, h3) =
              >>=-eq-ok (throw_if (not (is_held row.state)) lease_invalid) _ (rw b at h2) in
            let (same, stored) = ok-lease h3 in
            inr (
              sym same,
              changes s id row (quarantined_lease row) l _ s' found refl refl refl same stored,
            )
      ],
    )

-- Two changes of one row.
Sets-twice :
    (s : Store) (id : LeaseId) (first : Lease) (s1 : Store) (last : Lease) (s2 : Store)
    → Sets s id first s1
    → Sets s1 id last s2
    → Sets s id last s2
Sets-twice s id first s1 last s2 f g k =
    g k ∙ elim (Bool-cases (id == k)) [ inl b ↦ rw b | inr b ↦ rw b (rw b at (f k)) ]

-- A confirmed stop changes nothing, or releases the lease, whether it was quarantined or held.
pub confirm_stopped-Sets :
    (s : Store) (id : LeaseId) (holder : AgentId) (now : ℕ) (l : Lease) (s' : Store)
    → confirm_stopped s id holder now ≡ ok (l, s')
    → (row : Lease) × (get_lease s id ≡ some row)
      × ((s' ≡ s) ⊎ (l ≡ released_lease row now) × Sets s id l s')
unfolding confirm_stopped
confirm_stopped-Sets s id holder now l s' h =
    let (row, e, h1) = >>=-eq-ok (require_lease s id) _ h in
    let (found, key) = require_lease-found s id row e in
    let (_, _, h2) = >>=-eq-ok (throw_if (not (row.holder == holder)) not_owner) _ h1 in
    let (_, _, h3) =
      >>=-eq-ok
        (throw_if (not (confirms_stop (get_execution s row.task_id) id)) runtime_stop_unconfirmed) _
        h2 in
    (
      row,
      found,
      elim (Bool-cases (is_quarantined row.state)) [
        | inl b ↦ quarantined_row row found (rw b at h3)
        | inr b ↦
            let (row', found', c) = release-Sets s id holder now l s' (rw b at h3) in
            held_row row row' (some-eq (sym found ∙ found')) c
      ],
    )
  where
    some-eq : {x y : Lease} → ◌≡◌ {A = Option Lease} (some x) (some y) → x ≡ y
    some-eq e = cc

    held_row :
        (row row' : Lease)
        → row ≡ row'
        → ((s' ≡ s) × (is_held row'.state ≡ false) × (l ≡ row')
            ⊎ (l ≡ released_lease row' now) × Sets s id l s')
        → ((s' ≡ s) ⊎ (l ≡ released_lease row now) × Sets s id l s')
    held_row row row' e (inl (a, _, _)) = inl a
    held_row row row' e (inr (a, b)) = inr (a ∙ ap (λ x. released_lease x now) (sym e), b)

    quarantined_row :
        (row : Lease)
        → get_lease s id ≡ some row
        → release (update_lease s (record row { state = LeaseState.held })) id holder now
          ≡ ok (l, s')
        → ((s' ≡ s) ⊎ (l ≡ released_lease row now) × Sets s id l s')
    quarantined_row row found g =
        let again : Sets s id (record row { state = LeaseState.held })
            (update_lease s (record row { state = LeaseState.held })) =
          update_lease-Sets s id row (record row { state = LeaseState.held }) found refl refl in
        let (row', found', c) =
          release-Sets (update_lease s (record row { state = LeaseState.held })) id holder now l s'
            g in
        let same : row' ≡ record row { state = LeaseState.held } =
          some-eq (sym found' ∙ (rw (==_refl id) at (again id))) in
        elim c as (λ _. (s' ≡ s) ⊎ (l ≡ released_lease row now) × Sets s id l s') [
          | inl (_, idle, _) ↦ clash (sym (ap (λ x. is_held x.state) same) ∙ idle)
          | inr (a, b) ↦
              inr (a ∙ ap (λ x. released_lease x now) same, Sets-twice s id _ _ l s' again b)
        ]
      where
        clash : true ≡ false → (s' ≡ s) ⊎ (l ≡ released_lease row now) × Sets s id l s'
        clash e = cc
