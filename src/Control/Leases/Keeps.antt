-- ===== src/Control/Leases/Keeps.antt =====
-- lease-manager.ts: every operation keeps the leases that can write apart.
use mathlib.Core.Path.{subst}
use bidirectional_bridge_cla.Prelude.{
  ℕ, ◌≡◌, refl, sym, ap, ◌⊎◌, inl, inr, Bool, true, false, not, ◌&&◌, ◌||◌, some, List, [], ◌∷◌,
  arith, ◌==◌, leb, ltb, All, Result, ok, err, >>=-eq-ok, Bool-cases,
}
use bidirectional_bridge_cla.Protocol.Glob.Overlap.{IsNormal}
use bidirectional_bridge_cla.Protocol.Scope.{WriteScope, normalize_scope, scopes_conflict}
use bidirectional_bridge_cla.Protocol.Scope.Normalized.{normalize_scope-IsNormal}
use bidirectional_bridge_cla.Protocol.Records.{LeaseId, AgentId, Lease, LeaseConflict}
use bidirectional_bridge_cla.Control.Store.{
  Store, get_lease, update_lease, is_held, is_quarantined, get_execution, list_held_leases,
  append_event,
}
use bidirectional_bridge_cla.Control.Leases.{
  AcquireLeaseInput, runs_unconfirmed, find_conflicts, acquire_checked, new_lease,
}
use bidirectional_bridge_cla.Control.Leases.Holding.{
  has_lapsed, renew, release, quarantine, confirm_stopped, expired_lease, with_expiry, reap_loop,
  reap_expired, reply_of, acquire_unless, acquire_scope, acquire,
}
use bidirectional_bridge_cla.Control.Leases.Conflicts.{can_write, IsSameParty, acquire_checked-Sets}
use bidirectional_bridge_cla.Control.Leases.Reads.{Sets, revised, ok-lease, update_lease-cases}
use bidirectional_bridge_cla.Control.Leases.Outcomes.{
  renew-Sets, release-Sets, quarantine-Sets, confirm_stopped-Sets,
}
use bidirectional_bridge_cla.Control.Leases.Exclusive.{
  AreDisjoint, Exclusive, rows-Exclusive, Sets-Exclusive,
}

-- A row that keeps its scope and is no longer held.
idle-Exclusive :
    (now : ℕ) (s : Store) (id : LeaseId) (row new : Lease) (s' : Store)
    → Exclusive now s
    → get_lease s id ≡ some row
    → new.scope ≡ row.scope
    → is_held new.state ≡ false
    → Sets s id new s'
    → Exclusive now s'
idle-Exclusive now s id row new s' x found same idle sets =
    Sets-Exclusive now s id new s' x sets
      (subst (λ z. All IsNormal z.paths) (sym same) (x.normal id row found))
      (λ k m g w v. clash (is_held new.state) (ltb now new.expires_at) idle w)
  where
    clash : {C : Type 0} (a b : Bool) → a ≡ false → (a && b) ≡ true → C
    clash true b h w = cc
    clash false b h w = cc

pub release-Exclusive :
    (s : Store) (id : LeaseId) (holder : AgentId) (now : ℕ) (l : Lease) (s' : Store)
    → Exclusive now s
    → release s id holder now ≡ ok (l, s')
    → Exclusive now s'
release-Exclusive s id holder now l s' x h =
    let (row, found, c) = release-Sets s id holder now l s' h in
    elim c as (λ _. Exclusive now s') [
      | inl (e, _, _) ↦ subst (Exclusive now) (sym e) x
      | inr (e, sets) ↦
          idle-Exclusive now s id row l s' x found (ap (λ z. z.scope) e)
            (ap (λ z. is_held z.state) e) sets
    ]

pub quarantine-Exclusive :
    (s : Store) (id : LeaseId) (holder : AgentId) (now : ℕ) (l : Lease) (s' : Store)
    → Exclusive now s
    → quarantine s id holder now ≡ ok (l, s')
    → Exclusive now s'
quarantine-Exclusive s id holder now l s' x h =
    let (row, found, c) = quarantine-Sets s id holder now l s' h in
    elim c as (λ _. Exclusive now s') [
      | inl e ↦ subst (Exclusive now) (sym e) x
      | inr (e, sets) ↦
          idle-Exclusive now s id row l s' x found (ap (λ z. z.scope) e)
            (ap (λ z. is_held z.state) e) sets
    ]

pub confirm_stopped-Exclusive :
    (s : Store) (id : LeaseId) (holder : AgentId) (now : ℕ) (l : Lease) (s' : Store)
    → Exclusive now s
    → confirm_stopped s id holder now ≡ ok (l, s')
    → Exclusive now s'
confirm_stopped-Exclusive s id holder now l s' x h =
    let (row, found, c) = confirm_stopped-Sets s id holder now l s' h in
    elim c as (λ _. Exclusive now s') [
      | inl e ↦ subst (Exclusive now) (sym e) x
      | inr (e, sets) ↦
          idle-Exclusive now s id row l s' x found (ap (λ z. z.scope) e)
            (ap (λ z. is_held z.state) e) sets
    ]

-- A renewed lease could write before.
pub renew-Exclusive :
    (s : Store) (id : LeaseId) (holder : AgentId) (ttl now : ℕ) (l : Lease) (s' : Store)
    → Exclusive now s
    → renew s id holder ttl now ≡ ok (l, s')
    → Exclusive now s'
renew-Exclusive s id holder ttl now l s' x h =
    let (row, found, lapsed, e, sets) = renew-Sets s id holder ttl now l s' h in
    Sets-Exclusive now s id l s' x sets
      (subst (λ z. All IsNormal z.paths) (sym (ap (λ z. z.scope) e)) (x.normal id row found))
      (λ k m g w v.
        subst (λ z. IsSameParty z.holder z.task_id m ⊎ AreDisjoint z m) (sym e)
          (x.apart id k row m found g (could_write row lapsed) v))
  where
    could_write : (row : Lease) → has_lapsed row now ≡ false → can_write row now ≡ true
    could_write row e = ground arith

with_expiry-Exclusive :
    (s : Store) (lease : Lease) (now : ℕ)
    → Exclusive now s
    → Exclusive now (with_expiry s lease now)
unfolding append_event
with_expiry-Exclusive s lease now x =
    rows-Exclusive now (update_lease s (expired_lease lease)) (with_expiry s lease now) refl
      (elim (update_lease-cases s (expired_lease lease)) [
        | inl e ↦ subst (Exclusive now) (sym e) x
        | inr (row, found, sets) ↦
            idle-Exclusive now s lease.lease_id row (revised row (expired_lease lease)) _ x found
              refl refl sets
      ])

reap_loop-Exclusive :
    (now : ℕ) (ls : List Lease) (s : Store) (out : List Lease) (s' : Store)
    → Exclusive now s
    → reap_loop now ls s ≡ ok (out, s')
    → Exclusive now s'
unfolding reap_loop
reap_loop-Exclusive now [] s out s' x h = subst (Exclusive now) (ok-lease h).1 x
reap_loop-Exclusive now (l ∷ ls) s out s' x h =
    elim (Bool-cases (is_quarantined l.state || not (leb l.expires_at now))) [
      | inl b ↦ reap_loop-Exclusive now ls s out s' x (rw b at h)
      | inr b ↦ elim (Bool-cases (runs_unconfirmed (get_execution s l.task_id) l.lease_id)) [
        | inl c ↦
            let ((row, s1), e, h1) =
              >>=-eq-ok (quarantine s l.lease_id l.holder now) _ (rw (b, c) at h) in
            reap_loop-Exclusive now ls s1 out s'
              (quarantine-Exclusive s l.lease_id l.holder now row s1 x e) h1
        | inr c ↦
            let ((reaped, s1), e, h1) =
              >>=-eq-ok (reap_loop now ls (with_expiry s l now)) _ (rw (b, c) at h) in
            subst (Exclusive now) (ok-lease h1).1 (
              reap_loop-Exclusive now ls (with_expiry s l now) reaped s1
                (with_expiry-Exclusive s l now x) e)
      ]
    ]

pub reap_expired-Exclusive :
    (s : Store) (now : ℕ) (out : List Lease) (s' : Store)
    → Exclusive now s
    → reap_expired s now ≡ ok (out, s')
    → Exclusive now s'
unfolding reap_expired
reap_expired-Exclusive s now out s' x h = reap_loop-Exclusive now (list_held_leases s) s out s' x h

-- The answers of an acquisition, also the refusals that leave an event.
pub acquire-Exclusive :
    (seen : Store) (input : AcquireLeaseInput) (id : LeaseId) (now later : ℕ) (s : Store)
    → Exclusive later s
    → Exclusive later (acquire seen input id now later s).1
unfolding acquire acquire_scope acquire_unless append_event
acquire-Exclusive seen input id now later s x = on_scope (normalize_scope input.scope) refl
  where
    stored :
        (scope : WriteScope)
        → All IsNormal scope.paths
        → (r : Result (Lease × Store)) → acquire_checked input scope id now later s ≡ r
        → Exclusive later (reply_of s r).1
    stored scope n (err code) e = x
    stored scope n (ok (l, s')) e =
        let (same, sets, fits) = acquire_checked-Sets input scope id now later s l s' e in
        subst (λ z. Sets s id z s' → Exclusive later s') (sym same)
          (λ sets.
            Sets-Exclusive later s id (new_lease input scope id now) s' x sets n
              (λ k m g w v. fit m (fits k m g v)))
          sets
      where
        fit :
            (m : Lease)
            → IsSameParty input.holder input.task_id m ⊎ (scopes_conflict scope m.scope ≡ ok false)
            → IsSameParty input.holder input.task_id m
              ⊎ AreDisjoint (new_lease input scope id now) m
        fit m (inl e) = inl e
        fit m (inr e) = inr (inl e)

    on_conflicts :
        (scope : WriteScope)
        → All IsNormal scope.paths
        → (r : Result (List LeaseConflict))
        → Exclusive later (acquire_unless r input scope id now later s).1
    on_conflicts scope n (err code) = x
    on_conflicts scope n (ok []) = stored scope n (acquire_checked input scope id now later s) refl
    on_conflicts scope n (ok (c ∷ cs)) = rows-Exclusive later s _ refl x

    on_scope :
        (r : Result WriteScope)
        → normalize_scope input.scope ≡ r
        → Exclusive later (acquire_scope r seen input id now later s).1
    on_scope (err code) e = x
    on_scope (ok scope) e = elim (Bool-cases (input.ttl_ms == 0)) [
      | inl b ↦ rw b x
      | inr b ↦ rw b (
          on_conflicts scope (normalize_scope-IsNormal input.scope scope e)
            (find_conflicts seen scope input.holder now (some input.task_id)))
    ]
