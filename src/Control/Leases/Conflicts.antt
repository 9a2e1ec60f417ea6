-- ===== src/Control/Leases/Conflicts.antt =====
-- lease-manager.ts: what an acquisition that is accepted has found about the other leases.
use mathlib.Core.Path.{subst}
use bidirectional_bridge_cla.Prelude.{
  ℕ, ◌≡◌, refl, sym, ap, ◌∙◌, ◌⊎◌, inl, inr, Bool, true, false, not, ◌&&◌, Option, none, some, List,
  [], ◌∷◌, ◌++◌, arith, ◌==◌, ltb, is_empty, is_some, All, if◌then◌else◌, Result, ok, err,
  >>=-eq-ok, throw_if, throw_if-eq-ok, Bool-cases, ==_iff, or_else, internal, scope_conflict,
}
use bidirectional_bridge_cla.Protocol.Path.{Text}
use bidirectional_bridge_cla.Protocol.Scope.{WriteScope, conflicting_pairs, scopes_conflict}
use bidirectional_bridge_cla.Protocol.Records.{
  TaskId, LeaseId, AgentId, Lease, LeaseConflict, LeaseState, held, quarantined, released, expired,
}
use bidirectional_bridge_cla.Control.Table.{get, get-append}
use bidirectional_bridge_cla.Control.Store.{
  Store, get_lease, insert_lease, is_held, is_open, open_leases, insert_by_acquisition,
  list_held_leases, append_event,
}
use bidirectional_bridge_cla.Control.Leases.{
  AcquireLeaseInput, is_live, is_own, fenced_task, with_fence, conflict_with, conflict_of,
  cons_some, conflicts_among, find_conflicts, new_lease, acquire_checked,
}
use bidirectional_bridge_cla.Control.Leases.Reads.{Sets, ok-lease}

-- Held, and not past its expiry.
abbrev pub can_write : Lease → ℕ → Bool
can_write l now = is_held l.state && ltb now l.expires_at

-- One agent on one task.
abbrev pub IsSameParty : AgentId → TaskId → Lease → Type 0
IsSameParty holder task l = (l.holder ≡ holder) × (l.task_id ≡ task)

module _ (s : Store) (scope : WriteScope) (holder : AgentId) (now : ℕ) (task : TaskId) where
  conflicts_among-none :
      (ls : List Lease)
      → conflicts_among s scope holder now (some task) ls ≡ ok []
      → All (λ l. conflict_of s scope holder now (some task) l ≡ ok none) ls
  unfolding conflicts_among
  conflicts_among-none [] h = tt
  conflicts_among-none (l ∷ ls) h =
      let (found, e, h1) = >>=-eq-ok (conflict_of s scope holder now (some task) l) _ h in
      let (more, f, h2) = >>=-eq-ok (conflicts_among s scope holder now (some task) ls) _ h1 in
      let (a, b) = split found more h2 in (e ∙ ap ok a, conflicts_among-none ls (f ∙ ap ok b))
    where
      split :
          (found : Option LeaseConflict) (more : List LeaseConflict)
          → ◌≡◌ {A = Result (List LeaseConflict)} (ok (cons_some found more)) (ok [])
          → (found ≡ none) × (more ≡ [])
      split none more e = (refl, cc)
      split (some x) more e = cc

  no_pairs :
      (l : Lease) (fenced : Bool) (pairs : List (Text × Text))
      → conflict_with l (with_fence fenced scope l pairs) ≡ none
      → pairs ≡ []
  no_pairs l fenced [] h = refl
  no_pairs l false (p ∷ pairs) h = cc
  no_pairs l true (p ∷ pairs) h = cc

  pub conflict_of-none :
      (l : Lease)
      → conflict_of s scope holder now (some task) l ≡ ok none
      → can_write l now ≡ true
      → IsSameParty holder task l ⊎ (scopes_conflict scope l.scope ≡ ok false)
  unfolding conflict_of scopes_conflict is_live
  conflict_of-none l h w = elim (Bool-cases (is_own s l holder (some task))) [
    | inl own ↦ inl (own_party l own)
    | inr other ↦
        let (pairs, e, h1) =
          >>=-eq-ok (conflicting_pairs scope l.scope) _ (rw (live l w, other) at h) in
        inr (rw (e, no_pairs l (fenced_task s l (some task)) pairs (ok-option h1)))
  ]
    where
      live : (l : Lease) → can_write l now ≡ true → is_live s l now ≡ true
      live l w = ground arith

      own_party : (l : Lease) → is_own s l holder (some task) ≡ true → IsSameParty holder task l
      own_party l own = (ground arith, ground arith)

      ok-option :
          {x y : Option LeaseConflict}
          → ◌≡◌ {A = Result (Option LeaseConflict)} (ok x) (ok y)
          → x ≡ y
      ok-option e = cc

module _ (P : Lease → Type 0) where
  insert_by_acquisition-All :
      (l : Lease) (ls : List Lease) → All P (insert_by_acquisition l ls) → P l × All P ls
  unfolding insert_by_acquisition
  insert_by_acquisition-All l [] h = h
  insert_by_acquisition-All l (m ∷ ms) h = elim (Bool-cases (ltb m.acquired_at l.acquired_at)) [
    | inl b ↦
        let (x, y) : P m × All P (insert_by_acquisition l ms) = rw b at h in
        let (u, v) = insert_by_acquisition-All l ms y in (u, (x, v))
    | inr b ↦ rw b at h
  ]

  pub open_leases-All :
      (k : LeaseId) (l : Lease) (ls : List Lease)
      → All P (open_leases ls)
      → get (λ x. x.lease_id) k ls ≡ some l
      → is_open l.state ≡ true
      → P l
  unfolding open_leases get
  open_leases-All k l [] h e o = cc
  open_leases-All k l (m ∷ ms) h e o = elim (Bool-cases (m.lease_id == k)) [
    | inl hit ↦
        let same : m ≡ l = some-eq (rw hit at e) in
        let shown : is_open m.state ≡ true = ap (λ x. is_open x.state) same ∙ o in
        subst P same (insert_by_acquisition-All m (open_leases ms) (rw shown at h)).0
    | inr miss ↦ open_leases-All k l ms (rest (is_open m.state) h) (rw miss at e) o
  ]
    where
      some-eq : {x y : Lease} → ◌≡◌ {A = Option Lease} (some x) (some y) → x ≡ y
      some-eq e = cc

      rest :
          (b : Bool)
          → All P (if b then insert_by_acquisition m (open_leases ms) else open_leases ms)
          → All P (open_leases ms)
      rest true h = (insert_by_acquisition-All m (open_leases ms) h).1
      rest false h = h

insert_lease-Sets :
    (s : Store) (l : Lease) (s' : Store)
    → insert_lease s l ≡ ok s'
    → (s' ≡ record s { leases = s.leases ++ l ∷ [] }) × Sets s l.lease_id l s'
unfolding insert_lease get_lease
insert_lease-Sets s l s' h = cases (get (λ x. x.lease_id) l.lease_id s.leases) refl h
  where
    or_else-none : (o : Option Lease) → or_else o none ≡ o
    or_else-none none = refl
    or_else-none (some x) = refl

    reads :
        get (λ x. x.lease_id) l.lease_id s.leases ≡ none
        → (k : LeaseId)
        → get (λ x. x.lease_id) k (s.leases ++ l ∷ [])
          ≡ (if l.lease_id == k then some l else get (λ x. x.lease_id) k s.leases)
    reads e k =
        rw (get-append (λ x. x.lease_id) k l s.leases) (elim (Bool-cases (l.lease_id == k)) [
          | inl hit ↦ rw (hit, ← (==_iff l.lease_id k).0 hit, e)
          | inr miss ↦ rw miss (or_else-none (get (λ x. x.lease_id) k s.leases))
        ])

    cases :
        (o : Option Lease)
        → get (λ x. x.lease_id) l.lease_id s.leases ≡ o
        → (if is_some o then err internal else ok (record s { leases = s.leases ++ l ∷ [] }))
          ≡ ok s'
        → (s' ≡ record s { leases = s.leases ++ l ∷ [] })
          × ((k : LeaseId)
              → get (λ x. x.lease_id) k s'.leases
                ≡ (if l.lease_id == k then some l else get (λ x. x.lease_id) k s.leases))
    cases (some x) e h = cc
    cases none e h =
        let stored : s' ≡ record s { leases = s.leases ++ l ∷ [] } = cc in
        (stored, λ k. ap (λ z. get (λ x. x.lease_id) k z.leases) stored ∙ reads e k)

-- The acquisition stores the new lease, and every other lease that can write is the caller's own
-- or has a scope without conflict.
pub acquire_checked-Sets :
    (input : AcquireLeaseInput) (scope : WriteScope) (id : LeaseId) (now later : ℕ) (s : Store)
    (l : Lease) (s' : Store)
    → acquire_checked input scope id now later s ≡ ok (l, s')
    → (l ≡ new_lease input scope id now)
      × Sets s id l s'
      × ((k : LeaseId) (m : Lease)
          → get_lease s k ≡ some m
          → can_write m later ≡ true
          → IsSameParty input.holder input.task_id m ⊎ (scopes_conflict scope m.scope ≡ ok false))
unfolding acquire_checked append_event find_conflicts list_held_leases get_lease
acquire_checked-Sets input scope id now later s l s' h =
    let (raced, e, h1) =
      >>=-eq-ok (find_conflicts s scope input.holder later (some input.task_id)) _ h in
    let (_, clear, h2) = >>=-eq-ok (throw_if (not (is_empty raced)) scope_conflict) _ h1 in
    let (s1, inserted, h3) = >>=-eq-ok (insert_lease s (new_lease input scope id now)) _ h2 in
    let (same, stored) = ok-lease h3 in
    let (rows, sets) = insert_lease-Sets s (new_lease input scope id now) s1 inserted in
    let none_found =
      e ∙ ap ok (nothing raced (throw_if-eq-ok (not (is_empty raced)) scope_conflict clear)) in
    (
      sym same,
      λ k.
          ap (λ z. get_lease z k) (sym stored)
          ∙ sets k
          ∙ ap (λ z. if id == k then some z else get_lease s k) same,
      λ k m found w.
          conflict_of-none s scope input.holder later input.task_id m
            (open_leases-All
              (λ x. conflict_of s scope input.holder later (some input.task_id) x ≡ ok none) k m
              s.leases
              (conflicts_among-none s scope input.holder later input.task_id (open_leases s.leases)
                none_found)
              found (can_write-open m w))
            w,
    )
  where
    nothing : (raced : List LeaseConflict) → not (is_empty raced) ≡ false → raced ≡ []
    nothing [] h = refl
    nothing (x ∷ xs) h = cc

    can_write-open : (m : Lease) → can_write m later ≡ true → is_open m.state ≡ true
    can_write-open m w = by_state m.state (and_left (is_held m.state) _ w)
      where
        and_left : (a b : Bool) → (a && b) ≡ true → a ≡ true
        and_left a b h = ground arith

        by_state : (x : LeaseState) → is_held x ≡ true → is_open x ≡ true
        by_state held h = refl
        by_state quarantined h = refl
        by_state released h = h
        by_state expired h = h
