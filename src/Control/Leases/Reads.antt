-- ===== src/Control/Leases/Reads.antt =====
-- lease-manager.ts: what the operations leave for the reads of the leases that follow.
use bidirectional_bridge_cla.Prelude.{
  ◌≡◌, refl, sym, ap, ◌∙◌, ◌⊎◌, inl, inr, Option, none, some, List, ◌==◌, if◌then◌else◌, Result, ok,
  err, Bool-cases, Option-cases, ==_iff, not_found,
}
use bidirectional_bridge_cla.Protocol.Records.{LeaseId, Lease}
use bidirectional_bridge_cla.Control.Table.{get, replace, get-replace, get-key}
use bidirectional_bridge_cla.Control.Store.{Store, get_lease, update_lease}
use bidirectional_bridge_cla.Control.Leases.Holding.{require_lease}

-- After the change, the row of `id` is `new`, and the other rows are as before.
abbrev pub Sets : Store → LeaseId → Lease → Store → Type 0
Sets s id new s' = (k : LeaseId) → get_lease s' k ≡ (if id == k then some new else get_lease s k)

-- The columns of an UPDATE.
abbrev pub revised : Lease → Lease → Lease
revised row lease = record row {
  state = lease.state;
  expires_at = lease.expires_at;
  released_at = lease.released_at;
}

pub ok-lease {ℓ} :
    {A : Type ℓ} {x y : A} {a b : Store}
    → ◌≡◌ {A = Result (A × Store)} (ok (x, a)) (ok (y, b))
    → (x ≡ y) × (a ≡ b)
ok-lease e = (cc, cc)

pub require_lease-found :
    (s : Store) (id : LeaseId) (l : Lease)
    → require_lease s id ≡ ok l
    → (get_lease s id ≡ some l) × (l.lease_id ≡ id)
unfolding require_lease get_lease
require_lease-found s id l h = cases (get (λ x. x.lease_id) id s.leases) refl h
  where
    cases :
        (o : Option Lease)
        → get (λ x. x.lease_id) id s.leases ≡ o
        → (elim o as (λ _. Result Lease) [ none ↦ err not_found | some x ↦ ok x ]) ≡ ok l
        → (get (λ x. x.lease_id) id s.leases ≡ some l) × (l.lease_id ≡ id)
    cases none e h = cc
    cases (some x) e h =
        let f : get (λ x. x.lease_id) id s.leases ≡ some l = cc in
        (f, get-key (λ x. x.lease_id) id l s.leases f)

replaced :
    (k : LeaseId) (row new : Lease) (ls : List Lease)
    → get (λ x. x.lease_id) new.lease_id ls ≡ some row
    → get (λ x. x.lease_id) k (replace (λ x. x.lease_id) new ls)
      ≡ (if new.lease_id == k then some new else get (λ x. x.lease_id) k ls)
replaced k row new ls e =
    rw (get-replace (λ x. x.lease_id) k new ls) (elim (Bool-cases (new.lease_id == k)) [
      | inl hit ↦ rw (hit, ← (==_iff new.lease_id k).0 hit, e)
      | inr miss ↦ rw miss
    ])

-- The store with one row of the leases set.
abbrev pub with_lease : Store → Lease → Store
with_lease s l = record s { leases = replace (λ x. x.lease_id) l s.leases }

update_lease-stored :
    (s : Store) (row new : Lease)
    → get_lease s new.lease_id ≡ some row
    → update_lease s new ≡ with_lease s (revised row new)
unfolding update_lease
update_lease-stored s row new e = rw (e, update_lease)

pub update_lease-Sets :
    (s : Store) (id : LeaseId) (row new : Lease)
    → get_lease s id ≡ some row
    → new.lease_id ≡ row.lease_id
    → revised row new ≡ new
    → Sets s id new (update_lease s new)
unfolding get_lease
update_lease-Sets s id row new found same_id same k =
    let key : new.lease_id ≡ id = same_id ∙ get-key (λ x. x.lease_id) id row s.leases found in
    let here : get_lease s new.lease_id ≡ some row = ap (get_lease s) key ∙ found in
    ap (λ z. get_lease z k) (update_lease-stored s row new here ∙ ap (with_lease s) same)
    ∙ replaced k row new s.leases here
    ∙ ap (λ z. if z == k then some new else get_lease s k) key

reads_rows : (s s' : Store) (k : LeaseId) → s.leases ≡ s'.leases → get_lease s k ≡ get_lease s' k
unfolding get_lease
reads_rows s s' k e = ap (get (λ x. x.lease_id) k) e

-- An operation that ends in an UPDATE, and in events.
pub changes :
    (s : Store) (id : LeaseId) (row new l : Lease) (x s' : Store)
    → get_lease s id ≡ some row
    → new.lease_id ≡ row.lease_id
    → revised row new ≡ new
    → x.leases ≡ (update_lease s new).leases
    → new ≡ l
    → x ≡ s'
    → Sets s id l s'
changes s id row new l x s' found same_id same rows same_lease stored k =
    ap (λ z. get_lease z k) (sym stored)
    ∙ reads_rows x (update_lease s new) k rows
    ∙ update_lease-Sets s id row new found same_id same k
    ∙ ap (λ z. if id == k then some z else get_lease s k) same_lease

-- Any UPDATE: without a row it does nothing.
pub update_lease-cases :
    (s : Store) (new : Lease)
    → (update_lease s new ≡ s)
      ⊎ (row : Lease) × (get_lease s new.lease_id ≡ some row)
        × Sets s new.lease_id (revised row new) (update_lease s new)
unfolding get_lease update_lease
update_lease-cases s new = elim (Option-cases (get_lease s new.lease_id)) [
  | inl e ↦ inl (rw (e, update_lease))
  | inr (row, e) ↦ inr (row, e, sets row e)
]
  where
    sets :
        (row : Lease)
        → get_lease s new.lease_id ≡ some row
        → Sets s new.lease_id (revised row new) (update_lease s new)
    sets row e k =
        let key : row.lease_id ≡ new.lease_id =
          get-key (λ x. x.lease_id) new.lease_id row s.leases e in
        ap (λ z. get_lease z k) (update_lease-stored s row new e)
        ∙ replaced k row (revised row new) s.leases (ap (get_lease s) key ∙ e)
        ∙ ap (λ z. if z == k then some (revised row new) else get_lease s k) key
