-- ===== src/Control/Leases/Single.antt =====
-- lease-manager.ts, `assertWritable`: who may write a path.
use bidirectional_bridge_cla.Prelude.{
  ℕ, ◌≡◌, ◌≢◌, refl, sym, ap, ◌∙◌, ◌⊎◌, inl, inr, Bool, true, false, not, ◌&&◌, Option, none, some,
  List, [], ◌∷◌, arith, ◌==◌, all, All, if◌then◌else◌, Result, ok, >>=-eq-ok, throw_if,
  throw_if-eq-ok, Bool-cases, ==_iff, not_owner, lease_invalid, runtime_stop_unconfirmed,
  scope_conflict,
}
use bidirectional_bridge_cla.Protocol.Path.{Text}
use bidirectional_bridge_cla.Protocol.Glob.Overlap.{IsNormal}
use bidirectional_bridge_cla.Protocol.Glob.Prefix.{is_plain}
use bidirectional_bridge_cla.Protocol.Scope.{scope_allows}
use bidirectional_bridge_cla.Protocol.Scope.Conflict.{IsPlain, PlainScope, scopes_conflict_sound}
use bidirectional_bridge_cla.Protocol.Records.{LeaseId, AgentId, Lease, LeaseState}
use bidirectional_bridge_cla.Control.Table.{get, get-key}
use bidirectional_bridge_cla.Control.Store.{
  Store, get_lease, is_quarantined, is_open, open_leases, list_held_leases,
}
use bidirectional_bridge_cla.Control.Leases.Holding.{
  has_lapsed, require_lease, is_quarantined_path, assert_writable,
}
use bidirectional_bridge_cla.Control.Leases.Conflicts.{can_write, IsSameParty, open_leases-All}
use bidirectional_bridge_cla.Control.Leases.Reads.{require_lease-found}
use bidirectional_bridge_cla.Control.Leases.Exclusive.{AreDisjoint, Exclusive}
use bidirectional_bridge_cla.Control.Leases.Writers.{LeaseCall, run_leases, run_leases-Exclusive}

-- What an accepted `assertWritable` has checked.
pub record Writable (s : Store) (id : LeaseId) (holder : AgentId) (path : Text) (now : ℕ)
    : Type 0 where
  pub lease : Lease
  pub found : get_lease s id ≡ some lease
  pub live : can_write lease now ≡ true
  pub mine : lease.holder ≡ holder
  pub allowed : scope_allows lease.scope path ≡ ok true
  pub free : is_quarantined_path id path (list_held_leases s) ≡ ok false

pub assert_writable-Writable :
    (s : Store) (id : LeaseId) (holder : AgentId) (path : Text) (now : ℕ)
    → assert_writable s id holder path now ≡ ok tt
    → Writable s id holder path now
unfolding assert_writable
assert_writable-Writable s id holder path now h =
    let (l, e, h1) = >>=-eq-ok (require_lease s id) _ h in
    let (_, lapsed, h2) = >>=-eq-ok (throw_if (has_lapsed l now) lease_invalid) _ h1 in
    let (_, mine, h3) = >>=-eq-ok (throw_if (not (l.holder == holder)) not_owner) _ h2 in
    let (fenced, f, h4) = >>=-eq-ok (is_quarantined_path id path (list_held_leases s)) _ h3 in
    let (_, clear, h5) = >>=-eq-ok (throw_if fenced runtime_stop_unconfirmed) _ h4 in
    let (allowed, g, h6) = >>=-eq-ok (scope_allows l.scope path) _ h5 in
    record {
      lease = l;
      found = (require_lease-found s id l e).0;
      live = unexpired l (throw_if-eq-ok (has_lapsed l now) lease_invalid lapsed);
      mine =
          (==_iff l.holder holder).0
            (affirmed (l.holder == holder) (throw_if-eq-ok _ not_owner mine));
      allowed = g ∙ ap ok (affirmed allowed (throw_if-eq-ok _ scope_conflict h6));
      free = f ∙ ap ok (throw_if-eq-ok fenced runtime_stop_unconfirmed clear);
    }
  where
    affirmed : (b : Bool) → not b ≡ false → b ≡ true
    affirmed b e = ground arith

    unexpired : (l : Lease) → has_lapsed l now ≡ false → can_write l now ≡ true
    unexpired l e = ground arith

-- Every glob of every lease has its `/**` last.
abbrev pub HasPlainGlobs : Store → Type 0
HasPlainGlobs s = all (λ l. all is_plain l.scope.paths) s.leases ≡ true

and_split : (a b : Bool) → (a && b) ≡ true → (a ≡ true) × (b ≡ true)
and_split a b h = (ground arith, ground arith)

IsPlain-scope : (gs : List Text) → All IsNormal gs → all is_plain gs ≡ true → All IsPlain gs
IsPlain-scope [] n p = tt
IsPlain-scope (g ∷ gs) (n, ns) p =
    let (q, qs) = and_split (is_plain g) (all is_plain gs) p in
    (record { normal = n; plain = q }, IsPlain-scope gs ns qs)

row_is_plain :
    (k : LeaseId) (l : Lease) (ls : List Lease)
    → get (λ x. x.lease_id) k ls ≡ some l
    → all (λ l. all is_plain l.scope.paths) ls ≡ true
    → all is_plain l.scope.paths ≡ true
unfolding get
row_is_plain k l [] f h = cc
row_is_plain k l (m ∷ ls) f h =
    let (p, ps) =
      and_split (all is_plain m.scope.paths) (all (λ l. all is_plain l.scope.paths) ls) h in
    elim (Bool-cases (m.lease_id == k)) [
      | inl b ↦ sym (ap (λ x. all is_plain x.scope.paths) (some-eq (rw b at f))) ∙ p
      | inr b ↦ row_is_plain k l ls (rw b at f) ps
    ]
  where
    some-eq : {x y : Lease} → ◌≡◌ {A = Option Lease} (some x) (some y) → x ≡ y
    some-eq e = cc

writers_agree :
    (s : Store) (now : ℕ) (j k : LeaseId) (a b : AgentId) (path : Text)
    → Exclusive now s
    → HasPlainGlobs s
    → (u : Writable s j a path now) → (v : Writable s k b path now)
    → (a ≡ b) × (u.lease.task_id ≡ v.lease.task_id)
unfolding get_lease
writers_agree s now j k a b path x plain u v =
    cases (x.apart j k u.lease v.lease u.found v.found u.live v.live)
  where
    scope_of : (i : LeaseId) (l : Lease) → get_lease s i ≡ some l → PlainScope l.scope
    scope_of i l f =
        IsPlain-scope l.scope.paths (x.normal i l f) (row_is_plain i l s.leases f plain)

    clash :
        {r : Result Bool}
        → r ≡ ok true
        → r ≡ ok false
        → (a ≡ b) × (u.lease.task_id ≡ v.lease.task_id)
    clash e f = cc

    cases :
        IsSameParty u.lease.holder u.lease.task_id v.lease ⊎ AreDisjoint u.lease v.lease
        → (a ≡ b) × (u.lease.task_id ≡ v.lease.task_id)
    cases (inl (e, f)) = (sym u.mine ∙ sym e ∙ v.mine, sym f)
    cases (inr (inl e)) =
        clash
          (scopes_conflict_sound u.lease.scope v.lease.scope path (scope_of j u.lease u.found)
            (scope_of k v.lease v.found) u.allowed v.allowed)
          e
    cases (inr (inr e)) =
        clash
          (scopes_conflict_sound v.lease.scope u.lease.scope path (scope_of k v.lease v.found)
            (scope_of j u.lease u.found) v.allowed u.allowed)
          e

pub no_leases-Exclusive : (now : ℕ) (s : Store) → s.leases ≡ [] → Exclusive now s
unfolding get_lease get
no_leases-Exclusive now s e = record {
  normal = λ k l f. clash (sym (ap (get (λ x. x.lease_id) k) e) ∙ f);
  apart = λ j k l m f g w v. clash (sym (ap (get (λ x. x.lease_id) j) e) ∙ f);
}
  where
    clash : {C : Type 0} {l : Lease} → ◌≡◌ {A = Option Lease} none (some l) → C
    clash e = cc

-- After any history of lease calls that begins without leases, and that leaves only globs in which
-- a `/**` stands at the end, two callers that assertWritable lets write one path are one agent,
-- and their leases are of one task.
pub single_writer :
    (cs : List (ℕ × LeaseCall)) (start : ℕ) (s : Store) (j k : LeaseId) (a b : AgentId)
    (path : Text)
    → s.leases ≡ []
    → HasPlainGlobs (run_leases start cs s).1
    → assert_writable (run_leases start cs s).1 j a path (run_leases start cs s).0 ≡ ok tt
    → assert_writable (run_leases start cs s).1 k b path (run_leases start cs s).0 ≡ ok tt
    → (a ≡ b)
      × ((l : Lease) × (m : Lease) × (get_lease (run_leases start cs s).1 j ≡ some l)
          × (get_lease (run_leases start cs s).1 k ≡ some m)
          × (l.task_id ≡ m.task_id))
single_writer cs start s j k a b path e plain u v =
    let t = (run_leases start cs s).0 in
    let s' = (run_leases start cs s).1 in
    let x = assert_writable-Writable s' j a path t u in
    let y = assert_writable-Writable s' k b path t v in
    let (same, task) =
      writers_agree s' t j k a b path
        (run_leases-Exclusive cs start s (no_leases-Exclusive start s e)) plain x y in
    (same, (x.lease, y.lease, x.found, y.found, task))

is_quarantined_path-All :
    (id : LeaseId) (path : Text) (ls : List Lease)
    → is_quarantined_path id path ls ≡ ok false
    → All
        (λ o.
          (not (o.lease_id == id) && is_quarantined o.state) ≡ true
          → scope_allows o.scope path ≡ ok false)
        ls
unfolding is_quarantined_path
is_quarantined_path-All id path [] h = tt
is_quarantined_path-All id path (o ∷ ls) h =
    elim (Bool-cases (not (o.lease_id == id) && is_quarantined o.state)) [
      | inl b ↦
          let (allowed, e, h1) = >>=-eq-ok (scope_allows o.scope path) _ (rw b at h) in
          let (c, f) = split allowed h1 in (λ _. e ∙ ap ok c, is_quarantined_path-All id path ls f)
      | inr b ↦ (λ c. clash (sym b ∙ c), is_quarantined_path-All id path ls (rw b at h))
    ]
  where
    clash : {C : Type 0} → false ≡ true → C
    clash e = cc

    split :
        (allowed : Bool)
        → (if allowed then ok true else is_quarantined_path id path ls) ≡ ok false
        → (allowed ≡ false) × (is_quarantined_path id path ls ≡ ok false)
    split true h = cc
    split false h = (refl, h)

-- A path that assertWritable lets a lease write lies in no quarantined scope of another lease.
pub quarantine_fences :
    (s : Store) (id k : LeaseId) (holder : AgentId) (path : Text) (now : ℕ) (m : Lease)
    → assert_writable s id holder path now ≡ ok tt
    → get_lease s k ≡ some m
    → m.state ≡ LeaseState.quarantined
    → k ≢ id
    → scope_allows m.scope path ≡ ok false
unfolding list_held_leases get_lease
quarantine_fences s id k holder path now m h found state other =
    let w = assert_writable-Writable s id holder path now h in
    open_leases-All
      (λ o.
        (not (o.lease_id == id) && is_quarantined o.state) ≡ true
        → scope_allows o.scope path ≡ ok false)
      k m s.leases (is_quarantined_path-All id path (open_leases s.leases) w.free) found
      (ap is_open state)
      (both (m.lease_id == id)
        (λ e.
          other (sym (get-key (λ x. x.lease_id) k m s.leases found) ∙ (==_iff m.lease_id id).0 e))
        (ap is_quarantined state))
  where
    both : {q : Bool} (b : Bool) → (b ≡ true → ⊥) → q ≡ true → (not b && q) ≡ true
    both true n e = elim (n refl) [ ]
    both false n e = e
