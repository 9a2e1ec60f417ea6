-- ===== src/Control/Leases/Exclusive.antt =====
-- lease-manager.ts: leases that can write at one time have disjoint scopes, or one holder and task.
use mathlib.Core.Path.{subst}
use bidirectional_bridge_cla.Prelude.{
  ℕ, ◌≤◌, ◌≡◌, sym, ap, ◌∙◌, ◌⊎◌, inl, inr, true, false, Option, some, arith, ◌==◌, All, ok,
  Bool-cases,
}
use bidirectional_bridge_cla.Protocol.Glob.Overlap.{IsNormal}
use bidirectional_bridge_cla.Protocol.Scope.{scopes_conflict}
use bidirectional_bridge_cla.Protocol.Records.{LeaseId, Lease}
use bidirectional_bridge_cla.Control.Store.{Store, get_lease}
use bidirectional_bridge_cla.Control.Leases.Conflicts.{can_write, IsSameParty}
use bidirectional_bridge_cla.Control.Leases.Reads.{Sets}

-- In one of the two orders, the scopes have no conflict.
abbrev pub AreDisjoint : Lease → Lease → Type 0
AreDisjoint l m =
    (scopes_conflict l.scope m.scope ≡ ok false) ⊎ (scopes_conflict m.scope l.scope ≡ ok false)

pub record Exclusive (now : ℕ) (s : Store) : Type 0 where
  pub normal : (k : LeaseId) (l : Lease) → get_lease s k ≡ some l → All IsNormal l.scope.paths
  pub apart :
      (j k : LeaseId) (l m : Lease)
      → get_lease s j ≡ some l
      → get_lease s k ≡ some m
      → can_write l now ≡ true
      → can_write m now ≡ true
      → IsSameParty l.holder l.task_id m ⊎ AreDisjoint l m

-- Time takes the right to write away, and gives none.
pub later-Exclusive :
    (now later : ℕ) (s : Store) → now ≤ later → Exclusive now s → Exclusive later s
later-Exclusive now later s le x = record {
  normal = x.normal;
  apart = λ j k l m f g w v. x.apart j k l m f g (earlier l w) (earlier m v);
}
  where
    earlier : (l : Lease) → can_write l later ≡ true → can_write l now ≡ true
    earlier l w = ground arith

pub rows-Exclusive :
    (now : ℕ) (s s' : Store) → s'.leases ≡ s.leases → Exclusive now s → Exclusive now s'
unfolding get_lease
rows-Exclusive now s s' e x = record {
  normal = λ k l f. x.normal k l (reads k ∙ f);
  apart = λ j k l m f g. x.apart j k l m (reads j ∙ f) (reads k ∙ g);
}
  where
    reads : (k : LeaseId) → get_lease s k ≡ get_lease s' k
    reads k = ap (λ z. get_lease (record s { leases = z }) k) (sym e)

-- A row that is set: it must fit the rows that were there.
pub Sets-Exclusive :
    (now : ℕ) (s : Store) (id : LeaseId) (new : Lease) (s' : Store)
    → Exclusive now s
    → Sets s id new s'
    → All IsNormal new.scope.paths
    → ((k : LeaseId) (m : Lease)
        → get_lease s k ≡ some m
        → can_write new now ≡ true
        → can_write m now ≡ true
        → IsSameParty new.holder new.task_id m ⊎ AreDisjoint new m)
    → Exclusive now s'
Sets-Exclusive now s id new s' x sets n fits = record {
  normal = λ k l f. elim (reads k l f) [
    | inl e ↦ subst (λ z. All IsNormal z.scope.paths) e n
    | inr g ↦ x.normal k l g
  ];
  apart = λ j k l m f g w v. pair j k l m (reads j l f) (reads k m g) w v;
}
  where
    reads :
        (k : LeaseId) (l : Lease) → get_lease s' k ≡ some l → (new ≡ l) ⊎ (get_lease s k ≡ some l)
    reads k l f = elim (Bool-cases (id == k)) [
      | inl b ↦ inl (some-eq (sym (rw b at (sets k)) ∙ f))
      | inr b ↦ inr (sym (rw b at (sets k)) ∙ f)
    ]
      where
        some-eq : {x y : Lease} → ◌≡◌ {A = Option Lease} (some x) (some y) → x ≡ y
        some-eq e = cc

    flip :
        (l m : Lease)
        → IsSameParty l.holder l.task_id m ⊎ AreDisjoint l m
        → IsSameParty m.holder m.task_id l ⊎ AreDisjoint m l
    flip l m (inl (a, b)) = inl (sym a, sym b)
    flip l m (inr (inl a)) = inr (inr a)
    flip l m (inr (inr a)) = inr (inl a)

    pair :
        (j k : LeaseId) (l m : Lease)
        → (new ≡ l) ⊎ (get_lease s j ≡ some l)
        → (new ≡ m) ⊎ (get_lease s k ≡ some m)
        → can_write l now ≡ true
        → can_write m now ≡ true
        → IsSameParty l.holder l.task_id m ⊎ AreDisjoint l m
    pair j k l m (inl e) (inl f) w v =
        inl (ap (λ z. z.holder) (sym f ∙ e), ap (λ z. z.task_id) (sym f ∙ e))
    pair j k l m (inl e) (inr g) w v =
        subst (λ z. IsSameParty z.holder z.task_id m ⊎ AreDisjoint z m) e
          (fits k m g (ap (λ z. can_write z now) e ∙ w) v)
    pair j k l m (inr f) (inl e) w v =
        subst (λ z. IsSameParty l.holder l.task_id z ⊎ AreDisjoint l z) e
          (flip new l (fits j l f (ap (λ z. can_write z now) e ∙ v) w))
    pair j k l m (inr f) (inr g) w v = x.apart j k l m f g w v
