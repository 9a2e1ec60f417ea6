-- ===== src/Control/Tasks/Ancestors.antt =====
-- task-service.ts, `assertDelegationTargetNotInAncestors`: the walk ends, and its answer.
use mathlib.Core.Path.{subst}
use bidirectional_bridge_cla.Prelude.{
  ℕ, zero, suc, ◌<◌, ◌≤◌, ◌≡◌, refl, sym, ap, ◌∙◌, inl, inr, Bool, true, false, ◌||◌, Option, none,
  some, List, [], ◌∷◌, arith, ◌==◌, length, includes, if◌then◌else◌, Bool-cases, Option-cases,
  ==_iff, ==_refl, Result, ok, err, invalid_argument, not_found,
}
use bidirectional_bridge_cla.Protocol.Records.{TaskId, AgentId, Task}
use bidirectional_bridge_cla.Control.Table.{get}
use bidirectional_bridge_cla.Control.Store.{Store, get_task}
use bidirectional_bridge_cla.Control.Tasks.Lineage.{
  lineage_agent, ancestors_loop, assert_target_not_in_ancestors,
}

-- The rows that the walk has not seen.
unfoldable pub unseen : List TaskId → List Task → ℕ
unseen seen [] = 0
unseen seen (t ∷ ts) =
    let rest = unseen seen ts in if includes seen t.task_id then rest else suc rest

unseen_mono :
    (id : TaskId) (seen : List TaskId) (ts : List Task) → unseen (id ∷ seen) ts ≤ unseen seen ts
unfolding unseen
unseen_mono id seen [] = omega arith
unseen_mono id seen (t ∷ ts) = elim (Bool-cases (id == t.task_id)) [
  | inl b ↦ rw b (grows (includes seen t.task_id) (unseen_mono id seen ts))
  | inr b ↦ rw b (both (includes seen t.task_id) (unseen_mono id seen ts))
]
  where
    grows : {m n : ℕ} (b : Bool) → m ≤ n → m ≤ (if b then n else suc n)
    grows true h = h
    grows false h = omega arith

    both : {m n : ℕ} (b : Bool) → m ≤ n → (if b then m else suc m) ≤ (if b then n else suc n)
    both true h = h
    both false h = omega arith

pub unseen-visit :
    (id : TaskId) (seen : List TaskId) (ts : List Task) (t : Task)
    → get (λ x. x.task_id) id ts ≡ some t
    → includes seen id ≡ false
    → unseen (id ∷ seen) ts < unseen seen ts
unfolding unseen get
unseen-visit id seen [] t h i = elim (no h) [ ]
  where
    no : ◌≡◌ {A = Option Task} none (some t) → ⊥
    no h = cc
unseen-visit id seen (u ∷ ts) t h i = elim (Bool-cases (u.task_id == id)) [
  | inl b ↦ counted u.task_id ((==_iff u.task_id id).0 b)
  | inr b ↦
      passed (id == u.task_id) (includes seen u.task_id) (flip u.task_id b)
        (unseen-visit id seen ts t (rw b at h) i)
]
  where
    flip : (k : ℕ) → (k == id) ≡ false → (id == k) ≡ false
    flip k e = ground arith

    smaller : {m n : ℕ} → m ≤ n → m < suc n
    smaller h = omega arith

    counted :
        (k : ℕ)
        → k ≡ id
        → (if includes (id ∷ seen) k then unseen (id ∷ seen) ts else suc (unseen (id ∷ seen) ts))
          < (if includes seen k then unseen seen ts else suc (unseen seen ts))
    counted k e =
        subst
          (λ z.
            (if includes (id ∷ seen) z then unseen (id ∷ seen) ts else suc (unseen (id ∷ seen) ts))
            < (if includes seen z then unseen seen ts else suc (unseen seen ts)))
          (sym e) (rw (==_refl id, i) (smaller (unseen_mono id seen ts)))

    passed :
        {m n : ℕ} (a b : Bool)
        → a ≡ false
        → m < n
        → (if a || b then m else suc m) < (if b then n else suc n)
    passed true b e h = elim (no e) [ ]
      where
        no : true ≡ false → ⊥
        no e = cc
    passed false true e h = h
    passed false false e h = omega arith

-- The task `id` and those above it.
pub data Ancestor (s : Store) : TaskId → Task → Type 0 where
  self : (id : TaskId) (t : Task) → get_task s id ≡ some t → Ancestor s id t
  above :
      (id p : TaskId) (t u : Task)
      → get_task s id ≡ some t
      → t.parent_task_id ≡ some p
      → Ancestor s p u
      → Ancestor s id u

ancestors_loop-ends :
    (fuel : ℕ) (s : Store) (target : AgentId) (seen : List TaskId) (current : Option TaskId)
    → unseen seen s.tasks < fuel
    → (r : Result (Unit {0})) × (ancestors_loop fuel s target seen current ≡ some r)
unfolding ancestors_loop get_task
ancestors_loop-ends zero s target seen current h = elim (none_left h) [ ]
  where
    none_left : {n : ℕ} → n < 0 → ⊥
    none_left h = omega arith
ancestors_loop-ends (suc fuel) s target seen none h = (ok tt, refl)
ancestors_loop-ends (suc fuel) s target seen (some id) h = elim (Bool-cases (includes seen id)) [
  | inl a ↦ (err invalid_argument, rw a refl)
  | inr a ↦ elim (Option-cases (get (λ x. x.task_id) id s.tasks)) [
    | inl e ↦ (err not_found, rw (a, e) refl)
    | inr (t, e) ↦ elim (Bool-cases (lineage_agent t == target)) [
      | inl b ↦ (err invalid_argument, rw (a, e, b) refl)
      | inr b ↦
          let (r, f) =
            ancestors_loop-ends fuel s target (id ∷ seen) t.parent_task_id
              (less (unseen-visit id seen s.tasks t e a) h) in
          (r, rw (a, e, b) f)
    ]
  ]
]
  where
    less : {m n k : ℕ} → m < n → n < suc k → m < k
    less a b = omega arith

ancestors_loop-clear :
    (fuel : ℕ) (s : Store) (target : AgentId) (seen : List TaskId) (id : TaskId) (u : Task)
    → ancestors_loop fuel s target seen (some id) ≡ some (ok tt)
    → Ancestor s id u
    → (lineage_agent u == target) ≡ false
unfolding ancestors_loop get_task
ancestors_loop-clear zero s target seen id u h r = cc
ancestors_loop-clear (suc fuel) s target seen id u h r = elim (Bool-cases (includes seen id)) [
  | inl a ↦ refused (rw a at h)
  | inr a ↦ elim (Option-cases (get (λ x. x.task_id) id s.tasks)) [
    | inl e ↦ missing (rw (a, e) at h)
    | inr (t, e) ↦ elim (Bool-cases (lineage_agent t == target)) [
      | inl b ↦ refused (rw (a, e, b) at h)
      | inr b ↦
          climbed t e b (rw (a, e, b) at h)
            (λ p v g q. ancestors_loop-clear fuel s target (id ∷ seen) p v g q) r
    ]
  ]
]
  where
    refused :
        ◌≡◌ {A = Option (Result (Unit {0}))} (some (err invalid_argument)) (some (ok tt))
        → (lineage_agent u == target) ≡ false
    refused h = cc

    missing :
        ◌≡◌ {A = Option (Result (Unit {0}))} (some (err not_found)) (some (ok tt))
        → (lineage_agent u == target) ≡ false
    missing h = cc

    some-eq : {x y : Task} → ◌≡◌ {A = Option Task} (some x) (some y) → x ≡ y
    some-eq e = cc

    climbed :
        (t : Task)
        → get (λ x. x.task_id) id s.tasks ≡ some t
        → (lineage_agent t == target) ≡ false
        → ancestors_loop fuel s target (id ∷ seen) t.parent_task_id ≡ some (ok tt)
        → ((p : TaskId) (v : Task)
            → ancestors_loop fuel s target (id ∷ seen) (some p) ≡ some (ok tt)
            → Ancestor s p v
            → (lineage_agent v == target) ≡ false)
        → Ancestor s id u
        → (lineage_agent u == target) ≡ false
    climbed t e b g rest (self _ _ found) =
        ap (λ z. lineage_agent z == target) (some-eq (sym found ∙ e)) ∙ b
    climbed t e b g rest (above _ p t' _ found parent q) =
        rest p u
          (ap (ancestors_loop fuel s target (id ∷ seen))
              (sym (ap (λ z. z.parent_task_id) (some-eq (sym e ∙ found)) ∙ parent))
            ∙ g)
          q

pub unseen_bounded : (ts : List Task) → unseen [] ts < suc (suc (length ts))
unfolding unseen
unseen_bounded ts = bounded (all_unseen ts)
  where
    all_unseen : (ts : List Task) → unseen [] ts ≡ length ts
    all_unseen [] = refl
    all_unseen (t ∷ ts) = ap suc (all_unseen ts)

    bounded : {n m : ℕ} → n ≡ m → n < suc (suc m)
    bounded e = omega arith

-- The walk over the ancestors of a task ends for every parent, within the rounds that the model
-- gives it, and it accepts a target only when no task of the lineage stands for that agent.
pub assert_target_not_in_ancestors-ends :
    (s : Store) (parent : TaskId) (target : AgentId)
    → (r : Result (Unit {0})) × (assert_target_not_in_ancestors s parent target ≡ some r)
      × (r ≡ ok tt → (u : Task) → Ancestor s parent u → (lineage_agent u == target) ≡ false)
unfolding assert_target_not_in_ancestors
assert_target_not_in_ancestors-ends s parent target =
    let (r, e) =
      ancestors_loop-ends (suc (suc (length s.tasks))) s target [] (some parent)
        (unseen_bounded s.tasks) in
    (
      r,
      e,
      λ a u q.
          ancestors_loop-clear (suc (suc (length s.tasks))) s target [] parent u (e ∙ ap some a) q,
    )
