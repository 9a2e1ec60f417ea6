-- ===== src/Control/Tasks/Persisted.antt =====
-- task-service.ts, `assertPersistedLineage`: the walk ends.
use bidirectional_bridge_cla.Prelude.{
  ℕ, zero, suc, ◌<◌, ◌≡◌, refl, ap, ◌∙◌, inl, inr, not, some, List, [], ◌∷◌, arith, ◌==◌, length,
  includes, Result, err, throw_if, Bool-cases, Option-cases, invalid_argument, not_found,
}
use bidirectional_bridge_cla.Protocol.Records.{TaskId, Task}
use bidirectional_bridge_cla.Control.Table.{get, get-key}
use bidirectional_bridge_cla.Control.Store.{Store, get_task}
use bidirectional_bridge_cla.Control.Tasks.Ancestors.{unseen, unseen-visit, unseen_bounded}
use bidirectional_bridge_cla.Control.Tasks.Recovery.{lineage_differs, lineage_loop}

lineage_loop-ends :
    (fuel : ℕ) (s : Store) (seen : List TaskId) (current : Task)
    → get_task s current.task_id ≡ some current
    → unseen seen s.tasks < fuel
    → (r : Result (Unit {0})) × (lineage_loop fuel s seen current ≡ some r)
unfolding lineage_loop get_task
lineage_loop-ends zero s seen current found h = elim (none_left h) [ ]
  where
    none_left : {n : ℕ} → n < 0 → ⊥
    none_left h = omega arith
lineage_loop-ends (suc fuel) s seen current found h =
    elim (Bool-cases (includes seen current.task_id)) [
      | inl a ↦ (err invalid_argument, rw a refl)
      | inr a ↦ elim (Option-cases current.parent_task_id) [
        | inl e ↦ (throw_if (not (current.delegation_depth == 0)) invalid_argument, rw (a, e) refl)
        | inr (p, e) ↦ elim (Option-cases (get (λ x. x.task_id) p s.tasks)) [
          | inl f ↦ (err not_found, rw (a, e, f) refl)
          | inr (parent, f) ↦ elim (Bool-cases (lineage_differs current parent)) [
            | inl b ↦ (err invalid_argument, rw (a, e, f, b) refl)
            | inr b ↦
                let (r, g) =
                  lineage_loop-ends fuel s (current.task_id ∷ seen) parent
                    (ap (λ z. get (λ x. x.task_id) z s.tasks)
                        (get-key (λ x. x.task_id) p parent s.tasks f)
                      ∙ f)
                    (less (unseen-visit current.task_id seen s.tasks current found a) h) in
                (r, rw (a, e, f, b) g)
          ]
        ]
      ]
    ]
  where
    less : {m n k : ℕ} → m < n → n < suc k → m < k
    less a b = omega arith

-- The walk over the lineage of a stored task ends within the rounds that the model gives it.
pub lineage_loop-answers :
    (s : Store) (task : Task)
    → get_task s task.task_id ≡ some task
    → (r : Result (Unit {0})) × (lineage_loop (suc (suc (length s.tasks))) s [] task ≡ some r)
lineage_loop-answers s task found = lineage_loop-ends _ s [] task found (unseen_bounded s.tasks)
