-- ===== src/Control/Tasks/Acyclic.antt =====
-- task-service.ts, `addDependency`: no edge that is accepted closes a cycle.
use mathlib.Core.Path.{subst}
use bidirectional_bridge_cla.Prelude.{
  ℕ, ◌≡◌, refl, sym, ap, ◌∙◌, ◌⊎◌, inl, inr, Bool, true, false, ◌&&◌, ◌||◌, List, [], ◌∷◌, ◌++◌,
  arith, ◌==◌, includes, any, Bool-cases, ==_iff, and-true, Result, ok, >>=-eq-ok, throw_if,
  throw_if-eq-ok, dependency_cycle,
}
use bidirectional_bridge_cla.Protocol.Records.{TaskId, AgentId, Task}
use bidirectional_bridge_cla.Control.Store.{
  Store, targets, insert_ascending, get_dependencies, add_dependency, append_event, update_task,
}
use bidirectional_bridge_cla.Control.Store.Laws.{update_task-Updates}
use bidirectional_bridge_cla.Control.Tasks.Guards.{require_task}
use bidirectional_bridge_cla.Control.Tasks.Dependencies.{
  reaches_or_fail, depending_task, with_edge, write_dependency, add_task_dependency,
}
use bidirectional_bridge_cla.Control.Tasks.Steps.{ok-pair, require_task-found}
use bidirectional_bridge_cla.Control.Tasks.Reach.{Reach, here, along, or_cases}
use bidirectional_bridge_cla.Control.Tasks.Search.{reaches-Reach}

-- No task reaches itself along at least one edge.
abbrev pub IsAcyclic : Store → Type 0
IsAcyclic s = (x y : TaskId) → includes (get_dependencies s x) y ≡ true → Reach s y x → ⊥

abbrev has_edge : TaskId → TaskId → List (TaskId × TaskId) → Bool
has_edge x y edges = any (λ e. e.0 == x && e.1 == y) edges

includes-insert_ascending :
    (a : ℕ) (xs : List ℕ) (y : ℕ) → includes (insert_ascending a xs) y ≡ (a == y || includes xs y)
unfolding insert_ascending
includes-insert_ascending a [] y = refl
includes-insert_ascending a (x ∷ xs) y = ground (arith, includes-insert_ascending a xs y)

includes-targets :
    (x y : TaskId) (edges : List (TaskId × TaskId))
    → includes (targets x edges) y ≡ has_edge x y edges
unfolding targets
includes-targets x y [] = refl
includes-targets x y ((from, to) ∷ edges) = elim (Bool-cases (from == x)) [
  | inl b ↦
      rw (b, includes-insert_ascending to (targets x edges) y, includes-targets x y edges) refl
  | inr b ↦ rw (b, includes-targets x y edges) refl
]

has_edge-append :
    (x y : TaskId) (edges : List (TaskId × TaskId)) (a b : TaskId)
    → has_edge x y (edges ++ (a, b) ∷ []) ≡ (has_edge x y edges || (a == x && b == y))
has_edge-append x y [] a b = ground arith
has_edge-append x y ((f, t) ∷ edges) a b = ground (arith, has_edge-append x y edges a b)

-- The edges after one has been added.
edge_added :
    (x y a b : TaskId) (edges : List (TaskId × TaskId))
    → has_edge x y (add_dependency a b edges) ≡ true
    → (has_edge x y edges ≡ true) ⊎ (a ≡ x) × (b ≡ y)
unfolding add_dependency
edge_added x y a b edges h = elim (Bool-cases (has_edge a b edges)) [
  | inl c ↦ inl (rw c at h)
  | inr c ↦
      elim (or_cases (has_edge x y edges) (a == x && b == y)
        (sym (has_edge-append x y edges a b) ∙ (rw c at h))) [
          | inl d ↦ inl d
          | inr d ↦
              let (e, f) = and-true (a == x) (b == y) d in inr ((==_iff a x).0 e, (==_iff b y).0 f)
        ]
]

module _ (s s' : Store) (a b : TaskId)
    (grown : s'.dependencies ≡ add_dependency a b s.dependencies) where
  old_or_new :
      (x y : TaskId)
      → includes (get_dependencies s' x) y ≡ true
      → (includes (get_dependencies s x) y ≡ true) ⊎ (a ≡ x) × (b ≡ y)
  unfolding get_dependencies
  old_or_new x y h =
      elim (edge_added x y a b s.dependencies
        (ap (has_edge x y) (sym grown) ∙ sym (includes-targets x y s'.dependencies) ∙ h)) [
          | inl e ↦ inl (includes-targets x y s.dependencies ∙ e)
          | inr e ↦ inr e
        ]

  join : {x y z : TaskId} → Reach s x y → Reach s y z → Reach s x z
  join (here x) q = q
  join {z = z} (along x y w d r) q = along x y z d (join r q)

  -- A path in the new graph runs in the old one, or passes the new edge.
  old_path : {x y : TaskId} → Reach s' x y → Reach s x y ⊎ Reach s x a × Reach s b y
  old_path (here x) = inl (here x)
  old_path (along x y z d r) = elim (old_path r) [
    | inl p ↦ elim (old_or_new x y d) [
      | inl e ↦ inl (along x y z e p)
      | inr (e, f) ↦ inr (subst (λ w. Reach s w a) e (here a), subst (λ w. Reach s w z) (sym f) p)
    ]
    | inr (p, q) ↦ elim (old_or_new x y d) [
      | inl e ↦ inr (along x y a e p, q)
      | inr (e, f) ↦ inr (subst (λ w. Reach s w a) e (here a), q)
    ]
  ]

  add_dependency-IsAcyclic : IsAcyclic s → (Reach s b a → ⊥) → IsAcyclic s'
  add_dependency-IsAcyclic no_cycle apart x y d r = elim (old_or_new x y d) [
    | inl e ↦ elim (old_path r) [
      | inl p ↦ no_cycle x y e p
      | inr (p, q) ↦ apart (join q (along x y a e p))
    ]
    | inr (e, f) ↦ elim (old_path r) [
      | inl p ↦ apart (subst (Reach s b) (sym e) (subst (λ w. Reach s w x) (sym f) p))
      | inr (p, q) ↦ apart (subst (λ w. Reach s w a) (sym f) p)
    ]
  ]

-- An accepted call of addDependency on an acyclic dependency graph leaves an acyclic graph.
pub add_task_dependency-IsAcyclic :
    (s : Store) (id on : TaskId) (agent : AgentId) (now : ℕ) (t : Task) (s' : Store)
    → IsAcyclic s
    → add_task_dependency s id on agent now ≡ ok (t, s')
    → IsAcyclic s'
unfolding add_task_dependency write_dependency append_event
add_task_dependency-IsAcyclic s id on agent now t s' acyclic h =
    let (task, e, h1) = >>=-eq-ok (require_task s id) _ h in
    let (found, same) = require_task-found s id task e in
    let (target, _, h2) = >>=-eq-ok (require_task s on) _ h1 in
    let (_, _, h3) = >>=-eq-ok (throw_if (id == on) dependency_cycle) _ h2 in
    let (cycle, asked, h4) = >>=-eq-ok (reaches_or_fail s on id) _ h3 in
    let (_, clear, h5) = >>=-eq-ok (throw_if cycle dependency_cycle) _ h4 in
    let apart = unreached (asked ∙ ap ok (throw_if-eq-ok cycle dependency_cycle clear)) in
    elim (Bool-cases (includes task.spec.dependencies on)) [
      | inl b ↦ subst IsAcyclic (ok-pair (rw b at h5)).1 acyclic
      | inr b ↦
          let (s1, u, h6) = >>=-eq-ok (update_task s (depending_task task on now)) _ (rw b at h5) in
          let edges : s1.dependencies ≡ s.dependencies =
            ap (λ z. z.dependencies)
              (update_task-Updates s (depending_task task on now) s1 u).stored in
          subst IsAcyclic (ok-pair h6).1 (
            add_dependency-IsAcyclic s (with_edge s1 task.task_id on agent now) task.task_id on
              (ap (add_dependency task.task_id on) edges) acyclic
              (λ r. apart (subst (Reach s on) same r)))
    ]
  where
    unreached : reaches_or_fail s on id ≡ ok false → Reach s on id → ⊥
    unreached e = elim (reaches-Reach s on id) [
      | inl (f, _) ↦ no (rw (f, reaches_or_fail) at e)
      | inr (_, n) ↦ n
    ]
      where
        no : ◌≡◌ {A = Result Bool} (ok true) (ok false) → Reach s on id → ⊥
        no e = cc
