-- ===== src/Control/Tasks/Final.antt =====
-- task-service.ts, `finalizeDeliverable`: where the hops end.
use mathlib.Core.Path.{subst}
use bidirectional_bridge_cla.Control.Store.Laws.{get_task-key}
use bidirectional_bridge_cla.Prelude.{
  ℕ, ◌≡◌, refl, sym, ap, ◌∙◌, inl, inr, Bool, true, false, not, ◌&&◌, none, some, List, [], ◌∷◌,
  arith, if◌then◌else◌, ok, >>=-eq-ok, throw_if, throw_if-eq-ok, Bool-cases, illegal_transition,
}
use bidirectional_bridge_cla.Protocol.Lifecycle.{
  TaskState, same_state, same_state-eq, can_transition,
}
use bidirectional_bridge_cla.Protocol.Records.{Task}
use bidirectional_bridge_cla.Control.Store.{Store, get_task}
use bidirectional_bridge_cla.Control.Tasks.Guards.{write}
use bidirectional_bridge_cla.Control.Tasks.Steps.{write-Writes, ok-pair}
use bidirectional_bridge_cla.Control.Tasks.Operations.{Owned-row}
use bidirectional_bridge_cla.Control.Tasks.Transitions.{
  FinalizeInput, finalize_hops, finalize_deliverable, hop_task, hop_type, hop_path,
}
use bidirectional_bridge_cla.Control.Tasks.Calls.{hop_told, read_back}

abbrev last_of : TaskState → List TaskState → TaskState
last_of state [] = state
last_of state (next ∷ path) = last_of next path

hops-end :
    (input : FinalizeInput) (task : Task) (now : ℕ) (path : List TaskState) (s : Store)
    (current t : Task) (s' : Store)
    → get_task s current.task_id ≡ some current
    → finalize_hops input task now path current s ≡ ok (t, s')
    → (get_task s' current.task_id ≡ some t) × (t.state ≡ last_of current.state path)
unfolding finalize_hops
hops-end input task now [] s current t s' found h =
    let (e, f) = ok-pair h in
    (ap (λ z. get_task z current.task_id) (sym f) ∙ found ∙ ap some e, ap (λ z. z.state) (sym e))
hops-end input task now (to ∷ path) s current t s' found h =
    let hopped = hop_task input current to now in
    let (_, c, h1) =
      >>=-eq-ok (throw_if (not (can_transition current.state to)) illegal_transition) _ h in
    let ((u, s1), w, h2) = >>=-eq-ok (write s hopped (hop_type to) input.agent _ none now) _ h1 in
    let (e, ws) =
      write-Writes s current hopped (hop_type to) input.agent _ none now u s1 found refl
        (inl (not-false _ (throw_if-eq-ok _ _ c))) (hop_told input task hopped to) w in
    hops-end input task now path s1 hopped t s' (read_back s current hopped s1 ws)
      (subst (λ x. finalize_hops input task now path x s1 ≡ ok (t, s')) e h2)
  where
    not-false : (b : Bool) → not b ≡ false → b ≡ true
    not-false b h = ground arith

-- A call that is accepted leaves the task in the state that it asks for.
pub finalize-end :
    (s : Store) (input : FinalizeInput) (now : ℕ) (t : Task) (s' : Store)
    → finalize_deliverable s input now ≡ ok (t, s')
    → (get_task s' input.task_id ≡ some t) × (t.state ≡ input.to)
unfolding finalize_deliverable
finalize-end s input now t s' h =
    let (task, own, h1) = Owned-row s input.task_id input.agent _ (t, s') h in
    elim (Bool-cases (same_state task.state input.to)) [
      | inl c ↦
          let (e, f) = ok-pair (rw c at h1) in
          (
            ap (λ z. get_task z input.task_id) (sym f) ∙ own.0 ∙ ap some e,
            ap (λ z. z.state) (sym e) ∙ same_state-eq task.state input.to c,
          )
      | inr c ↦
          let key = get_task-key s input.task_id task own.0 in
          let (f, g) =
            hops-end input task now (hop_path task.state input.to) s task t s'
              (ap (get_task s) key ∙ own.0) (rw c at h1) in
          (ap (get_task s') (sym key) ∙ f, g ∙ path_end task.state input.to)
    ]
  where
    path_end : (from to : TaskState) → last_of from (hop_path from to) ≡ to
    path_end from to = by_test (same_state to TaskState.done && same_state from TaskState.working)
      where
        by_test :
            (b : Bool) → last_of from (if b then TaskState.verifying ∷ to ∷ [] else to ∷ []) ≡ to
        by_test true = refl
        by_test false = refl
