-- ===== src/Control/Tasks/Calls.antt =====
-- task-service.ts: the longer operations as sequences of steps.
use mathlib.Core.Path.{subst}
use bidirectional_bridge_cla.Control.Store.Laws.{get_task-key}
use bidirectional_bridge_cla.Prelude.{
  ==_refl, ℕ, ◌≡◌, refl, sym, ap, ◌∙◌, inl, inr, Bool, true, false, not, none, some, List, [], ◌∷◌,
  arith, ◌==◌, if◌then◌else◌, ok, >>=-eq-ok, throw_if, throw_if-eq-ok, Bool-cases,
  illegal_transition,
}
use bidirectional_bridge_cla.Protocol.Lifecycle.{TaskState, same_state, can_transition}
use bidirectional_bridge_cla.Protocol.Scope.{kept_note}
use bidirectional_bridge_cla.Protocol.Records.{Task, finalization}
use bidirectional_bridge_cla.Control.Store.{Store, get_task}
use bidirectional_bridge_cla.Control.Tasks.Guards.{write}
use bidirectional_bridge_cla.Control.Tasks.Steps.{
  Step, writes, Writes, event_state, write-Writes, stays-Step, ok-pair,
}
use bidirectional_bridge_cla.Control.Tasks.Log.{LogAgrees, Step-LogAgrees, get_task-Writes}
use bidirectional_bridge_cla.Control.Tasks.Operations.{Owned-row}
use bidirectional_bridge_cla.Control.Tasks.Transitions.{
  FinalizeInput, finalize_hops, finalize_deliverable, hop_task, hop_type, hop_from, hop_blocker,
  hop_path,
}

-- Any number of steps.
pub data Steps (s : Store) : Store → Type 0 where
  here : Steps s s
  next : {s1 s2 : Store} (t : Task) → Steps s s1 → Step s1 t s2 → Steps s s2

pub Steps-LogAgrees : {s s' : Store} → LogAgrees s → Steps s s' → LogAgrees s'
Steps-LogAgrees l here = l
Steps-LogAgrees l (next {s1 = a} {s2 = b} t r st) = Step-LogAgrees a t b (Steps-LogAgrees l r) st

pub hop_told :
    (input : FinalizeInput) (task hopped : Task) (next : TaskState)
    → event_state (hop_type next) (
        finalization
          (hop_from task hopped)
          next
          input.why
          (hop_blocker next (kept_note input.blocker)))
      ≡ some next
hop_told input task hopped TaskState.blocked = refl
hop_told input task hopped _ = refl

-- The row that a write leaves.
pub read_back :
    (s : Store) (old t : Task) (s' : Store) → Writes s old t s' → get_task s' t.task_id ≡ some t
read_back s old t s' w = get_task-Writes s old t s' t.task_id w ∙ self
  where
    self : (if t.task_id == t.task_id then some t else get_task s t.task_id) ≡ some t
    self = rw (==_refl t.task_id)

hops-Steps :
    (input : FinalizeInput) (task : Task) (now : ℕ) (path : List TaskState) (s0 s : Store)
    (current t : Task) (s' : Store)
    → Steps s0 s
    → get_task s current.task_id ≡ some current
    → finalize_hops input task now path current s ≡ ok (t, s')
    → Steps s0 s'
unfolding finalize_hops
hops-Steps input task now [] s0 s current t s' r found h = rw (sym (ok-pair h).1) r
hops-Steps input task now (to ∷ path) s0 s current t s' r found h =
    let hopped = hop_task input current to now in
    let (_, c, h1) =
      >>=-eq-ok (throw_if (not (can_transition current.state to)) illegal_transition) _ h in
    let ((u, s1), w, h2) = >>=-eq-ok (write s hopped (hop_type to) input.agent _ none now) _ h1 in
    let (e, ws) =
      write-Writes s current hopped (hop_type to) input.agent _ none now u s1 found refl
        (inl (not-false _ (throw_if-eq-ok _ _ c))) (hop_told input task hopped to) w in
    hops-Steps input task now path s0 s1 hopped t s' (next hopped r (writes current ws))
      (read_back s current hopped s1 ws)
      (subst (λ x. finalize_hops input task now path x s1 ≡ ok (t, s')) e h2)
  where
    not-false : (b : Bool) → not b ≡ false → b ≡ true
    not-false b h = ground arith

pub finalize-Steps :
    (s : Store) (input : FinalizeInput) (now : ℕ) (t : Task) (s' : Store)
    → finalize_deliverable s input now ≡ ok (t, s')
    → Steps s s'
unfolding finalize_deliverable
finalize-Steps s input now t s' h =
    let (task, own, h1) = Owned-row s input.task_id input.agent _ (t, s') h in
    elim (Bool-cases (same_state task.state input.to)) [
      | inl c ↦ next t here (stays-Step s input.task_id task t s' own.0 (rw c at h1))
      | inr c ↦
          hops-Steps input task now (hop_path task.state input.to) s s task t s' here
            (ap (get_task s) (get_task-key s input.task_id task own.0) ∙ own.0) (rw c at h1)
    ]
