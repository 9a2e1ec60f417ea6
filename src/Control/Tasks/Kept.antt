-- ===== src/Control/Tasks/Kept.antt =====
-- task-service.ts: the operations that are more than a step, and the event log.
use mathlib.Core.Path.{subst}
use bidirectional_bridge_cla.Prelude.{
  ℕ, ◌≡◌, refl, sym, ap, ◌∙◌, inl, inr, Bool, true, false, Option, none, some, List, ◌==◌, includes,
  if◌then◌else◌, Result, ok, >>=-eq-ok, throw_if, or_else, ==_iff, Bool-cases, dependency_cycle,
}
use bidirectional_bridge_cla.Protocol.Lifecycle.{TaskState}
use bidirectional_bridge_cla.Protocol.Records.{
  TaskId, RunId, AgentId, Task, StatusUpdate, task_dependency_added, dependency, status_reported,
  status,
}
use bidirectional_bridge_cla.Control.Store.{
  Store, get_task, update_task, append_event, add_dependency, insert_status, set_columns,
}
use bidirectional_bridge_cla.Control.Store.Laws.{with_task, update_task-Updates, get_task-with_task}
use bidirectional_bridge_cla.Control.Idempotency.{
  IdempotentOptions, run_idempotent, Outcome-keeps, run_idempotent-Outcome,
}
use bidirectional_bridge_cla.Control.Tasks.Guards.{require_task, assert_owner}
use bidirectional_bridge_cla.Control.Tasks.Steps.{require_task-found, ok-pair}
use bidirectional_bridge_cla.Control.Tasks.Log.{
  LogAgrees, last_state, state_of, Step-LogAgrees, put_idempotency-LogAgrees,
}
use bidirectional_bridge_cla.Control.Tasks.Lineage.{CreateTaskInput, create_body, create}
use bidirectional_bridge_cla.Control.Tasks.Created.{create_body-Created, Created-LogAgrees}
use bidirectional_bridge_cla.Control.Tasks.Ownership.{claim_body, claim, report_status}
use bidirectional_bridge_cla.Control.Tasks.Dependencies.{
  reaches_or_fail, depending_task, with_edge, write_dependency, add_task_dependency,
}
use bidirectional_bridge_cla.Control.Tasks.Transitions.{
  TransitionInput, transition_body, transition_task,
}
use bidirectional_bridge_cla.Control.Tasks.Operations.{claim_body-Step, transition_body-Step}

-- A call under an idempotency key.
pub keyed-LogAgrees :
    (seen : Store) (opts : IdempotentOptions) (now : ℕ) (fn : Store → Result (Task × Store))
    (s : Store) (t : Task) (s' : Store)
    → LogAgrees s
    → ((u : Task) (x : Store) → fn s ≡ ok (u, x) → LogAgrees x)
    → run_idempotent seen opts now fn s ≡ ok (t, s')
    → LogAgrees s'
keyed-LogAgrees seen opts now fn s t s' l body h =
    Outcome-keeps LogAgrees seen opts now fn s t s' (λ r x. put_idempotency-LogAgrees x r) body l
      (run_idempotent-Outcome seen opts now fn s t s' h)

pub create-LogAgrees :
    (hash : CreateTaskInput → ℕ) (seen : Store) (input : CreateTaskInput) (id : TaskId)
    (run : RunId) (now : ℕ) (s : Store) (t : Task) (s' : Store)
    → LogAgrees s
    → create hash seen input id run now s ≡ ok (t, s')
    → LogAgrees s'
unfolding create
create-LogAgrees hash seen input id run now s t s' l h =
    keyed-LogAgrees seen _ now (create_body input id run now) s t s' l
      (λ u x e. Created-LogAgrees input s u x l (create_body-Created input id run now s u x e)) h

pub claim-LogAgrees :
    (hash : TaskId → AgentId → ℕ) (seen : Store) (id : TaskId) (agent : AgentId) (key : Option ℕ)
    (now : ℕ) (s : Store) (t : Task) (s' : Store)
    → LogAgrees s
    → claim hash seen id agent key now s ≡ ok (t, s')
    → LogAgrees s'
unfolding claim
claim-LogAgrees hash seen id agent key now s t s' l h =
    keyed-LogAgrees seen _ now (claim_body id agent key now) s t s' l
      (λ u x e. Step-LogAgrees s u x l (claim_body-Step id agent key now s u x e)) h

pub transition-LogAgrees :
    (hash : TaskId → TaskState → AgentId → ℕ) (seen : Store) (input : TransitionInput) (now : ℕ)
    (s : Store) (t : Task) (s' : Store)
    → LogAgrees s
    → transition_task hash seen input now s ≡ ok (t, s')
    → LogAgrees s'
unfolding transition_task
transition-LogAgrees hash seen input now s t s' l h =
    keyed-LogAgrees seen _ now (transition_body input now) s t s' l
      (λ u x e. Step-LogAgrees s u x l (transition_body-Step input now s u x e)) h

-- The two events that tell no state.
pub silent-LogAgrees :
    (s : Store) (u : StatusUpdate) (agent : AgentId) (now : ℕ)
    → LogAgrees s
    → LogAgrees (
        append_event
          (insert_status s u)
          status_reported
          u.task_id
          agent
          (status u.state u.current_action u.progress u.next_action u.blockers)
          none
          now)
unfolding insert_status append_event get_task last_state
silent-LogAgrees s u agent now l = record {
  at = λ k. elim (Bool-cases (u.task_id == k)) [ inl e ↦ rw e (l.at k) | inr e ↦ rw e (l.at k) ];
}

pub report-LogAgrees :
    (s : Store) (u : StatusUpdate) (s' : Store)
    → LogAgrees s
    → report_status s u ≡ ok s'
    → LogAgrees s'
unfolding report_status
report-LogAgrees s u s' l h =
    let (found, _, h1) = >>=-eq-ok (require_task s u.task_id) _ h in
    let (task, _, h2) = >>=-eq-ok (assert_owner found u.agent) _ h1 in
    subst LogAgrees (ok-same h2) (silent-LogAgrees s u u.agent u.at l)
  where
    ok-same : {a b : Store} → ok a ≡ ok b → a ≡ b
    ok-same e = cc

same_states :
    (s : Store) (task new : Task) (k : TaskId)
    → get_task s new.task_id ≡ some task
    → new.state ≡ task.state
    → state_of (get_task s k) ≡ state_of (if new.task_id == k then some new else get_task s k)
same_states s task new k found same = elim (Bool-cases (new.task_id == k)) [
  | inl hit ↦ rw hit (
      ap (λ x. state_of (get_task s x)) (sym ((==_iff new.task_id k).0 hit))
      ∙ ap state_of found
      ∙ ap some (sym same))
  | inr miss ↦ rw miss
]

no_state : (b : Bool) (o : Option TaskState) → or_else (if b then none else none) o ≡ o
no_state true o = refl
no_state false o = refl

pub edge-LogAgrees :
    (s : Store) (task new : Task) (edges : List (TaskId × TaskId)) (on : TaskId) (agent : AgentId)
    (now : ℕ)
    → LogAgrees s
    → get_task s new.task_id ≡ some task
    → new.state ≡ task.state
    → LogAgrees (
        append_event
          (record (with_task s new) { dependencies = edges })
          task_dependency_added
          new.task_id
          agent
          (dependency on)
          none
          now)
unfolding append_event last_state get_task
edge-LogAgrees s task new edges on agent now l found same = record {
  at = λ k.
      no_state (new.task_id == k) (last_state k s.events)
      ∙ l.at k
      ∙ same_states s task new k found same
      ∙ ap state_of (sym (get_task-with_task s task new k found));
}

pub write_dependency-LogAgrees :
    (s : Store) (task : Task) (on : TaskId) (agent : AgentId) (now : ℕ) (t : Task) (s' : Store)
    → LogAgrees s
    → get_task s task.task_id ≡ some task
    → write_dependency s task on agent now ≡ ok (t, s')
    → LogAgrees s'
unfolding write_dependency
write_dependency-LogAgrees s task on agent now t s' l found h =
    let new = depending_task task on now in
    let (s1, u, h1) = >>=-eq-ok (update_task s new) _ h in
    let up = update_task-Updates s new s1 u in
    let row : up.row ≡ task = some-eq (sym up.found ∙ found) in
    let here : s1 ≡ with_task s new = up.stored ∙ ap (λ x. with_task s (set_columns x new)) row in
    subst LogAgrees (ap (λ x. with_edge x task.task_id on agent now) (sym here) ∙ (ok-pair h1).1) (
      edge-LogAgrees s task new (add_dependency task.task_id on s.dependencies) on agent now l found
        refl)
  where
    some-eq : {x y : Task} → some x ≡ some y → x ≡ y
    some-eq e = cc

pub depends-LogAgrees :
    (s : Store) (id on : TaskId) (agent : AgentId) (now : ℕ) (t : Task) (s' : Store)
    → LogAgrees s
    → add_task_dependency s id on agent now ≡ ok (t, s')
    → LogAgrees s'
unfolding add_task_dependency
depends-LogAgrees s id on agent now t s' l h =
    let (task, e, h1) = >>=-eq-ok (require_task s id) _ h in
    let (found, same) = require_task-found s id task e in
    let (_, _, h2) = >>=-eq-ok (require_task s on) _ h1 in
    let (_, _, h3) = >>=-eq-ok (throw_if (id == on) dependency_cycle) _ h2 in
    let (cycle, _, h4) = >>=-eq-ok (reaches_or_fail s on id) _ h3 in
    let (_, _, h5) = >>=-eq-ok (throw_if cycle dependency_cycle) _ h4 in
    elim (Bool-cases (includes task.spec.dependencies on)) [
      | inl b ↦ subst LogAgrees (ok-pair (rw b at h5)).1 l
      | inr b ↦
          write_dependency-LogAgrees s task on agent now t s' l (ap (get_task s) same ∙ found)
            (rw b at h5)
    ]
