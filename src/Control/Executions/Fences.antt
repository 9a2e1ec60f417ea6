-- ===== src/Control/Executions/Fences.antt =====
-- execution-service.ts: what a record of an execution may still do after a new generation or a
-- cancellation.
use mathlib.Core.Path.{subst}
use bidirectional_bridge_cla.Protocol.Lifecycle.{is_terminal}
use bidirectional_bridge_cla.Prelude.{
  ℕ, ◌≡◌, ◌≢◌, ◌⊎◌, refl, sym, ap, ◌∙◌, inl, inr, Bool, true, false, not, ◌||◌, Option, none, some,
  ◌==◌, ==_iff, ==_refl, is_some, Bool-cases, if◌then◌else◌, arith, Result, ok, err,
  throw_if-passed, throw_if-eq-ok, >>=-eq-ok, or-false, is, leb, ◌<◌, ok-ok, illegal_transition,
  lease_invalid, operation_in_progress, adapter_failure,
}
use bidirectional_bridge_cla.Protocol.Records.{TaskId, AgentId, Task, Lease}
use bidirectional_bridge_cla.Control.Table.{get-upsert, get-key}
use bidirectional_bridge_cla.Control.Store.{
  Store, ExecutionRecord, get_execution, put_execution, get_task, is_held, Phase,
}
use bidirectional_bridge_cla.Control.Executions.{
  new_execution, is_unfinished, is_full, queue, current_of, assert_generation, update, is_settled,
  is_stopped_phase, is_running, cancel_requested, cancel_found, request_cancel, is_foreign_task,
  is_outside_lease, lease_of, is_refused, assert_callback,
}

get-put : (s : Store) (e : ExecutionRecord) → get_execution (put_execution s e) e.task_id ≡ some e
unfolding get_execution put_execution
get-put s e = get-upsert (λ x. x.task_id) e.task_id e s.executions ∙ rw (==_refl e.task_id) refl

obsolete :
    (current e : ExecutionRecord)
    → (e.generation ≢ current.generation) ⊎ (e.attempt ≢ current.attempt)
    → current_of (some current) e ≡ err illegal_transition
obsolete current e (inl d) = rw (different e.generation current.generation d) refl
  where
    different : (a b : ℕ) → a ≢ b → not (b == a) ≡ true
    different a b d = elim (Bool-cases (b == a)) [
      | inl h ↦ absurd (d (sym ((==_iff _ _).0 h)))
      | inr h ↦ rw h refl
    ]
obsolete current e (inr d) =
    both (not (current.generation == e.generation)) (different e.attempt current.attempt d)
  where
    different : (a b : ℕ) → a ≢ b → not (b == a) ≡ true
    different a b d = elim (Bool-cases (b == a)) [
      | inl h ↦ absurd (d (sym ((==_iff _ _).0 h)))
      | inr h ↦ rw h refl
    ]

    both :
        (g : Bool)
        → not (current.attempt == e.attempt) ≡ true
        → (if g || not (current.attempt == e.attempt) then err illegal_transition else ok current)
          ≡ err illegal_transition
    both true h = refl
    both false h = rw h refl

-- Once an execution has been queued for a task, a record of the task with another generation or
-- attempt can neither report nor update: both calls throw ILLEGAL_TRANSITION.
pub queue_fences :
    (s : Store) (task_id : TaskId) (attempt : ℕ) (agent : AgentId)
    (max_concurrency pid generation now : ℕ) (e : ExecutionRecord) (s' : Store)
    (old : ExecutionRecord) (patch : ExecutionRecord → ExecutionRecord) (later : ℕ)
    → queue s task_id attempt agent max_concurrency pid generation now ≡ ok (e, s')
    → old.task_id ≡ task_id
    → (old.generation ≢ generation) ⊎ (old.attempt ≢ attempt)
    → (assert_callback s' old later ≡ err illegal_transition)
      × (update s' old patch later ≡ err illegal_transition)
unfolding queue assert_callback update assert_generation
queue_fences s task_id attempt agent mc pid generation now e s' old patch later h task other =
    let e' = new_execution s task_id attempt agent mc pid generation now in
    let (free, h1) =
      throw_if-passed (is_unfinished (get_execution s task_id)) operation_in_progress _ h in
    let (room, h2) =
      throw_if-passed (is_full s agent) adapter_failure (ok (e', put_execution s e')) h1 in
    let stale : current_of (get_execution s' old.task_id) old ≡ err illegal_transition =
      ap (λ o. current_of o old) (found (ok-ok h2)) ∙ obsolete e' old other in
    (rw stale refl, rw stale refl)
  where
    found :
        ◌≡◌ {A = ExecutionRecord × Store}
          (
            new_execution s task_id attempt agent mc pid generation now,
            put_execution s (new_execution s task_id attempt agent mc pid generation now),
          )
          (e, s')
        → get_execution s' old.task_id
          ≡ some (new_execution s task_id attempt agent mc pid generation now)
    found h =
        ap (λ (t : ExecutionRecord × Store). get_execution t.1 old.task_id) (sym h)
        ∙ ap
            (λ k.
              get_execution
                (put_execution s (new_execution s task_id attempt agent mc pid generation now)) k)
            task
        ∙ get-put s (new_execution s task_id attempt agent mc pid generation now)

-- What a callback that is accepted finds in the store.
pub record IsLive (s : Store) (e : ExecutionRecord) (now : ℕ) : Type 0 where
  pub current : ExecutionRecord
  pub task : Task
  pub lease : Lease
  pub stored : get_execution s e.task_id ≡ some current
  pub generation : current.generation ≡ e.generation
  pub attempt : current.attempt ≡ e.attempt
  pub runs : is_running current.phase ≡ true
  pub wanted : current.cancel_requested_at ≡ none
  pub of_task : get_task s e.task_id ≡ some task
  pub in_attempt : task.attempt ≡ e.attempt
  pub owned : is task.owner e.agent ≡ true
  pub unfinished : is_terminal task.state ≡ false
  pub of_lease : lease_of s current ≡ some lease
  pub held : is_held lease.state ≡ true
  pub in_time : now < lease.expires_at

not-false : (b : Bool) → not b ≡ false → b ≡ true
not-false true h = refl
not-false false h = cc

some_none {ℓ} : {A : Type ℓ} (o : Option A) → is_some o ≡ false → o ≡ none
some_none none h = refl
some_none (some a) h = cc

own_task :
    (o : Option Task) (e : ExecutionRecord)
    → is_foreign_task o e ≡ false
    → (task : Task) × (o ≡ some task)
      × (task.attempt ≡ e.attempt)
      × (is task.owner e.agent ≡ true)
      × (is_terminal task.state ≡ false)
own_task none e h = cc
own_task (some task) e h =
    let (ab, c) = or-false _ _ h in
    let (a, b) = or-false _ _ ab in (task, refl, (==_iff _ _).0 (not-false _ a), not-false _ b, c)

live_lease :
    (o : Option Lease) (now : ℕ)
    → is_outside_lease o now ≡ false
    → (lease : Lease) × (o ≡ some lease) × (is_held lease.state ≡ true) × (now < lease.expires_at)
live_lease none now h = cc
live_lease (some lease) now h =
    let (a, b) = or-false _ _ h in (lease, refl, not-false _ a, leb-lt lease.expires_at now b)
  where
    leb-lt : (a b : ℕ) → leb a b ≡ false → b < a
    leb-lt a b h = ground arith

current_of-same :
    (o : Option ExecutionRecord) (e c : ExecutionRecord)
    → current_of o e ≡ ok c
    → (o ≡ some c) × (c.generation ≡ e.generation) × (c.attempt ≡ e.attempt)
current_of-same none e c h = cc
current_of-same (some x) e c h =
    elim (Bool-cases (not (x.generation == e.generation) || not (x.attempt == e.attempt))) [
      | inl b ↦ absurd (clash (rw b at h))
      | inr b ↦
          let same : x ≡ c = ok-ok (rw b at h) in
          let (g, a) = or-false _ _ b in
          subst (λ y. (some x ≡ some y) × (y.generation ≡ e.generation) × (y.attempt ≡ e.attempt))
            same (refl, (==_iff _ _).0 (not-false _ g), (==_iff _ _).0 (not-false _ a))
    ]
  where
    clash : ◌≡◌ {A = Result ExecutionRecord} (err illegal_transition) (ok c) → ⊥
    clash h = cc

-- A callback is accepted only from the current generation and attempt of a RUNNING execution that
-- nobody has cancelled, for a task in that attempt which the agent owns and which is not over,
-- under a lease that is held and has not expired.
pub assert_callback-IsLive :
    (s : Store) (e : ExecutionRecord) (now : ℕ) → assert_callback s e now ≡ ok tt → IsLive s e now
unfolding assert_callback assert_generation
assert_callback-IsLive s e now h =
    let (current, c, h1) = >>=-eq-ok (assert_generation s e) _ h in
    let (stored, g, a) = current_of-same (get_execution s e.task_id) e current c in
    let (runs, rest) =
      or-false _ _ (throw_if-eq-ok (is_refused s current e now) lease_invalid h1) in
    let (wanted, rest2) = or-false _ _ rest in
    let (foreign, outside) = or-false _ _ rest2 in
    let (task, t, at, own, over) = own_task (get_task s e.task_id) e foreign in
    let (lease, l, held, time) = live_lease (lease_of s current) now outside in
    record {
      current = current;
      task = task;
      lease = lease;
      stored = stored;
      generation = g;
      attempt = a;
      runs = not-false _ runs;
      wanted = some_none current.cancel_requested_at wanted;
      of_task = t;
      in_attempt = at;
      owned = own;
      unfinished = over;
      of_lease = l;
      held = held;
      in_time = time;
    }

settled-not_live :
    (x : ExecutionRecord)
    → is_settled x ≡ true
    → is_running x.phase ≡ true
    → x.cancel_requested_at ≡ none
    → ⊥
settled-not_live x h r n = by_phase x.phase x.cancel_requested_at h r n
  where
    by_phase :
        (p : Phase) (o : Option ℕ)
        → (is_stopped_phase p || is_some o) ≡ true
        → is_running p ≡ true
        → o ≡ none
        → ⊥
    by_phase Phase.running none h r n = cc
    by_phase Phase.running (some t) h r n = cc
    by_phase Phase.queued o h r n = cc
    by_phase Phase.stopped o h r n = cc
    by_phase Phase.quarantined o h r n = cc

-- After the cancellation of a task's execution has been asked for, no callback for the task is
-- accepted in the store that is left, whatever record it carries and whenever it comes.
pub cancel_ends_callbacks :
    (s : Store) (task_id : TaskId) (by : AgentId) (now : ℕ) (e : ExecutionRecord) (later : ℕ)
    → e.task_id ≡ task_id
    → ¬ (assert_callback (request_cancel s task_id by now).1 e later ≡ ok tt)
unfolding request_cancel get_execution
cancel_ends_callbacks s task_id by now e later task h =
    let live = assert_callback-IsLive (request_cancel s task_id by now).1 e later h in
    after (get_execution s task_id) refl live.current
      (ap (λ k. get_execution (request_cancel s task_id by now).1 k) (sym task) ∙ live.stored)
      live.runs live.wanted
  where
    after :
        (o : Option ExecutionRecord)
        → get_execution s task_id ≡ o
        → (c : ExecutionRecord) → get_execution (cancel_found o s by now).1 task_id ≡ some c
        → is_running c.phase ≡ true
        → c.cancel_requested_at ≡ none
        → ⊥
    after none g c h r n = clash (sym g ∙ h)
      where
        clash : none ≡ some c → ⊥
        clash h = cc
    after (some x) g c h r n = elim (Bool-cases (is_settled x)) [
      | inl settled ↦
          let same : c ≡ x = found (sym (rw settled at h) ∙ g) in
          settled-not_live x settled (ap (λ y. is_running y.phase) (sym same) ∙ r)
            (ap (λ y. y.cancel_requested_at) (sym same) ∙ n)
      | inr open_still ↦
          cancelled
            (sym (get-put s (cancel_requested x by now))
              ∙ ap (λ k. get_execution (put_execution s (cancel_requested x by now)) k) (executed g)
              ∙ (rw open_still at h))
            n
    ]
      where
        found : some c ≡ some x → c ≡ x
        found h = cc

        executed : get_execution s task_id ≡ some x → x.task_id ≡ task_id
        executed g = get-key (λ y. y.task_id) task_id x s.executions g

        cancelled : some (cancel_requested x by now) ≡ some c → c.cancel_requested_at ≡ none → ⊥
        cancelled h n = cc
