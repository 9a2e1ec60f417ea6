-- ===== src/Control/Executions/Turns.antt =====
-- execution-service.ts: who is admitted, and when someone is.
use mathlib.Core.Path.{subst}
use bidirectional_bridge_cla.Prelude.{
  ℕ, ◌≤◌, ◌<◌, ◌≡◌, refl, sym, inl, inr, Bool, true, false, not, ◌||◌, Option, none, some, List, [],
  ◌∷◌, All, any, arith, ==_refl, is_some, leb, ltb, Bool-cases, and-true, or-false, if◌then◌else◌,
  ok, ◌>>=◌, >>=-eq-ok, ok-ok,
}
use bidirectional_bridge_cla.Protocol.Records.{AgentId}
use bidirectional_bridge_cla.Control.Table.{get}
use bidirectional_bridge_cla.Control.Table.Counts.{Unique, count}
use bidirectional_bridge_cla.Control.Table.Snapshot.{Stored-self}
use bidirectional_bridge_cla.Control.Store.{Store, ExecutionRecord, get_execution, put_execution}
use bidirectional_bridge_cla.Control.Executions.{
  is_waiting, reconcile_executors, active, limit_of, first_waiting, occupied, is_turn_of, admitted,
  admit_current, try_admit, assert_generation, current_of,
}
use bidirectional_bridge_cla.Control.Executions.Capacity.{
  task_key, takes_place, reconcile_executors-Unique,
}
use bidirectional_bridge_cla.Control.Executions.Active.{
  occupied-active, limit_of-All, All-active, All-first_waiting,
}
use bidirectional_bridge_cla.Control.Executions.Admission.{leb-lt, Grants, Grants-first}
use bidirectional_bridge_cla.Control.Executions.Order.{
  NotBefore, first_waiting-least, any-first_waiting,
}

-- An admission that has been granted in the store `s`, which is left as `s'`.
pub record Admission (s : Store) (e : ExecutionRecord) (now : ℕ) (s' : Store) : Type 0 where
  -- The execution whose turn it is: it is in the table, of the agent, waits, and has the least
  -- ticket of all that wait for the agent.
  pub first : ExecutionRecord
  pub stored : get task_key first.task_id s.executions ≡ some first
  pub of_agent : first.agent ≡ e.agent
  pub waits : is_waiting first ≡ true
  pub least : All (λ f. f.agent ≡ e.agent → NotBefore first f) s.executions
  -- It is the caller's.
  pub turn : first.generation ≡ e.generation
  -- A place is left under the bound of each active execution of the agent.
  pub room :
      All (λ f. count (takes_place e.agent) s.executions < f.max_concurrency) (active s e.agent)
  -- The row of the caller, which is set to RUNNING.
  pub current : ExecutionRecord
  pub own : assert_generation s e ≡ ok current
  pub wanted : is_some current.cancel_requested_at ≡ false
  pub after : s' ≡ put_execution s (admitted current now)

admit_current-true :
    (s : Store) (e current : ExecutionRecord) (now : ℕ) (s' : Store)
    → admit_current s e current now ≡ (true, s')
    → (is_some current.cancel_requested_at ≡ false)
      × Grants s e
      × (s' ≡ put_execution s (admitted current now))
unfolding admit_current
admit_current-true s e current now s' h = elim (Bool-cases (is_some current.cancel_requested_at)) [
  | inl c ↦ absurd (refused (rw c at h))
  | inr c ↦
      elim (Bool-cases (
        leb (limit_of e.max_concurrency (active s e.agent)) (occupied (active s e.agent))
        || not (is_turn_of (first_waiting (active s e.agent)) e))) [
          | inl g ↦ absurd (refused (rw (c, g) at h))
          | inr g ↦ (c, g, stored (rw (c, g) at h))
        ]
]
  where
    refused : ◌≡◌ {A = Bool × Store} (false, s) (true, s') → ⊥
    refused h = cc

    stored :
        ◌≡◌ {A = Bool × Store} (true, put_execution s (admitted current now)) (true, s')
        → s' ≡ put_execution s (admitted current now)
    stored h = cc

granted-Admission :
    (s : Store) (e current : ExecutionRecord) (now : ℕ) (s' : Store)
    → Unique task_key s.executions
    → assert_generation s e ≡ ok current
    → is_some current.cancel_requested_at ≡ false
    → Grants s e
    → s' ≡ put_execution s (admitted current now)
    → Admission s e now s'
granted-Admission s e current now s' u own wanted grants after =
    let (first, f, same) = Grants-first s e grants in
    let ((stored, mine), waits) =
      All-first_waiting _ (active s e.agent) first
        (All-active s e.agent (λ x. get task_key x.task_id s.executions ≡ some x)
          (Stored-self task_key s.executions u))
        f in
    record {
      first = first;
      stored = stored;
      of_agent = mine;
      waits = waits;
      least = first_waiting-least s e.agent first f;
      turn = same;
      room =
          subst (λ n. All (λ x. n < x.max_concurrency) (active s e.agent))
            (occupied-active s e.agent)
            (limit_of-All e.max_concurrency (occupied (active s e.agent)) (active s e.agent)
              (leb-lt _ _ (or-false _ _ grants).0));
      current = current;
      own = own;
      wanted = wanted;
      after = after;
    }

-- If, in a table with one row for each task, an execution is admitted, then after the
-- reconciliation some execution stands in the table, is of the agent that the caller's record
-- names, waits uncancelled, and has the least ticket of all that wait so for that agent; the
-- caller's record has its generation; fewer executions of the agent are RUNNING or QUARANTINED
-- than the bound of each active one allows; and the store that is left is that of the
-- reconciliation, with the row that has the caller's task, generation and attempt, which no
-- cancellation has reached, set to RUNNING.
pub try_admit-first :
    (alive : (pid : ℕ) → Bool) (s : Store) (e : ExecutionRecord) (now : ℕ) (s' : Store)
    → Unique task_key s.executions
    → try_admit alive s e now ≡ ok (true, s')
    → Admission (reconcile_executors alive now (some e.agent) s) e now s'
unfolding try_admit
try_admit-first alive s e now s' u h =
    let s1 = reconcile_executors alive now (some e.agent) s in
    let (current, own, h1) = >>=-eq-ok (assert_generation s1 e) _ h in
    let (wanted, grants, after) = admit_current-true s1 e current now s' (ok-ok h1) in
    granted-Admission s1 e current now s' (reconcile_executors-Unique alive now (some e.agent) s u)
      own wanted grants after

-- Liveness.

bound-le :
    (bound least : ℕ) (es : List ExecutionRecord)
    → bound ≤ least
    → All (λ e. bound ≤ e.max_concurrency) es
    → bound ≤ limit_of least es
unfolding limit_of
bound-le bound least [] h k = h
bound-le bound least (e ∷ es) h (k, ks) =
    bound-le bound (if ltb e.max_concurrency least then e.max_concurrency else least) es
      (ground arith) ks

lt-leb : (a b : ℕ) → a < b → leb b a ≡ false
lt-leb a b h = ground arith

waiting-wanted : (e : ExecutionRecord) → is_waiting e ≡ true → is_some e.cancel_requested_at ≡ false
waiting-wanted e h = not_some e.cancel_requested_at (and-true _ _ h).1
  where
    not_some : (o : Option ℕ) → not (is_some o) ≡ true → is_some o ≡ false
    not_some none h = refl
    not_some (some n) h = cc

current_of_self : (e : ExecutionRecord) → current_of (some e) e ≡ ok e
current_of_self e = rw (==_refl e.generation, ==_refl e.attempt) refl

-- The first that waits is granted a place that is left.
granted_first :
    (s : Store) (e : ExecutionRecord) (now : ℕ)
    → get task_key e.task_id s.executions ≡ some e
    → is_waiting e ≡ true
    → first_waiting (active s e.agent) ≡ some e
    → leb (limit_of e.max_concurrency (active s e.agent)) (occupied (active s e.agent)) ≡ false
    → (assert_generation s e >>= λ current. ok (admit_current s e current now))
      ≡ ok (true, put_execution s (admitted e now))
unfolding admit_current assert_generation get_execution
granted_first s e now stored waits first below =
    rw (stored, current_of_self e, waiting-wanted e waits, below, first, ==_refl e.generation) refl

-- In a table with one row for each task, where after the reconciliation an execution of the agent
-- waits and the executions that take a place are fewer than each active execution allows, some
-- execution of the agent is admitted when it asks.
pub some-admitted :
    (alive : (pid : ℕ) → Bool) (s : Store) (agent : AgentId) (now bound : ℕ)
    → Unique task_key s.executions
    → any is_waiting (active (reconcile_executors alive now (some agent) s) agent) ≡ true
    → All
        (λ e. bound ≤ e.max_concurrency)
        (active (reconcile_executors alive now (some agent) s) agent)
    → occupied (active (reconcile_executors alive now (some agent) s) agent) < bound
    → (first : ExecutionRecord) × (first.agent ≡ agent)
      × (try_admit alive s first now
          ≡ ok (
            true,
            put_execution (reconcile_executors alive now (some agent) s) (admitted first now),
          ))
unfolding try_admit
some-admitted alive s agent now bound u waits allows room =
    let s1 = reconcile_executors alive now (some agent) s in
    let (first, f) = any-first_waiting (active s1 agent) waits in
    let ((stored, own), waiting) =
      All-first_waiting _ (active s1 agent) first
        (All-active s1 agent (λ e. get task_key e.task_id s1.executions ≡ some e)
          (Stored-self task_key s1.executions
            (reconcile_executors-Unique alive now (some agent) s u)))
        f in
    let (most, _) = All-first_waiting _ (active s1 agent) first allows f in
    let below = lt-leb _ _ (
      lt_le (occupied (active s1 agent)) bound _ room
        (bound-le bound first.max_concurrency (active s1 agent) most allows)) in
    (
      first,
      own,
      subst
          (λ a.
            let t = reconcile_executors alive now (some first.agent) s in
            (assert_generation t first >>= λ current. ok (admit_current t first current now))
            ≡ ok (
              true,
              put_execution (reconcile_executors alive now (some a) s) (admitted first now),
            ))
          own (by_agent first (sym own) stored waiting f below),
    )
  where
    lt_le : (a b c : ℕ) → a < b → b ≤ c → a < c
    lt_le a b c h k = omega arith

    Granted : ExecutionRecord → AgentId → Type 0
    Granted first a =
        (assert_generation (reconcile_executors alive now (some a) s) first >>= λ current.
        ok (admit_current (reconcile_executors alive now (some a) s) first current now))
        ≡ ok (true, put_execution (reconcile_executors alive now (some a) s) (admitted first now))

    by_agent :
        (first : ExecutionRecord)
        → agent ≡ first.agent
        → get task_key first.task_id (reconcile_executors alive now (some agent) s).executions
          ≡ some first
        → is_waiting first ≡ true
        → first_waiting (active (reconcile_executors alive now (some agent) s) agent) ≡ some first
        → leb
            (limit_of first.max_concurrency
              (active (reconcile_executors alive now (some agent) s) agent))
            (occupied (active (reconcile_executors alive now (some agent) s) agent))
          ≡ false
        → Granted first first.agent
    by_agent first own stored waiting f below =
        granted_first (reconcile_executors alive now (some first.agent) s) first now
          (subst
            (λ a.
              get task_key first.task_id (reconcile_executors alive now (some a) s).executions
              ≡ some first)
            own stored)
          waiting
          (subst
            (λ a. first_waiting (active (reconcile_executors alive now (some a) s) a) ≡ some first)
            own f)
          (subst
            (λ a.
              leb
                (limit_of first.max_concurrency
                  (active (reconcile_executors alive now (some a) s) a))
                (occupied (active (reconcile_executors alive now (some a) s) a))
              ≡ false)
            own below)
