-- ===== src/Control/Executions/Admission.antt =====
-- execution-service.ts: no call, and no history of calls, takes more places than an agent has.
use mathlib.Core.Path.{subst}
use bidirectional_bridge_cla.Prelude.{
  ℕ, suc, ◌≤◌, ◌<◌, ◌≡◌, refl, sym, ap, ◌∙◌, inl, inr, Bool, true, false, not, ◌||◌, Option, none,
  some, List, arith, ◌==◌, ==_iff, is_some, leb, Bool-cases, or-false, and-true, Option-cases,
  Result, ok, err, >>=-eq-ok, throw_if-passed, ok-ok, illegal_transition, adapter_failure,
}
use bidirectional_bridge_cla.Protocol.Records.{TaskId, AgentId}
use bidirectional_bridge_cla.Control.Table.{get, upsert, get-key}
use bidirectional_bridge_cla.Control.Table.Counts.{
  point_le, count, count-upsert-le, Unique-upsert, All-upsert, All-get,
}
use bidirectional_bridge_cla.Control.Store.{Store, ExecutionRecord, get_execution, put_execution}
use bidirectional_bridge_cla.Control.Executions.{
  is_queued, is_occupying, is_unfinished, is_full, new_execution, queue, reconcile_executors,
  active, limit_of, first_waiting, occupied, is_turn_of, admitted, admit_among, admit_current,
  try_admit, assert_generation, current_of, update, updated, request_cancel, is_settled,
  cancel_requested,
}
use bidirectional_bridge_cla.Control.Executions.Capacity.{
  task_key, takes_place, Fits, Within, put-Within, and_false, reconcile_executors-Within,
}
use bidirectional_bridge_cla.Control.Executions.Active.{
  occupied-active, limit_of-waiting, All-active, All-first_waiting,
}

pub leb-lt : (a b : ℕ) → leb a b ≡ false → b < a
leb-lt a b h = ground arith

not-false : (b : Bool) → not b ≡ false → b ≡ true
not-false true h = refl
not-false false h = cc

-- `admit_among` gives a place away.
abbrev pub Grants : Store → ExecutionRecord → Type 0
Grants s e =
    (leb (limit_of e.max_concurrency (active s e.agent)) (occupied (active s e.agent))
      || not (is_turn_of (first_waiting (active s e.agent)) e))
    ≡ false

turn-first :
    (o : Option ExecutionRecord) (e : ExecutionRecord)
    → is_turn_of o e ≡ true
    → (first : ExecutionRecord) × (o ≡ some first) × (first.generation ≡ e.generation)
turn-first none e h = cc
turn-first (some first) e h = (first, refl, (==_iff _ _).0 h)

-- The execution whose turn it is: of the agent, waiting, and the first to wait.
pub Grants-first :
    (s : Store) (e : ExecutionRecord)
    → Grants s e
    → (first : ExecutionRecord) × (first_waiting (active s e.agent) ≡ some first)
      × (first.generation ≡ e.generation)
Grants-first s e g =
    turn-first (first_waiting (active s e.agent)) e (not-false _ (or-false _ _ g).1)

-- The caller passes a record that the queue has given it, of the agent that it names.
abbrev pub IsGenuine : Store → ExecutionRecord → Type 0
IsGenuine s e = (c : ExecutionRecord) → assert_generation s e ≡ ok c → c.agent ≡ e.agent

-- An update of an execution of the agent gives it a place only if the row has one already, and
-- leaves it in the queue only with a bound within `limit`.
abbrev pub Restrains :
    AgentId → (limit : ℕ) → Store → ExecutionRecord → (ExecutionRecord → ExecutionRecord) → Type 0
Restrains agent limit s e patch =
    (c : ExecutionRecord)
    → assert_generation s e ≡ ok c
    → c.agent ≡ agent
    → (is_occupying (patch c).phase ≡ true → is_occupying c.phase ≡ true)
      × (is_queued (patch c).phase ≡ true → (patch c).max_concurrency ≤ limit)

pub current_of-stored :
    (s : Store) (e c : ExecutionRecord)
    → assert_generation s e ≡ ok c
    → get task_key c.task_id s.executions ≡ some c
unfolding assert_generation get_execution
current_of-stored s e c h = elim (Option-cases (get task_key e.task_id s.executions)) [
  | inl none_there ↦ absurd (missing (rw none_there at h))
  | inr (x, g) ↦ found x g (rw g at h)
]
  where
    missing : current_of none e ≡ ok c → ⊥
    missing h = cc

    same : (x : ExecutionRecord) → current_of (some x) e ≡ ok c → x ≡ c
    same x h =
        elim (Bool-cases (not (x.generation == e.generation) || not (x.attempt == e.attempt))) [
          | inl b ↦ absurd (clash (rw b at h))
          | inr b ↦ ok-ok (rw b at h)
        ]
      where
        clash : ◌≡◌ {A = Result ExecutionRecord} (err illegal_transition) (ok c) → ⊥
        clash h = cc

    found :
        (x : ExecutionRecord)
        → get task_key e.task_id s.executions ≡ some x
        → current_of (some x) e ≡ ok c
        → get task_key c.task_id s.executions ≡ some c
    found x g h =
        subst (λ y. get task_key y.task_id s.executions ≡ some y) (same x h)
          (ap (λ k. get task_key k s.executions) (get-key task_key e.task_id x s.executions g) ∙ g)

module _ (agent : AgentId) (limit : ℕ) where
  -- An admission is granted only while the agent has a place left.
  granted-below :
      (s : Store) (e : ExecutionRecord)
      → e.agent ≡ agent
      → Within agent limit s.executions
      → Grants s e
      → suc (count (takes_place agent) s.executions) ≤ limit
  granted-below s e mine w g =
      let (first, f, same) = Grants-first s e g in
      let ((fits, own), waits) =
        All-first_waiting _ (active s e.agent) first
          (All-active s e.agent (Fits agent limit) w.fits) f in
      below (limit_of e.max_concurrency (active s e.agent)) (occupied (active s e.agent))
        first.max_concurrency (leb-lt _ _ (or-false _ _ g).0)
        (limit_of-waiting e.max_concurrency (active s e.agent) first f)
        (fits (own ∙ mine) (and-true _ _ waits).0)
        (occupied-active s e.agent ∙ ap (λ a. count (takes_place a) s.executions) mine)
    where
      below :
          (bound taken most : ℕ) {places : ℕ}
          → taken < bound
          → bound ≤ most
          → most ≤ limit
          → taken ≡ places
          → suc places ≤ limit
      below bound taken most a b c d = omega arith

  admitted-places :
      (s : Store) (e current : ExecutionRecord) (now : ℕ)
      → current.agent ≡ e.agent
      → Within agent limit s.executions
      → Grants s e
      → count (takes_place agent) (upsert task_key (admitted current now) s.executions) ≤ limit
  admitted-places s e current now same w g = elim (Bool-cases (current.agent == agent)) [
    | inl mine ↦ omega (
      arith,
      granted-below s e (sym same ∙ (==_iff _ _).0 mine) w g,
      count-upsert-le task_key (takes_place agent) (admitted current now) s.executions w.unique,
      point_le (takes_place agent) (admitted current now),
    )
    | inr other ↦
        (put-Within agent limit (admitted current now) s.executions w (λ a b. absurd (cc))
          (inl (rw other refl))).places
  ]

  -- A refused admission leaves the store; a granted one has a place to give.
  admit_among-Within :
      (e current : ExecutionRecord) (now : ℕ) (s : Store)
      → current.agent ≡ e.agent
      → Within agent limit s.executions
      → Within agent limit (admit_among (active s e.agent) e current now s).1.executions
  unfolding put_execution
  admit_among-Within e current now s same w =
      elim (Bool-cases (
        leb (limit_of e.max_concurrency (active s e.agent)) (occupied (active s e.agent))
        || not (is_turn_of (first_waiting (active s e.agent)) e))) [
          | inl no_place ↦ rw no_place w
          | inr turn ↦ rw turn (record {
            unique = Unique-upsert task_key (admitted current now) s.executions w.unique;
            fits =
                All-upsert task_key (Fits agent limit) (admitted current now) s.executions w.fits
                  (λ a b. absurd (cc));
            places = admitted-places s e current now same w turn;
          })
        ]

  admit_current-Within :
      (e current : ExecutionRecord) (now : ℕ) (s : Store)
      → current.agent ≡ e.agent
      → Within agent limit s.executions
      → Within agent limit (admit_current s e current now).1.executions
  unfolding admit_current
  admit_current-Within e current now s same w =
      elim (Bool-cases (is_some current.cancel_requested_at)) [
        | inl stop ↦ rw stop w
        | inr go ↦ rw go (admit_among-Within e current now s same w)
      ]

  pub try_admit-Within :
      (alive : (pid : ℕ) → Bool) (s : Store) (e : ExecutionRecord) (now : ℕ) (answer : Bool)
      (s' : Store)
      → IsGenuine (reconcile_executors alive now (some e.agent) s) e
      → Within agent limit s.executions
      → try_admit alive s e now ≡ ok (answer, s')
      → Within agent limit s'.executions
  unfolding try_admit
  try_admit-Within alive s e now answer s' genuine w h =
      let (current, c, rest) =
        >>=-eq-ok (assert_generation (reconcile_executors alive now (some e.agent) s) e) _ h in
      subst (λ r. Within agent limit r.1.executions) (same rest)
        (admit_current-Within e current now _ (genuine current c)
          (reconcile_executors-Within agent limit alive now (some e.agent) s w))
    where
      same : {x y : Bool × Store} → ◌≡◌ {A = Result (Bool × Store)} (ok x) (ok y) → x ≡ y
      same h = cc

  pub queue-Within :
      (s : Store) (task_id : TaskId) (attempt : ℕ) (of : AgentId)
      (max_concurrency pid generation now : ℕ) (e : ExecutionRecord) (s' : Store)
      → (of ≡ agent → max_concurrency ≤ limit)
      → Within agent limit s.executions
      → queue s task_id attempt of max_concurrency pid generation now ≡ ok (e, s')
      → Within agent limit s'.executions
  unfolding queue put_execution
  queue-Within s task_id attempt of mc pid generation now e s' fits w h =
      let e' = new_execution s task_id attempt of mc pid generation now in
      let (free, h1) = throw_if-passed (is_unfinished (get_execution s task_id)) _ _ h in
      let (room, h2) =
        throw_if-passed (is_full s of) adapter_failure (ok (e', put_execution s e')) h1 in
      subst (λ r. Within agent limit r.1.executions) (ok-ok h2)
        (put-Within agent limit e' s.executions w (λ a b. fits a) (inl (and_false (of == agent))))

  -- The row of a task written again: for the agent, in a place only if it was in one, and in the
  -- queue only with a bound within `limit`.
  rewritten-Within :
      (old next : ExecutionRecord) (es : List ExecutionRecord)
      → get task_key old.task_id es ≡ some old
      → next.task_id ≡ old.task_id
      → next.agent ≡ old.agent
      → (old.agent ≡ agent
          → (is_occupying next.phase ≡ true → is_occupying old.phase ≡ true)
            × (is_queued next.phase ≡ true → next.max_concurrency ≤ limit))
      → Within agent limit es
      → Within agent limit (upsert task_key next es)
  rewritten-Within old next es g task same kept w =
      put-Within agent limit next es w (λ mine. (kept (sym same ∙ mine)).1)
        (elim (Bool-cases (takes_place agent next)) [
          | inr free ↦ inl free
          | inl taken ↦
              let (a, b) = and-true _ _ taken in
              let mine : old.agent ≡ agent = sym same ∙ (==_iff _ _).0 a in
              inr (
                old,
                ap (λ k. get task_key k es) task ∙ g,
                both ((==_iff _ _).1 mine) ((kept mine).0 b),
              )
        ])
    where
      both :
          (old.agent == agent) ≡ true → is_occupying old.phase ≡ true → takes_place agent old ≡ true
      both a b = rw (a, b) refl

  pub update-Within :
      (s : Store) (e : ExecutionRecord) (patch : ExecutionRecord → ExecutionRecord) (now : ℕ)
      (next : ExecutionRecord) (s' : Store)
      → Restrains agent limit s e patch
      → Within agent limit s.executions
      → update s e patch now ≡ ok (next, s')
      → Within agent limit s'.executions
  unfolding update put_execution
  update-Within s e patch now next s' r w h =
      let (current, c, h1) = >>=-eq-ok (assert_generation s e) _ h in
      subst (λ x. Within agent limit x.1.executions) (ok-ok h1)
        (rewritten-Within current (updated current patch now) s.executions
          (current_of-stored s e current c) refl refl (r current c) w)

  pub request_cancel-Within :
      (s : Store) (task_id : TaskId) (by : AgentId) (now : ℕ)
      → Within agent limit s.executions
      → Within agent limit (request_cancel s task_id by now).1.executions
  unfolding request_cancel put_execution get_execution
  request_cancel-Within s task_id by now w =
      elim (Option-cases (get task_key task_id s.executions)) [
        | inl e ↦ rw e w
        | inr (x, g) ↦ elim (Bool-cases (is_settled x)) [
          | inl done ↦ rw (g, done) w
          | inr open_still ↦
              rw (g, open_still)
                (rewritten-Within x (cancel_requested x by now) s.executions
                  (ap (λ k. get task_key k s.executions) (get-key task_key task_id x s.executions g)
                    ∙ g)
                  refl refl
                  (λ mine. (
                    λ h. h,
                    All-get task_key (Fits agent limit) task_id x s.executions w.fits g mine,
                  ))
                  w)
        ]
      ]
