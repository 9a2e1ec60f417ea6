-- ===== src/Control/Executions/Examples.antt =====
-- execution-service.ts: two executions of one agent with one place, and the laws at them.
use mathlib.Core.Path.{subst}
use bidirectional_bridge_cla.Prelude.{
  ℕ, ◌≤◌, ◌≡◌, refl, Bool, true, false, none, some, List, [], ◌∷◌, Result, ok, err, ok-ok,
  illegal_transition, inl, arith,
}
use bidirectional_bridge_cla.Protocol.Lifecycle.{TaskState}
use bidirectional_bridge_cla.Protocol.Records.{Lease, LeaseState}
use bidirectional_bridge_cla.Control.Samples.{nothing, a_task}
use bidirectional_bridge_cla.Control.Table.{get, replace, upsert}
use bidirectional_bridge_cla.Control.Table.Counts.{count, Unique}
use bidirectional_bridge_cla.Control.Store.{
  Store, Phase, ExecutionRecord, get_execution, put_execution, list_executions, get_task, get_lease,
}
use bidirectional_bridge_cla.Control.Executions.{
  queue, try_admit, admit_current, active, by_ticket, insert_by_ticket, limit_of, first_waiting,
  update, request_cancel, assert_generation, assert_callback, reconcile_executors, reconcile_all,
  reconcile_one, max_ticket, admitted, lease_of, is_occupying, is_queued,
}
use bidirectional_bridge_cla.Control.Executions.Capacity.{takes_place, Within}
use bidirectional_bridge_cla.Control.Executions.Turns.{Admission, try_admit-first, some-admitted}
use bidirectional_bridge_cla.Control.Executions.Fences.{
  queue_fences, IsLive, assert_callback-IsLive, cancel_ends_callbacks,
}
use bidirectional_bridge_cla.Control.Executions.History.{
  TimedCall, queues, admits, updates, run_executions, run_executions-places, AllRespect,
  execution_call,
}

abbrev an_execution : ℕ → Phase → ExecutionRecord
an_execution task phase = record {
  task_id = task;
  attempt = 0;
  generation = task;
  agent = 8;
  phase = phase;
  executor_pid = 77;
  max_concurrency = 1;
  queued_at = 0;
  queue_ticket = task;
  admitted_at = none;
  runtime_stop_confirmed = some false;
  lease_id = some 3;
  cancel_requested_at = none;
  cancel_requested_by = none;
  updated_at = 0;
}

abbrev all_alive : ℕ → Bool
all_alive pid = true

-- The worker of an execution has ended, and nobody has confirmed that it stopped.
abbrev quarantine_it : ExecutionRecord → ExecutionRecord
quarantine_it x = record x { phase = Phase.quarantined; runtime_stop_confirmed = some false }

-- Two executions are queued, and each asks for its place; the one that runs is quarantined.
abbrev story : List TimedCall
story =
    record { alive = all_alive; now = 1; call = queues 1 0 8 1 77 1 }
    ∷ record { alive = all_alive; now = 2; call = queues 2 0 8 1 77 2 }
    ∷ record { alive = all_alive; now = 3; call = admits (an_execution 1 Phase.queued) }
    ∷ record { alive = all_alive; now = 4; call = admits (an_execution 2 Phase.queued) }
    ∷ record {
      alive = all_alive;
      now = 5;
      call = updates (an_execution 1 Phase.running) quarantine_it;
    }
    ∷ []

nothing-Within : Within 8 1 nothing.executions
unfolding Unique count
nothing-Within = record { unique = tt; fits = tt; places = omega arith }

run_executions-places_example : count (takes_place 8) (run_executions story nothing).executions ≤ 1
unfolding execution_call reconcile_executors reconcile_all reconcile_one assert_generation
    get_execution list_executions queue put_execution upsert get replace max_ticket try_admit
    admit_current active by_ticket insert_by_ticket limit_of first_waiting AllRespect
run_executions-places_example = run_executions-places 8 1 story nothing nothing-Within (
  λ _. omega arith,
  (λ _. omega arith, (λ c h. cc, (λ c h. cc, (λ c h mine. quarantines _ c h refl, tt)))),
)
  where
    quarantines :
        (row c : ExecutionRecord)
        → ◌≡◌ {A = Result ExecutionRecord} (ok row) (ok c)
        → is_occupying row.phase ≡ true
        → (is_occupying (quarantine_it c).phase ≡ true → is_occupying c.phase ≡ true)
          × (is_queued (quarantine_it c).phase ≡ true → (quarantine_it c).max_concurrency ≤ 1)
    quarantines row c h o =
        (λ _. subst (λ x. is_occupying x.phase ≡ true) (ok-ok h) o, λ q. absurd (cc))

abbrev waiting : Store
waiting = record nothing {
  executions = an_execution 1 Phase.queued ∷ an_execution 2 Phase.queued ∷ [];
}

some-admitted_example :
    (first : ExecutionRecord) × (first.agent ≡ 8)
    × (try_admit all_alive waiting first 5
        ≡ ok (
          true,
          put_execution (reconcile_executors all_alive 5 (some 8) waiting) (admitted first 5),
        ))
unfolding Unique get reconcile_executors reconcile_all reconcile_one list_executions active
    by_ticket insert_by_ticket
some-admitted_example =
    some-admitted all_alive waiting 8 5 1 (refl, (refl, tt)) refl (omega arith) (omega arith)

abbrev second : Store
second = record nothing {
  executions = an_execution 1 Phase.stopped ∷ an_execution 2 Phase.queued ∷ [];
}

abbrev granted : Store
granted = put_execution second (admitted (an_execution 2 Phase.queued) 5)

try_admit-first_example :
    Admission
      (reconcile_executors all_alive 5 (some 8) second)
      (an_execution 2 Phase.queued)
      5
      granted
unfolding try_admit reconcile_executors reconcile_all reconcile_one list_executions admit_current
    active by_ticket insert_by_ticket limit_of first_waiting assert_generation get_execution get
    Unique
try_admit-first_example =
    try_admit-first all_alive second (an_execution 2 Phase.queued) 5 granted (refl, (refl, tt)) refl

abbrev requeued : Store
requeued = record nothing { executions = an_execution 1 Phase.stopped ∷ [] }

abbrev out_of : Result (ExecutionRecord × Store) → ExecutionRecord × Store
out_of (ok r) = r
out_of (err code) = (an_execution 1 Phase.stopped, nothing)

abbrev again : ExecutionRecord × Store
again = out_of (queue requeued 1 1 8 1 77 9 20)

queue_fences_example :
    (assert_callback again.1 (an_execution 1 Phase.running) 21 ≡ err illegal_transition)
    × (update again.1 (an_execution 1 Phase.running) (λ x. x) 21 ≡ err illegal_transition)
unfolding queue get_execution get list_executions put_execution upsert replace max_ticket
queue_fences_example =
    queue_fences requeued 1 1 8 1 77 9 20 again.0 again.1 (an_execution 1 Phase.running) (λ x. x) 21
      refl refl (inl (λ e. cc))

abbrev a_lease : Lease
a_lease = record {
  lease_id = 3;
  task_id = 1;
  holder = 8;
  scope = record { paths = []; note = none };
  state = LeaseState.held;
  acquired_at = 0;
  expires_at = 90;
  released_at = none;
}

abbrev at_work : Store
at_work = record nothing {
  tasks = a_task 1 TaskState.working (some 8) ∷ [];
  leases = a_lease ∷ [];
  executions = an_execution 1 Phase.running ∷ [];
}

assert_callback-IsLive_example : IsLive at_work (an_execution 1 Phase.running) 30
unfolding assert_callback assert_generation get_execution get lease_of get_task get_lease
assert_callback-IsLive_example =
    assert_callback-IsLive at_work (an_execution 1 Phase.running) 30 refl

cancel_ends_callbacks_example :
    ¬ (assert_callback (request_cancel at_work 1 7 31).1 (an_execution 1 Phase.running) 32 ≡ ok tt)
cancel_ends_callbacks_example =
    cancel_ends_callbacks at_work 1 7 31 (an_execution 1 Phase.running) 32 refl
