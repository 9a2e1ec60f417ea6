-- ===== src/Control/Executions/History.antt =====
-- execution-service.ts: histories of calls, of all the processes that share the store.
use bidirectional_bridge_cla.Prelude.{
  ℕ, ◌≤◌, ◌≡◌, refl, Bool, Option, some, List, [], ◌∷◌, Result, ok, err,
}
use bidirectional_bridge_cla.Protocol.Records.{TaskId, AgentId}
use bidirectional_bridge_cla.Control.Table.Counts.{count}
use bidirectional_bridge_cla.Control.Store.{Store, ExecutionRecord}
use bidirectional_bridge_cla.Control.Executions.{
  queue, try_admit, reconcile_executors, update, request_cancel,
}
use bidirectional_bridge_cla.Control.Executions.Capacity.{
  takes_place, Within, reconcile_executors-Within,
}
use bidirectional_bridge_cla.Control.Executions.Admission.{
  IsGenuine, Restrains, queue-Within, try_admit-Within, update-Within, request_cancel-Within,
}

pub data ExecutionCall : Type 0 where
  queues :
      (task_id : TaskId) (attempt : ℕ) (agent : AgentId) (max_concurrency pid generation : ℕ)
      → ExecutionCall
  admits : ExecutionRecord → ExecutionCall
  reconciles : Option AgentId → ExecutionCall
  updates : ExecutionRecord → (patch : ExecutionRecord → ExecutionRecord) → ExecutionCall
  cancels : TaskId → (by : AgentId) → ExecutionCall

-- What a call leaves: its store, or, if it throws, the store that it was given.
abbrev pub left_by {ℓ} : {A : Type ℓ} → Store → Result (A × Store) → Store
left_by s (ok r) = r.1
left_by s (err code) = s

unfoldable pub execution_call : ((pid : ℕ) → Bool) → (now : ℕ) → ExecutionCall → Store → Store
execution_call alive now (queues task_id attempt agent max_concurrency pid generation) s =
    left_by s (queue s task_id attempt agent max_concurrency pid generation now)
execution_call alive now (admits e) s = left_by s (try_admit alive s e now)
execution_call alive now (reconciles agent) s = reconcile_executors alive now agent s
execution_call alive now (updates e patch) s = left_by s (update s e patch now)
execution_call alive now (cancels task_id by) s = (request_cancel s task_id by now).1

-- A call with what the system answers it: which processes are alive, and the time.
pub record TimedCall : Type 0 where
  pub alive : ℕ → Bool
  pub now : ℕ
  pub call : ExecutionCall

unfoldable pub run_executions : List TimedCall → Store → Store
run_executions [] s = s
run_executions (c ∷ cs) s = run_executions cs (execution_call c.alive c.now c.call s)

module _ (agent : AgentId) (limit : ℕ) where
  -- No call queues an execution of the agent with a bound over `limit`, an admission is asked for
  -- with a record that names the agent of its row, and an update keeps to `Restrains`.
  abbrev pub Respects : ExecutionCall → (alive : ℕ → Bool) → (now : ℕ) → Store → Type 0
  Respects (queues task_id attempt of max_concurrency pid generation) alive now s =
      of ≡ agent → max_concurrency ≤ limit
  Respects (admits e) alive now s = IsGenuine (reconcile_executors alive now (some e.agent) s) e
  Respects (reconciles of) alive now s = Unit
  Respects (updates e patch) alive now s = Restrains agent limit s e patch
  Respects (cancels task_id by) alive now s = Unit

  unfoldable pub AllRespect : List TimedCall → Store → Type 0
  unfolding execution_call
  AllRespect [] s = Unit
  AllRespect (c ∷ cs) s =
      Respects c.call c.alive c.now s × AllRespect cs (execution_call c.alive c.now c.call s)

  left_by-Within :
      {A : Type 0} (s : Store) (r : Result (A × Store))
      → Within agent limit s.executions
      → ((a : A) (s' : Store) → r ≡ ok (a, s') → Within agent limit s'.executions)
      → Within agent limit (left_by s r).executions
  left_by-Within s (ok r) w f = f r.0 r.1 refl
  left_by-Within s (err code) w f = w

  execution_call-Within :
      (alive : ℕ → Bool) (now : ℕ) (c : ExecutionCall) (s : Store)
      → Respects c alive now s
      → Within agent limit s.executions
      → Within agent limit (execution_call alive now c s).executions
  unfolding execution_call
  execution_call-Within alive now (queues task_id attempt of mc pid generation) s r w =
      left_by-Within s _ w
        λ e s'. queue-Within agent limit s task_id attempt of mc pid generation now e s' r w
  execution_call-Within alive now (admits e) s r w =
      left_by-Within s _ w λ answer s'. try_admit-Within agent limit alive s e now answer s' r w
  execution_call-Within alive now (reconciles of) s r w =
      reconcile_executors-Within agent limit alive now of s w
  execution_call-Within alive now (updates e patch) s r w =
      left_by-Within s _ w λ next s'. update-Within agent limit s e patch now next s' r w
  execution_call-Within alive now (cancels task_id by) s r w =
      request_cancel-Within agent limit s task_id by now w

  run_executions-Within :
      (cs : List TimedCall) (s : Store)
      → AllRespect cs s
      → Within agent limit s.executions
      → Within agent limit (run_executions cs s).executions
  unfolding run_executions AllRespect
  run_executions-Within [] s r w = w
  run_executions-Within (c ∷ cs) s r w =
      run_executions-Within cs _ r.1 (execution_call-Within c.alive c.now c.call s r.0 w)

  -- After a history of calls of the execution service, the executions of the agent that are
  -- RUNNING or QUARANTINED are at most `limit`, whichever processes are alive. The history begins
  -- in a table with one row for each task, where no queued execution of the agent has a bound
  -- larger than `limit` and at most `limit` executions of the agent are RUNNING or QUARANTINED. In
  -- it, no call queues an execution of the agent with a larger bound than `limit`; a record with
  -- which an admission is asked for names the agent of the row that has its task, generation and
  -- attempt; and an update of an execution of the agent sets it to RUNNING or QUARANTINED only if
  -- its row is RUNNING or QUARANTINED, and to QUEUED only with a bound of at most `limit`.
  pub run_executions-places :
      (cs : List TimedCall) (s : Store)
      → Within agent limit s.executions
      → AllRespect cs s
      → count (takes_place agent) (run_executions cs s).executions ≤ limit
  run_executions-places cs s w r = (run_executions-Within cs s r w).places
