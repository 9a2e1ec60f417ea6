-- ===== src/Control/Tasks/History.antt =====
-- task-service.ts: histories of calls. A call that throws leaves the store as it was.
use mathlib.Core.Path.{subst}
use bidirectional_bridge_cla.Prelude.{ℕ, ◌≡◌, refl, Option, List, [], ◌∷◌, Result, ok, err}
use bidirectional_bridge_cla.Protocol.Path.{Text}
use bidirectional_bridge_cla.Protocol.Lifecycle.{TaskState}
use bidirectional_bridge_cla.Protocol.Records.{TaskId, RunId, AgentId, Task, StatusUpdate}
use bidirectional_bridge_cla.Control.Store.{Store}
use bidirectional_bridge_cla.Control.Tasks.Steps.{writes}
use bidirectional_bridge_cla.Control.Tasks.Log.{LogAgrees, Step-LogAgrees}
use bidirectional_bridge_cla.Control.Tasks.Lineage.{CreateTaskInput, create}
use bidirectional_bridge_cla.Control.Tasks.Ownership.{claim, release, retry, report_status}
use bidirectional_bridge_cla.Control.Tasks.Dependencies.{add_task_dependency}
use bidirectional_bridge_cla.Control.Tasks.Transitions.{
  TransitionInput, transition_task, block, unblock, FinalizeInput, finalize_deliverable,
}
use bidirectional_bridge_cla.Control.Tasks.Recovery.{BeginRecoveryInput, begin_recovery}
use bidirectional_bridge_cla.Control.Tasks.Resumed.{begin_recovery-Resumed}
use bidirectional_bridge_cla.Control.Tasks.Operations.{
  release-Step, retry-Step, block-Step, unblock-Step,
}
use bidirectional_bridge_cla.Control.Tasks.Calls.{finalize-Steps, Steps-LogAgrees}
use bidirectional_bridge_cla.Control.Tasks.Kept.{
  create-LogAgrees, claim-LogAgrees, transition-LogAgrees, report-LogAgrees, depends-LogAgrees,
}

-- The hashes of the requests, which the source computes by SHA-256.
pub record Hashes : Type 0 where
  pub of_create : CreateTaskInput → ℕ
  pub of_claim : TaskId → AgentId → ℕ
  pub of_transition : TaskId → TaskState → AgentId → ℕ

pub data Call : Type 0 where
  creates : CreateTaskInput → TaskId → RunId → Call
  claims : TaskId → AgentId → Option ℕ → Call
  releases : TaskId → AgentId → Text → Call
  depends : TaskId → TaskId → AgentId → Call
  moves : TransitionInput → Call
  finalizes : FinalizeInput → Call
  blocks unblocks : TaskId → AgentId → Text → Call
  retries : TaskId → AgentId → ℕ → Call
  recovers : BeginRecoveryInput → Call
  reports : StatusUpdate → Call

abbrev store_of : Result (Task × Store) → Result Store
store_of (ok (t, s')) = ok s'
store_of (err e) = err e

-- One call at the time `now`.
pub call : Hashes → ℕ → Call → Store → Result Store
call h now (creates input id run) s = store_of (create h.of_create s input id run now s)
call h now (claims id agent key) s = store_of (claim h.of_claim s id agent key now s)
call h now (releases id agent why) s = store_of (release s id agent why now)
call h now (depends id on agent) s = store_of (add_task_dependency s id on agent now)
call h now (moves input) s = store_of (transition_task h.of_transition s input now s)
call h now (finalizes input) s = store_of (finalize_deliverable s input now)
call h now (blocks id agent why) s = store_of (block s id agent why now)
call h now (unblocks id agent why) s = store_of (unblock s id agent why now)
call h now (retries id agent most) s = store_of (retry s id agent most now)
call h now (recovers input) s = store_of (begin_recovery s input now)
call h now (reports update) s = report_status s update

abbrev after : Store → Result Store → Store
after s (ok s') = s'
after s (err e) = s

pub run : Hashes → List (ℕ × Call) → Store → Store
run h [] s = s
run h ((now, c) ∷ cs) s = run h cs (after s (call h now c s))

lift :
    (s : Store) (r : Result (Task × Store)) (s' : Store)
    → LogAgrees s
    → ((t : Task) (x : Store) → r ≡ ok (t, x) → LogAgrees x)
    → store_of r ≡ ok s'
    → LogAgrees s'
lift s (ok (t, x)) s' l f h = subst LogAgrees (ok-same h) (f t x refl)
  where
    ok-same : {a b : Store} → ok a ≡ ok b → a ≡ b
    ok-same e = cc
lift s (err c) s' l f h = cc

call-LogAgrees :
    (h : Hashes) (now : ℕ) (c : Call) (s s' : Store)
    → LogAgrees s
    → call h now c s ≡ ok s'
    → LogAgrees s'
unfolding call
call-LogAgrees h now (creates input id run) s s' l e =
    lift s _ s' l (λ t x. create-LogAgrees h.of_create s input id run now s t x l) e
call-LogAgrees h now (claims id agent key) s s' l e =
    lift s _ s' l (λ t x. claim-LogAgrees h.of_claim s id agent key now s t x l) e
call-LogAgrees h now (releases id agent why) s s' l e =
    lift s _ s' l (λ t x r. Step-LogAgrees s t x l (release-Step s id agent why now t x r)) e
call-LogAgrees h now (depends id on agent) s s' l e =
    lift s _ s' l (λ t x. depends-LogAgrees s id on agent now t x l) e
call-LogAgrees h now (moves input) s s' l e =
    lift s _ s' l (λ t x. transition-LogAgrees h.of_transition s input now s t x l) e
call-LogAgrees h now (finalizes input) s s' l e =
    lift s _ s' l (λ t x r. Steps-LogAgrees l (finalize-Steps s input now t x r)) e
call-LogAgrees h now (blocks id agent why) s s' l e =
    lift s _ s' l (λ t x r. Step-LogAgrees s t x l (block-Step s id agent why now t x r)) e
call-LogAgrees h now (unblocks id agent why) s s' l e =
    lift s _ s' l (λ t x r. Step-LogAgrees s t x l (unblock-Step s id agent why now t x r)) e
call-LogAgrees h now (recovers input) s s' l e =
    lift s _ s' l
      (λ t x r.
        let z = begin_recovery-Resumed s input now t x r in
        Step-LogAgrees s t x l (writes z.task z.written))
      e
call-LogAgrees h now (retries id agent most) s s' l e =
    lift s _ s' l (λ t x r. Step-LogAgrees s t x l (retry-Step s id agent most now t x r)) e
call-LogAgrees h now (reports update) s s' l e = report-LogAgrees s update s' l e

-- After any history of calls of the task service, accepted or refused, that begins in a store
-- whose log agrees with its tasks, the last event that tells a state of a task tells the state of
-- its row, and no event tells a state of a task without a row.
pub run-LogAgrees :
    (h : Hashes) (cs : List (ℕ × Call)) (s : Store) → LogAgrees s → LogAgrees (run h cs s)
unfolding run
run-LogAgrees h [] s l = l
run-LogAgrees h ((now, c) ∷ cs) s l =
    run-LogAgrees h cs (after s (call h now c s)) (one (call h now c s) refl)
  where
    one : (r : Result Store) → call h now c s ≡ r → LogAgrees (after s r)
    one (ok s') e = call-LogAgrees h now c s s' l e
    one (err x) e = l
