-- ===== src/Control/Tasks/Replay.antt =====
-- task-service.ts: a claim or a transition that is sent twice under one key.
use bidirectional_bridge_cla.Prelude.{ℕ, ◌≡◌, refl, ap, ◌⊎◌, Option, none, some, ok}
use bidirectional_bridge_cla.Protocol.Records.{TaskId, AgentId, Task}
use bidirectional_bridge_cla.Control.Store.{Store, append_event, get_idempotency}
use bidirectional_bridge_cla.Control.Idempotency.{KeepsKeys, run_idempotent_once}
use bidirectional_bridge_cla.Control.Tasks.Steps.{Step, stays, writes}
use bidirectional_bridge_cla.Control.Tasks.Ownership.{claim_body, claim}
use bidirectional_bridge_cla.Control.Tasks.Transitions.{TransitionInput, transition_body}
use bidirectional_bridge_cla.Control.Tasks.Operations.{claim_body-Step, transition_body-Step}

Step-keys : (s : Store) (t : Task) (s' : Store) → Step s t s' → s'.idempotency ≡ s.idempotency
unfolding append_event
Step-keys s t s' (stays e f) = ap (λ x. x.idempotency) e
Step-keys s t s' (writes old w) = ap (λ x. x.idempotency) w.stored

pub claim_body-KeepsKeys :
    (id : TaskId) (agent : AgentId) (key : Option ℕ) (now : ℕ)
    → KeepsKeys (claim_body id agent key now)
claim_body-KeepsKeys id agent key now s t s' h =
    Step-keys s t s' (claim_body-Step id agent key now s t s' h)

pub transition_body-KeepsKeys :
    (input : TransitionInput) (now : ℕ) → KeepsKeys (transition_body input now)
transition_body-KeepsKeys input now s t s' h =
    Step-keys s t s' (transition_body-Step input now s t s' h)

-- A claim accepted under a fresh idempotency key and sent again gives the same task and leaves the
-- store alone, whether the second call first reads the store before or after the first call
-- committed.
pub claim_twice :
    (hash : TaskId → AgentId → ℕ) (id : TaskId) (agent : AgentId) (key now later : ℕ) (s : Store)
    (t : Task) (s' seen : Store)
    → get_idempotency s key ≡ none
    → claim hash s id agent (some key) now s ≡ ok (t, s')
    → (seen ≡ s') ⊎ (get_idempotency seen key ≡ none)
    → claim hash seen id agent (some key) later s' ≡ ok (t, s')
unfolding claim
claim_twice hash id agent key now later s t s' seen fresh h view =
    run_idempotent_once _ now later (claim_body id agent (some key) now)
      (claim_body id agent (some key) later) s t s' key seen
      (claim_body-KeepsKeys id agent (some key) now) refl fresh h view
