-- ===== src/Protocol/Lifecycle.antt =====
-- shared/protocol/src/types.ts: the states of a task and the legal transitions between them.
use bidirectional_bridge_cla.Prelude.{ℕ, ◌≡◌, Bool, true, List, [], ◌∷◌, arith, ◌==◌, any}

pub data TaskState : Type 0 where
  pending claimed working blocked verifying done failed cancelled : TaskState

-- The position of a state, to compare two of them.
abbrev pub rank : TaskState → ℕ
rank TaskState.pending = 0
rank TaskState.claimed = 1
rank TaskState.working = 2
rank TaskState.blocked = 3
rank TaskState.verifying = 4
rank TaskState.done = 5
rank TaskState.failed = 6
rank TaskState.cancelled = 7

-- `a === b` on states.
abbrev pub same_state : TaskState → TaskState → Bool
same_state a b = rank a == rank b

pub same_state-eq : (a b : TaskState) → same_state a b ≡ true → a ≡ b
same_state-eq a b h = ground arith

abbrev pub terminal_states : List TaskState
terminal_states = TaskState.done ∷ TaskState.failed ∷ TaskState.cancelled ∷ []

abbrev pub is_terminal : TaskState → Bool
is_terminal s = any (same_state s) terminal_states

abbrev pub allowed_transitions : TaskState → List TaskState
allowed_transitions TaskState.pending = TaskState.claimed ∷ TaskState.cancelled ∷ []
allowed_transitions TaskState.claimed =
    TaskState.working ∷ TaskState.blocked ∷ TaskState.pending ∷ TaskState.cancelled ∷ []
allowed_transitions TaskState.working =
    TaskState.blocked ∷ TaskState.verifying ∷ TaskState.failed ∷ TaskState.cancelled ∷ []
allowed_transitions TaskState.blocked =
    TaskState.working ∷ TaskState.claimed ∷ TaskState.failed ∷ TaskState.cancelled ∷ []
allowed_transitions TaskState.verifying =
    TaskState.done ∷ TaskState.blocked ∷ TaskState.working ∷ TaskState.failed ∷ []
allowed_transitions TaskState.done = []
allowed_transitions TaskState.failed = []
allowed_transitions TaskState.cancelled = []

unfoldable pub can_transition : TaskState → TaskState → Bool
can_transition from to = any (same_state to) (allowed_transitions from)

pub data DeliverableStatus : Type 0 where
  complete partial failed : DeliverableStatus

unfoldable pub deliverable_terminal_state : DeliverableStatus → TaskState
deliverable_terminal_state DeliverableStatus.complete = TaskState.done
deliverable_terminal_state DeliverableStatus.partial = TaskState.blocked
deliverable_terminal_state DeliverableStatus.failed = TaskState.failed
