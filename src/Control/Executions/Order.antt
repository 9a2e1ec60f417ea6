-- ===== src/Control/Executions/Order.antt =====
-- execution-service.ts: the order by ticket, and the first that waits.
use mathlib.Core.Path.{subst}
use bidirectional_bridge_cla.Prelude.{
  ℕ, ◌≤◌, ◌≡◌, refl, inl, inr, Bool, true, false, not, ◌&&◌, some, List, [], ◌∷◌, All, any, arith,
  ==_iff, ltb, filter, Bool-cases,
}
use bidirectional_bridge_cla.Protocol.Records.{AgentId}
use bidirectional_bridge_cla.Control.Store.{Store, Phase, ExecutionRecord, list_executions}
use bidirectional_bridge_cla.Control.Executions.{
  is_stopped_phase, is_queued, is_waiting, insert_by_ticket, by_ticket, active, first_waiting,
}
use bidirectional_bridge_cla.Control.Executions.Active.{All-insert_by_ticket}

-- The order by ticket.

unfoldable pub IsSorted : List ExecutionRecord → Type 0
IsSorted [] = Unit
IsSorted (e ∷ es) = All (λ f. e.queue_ticket ≤ f.queue_ticket) es × IsSorted es

All-below :
    (a b : ℕ) (es : List ExecutionRecord)
    → a ≤ b
    → All (λ f. b ≤ f.queue_ticket) es
    → All (λ f. a ≤ f.queue_ticket) es
All-below a b [] h k = tt
All-below a b (e ∷ es) h (k, ks) = (omega arith, All-below a b es h ks)

insert_by_ticket-IsSorted :
    (e : ExecutionRecord) (es : List ExecutionRecord)
    → IsSorted es
    → IsSorted (insert_by_ticket e es)
unfolding insert_by_ticket IsSorted
insert_by_ticket-IsSorted e [] h = (tt, tt)
insert_by_ticket-IsSorted e (f ∷ fs) h = elim (Bool-cases (ltb f.queue_ticket e.queue_ticket)) [
  | inl c ↦ rw c (
    All-insert_by_ticket (λ g. f.queue_ticket ≤ g.queue_ticket) e fs (ground arith) h.0,
    insert_by_ticket-IsSorted e fs h.1,
  )
  | inr c ↦
      let le : e.queue_ticket ≤ f.queue_ticket = ground arith in
      rw c ((le, All-below e.queue_ticket f.queue_ticket fs le h.0), h)
]

by_ticket-IsSorted : (es : List ExecutionRecord) → IsSorted (by_ticket es)
unfolding by_ticket IsSorted
by_ticket-IsSorted [] = tt
by_ticket-IsSorted (e ∷ es) = insert_by_ticket-IsSorted e (by_ticket es) (by_ticket-IsSorted es)

abbrev pub NotBefore : ExecutionRecord → ExecutionRecord → Type 0
NotBefore first f = is_waiting f ≡ true → first.queue_ticket ≤ f.queue_ticket

All-weaken :
    (P Q : ExecutionRecord → Type 0) (es : List ExecutionRecord)
    → ((e : ExecutionRecord) → P e → Q e)
    → All P es
    → All Q es
All-weaken P Q [] f h = tt
All-weaken P Q (e ∷ es) f (h, hs) = (f e h, All-weaken P Q es f hs)

first_waiting-NotBefore :
    (es : List ExecutionRecord) (first : ExecutionRecord)
    → IsSorted es
    → first_waiting es ≡ some first
    → All (NotBefore first) es
unfolding first_waiting IsSorted
first_waiting-NotBefore [] first s h = tt
first_waiting-NotBefore (e ∷ es) first s h = elim (Bool-cases (is_waiting e)) [
  | inl w ↦
      let same : e ≡ first = here (rw w at h) in
      subst (λ x. All (NotBefore x) (e ∷ es)) same
        (λ _. le_refl e.queue_ticket, All-weaken _ (NotBefore e) es (λ f k _. k) s.0)
  | inr w ↦ (λ t. differ t w, first_waiting-NotBefore es first s.1 (rw w at h))
]
  where
    here : {e : ExecutionRecord} → some e ≡ some first → e ≡ first
    here h = cc

    le_refl : (n : ℕ) → n ≤ n
    le_refl n = omega arith

    differ : {b : Bool} {P : Type 0} → b ≡ true → b ≡ false → P
    differ t w = absurd (cc)

-- What holds of the active executions of an agent holds of its executions that are not stopped.

All-insert-parts :
    (P : ExecutionRecord → Type 0) (e : ExecutionRecord) (es : List ExecutionRecord)
    → All P (insert_by_ticket e es)
    → P e × All P es
unfolding insert_by_ticket
All-insert-parts P e [] h = h
All-insert-parts P e (f ∷ fs) h = elim (Bool-cases (ltb f.queue_ticket e.queue_ticket)) [
  | inl c ↦ let (a, b) = rw c at h in let (p, q) = All-insert-parts P e fs b in (p, (a, q))
  | inr c ↦ rw c at h
]

All-by_ticket-parts :
    (P : ExecutionRecord → Type 0) (es : List ExecutionRecord) → All P (by_ticket es) → All P es
unfolding by_ticket
All-by_ticket-parts P [] h = tt
All-by_ticket-parts P (e ∷ es) h =
    let (p, q) = All-insert-parts P e (by_ticket es) h in (p, All-by_ticket-parts P es q)

All-filter-parts :
    (P : ExecutionRecord → Type 0) (p : ExecutionRecord → Bool) (es : List ExecutionRecord)
    → All P (filter p es)
    → All (λ e. p e ≡ true → P e) es
All-filter-parts P p [] h = tt
All-filter-parts P p (e ∷ es) h = elim (Bool-cases (p e)) [
  | inl c ↦ let (a, b) = rw c at h in (λ _. a, All-filter-parts P p es b)
  | inr c ↦ (λ t. differ t c, All-filter-parts P p es (rw c at h))
]
  where
    differ : {b : Bool} {Q : Type 0} → b ≡ true → b ≡ false → Q
    differ t w = absurd (cc)

waiting-active :
    (p : Phase) (b : Bool) → (is_queued p && b) ≡ true → not (is_stopped_phase p) ≡ true
waiting-active Phase.queued b h = refl
waiting-active Phase.running b h = refl
waiting-active Phase.quarantined b h = refl
waiting-active Phase.stopped b h = cc

-- The first that waits has the least ticket of all that wait for the agent.
pub first_waiting-least :
    (s : Store) (agent : AgentId) (first : ExecutionRecord)
    → first_waiting (active s agent) ≡ some first
    → All (λ f. f.agent ≡ agent → NotBefore first f) s.executions
unfolding active list_executions
first_waiting-least s agent first h =
    All-weaken _ (λ f. f.agent ≡ agent → NotBefore first f) s.executions
      (λ f k a w. k ((==_iff _ _).1 a) (waiting-active f.phase _ w) w)
      (All-filter-parts (λ f. not (is_stopped_phase f.phase) ≡ true → NotBefore first f) _
        s.executions
        (All-filter-parts (NotBefore first) _ _ (
          All-by_ticket-parts (NotBefore first) _
            (first_waiting-NotBefore (active s agent) first (by_ticket-IsSorted _) h))))

pub any-first_waiting :
    (es : List ExecutionRecord)
    → any is_waiting es ≡ true
    → (first : ExecutionRecord) × (first_waiting es ≡ some first)
unfolding first_waiting
any-first_waiting [] h = cc
any-first_waiting (e ∷ es) h = elim (Bool-cases (is_waiting e)) [
  | inl w ↦ (e, rw w refl)
  | inr w ↦ let (first, f) = any-first_waiting es (rw w at h) in (first, rw w f)
]
