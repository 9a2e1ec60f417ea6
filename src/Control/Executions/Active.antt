-- ===== src/Control/Executions/Active.antt =====
-- execution-service.ts: the active executions of an agent in the order of their tickets.
use mathlib.Core.Path.{subst}
use bidirectional_bridge_cla.Prelude.{
  ℕ, ◌+◌, ◌<◌, ◌≤◌, ◌≡◌, refl, ap, ◌∙◌, inl, inr, Bool, true, false, not, some, List, [], ◌∷◌, All,
  arith, ◌==◌, ==_iff, ltb, filter, Bool-cases, if◌then◌else◌,
}
use bidirectional_bridge_cla.Protocol.Records.{AgentId}
use bidirectional_bridge_cla.Control.Table.Counts.{point, count, length-filter}
use bidirectional_bridge_cla.Control.Store.{Store, Phase, ExecutionRecord, list_executions}
use bidirectional_bridge_cla.Control.Executions.{
  is_stopped_phase, is_occupying, is_waiting, insert_by_ticket, by_ticket, active, limit_of,
  first_waiting, occupied,
}
use bidirectional_bridge_cla.Control.Executions.Capacity.{takes_place}

-- The places that are taken, counted over the active executions in the order of their tickets.

count-insert_by_ticket :
    (p : ExecutionRecord → Bool) (e : ExecutionRecord) (es : List ExecutionRecord)
    → count p (insert_by_ticket e es) ≡ point p e + count p es
unfolding insert_by_ticket count
count-insert_by_ticket p e [] = refl
count-insert_by_ticket p e (f ∷ fs) = elim (Bool-cases (ltb f.queue_ticket e.queue_ticket)) [
  | inl h ↦ rw h (omega (arith, count-insert_by_ticket p e fs))
  | inr h ↦ rw h refl
]

pub count-by_ticket :
    (p : ExecutionRecord → Bool) (es : List ExecutionRecord) → count p (by_ticket es) ≡ count p es
unfolding by_ticket count
count-by_ticket p [] = refl
count-by_ticket p (e ∷ es) =
    count-insert_by_ticket p e (by_ticket es) ∙ ap (λ n. point p e + n) (count-by_ticket p es)

stopped-free : (p : Phase) → is_stopped_phase p ≡ true → is_occupying p ≡ false
stopped-free Phase.stopped h = refl
stopped-free Phase.queued h = cc
stopped-free Phase.running h = cc
stopped-free Phase.quarantined h = cc

count-active :
    (agent : AgentId) (es : List ExecutionRecord)
    → count
        (λ e. is_occupying e.phase)
        (filter (λ e. not (is_stopped_phase e.phase)) (filter (λ e. e.agent == agent) es))
      ≡ count (takes_place agent) es
unfolding count
count-active agent [] = refl
count-active agent (e ∷ es) = elim (Bool-cases (e.agent == agent)) [
  | inr a ↦ rw a (omega (arith, count-active agent es))
  | inl a ↦ elim (Bool-cases (is_stopped_phase e.phase)) [
    | inl h ↦ rw (a, h, stopped-free e.phase h) (omega (arith, count-active agent es))
    | inr h ↦
        rw (a, h) (ap (λ n. (if is_occupying e.phase then 1 else 0) + n) (count-active agent es))
  ]
]

pub occupied-active :
    (s : Store) (agent : AgentId)
    → occupied (active s agent) ≡ count (takes_place agent) s.executions
unfolding active list_executions
occupied-active s agent =
    length-filter (λ e. is_occupying e.phase) (active s agent)
    ∙ count-by_ticket _ _
    ∙ count-active agent s.executions

-- The bound of an admission is below that of each active execution.

pub limit_of-le : (least : ℕ) (es : List ExecutionRecord) → limit_of least es ≤ least
unfolding limit_of
limit_of-le least [] = omega arith
limit_of-le least (e ∷ es) = ground (arith, limit_of-le e.max_concurrency es, limit_of-le least es)

pub limit_of-waiting :
    (least : ℕ) (es : List ExecutionRecord) (first : ExecutionRecord)
    → first_waiting es ≡ some first
    → limit_of least es ≤ first.max_concurrency
unfolding limit_of first_waiting
limit_of-waiting least [] first h = cc
limit_of-waiting least (e ∷ es) first h = elim (Bool-cases (is_waiting e)) [
  | inl w ↦
      let same : e ≡ first = here (rw w at h) in
      rw (← same) (ground (arith, limit_of-le e.max_concurrency es, limit_of-le least es))
  | inr w ↦
      limit_of-waiting (if ltb e.max_concurrency least then e.max_concurrency else least) es first
        (rw w at h)
]
  where
    here : {e : ExecutionRecord} → some e ≡ some first → e ≡ first
    here h = cc

-- What holds of each execution holds of the active ones.
pub All-insert_by_ticket :
    (P : ExecutionRecord → Type 0) (e : ExecutionRecord) (es : List ExecutionRecord)
    → P e
    → All P es
    → All P (insert_by_ticket e es)
unfolding insert_by_ticket
All-insert_by_ticket P e [] p h = (p, tt)
All-insert_by_ticket P e (f ∷ fs) p (h, hs) =
    elim (Bool-cases (ltb f.queue_ticket e.queue_ticket)) [
      | inl c ↦ rw c (h, All-insert_by_ticket P e fs p hs)
      | inr c ↦ rw c (p, (h, hs))
    ]

pub All-by_ticket :
    (P : ExecutionRecord → Type 0) (es : List ExecutionRecord) → All P es → All P (by_ticket es)
unfolding by_ticket
All-by_ticket P [] h = tt
All-by_ticket P (e ∷ es) (h, hs) = All-insert_by_ticket P e (by_ticket es) h (All-by_ticket P es hs)

All-filter :
    (P Q : ExecutionRecord → Type 0) (p : ExecutionRecord → Bool) (es : List ExecutionRecord)
    → All P es
    → ((e : ExecutionRecord) → p e ≡ true → P e → Q e)
    → All Q (filter p es)
All-filter P Q p [] h f = tt
All-filter P Q p (e ∷ es) (h, hs) f = elim (Bool-cases (p e)) [
  | inl c ↦ rw c (f e c h, All-filter P Q p es hs f)
  | inr c ↦ rw c (All-filter P Q p es hs f)
]

pub All-active :
    (s : Store) (agent : AgentId) (P : ExecutionRecord → Type 0)
    → All P s.executions
    → All (λ e. P e × (e.agent ≡ agent)) (active s agent)
unfolding active list_executions
All-active s agent P h = All-by_ticket _ _ (
    All-filter (λ e. P e × (e.agent ≡ agent)) (λ e. P e × (e.agent ≡ agent)) _ _
      (All-filter P (λ e. P e × (e.agent ≡ agent)) _ s.executions h
        (λ e c p. (p, (==_iff _ _).0 c)))
      (λ e c p. p))

pub All-first_waiting :
    (P : ExecutionRecord → Type 0) (es : List ExecutionRecord) (first : ExecutionRecord)
    → All P es
    → first_waiting es ≡ some first
    → P first × (is_waiting first ≡ true)
unfolding first_waiting
All-first_waiting P [] first h e = cc
All-first_waiting P (x ∷ xs) first (h, hs) e = elim (Bool-cases (is_waiting x)) [
  | inl w ↦ subst (λ y. P y × (is_waiting y ≡ true)) (here (rw w at e)) (h, w)
  | inr w ↦ All-first_waiting P xs first hs (rw w at e)
]
  where
    here : {x : ExecutionRecord} → some x ≡ some first → x ≡ first
    here h = cc

-- What is below the bound of an admission is below the bound of each active execution.
pub limit_of-All :
    (least taken : ℕ) (es : List ExecutionRecord)
    → taken < limit_of least es
    → All (λ e. taken < e.max_concurrency) es
unfolding limit_of
limit_of-All least taken [] h = tt
limit_of-All least taken (e ∷ es) h = (
  below e.max_concurrency least (limit_of-le (smaller e.max_concurrency least) es) h,
  limit_of-All (smaller e.max_concurrency least) taken es h,
)
  where
    smaller : ℕ → ℕ → ℕ
    smaller a b = if ltb a b then a else b

    below : (a b : ℕ) {l : ℕ} → l ≤ smaller a b → taken < l → taken < a
    below a b h k = ground arith
