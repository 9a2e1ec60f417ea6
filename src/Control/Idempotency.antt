-- ===== src/Control/Idempotency.antt =====
-- shared/control-plane/src/idempotency.ts, `runIdempotent`. The hash of a request is a parameter
-- of the calls: a number that the caller computes from the request.
pub mod Refused
use mathlib.Core.Path.{subst}
use bidirectional_bridge_cla.Prelude.{
  sym, ap, ◌∙◌, ◌⊎◌, ==_refl, Bool-cases, >>=-eq-ok, ℕ, ◌≡◌, refl, true, not, ◌||◌, Option, none,
  some, arith, ◌==◌, if◌then◌else◌, Result, ok, err, ◌>>=◌, idempotency_mismatch, Option-cases, inl,
  inr,
}
use bidirectional_bridge_cla.Control.Table.{get-append}
use bidirectional_bridge_cla.Protocol.Records.{Task}
use bidirectional_bridge_cla.Control.Store.{
  Store, Operation, task_create, task_claim, task_transition, same_operation, IdempotencyRecord,
  get_idempotency, put_idempotency,
}

pub record IdempotentOptions : Type 0 where
  pub key : Option ℕ
  pub operation : Operation
  pub request_hash : ℕ

-- The answer to a key that is there: the first response, or a refusal.
unfoldable pub replay : IdempotencyRecord → IdempotentOptions → Store → Result (Task × Store)
replay existing opts s =
    if not (same_operation existing.operation opts.operation)
      || not (existing.request_hash == opts.request_hash)
    then err idempotency_mismatch
    else ok (existing.response, s)

-- Inside the transaction, on the store that it opens.
unfoldable pub run_in_transaction :
    ℕ → IdempotentOptions → ℕ → (Store → Result (Task × Store)) → Store → Result (Task × Store)
run_in_transaction key opts now fn s = elim (get_idempotency s key) [
  | some raced ↦ replay raced opts s
  | none ↦ do
    (result, s') ← fn s
    ok (
      result,
      put_idempotency s' (record {
        key = key;
        operation = opts.operation;
        request_hash = opts.request_hash;
        response = result;
        created_at = now;
      }),
    )
]

-- After the test on the key.
unfoldable pub run_with_key :
    Option ℕ
    → Store
    → IdempotentOptions
    → ℕ
    → (Store → Result (Task × Store))
    → Store
    → Result (Task × Store)
run_with_key none seen opts now fn s = fn s
run_with_key (some key) seen opts now fn s = elim (get_idempotency seen key) [
  | some existing ↦ replay existing opts s
  | none ↦ run_in_transaction key opts now fn s
]

-- `seen` is the store at the first read, and `s` the store when the transaction begins: another
-- process may commit between the two.
unfoldable pub run_idempotent :
    Store → IdempotentOptions → ℕ → (Store → Result (Task × Store)) → Store → Result (Task × Store)
run_idempotent seen opts now fn s = run_with_key opts.key seen opts now fn s

-- The body of an operation leaves the cached responses alone.
abbrev pub KeepsKeys : (Store → Result (Task × Store)) → Type 0
KeepsKeys fn =
    (s : Store) (t : Task) (s' : Store) → fn s ≡ ok (t, s') → s'.idempotency ≡ s.idempotency

-- How a call that answers has come to its answer.
pub data Outcome (seen : Store) (opts : IdempotentOptions) (now : ℕ)
    (fn : Store → Result (Task × Store)) (s : Store) (t : Task) (s' : Store) : Type 0 where
  unkeyed : opts.key ≡ none → fn s ≡ ok (t, s') → Outcome seen opts now fn s t s'
  replayed :
      (key : ℕ) (r : IdempotencyRecord)
      → opts.key ≡ some key
      → (get_idempotency seen key ≡ some r) ⊎ (get_idempotency s key ≡ some r)
      → replay r opts s ≡ ok (t, s')
      → Outcome seen opts now fn s t s'
  ran :
      (key : ℕ) (s1 : Store)
      → opts.key ≡ some key
      → get_idempotency s key ≡ none
      → fn s ≡ ok (t, s1)
      → s'
        ≡ put_idempotency s1 (record {
          key = key;
          operation = opts.operation;
          request_hash = opts.request_hash;
          response = t;
          created_at = now;
        })
      → Outcome seen opts now fn s t s'

pub ok-pair :
    {x y : Task} {a b : Store}
    → ◌≡◌ {A = Result (Task × Store)} (ok (x, a)) (ok (y, b))
    → (x ≡ y) × (a ≡ b)
ok-pair e = (cc, cc)

run_in_transaction-Outcome :
    (seen : Store) (key : ℕ) (opts : IdempotentOptions) (now : ℕ)
    (fn : Store → Result (Task × Store)) (s : Store) (t : Task) (s' : Store)
    → opts.key ≡ some key
    → run_in_transaction key opts now fn s ≡ ok (t, s')
    → Outcome seen opts now fn s t s'
unfolding run_in_transaction
run_in_transaction-Outcome seen key opts now fn s t s' k h =
    elim (Option-cases (get_idempotency s key)) [
      | inr (r, e) ↦ replayed key r k (inr e) (rw (e, run_in_transaction) at h)
      | inl e ↦
          let ((u, s1), f, g) = >>=-eq-ok (fn s) _ (rw (e, run_in_transaction) at h) in
          let (same, stored) = ok-pair g in
          subst (λ x. Outcome seen opts now fn s x s') same (ran key s1 k e f (sym stored))
    ]

pub run_idempotent-Outcome :
    (seen : Store) (opts : IdempotentOptions) (now : ℕ) (fn : Store → Result (Task × Store))
    (s : Store) (t : Task) (s' : Store)
    → run_idempotent seen opts now fn s ≡ ok (t, s')
    → Outcome seen opts now fn s t s'
unfolding run_idempotent run_with_key
run_idempotent-Outcome seen opts now fn s t s' h = keyed opts.key refl h
  where
    keyed :
        (o : Option ℕ)
        → opts.key ≡ o
        → run_with_key o seen opts now fn s ≡ ok (t, s')
        → Outcome seen opts now fn s t s'
    keyed none k h = unkeyed k h
    keyed (some key) k h = elim (Option-cases (get_idempotency seen key)) [
      | inl e ↦ run_in_transaction-Outcome seen key opts now fn s t s' k (rw (e, run_with_key) at h)
      | inr (r, e) ↦ replayed key r k (inl e) (rw (e, run_with_key) at h)
    ]

pub replay-cases :
    (r : IdempotencyRecord) (opts : IdempotentOptions) (s : Store) (t : Task) (s' : Store)
    → replay r opts s ≡ ok (t, s')
    → (r.response ≡ t)
      × (s' ≡ s)
      × (same_operation r.operation opts.operation ≡ true)
      × (r.request_hash ≡ opts.request_hash)
unfolding replay
replay-cases r opts s t s' h =
    elim (Bool-cases (
      not (same_operation r.operation opts.operation)
      || not (r.request_hash == opts.request_hash))) [
        | inl b ↦ clash (rw b at h)
        | inr b ↦ let (e, f) = ok-pair (rw b at h) in (e, sym f, ground arith, ground arith)
      ]
  where
    clash :
        ◌≡◌ {A = Result (Task × Store)} (err idempotency_mismatch) (ok (t, s'))
        → (r.response ≡ t)
          × (s' ≡ s)
          × (same_operation r.operation opts.operation ≡ true)
          × (r.request_hash ≡ opts.request_hash)
    clash e = cc

-- An invariant that the body and the cache keep.
pub Outcome-keeps :
    (P : Store → Type 0) (seen : Store) (opts : IdempotentOptions) (now : ℕ)
    (fn : Store → Result (Task × Store)) (s : Store) (t : Task) (s' : Store)
    → ((r : IdempotencyRecord) (x : Store) → P x → P (put_idempotency x r))
    → ((u : Task) (x : Store) → fn s ≡ ok (u, x) → P x)
    → P s
    → Outcome seen opts now fn s t s'
    → P s'
Outcome-keeps P seen opts now fn s t s' cached body p (unkeyed k f) = body t s' f
Outcome-keeps P seen opts now fn s t s' cached body p (replayed key r k e f) =
    rw (replay-cases r opts s t s' f).1 p
Outcome-keeps P seen opts now fn s t s' cached body p (ran key s1 k e f g) =
    rw g (cached _ s1 (body t s1 f))

get-put :
    (s : Store) (r : IdempotencyRecord)
    → get_idempotency s r.key ≡ none
    → get_idempotency (put_idempotency s r) r.key ≡ some r
unfolding put_idempotency get_idempotency
get-put s r e = rw (e, get-append (λ x. x.key) r.key r s.idempotency, e, ==_refl r.key)

replay_same :
    (r : IdempotencyRecord) (opts : IdempotentOptions) (s : Store)
    → same_operation r.operation opts.operation ≡ true
    → r.request_hash ≡ opts.request_hash
    → replay r opts s ≡ ok (r.response, s)
unfolding replay
replay_same r opts s a b = rw (a, b, ==_refl opts.request_hash)

same_operation_refl : (o : Operation) → same_operation o o ≡ true
same_operation_refl task_create = refl
same_operation_refl task_claim = refl
same_operation_refl task_transition = refl

same_keys :
    (s s1 : Store) (key : ℕ)
    → s1.idempotency ≡ s.idempotency
    → get_idempotency s1 key ≡ get_idempotency s key
unfolding get_idempotency
same_keys s s1 key e = rw e

-- A store that holds a fitting record under the key answers with it.
answers :
    (seen : Store) (opts : IdempotentOptions) (now : ℕ) (fn : Store → Result (Task × Store))
    (s : Store) (key : ℕ) (r : IdempotencyRecord)
    → opts.key ≡ some key
    → get_idempotency s key ≡ some r
    → (seen ≡ s) ⊎ (get_idempotency seen key ≡ none)
    → run_idempotent seen opts now fn s ≡ replay r opts s
unfolding run_idempotent run_with_key run_in_transaction
answers seen opts now fn s key r k e view =
    ap (λ o. run_with_key o seen opts now fn s) k ∙ elim view [
      | inl same ↦ rw (same, run_with_key, e)
      | inr absent ↦ rw (absent, run_with_key, e, run_in_transaction)
    ]

-- A request that has run under a key is answered again in the same way: whatever body is passed,
-- it does not run, also when the first read came before the first answer was committed.
pub run_idempotent_once :
    (opts : IdempotentOptions) (now later : ℕ) (fn again : Store → Result (Task × Store))
    (s : Store) (t : Task) (s' : Store) (key : ℕ) (seen : Store)
    → KeepsKeys fn
    → opts.key ≡ some key
    → get_idempotency s key ≡ none
    → run_idempotent s opts now fn s ≡ ok (t, s')
    → (seen ≡ s') ⊎ (get_idempotency seen key ≡ none)
    → run_idempotent seen opts later again s' ≡ ok (t, s')
run_idempotent_once opts now later fn again s t s' key seen keeps k absent h view =
    first (run_idempotent-Outcome s opts now fn s t s' h)
  where
    gone : {r : IdempotencyRecord} {x : ℕ} → opts.key ≡ some x → get_idempotency s x ≡ some r → ⊥
    gone j e = cc

    same : {x : ℕ} → opts.key ≡ some x → x ≡ key
    same j = cc

    stored :
        (s1 : Store) (r : IdempotencyRecord)
        → r.key ≡ key
        → get_idempotency s1 key ≡ none
        → s' ≡ put_idempotency s1 r
        → get_idempotency s' key ≡ some r
    stored s1 r e n g = rw (g, ← e) (get-put s1 r (rw e n))

    first : Outcome s opts now fn s t s' → run_idempotent seen opts later again s' ≡ ok (t, s')
    first (unkeyed j f) = cc
    first (replayed x r j (inl e) f) = absurd (gone j e)
    first (replayed x r j (inr e) f) = absurd (gone j e)
    first (ran x s1 j e f g) =
        answers seen opts later again s' key _ k
          (stored s1 _ (same j) (same_keys s s1 key (keeps s t s1 f) ∙ absent) g) view
        ∙ replay_same _ opts s' (same_operation_refl opts.operation) refl
