-- ===== src/Control/Idempotency/Refused.antt =====
-- idempotency.ts, `runIdempotent`: a call whose body is refused.
use bidirectional_bridge_cla.Prelude.{
  ℕ, ◌≡◌, ◌⊎◌, refl, inl, inr, true, not, ◌||◌, Option, none, some, arith, ◌==◌, Bool-cases,
  Option-cases, Result, ErrorCode, ok, err, idempotency_mismatch,
}
use bidirectional_bridge_cla.Protocol.Records.{Task}
use bidirectional_bridge_cla.Control.Store.{
  Store, IdempotencyRecord, get_idempotency, same_operation,
}
use bidirectional_bridge_cla.Control.Idempotency.{
  IdempotentOptions, replay, run_in_transaction, run_with_key, run_idempotent,
}

-- The answer of a call that does not run: the record of its key is in the store, at the first read
-- or in the transaction, and is either of another request, which is refused, or of this one, whose
-- first response is given again. The store is left alone.
pub record Replays (seen s : Store) (opts : IdempotentOptions) (result : Result (Task × Store))
    : Type 0 where
  pub key : ℕ
  pub existing : IdempotencyRecord
  pub keyed : opts.key ≡ some key
  pub known : (get_idempotency seen key ≡ some existing) ⊎ (get_idempotency s key ≡ some existing)
  pub answer :
      (result ≡ err idempotency_mismatch)
      ⊎ ((same_operation existing.operation opts.operation ≡ true)
          × (existing.request_hash ≡ opts.request_hash)
          × (result ≡ ok (existing.response, s)))

replay-answer :
    (r : IdempotencyRecord) (opts : IdempotentOptions) (s : Store)
    → (replay r opts s ≡ err idempotency_mismatch)
      ⊎ ((same_operation r.operation opts.operation ≡ true)
          × (r.request_hash ≡ opts.request_hash)
          × (replay r opts s ≡ ok (r.response, s)))
unfolding replay
replay-answer r opts s =
    elim (Bool-cases (
      not (same_operation r.operation opts.operation)
      || not (r.request_hash == opts.request_hash))) [
        | inl e ↦ inl (rw e refl)
        | inr e ↦ inr (ground arith, ground arith, rw e refl)
      ]

-- A call whose body is refused, is refused in the same way or does not run its body.
pub refused-Replays :
    (seen : Store) (opts : IdempotentOptions) (now : ℕ) (fn : Store → Result (Task × Store))
    (s : Store) (code : ErrorCode)
    → fn s ≡ err code
    → (run_idempotent seen opts now fn s ≡ err code)
      ⊎ Replays seen s opts (run_idempotent seen opts now fn s)
unfolding run_idempotent run_with_key run_in_transaction
refused-Replays seen opts now fn s code refused = by_key opts.key refl
  where
    given :
        (k : ℕ) (r : IdempotencyRecord) (result : Result (Task × Store))
        → opts.key ≡ some k
        → (get_idempotency seen k ≡ some r) ⊎ (get_idempotency s k ≡ some r)
        → result ≡ replay r opts s
        → Replays seen s opts result
    given k r result e g same = record {
      key = k;
      existing = r;
      keyed = e;
      known = g;
      answer = rw same (replay-answer r opts s);
    }

    by_key :
        (o : Option ℕ)
        → opts.key ≡ o
        → (run_with_key o seen opts now fn s ≡ err code)
          ⊎ Replays seen s opts (run_with_key o seen opts now fn s)
    by_key none e = inl refused
    by_key (some k) e = elim (Option-cases (get_idempotency seen k)) [
      | inr (r, g) ↦ inr (given k r _ e (inl g) (rw (g, run_with_key)))
      | inl g ↦ elim (Option-cases (get_idempotency s k)) [
        | inr (r, g') ↦ inr (given k r _ e (inr g') (rw (g, run_with_key, g', run_in_transaction)))
        | inl g' ↦ inl (rw (g, run_with_key, g', run_in_transaction, refused))
      ]
    ]
