-- ===== src/Control/Delegation/Rows.antt =====
-- The table of delegations, and an operation that has been let to launch.
use mathlib.Core.Path.{subst}
use bidirectional_bridge_cla.Prelude.{
  ℕ, ◌≡◌, refl, sym, ap, ◌∙◌, inl, inr, true, false, ◌&&◌, none, some, List, [], ◌∷◌, ◌==◌, arith,
  Bool-cases, if◌then◌else◌,
}
use bidirectional_bridge_cla.Protocol.Records.{AgentId}
use bidirectional_bridge_cla.Control.Store.{
  DelegationOperation, is_operation, get_operation, put_operation,
}
use bidirectional_bridge_cla.Control.Delegation.{is_preparing}

pub get_operation-put :
    (caller : AgentId) (key : ℕ) (r : DelegationOperation) (os : List DelegationOperation)
    → get_operation caller key (put_operation r os)
      ≡ (if is_operation caller key r then some r else get_operation caller key os)
unfolding get_operation put_operation
get_operation-put caller key r [] = refl
get_operation-put caller key r (o ∷ os) = elim (Bool-cases (is_operation r.caller r.key o)) [
  | inl e ↦ rw e (elim (Bool-cases (is_operation caller key r)) [
    | inl f ↦ rw f refl
    | inr f ↦ rw (f, moved caller key r.caller r.key o.caller o.key e f) refl
  ])
  | inr e ↦ rw e (elim (Bool-cases (is_operation caller key o)) [
    | inl f ↦ rw (f, apart caller key r.caller r.key o.caller o.key e f) refl
    | inr f ↦ rw f (get_operation-put caller key r os)
  ])
]
  where
    moved :
        (c k rc rk oc oj : ℕ)
        → (oc == rc && oj == rk) ≡ true
        → (rc == c && rk == k) ≡ false
        → (oc == c && oj == k) ≡ false
    moved c k rc rk oc oj e f = ground arith

    apart :
        (c k rc rk oc oj : ℕ)
        → (oc == rc && oj == rk) ≡ false
        → (oc == c && oj == k) ≡ true
        → (rc == c && rk == k) ≡ false
    apart c k rc rk oc oj e f = ground arith

pub get_operation-is :
    (caller : AgentId) (key : ℕ) (os : List DelegationOperation) (r : DelegationOperation)
    → get_operation caller key os ≡ some r
    → is_operation caller key r ≡ true
unfolding get_operation
get_operation-is caller key [] r h = cc
get_operation-is caller key (o ∷ os) r h = elim (Bool-cases (is_operation caller key o)) [
  | inl e ↦ subst (λ x. is_operation caller key x ≡ true) (some-same (rw e at h)) e
  | inr e ↦ get_operation-is caller key os r (rw e at h)
]
  where
    some-same : some o ≡ some r → o ≡ r
    some-same h = cc

-- The operation of the key has been let to launch, by the executor.
pub record Launched (executor : ℕ) (caller : AgentId) (key : ℕ) (os : List DelegationOperation)
    : Type 0 where
  pub row : DelegationOperation
  pub found : get_operation caller key os ≡ some row
  pub begun : is_preparing row.phase ≡ false
  pub mine : row.executor_id ≡ executor

-- A row that is put keeps that, if it is of another key or one of the executor that has begun.
pub put_operation-Launched :
    (executor : ℕ) (caller : AgentId) (key : ℕ) (os : List DelegationOperation)
    (r : DelegationOperation)
    → (is_operation caller key r ≡ true
        → (is_preparing r.phase ≡ false) × (r.executor_id ≡ executor))
    → Launched executor caller key os
    → Launched executor caller key (put_operation r os)
put_operation-Launched executor caller key os r h l =
    elim (Bool-cases (is_operation caller key r)) [
      | inl e ↦ record {
        row = r;
        found = get_operation-put caller key r os ∙ rw e refl;
        begun = (h e).0;
        mine = (h e).1;
      }
      | inr e ↦ record {
        row = l.row;
        found = get_operation-put caller key r os ∙ (rw e l.found);
        begun = l.begun;
        mine = l.mine;
      }
    ]

pub same_row :
    (executor : ℕ) (caller : AgentId) (key : ℕ) (os : List DelegationOperation) (from : AgentId)
    (other : ℕ) (r : DelegationOperation)
    → Launched executor caller key os
    → get_operation from other os ≡ some r
    → is_operation caller key r ≡ true
    → (is_preparing r.phase ≡ false) × (r.executor_id ≡ executor)
same_row executor caller key os from other r l got h =
    let same : l.row ≡ r =
      some-same (sym l.found ∙ found_here (get_operation-is from other os r got)) in
    (
      subst (λ x. is_preparing x.phase ≡ false) same l.begun,
      subst (λ x. x.executor_id ≡ executor) same l.mine,
    )
  where
    some-same : some l.row ≡ some r → l.row ≡ r
    some-same e = cc

    one_key :
        (a b c d m n : ℕ)
        → (a == c && b == d) ≡ true
        → (a == m && b == n) ≡ true
        → (c ≡ m) × (d ≡ n)
    one_key a b c d m n e f = (ground arith, ground arith)

    found_here : is_operation from other r ≡ true → get_operation caller key os ≡ some r
    found_here e =
        let (same_caller, same_key) = one_key r.caller r.key caller key from other h e in
        ap (λ c. get_operation c key os) same_caller
        ∙ ap (λ k. get_operation from k os) same_key
        ∙ got

pub unlaunched :
    (executor : ℕ) (caller : AgentId) (key : ℕ) (os : List DelegationOperation) (from : AgentId)
    (other : ℕ)
    → Launched executor caller key os
    → get_operation from other os ≡ none
    → (from == caller && other == key) ≡ true
    → ⊥
unlaunched executor caller key os from other l missing h =
    none-some (sym missing ∙ here (one_key from other caller key h) ∙ l.found)
  where
    none-some : none ≡ some l.row → ⊥
    none-some e = cc

    one_key : (a b c d : ℕ) → (a == c && b == d) ≡ true → (a ≡ c) × (b ≡ d)
    one_key a b c d e = (ground arith, ground arith)

    here :
        (from ≡ caller) × (other ≡ key) → get_operation from other os ≡ get_operation caller key os
    here e = ap (λ c. get_operation c other os) e.0 ∙ ap (λ k. get_operation caller k os) e.1
