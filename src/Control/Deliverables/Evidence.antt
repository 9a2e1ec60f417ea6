-- ===== src/Control/Deliverables/Evidence.antt =====
-- deliverable-service.ts, `mergeEvidence`: one result for each kind and command.
use bidirectional_bridge_cla.Prelude.{
  ◌≡◌, refl, sym, ap, ◌∙◌, inl, inr, Bool, true, false, ◌&&◌, Option, none, some, List, [], ◌∷◌,
  ◌==◌, or_else, if◌then◌else◌, Bool-cases, ==_iff, ==_refl, text_eq, text_eq_refl, text_eq-eq,
  and-true,
}
use bidirectional_bridge_cla.Protocol.Records.{VerificationResult}
use bidirectional_bridge_cla.Control.Deliverables.{
  kind_rank, same_check, set_check, set_checks, merge_evidence,
}

-- The result that a list holds for the kind and command of `q`.
unfoldable pub find_check : VerificationResult → List VerificationResult → Option VerificationResult
find_check q [] = none
find_check q (r ∷ rs) = if same_check r q then some r else find_check q rs

-- The last result of a list for the kind and command of `q`.
unfoldable pub last_check : VerificationResult → List VerificationResult → Option VerificationResult
last_check q [] = none
last_check q (r ∷ rs) = or_else (last_check q rs) (if same_check r q then some r else none)

same_check_refl : (a : VerificationResult) → same_check a a ≡ true
same_check_refl a = rw (==_refl (kind_rank a.kind), text_eq_refl a.command)

same_check_agree :
    (a b x : VerificationResult) → same_check a b ≡ true → same_check a x ≡ same_check b x
same_check_agree a b x h =
    let (k, c) = and-true (kind_rank a.kind == kind_rank b.kind) (text_eq a.command b.command) h in
    ap (λ n. n == kind_rank x.kind && text_eq a.command x.command)
      ((==_iff (kind_rank a.kind) (kind_rank b.kind)).0 k)
    ∙ ap (λ t. kind_rank b.kind == kind_rank x.kind && text_eq t x.command)
        (text_eq-eq a.command b.command c)

find_check-set_check :
    (q r : VerificationResult) (rs : List VerificationResult)
    → find_check q (set_check r rs) ≡ (if same_check r q then some r else find_check q rs)
unfolding find_check set_check
find_check-set_check q r [] = refl
find_check-set_check q r (p ∷ rs) = elim (Bool-cases (same_check p r)) [
  | inl b ↦
      rw (b, same_check_agree p r q b) (twice (some r) (some p) (same_check r q) (find_check q rs))
  | inr b ↦
      rw (b, find_check-set_check q r rs)
        (elim (Bool-cases (same_check r q)) [ inl c ↦ rw (c, apart c b) | inr c ↦ rw c ])
]
  where
    twice :
        (x y : Option VerificationResult) (b : Bool) (z : Option VerificationResult)
        → (if b then x else z) ≡ (if b then x else (if b then y else z))
    twice x y true z = refl
    twice x y false z = refl

    apart : same_check r q ≡ true → same_check p r ≡ false → same_check p q ≡ false
    apart c b = elim (Bool-cases (same_check p q)) [
      | inl d ↦
          clash (
            sym (same_check_agree p q r d ∙ sym (same_check_agree r q r c) ∙ same_check_refl r) ∙ b)
      | inr d ↦ d
    ]
      where
        clash : true ≡ false → same_check p q ≡ false
        clash e = cc

or_else_assoc : {A : Type 0} (a b c : Option A) → or_else (or_else a b) c ≡ or_else a (or_else b c)
or_else_assoc none b c = refl
or_else_assoc (some x) b c = refl

or_else-if :
    {A : Type 0} (b : Bool) (x : A) (o : Option A)
    → or_else (if b then some x else none) o ≡ (if b then some x else o)
or_else-if true x o = refl
or_else-if false x o = refl

find_check-set_checks :
    (q : VerificationResult) (rs by_key : List VerificationResult)
    → find_check q (set_checks rs by_key) ≡ or_else (last_check q rs) (find_check q by_key)
unfolding set_checks last_check
find_check-set_checks q [] by_key = refl
find_check-set_checks q (r ∷ rs) by_key =
    find_check-set_checks q rs (set_check r by_key)
    ∙ ap (or_else (last_check q rs)) (
        find_check-set_check q r by_key ∙ sym (or_else-if (same_check r q) r (find_check q by_key)))
    ∙ sym (
        or_else_assoc (last_check q rs) (if same_check r q then some r else none)
          (find_check q by_key))

-- For each kind and command, the merged evidence holds the last submitted result, and the last
-- recorded one where none is submitted.
pub find_check-merge_evidence :
    (q : VerificationResult) (recorded submitted : List VerificationResult)
    → find_check q (merge_evidence recorded submitted)
      ≡ or_else (last_check q submitted) (last_check q recorded)
unfolding merge_evidence find_check
find_check-merge_evidence q recorded submitted =
    find_check-set_checks q submitted (set_checks recorded [])
    ∙ ap (or_else (last_check q submitted))
        (find_check-set_checks q recorded [] ∙ or_else-none (last_check q recorded))
  where
    or_else-none : (o : Option VerificationResult) → or_else o none ≡ o
    or_else-none none = refl
    or_else-none (some x) = refl
