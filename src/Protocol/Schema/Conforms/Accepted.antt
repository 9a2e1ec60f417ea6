-- ===== src/Protocol/Schema/Conforms/Accepted.antt =====
-- validate.ts: the walk has no issue exactly if the validator's reading of the schema holds.
use bidirectional_bridge_cla.Prelude.{
  ℕ, suc, ◌≡◌, ◌≢◌, ◌⊎◌, ◌↔◌, refl, ap, and-true, inl, inr, Bool, true, false, ◌&&◌, not, List, [],
  ◌∷◌, Bool-cases, if◌then◌else◌, is_empty, text_eq, text_eq-eq, text_eq_refl, ok, err,
  invalid_argument, throw_if, ◌>>◌,
}
use bidirectional_bridge_cla.Protocol.Path.{Text}
use bidirectional_bridge_cla.Protocol.Schema.{
  Value, undefined, null, boolean, number, text, array, object, Keywords, JsonSchema, any_of,
  schema, Variants, none_left, variant, Properties, no_more, property, Additional, anything,
  nothing, additional, ItemSchema, any_item, items, Step, ValidationIssue, is_inherited,
}
use bidirectional_bridge_cla.Protocol.Schema.Walk.{
  check_type, is_null, walk_keywords, walk_inside, walk, walk_variants, walk_item, walk_member,
  walk_additional, validate, assert_valid,
}
use bidirectional_bridge_cla.Protocol.Schema.Conforms.{
  ConstantsHold, BoundsHold, KeywordsHold, InsideHolds, taken, Holds, Accepts, SomeHolds, ItemHolds,
  MemberHolds, MoreHolds,
}
use bidirectional_bridge_cla.Protocol.Schema.Conforms.Keyed.{
  both-empty, three-empty, walk_constants_iff, walk_bounds_iff, walk_required_iff, walk_items_iff,
  walk_fields_iff,
}
use bidirectional_bridge_cla.Protocol.Schema.Conforms.Typed.{check_type_iff}

is_null-eq : (v : Value) → is_null v ≡ true → v ≡ null
is_null-eq null e = refl
is_null-eq undefined e = cc
is_null-eq (boolean b) e = cc
is_null-eq (number n) e = cc
is_null-eq (text t) e = cc
is_null-eq (array xs) e = cc
is_null-eq (object fs) e = cc

differ : {b : Bool} → b ≡ true → b ≡ false → ⊥
differ e g = cc

conj-false : (a b : Bool) → (a && b) ≡ false → b ≡ true → a ≡ false
conj-false false b h e = refl
conj-false true true h e = cc
conj-false true false h e = cc

null-nullable :
    (v : Value) (k : Keywords)
    → v ≡ null
    → k.nullable ≡ true
    → (is_null v && k.nullable) ≡ false
    → ⊥
null-nullable v k e n h = differ (ap is_null e) (conj-false (is_null v) k.nullable h n)

-- The first of two searches that finds nothing wrong ends them.
either_iff :
    {P Q : Type 0} {xs ys : List ValidationIssue}
    → (xs ≡ []) ↔ P
    → (ys ≡ []) ↔ Q
    → ((if is_empty xs then [] else ys) ≡ []) ↔ (P ⊎ Q)
either_iff {xs = []} p q = (λ h. inl (p.0 refl), λ h. refl)
either_iff {P} {Q} {xs = x ∷ xs} {ys} p q = (λ h. inr (q.0 h), back)
  where
    back : P ⊎ Q → ys ≡ []
    back (inl a) = absurd (none_of (p.1 a))
      where
        none_of : x ∷ xs ≡ [] → ⊥
        none_of e = cc
    back (inr b) = q.1 b

free_iff :
    {P : Type 0} {xs : List ValidationIssue} (b : Bool)
    → (xs ≡ []) ↔ P
    → ((if b then [] else xs) ≡ []) ↔ ((b ≡ true) ⊎ P)
free_iff true p = (λ h. inl refl, λ h. refl)
free_iff {P} {xs} false p = (λ h. inr (p.0 h), back)
  where
    back : (false ≡ true) ⊎ P → xs ≡ []
    back (inl e) = cc
    back (inr a) = p.1 a

named_iff :
    {P Q : Type 0} {xs ys : List ValidationIssue} (name n : Text)
    → (xs ≡ []) ↔ P
    → (ys ≡ []) ↔ Q
    → ((if text_eq name n then xs else ys) ≡ []) ↔ (((name ≡ n) × P) ⊎ ((name ≢ n) × Q))
named_iff {P} {Q} {xs} {ys} name n p q = elim (Bool-cases (text_eq name n)) [
  | inl e ↦ rw e (λ h. inl (text_eq-eq name n e, p.0 h), here e)
  | inr e ↦ rw e (λ h. inr (λ d. distinct d e, q.0 h), there e)
]
  where
    distinct : name ≡ n → text_eq name n ≡ false → ⊥
    distinct d e = differ (text_eq_refl n) (rw d at e)

    here : text_eq name n ≡ true → ((name ≡ n) × P) ⊎ ((name ≢ n) × Q) → xs ≡ []
    here e (inl h) = p.1 h.1
    here e (inr h) = absurd (h.0 (text_eq-eq name n e))

    there : text_eq name n ≡ false → ((name ≡ n) × P) ⊎ ((name ≢ n) × Q) → ys ≡ []
    there e (inl h) = absurd (distinct h.0 e)
    there e (inr h) = q.1 h.1

module _ (matches : (pattern_text value : Text) → Bool) where
  -- A visit that has no issue exactly if `P` holds.
  abbrev Agrees : (Value → List Step → List ValidationIssue) → (Value → Type 0) → Type 0
  Agrees visit P = (v : Value) (path : List Step) → (visit v path ≡ []) ↔ P v

  module _ (each : Value → List Step → List ValidationIssue) (Each : Value → Type 0)
      (member : Text → Value → List Step → List ValidationIssue) (Member : Text → Value → Type 0)
      (each_agrees : Agrees each Each)
      (member_agrees : (n : Text) (v : Value) (path : List Step)
        → (member n v path ≡ []) ↔ Member n v) where
    inside_iff :
        (v : Value) (k : Keywords) (path : List Step)
        → (walk_inside each member v k path ≡ []) ↔ InsideHolds taken Each Member k v
    unfolding walk_inside
    inside_iff (array xs) k path = walk_items_iff Each each each_agrees xs 0 path
    inside_iff (object fs) k path =
        both-empty (walk_required_iff k.required fs path)
          (walk_fields_iff Member member member_agrees fs path)
    inside_iff undefined k path = (λ h. tt, λ h. refl)
    inside_iff null k path = (λ h. tt, λ h. refl)
    inside_iff (boolean b) k path = (λ h. tt, λ h. refl)
    inside_iff (number n) k path = (λ h. tt, λ h. refl)
    inside_iff (text t) k path = (λ h. tt, λ h. refl)

    behind :
        (v : Value) (k : Keywords)
        → (is_null v && k.nullable) ≡ false
        → KeywordsHold matches taken Each Member k v
        → ConstantsHold k v × BoundsHold matches k v × InsideHolds taken Each Member k v
    behind v k bound (inl (e, n)) = absurd (null-nullable v k e n bound)
    behind v k bound (inr (t, a, b, c)) = (a, b, c)

    mistyped :
        (v : Value) (k : Keywords)
        → (is_null v && k.nullable) ≡ false
        → check_type v k ≡ false
        → KeywordsHold matches taken Each Member k v
        → ⊥
    mistyped v k bound wrong (inl (e, n)) = null-nullable v k e n bound
    mistyped v k bound wrong (inr (t, a, b, c)) = differ ((check_type_iff v k).1 t) wrong

    keywords_iff :
        (v : Value) (k : Keywords) (path : List Step)
        → (walk_keywords matches each member v k path ≡ [])
          ↔ KeywordsHold matches taken Each Member k v
    unfolding walk_keywords
    keywords_iff v k path = elim (Bool-cases (is_null v && k.nullable)) [
      | inl free ↦
          rw free (λ h. inl (is_null-eq v (and-true _ _ free).0, (and-true _ _ free).1), λ h. refl)
      | inr bound ↦ elim (Bool-cases (check_type v k)) [
        | inl fits ↦
            let inner =
              three-empty (walk_constants_iff v k path) (walk_bounds_iff matches v k path)
                (inside_iff v k path) in
            rw (bound, fits)
              (
                λ h. let (a, b, c) = inner.0 h in inr ((check_type_iff v k).0 fits, a, b, c),
                λ h. inner.1 (behind v k bound h),
              )
        | inr wrong ↦ rw (bound, wrong) (λ h. absurd (cc), λ h. absurd (mistyped v k bound wrong h))
      ]
    ]

  mutual
    unfolding walk Holds

    walk_iff : (s : JsonSchema) → Agrees (walk matches s) (Accepts matches s)
    walk_iff (any_of variants) v path = variants_iff variants v path 0
    walk_iff (schema k properties more item) v path =
        keywords_iff (walk_item matches item) (ItemHolds matches taken item)
          (walk_member matches properties (walk_additional matches more))
          (MemberHolds matches taken properties (MoreHolds matches taken more)) (item_iff item)
          (member_iff properties more (additional_iff more)) v k path

    variants_iff :
        (ss : Variants) (v : Value) (path : List Step) (tried : ℕ)
        → (walk_variants matches ss v path tried ≡ []) ↔ SomeHolds matches taken ss v
    variants_iff none_left v path tried = (λ h. cc, λ h. absurd h)
    variants_iff (variant s ss) v path tried =
        either_iff (walk_iff s v path) (variants_iff ss v path (suc tried))

    item_iff : (i : ItemSchema) → Agrees (walk_item matches i) (ItemHolds matches taken i)
    item_iff any_item v path = (λ h. tt, λ h. refl)
    item_iff (items s) v path = walk_iff s v path

    member_iff :
        (ps : Properties) (more : Additional)
        → Agrees (walk_additional matches more) (MoreHolds matches taken more)
        → (n : Text) (v : Value) (path : List Step)
        → (walk_member matches ps (walk_additional matches more) n v path ≡ [])
          ↔ MemberHolds matches taken ps (MoreHolds matches taken more) n v
    member_iff no_more more agree n v path = free_iff (is_inherited n) (agree v path)
    member_iff (property name s ps) more agree n v path =
        named_iff name n (walk_iff s v path) (member_iff ps more agree n v path)

    additional_iff :
        (a : Additional) → Agrees (walk_additional matches a) (MoreHolds matches taken a)
    additional_iff anything v path = (λ h. tt, λ h. refl)
    additional_iff nothing v path = (λ h. cc, λ h. absurd h)
    additional_iff (additional s) v path = walk_iff s v path

  -- The validator gives a value back if `Accepts` holds, and throws if not.
  pub Accepts-iff :
      (v : Value) (s : JsonSchema)
      → ((assert_valid matches v s ≡ ok v) ↔ Accepts matches s v)
        × ((assert_valid matches v s ≡ err invalid_argument) ↔ (¬ Accepts matches s v))
  unfolding assert_valid validate
  Accepts-iff v s = by_issues (walk matches s v []) (walk_iff s v [])
    where
      by_issues :
          (issues : List ValidationIssue)
          → (issues ≡ []) ↔ Accepts matches s v
          → (((throw_if (not (is_empty issues)) invalid_argument >> ok v) ≡ ok v)
              ↔ Accepts matches s v)
            × (((throw_if (not (is_empty issues)) invalid_argument >> ok v) ≡ err invalid_argument)
                ↔ (¬ Accepts matches s v))
      by_issues [] p = ((λ h. p.0 refl, λ h. refl), (λ h. cc, λ h. absurd (h (p.0 refl))))
      by_issues (i ∷ is) p = (
        (λ h. cc, λ h. absurd (some_left i is (p.1 h))),
        (λ h c. some_left i is (p.1 c), λ h. refl),
      )
        where
          some_left : (i : ValidationIssue) (is : List ValidationIssue) → i ∷ is ≡ [] → ⊥
          some_left i is e = cc
