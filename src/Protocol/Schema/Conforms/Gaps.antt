-- ===== src/Protocol/Schema/Conforms/Gaps.antt =====
-- validate.ts: values that a schema means to refuse and that the validator takes.
use bidirectional_bridge_cla.Prelude.{
  ◌≡◌, ◌≢◌, refl, sym, ◌∙◌, inl, inr, Bool, true, none, some, List, [], ◌∷◌, Bool-cases, text_eq,
  ok, Option,
}
use bidirectional_bridge_cla.Protocol.Path.{Text}
use bidirectional_bridge_cla.Protocol.Schema.{
  Value, undefined, object, Fields, field, JsonType, object_type, Keywords, schema, Properties,
  no_more, property, Additional, nothing, ItemSchema, is_inherited,
}
use bidirectional_bridge_cla.Protocol.Schema.Walk.{assert_valid, own}
use bidirectional_bridge_cla.Protocol.Schema.Conforms.{
  TakesType, of_its_own, undefined_object, object_object, taken, InList, InFields, IsPresent,
  KeywordsHold, Holds, MemberHolds, MoreHolds, ItemHolds,
}
use bidirectional_bridge_cla.Protocol.Schema.Conforms.Accepted.{Accepts-iff}

-- No property of the schema has the name.
abbrev pub Unnamed : Text → Properties → Type 0
Unnamed n no_more = Unit
Unnamed n (property name s ps) = (name ≢ n) × Unnamed n ps

module _ (matches : (pattern_text value : Text) → Bool) (k : Keywords) (ps : Properties)
    (item : ItemSchema) (no_const : k.const ≡ none) (no_enum : k.enum ≡ none) where
  -- A schema that asks for an object, and for no constant, takes `undefined`, whatever properties
  -- it requires.
  pub assert_valid-undefined :
      (more : Additional)
      → k.type ≡ some (object_type ∷ [])
      → assert_valid matches undefined (schema k ps more item) ≡ ok undefined
  unfolding Holds
  assert_valid-undefined more typed = (Accepts-iff matches undefined (schema k ps more item)).0.1 (
      inr (
        λ types e. (object_type, in_types types (sym typed ∙ e), undefined_object),
        (λ c e. absurd (cc), λ cs e. absurd (cc)),
        tt,
        tt,
      ))
    where
      in_types :
          (types : List JsonType)
          → ◌≡◌ {A = Option (List JsonType)} (some (object_type ∷ [])) (some types)
          → InList object_type types
      in_types [] e = cc
      in_types (t ∷ ts) e = first_of t ts (cc)
        where
          first_of :
              (t : JsonType) (ts : List JsonType) → t ≡ object_type → InList object_type (t ∷ ts)
          first_of t ts h = rw h (InList.first ts)

  Unnamed-MemberHolds :
      (qs : Properties) (n : Text) (v : Value)
      → Unnamed n qs
      → is_inherited n ≡ true
      → MemberHolds matches taken qs (MoreHolds matches taken nothing) n v
  unfolding Holds
  Unnamed-MemberHolds no_more n v h i = inl i
  Unnamed-MemberHolds (property name s qs) n v (h, hs) i = inr (h, Unnamed-MemberHolds qs n v hs i)

  still-IsPresent :
      (r n : Text) (v : Value) (fs : Fields)
      → v ≢ undefined
      → IsPresent taken r fs
      → IsPresent taken r (field n v fs)
  unfolding own
  still-IsPresent r n v fs d h = elim (Bool-cases (text_eq n r)) [
    | inl e ↦ rw e (inl (v, refl, d))
    | inr e ↦ rw e h
  ]

  -- An object that a schema without constants and additional properties takes is still taken with
  -- a further property whose name every object inherits and the schema does not name, whatever its
  -- value is, unless that is `undefined`.
  pub assert_valid-inherited :
      (n : Text) (v : Value) (fs : Fields)
      → is_inherited n ≡ true
      → Unnamed n ps
      → v ≢ undefined
      → assert_valid matches (object fs) (schema k ps nothing item) ≡ ok (object fs)
      → assert_valid matches (object (field n v fs)) (schema k ps nothing item)
        ≡ ok (object (field n v fs))
  unfolding Holds
  assert_valid-inherited n v fs i u d h =
      (Accepts-iff matches (object (field n v fs)) (schema k ps nothing item)).0.1
        (grown ((Accepts-iff matches (object fs) (schema k ps nothing item)).0.0 h))
    where
      retyped : (t : JsonType) → TakesType (object fs) t → TakesType (object (field n v fs)) t
      retyped t (of_its_own _ _ (object_object _)) = of_its_own _ _ (object_object _)

      Members : Text → Value → Type 0
      Members = MemberHolds matches taken ps (MoreHolds matches taken nothing)

      member :
          (m : Text) (w : Value)
          → ((m : Text) (w : Value) → InFields m w fs → w ≢ undefined → Members m w)
          → InFields m w (field n v fs)
          → w ≢ undefined
          → Members m w
      member m w old (InFields.first _) e = Unnamed-MemberHolds ps n v u i
      member m w old (InFields.later _ _ _ g) e = old m w g e

      grown :
          KeywordsHold matches taken (ItemHolds matches taken item) Members k (object fs)
          → KeywordsHold matches taken
              (ItemHolds matches taken item)
              Members
              k
              (object (field n v fs))
      grown (inl (e, g)) = absurd (cc)
      grown (inr (t, c, b, inside)) = inr (
        λ types e. let (a, m, g) = t types e in (a, m, retyped a g),
        (λ c e. absurd (cc), λ cs e. absurd (cc)),
        tt,
        (λ r m. still-IsPresent r n v fs d (inside.0 r m), λ m w g e. member m w inside.1 g e),
      )
