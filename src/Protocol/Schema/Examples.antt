-- ===== src/Protocol/Schema/Examples.antt =====
-- validate.ts: a small schema, values that it takes and refuses, and the laws at them.
use bidirectional_bridge_cla.Prelude.{
  ◌≡◌, ◌↔◌, refl, inl, inr, Bool, true, false, none, some, [], ◌∷◌, ok, err, invalid_argument,
}
use bidirectional_bridge_cla.Protocol.Path.{Text}
use bidirectional_bridge_cla.Protocol.Scope.{codes}
use bidirectional_bridge_cla.Protocol.Schema.{
  undefined, text, object, Fields, end, field, object_type, string_type, Keywords, JsonSchema,
  schema, property, no_more, nothing, any_item, is_one_of,
}
use bidirectional_bridge_cla.Protocol.Schema.Walk.{
  assert_valid, walk, walk_keywords, walk_constants, walk_bounds, walk_inside, walk_required,
  walk_fields, is_missing, own, check_type, type_of, type_matches, validate,
}
use bidirectional_bridge_cla.Protocol.Schema.Conforms.{Holds, Conforms}
use bidirectional_bridge_cla.Protocol.Schema.Conforms.Plain.{IsPlain, IsPlainSchema}
use bidirectional_bridge_cla.Protocol.Schema.Conforms.Agree.{assert_valid_iff}
use bidirectional_bridge_cla.Protocol.Schema.Conforms.Gaps.{
  assert_valid-undefined, assert_valid-inherited,
}

-- A test of patterns that refuses nothing.
abbrev lenient : Text → Text → Bool
lenient p t = true

abbrev no_keywords : Keywords
no_keywords = record {
  type = none;
  const = none;
  enum = none;
  required = [];
  min_items = none;
  max_items = none;
  minimum = none;
  maximum = none;
  min_length = none;
  max_length = none;
  pattern_text = none;
  nullable = false;
}

abbrev name_keywords : Keywords
name_keywords = record no_keywords { type = some (string_type ∷ []); min_length = some 1 }

abbrev agent_keywords : Keywords
agent_keywords = record no_keywords {
  type = some (object_type ∷ []);
  required = codes "agent" ∷ [];
}

-- An object with a property `agent`, a text that is not empty, and no other.
abbrev agent_schema : JsonSchema
agent_schema =
    schema agent_keywords
      (property (codes "agent") (schema name_keywords no_more nothing any_item) no_more) nothing
      any_item

abbrev codex : Fields
codex = field (codes "agent") (text (codes "codex")) end

abbrev nameless : Fields
nameless = field (codes "agent") (text []) end

codex_valid : assert_valid lenient (object codex) agent_schema ≡ ok (object codex)
unfolding assert_valid validate walk walk_keywords walk_constants walk_bounds walk_inside
    walk_required walk_fields is_missing own check_type type_of type_matches is_one_of
codex_valid = refl

nameless_invalid : assert_valid lenient (object nameless) agent_schema ≡ err invalid_argument
unfolding assert_valid validate walk walk_keywords walk_constants walk_bounds walk_inside
    walk_required walk_fields is_missing own check_type type_of type_matches is_one_of
nameless_invalid = refl

-- What the schema means to refuse.
undefined_nonconforming : ¬ Conforms lenient agent_schema undefined
unfolding Holds
undefined_nonconforming (inl (e, n)) = cc
undefined_nonconforming (inr (typed, c, b, inside)) = let (t, m, h) = typed _ refl in elim h [ ]

assert_valid_iff_example :
    ((assert_valid lenient (object codex) agent_schema ≡ ok (object codex))
      ↔ Conforms lenient agent_schema (object codex))
    × ((assert_valid lenient (object codex) agent_schema ≡ err invalid_argument)
        ↔ (¬ Conforms lenient agent_schema (object codex)))
unfolding IsPlain IsPlainSchema is_one_of
assert_valid_iff_example =
    assert_valid_iff lenient (object codex) agent_schema (inr (refl, tt), tt)
      ((refl, tt), ((tt, tt, tt, tt), tt), tt, tt)

assert_valid-undefined_example : assert_valid lenient undefined agent_schema ≡ ok undefined
assert_valid-undefined_example =
    assert_valid-undefined lenient agent_keywords
      (property (codes "agent") (schema name_keywords no_more nothing any_item) no_more) any_item
      refl refl nothing refl

assert_valid-inherited_example :
    assert_valid lenient (object (field (codes "toString") (text []) codex)) agent_schema
    ≡ ok (object (field (codes "toString") (text []) codex))
unfolding is_one_of
assert_valid-inherited_example =
    assert_valid-inherited lenient agent_keywords
      (property (codes "agent") (schema name_keywords no_more nothing any_item) no_more) any_item
      refl refl (codes "toString") (text []) codex refl (λ e. cc, tt) (λ e. cc) codex_valid
