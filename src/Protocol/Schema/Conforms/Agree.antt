-- ===== src/Protocol/Schema/Conforms/Agree.antt =====
-- validate.ts: `assertValid` and what a schema means.
use bidirectional_bridge_cla.Prelude.{◌≡◌, ◌↔◌, Bool, ok, err, invalid_argument}
use bidirectional_bridge_cla.Protocol.Path.{Text}
use bidirectional_bridge_cla.Protocol.Schema.{Value, JsonSchema}
use bidirectional_bridge_cla.Protocol.Schema.Walk.{assert_valid}
use bidirectional_bridge_cla.Protocol.Schema.Conforms.{meant, taken, Holds, Conforms}
use bidirectional_bridge_cla.Protocol.Schema.Conforms.Accepted.{Accepts-iff}
use bidirectional_bridge_cla.Protocol.Schema.Conforms.Plain.{
  IsPlain, IsPlainSchema, Holds-moves, meant-taken, taken-meant,
}

module _ (matches : (pattern_text value : Text) → Bool) where
  -- Whatever the test of regular expressions, on a value without `undefined` (except as the value
  -- of a property, which counts as absent) none of whose other properties has a name that every
  -- object inherits, and on a schema that nowhere requires such a name, `assertValid` gives the
  -- value back exactly if the value conforms to the schema, and throws INVALID_ARGUMENT exactly if
  -- it does not.
  pub assert_valid_iff :
      (v : Value) (s : JsonSchema)
      → IsPlain v
      → IsPlainSchema s
      → ((assert_valid matches v s ≡ ok v) ↔ Conforms matches s v)
        × ((assert_valid matches v s ≡ err invalid_argument) ↔ (¬ Conforms matches s v))
  assert_valid_iff v s p q =
      let (passes, throws) = Accepts-iff matches v s in
      (
        (λ h. down (passes.0 h), λ h. passes.1 (up h)),
        (λ h c. throws.0 h (up c), λ h. throws.1 (λ a. h (down a))),
      )
    where
      up : Conforms matches s v → Holds matches taken s v
      up = Holds-moves matches meant taken meant-taken s q v p

      down : Holds matches taken s v → Conforms matches s v
      down = Holds-moves matches taken meant taken-meant s q v p
