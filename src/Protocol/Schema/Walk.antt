-- ===== src/Protocol/Schema/Walk.antt =====
-- validate.ts: `walk`, `validate` and `assertValid`. `matches` is the test of a regular expression.
use bidirectional_bridge_cla.Prelude.{
  ℕ, suc, Bool, true, false, not, ◌&&◌, ◌||◌, Option, none, some, List, [], ◌∷◌, ◌++◌, ltb, text_eq,
  any, is_empty, length, if◌then◌else◌, Result, ok, invalid_argument, throw_if, ◌>>◌,
}
use bidirectional_bridge_cla.Protocol.Path.{Text}
use bidirectional_bridge_cla.Protocol.Schema.{
  lt_number, same_number, is_integer, Value, undefined, null, boolean, number, text, array, object,
  Items, nil, cons, Fields, end, field, JsonType, object_type, array_type, string_type, number_type,
  integer_type, boolean_type, null_type, Keywords, JsonSchema, any_of, schema, Variants, none_left,
  variant, Properties, no_more, property, Additional, anything, nothing, additional, ItemSchema,
  any_item, items, Complaint, no_variant, wrong_type, must_equal, must_be_one_of, shorter, longer,
  no_match, below, above, too_few, too_many, is_required, not_allowed, Step, key, index,
  ValidationIssue, is_inherited,
}

unfoldable pub type_of : Value → JsonType
type_of undefined = object_type
type_of null = null_type
type_of (boolean b) = boolean_type
type_of (number n) = if is_integer n then integer_type else number_type
type_of (text t) = string_type
type_of (array xs) = array_type
type_of (object fs) = object_type

abbrev pub same_type : JsonType → JsonType → Bool
same_type object_type object_type = true
same_type array_type array_type = true
same_type string_type string_type = true
same_type number_type number_type = true
same_type integer_type integer_type = true
same_type boolean_type boolean_type = true
same_type null_type null_type = true
same_type _ _ = false

unfoldable pub type_matches : (actual expected : JsonType) → Bool
type_matches actual expected =
    same_type actual expected || (same_type expected number_type && same_type actual integer_type)

-- `===` with a constant of a schema: an object or an array is never the one in the schema.
unfoldable pub same_value : Value → Value → Bool
same_value undefined undefined = true
same_value null null = true
same_value (boolean true) (boolean b) = b
same_value (boolean false) (boolean b) = not b
same_value (number m) (number n) = same_number m n
same_value (text s) (text t) = text_eq s t
same_value _ _ = false

abbrev pub issue : List Step → Complaint → List ValidationIssue
issue path message = record { path = path; message = message } ∷ []

-- `if (keyword !== undefined && bad(keyword)) issues.push(…)`.
abbrev pub complain {ℓ} :
    {A : Type ℓ} → Option A → (A → Bool) → (A → Complaint) → List Step → List ValidationIssue
complain none bad message path = []
complain (some a) bad message path = if bad a then issue path (message a) else []

abbrev pub allows_type : Option (List JsonType) → Value → Bool
allows_type none v = true
allows_type (some types) v = any (λ e. type_matches (type_of v) e) types

unfoldable pub check_type : Value → Keywords → Bool
check_type v k = allows_type k.type v

abbrev pub expected_types : Keywords → List JsonType
expected_types k = elim k.type [ none ↦ [] | some types ↦ types ]

unfoldable pub walk_constants : Value → Keywords → List Step → List ValidationIssue
walk_constants v k path =
    complain k.const (λ c. not (same_value v c)) must_equal path
    ++ complain k.enum (λ vs. not (any (λ c. same_value v c) vs)) must_be_one_of path

unfoldable pub count : Items → ℕ
count nil = 0
count (cons x xs) = suc (count xs)

-- `!(req in obj) || obj[req] === undefined`, where `in` finds what is inherited too.
unfoldable pub own : Text → Fields → Option Value
own name end = none
own name (field n v fs) = if text_eq n name then some v else own name fs

abbrev pub is_absent : (inherited : Bool) → Option Value → Bool
is_absent inherited none = not inherited
is_absent inherited (some undefined) = true
is_absent inherited (some v) = false

unfoldable pub is_missing : Text → Fields → Bool
unfolding own
is_missing name fs = is_absent (is_inherited name) (own name fs)

unfoldable pub walk_required : List Text → Fields → List Step → List ValidationIssue
walk_required [] fs path = []
walk_required (r ∷ rs) fs path =
    (if is_missing r fs then issue (key r ∷ path) is_required else []) ++ walk_required rs fs path

-- The items of an array, each by `visit`.
unfoldable pub walk_items :
    (Value → List Step → List ValidationIssue) → Items → ℕ → List Step → List ValidationIssue
walk_items visit nil i path = []
walk_items visit (cons x xs) i path = visit x (index i ∷ path) ++ walk_items visit xs (suc i) path

-- The properties of an object, each by `visit`; undefined ones are passed over.
unfoldable pub walk_fields :
    (Text → Value → List Step → List ValidationIssue) → Fields → List Step → List ValidationIssue
walk_fields visit end path = []
walk_fields visit (field n undefined fs) path = walk_fields visit fs path
walk_fields visit (field n v fs) path = visit n v (key n ∷ path) ++ walk_fields visit fs path

-- The keywords behind the test of the type: `each` visits an item, `member` a property.
unfoldable pub walk_inside :
    (each : Value → List Step → List ValidationIssue)
    (member : Text → Value → List Step → List ValidationIssue)
    → Value
    → Keywords
    → List Step
    → List ValidationIssue
walk_inside each member (array xs) k path = walk_items each xs 0 path
walk_inside each member (object fs) k path =
    walk_required k.required fs path ++ walk_fields member fs path
walk_inside each member _ k path = []

abbrev pub is_null : Value → Bool
is_null null = true
is_null _ = false

module _ (matches : (pattern_text value : Text) → Bool) where
  -- The keywords for texts and numbers.
  unfoldable pub walk_bounds : Value → Keywords → List Step → List ValidationIssue
  walk_bounds (text t) k path =
      complain k.min_length (λ n. ltb (length t) n) shorter path
      ++ (complain k.max_length (λ n. ltb n (length t)) longer path
          ++ complain k.pattern_text (λ p. not (matches p t)) no_match path)
  walk_bounds (number n) k path =
      complain k.minimum (λ m. lt_number n m) below path
      ++ complain k.maximum (λ m. lt_number m n) above path
  walk_bounds (array xs) k path =
      complain k.min_items (λ n. ltb (count xs) n) too_few path
      ++ complain k.max_items (λ n. ltb n (count xs)) too_many path
  walk_bounds _ k path = []

  unfoldable pub walk_keywords :
      (each : Value → List Step → List ValidationIssue)
      (member : Text → Value → List Step → List ValidationIssue)
      → Value
      → Keywords
      → List Step
      → List ValidationIssue
  walk_keywords each member v k path =
      if is_null v && k.nullable
      then []
      else if check_type v k
      then walk_constants v k path ++ (walk_bounds v k path ++ walk_inside each member v k path)
      else issue path (wrong_type (expected_types k) (type_of v))

  unfoldable mutual
    pub walk : JsonSchema → Value → List Step → List ValidationIssue
    walk (any_of variants) v path = walk_variants variants v path 0
    walk (schema k properties more item) v path =
        walk_keywords (walk_item item) (walk_member properties (walk_additional more)) v k path

    -- The first variant without issues ends the search.
    pub walk_variants : Variants → Value → List Step → (tried : ℕ) → List ValidationIssue
    walk_variants none_left v path tried = issue path (no_variant tried)
    walk_variants (variant s ss) v path tried =
        let rest = walk_variants ss v path (suc tried) in
        if is_empty (walk s v path) then [] else rest

    pub walk_item : ItemSchema → Value → List Step → List ValidationIssue
    walk_item any_item v path = []
    walk_item (items s) v path = walk s v path

    -- `props[k]` is the schema under that name, or what the name is inherited as: an object with
    -- none of the keywords, which asks nothing of the value.
    pub walk_member :
        Properties
        → (more : Value → List Step → List ValidationIssue) → Text
        → Value
        → List Step
        → List ValidationIssue
    walk_member no_more more n v path =
        let rest = more v path in if is_inherited n then [] else rest
    walk_member (property name s ps) more n v path =
        let here = walk s v path in
        let rest = walk_member ps more n v path in if text_eq name n then here else rest

    pub walk_additional : Additional → Value → List Step → List ValidationIssue
    walk_additional anything v path = []
    walk_additional nothing v path = issue path not_allowed
    walk_additional (additional s) v path = walk s v path

  pub record ValidationResult : Type 0 where
    pub valid : Bool
    pub found : List ValidationIssue

  unfoldable pub validate : Value → JsonSchema → ValidationResult
  validate v s = let issues = walk s v [] in record { valid = is_empty issues; found = issues }

  unfoldable pub assert_valid : Value → JsonSchema → Result Value
  unfolding validate
  assert_valid v s = do throw_if (not (validate v s).valid) invalid_argument; ok v
