-- ===== src/Protocol/Schema.antt =====
-- shared/protocol/src/validate.ts: the validator of JSON values. A schema has the keywords of
-- `JsonSchema`, so the guard against other keywords has nothing to refuse. A number is finite, and
-- stands here as a multiple of 2^-1074, as every finite double is one. An issue has its path as
-- the list of its steps, the last one first.
pub mod Walk
pub mod Conforms
mod Examples
use bidirectional_bridge_cla.Prelude.{
  ℕ, suc, ◌%◌, ◌^◌, ◌+◌, Bool, true, false, not, ◌&&◌, ◌||◌, Option, none, some, List, [], ◌∷◌, ltb,
  ◌==◌, text_eq, if◌then◌else◌,
}
use bidirectional_bridge_cla.Protocol.Path.{Text}
use bidirectional_bridge_cla.Protocol.Scope.{codes}

-- `negsuc n` is -(n + 1).
pub data ℤ : Type 0 where
  pos : ℕ → ℤ
  negsuc : ℕ → ℤ

unfoldable pub lt_number : ℤ → ℤ → Bool
lt_number (pos a) (pos b) = ltb a b
lt_number (pos a) (negsuc b) = false
lt_number (negsuc a) (pos b) = true
lt_number (negsuc a) (negsuc b) = ltb b a

abbrev pub same_number : ℤ → ℤ → Bool
same_number (pos a) (pos b) = a == b
same_number (negsuc a) (negsuc b) = a == b
same_number _ _ = false

-- `Number.isInteger`, in units of 2^-1074.
unfoldable pub is_integer : ℤ → Bool
is_integer (pos n) = n % 2 ^ 1074 == 0
is_integer (negsuc n) = suc n % 2 ^ 1074 == 0

-- A value of the program. An object lists its own properties; one that is there may be undefined.
mutual
  pub data Value : Type 0 where
    undefined null : Value
    boolean : Bool → Value
    number : ℤ → Value
    text : Text → Value
    array : Items → Value
    object : Fields → Value

  pub data Items : Type 0 where
    nil : Items
    cons : Value → Items → Items

  pub data Fields : Type 0 where
    end : Fields
    field : (name : Text) (value : Value) (rest : Fields) → Fields

pub data JsonType : Type 0 where
  object_type array_type string_type number_type integer_type boolean_type null_type : JsonType

-- The keywords that hold no schema.
pub record Keywords : Type 0 where
  pub type : Option (List JsonType)
  pub const : Option Value
  pub enum : Option (List Value)
  pub required : List Text
  pub min_items : Option ℕ
  pub max_items : Option ℕ
  pub minimum : Option ℤ
  pub maximum : Option ℤ
  pub min_length : Option ℕ
  pub max_length : Option ℕ
  pub pattern_text : Option Text
  pub nullable : Bool

mutual
  pub data JsonSchema : Type 0 where
    any_of : Variants → JsonSchema
    schema : Keywords → Properties → Additional → ItemSchema → JsonSchema

  pub data Variants : Type 0 where
    none_left : Variants
    variant : JsonSchema → Variants → Variants

  pub data Properties : Type 0 where
    no_more : Properties
    property : (name : Text) → JsonSchema → Properties → Properties

  -- `additionalProperties`: absent or true, false, or a schema.
  pub data Additional : Type 0 where
    anything nothing : Additional
    additional : JsonSchema → Additional

  pub data ItemSchema : Type 0 where
    any_item : ItemSchema
    items : JsonSchema → ItemSchema

-- One constructor for each message.
pub data Complaint : Type 0 where
  no_variant : (tried : ℕ) → Complaint
  wrong_type : List JsonType → (actual : JsonType) → Complaint
  must_equal : Value → Complaint
  must_be_one_of : List Value → Complaint
  shorter longer : ℕ → Complaint
  no_match : Text → Complaint
  below above : ℤ → Complaint
  too_few too_many : ℕ → Complaint
  is_required not_allowed : Complaint

pub data Step : Type 0 where
  key : Text → Step
  index : ℕ → Step

pub record ValidationIssue : Type 0 where
  pub path : List Step
  pub message : Complaint

-- The names that every object inherits from `Object.prototype`.
abbrev pub inherited_names : List Text
inherited_names =
    codes "constructor"
    ∷ codes "__defineGetter__"
    ∷ codes "__defineSetter__"
    ∷ codes "hasOwnProperty"
    ∷ codes "__lookupGetter__"
    ∷ codes "__lookupSetter__"
    ∷ codes "isPrototypeOf"
    ∷ codes "propertyIsEnumerable"
    ∷ codes "toString"
    ∷ codes "valueOf"
    ∷ codes "__proto__"
    ∷ codes "toLocaleString"
    ∷ []

unfoldable pub is_one_of : Text → List Text → Bool
is_one_of name [] = false
is_one_of name (n ∷ ns) = text_eq n name || is_one_of name ns

abbrev pub is_inherited : Text → Bool
is_inherited name = is_one_of name inherited_names
