-- ===== src/Protocol/Schema/Conforms.antt =====
-- validate.ts: what a schema says of a value, stated apart from the walk that collects the issues.
-- A reading of schemas says which types a value has and which names need no property. There are two:
-- `Conforms` is what a schema means, and `Accepts` what the validator reads into it.
pub mod Keyed
pub mod Typed
pub mod Accepted
pub mod Plain
pub mod Agree
pub mod Gaps
use bidirectional_bridge_cla.Prelude.{
  ℕ, ◌≤◌, ◌≡◌, ◌≢◌, ◌⊎◌, Bool, true, false, Option, none, some, List, ◌∷◌, any, length,
}
use bidirectional_bridge_cla.Protocol.Path.{Text}
use bidirectional_bridge_cla.Protocol.Schema.{
  ℤ, lt_number, is_integer, Value, undefined, null, boolean, number, text, array, object, Items,
  cons, Fields, field, JsonType, object_type, array_type, string_type, number_type, integer_type,
  boolean_type, null_type, Keywords, JsonSchema, any_of, schema, Variants, none_left, variant,
  Properties, no_more, property, Additional, anything, nothing, additional, ItemSchema, any_item,
  items, is_inherited,
}
use bidirectional_bridge_cla.Protocol.Schema.Walk.{same_value, count, own}

-- The types that a value has: an integer is also a number, and `undefined` has none.
pub data HasType : Value → JsonType → Type 0 where
  null_null : HasType null null_type
  boolean_boolean : (b : Bool) → HasType (boolean b) boolean_type
  number_integer : (n : ℤ) → is_integer n ≡ true → HasType (number n) integer_type
  number_number : (n : ℤ) → HasType (number n) number_type
  text_string : (t : Text) → HasType (text t) string_type
  array_array : (xs : Items) → HasType (array xs) array_type
  object_object : (fs : Fields) → HasType (object fs) object_type

-- The types that the validator gives to a value: for `typeof`, `undefined` is like an object.
pub data TakesType : Value → JsonType → Type 0 where
  of_its_own : (v : Value) (t : JsonType) → HasType v t → TakesType v t
  undefined_object : TakesType undefined object_type

-- A name that is free asks for no property when it is required, and for no schema when it is used.
pub record Reading : Type 1 where
  pub Typed : Value → JsonType → Type 0
  pub Free : Text → Type 0

-- What a schema means: a value has the types of JSON, and only its own properties.
abbrev pub meant : Reading
meant = record { Typed = HasType; Free = λ name. ⊥ }

-- What the validator takes: a lookup also finds what every object inherits.
abbrev pub taken : Reading
taken = record { Typed = TakesType; Free = λ name. is_inherited name ≡ true }

pub data InList {A : Type 0} (a : A) : List A → Type 0 where
  first : (xs : List A) → InList a (a ∷ xs)
  later : (x : A) (xs : List A) → InList a xs → InList a (x ∷ xs)

pub data InItems (x : Value) : Items → Type 0 where
  first : (xs : Items) → InItems x (cons x xs)
  later : (y : Value) (xs : Items) → InItems x xs → InItems x (cons y xs)

pub data InFields (name : Text) (v : Value) : Fields → Type 0 where
  first : (fs : Fields) → InFields name v (field name v fs)
  later : (n : Text) (w : Value) (fs : Fields) → InFields name v fs → InFields name v (field n w fs)

abbrev pub TypeHolds : Reading → Keywords → Value → Type 0
TypeHolds m k v =
    (types : List JsonType) → k.type ≡ some types → (t : JsonType) × InList t types × m.Typed v t

abbrev pub ConstantsHold : Keywords → Value → Type 0
ConstantsHold k v =
    ((c : Value) → k.const ≡ some c → same_value v c ≡ true)
    × ((cs : List Value) → k.enum ≡ some cs → any (same_value v) cs ≡ true)

-- A property of that name that is not `undefined`, or a name that is free.
abbrev pub IsPresent : Reading → Text → Fields → Type 0
IsPresent m name fs =
    ((v : Value) × (own name fs ≡ some v) × (v ≢ undefined)) ⊎ ((own name fs ≡ none) × m.Free name)

abbrev pub InsideHolds :
    Reading → (Value → Type 0) → (Text → Value → Type 0) → Keywords → Value → Type 0
InsideHolds m Each Member k (array xs) = (x : Value) → InItems x xs → Each x
InsideHolds m Each Member k (object fs) =
    ((r : Text) → InList r k.required → IsPresent m r fs)
    × ((n : Text) (v : Value) → InFields n v fs → v ≢ undefined → Member n v)
InsideHolds m Each Member k _ = Unit

module _ (matches : (pattern_text value : Text) → Bool) where
  abbrev pub BoundsHold : Keywords → Value → Type 0
  BoundsHold k (text t) =
      ((n : ℕ) → k.min_length ≡ some n → n ≤ length t)
      × ((n : ℕ) → k.max_length ≡ some n → length t ≤ n)
      × ((p : Text) → k.pattern_text ≡ some p → matches p t ≡ true)
  BoundsHold k (number n) =
      ((m : ℤ) → k.minimum ≡ some m → lt_number n m ≡ false)
      × ((m : ℤ) → k.maximum ≡ some m → lt_number m n ≡ false)
  BoundsHold k (array xs) =
      ((n : ℕ) → k.min_items ≡ some n → n ≤ count xs)
      × ((n : ℕ) → k.max_items ≡ some n → count xs ≤ n)
  BoundsHold k _ = Unit

  abbrev pub KeywordsHold :
      Reading → (Value → Type 0) → (Text → Value → Type 0) → Keywords → Value → Type 0
  KeywordsHold m Each Member k v =
      ((v ≡ null) × (k.nullable ≡ true))
      ⊎ (TypeHolds m k v × ConstantsHold k v × BoundsHold k v × InsideHolds m Each Member k v)

  unfoldable mutual
    pub Holds : Reading → JsonSchema → Value → Type 0
    Holds m (any_of variants) v = SomeHolds m variants v
    Holds m (schema k properties more item) v =
        KeywordsHold m (ItemHolds m item) (MemberHolds m properties (MoreHolds m more)) k v

    pub SomeHolds : Reading → Variants → Value → Type 0
    SomeHolds m none_left v = ⊥
    SomeHolds m (variant s ss) v = Holds m s v ⊎ SomeHolds m ss v

    pub ItemHolds : Reading → ItemSchema → Value → Type 0
    ItemHolds m any_item v = Unit
    ItemHolds m (items s) v = Holds m s v

    pub MemberHolds : Reading → Properties → (Value → Type 0) → Text → Value → Type 0
    MemberHolds m no_more More n v = m.Free n ⊎ More v
    MemberHolds m (property name s ps) More n v =
        ((name ≡ n) × Holds m s v) ⊎ ((name ≢ n) × MemberHolds m ps More n v)

    pub MoreHolds : Reading → Additional → Value → Type 0
    MoreHolds m anything v = Unit
    MoreHolds m nothing v = ⊥
    MoreHolds m (additional s) v = Holds m s v

  abbrev pub Conforms : JsonSchema → Value → Type 0
  Conforms = Holds meant

  abbrev pub Accepts : JsonSchema → Value → Type 0
  Accepts = Holds taken
