-- ===== src/Protocol/Schema/Conforms/Typed.antt =====
-- validate.ts: the test of the type keyword.
use mathlib.Core.Path.{subst}
use bidirectional_bridge_cla.Prelude.{
  ◌≡◌, ◌↔◌, refl, sym, inl, inr, Bool, true, false, Option, none, some, List, [], ◌∷◌, any, arith,
  Bool-cases, if◌then◌else◌,
}
use bidirectional_bridge_cla.Protocol.Schema.{
  ℤ, is_integer, Value, undefined, null, boolean, number, text, array, object, JsonType,
  object_type, array_type, string_type, number_type, integer_type, boolean_type, null_type,
  Keywords,
}
use bidirectional_bridge_cla.Protocol.Schema.Walk.{
  type_of, type_matches, check_type, allows_type, same_type,
}
use bidirectional_bridge_cla.Protocol.Schema.Conforms.{
  HasType, TakesType, of_its_own, undefined_object, taken, null_null, boolean_boolean,
  number_integer, number_number, text_string, array_array, object_object, InList, TypeHolds,
}

-- The types that are matched by the type that `typeOf` names, number by integer too.
same_type-eq : (t u : JsonType) → same_type t u ≡ true → t ≡ u
same_type-eq object_type object_type e = refl
same_type-eq array_type array_type e = refl
same_type-eq string_type string_type e = refl
same_type-eq number_type number_type e = refl
same_type-eq integer_type integer_type e = refl
same_type-eq boolean_type boolean_type e = refl
same_type-eq null_type null_type e = refl
same_type-eq _ _ e = cc

type_of-TakesType : (v : Value) → TakesType v (type_of v)
unfolding type_of
type_of-TakesType undefined = undefined_object
type_of-TakesType null = of_its_own _ _ null_null
type_of-TakesType (boolean b) = of_its_own _ _ (boolean_boolean b)
type_of-TakesType (number n) = elim (Bool-cases (is_integer n)) [
  | inl e ↦ rw e (of_its_own _ _ (number_integer n e))
  | inr e ↦ rw e (of_its_own _ _ (number_number n))
]
type_of-TakesType (text t) = of_its_own _ _ (text_string t)
type_of-TakesType (array xs) = of_its_own _ _ (array_array xs)
type_of-TakesType (object fs) = of_its_own _ _ (object_object fs)

type_of-integer : (v : Value) → type_of v ≡ integer_type → TakesType v number_type
unfolding type_of
type_of-integer (number n) e = of_its_own _ _ (number_number n)
type_of-integer undefined e = cc
type_of-integer null e = cc
type_of-integer (boolean b) e = cc
type_of-integer (text t) e = cc
type_of-integer (array xs) e = cc
type_of-integer (object fs) e = cc

type_matches-TakesType :
    (v : Value) (t : JsonType) → type_matches (type_of v) t ≡ true → TakesType v t
unfolding type_matches
type_matches-TakesType v t e = elim (Bool-cases (same_type (type_of v) t)) [
  | inl same ↦ subst (TakesType v) (same_type-eq (type_of v) t same) (type_of-TakesType v)
  | inr other ↦
      subst (TakesType v) (sym (same_type-eq t number_type (ground arith)))
        (type_of-integer v (same_type-eq (type_of v) integer_type (ground arith)))
]

number-matches :
    (n : ℤ) (b : Bool) → type_matches (if b then integer_type else number_type) number_type ≡ true
unfolding type_matches
number-matches n true = refl
number-matches n false = refl

HasType-type_matches : (v : Value) (t : JsonType) → HasType v t → type_matches (type_of v) t ≡ true
unfolding type_matches type_of
HasType-type_matches v t null_null = refl
HasType-type_matches v t (boolean_boolean b) = refl
HasType-type_matches v t (number_integer n e) = rw e refl
HasType-type_matches v t (number_number n) = number-matches n (is_integer n)
HasType-type_matches v t (text_string s) = refl
HasType-type_matches v t (array_array xs) = refl
HasType-type_matches v t (object_object fs) = refl

TakesType-type_matches :
    (v : Value) (t : JsonType) → TakesType v t → type_matches (type_of v) t ≡ true
unfolding type_matches type_of
TakesType-type_matches v t (of_its_own _ _ h) = HasType-type_matches v t h
TakesType-type_matches v t undefined_object = refl

any-TakesType :
    (v : Value) (ts : List JsonType)
    → any (λ e. type_matches (type_of v) e) ts ≡ true
    → (t : JsonType) × InList t ts × TakesType v t
any-TakesType v [] e = cc
any-TakesType v (t ∷ ts) e = elim (Bool-cases (type_matches (type_of v) t)) [
  | inl here ↦ (t, InList.first ts, type_matches-TakesType v t here)
  | inr there ↦ let (u, m, h) = any-TakesType v ts (ground arith) in (u, InList.later t ts m, h)
]

TakesType-any :
    (v : Value) (t : JsonType) (ts : List JsonType)
    → TakesType v t
    → InList t ts
    → any (λ e. type_matches (type_of v) e) ts ≡ true
TakesType-any v t ts h (InList.first us) = rw (TakesType-type_matches v t h) refl
TakesType-any v t ts h (InList.later u us m) = ground (arith, TakesType-any v t us h m)

abbrev OneHolds : Option (List JsonType) → Value → Type 0
OneHolds o v =
    (types : List JsonType) → o ≡ some types → (t : JsonType) × InList t types × TakesType v t

allows_type_iff : (o : Option (List JsonType)) (v : Value) → (allows_type o v ≡ true) ↔ OneHolds o v
allows_type_iff none v = (λ h types e. absurd (cc), λ h. refl)
allows_type_iff (some ts) v = (
  λ h types e.
      subst (λ us. (t : JsonType) × InList t us × TakesType v t) (same e) (any-TakesType v ts h),
  λ h. let (t, m, k) = h ts refl in TakesType-any v t ts k m,
)
  where
    same : {us : List JsonType} → some ts ≡ some us → ts ≡ us
    same e = cc

-- The type test passes exactly if the value has one of the types.
pub check_type_iff : (v : Value) (k : Keywords) → (check_type v k ≡ true) ↔ TypeHolds taken k v
unfolding check_type
check_type_iff v k = allows_type_iff k.type v
