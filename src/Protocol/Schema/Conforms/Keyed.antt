-- ===== src/Protocol/Schema/Conforms/Keyed.antt =====
-- validate.ts: the checks of one keyword have no issue exactly if the keyword holds.
use mathlib.Core.Path.{subst}
use bidirectional_bridge_cla.Prelude.{
  ℕ, suc, ◌≤◌, ◌≡◌, ◌≢◌, ◌⊎◌, ◌↔◌, refl, sym, inl, inr, Bool, true, false, not, Option, none, some,
  List, [], ◌∷◌, ◌++◌, any, length, arith, Bool-cases, if◌then◌else◌, ltb,
}
use bidirectional_bridge_cla.Protocol.Path.{Text}
use bidirectional_bridge_cla.Protocol.Schema.{
  Value, undefined, null, boolean, number, text, array, object, Items, nil, cons, Fields, end,
  field, Keywords, Complaint, Step, key, index, ValidationIssue, is_inherited,
}
use bidirectional_bridge_cla.Protocol.Schema.Walk.{
  same_value, complain, walk_constants, count, own, is_missing, is_absent, walk_required,
  walk_items, walk_fields, walk_bounds,
}
use bidirectional_bridge_cla.Protocol.Schema.Conforms.{
  taken, InList, InItems, InFields, ConstantsHold, IsPresent, BoundsHold,
}

pub append-empty {ℓ} : {A : Type ℓ} (xs ys : List A) → (xs ++ ys ≡ []) ↔ ((xs ≡ []) × (ys ≡ []))
append-empty [] ys = (λ h. (refl, h), λ h. h.1)
append-empty (x ∷ xs) ys = (λ h. absurd (cc), λ h. absurd (cc (h.0)))

pub both-empty {ℓ κ μ} :
    {A : Type ℓ} {P : Type κ} {Q : Type μ} {xs ys : List A}
    → (xs ≡ []) ↔ P
    → (ys ≡ []) ↔ Q
    → (xs ++ ys ≡ []) ↔ (P × Q)
both-empty {xs} {ys} p q = (
  λ h. let (a, b) = (append-empty xs ys).0 h in (p.0 a, q.0 b),
  λ h. (append-empty xs ys).1 (p.1 h.0, q.1 h.1),
)

pub three-empty :
    {A P Q R : Type 0} {xs ys zs : List A}
    → (xs ≡ []) ↔ P
    → (ys ≡ []) ↔ Q
    → (zs ≡ []) ↔ R
    → (xs ++ (ys ++ zs) ≡ []) ↔ (P × Q × R)
three-empty p q r =
    let both = both-empty p (both-empty q r) in
    (λ h. let (a, b) = both.0 h in (a, b.0, b.1), λ (a, b, c). both.1 (a, (b, c)))

some-some {ℓ} : {A : Type ℓ} {a b : A} → some a ≡ some b → a ≡ b
some-some g = cc

-- A keyword that is absent, or holds.
complain_iff {ℓ} :
    {A : Type ℓ} {P : A → Type 0} {o : Option A} {bad : A → Bool} (message : A → Complaint)
    (path : List Step)
    → ((a : A) → (bad a ≡ false) ↔ P a)
    → (complain o bad message path ≡ []) ↔ ((a : A) → o ≡ some a → P a)
complain_iff {o = none} message path good = (λ h a e. absurd (cc), λ h. refl)
complain_iff {P = P} {o = some a} {bad = bad} message path good = elim (Bool-cases (bad a)) [
  | inl e ↦ (λ h. absurd (clash (rw e at h)), λ h. absurd (differ e ((good a).1 (h a refl))))
  | inr e ↦ (λ h b g. subst P (some-some g) ((good a).0 e), λ h. rw e refl)
]
  where
    clash : {i : ValidationIssue} → ◌≡◌ {A = List ValidationIssue} (i ∷ []) [] → ⊥
    clash h = cc

    differ : {b : Bool} → b ≡ true → b ≡ false → ⊥
    differ e g = cc

not_iff : (b : Bool) → (not b ≡ false) ↔ (b ≡ true)
not_iff true = (λ h. refl, λ h. refl)
not_iff false = (λ h. cc, λ h. cc)

itself_iff : {P : Type 0} → P ↔ P
itself_iff = (λ p. p, λ p. p)

ltb_iff : (a b : ℕ) → (ltb a b ≡ false) ↔ (b ≤ a)
ltb_iff a b = (λ h. ground arith, λ h. ground arith)

pub walk_constants_iff :
    (v : Value) (k : Keywords) (path : List Step)
    → (walk_constants v k path ≡ []) ↔ ConstantsHold k v
unfolding walk_constants
walk_constants_iff v k path =
    both-empty (complain_iff _ _ λ c. not_iff (same_value v c))
      (complain_iff _ _ λ cs. not_iff (any (same_value v) cs))

module _ (matches : (pattern_text value : Text) → Bool) where
  pub walk_bounds_iff :
      (v : Value) (k : Keywords) (path : List Step)
      → (walk_bounds matches v k path ≡ []) ↔ BoundsHold matches k v
  unfolding walk_bounds
  walk_bounds_iff (text t) k path =
      three-empty (complain_iff _ _ λ n. ltb_iff (length t) n)
        (complain_iff _ _ λ n. ltb_iff n (length t)) (complain_iff _ _ λ p. not_iff (matches p t))
  walk_bounds_iff (number n) k path =
      both-empty (complain_iff _ _ λ m. itself_iff) (complain_iff _ _ λ m. itself_iff)
  walk_bounds_iff (array xs) k path =
      both-empty (complain_iff _ _ λ n. ltb_iff (count xs) n)
        (complain_iff _ _ λ n. ltb_iff n (count xs))
  walk_bounds_iff undefined k path = (λ h. tt, λ h. refl)
  walk_bounds_iff null k path = (λ h. tt, λ h. refl)
  walk_bounds_iff (boolean b) k path = (λ h. tt, λ h. refl)
  walk_bounds_iff (object fs) k path = (λ h. tt, λ h. refl)

abbrev Found : Bool → Option Value → Type 0
Found inherited o =
    ((v : Value) × (o ≡ some v) × (v ≢ undefined)) ⊎ ((o ≡ none) × (inherited ≡ true))

Found-undefined : (i : Bool) → Found i (some undefined) → ⊥
Found-undefined i (inl (v, e, d)) = d (sym (some-some e))
Found-undefined i (inr (e, h)) = cc

is_absent_iff : (i : Bool) (o : Option Value) → (is_absent i o ≡ false) ↔ Found i o
is_absent_iff i none = (λ h. inr (refl, (not_iff i).0 h), back)
  where
    back : Found i none → not i ≡ false
    back (inl (v, e, d)) = cc
    back (inr (e, h)) = (not_iff i).1 h
is_absent_iff i (some undefined) = (λ h. cc, λ h. absurd (Found-undefined i h))
is_absent_iff i (some null) = (λ h. inl (null, refl, λ e. cc), λ h. refl)
is_absent_iff i (some (boolean b)) = (λ h. inl (boolean b, refl, λ e. cc), λ h. refl)
is_absent_iff i (some (number n)) = (λ h. inl (number n, refl, λ e. cc), λ h. refl)
is_absent_iff i (some (text t)) = (λ h. inl (text t, refl, λ e. cc), λ h. refl)
is_absent_iff i (some (array xs)) = (λ h. inl (array xs, refl, λ e. cc), λ h. refl)
is_absent_iff i (some (object fs)) = (λ h. inl (object fs, refl, λ e. cc), λ h. refl)

all-cons :
    {A : Type 0} (P : A → Type 0) (x : A) (xs : List A)
    → P x
    → ((a : A) → InList a xs → P a)
    → (a : A) → InList a (x ∷ xs)
    → P a
all-cons P x xs p q a (InList.first _) = p
all-cons P x xs p q a (InList.later _ _ m) = q a m

IsPresent-iff :
    (r : Text) (fs : Fields) (i : ValidationIssue)
    → ((if is_missing r fs then i ∷ [] else []) ≡ []) ↔ IsPresent taken r fs
unfolding is_missing
IsPresent-iff r fs i = elim (Bool-cases (is_absent (is_inherited r) (own r fs))) [
  | inl e ↦
      rw e
        (λ h. absurd (cc), λ h. absurd (differ e ((is_absent_iff (is_inherited r) (own r fs)).1 h)))
  | inr e ↦ rw e (λ h. (is_absent_iff (is_inherited r) (own r fs)).0 e, λ h. refl)
]
  where
    differ : {b : Bool} → b ≡ true → b ≡ false → ⊥
    differ e g = cc

pub walk_required_iff :
    (rs : List Text) (fs : Fields) (path : List Step)
    → (walk_required rs fs path ≡ []) ↔ ((r : Text) → InList r rs → IsPresent taken r fs)
unfolding walk_required
walk_required_iff [] fs path = (λ h r m. elim m [ ], λ h. refl)
walk_required_iff (r ∷ rs) fs path =
    let both = both-empty (IsPresent-iff r fs _) (walk_required_iff rs fs path) in
    (
      λ h. all-cons (λ r. IsPresent taken r fs) r rs (both.0 h).0 (both.0 h).1,
      λ h. both.1 (h r (InList.first rs), λ s m. h s (InList.later r rs m)),
    )

items-cons :
    (P : Value → Type 0) (x : Value) (xs : Items)
    → P x
    → ((a : Value) → InItems a xs → P a)
    → (a : Value) → InItems a (cons x xs)
    → P a
items-cons P x xs p q a (InItems.first _) = p
items-cons P x xs p q a (InItems.later _ _ m) = q a m

-- A visit that has no issue exactly if `P` holds, wherever it stands, at each item.
pub walk_items_iff :
    (P : Value → Type 0) (visit : Value → List Step → List ValidationIssue)
    → ((x : Value) (path : List Step) → (visit x path ≡ []) ↔ P x)
    → (xs : Items) (i : ℕ) (path : List Step)
    → (walk_items visit xs i path ≡ []) ↔ ((x : Value) → InItems x xs → P x)
unfolding walk_items
walk_items_iff P visit agree nil i path = (λ h x m. elim m [ ], λ h. refl)
walk_items_iff P visit agree (cons x xs) i path =
    let both =
      both-empty (agree x (index i ∷ path)) (walk_items_iff P visit agree xs (suc i) path) in
    (
      λ h. items-cons P x xs (both.0 h).0 (both.0 h).1,
      λ h. both.1 (h x (InItems.first xs), λ y m. h y (InItems.later x xs m)),
    )

abbrev FieldsHold : (Text → Value → Type 0) → Fields → Type 0
FieldsHold P fs = (n : Text) (v : Value) → InFields n v fs → v ≢ undefined → P n v

fields-cons :
    (P : Text → Value → Type 0) (n : Text) (v : Value) (fs : Fields)
    → (v ≢ undefined → P n v)
    → FieldsHold P fs
    → FieldsHold P (field n v fs)
fields-cons P n v fs p q m w (InFields.first _) d = p d
fields-cons P n v fs p q m w (InFields.later _ _ _ h) d = q m w h d

module _ (P : Text → Value → Type 0) (visit : Text → Value → List Step → List ValidationIssue)
    (agree : (n : Text) (v : Value) (path : List Step) → (visit n v path ≡ []) ↔ P n v) where
  defined_iff :
      (n : Text) (v : Value) (fs : Fields) (path : List Step)
      → v ≢ undefined
      → (walk_fields visit fs path ≡ []) ↔ FieldsHold P fs
      → (visit n v (key n ∷ path) ++ walk_fields visit fs path ≡ []) ↔ FieldsHold P (field n v fs)
  defined_iff n v fs path d rest =
      let both = both-empty (agree n v (key n ∷ path)) rest in
      (
        λ h. fields-cons P n v fs (λ _. (both.0 h).0) (both.0 h).1,
        λ h. both.1 (h n v (InFields.first fs) d, λ m w g. h m w (InFields.later n v fs g)),
      )

  pub walk_fields_iff :
      (fs : Fields) (path : List Step) → (walk_fields visit fs path ≡ []) ↔ FieldsHold P fs
  unfolding walk_fields
  walk_fields_iff end path = (λ h n v m. elim m [ ], λ h. refl)
  walk_fields_iff (field n undefined fs) path =
      let rest = walk_fields_iff fs path in
      (
        λ h. fields-cons P n undefined fs (λ d. absurd (d refl)) (rest.0 h),
        λ h. rest.1 (λ m w g. h m w (InFields.later n undefined fs g)),
      )
  walk_fields_iff (field n null fs) path =
      defined_iff n null fs path (λ e. cc) (walk_fields_iff fs path)
  walk_fields_iff (field n (boolean b) fs) path =
      defined_iff n (boolean b) fs path (λ e. cc) (walk_fields_iff fs path)
  walk_fields_iff (field n (number k) fs) path =
      defined_iff n (number k) fs path (λ e. cc) (walk_fields_iff fs path)
  walk_fields_iff (field n (text t) fs) path =
      defined_iff n (text t) fs path (λ e. cc) (walk_fields_iff fs path)
  walk_fields_iff (field n (array xs) fs) path =
      defined_iff n (array xs) fs path (λ e. cc) (walk_fields_iff fs path)
  walk_fields_iff (field n (object gs) fs) path =
      defined_iff n (object gs) fs path (λ e. cc) (walk_fields_iff fs path)
