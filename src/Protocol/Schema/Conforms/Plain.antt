-- ===== src/Protocol/Schema/Conforms/Plain.antt =====
-- validate.ts: the values and schemas on which the validator reads a schema as it is meant.
use mathlib.Core.Path.{subst}
use bidirectional_bridge_cla.Prelude.{
  ◌≡◌, ◌≢◌, ◌⊎◌, refl, inl, inr, Bool, true, false, List, [], ◌∷◌, All,
}
use bidirectional_bridge_cla.Protocol.Path.{Text}
use bidirectional_bridge_cla.Protocol.Schema.{
  Value, undefined, null, boolean, number, text, array, object, Items, nil, cons, Fields, end,
  field, JsonType, Keywords, JsonSchema, any_of, schema, Variants, none_left, variant, Properties,
  no_more, property, Additional, anything, nothing, additional, ItemSchema, any_item, items,
  is_inherited,
}
use bidirectional_bridge_cla.Protocol.Schema.Conforms.{
  HasType, TakesType, of_its_own, undefined_object, Reading, meant, taken, InList, InItems,
  InFields, IsPresent, InsideHolds, KeywordsHold, Holds, SomeHolds, ItemHolds, MemberHolds,
  MoreHolds,
}

-- A value without `undefined`, except as the value of a property, which counts as absent, and
-- whose properties have no name that every object inherits.
unfoldable mutual
  pub IsPlain : Value → Type 0
  IsPlain undefined = ⊥
  IsPlain (array xs) = ArePlain xs
  IsPlain (object fs) = HavePlain fs
  IsPlain _ = Unit

  pub ArePlain : Items → Type 0
  ArePlain nil = Unit
  ArePlain (cons x xs) = IsPlain x × ArePlain xs

  pub HavePlain : Fields → Type 0
  HavePlain end = Unit
  HavePlain (field n v fs) =
      ((v ≡ undefined) ⊎ ((is_inherited n ≡ false) × IsPlain v)) × HavePlain fs

-- A schema that requires, at any depth, no name that every object inherits.
unfoldable mutual
  pub IsPlainSchema : JsonSchema → Type 0
  IsPlainSchema (any_of variants) = PlainVariants variants
  IsPlainSchema (schema k properties more item) =
      All (λ r. is_inherited r ≡ false) k.required
      × PlainProperties properties
      × PlainMore more
      × PlainItem item

  pub PlainVariants : Variants → Type 0
  PlainVariants none_left = Unit
  PlainVariants (variant s ss) = IsPlainSchema s × PlainVariants ss

  pub PlainProperties : Properties → Type 0
  PlainProperties no_more = Unit
  PlainProperties (property name s ps) = IsPlainSchema s × PlainProperties ps

  pub PlainMore : Additional → Type 0
  PlainMore (additional s) = IsPlainSchema s
  PlainMore _ = Unit

  pub PlainItem : ItemSchema → Type 0
  PlainItem any_item = Unit
  PlainItem (items s) = IsPlainSchema s

IsPlain-defined : (v : Value) → IsPlain v → v ≢ undefined
unfolding IsPlain
IsPlain-defined v p e = subst IsPlain e p

All-InList : (P : Text → Type 0) (r : Text) (rs : List Text) → InList r rs → All P rs → P r
All-InList P r (_ ∷ rs) (InList.first _) p = p.0
All-InList P r (_ ∷ rs) (InList.later _ _ m) p = All-InList P r rs m p.1
All-InList P r [] m p = elim m [ ]

InItems-IsPlain : (x : Value) (xs : Items) → InItems x xs → ArePlain xs → IsPlain x
unfolding IsPlain
InItems-IsPlain x nil m p = elim m [ ]
InItems-IsPlain x (cons _ xs) (InItems.first _) p = p.0
InItems-IsPlain x (cons y xs) (InItems.later _ _ m) p = InItems-IsPlain x xs m p.1

InFields-IsPlain :
    (n : Text) (v : Value) (fs : Fields)
    → InFields n v fs
    → v ≢ undefined
    → HavePlain fs
    → (is_inherited n ≡ false) × IsPlain v
unfolding IsPlain
InFields-IsPlain n v end m d p = elim m [ ]
InFields-IsPlain n v (field _ _ fs) (InFields.first _) d (inl e, p) = absurd (d e)
InFields-IsPlain n v (field _ _ fs) (InFields.first _) d (inr h, p) = h
InFields-IsPlain n v (field m w fs) (InFields.later _ _ _ g) d (h, p) =
    InFields-IsPlain n v fs g d p

-- Two readings, where the second says of plain values whatever the first says.
pub record Follows (m l : Reading) : Type 0 where
  pub typed : (v : Value) (t : JsonType) → v ≢ undefined → m.Typed v t → l.Typed v t
  pub free : (n : Text) → is_inherited n ≡ false → m.Free n → l.Free n

pub meant-taken : Follows meant taken
meant-taken = record { typed = λ v t d h. of_its_own v t h; free = λ n i h. absurd h }

pub taken-meant : Follows taken meant
taken-meant = record { typed = own_type; free = λ n i h. clash i h }
  where
    own_type : (v : Value) (t : JsonType) → v ≢ undefined → TakesType v t → HasType v t
    own_type v t d (of_its_own _ _ h) = h
    own_type v t d undefined_object = absurd (d refl)

    clash : {b : Bool} → b ≡ false → b ≡ true → ⊥
    clash e g = cc

module _ (matches : (pattern_text value : Text) → Bool) (m l : Reading)
    (follows : Follows m l) where
  module _ (Each Each' : Value → Type 0) (Member Member' : Text → Value → Type 0)
      (each : (v : Value) → IsPlain v → Each v → Each' v)
      (member : (n : Text) (v : Value)
        → is_inherited n ≡ false
        → IsPlain v
        → Member n v
        → Member' n v) where
    IsPresent-moves :
        (r : Text) (fs : Fields) → is_inherited r ≡ false → IsPresent m r fs → IsPresent l r fs
    IsPresent-moves r fs i (inl h) = inl h
    IsPresent-moves r fs i (inr (e, h)) = inr (e, follows.free r i h)

    InsideHolds-moves :
        (k : Keywords) (v : Value)
        → All (λ r. is_inherited r ≡ false) k.required
        → IsPlain v
        → InsideHolds m Each Member k v
        → InsideHolds l Each' Member' k v
    unfolding IsPlain
    InsideHolds-moves k (array xs) q p h = λ x g. each x (InItems-IsPlain x xs g p) (h x g)
    InsideHolds-moves k (object fs) q p (h, g) = (
      λ r e. IsPresent-moves r fs (All-InList _ r k.required e q) (h r e),
      λ n v e d. let (i, u) = InFields-IsPlain n v fs e d p in member n v i u (g n v e d),
    )
    InsideHolds-moves k undefined q p h = tt
    InsideHolds-moves k null q p h = tt
    InsideHolds-moves k (boolean b) q p h = tt
    InsideHolds-moves k (number n) q p h = tt
    InsideHolds-moves k (text t) q p h = tt

    KeywordsHold-moves :
        (k : Keywords) (v : Value)
        → All (λ r. is_inherited r ≡ false) k.required
        → IsPlain v
        → KeywordsHold matches m Each Member k v
        → KeywordsHold matches l Each' Member' k v
    KeywordsHold-moves k v q p (inl h) = inl h
    KeywordsHold-moves k v q p (inr (t, c, b, h)) = inr (
      λ types e. let (u, g, w) = t types e in (u, g, follows.typed v u (IsPlain-defined v p) w),
      c,
      b,
      InsideHolds-moves k v q p h,
    )

  mutual
    unfolding Holds IsPlainSchema

    pub Holds-moves :
        (s : JsonSchema)
        → IsPlainSchema s
        → (v : Value) → IsPlain v
        → Holds matches m s v
        → Holds matches l s v
    Holds-moves (any_of variants) q v p h = SomeHolds-moves variants q v p h
    Holds-moves (schema k properties more item) (q, qs, qm, qi) v p h =
        KeywordsHold-moves (ItemHolds matches m item) (ItemHolds matches l item)
          (MemberHolds matches m properties (MoreHolds matches m more))
          (MemberHolds matches l properties (MoreHolds matches l more)) (ItemHolds-moves item qi)
          (MemberHolds-moves properties qs more (MoreHolds-moves more qm)) k v q p h

    SomeHolds-moves :
        (ss : Variants)
        → PlainVariants ss
        → (v : Value) → IsPlain v
        → SomeHolds matches m ss v
        → SomeHolds matches l ss v
    SomeHolds-moves none_left q v p h = h
    SomeHolds-moves (variant s ss) (q, qs) v p (inl h) = inl (Holds-moves s q v p h)
    SomeHolds-moves (variant s ss) (q, qs) v p (inr h) = inr (SomeHolds-moves ss qs v p h)

    ItemHolds-moves :
        (i : ItemSchema)
        → PlainItem i
        → (v : Value) → IsPlain v
        → ItemHolds matches m i v
        → ItemHolds matches l i v
    ItemHolds-moves any_item q v p h = h
    ItemHolds-moves (items s) q v p h = Holds-moves s q v p h

    MemberHolds-moves :
        (ps : Properties)
        → PlainProperties ps
        → (more : Additional)
        → ((v : Value) → IsPlain v → MoreHolds matches m more v → MoreHolds matches l more v)
        → (n : Text) (v : Value) → is_inherited n ≡ false
        → IsPlain v
        → MemberHolds matches m ps (MoreHolds matches m more) n v
        → MemberHolds matches l ps (MoreHolds matches l more) n v
    MemberHolds-moves no_more q more moves n v i p (inl h) = inl (follows.free n i h)
    MemberHolds-moves no_more q more moves n v i p (inr h) = inr (moves v p h)
    MemberHolds-moves (property name s ps) (q, qs) more moves n v i p (inl (e, h)) =
        inl (e, Holds-moves s q v p h)
    MemberHolds-moves (property name s ps) (q, qs) more moves n v i p (inr (e, h)) =
        inr (e, MemberHolds-moves ps qs more moves n v i p h)

    MoreHolds-moves :
        (a : Additional)
        → PlainMore a
        → (v : Value) → IsPlain v
        → MoreHolds matches m a v
        → MoreHolds matches l a v
    MoreHolds-moves anything q v p h = h
    MoreHolds-moves nothing q v p h = h
    MoreHolds-moves (additional s) q v p h = Holds-moves s q v p h
