-- ===== src/Protocol/Chunks/Split.antt =====
-- artifact-transport.ts: what `splitUtf8` gives back, and when it throws.
use mathlib.Core.Path.{subst}
use mathlib.Core.List.{append_assoc, append-nil}
use bidirectional_bridge_cla.Prelude.{
  ℕ, ◌+◌, ◌≡◌, refl, sym, ap, ◌∙◌, Bool, true, false, not, ◌&&◌, ◌||◌, List, [], ◌∷◌, ◌++◌, leb,
  ltb, arith, All, Bool-cases, inl, inr, ◌≤◌, is_empty, Result, ok, err, invalid_argument, throw_if,
  is_ok, ◌>>=◌, >>=-eq-ok, throw_if-eq-ok, any,
}
use bidirectional_bridge_cla.Protocol.Path.{Text}
use bidirectional_bridge_cla.Protocol.Chunks.{
  Point, unit, pair, units, code_points, is_unpaired, byte_length, split_loop, split_utf8,
  last_chunk, bad_budget, max_safe_integer,
}
use bidirectional_bridge_cla.Protocol.Chunks.Points.{
  text_of, text_of-append, text_of-code_points, code_points-text_of, IsScalar, IsPaired,
  code_points-IsPaired, paired-IsScalar, utf8_bytes, utf8_bytes-append, byte_length_le,
}

pub concat : List Text → Text
concat [] = []
concat (c ∷ cs) = c ++ concat cs

concat-append : (cs ds : List Text) → concat (cs ++ ds) ≡ concat cs ++ concat ds
unfolding concat
concat-append [] ds = refl
concat-append (c ∷ cs) ds = simp (concat-append cs ds, append_assoc)

-- A text within the budget: that of some points, none of them a lone surrogate.
record Filled (max_bytes : ℕ) (chunk : Text) (bytes : ℕ) : Type 0 where
  points : List Point
  text : text_of points ≡ chunk
  scalars : All IsScalar points
  size : utf8_bytes points ≡ bytes
  within : bytes ≤ max_bytes
  unit_free : is_empty chunk ≡ true → bytes ≡ 0

-- A complete chunk is such a text, and not empty.
abbrev Complete : ℕ → Text → Type 0
Complete max_bytes chunk = (is_empty chunk ≡ false) × (n : ℕ) × Filled max_bytes chunk n

text_of-single : (p : Point) → text_of (p ∷ []) ≡ units p
unfolding text_of
text_of-single (unit u) = refl
text_of-single (pair u v) = refl

is_empty-units : (xs : Text) (p : Point) → is_empty (xs ++ units p) ≡ false
is_empty-units [] (unit u) = refl
is_empty-units [] (pair u v) = refl
is_empty-units (x ∷ xs) p = refl

All-append {ℓ κ} :
    {A : Type ℓ} (P : A → Type κ) (xs ys : List A) → All P xs → All P ys → All P (xs ++ ys)
All-append P [] ys h k = k
All-append P (x ∷ xs) ys (h, hs) k = (h, All-append P xs ys hs k)

Filled-none : (max_bytes : ℕ) → Filled max_bytes [] 0
unfolding text_of utf8_bytes
Filled-none max_bytes = record {
  points = [];
  text = refl;
  scalars = tt;
  size = refl;
  within = omega arith;
  unit_free = λ h. refl;
}

Filled-add :
    (max_bytes : ℕ) (chunk : Text) (bytes : ℕ) (p : Point)
    → Filled max_bytes chunk bytes
    → IsScalar p
    → bytes + byte_length p ≤ max_bytes
    → Filled max_bytes (chunk ++ units p) (bytes + byte_length p)
unfolding utf8_bytes
Filled-add max_bytes chunk bytes p f h k = record {
  points = f.points ++ p ∷ [];
  text = text_of-append f.points (p ∷ []) ∙ rw (f.text, text_of-single p);
  scalars = All-append IsScalar f.points (p ∷ []) f.scalars (h, tt);
  size = omega (arith, utf8_bytes-append f.points (p ∷ []), f.size);
  within = k;
  unit_free = λ e. absurd (differ e (is_empty-units chunk p));
}
  where
    differ : {b : Bool} → b ≡ true → b ≡ false → ⊥
    differ e g = cc

Filled-single :
    (max_bytes : ℕ) (p : Point)
    → 4 ≤ max_bytes
    → IsScalar p
    → Filled max_bytes (units p) (byte_length p)
Filled-single max_bytes p h k =
    subst (Filled max_bytes (units p)) (zero_add (byte_length p))
      (Filled-add max_bytes [] 0 p (Filled-none max_bytes) k (omega (arith, byte_length_le p)))
  where
    zero_add : (n : ℕ) → 0 + n ≡ n
    zero_add n = omega arith

-- Without the guard of the loop, the point still fits.
fits :
    (max_bytes : ℕ) (current : Text) (bytes : ℕ) (p : Point)
    → 4 ≤ max_bytes
    → Filled max_bytes current bytes
    → (not (is_empty current) && ltb max_bytes (bytes + byte_length p)) ≡ false
    → bytes + byte_length p ≤ max_bytes
fits max_bytes [] bytes p h f e = omega (arith, f.unit_free refl, byte_length_le p)
fits max_bytes (x ∷ xs) bytes p h f e = ground arith

-- What the loop gives back, from where it stands.
record Split (max_bytes : ℕ) (before : Text) (split : List Text × Text) : Type 0 where
  whole : concat split.0 ++ split.1 ≡ before
  chunks : All (Complete max_bytes) split.0
  size : ℕ
  current : Filled max_bytes split.1 size

split_loop-Split :
    (max_bytes : ℕ) (ps : List Point) (current : Text) (bytes : ℕ) (chunks : List Text)
    (split : List Text × Text)
    → 4 ≤ max_bytes
    → All IsPaired ps
    → Filled max_bytes current bytes
    → All (Complete max_bytes) chunks
    → split_loop max_bytes ps current bytes chunks ≡ ok split
    → Split max_bytes (concat chunks ++ current ++ text_of ps) split
unfolding split_loop text_of concat
split_loop-Split max_bytes [] current bytes chunks split h ps f cs e =
    subst (Split max_bytes _) (stop e) (record {
      whole = sym (append-nil (concat chunks ++ current));
      chunks = cs;
      size = bytes;
      current = f;
    })
  where
    stop :
        ◌≡◌ {A = Result (List Text × Text)} (ok (chunks, current)) (ok split)
        → ◌≡◌ {A = List Text × Text} (chunks, current) split
    stop e = cc
split_loop-Split max_bytes (p ∷ ps) current bytes chunks split h (paired, more) f cs e =
    elim (Bool-cases (is_unpaired p)) [
      | inl lone ↦ absurd (refused (rw lone at e))
      | inr fine ↦
          elim (Bool-cases (not (is_empty current) && ltb max_bytes (bytes + byte_length p))) [
            | inl full ↦
                subst (λ t. Split max_bytes t split) (moved p)
                  (split_loop-Split max_bytes ps (units p) (byte_length p) (chunks ++ current ∷ [])
                    split h more (Filled-single max_bytes p h (paired-IsScalar p paired fine))
                    (All-append (Complete max_bytes) chunks (current ∷ []) cs
                      ((ground arith, bytes, f), tt))
                    (rw (fine, full) at e))
            | inr room ↦
                subst (λ t. Split max_bytes t split) (added p)
                  (split_loop-Split max_bytes ps (current ++ units p) (bytes + byte_length p) chunks
                    split h more
                    (Filled-add max_bytes current bytes p f (paired-IsScalar p paired fine)
                      (fits max_bytes current bytes p h f room))
                    cs (rw (fine, room) at e))
          ]
    ]
  where
    refused : ◌≡◌ {A = Result (List Text × Text)} (err invalid_argument) (ok split) → ⊥
    refused e = cc

    moved :
        (p : Point)
        → concat (chunks ++ current ∷ []) ++ units p ++ text_of ps
          ≡ concat chunks ++ current ++ (units p ++ text_of ps)
    moved p = simp (concat-append chunks (current ∷ []), append-nil, append_assoc)

    added :
        (p : Point)
        → concat chunks ++ (current ++ units p) ++ text_of ps
          ≡ concat chunks ++ current ++ (units p ++ text_of ps)
    added p = simp append_assoc

module _ (max_bytes : ℕ) (value : Text) (split : List Text × Text)
    (r : Split max_bytes value split) where
  last_chunk-concat : concat (last_chunk value split) ≡ value
  unfolding concat
  last_chunk-concat = elim (Bool-cases (not (is_empty split.1) || is_empty value)) [
    | inl more ↦ rw more (concat-append split.0 (split.1 ∷ []) ∙ rw (append-nil split.1) r.whole)
    | inr none_left ↦ rw none_left (no_more split.1 (ground arith) r.whole)
  ]
    where
      no_more :
          (last : Text)
          → is_empty last ≡ true
          → concat split.0 ++ last ≡ value
          → concat split.0 ≡ value
      no_more [] e h = sym (append-nil (concat split.0)) ∙ h
      no_more (x ∷ xs) e h = absurd (cc)

  Complete-last : is_empty value ≡ false → All (Complete max_bytes) (last_chunk value split)
  Complete-last filled = elim (Bool-cases (not (is_empty split.1) || is_empty value)) [
    | inl more ↦ rw more (
        All-append (Complete max_bytes) split.0 (split.1 ∷ []) r.chunks
          ((ground arith, r.size, r.current), tt))
    | inr none_left ↦ rw none_left r.chunks
  ]

split_utf8-Split :
    (value : Text) (max_bytes : ℕ) (chunks : List Text)
    → split_utf8 value max_bytes ≡ ok chunks
    → (bad_budget max_bytes ≡ false)
      × (split : List Text × Text) × Split max_bytes value split
      × (last_chunk value split ≡ chunks)
unfolding split_utf8 concat
split_utf8-Split value max_bytes chunks h =
    let (u, accepted, rest) = >>=-eq-ok (throw_if (bad_budget max_bytes) invalid_argument) _ h in
    let (split, looped, last) =
      >>=-eq-ok (split_loop max_bytes (code_points value) [] 0 []) (λ s. ok (last_chunk value s))
        rest in
    let good : bad_budget max_bytes ≡ false = throw_if-eq-ok _ invalid_argument accepted in
    (
      good,
      split,
      subst (λ t. Split max_bytes t split) (text_of-code_points value)
          (split_loop-Split max_bytes (code_points value) [] 0 [] split (ground arith)
            (code_points-IsPaired value) (Filled-none max_bytes) tt looped),
      same last,
    )
  where
    same : {xs ys : List Text} → ◌≡◌ {A = Result (List Text)} (ok xs) (ok ys) → xs ≡ ys
    same e = cc

-- The chunks that a text is split into are, one after the other, the text.
pub concat-split_utf8 :
    (value : Text) (max_bytes : ℕ) (chunks : List Text)
    → split_utf8 value max_bytes ≡ ok chunks
    → concat chunks ≡ value
concat-split_utf8 value max_bytes chunks h =
    let (good, split, r, last) = split_utf8-Split value max_bytes chunks h in
    rw (← last) (last_chunk-concat max_bytes value split r)

abbrev pub Fits : Text → ℕ → Text → Type 0
Fits value max_bytes chunk =
    (is_empty chunk ≡ is_empty value)
    × All IsScalar (code_points chunk)
    × (utf8_bytes (code_points chunk) ≤ max_bytes)

Complete-Fits :
    (max_bytes : ℕ) (value : Text) (chunks : List Text)
    → is_empty value ≡ false
    → All (Complete max_bytes) chunks
    → All (Fits value max_bytes) chunks
Complete-Fits max_bytes value [] e h = tt
Complete-Fits max_bytes value (c ∷ cs) e ((filled, n, f), hs) =
    let same : code_points c ≡ f.points =
      ap code_points (sym f.text) ∙ code_points-text_of f.points f.scalars in
    (
      (filled ∙ sym e, rw same f.scalars, rw same (omega (arith, f.size, f.within))),
      Complete-Fits max_bytes value cs e hs,
    )

-- Each chunk of a text that is split, read as a text of its own, has no lone surrogate and is
-- within the budget in UTF-8, and it is empty exactly if the whole text is.
pub split_utf8-Fits :
    (value : Text) (max_bytes : ℕ) (chunks : List Text)
    → split_utf8 value max_bytes ≡ ok chunks
    → All (Fits value max_bytes) chunks
unfolding split_utf8 split_loop code_points utf8_bytes
split_utf8-Fits [] max_bytes chunks h =
    let (good, split, r, last) = split_utf8-Split [] max_bytes chunks h in
    subst (All (Fits [] max_bytes)) (one (rw good at h)) ((refl, tt, omega arith), tt)
  where
    one :
        ◌≡◌ {A = Result (List Text)} (ok ([] ∷ [])) (ok chunks)
        → ◌≡◌ {A = List Text} ([] ∷ []) chunks
    one e = cc
split_utf8-Fits (x ∷ xs) max_bytes chunks h =
    let (good, split, r, last) = split_utf8-Split (x ∷ xs) max_bytes chunks h in
    rw (← last)
      (Complete-Fits max_bytes (x ∷ xs) _ refl (Complete-last max_bytes (x ∷ xs) split r refl))

is_ok-split_loop :
    (max_bytes : ℕ) (ps : List Point) (current : Text) (bytes : ℕ) (chunks : List Text)
    → is_ok (split_loop max_bytes ps current bytes chunks) ≡ not (any is_unpaired ps)
unfolding split_loop
is_ok-split_loop max_bytes [] current bytes chunks = refl
is_ok-split_loop max_bytes (p ∷ ps) current bytes chunks = elim (Bool-cases (is_unpaired p)) [
  | inl lone ↦ rw lone refl
  | inr fine ↦ rw fine (is_ok-split_loop max_bytes ps _ _ _)
]

is_ok->>= {ℓ κ} :
    {A : Type ℓ} {B : Type κ} (m : Result A) (f : A → B) → is_ok (m >>= λ a. ok (f a)) ≡ is_ok m
is_ok->>= (err code) f = refl
is_ok->>= (ok value) f = refl

-- A text is split, and not refused, exactly if the budget lies between four and the largest safe
-- integer and no code point of the text is a lone surrogate.
pub split_utf8_answers :
    (value : Text) (max_bytes : ℕ)
    → is_ok (split_utf8 value max_bytes) ≡ (
        leb 4 max_bytes
        && leb max_bytes max_safe_integer
        && not (any is_unpaired (code_points value)))
unfolding split_utf8
split_utf8_answers value max_bytes = elim (Bool-cases (bad_budget max_bytes)) [
  | inl bad ↦ rw bad (ground arith)
  | inr good ↦ rw good (
      is_ok->>= (split_loop max_bytes (code_points value) [] 0 []) (last_chunk value)
      ∙ is_ok-split_loop max_bytes (code_points value) [] 0 []
      ∙ ground arith)
]
