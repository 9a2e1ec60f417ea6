-- ===== src/Protocol/Chunks/Points.antt =====
-- artifact-transport.ts: how a text is iterated by code points.
use bidirectional_bridge_cla.Prelude.{
  ℕ, ◌+◌, ◌≡◌, refl, ap, ◌∙◌, true, false, ◌&&◌, List, [], ◌∷◌, ◌++◌, drop, leb, arith, All,
  Bool-cases, inl, inr, ◌≤◌,
}
use bidirectional_bridge_cla.Protocol.Path.{Text}
use bidirectional_bridge_cla.Protocol.Chunks.{
  Point, unit, pair, units, is_lead, is_trail, next_points, points_both, code_points, is_unpaired,
  byte_length,
}

unfoldable pub text_of : List Point → Text
text_of [] = []
text_of (p ∷ ps) = units p ++ text_of ps

-- A point that is no lone surrogate: a unit outside their range, or a pair in it.
abbrev pub IsScalar : Point → Type 0
IsScalar (unit u) = (leb 0xd800 u && leb u 0xdfff) ≡ false
IsScalar (pair u v) = (is_lead u ≡ true) × (is_trail v ≡ true)

abbrev pub IsPaired : Point → Type 0
IsPaired (unit u) = Unit
IsPaired (pair u v) = (is_lead u ≡ true) × (is_trail v ≡ true)

pub text_of-append : (ps qs : List Point) → text_of (ps ++ qs) ≡ text_of ps ++ text_of qs
unfolding text_of
text_of-append [] qs = refl
text_of-append (unit u ∷ ps) qs = ap (λ t. u ∷ t) (text_of-append ps qs)
text_of-append (pair u v ∷ ps) qs = ap (λ t. u ∷ v ∷ t) (text_of-append ps qs)

next_points-lone :
    (u : ℕ) (us : Text) (rest beyond : List Point)
    → is_lead u ≡ false
    → next_points u us rest beyond ≡ unit u ∷ rest
next_points-lone u [] rest beyond h = refl
next_points-lone u (v ∷ vs) rest beyond h = rw h

-- A text of points that are no lone surrogates is iterated by these points.
pub code_points-text_of : (ps : List Point) → All IsScalar ps → code_points (text_of ps) ≡ ps
unfolding code_points points_both text_of
code_points-text_of [] h = refl
code_points-text_of (unit u ∷ ps) (h, hs) =
    next_points-lone u (text_of ps) _ _ (ground arith)
    ∙ ap (λ t. unit u ∷ t) (code_points-text_of ps hs)
code_points-text_of (pair u v ∷ ps) ((h, k), hs) =
    rw (h, k) (ap (λ t. pair u v ∷ t) (code_points-text_of ps hs))

text_of-next_points :
    (u : ℕ) (us : Text) (rest beyond : List Point)
    → text_of rest ≡ us
    → text_of beyond ≡ drop 1 us
    → text_of (next_points u us rest beyond) ≡ u ∷ us
unfolding text_of
text_of-next_points u [] rest beyond h k = ap (λ t. u ∷ t) h
text_of-next_points u (v ∷ vs) rest beyond h k = elim (Bool-cases (is_lead u && is_trail v)) [
  | inl e ↦ rw e (ap (λ t. u ∷ v ∷ t) k)
  | inr e ↦ rw e (ap (λ t. u ∷ t) h)
]

text_of-points_both :
    (us : Text) → (text_of (points_both us).0 ≡ us) × (text_of (points_both us).1 ≡ drop 1 us)
unfolding points_both text_of
text_of-points_both [] = (refl, refl)
text_of-points_both (u ∷ us) =
    let (h, k) = text_of-points_both us in (text_of-next_points u us _ _ h k, h)

-- The points of a text, one after the other, are the text.
pub text_of-code_points : (us : Text) → text_of (code_points us) ≡ us
unfolding code_points
text_of-code_points us = (text_of-points_both us).0

next_points-IsPaired :
    (u : ℕ) (us : Text) (rest beyond : List Point)
    → All IsPaired rest
    → All IsPaired beyond
    → All IsPaired (next_points u us rest beyond)
next_points-IsPaired u [] rest beyond h k = (tt, h)
next_points-IsPaired u (v ∷ vs) rest beyond h k = elim (Bool-cases (is_lead u && is_trail v)) [
  | inl e ↦ rw e (ground arith, k)
  | inr e ↦ rw e (tt, h)
]

points_both-IsPaired :
    (us : Text) → All IsPaired (points_both us).0 × All IsPaired (points_both us).1
unfolding points_both
points_both-IsPaired [] = (tt, tt)
points_both-IsPaired (u ∷ us) =
    let (h, k) = points_both-IsPaired us in (next_points-IsPaired u us _ _ h k, h)

-- What the iteration binds is a unit or a lead surrogate with a trail surrogate.
pub code_points-IsPaired : (us : Text) → All IsPaired (code_points us)
unfolding code_points
code_points-IsPaired us = (points_both-IsPaired us).0

-- A point that the test on the scalar lets pass is no lone surrogate.
pub paired-IsScalar : (p : Point) → IsPaired p → is_unpaired p ≡ false → IsScalar p
paired-IsScalar (unit u) h e = e
paired-IsScalar (pair u v) h e = h

-- The size of a text in UTF-8.
unfoldable pub utf8_bytes : List Point → ℕ
utf8_bytes [] = 0
utf8_bytes (p ∷ ps) = byte_length p + utf8_bytes ps

pub utf8_bytes-append : (ps qs : List Point) → utf8_bytes (ps ++ qs) ≡ utf8_bytes ps + utf8_bytes qs
unfolding utf8_bytes
utf8_bytes-append [] qs = omega arith
utf8_bytes-append (p ∷ ps) qs = omega (arith, utf8_bytes-append ps qs)

pub byte_length_le : (p : Point) → (1 ≤ byte_length p) × (byte_length p ≤ 4)
byte_length_le p = ground arith
