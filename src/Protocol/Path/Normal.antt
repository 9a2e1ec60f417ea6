-- ===== src/Protocol/Path/Normal.antt =====
-- Normalising a path twice is normalising it once.
use bidirectional_bridge_cla.Prelude.{
  ◌≡◌, refl, sym, inl, inr, Bool, false, ◌&&◌, ◌||◌, [], ◌∷◌, map, arith, ◌==◌, any, All, is_empty,
  ok, throw_if, >>=-eq-ok, throw_if-eq-ok, invalid_argument, or-false, Bool-cases,
}
use bidirectional_bridge_cla.Protocol.Path.{
  Text, slash, dot, to_slash, starts_with_slash, collapse, strip_dot_slash, strip_slashes,
  has_drive, is_control, is_absolute, is_nothing, has_parent_segment, normalize_path,
}

abbrev NoBackslash : Text → Type 0
NoBackslash = All (λ c. (c == 92) ≡ false)

-- No two separators in a row.
abbrev Single : Text → Type 0
Single [] = Unit
Single (c ∷ cs) = ((c == slash && starts_with_slash cs) ≡ false) × Single cs

abbrev starts_with_dot_slash : Text → Bool
starts_with_dot_slash [] = false
starts_with_dot_slash (c ∷ []) = false
starts_with_dot_slash (c ∷ d ∷ cs) = c == dot && d == slash

map-NoBackslash : (xs : Text) → NoBackslash (map to_slash xs)
map-NoBackslash [] = tt
map-NoBackslash (c ∷ xs) = (ground arith, map-NoBackslash xs)

map_same : (xs : Text) → NoBackslash xs → map to_slash xs ≡ xs
map_same [] h = refl
map_same (c ∷ xs) h = ground (arith, map_same xs h.1)

starts-collapse : (xs : Text) → starts_with_slash (collapse xs) ≡ starts_with_slash xs
unfolding collapse
starts-collapse [] = refl
starts-collapse (c ∷ xs) = ground (arith, starts-collapse xs)

collapse-Single : (xs : Text) → Single (collapse xs)
unfolding collapse
collapse-Single [] = tt
collapse-Single (c ∷ xs) = ground (arith, starts-collapse xs, collapse-Single xs)

collapse-NoBackslash : (xs : Text) → NoBackslash xs → NoBackslash (collapse xs)
unfolding collapse
collapse-NoBackslash [] h = tt
collapse-NoBackslash (c ∷ xs) h = ground (arith, collapse-NoBackslash xs h.1)

collapse_same : (xs : Text) → Single xs → collapse xs ≡ xs
unfolding collapse
collapse_same [] h = refl
collapse_same (c ∷ xs) h = ground (arith, collapse_same xs h.1)

strip_dot-keeps :
    (xs : Text)
    → NoBackslash xs
    → Single xs
    → NoBackslash (strip_dot_slash xs)
      × Single (strip_dot_slash xs)
      × (starts_with_dot_slash (strip_dot_slash xs) ≡ false)
unfolding strip_dot_slash
strip_dot-keeps [] h s = (tt, tt, refl)
strip_dot-keeps (c ∷ []) h s = (h, s, refl)
strip_dot-keeps (c ∷ d ∷ xs) h s =
    let ih = strip_dot-keeps xs h.1.1 s.1.1 in
    elim (Bool-cases (c == dot && d == slash)) [ inl e ↦ rw e ih | inr e ↦ rw e (h, s, e) ]

strip_dot_same : (xs : Text) → starts_with_dot_slash xs ≡ false → strip_dot_slash xs ≡ xs
unfolding strip_dot_slash
strip_dot_same [] h = refl
strip_dot_same (c ∷ []) h = refl
strip_dot_same (c ∷ d ∷ xs) h = rw h

-- Each test that looks at the beginning of a text.
strip-starts :
    (xs : Text) → starts_with_slash xs ≡ false → starts_with_slash (strip_slashes xs) ≡ false
unfolding strip_slashes
strip-starts [] h = refl
strip-starts (c ∷ xs) h = ground arith

strip-NoBackslash : (xs : Text) → NoBackslash xs → NoBackslash (strip_slashes xs)
unfolding strip_slashes
strip-NoBackslash [] h = tt
strip-NoBackslash (c ∷ xs) h = ground (arith, strip-NoBackslash xs h.1)

strip-Single : (xs : Text) → Single xs → Single (strip_slashes xs)
unfolding strip_slashes
strip-Single [] h = tt
strip-Single (c ∷ xs) h = ground (arith, strip-starts xs, strip-Single xs h.1)

strip_same : (xs : Text) → strip_slashes (strip_slashes xs) ≡ strip_slashes xs
unfolding strip_slashes
strip_same [] = refl
strip_same (c ∷ xs) = elim (Bool-cases (c == slash && is_empty (strip_slashes xs))) [
  | inl e ↦ rw e
  | inr e ↦ rw (e, strip_same xs, e)
]

strip-starts_with_dot :
    (xs : Text)
    → starts_with_dot_slash xs ≡ false
    → starts_with_dot_slash (strip_slashes xs) ≡ false
unfolding strip_slashes
strip-starts_with_dot [] h = refl
strip-starts_with_dot (c ∷ []) h = ground arith
strip-starts_with_dot (c ∷ d ∷ xs) h = ground arith

strip-has_drive : (xs : Text) → has_drive xs ≡ false → has_drive (strip_slashes xs) ≡ false
unfolding strip_slashes
strip-has_drive [] h = refl
strip-has_drive (c ∷ []) h = ground arith
strip-has_drive (c ∷ d ∷ xs) h = ground arith

strip-is_control :
    (xs : Text) → any is_control xs ≡ false → any is_control (strip_slashes xs) ≡ false
unfolding strip_slashes
strip-is_control [] h = refl
strip-is_control (c ∷ xs) h = ground (arith, strip-is_control xs)

strip-is_absolute : (xs : Text) → is_absolute xs ≡ false → is_absolute (strip_slashes xs) ≡ false
strip-is_absolute xs h =
    let (r, c) = or-false (starts_with_slash xs || has_drive xs) (any is_control xs) h in
    let (a, b) = or-false (starts_with_slash xs) (has_drive xs) r in
    rw (strip-starts xs a, strip-has_drive xs b, strip-is_control xs c)

-- What the stages leave of a text.
abbrev stripped : Text → Text
stripped p = strip_dot_slash (collapse (map to_slash p))

normalize_path_cases :
    (p t : Text)
    → normalize_path p ≡ ok t
    → (is_absolute (stripped p) ≡ false)
      × (is_nothing (strip_slashes (stripped p)) ≡ false)
      × (has_parent_segment (strip_slashes (stripped p)) ≡ false)
      × (t ≡ strip_slashes (stripped p))
unfolding normalize_path
normalize_path_cases p t h =
    let (_, _, h1) = >>=-eq-ok (throw_if (is_empty p) invalid_argument) _ h in
    let (_, a, h2) = >>=-eq-ok (throw_if (is_absolute (stripped p)) invalid_argument) _ h1 in
    let (_, b, h3) =
      >>=-eq-ok (throw_if (is_nothing (strip_slashes (stripped p))) invalid_argument) _ h2 in
    let (_, c, h4) =
      >>=-eq-ok (throw_if (has_parent_segment (strip_slashes (stripped p))) invalid_argument) _
        h3 in
    (throw_if-eq-ok _ _ a, throw_if-eq-ok _ _ b, throw_if-eq-ok _ _ c, sym (ok-eq h4))
  where
    ok-eq : {x y : Text} → ok x ≡ ok y → x ≡ y
    ok-eq e = cc

normal_again :
    (t : Text)
    → stripped t ≡ t
    → strip_slashes t ≡ t
    → is_absolute t ≡ false
    → is_nothing t ≡ false
    → has_parent_segment t ≡ false
    → normalize_path t ≡ ok t
unfolding normalize_path
normal_again t s e a b c = let (f, _) = or-false (is_empty t) _ b in rw (f, s, a, e, b, c)

-- What a path is normalised to is normalised to itself.
pub normalize_path_idem : (p t : Text) → normalize_path p ≡ ok t → normalize_path t ≡ ok t
normalize_path_idem p t h =
    let (a, b, c, e) = normalize_path_cases p t h in
    let back = collapse-NoBackslash (map to_slash p) (map-NoBackslash p) in
    let (nb, sg, ds) =
      strip_dot-keeps (collapse (map to_slash p)) back (collapse-Single (map to_slash p)) in
    let again : stripped (strip_slashes (stripped p)) ≡ strip_slashes (stripped p) = rw (
      map_same (strip_slashes (stripped p)) (strip-NoBackslash (stripped p) nb),
      collapse_same (strip_slashes (stripped p)) (strip-Single (stripped p) sg),
      strip_dot_same (strip_slashes (stripped p)) (strip-starts_with_dot (stripped p) ds),
    ) in
    rw e (
      normal_again (strip_slashes (stripped p)) again (strip_same (stripped p))
        (strip-is_absolute (stripped p) a) b c)
