-- ===== src/Protocol/Glob/Missed.antt =====
-- The pairs of globs that share a path and that the overlap test lets through: `/**` followed by
-- more text also matches with its separator dropped.
use mathlib.Core.List.{reverse-cons, append-nil, append_assoc}
use bidirectional_bridge_cla.Prelude.{
  ℕ, ◌≡◌, refl, ap, ◌∙◌, true, false, List, [], ◌∷◌, ◌++◌, map, reverse, arith, ◌==◌, leb, length,
  length-append, starts_with, is_empty, text_eq, ok, or-false, ==_refl,
}
use bidirectional_bridge_cla.Protocol.Path.{Text, slash}
use bidirectional_bridge_cla.Protocol.Glob.Regexp.{
  Piece, lit, segment_run, below, test, match_segment_run,
}
use bidirectional_bridge_cla.Protocol.Glob.Compile.{
  asterisk, question, glob_loop, compile, is_wildcard, has_wildcard, literal_prefix, globs_overlap,
  overlap_beyond,
}
use bidirectional_bridge_cla.Protocol.Glob.Literal.{push_lits, reverse-push_lits, loop-literal}
use bidirectional_bridge_cla.Protocol.Glob.Prefix.{push_lits-snoc}
use bidirectional_bridge_cla.Protocol.Glob.Overlap.{
  IsNormal, globs_overlap_lem, prefixes_overlap_lem,
}

-- `dir/**c` and `dirc*`.
abbrev pub below_glob : Text → ℕ → Text
below_glob d c = (d ++ slash ∷ []) ++ asterisk ∷ asterisk ∷ c ∷ []

abbrev pub beside_glob : Text → ℕ → Text
beside_glob d c = (d ++ c ∷ []) ++ asterisk ∷ []

test-lits_append :
    (cs : Text) (ps : List Piece) (s : Text)
    → test ps s ≡ true
    → test (map lit cs ++ ps) (cs ++ s) ≡ true
unfolding test
test-lits_append [] ps s h = h
test-lits_append (c ∷ cs) ps s h = ground (arith, test-lits_append cs ps s h)

has_wildcard-append :
    (d : Text) (c : ℕ)
    → has_wildcard d ≡ false
    → is_wildcard c ≡ false
    → has_wildcard (d ++ c ∷ []) ≡ false
has_wildcard-append [] c h w = ground arith
has_wildcard-append (x ∷ d) c h w = ground (arith, has_wildcard-append d c)

literal_prefix-append :
    (cs : Text) (w : ℕ) (rest : Text)
    → has_wildcard cs ≡ false
    → is_wildcard w ≡ true
    → literal_prefix (cs ++ w ∷ rest) ≡ cs
unfolding literal_prefix
literal_prefix-append [] w rest h i = rw i
literal_prefix-append (c ∷ cs) w rest h i = ground (arith, literal_prefix-append cs w rest)

has_wildcard_at :
    (cs : Text) (w : ℕ) (rest : Text) → is_wildcard w ≡ true → has_wildcard (cs ++ w ∷ rest) ≡ true
has_wildcard_at [] w rest i = ground arith
has_wildcard_at (c ∷ cs) w rest i = ground (arith, has_wildcard_at cs w rest i)

is_empty-append : (d : Text) (c : ℕ) (cs : Text) → is_empty (d ++ c ∷ cs) ≡ false
is_empty-append [] c cs = refl
is_empty-append (x ∷ d) c cs = refl

starts_with_differ :
    (d : Text) (x y : ℕ) → (x == y) ≡ false → starts_with (d ++ x ∷ []) (d ++ y ∷ []) ≡ false
starts_with_differ [] x y h = ground arith
starts_with_differ (a ∷ d) x y h = ground (arith, starts_with_differ d x y h)

text_eq_differ :
    (d : Text) (x y : ℕ) (xs ys : Text)
    → (x == y) ≡ false
    → text_eq ((d ++ x ∷ []) ++ xs) ((d ++ y ∷ []) ++ ys) ≡ false
text_eq_differ [] x y xs ys h = ground arith
text_eq_differ (a ∷ d) x y xs ys h = ground (arith, text_eq_differ d x y xs ys h)

leb_same : (d : Text) (x y : ℕ) → leb (length (d ++ x ∷ [])) (length (d ++ y ∷ [])) ≡ true
leb_same [] x y = refl
leb_same (a ∷ d) x y = ground (arith, leb_same d x y)

==_flip : (a b : ℕ) → (a == b) ≡ false → (b == a) ≡ false
==_flip a b h = ground arith

module _ (d : Text) (c : ℕ) (free : has_wildcard d ≡ false) (tame : is_wildcard c ≡ false)
    (apart : (c == slash) ≡ false) where
  below_loop_lem :
      (re : List Piece)
      → glob_loop 3 (asterisk ∷ asterisk ∷ c ∷ []) (lit slash ∷ re) ≡ lit c ∷ below ∷ re
  unfolding glob_loop
  below_loop_lem re = let (a, q) = or-false (c == asterisk) (c == question) tame in rw (apart, a, q)

  loop-below :
      glob_loop (length (below_glob d c)) (below_glob d c) [] ≡ lit c ∷ below ∷ push_lits d []
  loop-below =
      rw
        (
          length-append (d ++ slash ∷ []) (asterisk ∷ asterisk ∷ c ∷ []),
          loop-literal 3 (d ++ slash ∷ []) (asterisk ∷ asterisk ∷ c ∷ []) []
              (has_wildcard-append d slash free refl),
          push_lits-snoc d slash [],
        )
        (below_loop_lem (push_lits d []))

  compile-below : compile (below_glob d c) ≡ map lit d ++ below ∷ lit c ∷ []
  unfolding compile
  compile-below =
      ap reverse loop-below
      ∙ reverse-cons (lit c) (below ∷ push_lits d [])
      ∙ ap (λ x. x ++ lit c ∷ [])
          (reverse-cons below (push_lits d []) ∙ ap (λ x. x ++ below ∷ []) (reverse-push_lits d []))
      ∙ append_assoc (map lit d) (below ∷ []) (lit c ∷ [])

  loop-beside :
      glob_loop (length (beside_glob d c)) (beside_glob d c) []
      ≡ segment_run ∷ push_lits (d ++ c ∷ []) []
  unfolding glob_loop
  loop-beside = rw (
    length-append (d ++ c ∷ []) (asterisk ∷ []),
    loop-literal 1 (d ++ c ∷ []) (asterisk ∷ []) [] (has_wildcard-append d c free tame),
  )

  compile-beside : compile (beside_glob d c) ≡ map lit (d ++ c ∷ []) ++ segment_run ∷ []
  unfolding compile
  compile-beside =
      ap reverse loop-beside
      ∙ reverse-cons segment_run (push_lits (d ++ c ∷ []) [])
      ∙ ap (λ x. x ++ segment_run ∷ []) (reverse-push_lits (d ++ c ∷ []) [])

  below-matches : test (compile (below_glob d c)) (d ++ c ∷ []) ≡ true
  unfolding test
  below-matches = rw compile-below (test-lits_append d _ (c ∷ []) (rw (==_refl c)))

  beside-matches : test (compile (beside_glob d c)) (d ++ c ∷ []) ≡ true
  unfolding test match_segment_run
  beside-matches =
      rw compile-beside
        (rw append-nil at (test-lits_append (d ++ c ∷ []) (segment_run ∷ []) [] refl))

  not_overlap :
      IsNormal (below_glob d c)
      → IsNormal (beside_glob d c)
      → globs_overlap (below_glob d c) (beside_glob d c) ≡ ok false
  unfolding overlap_beyond
  not_overlap nb ns =
      let wa = has_wildcard_at (d ++ slash ∷ []) asterisk (asterisk ∷ c ∷ []) refl in
      let wb = has_wildcard_at (d ++ c ∷ []) asterisk [] refl in
      rw (
        globs_overlap_lem (below_glob d c) (beside_glob d c) nb ns,
        text_eq_differ d slash c (asterisk ∷ asterisk ∷ c ∷ []) (asterisk ∷ [])
            (==_flip c slash apart),
        wa,
        wb,
        prefixes_overlap_lem (below_glob d c) (beside_glob d c) wa wb,
        literal_prefix-append (d ++ slash ∷ []) asterisk (asterisk ∷ c ∷ [])
            (has_wildcard-append d slash free refl) refl,
        literal_prefix-append (d ++ c ∷ []) asterisk [] (has_wildcard-append d c free tame) refl,
        leb_same d slash c,
        is_empty-append d slash [],
        starts_with_differ d c slash apart,
      )

  -- For a directory `dir` without wildcards and a character `c` that is neither a wildcard nor a
  -- slash, and where `dir/**c` and `dirc*` are normalised, both globs match `dirc`, and the
  -- overlap test reports no overlap.
  pub globs_overlap_misses :
      IsNormal (below_glob d c)
      → IsNormal (beside_glob d c)
      → (globs_overlap (below_glob d c) (beside_glob d c) ≡ ok false)
        × (test (compile (below_glob d c)) (d ++ c ∷ []) ≡ true)
        × (test (compile (beside_glob d c)) (d ++ c ∷ []) ≡ true)
  globs_overlap_misses nb ns = (not_overlap nb ns, below-matches, beside-matches)
