-- ===== src/Protocol/Glob/Overlap.antt =====
-- The overlap test reports every pair of plain globs that share a path.
use mathlib.Core.Path.{subst}
use mathlib.Core.List.{append-nil}
use Prim.Native.Nat.{min}
use bidirectional_bridge_cla.Prelude.{
  ℕ, ◌≤◌, ◌≡◌, refl, ap, inl, inr, Bool, true, false, not, ◌&&◌, ◌||◌, [], ◌∷◌, ◌++◌, arith, leb,
  ltb, length, length-append, drop, starts_with, if◌then◌else◌, Bool-cases, starts_with-append,
  is_empty, text_eq, ok, ◌>>=◌,
}
use bidirectional_bridge_cla.Protocol.Path.{Text, slash, normalize_path}
use bidirectional_bridge_cla.Protocol.Glob.Regexp.{test}
use bidirectional_bridge_cla.Protocol.Glob.Compile.{
  compile, has_wildcard, literal_prefix, prefixes_overlap, globs_overlap, overlap_beyond,
  matches_glob, glob_to_regexp,
}
use bidirectional_bridge_cla.Protocol.Glob.Prefix.{Begins, is_plain, match-Begins, literal_match}

-- Two prefixes of one text are prefixes of one another.
prefixes_agree :
    (xs ys p : Text)
    → length xs ≤ length ys
    → starts_with p xs ≡ true
    → starts_with p ys ≡ true
    → starts_with ys xs ≡ true
prefixes_agree [] ys p h a b = refl
prefixes_agree (x ∷ xs) [] p h a b = absurd (omega arith)
prefixes_agree (x ∷ xs) (y ∷ ys) [] h a b = ground arith
prefixes_agree (x ∷ xs) (y ∷ ys) (c ∷ p) h a b = ground (arith, prefixes_agree xs ys p)

starts_with-length : (p xs : Text) → starts_with p xs ≡ true → length xs ≤ length p
starts_with-length p [] h = omega arith
starts_with-length [] (x ∷ xs) h = ground arith
starts_with-length (c ∷ p) (x ∷ xs) h = ground (arith, starts_with-length p xs)

starts_with_trans : (xs p q : Text) → starts_with p xs ≡ true → starts_with (p ++ q) xs ≡ true
starts_with_trans [] p q h = refl
starts_with_trans (x ∷ xs) [] q h = ground arith
starts_with_trans (x ∷ xs) (c ∷ p) q h = ground (arith, starts_with_trans xs p q)

Begins-agree :
    (xs ys p : Text) → length xs ≤ length ys → Begins xs p → Begins ys p → starts_with ys xs ≡ true
Begins-agree xs ys p h (inl a) (inl b) = prefixes_agree xs ys p h a b
Begins-agree xs ys p h (inl a) (inr b) = rw b (starts_with_trans xs p (slash ∷ []) a)
Begins-agree xs ys p h (inr a) (inl b) =
    absurd (omega (arith, starts_with-length p ys b, ap length a, length-append p (slash ∷ [])))
Begins-agree xs ys p h (inr a) (inr b) = rw (a, b) (starts_with-append_self (p ++ slash ∷ []))
  where
    starts_with-append_self : (zs : Text) → starts_with zs zs ≡ true
    starts_with-append_self zs = rw append-nil at (starts_with-append zs [])

-- Past its literal prefix a glob has no literal prefix left.
prefix_of_rest :
    (g : Text) → has_wildcard g ≡ true → literal_prefix (drop (length (literal_prefix g)) g) ≡ []
unfolding literal_prefix
prefix_of_rest [] w = refl
prefix_of_rest (c ∷ cs) w = ground (arith, prefix_of_rest cs)

-- The last comparison of `globsOverlap` never runs: one of the two literal texts is empty.
no_left : (n : ℕ) (b : Bool) → (ltb 0 (min 0 n) && b) ≡ false
no_left n b = rw (ltb_zero n)
  where
    ltb_zero : (n : ℕ) → ltb 0 (min 0 n) ≡ false
    ltb_zero n = ground arith

no_right : (n : ℕ) (b : Bool) → (ltb 0 (min n 0) && b) ≡ false
no_right n b = rw (ltb_zero n)
  where
    ltb_zero : (n : ℕ) → ltb 0 (min n 0) ≡ false
    ltb_zero n = ground arith

pub prefixes_overlap_lem :
    (na nb : Text)
    → has_wildcard na ≡ true
    → has_wildcard nb ≡ true
    → prefixes_overlap na nb ≡ (
        if leb (length (literal_prefix na)) (length (literal_prefix nb))
        then is_empty (literal_prefix na) || starts_with (literal_prefix nb) (literal_prefix na)
        else is_empty (literal_prefix nb) || starts_with (literal_prefix na) (literal_prefix nb))
unfolding prefixes_overlap
prefixes_overlap_lem na nb wa wb =
    elim (Bool-cases (leb (length (literal_prefix na)) (length (literal_prefix nb)))) [
      | inl h ↦ rw (h, prefix_of_rest na wa, no_left) (last (is_empty (literal_prefix na)) _)
      | inr h ↦ rw (h, prefix_of_rest nb wb, no_right) (last (is_empty (literal_prefix nb)) _)
    ]
  where
    last :
        (e s : Bool)
        → (if e then true else if not s then false else if false then false else true) ≡ (e || s)
    last true s = refl
    last false true = refl
    last false false = refl

prefixes_overlap-true :
    (na nb p : Text)
    → has_wildcard na ≡ true
    → has_wildcard nb ≡ true
    → Begins (literal_prefix na) p
    → Begins (literal_prefix nb) p
    → prefixes_overlap na nb ≡ true
prefixes_overlap-true na nb p wa wb ba bb = rw (prefixes_overlap_lem na nb wa wb) (
    ground (
      arith,
      Begins-agree (literal_prefix na) (literal_prefix nb) p,
      Begins-agree (literal_prefix nb) (literal_prefix na) p,
    ))

-- A normalised glob is its own normal form.
abbrev pub IsNormal : Text → Type 0
IsNormal g = normalize_path g ≡ ok g

matches_glob-test :
    (p g : Text) → IsNormal p → IsNormal g → matches_glob p g ≡ ok (test (compile g) p)
unfolding matches_glob glob_to_regexp
matches_glob-test p g np ng = rw (ng, np)

-- What the overlap test answers on normalised globs.
pub globs_overlap_lem :
    (a b : Text)
    → IsNormal a
    → IsNormal b
    → globs_overlap a b
      ≡ ok (
          text_eq a b
          || ((not (has_wildcard a) && test (compile b) a)
              || ((not (has_wildcard b) && test (compile a) b) || overlap_beyond a b)))
unfolding globs_overlap
globs_overlap_lem a b na nb =
    rw (na, nb, matches_glob-test a b na nb, matches_glob-test b a nb na)
      (tests (text_eq a b) (has_wildcard a) (has_wildcard b) (test (compile b) a)
        (test (compile a) b) (overlap_beyond a b))
  where
    tests :
        (same wa wb ta tb beyond : Bool)
        → (if same
            then ok true
            else (if wa then ok false else ok ta) >>= λ in_b.
                if in_b
                then ok true
                else (if wb then ok false else ok tb) >>= λ in_a. ok (in_a || beyond))
          ≡ ok (same || ((not wa && ta) || ((not wb && tb) || beyond)))
    tests same wa wb ta tb beyond = ground arith

-- Two normalised globs in which a `/**` stands only at the end, and whose regular expressions
-- match one path, are reported as overlapping.
pub globs_overlap_sound :
    (a b p : Text)
    → IsNormal a
    → IsNormal b
    → is_plain a ≡ true
    → is_plain b ≡ true
    → test (compile a) p ≡ true
    → test (compile b) p ≡ true
    → globs_overlap a b ≡ ok true
unfolding overlap_beyond
globs_overlap_sound a b p na nb pa pb ma mb =
    rw (globs_overlap_lem a b na nb) (elim (Bool-cases (has_wildcard a)) [
      | inl wa ↦ elim (Bool-cases (has_wildcard b)) [
        | inl wb ↦
            rw
              (
                wa,
                wb,
                prefixes_overlap-true a b p wa wb (match-Begins a p wa pa ma)
                    (match-Begins b p wb pb mb),
              )
              (last (text_eq a b))
        | inr wb ↦
            rw (wb, subst (λ x. test (compile a) x ≡ true) (literal_match b p wb mb) ma)
              (second (text_eq a b) (not (has_wildcard a) && test (compile b) a))
      ]
      | inr wa ↦
          rw (wa, subst (λ x. test (compile b) x ≡ true) (literal_match a p wa ma) mb)
            (last (text_eq a b))
    ])
  where
    last : (s : Bool) → ok (s || true) ≡ ok true
    last s = ground arith

    second : (s f : Bool) → ok (s || (f || true)) ≡ ok true
    second s f = ground arith
