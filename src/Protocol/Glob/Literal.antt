-- ===== src/Protocol/Glob/Literal.antt =====
-- How the compiled expression begins: the characters before the first wildcard are matched as they
-- stand.
use Prim.Native.Nat.add
use mathlib.Core.List.{tail, reverse-cons, append-nil, append_assoc}
use bidirectional_bridge_cla.Prelude.{
  ℕ, zero, suc, ◌+◌, ◌≡◌, refl, ap, ◌∙◌, sym, inl, inr, Bool, true, false, List, [], ◌∷◌, ◌++◌, map,
  reverse, arith, ◌==◌, length, if◌then◌else◌, or-false, Bool-cases, and-true,
}
use bidirectional_bridge_cla.Protocol.Path.{Text, slash}
use bidirectional_bridge_cla.Protocol.Glob.Regexp.{
  Piece, lit, segment_run, segment_char, any_run, below, test,
}
use bidirectional_bridge_cla.Protocol.Glob.Compile.{
  asterisk, question, skip_slash, starts_with_asterisk, add_globstar, glob_loop, is_wildcard,
  has_wildcard, literal_prefix,
}

-- What follows the literal prefix.
abbrev pub literal_rest : Text → Text
literal_rest [] = []
literal_rest (c ∷ cs) = let rest = literal_rest cs in if is_wildcard c then c ∷ cs else rest

pub prefix-append-rest : (g : Text) → literal_prefix g ++ literal_rest g ≡ g
unfolding literal_prefix
prefix-append-rest [] = refl
prefix-append-rest (c ∷ cs) = elim (Bool-cases (is_wildcard c)) [
  | inl w ↦ rw w
  | inr l ↦ rw l (ap (◌∷◌ c) (prefix-append-rest cs))
]

pub has_wildcard-prefix : (g : Text) → has_wildcard (literal_prefix g) ≡ false
unfolding literal_prefix
has_wildcard-prefix [] = refl
has_wildcard-prefix (c ∷ cs) = ground (arith, has_wildcard-prefix cs)

pub prefix_of_literal : (g : Text) → has_wildcard g ≡ false → literal_rest g ≡ []
prefix_of_literal [] h = refl
prefix_of_literal (c ∷ cs) h = ground (arith, prefix_of_literal cs)

-- The rest begins with a wildcard.
pub rest_cases :
    (g : Text)
    → has_wildcard g ≡ true
    → (w : ℕ) × (cs : Text) × (literal_rest g ≡ w ∷ cs) × (is_wildcard w ≡ true)
rest_cases [] h = ground arith
rest_cases (c ∷ cs) h = elim (Bool-cases (is_wildcard c)) [
  | inl w ↦ (c, cs, ground arith, w)
  | inr l ↦ let (w, r, e, i) = rest_cases cs (ground arith) in (w, r, ground arith, i)
]

-- The pieces of literal characters, the last one first, on top of `re`.
abbrev pub push_lits : Text → List Piece → List Piece
push_lits [] re = re
push_lits (c ∷ cs) re = push_lits cs (lit c ∷ re)

pub reverse-push_lits :
    (cs : Text) (re : List Piece) → reverse (push_lits cs re) ≡ reverse re ++ map lit cs
reverse-push_lits [] re = sym (append-nil (reverse re))
reverse-push_lits (c ∷ cs) re =
    reverse-push_lits cs (lit c ∷ re)
    ∙ ap (λ x. x ++ map lit cs) (reverse-cons (lit c) re)
    ∙ append_assoc (reverse re) (lit c ∷ []) (map lit cs)

pub loop-literal :
    (fuel : ℕ) (cs g : Text) (re : List Piece)
    → has_wildcard cs ≡ false
    → glob_loop (length cs + fuel) (cs ++ g) re ≡ glob_loop fuel g (push_lits cs re)
unfolding glob_loop
loop-literal fuel [] g re h = ground arith
loop-literal fuel (c ∷ cs) g re h =
    let (here, there) = or-false (is_wildcard c) (has_wildcard cs) h in
    let (a, q) = or-false (c == asterisk) (c == question) here in
    rw (add.suc (length cs) fuel, a, q) (loop-literal fuel cs g (lit c ∷ re) there)

-- A piece that is no literal stays where it is.
abbrev pub is_lit : Piece → Bool
is_lit (lit c) = true
is_lit p = false

add_globstar-extends :
    (tops : List Piece) (p : Piece) (re : List Piece)
    → is_lit p ≡ false
    → (tops' : List Piece) × (add_globstar (tops ++ p ∷ re) ≡ tops' ++ p ∷ re)
add_globstar-extends [] (lit c) re h = ground arith
add_globstar-extends [] p re h = (any_run ∷ [], refl)
add_globstar-extends (lit c ∷ t) p re h = elim (Bool-cases (c == slash)) [
  | inl e ↦ (below ∷ t, rw e)
  | inr e ↦ (any_run ∷ lit c ∷ t, rw e)
]
add_globstar-extends (q ∷ t) p re h = (any_run ∷ q ∷ t, refl)

pub loop-extends :
    (fuel : ℕ) (g : Text) (tops : List Piece) (p : Piece) (re : List Piece)
    → is_lit p ≡ false
    → (ext : List Piece) × (glob_loop fuel g (tops ++ p ∷ re) ≡ ext ++ p ∷ re)
unfolding glob_loop
loop-extends zero g tops p re h = (tops, refl)
loop-extends (suc fuel) [] tops p re h = (tops, refl)
loop-extends (suc fuel) (c ∷ g) tops p re h =
    let (tops', e) = add_globstar-extends tops p re h in
    elim (Bool-cases (c == asterisk)) [
      | inl a ↦ elim (Bool-cases (starts_with_asterisk g)) [
        | inl b ↦ rw (a, b, e) (loop-extends fuel (skip_slash (tail g)) tops' p re h)
        | inr b ↦ rw (a, b) (loop-extends fuel g (segment_run ∷ tops) p re h)
      ]
      | inr a ↦ elim (Bool-cases (c == question)) [
        | inl b ↦ rw (a, b) (loop-extends fuel g (segment_char ∷ tops) p re h)
        | inr b ↦ rw (a, b) (loop-extends fuel g (lit c ∷ tops) p re h)
      ]
    ]

pub test-lits :
    (cs : Text) (ps : List Piece) (p : Text)
    → test (map lit cs ++ ps) p ≡ true
    → (s : Text) × (p ≡ cs ++ s) × (test ps s ≡ true)
unfolding test
test-lits [] ps p h = (p, refl, h)
test-lits (c ∷ cs) ps [] h = ground arith
test-lits (c ∷ cs) ps (x ∷ p) h =
    let (here, there) = and-true (c == x) (test (map lit cs ++ ps) p) h in
    let (s, e, t) = test-lits cs ps p there in (s, ground (arith, here, e), t)
