-- ===== src/Protocol/Glob/Prefix.antt =====
-- A path that a glob matches begins with the literal prefix of the glob, or is the directory that
-- `dir/**` stands for.
use native.Mathlib.Nat.{add-zero}
use mathlib.Core.Path.{subst}
use mathlib.Core.List.{tail, reverse-append, reverse-cons, append-nil, append_assoc}
use bidirectional_bridge_cla.Prelude.{
  ℕ, zero, suc, ◌≡◌, refl, ap, ◌∙◌, sym, ◌⊎◌, inl, inr, Bool, true, false, not, ◌&&◌, List, [], ◌∷◌,
  ◌++◌, map, reverse, arith, ◌==◌, length, length-append, starts_with, Bool-cases,
  starts_with-append, is_empty, ==_iff,
}
use bidirectional_bridge_cla.Protocol.Path.{Text, slash}
use bidirectional_bridge_cla.Protocol.Glob.Regexp.{
  Piece, lit, segment_run, segment_char, any_run, below, test,
}
use bidirectional_bridge_cla.Protocol.Glob.Compile.{
  asterisk, question, skip_slash, starts_with_asterisk, add_globstar, glob_loop, compile,
  is_wildcard, has_wildcard, literal_prefix,
}
use bidirectional_bridge_cla.Protocol.Glob.Literal.{
  literal_rest, push_lits, reverse-push_lits, loop-literal, is_lit, loop-extends, test-lits,
  prefix-append-rest, has_wildcard-prefix, rest_cases,
}

abbrev pub ends_with_slash : Text → Bool
ends_with_slash [] = false
ends_with_slash (c ∷ []) = c == slash
ends_with_slash (c ∷ d ∷ cs) = ends_with_slash (d ∷ cs)

-- Whether text follows a first wildcard `**` that a separator precedes.
abbrev pub goes_on : Text → Text → Bool
goes_on lits [] = false
goes_on lits (w ∷ cs) =
    ends_with_slash lits
    && (w == asterisk && starts_with_asterisk cs)
    && not (is_empty (skip_slash (tail cs)))

-- A glob whose `/**`, if that is its first wildcard, ends it.
abbrev pub is_plain : Text → Bool
is_plain g = not (goes_on (literal_prefix g) (literal_rest g))

abbrev pub Begins : Text → Text → Type 0
Begins lits p = (starts_with p lits ≡ true) ⊎ (lits ≡ p ++ slash ∷ [])

pub push_lits-snoc :
    (cs : Text) (c : ℕ) (re : List Piece) → push_lits (cs ++ c ∷ []) re ≡ lit c ∷ push_lits cs re
push_lits-snoc [] c re = refl
push_lits-snoc (d ∷ cs) c re = push_lits-snoc cs c (lit d ∷ re)

slash_split : (cs : Text) → ends_with_slash cs ≡ true → (d : Text) × (cs ≡ d ++ slash ∷ [])
slash_split [] h = ground arith
slash_split (c ∷ []) h = ([], ap (λ x. x ∷ []) ((==_iff c slash).0 h))
slash_split (c ∷ d ∷ cs) h = let (r, e) = slash_split (d ∷ cs) h in (c ∷ r, ap (◌∷◌ c) e)

add_globstar-cons :
    (cs : Text) (c : ℕ) (re : List Piece)
    → ends_with_slash (c ∷ cs) ≡ false
    → add_globstar (push_lits cs (lit c ∷ re)) ≡ any_run ∷ push_lits cs (lit c ∷ re)
add_globstar-cons [] c re h = rw h
add_globstar-cons (d ∷ cs) c re h = add_globstar-cons cs d (lit c ∷ re) h

add_globstar-push_lits :
    (cs : Text)
    → ends_with_slash cs ≡ false
    → add_globstar (push_lits cs []) ≡ any_run ∷ push_lits cs []
add_globstar-push_lits [] h = refl
add_globstar-push_lits (c ∷ cs) h = add_globstar-cons cs c [] h

-- After a piece that is no literal, the literals below it are matched first.
starts_after :
    (lits : Text) (q : Piece) (fuel : ℕ) (g p : Text)
    → is_lit q ≡ false
    → test (reverse (glob_loop fuel g (q ∷ push_lits lits []))) p ≡ true
    → starts_with p lits ≡ true
starts_after lits q fuel g p h t =
    let (ext, e) = loop-extends fuel g [] q (push_lits lits []) h in
    let shape : reverse (glob_loop fuel g (q ∷ push_lits lits []))
        ≡ map lit lits ++ (q ∷ [] ++ reverse ext) =
      ap reverse e
      ∙ reverse-append ext (q ∷ push_lits lits [])
      ∙ ap (λ x. x ++ reverse ext) (reverse-cons q (push_lits lits []))
      ∙ ap (λ x. (x ++ q ∷ []) ++ reverse ext) (reverse-push_lits lits [])
      ∙ append_assoc (map lit lits) (q ∷ []) (reverse ext) in
    let (s, eq, _) = test-lits lits (q ∷ [] ++ reverse ext) p (rw shape at t) in
    rw eq (starts_with-append lits s)

-- `dir/**` matches `dir` and what begins with `dir/`.
starts_below :
    (d p : Text) → test (reverse (below ∷ push_lits d [])) p ≡ true → Begins (d ++ slash ∷ []) p
unfolding test
starts_below d p t =
    let shape : reverse (below ∷ push_lits d []) ≡ map lit d ++ below ∷ [] =
      reverse-cons below (push_lits d []) ∙ ap (λ x. x ++ below ∷ []) (reverse-push_lits d []) in
    let (s, eq, m) = test-lits d (below ∷ []) p (rw shape at t) in rw eq (below_end d s m)
  where
    below_end : (d s : Text) → test (below ∷ []) s ≡ true → Begins (d ++ slash ∷ []) (d ++ s)
    below_end d [] m = inr (rw append-nil)
    below_end d (c ∷ s) m =
        let e : (c == slash) ≡ true = ground arith in
        inl (
          rw ((==_iff c slash).0 e, ← append_assoc d (slash ∷ []) s)
            (starts_with-append (d ++ slash ∷ []) s))

below_loop :
    (d cs : Text) (fuel : ℕ) (p : Text)
    → skip_slash (tail cs) ≡ []
    → test
        (reverse
          (glob_loop fuel (skip_slash (tail cs)) (add_globstar (push_lits (d ++ slash ∷ []) []))))
        p
      ≡ true
    → Begins (d ++ slash ∷ []) p
unfolding glob_loop
below_loop d cs zero p e t = starts_below d p (rw (push_lits-snoc d slash []) at t)
below_loop d cs (suc fuel) p e t = starts_below d p (rw (e, push_lits-snoc d slash []) at t)

is_empty-nil : (xs : Text) → is_empty xs ≡ true → xs ≡ []
is_empty-nil [] h = refl
is_empty-nil (x ∷ xs) h = ground arith

-- The branch of `**`.
globstar-Begins :
    (lits cs : Text) (fuel : ℕ) (p : Text)
    → (ends_with_slash lits && not (is_empty (skip_slash (tail cs)))) ≡ false
    → test (reverse (glob_loop fuel (skip_slash (tail cs)) (add_globstar (push_lits lits [])))) p
      ≡ true
    → Begins lits p
globstar-Begins lits cs fuel p plain t = elim (Bool-cases (ends_with_slash lits)) [
  | inl e ↦
      let (d, s) = slash_split lits e in
      let stop : skip_slash (tail cs) ≡ [] = is_empty-nil _ (ground arith) in
      rw s (below_loop d cs fuel p stop (rw s at t))
  | inr e ↦ inl (
      starts_after lits any_run fuel (skip_slash (tail cs)) p refl
        (rw (add_globstar-push_lits lits e) at t))
]

loop-Begins :
    (lits : Text) (w : ℕ) (cs : Text) (fuel : ℕ) (p : Text)
    → is_wildcard w ≡ true
    → goes_on lits (w ∷ cs) ≡ false
    → test (reverse (glob_loop (suc fuel) (w ∷ cs) (push_lits lits []))) p ≡ true
    → Begins lits p
unfolding glob_loop
loop-Begins lits w cs fuel p wild plain t = elim (Bool-cases (w == asterisk)) [
  | inl a ↦ elim (Bool-cases (starts_with_asterisk cs)) [
    | inl b ↦ globstar-Begins lits cs fuel p (ground arith) (rw (a, b) at t)
    | inr b ↦ inl (starts_after lits segment_run fuel cs p refl (rw (a, b) at t))
  ]
  | inr a ↦
      let b : (w == question) ≡ true = rw a at wild in
      inl (starts_after lits segment_char fuel cs p refl (rw (a, b) at t))
]

compile-Begins :
    (lits : Text) (w : ℕ) (cs p : Text)
    → has_wildcard lits ≡ false
    → is_wildcard w ≡ true
    → goes_on lits (w ∷ cs) ≡ false
    → test (compile (lits ++ w ∷ cs)) p ≡ true
    → Begins lits p
unfolding compile
compile-Begins lits w cs p free wild plain t =
    loop-Begins lits w cs (length cs) p wild plain
      (rw (length-append lits (w ∷ cs), loop-literal (length (w ∷ cs)) lits (w ∷ cs) [] free) at t)

-- A path that a plain glob with a wildcard matches begins as the glob does.
pub match-Begins :
    (g p : Text)
    → has_wildcard g ≡ true
    → is_plain g ≡ true
    → test (compile g) p ≡ true
    → Begins (literal_prefix g) p
match-Begins g p wild plain t =
    let (w, cs, e, i) = rest_cases g wild in
    let whole : g ≡ literal_prefix g ++ w ∷ cs =
      sym (prefix-append-rest g) ∙ ap (◌++◌ (literal_prefix g)) e in
    compile-Begins (literal_prefix g) w cs p (has_wildcard-prefix g) i
      (not-true _ (subst (λ x. not (goes_on (literal_prefix g) x) ≡ true) e plain))
      (subst (λ x. test (compile x) p ≡ true) whole t)
  where
    not-true : (b : Bool) → not b ≡ true → b ≡ false
    not-true true h = ground arith
    not-true false h = refl

loop-free : (g : Text) → has_wildcard g ≡ false → glob_loop (length g) g [] ≡ push_lits g []
unfolding glob_loop
loop-free g free = rw (add-zero, append-nil) at (loop-literal 0 g [] [] free)

compile-free : (g : Text) → has_wildcard g ≡ false → compile g ≡ map lit g ++ []
unfolding compile
compile-free g free =
    ap reverse (loop-free g free) ∙ reverse-push_lits g [] ∙ sym (append-nil (map lit g))

-- A glob with no wildcard matches itself only.
pub literal_match : (g p : Text) → has_wildcard g ≡ false → test (compile g) p ≡ true → p ≡ g
unfolding test
literal_match g p free t =
    let (s, eq, m) = test-lits g [] p (rw (compile-free g free) at t) in
    eq ∙ ap (◌++◌ g) (is_empty-nil s m) ∙ append-nil g
