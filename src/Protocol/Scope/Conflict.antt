-- ===== src/Protocol/Scope/Conflict.antt =====
-- Scopes that allow one path conflict, and normalised scopes hold normalised globs.
use bidirectional_bridge_cla.Prelude.{
  ◌≡◌, refl, ◌∙◌, sym, ◌⊎◌, inl, inr, Bool, true, false, List, [], ◌∷◌, ◌++◌, arith, All,
  if◌then◌else◌, Result, ok, err, ◌>>=◌, >>=-eq-ok,
}
use bidirectional_bridge_cla.Protocol.Path.{Text, normalize_path}
use bidirectional_bridge_cla.Protocol.Glob.Regexp.{test}
use bidirectional_bridge_cla.Protocol.Glob.Compile.{
  compile, globs_overlap, matches_glob, glob_to_regexp,
}
use bidirectional_bridge_cla.Protocol.Glob.Prefix.{is_plain}
use bidirectional_bridge_cla.Protocol.Glob.Overlap.{
  IsNormal, globs_overlap_sound, globs_overlap_lem,
}
use bidirectional_bridge_cla.Protocol.Scope.{
  WriteScope, some_of, is_read_only_scope, pairs_with, pairs_between, conflicting_pairs,
  scopes_conflict, scope_allows,
}

-- A glob as normalised scopes hold it, whose `/**` comes last.
pub record IsPlain (g : Text) : Type 0 where
  pub normal : IsNormal g
  pub plain : is_plain g ≡ true

abbrev pub PlainScope : WriteScope → Type 0
PlainScope s = All IsPlain s.paths

match-test :
    (p g : Text)
    → IsNormal g
    → matches_glob p g ≡ ok true
    → (q : Text) × (normalize_path p ≡ ok q) × (test (compile g) q ≡ true)
unfolding matches_glob glob_to_regexp
match-test p g n h =
    let h' : (normalize_path p >>= λ x. ok (test (compile g) x)) ≡ ok true = rw n at h in
    let (q, e, t) = >>=-eq-ok (normalize_path p) (λ x. ok (test (compile g) x)) h' in
    (q, e, ground arith)

some_of-cons :
    (f : Text → Result Bool) (x : Text) (xs : List Text)
    → some_of f (x ∷ xs) ≡ ok true
    → (f x ≡ ok true) ⊎ (some_of f xs ≡ ok true)
unfolding some_of
some_of-cons f x xs h = cases (f x) refl h
  where
    cases :
        (r : Result Bool)
        → f x ≡ r
        → (r >>= λ hit. if hit then ok true else some_of f xs) ≡ ok true
        → (f x ≡ ok true) ⊎ (some_of f xs ≡ ok true)
    cases (ok true) e h = inl e
    cases (ok false) e h = inr h
    cases (err c) e h = cc

-- Between normalised globs the overlap test does not throw.
overlap_total : (a b : Text) → IsNormal a → IsNormal b → (v : Bool) × (globs_overlap a b ≡ ok v)
overlap_total a b na nb = (_, globs_overlap_lem a b na nb)

pairs_with-total :
    (a : Text) (bs : List Text)
    → IsPlain a
    → All IsPlain bs
    → (l : List (Text × Text)) × (pairs_with a bs ≡ ok l)
unfolding pairs_with
pairs_with-total a [] pa pbs = ([], refl)
pairs_with-total a (b ∷ bs) pa pbs =
    let (v, e) = overlap_total a b pa.normal pbs.0.normal in
    let (l, f) = pairs_with-total a bs pa pbs.1 in (if v then (a, b) ∷ l else l, rw (e, f))

pairs_between-total :
    (gs bs : List Text)
    → All IsPlain gs
    → All IsPlain bs
    → (l : List (Text × Text)) × (pairs_between gs bs ≡ ok l)
unfolding pairs_between
pairs_between-total [] bs pas pbs = ([], refl)
pairs_between-total (a ∷ gs) bs pas pbs =
    let (l, e) = pairs_with-total a bs pas.0 pbs in
    let (m, f) = pairs_between-total gs bs pas.1 pbs in (l ++ m, rw (e, f))

abbrev pub Hits : Result (List (Text × Text)) → Type 0
Hits r = (pr : Text × Text) × (l : List (Text × Text)) × (r ≡ ok (pr ∷ l))

pairs_with-Hits :
    (a : Text) (bs : List Text) (p q : Text)
    → IsPlain a
    → All IsPlain bs
    → normalize_path p ≡ ok q
    → test (compile a) q ≡ true
    → some_of (matches_glob p) bs ≡ ok true
    → Hits (pairs_with a bs)
unfolding pairs_with some_of
pairs_with-Hits a [] p q pa pbs n t h = cc
pairs_with-Hits a (b ∷ bs) p q pa pbs n t h = elim (some_of-cons (matches_glob p) b bs h) [
  | inl m ↦
      let (q', n', t') = match-test p b pbs.0.normal m in
      let (l, f) = pairs_with-total a bs pa pbs.1 in
      let same : q' ≡ q = ok-eq (sym n' ∙ n) in
      (
        (a, b),
        l,
        rw (
          globs_overlap_sound a b q pa.normal pbs.0.normal pa.plain pbs.0.plain t (rw same at t'),
          f,
        ),
      )
  | inr m ↦
      let (v, e) = overlap_total a b pa.normal pbs.0.normal in
      let (pr, l, f) = pairs_with-Hits a bs p q pa pbs.1 n t m in keep v pr l (rw (e, f))
]
  where
    ok-eq : {x y : Text} → ok x ≡ ok y → x ≡ y
    ok-eq e = cc

    keep :
        (v : Bool) (pr : Text × Text) (l : List (Text × Text))
        → pairs_with a (b ∷ bs) ≡ ok (if v then (a, b) ∷ pr ∷ l else pr ∷ l)
        → Hits (pairs_with a (b ∷ bs))
    keep true pr l e = ((a, b), pr ∷ l, e)
    keep false pr l e = (pr, l, e)

pairs_between-Hits :
    (gs bs : List Text) (p : Text)
    → All IsPlain gs
    → All IsPlain bs
    → some_of (matches_glob p) gs ≡ ok true
    → some_of (matches_glob p) bs ≡ ok true
    → Hits (pairs_between gs bs)
unfolding pairs_between some_of
pairs_between-Hits [] bs p pgs pbs h k = cc
pairs_between-Hits (g ∷ gs) bs p pgs pbs h k = elim (some_of-cons (matches_glob p) g gs h) [
  | inl m ↦
      let (q, n, t) = match-test p g pgs.0.normal m in
      let (pr, l, e) = pairs_with-Hits g bs p q pgs.0 pbs n t k in
      let (more, f) = pairs_between-total gs bs pgs.1 pbs in (pr, l ++ more, rw (e, f))
  | inr m ↦
      let (l, e) = pairs_with-total g bs pgs.0 pbs in
      let (pr, more, f) = pairs_between-Hits gs bs p pgs.1 pbs m k in after l pr more (rw (e, f))
]
  where
    after :
        (l : List (Text × Text)) (pr : Text × Text) (more : List (Text × Text))
        → pairs_between (g ∷ gs) bs ≡ ok (l ++ pr ∷ more)
        → Hits (pairs_between (g ∷ gs) bs)
    after [] pr more e = (pr, more, e)
    after (x ∷ l) pr more e = (x, l ++ pr ∷ more, e)

-- A scope that allows a path is not read-only.
scope_allows-cases :
    (s : WriteScope) (p : Text)
    → scope_allows s p ≡ ok true
    → (is_read_only_scope s ≡ ok false) × (some_of (matches_glob p) s.paths ≡ ok true)
unfolding scope_allows
scope_allows-cases s p h = cases (is_read_only_scope s) refl h
  where
    cases :
        (r : Result Bool)
        → is_read_only_scope s ≡ r
        → (r >>= λ read_only. if read_only then ok false else some_of (matches_glob p) s.paths)
          ≡ ok true
        → (is_read_only_scope s ≡ ok false) × (some_of (matches_glob p) s.paths ≡ ok true)
    cases (ok true) e h = cc
    cases (ok false) e h = (e, h)
    cases (err c) e h = cc

-- Two scopes of normalised globs in which a `/**` stands only at the end, and that both allow one
-- path, are reported as conflicting.
pub scopes_conflict_sound :
    (a b : WriteScope) (p : Text)
    → PlainScope a
    → PlainScope b
    → scope_allows a p ≡ ok true
    → scope_allows b p ≡ ok true
    → scopes_conflict a b ≡ ok true
unfolding scopes_conflict conflicting_pairs
scopes_conflict_sound a b p pa pb ha hb =
    let (ra, sa) = scope_allows-cases a p ha in
    let (rb, sb) = scope_allows-cases b p hb in
    let (pr, l, e) = pairs_between-Hits a.paths b.paths p pa pb sa sb in rw (ra, rb, e)
