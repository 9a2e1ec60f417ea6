-- ===== src/Protocol/Scope/Normalized.antt =====
-- scope.ts, `normalizeScope`: the globs of a normalised scope.
use bidirectional_bridge_cla.Prelude.{
  ◌≡◌, inl, inr, true, not, ◌&&◌, List, [], ◌∷◌, All, is_empty, text_eq, if◌then◌else◌, Result, ok,
  >>=-eq-ok, throw_if, Bool-cases, invalid_argument,
}
use mathlib.Core.Path.{subst}
use bidirectional_bridge_cla.Protocol.Path.{Text, normalize_path}
use bidirectional_bridge_cla.Protocol.Path.Normal.{normalize_path_idem}
use bidirectional_bridge_cla.Protocol.Glob.Overlap.{IsNormal}
use bidirectional_bridge_cla.Protocol.Scope.{
  WriteScope, some_of, every_of, is_read_only_pattern, add_seen, text_lt, insert_sorted, sort,
  normalize_all, normalize_scope,
}

module _ (P : Text → Type 0) where
  add_seen-All : (p : Text) (seen : List Text) → P p → All P seen → All P (add_seen p seen)
  unfolding add_seen
  add_seen-All p [] h hs = (h, tt)
  add_seen-All p (q ∷ seen) h (k, hs) = elim (Bool-cases (text_eq p q)) [
    | inl b ↦ rw b (k, hs)
    | inr b ↦ rw b (k, add_seen-All p seen h hs)
  ]

  insert_sorted-All : (p : Text) (ps : List Text) → P p → All P ps → All P (insert_sorted p ps)
  unfolding insert_sorted
  insert_sorted-All p [] h hs = (h, tt)
  insert_sorted-All p (q ∷ ps) h (k, hs) = elim (Bool-cases (text_lt q p)) [
    | inl b ↦ rw b (k, insert_sorted-All p ps h hs)
    | inr b ↦ rw b (h, (k, hs))
  ]

  sort-All : (ps : List Text) → All P ps → All P (sort ps)
  unfolding sort
  sort-All [] h = tt
  sort-All (p ∷ ps) (h, hs) = insert_sorted-All p (sort ps) h (sort-All ps hs)

normalize_all-IsNormal :
    (seen ps out : List Text)
    → All IsNormal seen
    → normalize_all seen ps ≡ ok out
    → All IsNormal out
unfolding normalize_all
normalize_all-IsNormal seen [] out h e = subst (All IsNormal) (ok-texts e) h
  where
    ok-texts : {x y : List Text} → ◌≡◌ {A = Result (List Text)} (ok x) (ok y) → x ≡ y
    ok-texts e = cc
normalize_all-IsNormal seen (p ∷ ps) out h e =
    let (q, n, e1) = >>=-eq-ok (normalize_path p) _ e in
    normalize_all-IsNormal (add_seen q seen) ps out
      (add_seen-All IsNormal q seen (normalize_path_idem p q n) h) e1

-- Each glob of a normalised scope is normalised.
pub normalize_scope-IsNormal :
    (scope out : WriteScope) → normalize_scope scope ≡ ok out → All IsNormal out.paths
unfolding normalize_scope
normalize_scope-IsNormal scope out h =
    let (_, _, h1) = >>=-eq-ok (throw_if (is_empty scope.paths) invalid_argument) _ h in
    let (seen, e, h2) = >>=-eq-ok (normalize_all [] scope.paths) _ h1 in
    let (read_only, f, h3) = >>=-eq-ok (some_of is_read_only_pattern seen) _ h2 in
    let (every, g, h4) =
      >>=-eq-ok (if read_only then every_of is_read_only_pattern seen else ok true) _ h3 in
    let (_, _, h5) = >>=-eq-ok (throw_if (read_only && not every) invalid_argument) _ h4 in
    subst (All IsNormal) (ok-paths h5)
      (sort-All IsNormal seen (normalize_all-IsNormal [] scope.paths seen tt e))
  where
    ok-paths : {x y : WriteScope} → ◌≡◌ {A = Result WriteScope} (ok x) (ok y) → x.paths ≡ y.paths
    ok-paths e = cc
