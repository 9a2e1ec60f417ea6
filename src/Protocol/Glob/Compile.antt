-- ===== src/Protocol/Glob/Compile.antt =====
-- `globToRegExp`, `matchesGlob`, `globsOverlap` and their helpers.
use mathlib.Core.List.{tail}
use Prim.Native.Nat.{min}
use bidirectional_bridge_cla.Prelude.{
  ℕ, zero, suc, Bool, true, false, not, ◌&&◌, ◌||◌, List, [], ◌∷◌, reverse, ltb, leb, ◌==◌, any,
  is_empty, length, drop, take, text_eq, starts_with, if◌then◌else◌, Result, ok, ◌>>=◌,
}
use bidirectional_bridge_cla.Protocol.Path.{Text, slash, normalize_path}
use bidirectional_bridge_cla.Protocol.Glob.Regexp.{
  Piece, lit, segment_run, segment_char, any_run, below, test,
}

abbrev pub asterisk : ℕ
asterisk = b'*'

abbrev pub question : ℕ
question = b'?'

abbrev pub starts_with_asterisk : Text → Bool
starts_with_asterisk [] = false
starts_with_asterisk (c ∷ cs) = c == asterisk

-- `if (g[j] === "/") j += 1`.
abbrev pub skip_slash : Text → Text
skip_slash [] = []
skip_slash (c ∷ cs) = if c == slash then cs else c ∷ cs

-- The branch of `**`: a separator before it becomes part of the piece.
abbrev pub add_globstar : List Piece → List Piece
add_globstar [] = any_run ∷ []
add_globstar (lit c ∷ re) = if c == slash then below ∷ re else any_run ∷ lit c ∷ re
add_globstar (p ∷ re) = any_run ∷ p ∷ re

-- The loop. `g` is what follows the index `i`, and `re` holds the pieces, the last one first.
unfoldable pub glob_loop : ℕ → Text → List Piece → List Piece
glob_loop zero g re = re
glob_loop (suc fuel) [] re = re
glob_loop (suc fuel) (ch ∷ g) re =
    let globstar = glob_loop fuel (skip_slash (tail g)) (add_globstar re) in
    let star = glob_loop fuel g (segment_run ∷ re) in
    let one = glob_loop fuel g (segment_char ∷ re) in
    let literal = glob_loop fuel g (lit ch ∷ re) in
    if ch == asterisk
    then (if starts_with_asterisk g then globstar else star)
    else if ch == question
    then one
    else literal

-- The expression of a glob that is normalised already.
unfoldable pub compile : Text → List Piece
unfolding glob_loop
compile g = reverse (glob_loop (length g) g [])

unfoldable pub glob_to_regexp : Text → Result (List Piece)
glob_to_regexp glob = do g ← normalize_path glob; ok (compile g)

unfoldable pub matches_glob : Text → Text → Result Bool
matches_glob path glob = do re ← glob_to_regexp glob; p ← normalize_path path; ok (test re p)

abbrev pub is_wildcard : ℕ → Bool
is_wildcard c = c == asterisk || c == question

abbrev pub has_wildcard : Text → Bool
has_wildcard g = any is_wildcard g

-- `g.slice(0, i)` for the first index `i` of a wildcard.
unfoldable pub literal_prefix : Text → Text
literal_prefix [] = []
literal_prefix (c ∷ cs) = let rest = literal_prefix cs in if is_wildcard c then [] else c ∷ rest

-- From "Prefixes must be compatible" on.
unfoldable pub prefixes_overlap : Text → Text → Bool
unfolding literal_prefix
prefixes_overlap na nb =
    let pa = literal_prefix na in
    let pb = literal_prefix nb in
    let shorter = if leb (length pa) (length pb) then pa else pb in
    let longer = if leb (length pa) (length pb) then pb else pa in
    let lit_a = literal_prefix (drop (length shorter) na) in
    let lit_b = literal_prefix (drop (length shorter) nb) in
    let min_lit = min (length lit_a) (length lit_b) in
    if is_empty shorter
    then true
    else if not (starts_with longer shorter)
    then false
    else if ltb 0 min_lit && not (text_eq (take min_lit lit_a) (take min_lit lit_b))
    then false
    else true

-- What follows the tests by direct containment.
unfoldable pub overlap_beyond : Text → Text → Bool
overlap_beyond na nb =
    if not (has_wildcard na) && not (has_wildcard nb) then false else prefixes_overlap na nb

-- The tests of the overlap in the order of the source, `matchesGlob` called only where it calls it.
unfoldable pub globs_overlap : Text → Text → Result Bool
globs_overlap a b = do
  na ← normalize_path a
  nb ← normalize_path b
  if text_eq na nb then ok true else do
    in_b ← if has_wildcard na then ok false else matches_glob na nb
    if in_b then ok true else do
      in_a ← if has_wildcard nb then ok false else matches_glob nb na
      ok (in_a || overlap_beyond na nb)
