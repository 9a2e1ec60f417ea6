-- ===== src/Protocol/Scope.antt =====
-- shared/protocol/src/scope.ts: write scopes, the read-only namespace, and their conflicts.
pub mod Conflict
pub mod Normalized
use Prim.Native.Char.{code}
use Prim.Native.String.{String}
use bidirectional_bridge_cla.Prelude.{
  ℕ, Bool, true, false, not, ◌&&◌, ◌||◌, Option, none, some, List, [], ◌∷◌, ◌++◌, ltb, ◌==◌, any,
  is_empty, text_eq, starts_with, if◌then◌else◌, Result, ok, err, ◌>>=◌, ◌>>◌, throw_if,
  invalid_argument,
}
use bidirectional_bridge_cla.Protocol.Path.{Text, slash, normalize_path}
use bidirectional_bridge_cla.Protocol.Glob.Compile.{globs_overlap, matches_glob}

pub record WriteScope : Type 0 where
  pub paths : List Text
  pub note : Option Text

-- The code units of a text in ASCII.
abbrev pub codes : String → Text
codes String.[] = []
codes (String.◌∷◌ c s) = code c ∷ codes s

abbrev no_write : Text
no_write = codes "(no-write)"

-- `some` and `every` with a test that may throw: both stop at the first element that decides.
unfoldable pub some_of : (Text → Result Bool) → List Text → Result Bool
some_of f [] = ok false
some_of f (x ∷ xs) = let rest = some_of f xs in do hit ← f x; if hit then ok true else rest

unfoldable pub every_of : (Text → Result Bool) → List Text → Result Bool
every_of f [] = ok true
every_of f (x ∷ xs) = let rest = every_of f xs in do hit ← f x; if hit then rest else ok false

unfoldable pub is_read_only_pattern : Text → Result Bool
is_read_only_pattern pattern = do
  path ← normalize_path pattern
  ok (text_eq path no_write || starts_with path (no_write ++ slash ∷ []))

unfoldable pub is_read_only_scope : WriteScope → Result Bool
is_read_only_scope scope =
    if is_empty scope.paths then ok false else every_of is_read_only_pattern scope.paths

-- The inner loop of `conflictingPairs`.
unfoldable pub pairs_with : Text → List Text → Result (List (Text × Text))
pairs_with pa [] = ok []
pairs_with pa (pb ∷ rest) = do
  hit ← globs_overlap pa pb
  more ← pairs_with pa rest
  ok (if hit then (pa, pb) ∷ more else more)

unfoldable pub pairs_between : List Text → List Text → Result (List (Text × Text))
pairs_between [] bs = ok []
pairs_between (pa ∷ rest) bs = do
  found ← pairs_with pa bs
  more ← pairs_between rest bs
  ok (found ++ more)

unfoldable pub conflicting_pairs : WriteScope → WriteScope → Result (List (Text × Text))
conflicting_pairs a b = do
  read_only ← is_read_only_scope a
  if read_only then ok [] else do
    read_only' ← is_read_only_scope b
    if read_only' then ok [] else pairs_between a.paths b.paths

unfoldable pub scopes_conflict : WriteScope → WriteScope → Result Bool
scopes_conflict a b = do pairs ← conflicting_pairs a b; ok (not (is_empty pairs))

unfoldable pub scope_allows : WriteScope → Text → Result Bool
scope_allows scope path = do
  read_only ← is_read_only_scope scope
  if read_only then ok false else some_of (matches_glob path) scope.paths

-- `seen.add` on a set that keeps the order of insertion.
unfoldable pub add_seen : Text → List Text → List Text
add_seen p [] = p ∷ []
add_seen p (q ∷ seen) = if text_eq p q then q ∷ seen else q ∷ add_seen p seen

unfoldable pub normalize_all : List Text → List Text → Result (List Text)
normalize_all seen [] = ok seen
normalize_all seen (p ∷ rest) = do q ← normalize_path p; normalize_all (add_seen q seen) rest

-- `sort()` compares code units.
abbrev pub text_lt : Text → Text → Bool
text_lt [] [] = false
text_lt [] (y ∷ ys) = true
text_lt (x ∷ xs) [] = false
text_lt (x ∷ xs) (y ∷ ys) = ltb x y || x == y && text_lt xs ys

unfoldable pub insert_sorted : Text → List Text → List Text
insert_sorted x [] = x ∷ []
insert_sorted x (y ∷ ys) = if text_lt y x then y ∷ insert_sorted x ys else x ∷ y ∷ ys

unfoldable pub sort : List Text → List Text
sort [] = []
sort (x ∷ xs) = insert_sorted x (sort xs)

-- `x ? { field: x } : {}`: an empty text is dropped.
abbrev pub kept_note : Option Text → Option Text
kept_note none = none
kept_note (some n) = if is_empty n then none else some n

unfoldable pub normalize_scope : WriteScope → Result WriteScope
normalize_scope scope = do
  throw_if (is_empty scope.paths) invalid_argument
  seen ← normalize_all [] scope.paths
  read_only ← some_of is_read_only_pattern seen
  all_read_only ← if read_only then every_of is_read_only_pattern seen else ok true
  throw_if (read_only && not all_read_only) invalid_argument
  ok (record { paths = sort seen; note = kept_note scope.note })
