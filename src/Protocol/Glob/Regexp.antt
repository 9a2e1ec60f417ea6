-- ===== src/Protocol/Glob/Regexp.antt =====
-- The regular expressions that `globToRegExp` emits, with the meaning that JavaScript gives them:
-- anchored at both ends, no flags, over code units.
use bidirectional_bridge_cla.Prelude.{
  ℕ, Bool, false, not, ◌&&◌, ◌||◌, List, [], ◌∷◌, ◌==◌, is_empty,
}
use bidirectional_bridge_cla.Protocol.Path.{Text, slash}

-- An escaped character, `[^/]*`, `[^/]`, `.*` and `(?:/.*)?`.
pub data Piece : Type 0 where
  lit : ℕ → Piece
  segment_run segment_char any_run below : Piece

-- `.` matches all but the line terminators.
abbrev pub is_dot : ℕ → Bool
is_dot c = not (c == 10 || c == 13 || c == 0x2028 || c == 0x2029)

-- `[^/]*`, then `k`.
unfoldable pub match_segment_run : (Text → Bool) → Text → Bool
match_segment_run k [] = k []
match_segment_run k (c ∷ cs) = k (c ∷ cs) || (not (c == slash) && match_segment_run k cs)

-- `.*`, then `k`.
unfoldable pub match_any_run : (Text → Bool) → Text → Bool
match_any_run k [] = k []
match_any_run k (c ∷ cs) = k (c ∷ cs) || (is_dot c && match_any_run k cs)

abbrev match_lit : ℕ → (Text → Bool) → Text → Bool
match_lit a k [] = false
match_lit a k (c ∷ cs) = a == c && k cs

abbrev match_segment_char : (Text → Bool) → Text → Bool
match_segment_char k [] = false
match_segment_char k (c ∷ cs) = not (c == slash) && k cs

abbrev match_slash_run : (Text → Bool) → Text → Bool
match_slash_run k [] = false
match_slash_run k (c ∷ cs) = c == slash && match_any_run k cs

abbrev pub match_piece : Piece → (Text → Bool) → Text → Bool
match_piece (lit a) k cs = match_lit a k cs
match_piece segment_run k cs = match_segment_run k cs
match_piece segment_char k cs = match_segment_char k cs
match_piece any_run k cs = match_any_run k cs
match_piece below k cs = k cs || match_slash_run k cs

-- `RegExp.test`.
unfoldable pub test : List Piece → Text → Bool
test [] = is_empty
test (p ∷ ps) = match_piece p (test ps)
