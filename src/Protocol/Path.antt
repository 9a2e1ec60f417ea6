-- ===== src/Protocol/Path.antt =====
-- shared/protocol/src/scope.ts, `normalizePath`. A path is the list of its UTF-16 code units.
pub mod Normal
use bidirectional_bridge_cla.Prelude.{
  ℕ, zero, suc, ◌≡◌, refl, Bool, true, false, not, ◌&&◌, ◌||◌, List, [], ◌∷◌, ◌++◌, map, arith, ltb,
  leb, ◌==◌, any, is_empty, text_eq, starts_with, if◌then◌else◌, Result, ok, err, invalid_argument,
  ◌>>=◌, ◌>>◌, throw_if,
}

abbrev pub Text : Type 0
Text = List ℕ

abbrev pub slash : ℕ
slash = b'/'

abbrev pub dot : ℕ
dot = b'.'

-- `/\\/g` replaced by `/`.
abbrev pub to_slash : ℕ → ℕ
to_slash c = if c == 92 then slash else c

abbrev pub starts_with_slash : Text → Bool
starts_with_slash [] = false
starts_with_slash (c ∷ cs) = c == slash

-- `/\/{2,}/g` replaced by `/`.
unfoldable pub collapse : Text → Text
collapse [] = []
collapse (c ∷ cs) =
    let rest = collapse cs in if c == slash && starts_with_slash cs then rest else c ∷ rest

-- `while (out.startsWith("./")) out = out.slice(2)`.
unfoldable pub strip_dot_slash : Text → Text
strip_dot_slash [] = []
strip_dot_slash (c ∷ []) = c ∷ []
strip_dot_slash (c ∷ d ∷ cs) =
    let rest = strip_dot_slash cs in if c == dot && d == slash then rest else c ∷ d ∷ cs

-- `while (out.endsWith("/")) out = out.slice(0, -1)`.
unfoldable pub strip_slashes : Text → Text
strip_slashes [] = []
strip_slashes (c ∷ cs) =
    let rest = strip_slashes cs in if c == slash && is_empty rest then [] else c ∷ rest

-- `/^[a-z]:/i`.
abbrev pub is_letter : ℕ → Bool
is_letter c = (leb b'a' c && leb c b'z') || (leb b'A' c && leb c b'Z')

abbrev pub has_drive : Text → Bool
has_drive [] = false
has_drive (c ∷ []) = false
has_drive (c ∷ d ∷ cs) = is_letter c && d == b':'

-- `/[\x00-\x1f\x7f]/`.
abbrev pub is_control : ℕ → Bool
is_control c = leb c 31 || c == 127

abbrev pub push : ℕ → List Text → List Text
push c [] = (c ∷ []) ∷ []
push c (s ∷ ss) = (c ∷ s) ∷ ss

-- `split("/")`.
unfoldable pub split_slash : Text → List Text
split_slash [] = [] ∷ []
split_slash (c ∷ cs) = let rest = split_slash cs in if c == slash then [] ∷ rest else push c rest

abbrev pub has_parent_segment : Text → Bool
has_parent_segment out = any (text_eq (dot ∷ dot ∷ [])) (split_slash out)

-- The guard before the trailing separators go.
abbrev pub is_absolute : Text → Bool
is_absolute out = starts_with_slash out || has_drive out || any is_control out

-- The guard after it.
abbrev pub is_nothing : Text → Bool
is_nothing out = is_empty out || text_eq out (dot ∷ [])

unfoldable pub normalize_path : Text → Result Text
normalize_path p = do
  throw_if (is_empty p) invalid_argument
  let out = strip_dot_slash (collapse (map to_slash p))
  throw_if (is_absolute out) invalid_argument
  let trimmed = strip_slashes out
  throw_if (is_nothing trimmed) invalid_argument
  throw_if (has_parent_segment trimmed) invalid_argument
  ok trimmed
