-- ===== src/Protocol/Chunks.antt =====
-- shared/protocol/src/artifact-transport.ts: `splitUtf8`. A text is the list of its UTF-16 code
-- units; the iteration of a text by code points and the size of a code point in UTF-8 are the
-- language's.
pub mod Points
pub mod Split
mod Examples
use bidirectional_bridge_cla.Prelude.{
  ℕ, ◌+◌, ◌-◌, ◌*◌, Bool, true, false, not, ◌&&◌, ◌||◌, List, [], ◌∷◌, ◌++◌, leb, ltb,
  if◌then◌else◌, is_empty, Result, ok, err, invalid_argument, throw_if, ◌>>=◌, ◌>>◌,
}
use bidirectional_bridge_cla.Protocol.Path.{Text}

abbrev pub is_lead : ℕ → Bool
is_lead u = leb 0xd800 u && ltb u 0xdc00

abbrev pub is_trail : ℕ → Bool
is_trail u = leb 0xdc00 u && ltb u 0xe000

-- What one round of `for (const codePoint of value)` binds: a code unit, or a surrogate pair.
pub data Point : Type 0 where
  unit : ℕ → Point
  pair : (lead trail : ℕ) → Point

abbrev pub units : Point → Text
units (unit u) = u ∷ []
units (pair u v) = u ∷ v ∷ []

-- The points of a text that begins with the unit `u`, where `rest` are the points after it and
-- `beyond` those after the next unit.
abbrev pub next_points : (u : ℕ) → Text → (rest beyond : List Point) → List Point
next_points u [] rest beyond = unit u ∷ rest
next_points u (v ∷ vs) rest beyond =
    if is_lead u && is_trail v then pair u v ∷ beyond else unit u ∷ rest

-- The points of a text, and those of the text without its first unit.
unfoldable pub points_both : Text → List Point × List Point
points_both [] = ([], [])
points_both (u ∷ us) = let later = points_both us in (next_points u us later.0 later.1, later.0)

unfoldable pub code_points : Text → List Point
unfolding points_both
code_points value = (points_both value).0

-- `codePointAt(0)`.
abbrev pub scalar : Point → ℕ
scalar (unit u) = u
scalar (pair u v) = 0x10000 + (u - 0xd800) * 0x400 + (v - 0xdc00)

-- `encoder.encode(codePoint).byteLength`.
abbrev pub byte_length : Point → ℕ
byte_length p =
    if ltb (scalar p) 0x80
    then 1
    else if ltb (scalar p) 0x800
    then 2
    else if ltb (scalar p) 0x10000
    then 3
    else 4

abbrev pub is_unpaired : Point → Bool
is_unpaired p = leb 0xd800 (scalar p) && leb (scalar p) 0xdfff

-- The loop over the points: the text `current`, its size, and the chunks that are complete.
unfoldable pub split_loop : ℕ → List Point → Text → ℕ → List Text → Result (List Text × Text)
split_loop max_bytes [] current current_bytes chunks = ok (chunks, current)
split_loop max_bytes (p ∷ ps) current current_bytes chunks =
    let full = not (is_empty current) && ltb max_bytes (current_bytes + byte_length p) in
    let rest =
      split_loop max_bytes ps (if full then units p else current ++ units p)
        (if full then byte_length p else current_bytes + byte_length p)
        (if full then chunks ++ current ∷ [] else chunks) in
    if is_unpaired p then err invalid_argument else rest

abbrev pub max_safe_integer : ℕ
max_safe_integer = 9007199254740991

abbrev pub bad_budget : ℕ → Bool
bad_budget max_bytes = not (leb max_bytes max_safe_integer) || ltb max_bytes 4

abbrev pub last_chunk : Text → List Text × Text → List Text
last_chunk value (chunks, current) =
    if not (is_empty current) || is_empty value then chunks ++ current ∷ [] else chunks

unfoldable pub split_utf8 : Text → ℕ → Result (List Text)
unfolding split_loop code_points
split_utf8 value max_bytes = do
  throw_if (bad_budget max_bytes) invalid_argument
  split ← split_loop max_bytes (code_points value) [] 0 []
  ok (last_chunk value split)
