-- ===== src/Protocol/Chunks/Examples.antt =====
-- artifact-transport.ts: texts that are split, and the laws at them.
use bidirectional_bridge_cla.Prelude.{◌≡◌, refl, false, List, [], ◌∷◌, ok, All, is_ok}
use bidirectional_bridge_cla.Protocol.Path.{Text}
use bidirectional_bridge_cla.Protocol.Chunks.{split_utf8, split_loop, code_points}
use bidirectional_bridge_cla.Protocol.Chunks.Split.{
  concat, concat-split_utf8, Fits, split_utf8-Fits, split_utf8_answers,
}

-- "a", U+1F600 as a pair of surrogates, and "é".
abbrev smile : Text
smile = b'a' ∷ 0xd83d ∷ 0xde00 ∷ 0xe9 ∷ []

abbrev smile_chunks : List Text
smile_chunks = (b'a' ∷ []) ∷ (0xd83d ∷ 0xde00 ∷ []) ∷ (0xe9 ∷ []) ∷ []

smile_split : split_utf8 smile 4 ≡ ok smile_chunks
unfolding split_utf8 split_loop code_points
smile_split = refl

concat-split_utf8_example : concat smile_chunks ≡ smile
concat-split_utf8_example = concat-split_utf8 smile 4 smile_chunks smile_split

split_utf8-Fits_example : All (Fits smile 4) smile_chunks
split_utf8-Fits_example = split_utf8-Fits smile 4 smile_chunks smile_split

split_utf8_answers_example : is_ok (split_utf8 (b'a' ∷ 0xd83d ∷ []) 4) ≡ false
unfolding code_points
split_utf8_answers_example = split_utf8_answers (b'a' ∷ 0xd83d ∷ []) 4
