-- ===== src/Utf8/Examples.antt =====
-- Runs of the decoder of core/src/string.rs, and its theorems at one input each.
use perloxide.Prelude.{ℕ, ◌≡◌, refl, none, some, List, [], ◌∷◌, ◌-◌, length, arith}
use perloxide.Scan.States.{Terminal}
use perloxide.Utf8.Decode.{decode_one}
use perloxide.Utf8.Walk.{
  classify_walk, ended, block_end, block_high, scalar_decode_span, after_span, state,
}
use perloxide.Utf8.Bounds.{IsSequence, decode_one-IsSequence}
use perloxide.Utf8.Correct.{ClassifiesAs, classify_walk_correct}

-- "A" and U+20AC.
abbrev text : List ℕ
text = 0x41 ∷ 0xE2 ∷ 0x82 ∷ 0xAC ∷ []

text_decodes : decode_one text 1 ≡ some (3, 0x20AC)
unfolding decode_one
text_decodes = refl

overlong_is_rejected : decode_one (0xC1 ∷ 0x81 ∷ []) 0 ≡ none
unfolding decode_one
overlong_is_rejected = refl

text_classifies : classify_walk text ≡ ended (Terminal.utf8_non_latin1, 2, text)
unfolding classify_walk block_end block_high scalar_decode_span after_span state decode_one
text_classifies = refl

classify_walk_correct_example : ClassifiesAs text (classify_walk text)
classify_walk_correct_example = classify_walk_correct text (omega arith)

decode_one-IsSequence_example : IsSequence (length text - 1) 3 0x20AC
decode_one-IsSequence_example = decode_one-IsSequence text 1 3 0x20AC text_decodes
