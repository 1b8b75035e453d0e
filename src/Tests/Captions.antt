-- ===== src/Tests/Captions.antt =====
-- src/svc/subtitle_pipeline/subtitle_text_sanitize.c, the word wrap of
-- src/svc/subtitle_pipeline/subtitle_text_renderer.c and src/utils/number_parse/number_parse.c at
-- concrete texts.
use subtitle_overlay_fw.Base.{
  ℕ, ◌+◌, ◌<◌, ◌≤◌, ◌≡◌, ◌≢◌, ◌↔◌, refl, true, false, some, List, [], ◌∷◌, ok, arith, length,
}
use subtitle_overlay_fw.Subtitle.Sanitize.{
  sanitize, sanitize_loop, round, encoded_length, emit_bytes, replace_punctuation, normalize_ascii,
}
use subtitle_overlay_fw.Subtitle.Sanitize.Supported.{IsSupported}
use subtitle_overlay_fw.Subtitle.Sanitize.Laws.{sanitize_good}
use subtitle_overlay_fw.Utils.NumberParse.{number_parse_u32}
use subtitle_overlay_fw.Utils.NumberParse.Decimal.{IsDigits, decimal, number_parse_u32-eq-ok}
use subtitle_overlay_fw.Subtitle.TextLayout.{
  wrap_codepoints, wrap_words, word_end, span_advance, end_line, place_word, split_word, fit_count,
  append_line,
}
use subtitle_overlay_fw.Subtitle.TextLayout.Width.{IsFont, AreFitting}
use subtitle_overlay_fw.Subtitle.TextLayout.Wrapped.{at_first, wrap_codepoints-AreFitting}

-- "é", a snowman, a stray byte and a quote
abbrev mixed : List ℕ
mixed = 0xc3 ∷ 0xa9 ∷ 0xe2 ∷ 0x98 ∷ 0x83 ∷ 0x80 ∷ 34 ∷ []

sanitize_good_example :
    (out : List ℕ) × (sanitize (some mixed) true 4 ≡ ok out) × IsSupported out × (length out < 4)
sanitize_good_example = sanitize_good mixed 4 (omega arith)

-- E2 80 and a letter that is no continuation byte: the letter is gone, too.
swallowed : sanitize (some (0xe2 ∷ 0x80 ∷ 65 ∷ 66 ∷ [])) true 16 ≡ ok (32 ∷ 66 ∷ [])
unfolding sanitize sanitize_loop round encoded_length emit_bytes replace_punctuation normalize_ascii
swallowed = refl

abbrev forty_two : List ℕ
forty_two = 52 ∷ 50 ∷ []

number_parse_u32-eq-ok_example :
    (number_parse_u32 (some forty_two) 1 100 true ≡ ok 42)
    ↔ ((forty_two ≢ []) × IsDigits forty_two × (decimal forty_two ≡ 42) × (1 ≤ 42) × (42 ≤ 100))
number_parse_u32-eq-ok_example =
    number_parse_u32-eq-ok 1 100 forty_two 42 (omega arith) (omega arith)

-- A font of 400 pixels for each glyph: a word of three letters is split.
abbrev wide_font : ℕ → ℕ
wide_font c = 400

wide_font-IsFont : IsFont wide_font
wide_font-IsFont c = omega arith

abbrev three_letters : List ℕ
three_letters = 97 ∷ 98 ∷ 99 ∷ []

split_lines :
    (wrap_codepoints wide_font (record { codepoints = three_letters; lines = [] })).lines
    ≡ record { start = 0; count = 1; append_hyphen = true }
      ∷ record { start = 1; count = 2; append_hyphen = false }
      ∷ []
unfolding wrap_codepoints wrap_words word_end span_advance end_line place_word split_word fit_count
    append_line
split_lines = refl

wrap_codepoints-AreFitting_example :
    let l = wrap_codepoints wide_font (record { codepoints = three_letters; lines = [] }) in
    AreFitting wide_font wide_font-IsFont three_letters l.lines
    × ((length l.lines ≤ 32)
        × ((k : ℕ)
            → wrap_words wide_font (3 + k) 0 (at_first three_letters)
              ≡ wrap_words wide_font 3 0 (at_first three_letters)))
wrap_codepoints-AreFitting_example =
    wrap_codepoints-AreFitting wide_font wide_font-IsFont three_letters
