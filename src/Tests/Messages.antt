-- ===== src/Tests/Messages.antt =====
-- src/svc/stt/stt_json.c and src/svc/stt/stt_transcript_parse.c at concrete texts, with whole
-- numbers for `double`: strtod is the decimal number that the token denotes.
use subtitle_overlay_fw.Base.{
  ℕ, ◌+◌, ◌*◌, ◌-◌, ◌/◌, ◌<◌, ◌≡◌, inl, inr, refl, true, false, some, List, [], ◌∷◌, ◌++◌, ltb, ok,
  arith, length,
}
use subtitle_overlay_fw.Utils.NumberParse.Decimal.{decimal}
use subtitle_overlay_fw.Stt.Json.{Floating, skip_value, parse_string, max_depth, double_of}
use subtitle_overlay_fw.Stt.Json.Text.{quote, IsPrintable}
use subtitle_overlay_fw.Stt.Json.Tree.{
  Json, yes, number, container, last, more, print, IsWellFormed,
}
use subtitle_overlay_fw.Stt.Json.Skip.{skip_value-print}
use subtitle_overlay_fw.Stt.Json.Truncate.{
  AreCodePoints, IsCodePoint, join, fit_whole, parse_string-fit_whole,
}
use subtitle_overlay_fw.Stt.Transcript.{transcript}
use subtitle_overlay_fw.Stt.Transcript.Message.{
  Entry, seq_entry, final_entry, type_entry, start_entry, end_entry, text_entry, other_entry,
}
use subtitle_overlay_fw.Stt.Transcript.Says.{says, hear_all}

abbrev pub whole_numbers : Floating
whole_numbers = record {
  Double = ℕ;
  strtod = λ token. some (decimal token);
  of_nat = λ n. n;
  half = 0;
  add = λ a b. a + b;
  subtract = λ a b. a - b;
  multiply = λ a b. a * b;
  divide = λ a b. a / b;
  less = λ a b. ltb a b;
  to_u32 = λ a. a;
}

-- One space
abbrev pub space : List ℕ
space = 32 ∷ []

-- {"a" : 56 , "b" : [true]}
abbrev nested : Json
nested = container true (
    more (b'a' ∷ []) (number (b'5' ∷ b'6' ∷ [])) (last (b'b' ∷ []) (container false (last [] yes))))

nested-IsWellFormed : IsWellFormed whole_numbers max_depth nested
unfolding double_of
nested-IsWellFormed =
    ((omega arith, tt), (((refl, (refl, tt)), (56, refl)), ((omega arith, tt), (tt, tt))))

skip_value-print_example :
    skip_value whole_numbers (print space nested ++ b',' ∷ []) ≡ ok (b',' ∷ [])
skip_value-print_example =
    skip_value-print whole_numbers space (refl, tt) nested (b',' ∷ []) nested-IsWellFormed refl

ascii_letter : (c : ℕ) → c < 128 → IsCodePoint (c ∷ [])
ascii_letter c h = (tt, inl (h, refl))

e_acute : IsCodePoint (0xc3 ∷ 0xa9 ∷ [])
e_acute = ((omega arith, tt), inr (inl (omega arith, (omega arith, refl))))

-- "hé" and "é" again, for a buffer of five bytes
abbrev accents : List (List ℕ)
accents = (b'h' ∷ []) ∷ (0xc3 ∷ 0xa9 ∷ []) ∷ (0xc3 ∷ 0xa9 ∷ []) ∷ []

accents-AreCodePoints : AreCodePoints accents
accents-AreCodePoints = (ascii_letter b'h' (omega arith), (e_acute, (e_acute, tt)))

accents-IsPrintable : IsPrintable (join accents)
unfolding join
accents-IsPrintable = omega arith

parse_string-fit_whole_example :
    parse_string (some 5) false (quote (join accents) ++ b'}' ∷ [])
    ≡ ok ((fit_whole 4 accents, ltb 4 (length (join accents))), b'}' ∷ [])
parse_string-fit_whole_example =
    parse_string-fit_whole 5 accents (b'}' ∷ []) (omega arith) accents-AreCodePoints
      accents-IsPrintable

accents_cut_off : fit_whole 4 accents ≡ b'h' ∷ 0xc3 ∷ 0xa9 ∷ []
unfolding fit_whole
accents_cut_off = refl

-- Number 7, with a member that the firmware does not know
abbrev pub hello : List Entry
hello =
    other_entry (b'x' ∷ []) nested
    ∷ text_entry ((b'h' ∷ []) ∷ (b'i' ∷ []) ∷ [])
    ∷ seq_entry (b'7' ∷ [])
    ∷ type_entry transcript
    ∷ end_entry (b'2' ∷ [])
    ∷ start_entry (b'1' ∷ [])
    ∷ final_entry true
    ∷ []

hello_read :
    says whole_numbers hello
    ≡ some (record {
      seq = 7;
      start_ms = 1000;
      end_ms = 2000;
      is_final = true;
      text = b'h' ∷ b'i' ∷ [];
    })
unfolding says hear_all fit_whole
hello_read = refl
