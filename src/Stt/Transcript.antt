-- ===== src/Stt/Transcript.antt =====
-- src/svc/stt/stt_transcript_parse.c: one message of the server, read into the event that the
-- subtitle object shows. What `event` holds after a failure is not modelled: no caller reads it.
pub mod Message
pub mod Values
pub mod Accept
pub mod Says
use subtitle_overlay_fw.Base.{
  ℕ, zero, suc, ◌+◌, Bool, true, false, not, ◌||◌, ◌&&◌, Option, none, some, List, [], ◌∷◌, ◌==◌,
  if◌then◌else◌, length, Result, ok, err, einval,
}
use subtitle_overlay_fw.Stt.EventRing.{TextEvent, Parser}
use subtitle_overlay_fw.Stt.Json.{
  Floating, skip_whitespace, parse_string, parse_u32, parse_bool, parse_double, skip_value, same,
  empty_container, After, comma, closed, malformed, after_member,
}

-- STT_TRANSCRIPT_JSON_KEY_MAX, sizeof(type) and SUBTITLE_TEXT_MAX_LEN
abbrev pub key_max : ℕ
key_max = 32

abbrev pub type_max : ℕ
type_max = 16

abbrev pub text_max : ℕ
text_max = 128

-- The bits STT_FIELD_*; `seen` is the mask of them, by its bits.
pub data Field : Type 0 where
  seq final type start end text : Field

abbrev pub same_field : Field → Field → Bool
same_field seq seq = true
same_field final final = true
same_field type type = true
same_field start start = true
same_field end end = true
same_field text text = true
same_field _ _ = false

-- The local variables of the function, and what it has written to `event`
pub record Progress (D : Type 0) : Type 0 where
  pub seen : Field → Bool
  pub seq : ℕ
  pub text : List ℕ
  pub final_value : Bool
  pub type_value : Bool
  pub type_marks_finality : Bool
  pub start_sec : D
  pub end_sec : D

-- The six keys, and the three values of `type`
abbrev pub key_of : Field → List ℕ
key_of seq = b's' ∷ b'e' ∷ b'q' ∷ []
key_of final = b'i' ∷ b's' ∷ b'_' ∷ b'f' ∷ b'i' ∷ b'n' ∷ b'a' ∷ b'l' ∷ []
key_of type = b't' ∷ b'y' ∷ b'p' ∷ b'e' ∷ []
key_of start = b's' ∷ b't' ∷ b'a' ∷ b'r' ∷ b't' ∷ b'_' ∷ b's' ∷ b'e' ∷ b'c' ∷ []
key_of end = b'e' ∷ b'n' ∷ b'd' ∷ b'_' ∷ b's' ∷ b'e' ∷ b'c' ∷ []
key_of text = b't' ∷ b'e' ∷ b'x' ∷ b't' ∷ []

pub data Dialect : Type 0 where
  final partial transcript : Dialect

abbrev pub word_of : Dialect → List ℕ
word_of Dialect.final = b'f' ∷ b'i' ∷ b'n' ∷ b'a' ∷ b'l' ∷ []
word_of partial = b'p' ∷ b'a' ∷ b'r' ∷ b't' ∷ b'i' ∷ b'a' ∷ b'l' ∷ []
word_of transcript = b't' ∷ b'r' ∷ b'a' ∷ b'n' ∷ b's' ∷ b'c' ∷ b'r' ∷ b'i' ∷ b'p' ∷ b't' ∷ []

-- The chain of comparisons of `key`
unfoldable pub field_of : List ℕ → Option Field
field_of key =
    if same key (key_of seq)
    then some seq
    else if same key (key_of Field.final)
    then some Field.final
    else if same key (key_of type)
    then some type
    else if same key (key_of start)
    then some start
    else if same key (key_of end)
    then some end
    else if same key (key_of text)
    then some text
    else none

-- The chain of comparisons of `type`
unfoldable pub dialect_of : List ℕ → Result Dialect
dialect_of word =
    if same word (word_of Dialect.final)
    then ok Dialect.final
    else if same word (word_of partial)
    then ok partial
    else if same word (word_of transcript)
    then ok transcript
    else err einval

abbrev pub set_type : {D : Type 0} → Dialect → Progress D → Progress D
set_type Dialect.final p = record p { type_value = true; type_marks_finality = true }
set_type partial p = record p { type_value = false; type_marks_finality = true }
set_type transcript p = record p { type_marks_finality = false }

abbrev pub mark : {D : Type 0} → Field → Progress D → Progress D
mark field p = record p { seen = λ g. same_field field g || p.seen g }

module _ (f : Floating) where
  abbrev pub begin : Progress f.Double
  begin = record {
    seen = λ g. false;
    seq = 0;
    text = [];
    final_value = false;
    type_value = false;
    type_marks_finality = false;
    start_sec = f.of_nat 0;
    end_sec = f.of_nat 0;
  }

  -- The `switch` on the field
  unfoldable pub read_field :
      Field → Progress f.Double → List ℕ → Result (Progress f.Double × List ℕ)
  read_field seq p cursor = elim (parse_u32 cursor) [
    | err e ↦ err e
    | ok r ↦ ok (record p { seq = r.0 }, r.1)
  ]
  read_field Field.final p cursor = elim (parse_bool cursor) [
    | err e ↦ err e
    | ok r ↦ ok (record p { final_value = r.0 }, r.1)
  ]
  read_field type p cursor = elim (parse_string (some type_max) true cursor) [
    | err e ↦ err e
    | ok r ↦
        let ((word, _), rest) = r in
        elim (dialect_of word) [ err e ↦ err e | ok d ↦ ok (set_type d p, rest) ]
  ]
  read_field start p cursor = elim (parse_double f cursor) [
    | err e ↦ err e
    | ok r ↦ ok (record p { start_sec = r.0 }, r.1)
  ]
  read_field end p cursor = elim (parse_double f cursor) [
    | err e ↦ err e
    | ok r ↦ ok (record p { end_sec = r.0 }, r.1)
  ]
  read_field text p cursor = elim (parse_string (some text_max) true cursor) [
    | err e ↦ err e
    | ok r ↦ let ((bytes, _), rest) = r in ok (record p { text = bytes }, rest)
  ]

  -- The value of a member, its key read; `none` is a field of 0.
  unfoldable pub read_value :
      Option Field → Progress f.Double → List ℕ → Result (Progress f.Double × List ℕ)
  read_value none p cursor = elim (skip_value f cursor) [ err e ↦ err e | ok rest ↦ ok (p, rest) ]
  read_value (some field) p cursor =
      if p.seen field
      then err einval
      else elim (read_field field p cursor) [ err e ↦ err e | ok r ↦ ok (mark field r.0, r.1) ]

  -- The key, up to the value behind the colon
  unfoldable pub read_key : List ℕ → Result (Option Field × List ℕ)
  read_key cursor = elim (parse_string (some key_max) false cursor) [
    | err e ↦ err e
    | ok r ↦
        let ((key, key_truncated), rest) = r in
        elim (skip_whitespace rest) [
          | [] ↦ err einval
          | c ∷ cs ↦
              if c == b':'
              then ok (if key_truncated then none else field_of key, skip_whitespace cs)
              else err einval
        ]
  ]

  unfoldable pub read_member : Progress f.Double → List ℕ → Result (Progress f.Double × After)
  read_member p cursor = elim (read_key cursor) [
    | err e ↦ err e
    | ok k ↦ elim (read_value k.0 p k.1) [
      | err e ↦ err e
      | ok r ↦ ok (r.0, after_member true (skip_whitespace r.1))
    ]
  ]

  -- The loop; the first argument is fuel.
  unfoldable pub read_members : ℕ → Progress f.Double → List ℕ → Result (Progress f.Double × List ℕ)
  read_members zero p cursor = err einval
  read_members (suc n) p cursor = elim (empty_container true (skip_whitespace cursor)) [
    | some rest ↦ ok (p, rest)
    | none ↦ elim (read_member p (skip_whitespace cursor)) [
      | err e ↦ err e
      | ok r ↦ elim r.1 [
        | comma next ↦ elim (empty_container true next) [
          | some rest ↦ err einval
          | none ↦ read_members n r.0 next
        ]
        | closed rest ↦ ok (r.0, rest)
        | malformed ↦ err einval
      ]
    ]
  ]

  -- The latest time that fits in 32 bits of milliseconds
  abbrev pub latest : f.Double
  latest = f.divide (f.subtract (f.of_nat 4294967295) f.half) (f.of_nat 1000)

  abbrev pub to_ms : f.Double → ℕ
  to_ms sec = f.to_u32 (f.add (f.multiply sec (f.of_nat 1000)) f.half)

  abbrev pub is_nil : List ℕ → Bool
  is_nil [] = true
  is_nil (c ∷ cs) = false

  -- What follows the loop; the flag is whether the text ends behind the object.
  unfoldable pub finish : Progress f.Double → Bool → Result TextEvent
  finish p at_end =
      let marks = p.type_marks_finality && p.seen type in
      let required = p.seen seq && (p.seen start && (p.seen end && p.seen text)) in
      if not at_end || (not required || not (p.seen Field.final || marks))
      then err einval
      else if p.seen Field.final
          && (marks && (if p.final_value then not p.type_value else p.type_value))
      then err einval
      else if f.less p.start_sec (f.of_nat 0)
          || (f.less p.end_sec p.start_sec
              || (f.less latest p.start_sec || f.less latest p.end_sec))
      then err einval
      else ok (record {
        seq = p.seq;
        start_ms = to_ms p.start_sec;
        end_ms = to_ms p.end_sec;
        is_final = if p.seen Field.final then p.final_value else p.type_value;
        text = p.text;
      })

  unfoldable pub parse_object : List ℕ → Result TextEvent
  parse_object [] = err einval
  parse_object (c ∷ cs) =
      if c == b'{'
      then elim (read_members (suc (length cs)) begin cs) [
        | err e ↦ err e
        | ok r ↦ finish r.0 (is_nil (skip_whitespace r.1))
      ]
      else err einval

  -- The flag is `event != NULL`; the line is `none` for NULL.
  unfoldable pub stt_transcript_parse_line : Option (List ℕ) → Bool → Result TextEvent
  stt_transcript_parse_line none has_event = err einval
  stt_transcript_parse_line (some line) has_event =
      if has_event then parse_object (skip_whitespace line) else err einval

  -- The parser that the event ring calls
  unfoldable pub parser : Parser
  parser line = elim (stt_transcript_parse_line (some line) true) [ err e ↦ none | ok e ↦ some e ]
