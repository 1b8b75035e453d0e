-- ===== src/Stt/Transcript/Says.antt =====
-- What a transcript message says, read off its members by their kinds.
pub mod Members
pub mod Reading
use subtitle_overlay_fw.Base.{
  ℕ, ◌≡◌, refl, sym, ap, ◌∙◌, Bool, true, false, not, ◌&&◌, ◌||◌, Bool-cases, Option, none, some,
  Option-cases, List, [], ◌∷◌, if◌then◌else◌, inl, inr, Result, ok, err, einval, arith,
}
use subtitle_overlay_fw.Utils.NumberParse.Decimal.{decimal}
use subtitle_overlay_fw.Stt.EventRing.{TextEvent}
use subtitle_overlay_fw.Stt.Json.{Floating}
use subtitle_overlay_fw.Stt.Json.Text.{IsBlank}
use subtitle_overlay_fw.Stt.Json.Tree.{IsNumber}
use subtitle_overlay_fw.Stt.Json.Truncate.{fit_whole}
use subtitle_overlay_fw.Stt.Transcript.{
  Field, seq, type, start, end, text, Dialect, partial, transcript, Progress, begin, finish,
  stt_transcript_parse_line,
}
use subtitle_overlay_fw.Stt.Transcript.Message.{
  Entry, seq_entry, final_entry, type_entry, start_entry, end_entry, text_entry, other_entry,
  entry_field, print_message, IsEntry, AreEntries, double_or, take_in, take_in_all, meaning,
}
use subtitle_overlay_fw.Stt.Transcript.Values.{double_of-strtod}
use subtitle_overlay_fw.Stt.Transcript.Accept.{stt_transcript_parse_line-print_message}

-- What was heard so far, by kinds of members
pub record Heard (D : Type 0) : Type 0 where
  pub number : Option ℕ
  pub finality : Option Bool
  pub kind : Option Dialect
  pub from : Option D
  pub until : Option D
  pub words : Option (List ℕ)

abbrev pub nothing : {D : Type 0} → Heard D
nothing = record {
  number = none;
  finality = none;
  kind = none;
  from = none;
  until = none;
  words = none;
}

-- Whether the transcript is final: "type" may say it, too, and then must not contradict "is_final".
abbrev pub settle : Option Bool → Option Dialect → Option Bool
settle (some b) none = some b
settle (some b) (some transcript) = some b
settle (some true) (some Dialect.final) = some true
settle (some false) (some partial) = some false
settle none (some Dialect.final) = some true
settle none (some partial) = some false
settle _ _ = none

abbrev pub said : Option TextEvent → Result TextEvent
said none = err einval
said (some e) = ok e

abbrev pub is_some : {A : Type 0} → Option A → Bool
is_some none = false
is_some (some x) = true

abbrev pub Holds : {A : Type 0} → Option A → A → Type 0
Holds none x = Unit
Holds (some y) x = x ≡ y

abbrev pub HoldsType : Option Dialect → Bool → Bool → Type 0
HoldsType none value marks = Unit
HoldsType (some Dialect.final) value marks = (value ≡ true) × (marks ≡ true)
HoldsType (some partial) value marks = (value ≡ false) × (marks ≡ true)
HoldsType (some transcript) value marks = marks ≡ false

module _ (f : Floating) where
  -- A kind that was heard before is refused.
  abbrev pub hear : Entry → Heard f.Double → Option (Heard f.Double)
  hear (seq_entry token) h = elim h.number [
    | none ↦ some (record h { number = some (decimal token) })
    | some x ↦ none
  ]
  hear (final_entry b) h = elim h.finality [
    | none ↦ some (record h { finality = some b })
    | some x ↦ none
  ]
  hear (type_entry d) h = elim h.kind [ none ↦ some (record h { kind = some d }) | some x ↦ none ]
  hear (start_entry token) h = elim h.from [
    | none ↦ some (record h { from = some (double_or f (f.of_nat 0) (f.strtod token)) })
    | some x ↦ none
  ]
  hear (end_entry token) h = elim h.until [
    | none ↦ some (record h { until = some (double_or f (f.of_nat 0) (f.strtod token)) })
    | some x ↦ none
  ]
  hear (text_entry ps) h = elim h.words [
    | none ↦ some (record h { words = some (fit_whole 127 ps) })
    | some x ↦ none
  ]
  hear (other_entry key v) h = some h

  unfoldable pub hear_all : List Entry → Heard f.Double → Option (Heard f.Double)
  hear_all [] h = some h
  hear_all (e ∷ es) h = elim (hear e h) [ none ↦ none | some h' ↦ hear_all es h' ]

  -- Seconds as milliseconds, rounded, of which the last in 32 bits is the latest
  abbrev pub milliseconds : f.Double → ℕ
  milliseconds x = f.to_u32 (f.add (f.multiply x (f.of_nat 1000)) f.half)

  abbrev pub last_second : f.Double
  last_second = f.divide (f.subtract (f.of_nat 4294967295) f.half) (f.of_nat 1000)

  -- From 0 to the latest, and the end not before the start
  abbrev pub in_order : f.Double → f.Double → Bool
  in_order from until =
      not (f.less from (f.of_nat 0))
      && (not (f.less until from)
          && (not (f.less last_second from) && not (f.less last_second until)))

  abbrev pub event : ℕ → f.Double → f.Double → List ℕ → Bool → TextEvent
  event n from until words is_final = record {
    seq = n;
    start_ms = milliseconds from;
    end_ms = milliseconds until;
    is_final = is_final;
    text = words;
  }

  abbrev pub event_of :
      Option ℕ
      → Option f.Double
      → Option f.Double
      → Option (List ℕ)
      → Option Bool
      → Option TextEvent
  event_of (some n) (some from) (some until) (some words) (some is_final) =
      if in_order from until then some (event n from until words is_final) else none
  event_of _ _ _ _ _ = none

  abbrev pub event_heard : Heard f.Double → Option TextEvent
  event_heard h = event_of h.number h.from h.until h.words (settle h.finality h.kind)

  unfoldable pub says : List Entry → Option TextEvent
  says es = elim (hear_all es nothing) [ none ↦ none | some h ↦ event_heard h ]

  -- The local variables of the code beside what was heard
  pub record Rel (h : Heard f.Double) (p : Progress f.Double) : Type 0 where
    pub has_seq : p.seen seq ≡ is_some h.number
    pub has_final : p.seen Field.final ≡ is_some h.finality
    pub has_type : p.seen type ≡ is_some h.kind
    pub has_start : p.seen start ≡ is_some h.from
    pub has_end : p.seen end ≡ is_some h.until
    pub has_text : p.seen text ≡ is_some h.words
    pub seq_is : Holds h.number p.seq
    pub final_is : Holds h.finality p.final_value
    pub type_is : HoldsType h.kind p.type_value p.type_marks_finality
    pub start_is : Holds h.from p.start_sec
    pub end_is : Holds h.until p.end_sec
    pub text_is : Holds h.words p.text

  abbrev pub Matches : Option (Heard f.Double) → Result (Progress f.Double) → Type 0
  Matches none r = r ≡ err einval
  Matches (some h) r = (q : Progress f.Double) × ((r ≡ ok q) × Rel h q)
