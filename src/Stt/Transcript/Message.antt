-- ===== src/Stt/Transcript/Message.antt =====
-- A transcript message as a list of members in any order and its text, and how the code takes them in.
use subtitle_overlay_fw.Base.{
  ℕ, ◌≤◌, ◌≢◌, Bool, true, Option, none, some, List, [], ◌∷◌, ◌++◌, if◌then◌else◌, Result, ok, err,
  einval,
}
use subtitle_overlay_fw.Utils.NumberParse.Decimal.{IsDigits, decimal}
use subtitle_overlay_fw.Stt.EventRing.{TextEvent}
use subtitle_overlay_fw.Stt.Json.{Floating, true_token, false_token, max_depth}
use subtitle_overlay_fw.Stt.Json.Text.{IsPrintable, quote}
use subtitle_overlay_fw.Stt.Json.Truncate.{AreCodePoints, join, fit_whole}
use subtitle_overlay_fw.Stt.Json.Tree.{Json, print, IsNumber, IsWellFormed}
use subtitle_overlay_fw.Stt.Transcript.{
  Field, seq, type, start, end, text, Dialect, partial, transcript, Progress, set_type, mark, begin,
  finish,
}

-- A number by its token, a text by its code points; a member of another key holds any value.
pub data Entry : Type 0 where
  seq_entry : List ℕ → Entry
  final_entry : Bool → Entry
  type_entry : Dialect → Entry
  start_entry end_entry : List ℕ → Entry
  text_entry : List (List ℕ) → Entry
  other_entry : List ℕ → Json → Entry

abbrev pub entry_field : Entry → Option Field
entry_field (seq_entry token) = some seq
entry_field (final_entry b) = some Field.final
entry_field (type_entry d) = some type
entry_field (start_entry token) = some start
entry_field (end_entry token) = some end
entry_field (text_entry ps) = some text
entry_field (other_entry key v) = none

-- "seq", "is_final", "type", "start_sec", "end_sec" and "text", as the server writes them
abbrev pub seq_name : List ℕ
seq_name = b's' ∷ b'e' ∷ b'q' ∷ []

abbrev pub final_name : List ℕ
final_name = b'i' ∷ b's' ∷ b'_' ∷ b'f' ∷ b'i' ∷ b'n' ∷ b'a' ∷ b'l' ∷ []

abbrev pub type_name : List ℕ
type_name = b't' ∷ b'y' ∷ b'p' ∷ b'e' ∷ []

abbrev pub start_name : List ℕ
start_name = b's' ∷ b't' ∷ b'a' ∷ b'r' ∷ b't' ∷ b'_' ∷ b's' ∷ b'e' ∷ b'c' ∷ []

abbrev pub end_name : List ℕ
end_name = b'e' ∷ b'n' ∷ b'd' ∷ b'_' ∷ b's' ∷ b'e' ∷ b'c' ∷ []

abbrev pub text_name : List ℕ
text_name = b't' ∷ b'e' ∷ b'x' ∷ b't' ∷ []

-- A key that is none of the six
abbrev pub IsOther : List ℕ → Type 0
IsOther key =
    (key ≢ seq_name)
    × ((key ≢ final_name)
        × ((key ≢ type_name) × ((key ≢ start_name) × ((key ≢ end_name) × (key ≢ text_name)))))

abbrev pub entry_key : Entry → List ℕ
entry_key (seq_entry token) = seq_name
entry_key (final_entry b) = final_name
entry_key (type_entry d) = type_name
entry_key (start_entry token) = start_name
entry_key (end_entry token) = end_name
entry_key (text_entry ps) = text_name
entry_key (other_entry key v) = key

-- The three values of "type"
abbrev pub type_word : Dialect → List ℕ
type_word Dialect.final = b'f' ∷ b'i' ∷ b'n' ∷ b'a' ∷ b'l' ∷ []
type_word partial = b'p' ∷ b'a' ∷ b'r' ∷ b't' ∷ b'i' ∷ b'a' ∷ b'l' ∷ []
type_word transcript = b't' ∷ b'r' ∷ b'a' ∷ b'n' ∷ b's' ∷ b'c' ∷ b'r' ∷ b'i' ∷ b'p' ∷ b't' ∷ []

module _ (sp : List ℕ) where
  abbrev pub print_value : Entry → List ℕ
  print_value (seq_entry token) = token
  print_value (final_entry b) = if b then true_token else false_token
  print_value (type_entry d) = quote (type_word d)
  print_value (start_entry token) = token
  print_value (end_entry token) = token
  print_value (text_entry ps) = quote (join ps)
  print_value (other_entry key v) = print sp v

  -- A member in front of `rest`
  unfoldable pub print_entry : Entry → List ℕ → List ℕ
  print_entry e rest = quote (entry_key e) ++ (sp ++ b':' ∷ (sp ++ (print_value e ++ rest)))

  -- What stands behind a member: the other members, the closing bracket and whitespace
  unfoldable pub print_after : List Entry → List ℕ
  print_after [] = sp ++ b'}' ∷ sp
  print_after (e ∷ es) = sp ++ b',' ∷ (sp ++ print_entry e (print_after es))

  unfoldable pub print_message : List Entry → List ℕ
  print_message [] = sp ++ b'{' ∷ (sp ++ b'}' ∷ sp)
  print_message (e ∷ es) = sp ++ b'{' ∷ (sp ++ print_entry e (print_after es))

module _ (f : Floating) where
  -- What the members must look like: numbers are in range or read whole, texts are UTF-8 without
  -- control characters, and a key that is none of the six has a well-formed value.
  abbrev pub IsEntry : Entry → Type 0
  IsEntry (seq_entry []) = ⊥
  IsEntry (seq_entry (c ∷ cs)) = IsDigits (c ∷ cs) × (decimal (c ∷ cs) ≤ 4294967295)
  IsEntry (start_entry token) = IsNumber f token
  IsEntry (end_entry token) = IsNumber f token
  IsEntry (text_entry []) = ⊥
  IsEntry (text_entry (p ∷ ps)) = AreCodePoints (p ∷ ps) × IsPrintable (join (p ∷ ps))
  IsEntry (other_entry key v) = IsPrintable key × (IsOther key × IsWellFormed f max_depth v)
  IsEntry _ = Unit

  abbrev pub AreEntries : List Entry → Type 0
  AreEntries [] = Unit
  AreEntries (e ∷ es) = IsEntry e × AreEntries es

  abbrev pub double_or : f.Double → Option f.Double → f.Double
  double_or d none = d
  double_or d (some x) = x

  abbrev pub store : Entry → Progress f.Double → Progress f.Double
  store (seq_entry token) p = record p { seq = decimal token }
  store (final_entry b) p = record p { final_value = b }
  store (type_entry d) p = set_type d p
  store (start_entry token) p = record p { start_sec = double_or p.start_sec (f.strtod token) }
  store (end_entry token) p = record p { end_sec = double_or p.end_sec (f.strtod token) }
  store (text_entry ps) p = record p { text = fit_whole 127 ps }
  store (other_entry key v) p = p

  -- A key that comes twice is an error.
  abbrev pub take_in : Option Field → Entry → Progress f.Double → Result (Progress f.Double)
  take_in none e p = ok p
  take_in (some field) e p = if p.seen field then err einval else ok (mark field (store e p))

  unfoldable pub take_in_all : List Entry → Progress f.Double → Result (Progress f.Double)
  take_in_all [] p = ok p
  take_in_all (e ∷ es) p = elim (take_in (entry_field e) e p) [
    | err err' ↦ err err'
    | ok q ↦ take_in_all es q
  ]

  -- What the loop and the checks behind it make of the members
  unfoldable pub meaning : List Entry → Result TextEvent
  meaning es = elim (take_in_all es (begin f)) [ err e ↦ err e | ok p ↦ finish f p true ]
