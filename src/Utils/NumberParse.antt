-- ===== src/Utils/NumberParse.antt =====
-- src/utils/number_parse/number_parse.c: a checked decimal parser. The list is the span of
-- `text_len` bytes that `text` points to, `none` a NULL pointer; `has_value` is `value != NULL`.
pub mod Decimal
use subtitle_overlay_fw.Base.{
  ℕ, ◌+◌, ◌-◌, ◌*◌, ◌/◌, ◌%◌, ◌^◌, Bool, true, false, not, ◌||◌, Option, none, some, List, [], ◌∷◌,
  ltb, ◌==◌, if◌then◌else◌, length, Result, ok, err, einval, erange,
}

-- uint32_t arithmetic
abbrev pub u32 : ℕ → ℕ
u32 n = n % 2 ^ 32

-- The loop over `text[i]`, and the test after it.
unfoldable pub parse_digits : ℕ → ℕ → ℕ → List ℕ → Result ℕ
parse_digits min_value max_value parsed [] = if ltb parsed min_value then err erange else ok parsed
parse_digits min_value max_value parsed (c ∷ cs) =
    let digit = c - b'0' in
    let rest = parse_digits min_value max_value (u32 (parsed * 10 + digit)) cs in
    if ltb c b'0' || ltb b'9' c
    then err einval
    else if ltb max_value digit || ltb ((max_value - digit) / 10) parsed
    then err erange
    else rest

unfoldable pub number_parse_u32 : Option (List ℕ) → ℕ → ℕ → Bool → Result ℕ
number_parse_u32 none min_value max_value has_value = err einval
number_parse_u32 (some text) min_value max_value has_value =
    if length text == 0 || (not has_value || ltb max_value min_value)
    then err einval
    else parse_digits min_value max_value 0 text
