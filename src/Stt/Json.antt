-- ===== src/Stt/Json.antt =====
-- src/svc/stt/stt_json.c: a cursor over JSON text. The cursor is the list of the characters from it
-- up to the terminating NUL; a function returns the cursor behind what it read. No caller looks at
-- the cursor again after a failure, so a failure has none.
pub mod Text
pub mod Tree
pub mod Pieces
pub mod Skip
pub mod Truncate
use subtitle_overlay_fw.Base.{
  ℕ, zero, suc, ◌+◌, ◌*◌, ◌-◌, Bool, true, false, not, ◌||◌, ◌&&◌, Option, none, some, List, [],
  ◌∷◌, ◌++◌, ltb, leb, between, ◌==◌, if◌then◌else◌, length, get_or, take, Result, ok, err, einval,
}
use subtitle_overlay_fw.Utils.NumberParse.{number_parse_u32}

-- `double`, strtod and the arithmetic on doubles that the STT code uses. `strtod` gives the value of
-- a token that it consumes whole without ERANGE, if that value is finite.
pub record Floating : Type 1 where
  pub Double : Type 0
  pub strtod : List ℕ → Option Double
  pub of_nat : ℕ → Double
  pub half : Double
  pub add : Double → Double → Double
  pub subtract : Double → Double → Double
  pub multiply : Double → Double → Double
  pub divide : Double → Double → Double
  pub less : Double → Double → Bool
  pub to_u32 : Double → ℕ

-- STT_JSON_MAX_DEPTH and STT_JSON_TOKEN_MAX
abbrev pub max_depth : ℕ
max_depth = 4

abbrev pub token_max : ℕ
token_max = 64

-- isspace in the C locale
abbrev pub is_space : ℕ → Bool
is_space c = c == 32 || between 9 13 c

unfoldable pub skip_whitespace : List ℕ → List ℕ
skip_whitespace [] = []
skip_whitespace (c ∷ cs) = let rest = skip_whitespace cs in if is_space c then rest else c ∷ cs

-- The destination of stt_json_parse_string so far: `dst` up to `out`, and the two flags.
pub record Written : Type 0 where
  pub dst : List ℕ
  pub non_empty : Bool
  pub was_truncated : Bool

abbrev pub nothing_written : Written
nothing_written = record { dst = []; non_empty = false; was_truncated = false }

-- The `switch` on the character behind a backslash
unfoldable pub unescape : ℕ → Option ℕ
unescape ch =
    if ch == b'b' || (ch == b'f' || (ch == b'n' || (ch == b'r' || ch == b't')))
    then some 32
    else if ch == b'"' || (ch == 92 || ch == b'/')
    then some ch
    else none

-- The store of one character; the size is `none` for a NULL destination.
unfoldable pub put : Option ℕ → ℕ → Written → Written
put none ch w = record w { non_empty = true }
put (some dst_size) ch w =
    if ltb (length w.dst + 1) dst_size
    then record w { dst = w.dst ++ (ch ∷ []); non_empty = true }
    else record w { was_truncated = true; non_empty = true }

-- The loop behind the opening quote, up to the closing one. The flag is whether the character
-- before was an unescaped backslash.
unfoldable pub string_loop : Option ℕ → Bool → List ℕ → Written → Result (Written × List ℕ)
string_loop dst_size escaped [] w = err einval
string_loop dst_size true (c ∷ cs) w = elim (unescape c) [
  | none ↦ err einval
  | some ch ↦ string_loop dst_size false cs (put dst_size ch w)
]
string_loop dst_size false (c ∷ cs) w =
    let escape = c == 92 in
    let rest = string_loop dst_size escape cs (if escape then w else put dst_size c w) in
    if c == b'"' then ok (w, cs) else if ltb c 0x20 then err einval else rest

-- The `while` loop over trailing continuation bytes, from index `i` down
unfoldable pub skip_back : List ℕ → ℕ → ℕ
skip_back dst zero = 0
skip_back dst (suc i) =
    let rest = skip_back dst i in if between 0x80 0xbf (get_or dst i 0) then rest else suc i

-- The length that a lead byte announces; 0 for a byte that leads nothing
unfoldable pub expected_length : ℕ → ℕ
expected_length lead =
    if ltb lead 0x80
    then 1
    else if between 0xc0 0xdf lead
    then 2
    else if between 0xe0 0xef lead
    then 3
    else if between 0xf0 0xf7 lead
    then 4
    else 0

unfoldable pub trim : List ℕ → List ℕ
trim dst =
    let i = skip_back dst (length dst) in
    let lead_idx = i - 1 in
    let expected = expected_length (get_or dst lead_idx 0) in
    if i == 0
    then dst
    else if expected == 0 || ltb (length dst - lead_idx) expected
    then take lead_idx dst
    else dst

abbrev pub is_zero_size : Option ℕ → Bool
is_zero_size none = false
is_zero_size (some n) = n == 0

-- What is left in `dst`, whether it was truncated, and the cursor
unfoldable pub parse_string : Option ℕ → Bool → List ℕ → Result ((List ℕ × Bool) × List ℕ)
parse_string dst_size require_non_empty [] = err einval
parse_string dst_size require_non_empty (c ∷ cs) =
    if not (c == b'"') || is_zero_size dst_size
    then err einval
    else elim (string_loop dst_size false cs nothing_written) [
      | err e ↦ err e
      | ok r ↦
          let (w, rest) = r in
          if not require_non_empty || w.non_empty
          then ok ((if w.was_truncated then trim w.dst else w.dst, w.was_truncated), rest)
          else err einval
    ]

abbrev pub ends_token : ℕ → Bool
ends_token c = c == b',' || (c == b'}' || (c == b']' || is_space c))

-- The token and the cursor behind it, the token possibly empty
unfoldable pub token_span : List ℕ → List ℕ × List ℕ
token_span [] = ([], [])
token_span (c ∷ cs) =
    let (token, rest) = token_span cs in if ends_token c then ([], c ∷ cs) else (c ∷ token, rest)

abbrev pub non_empty_token : List ℕ × List ℕ → Result (List ℕ × List ℕ)
non_empty_token ([], rest) = err einval
non_empty_token (c ∷ cs, rest) = ok (c ∷ cs, rest)

unfoldable pub scalar_span : List ℕ → Result (List ℕ × List ℕ)
scalar_span cursor = non_empty_token (token_span cursor)

-- A value read from a token, with the cursor behind the token
abbrev pub behind {ℓ} : {A : Type ℓ} → Result A → List ℕ → Result (A × List ℕ)
behind (ok a) rest = ok (a, rest)
behind (err e) rest = err e

unfoldable pub parse_u32 : List ℕ → Result (ℕ × List ℕ)
parse_u32 cursor = elim (scalar_span cursor) [
  | err e ↦ err e
  | ok r ↦ let (token, rest) = r in behind (number_parse_u32 (some token) 0 4294967295 true) rest
]

-- memcmp with a literal of the same length
unfoldable pub same : List ℕ → List ℕ → Bool
same [] [] = true
same [] (y ∷ ys) = false
same (x ∷ xs) [] = false
same (x ∷ xs) (y ∷ ys) = x == y && same xs ys

-- "true", "false" and "null"
abbrev pub true_token : List ℕ
true_token = b't' ∷ b'r' ∷ b'u' ∷ b'e' ∷ []

abbrev pub false_token : List ℕ
false_token = b'f' ∷ b'a' ∷ b'l' ∷ b's' ∷ b'e' ∷ []

abbrev pub null_token : List ℕ
null_token = b'n' ∷ b'u' ∷ b'l' ∷ b'l' ∷ []

unfoldable pub bool_of : List ℕ → Result Bool
bool_of token =
    if same token true_token
    then ok true
    else if same token false_token
    then ok false
    else if same token (b'0' ∷ []) || same token (b'1' ∷ [])
    then ok (same token (b'1' ∷ []))
    else err einval

unfoldable pub parse_bool : List ℕ → Result (Bool × List ℕ)
parse_bool cursor = elim (scalar_span cursor) [
  | err e ↦ err einval
  | ok r ↦ let (token, rest) = r in behind (bool_of token) rest
]

-- A token that may be a number
abbrev pub starts_number : List ℕ → Bool
starts_number [] = false
starts_number (c ∷ cs) = c == b'-' || between b'0' b'9' c

-- The key of a member and the colon behind it
unfoldable pub skip_key : List ℕ → Result (List ℕ)
skip_key cursor = elim (parse_string none false cursor) [
  | err e ↦ err e
  | ok r ↦ elim (skip_whitespace r.1) [
    | [] ↦ err einval
    | c ∷ cs ↦ if c == b':' then ok (skip_whitespace cs) else err einval
  ]
]

-- What a value starts with
pub data Kind : Type 0 where
  container : Bool → Kind
  text scalar : Kind

abbrev pub kind_of : ℕ → Kind
kind_of c =
    if c == b'['
    then container false
    else if c == b'{'
    then container true
    else if c == b'"'
    then text
    else scalar

abbrev pub closing : Bool → ℕ
closing true = b'}'
closing false = b']'

-- The cursor behind the closing bracket, if that comes first
abbrev pub empty_container : Bool → List ℕ → Option (List ℕ)
empty_container is_object [] = none
empty_container is_object (c ∷ cs) = if c == closing is_object then some cs else none

-- What stands behind a member: a comma, which the cursor passes with the whitespace behind it, or
-- the closing bracket.
pub data After : Type 0 where
  comma closed : List ℕ → After
  malformed : After

unfoldable pub after_member : Bool → List ℕ → After
after_member is_object [] = malformed
after_member is_object (c ∷ cs) =
    if c == b','
    then comma (skip_whitespace cs)
    else if c == closing is_object
    then closed cs
    else malformed

module _ (f : Floating) where
  abbrev pub finite : Option f.Double → Result f.Double
  finite none = err einval
  finite (some x) = ok x

  unfoldable pub double_of : List ℕ → Result f.Double
  double_of token =
      if leb token_max (length token) || not (starts_number token)
      then err einval
      else finite (f.strtod token)

  unfoldable pub parse_double : List ℕ → Result (f.Double × List ℕ)
  parse_double cursor = elim (scalar_span cursor) [
    | err e ↦ err einval
    | ok r ↦ let (token, rest) = r in behind (double_of token) rest
  ]

  -- A scalar that is no string
  unfoldable pub skip_scalar : List ℕ → Result (List ℕ)
  skip_scalar cursor = elim (scalar_span cursor) [
    | err e ↦ err einval
    | ok r ↦
        let (token, rest) = r in
        let number = double_of token in
        if same token true_token || (same token null_token || same token false_token)
        then ok rest
        else elim number [ err e ↦ err e | ok x ↦ ok rest ]
  ]

  -- json_skip_value_at and json_skip_container, whose loop is `skip_members`; the flag is
  -- `opening == '{'`. The first argument is fuel: more than twice the characters left is enough.
  unfoldable mutual
    pub skip_value_at : ℕ → ℕ → List ℕ → Result (List ℕ)
    skip_value_at zero depth cursor = err einval
    skip_value_at (suc n) depth [] = err einval
    skip_value_at (suc n) depth (c ∷ cs) = elim (kind_of c) [
      | container is_object ↦ elim (leb max_depth depth) [
        | true ↦ err einval
        | false ↦ elim (empty_container is_object (skip_whitespace cs)) [
          | some rest ↦ ok rest
          | none ↦ skip_members n depth is_object (skip_whitespace cs)
        ]
      ]
      | text ↦ elim (parse_string none false (c ∷ cs)) [ err e ↦ err e | ok r ↦ ok r.1 ]
      | scalar ↦ skip_scalar (c ∷ cs)
    ]

    pub skip_members : ℕ → ℕ → Bool → List ℕ → Result (List ℕ)
    skip_members zero depth is_object cursor = err einval
    skip_members (suc n) depth is_object cursor =
        elim (if is_object then skip_key cursor else ok cursor) [
          | err e ↦ err e
          | ok value ↦ elim (skip_value_at n (depth + 1) value) [
            | err e ↦ err e
            | ok rest ↦ elim (after_member is_object (skip_whitespace rest)) [
              | comma next ↦ skip_members n depth is_object next
              | closed rest' ↦ ok rest'
              | malformed ↦ err einval
            ]
          ]
        ]

  unfoldable pub skip_value : List ℕ → Result (List ℕ)
  skip_value cursor = skip_value_at (2 * length cursor + 1) 0 cursor
