-- ===== src/Stt/Json/Text.antt =====
-- Whitespace, tokens and strings in front of other text.
use subtitle_overlay_fw.Base.{
  ℕ, ◌≤◌, ◌≡◌, inl, inr, refl, Bool, true, false, ◌||◌, Bool-cases, Option, none, some, List, [],
  ◌∷◌, ◌++◌, append_assoc, ltb, ◌==◌, if◌then◌else◌, ok, arith,
}
use subtitle_overlay_fw.Stt.Json.{
  is_space, skip_whitespace, Written, nothing_written, unescape, put, string_loop, parse_string,
  trim, ends_token, token_span, scalar_span, is_zero_size,
}

-- Whitespace
abbrev pub IsBlank : List ℕ → Type 0
IsBlank [] = Unit
IsBlank (c ∷ cs) = (is_space c ≡ true) × IsBlank cs

-- Text that whitespace skipping leaves alone
abbrev pub IsInk : List ℕ → Type 0
IsInk [] = Unit
IsInk (c ∷ cs) = is_space c ≡ false

pub skip_whitespace-IsBlank :
    (sp xs : List ℕ) → IsBlank sp → IsInk xs → skip_whitespace (sp ++ xs) ≡ xs
unfolding skip_whitespace
skip_whitespace-IsBlank [] [] b i = refl
skip_whitespace-IsBlank [] (x ∷ xs) b i = rw i refl
skip_whitespace-IsBlank (c ∷ sp) xs b i = rw b.0 (skip_whitespace-IsBlank sp xs b.1 i)

-- The end of the text, or a character that ends a token
abbrev pub Delimited : List ℕ → Type 0
Delimited [] = Unit
Delimited (c ∷ cs) = ends_token c ≡ true

abbrev pub IsToken : List ℕ → Type 0
IsToken [] = Unit
IsToken (c ∷ cs) = (ends_token c ≡ false) × IsToken cs

pub token_span-IsToken :
    (token rest : List ℕ)
    → IsToken token
    → Delimited rest
    → token_span (token ++ rest) ≡ (token, rest)
unfolding token_span
token_span-IsToken [] [] t d = refl
token_span-IsToken [] (c ∷ cs) t d = rw d refl
token_span-IsToken (c ∷ token) rest t d = rw (t.0, token_span-IsToken token rest t.1 d) refl

pub scalar_span-IsToken :
    (c : ℕ) (cs rest : List ℕ)
    → IsToken (c ∷ cs)
    → Delimited rest
    → scalar_span (c ∷ (cs ++ rest)) ≡ ok (c ∷ cs, rest)
unfolding scalar_span
scalar_span-IsToken c cs rest t d = rw (token_span-IsToken (c ∷ cs) rest t d) refl

-- Characters that a JSON string may hold
abbrev pub IsPrintable : List ℕ → Type 0
IsPrintable [] = Unit
IsPrintable (c ∷ cs) = (0x20 ≤ c) × IsPrintable cs

-- A string as a sender writes it
abbrev needs_escape : ℕ → Bool
needs_escape c = c == b'"' || c == 92

unfoldable pub escape : List ℕ → List ℕ
escape [] = []
escape (c ∷ cs) = if needs_escape c then 92 ∷ c ∷ escape cs else c ∷ escape cs

unfoldable pub quote : List ℕ → List ℕ
quote t = b'"' ∷ (escape t ++ (b'"' ∷ []))

-- The stores of all its characters
unfoldable pub put_all : Option ℕ → List ℕ → Written → Written
put_all size [] w = w
put_all size (c ∷ cs) w = put_all size cs (put size c w)

unescape-special : (c : ℕ) → needs_escape c ≡ true → unescape c ≡ some c
unfolding unescape
unescape-special c h = ground arith

string_loop-escape :
    (size : Option ℕ) (t rest : List ℕ) (w : Written)
    → IsPrintable t
    → string_loop size false (escape t ++ (b'"' ∷ rest)) w ≡ ok (put_all size t w, rest)
unfolding string_loop escape put_all
string_loop-escape size [] rest w p = refl
string_loop-escape size (c ∷ cs) rest w p =
    let ih = string_loop-escape size cs rest (put size c w) p.1 in
    elim (Bool-cases (needs_escape c)) [
      | inl special ↦ rw (special, unescape-special c special) ih
      | inr plain ↦
          let quote_no : (c == b'"') ≡ false = ground (arith, plain) in
          let slash_no : (c == 92) ≡ false = ground (arith, plain) in
          let control_no : ltb c 32 ≡ false = ground (arith, p.0) in
          rw (plain, quote_no, slash_no, control_no) ih
    ]

-- What is read off a quoted string, for any size of the destination but 0
pub parse_string-quote :
    (size : Option ℕ) (t rest : List ℕ)
    → IsPrintable t
    → is_zero_size size ≡ false
    → let w = put_all size t nothing_written in
      parse_string size false (quote t ++ rest)
      ≡ ok ((if w.was_truncated then trim w.dst else w.dst, w.was_truncated), rest)
unfolding parse_string quote
parse_string-quote size t rest p z =
    rw
      (
        z,
        append_assoc (escape t) (b'"' ∷ []) rest,
        string_loop-escape size t rest nothing_written p,
      )
      refl

put-non_empty : (size : Option ℕ) (c : ℕ) (w : Written) → (put size c w).non_empty ≡ true
unfolding put
put-non_empty none c w = refl
put-non_empty (some size) c w = ground arith

put_all-non_empty :
    (size : Option ℕ) (t : List ℕ) (w : Written)
    → w.non_empty ≡ true
    → (put_all size t w).non_empty ≡ true
unfolding put_all
put_all-non_empty size [] w h = h
put_all-non_empty size (c ∷ cs) w h =
    put_all-non_empty size cs (put size c w) (put-non_empty size c w)

-- The same where the string must not be empty, and is not
pub parse_string-quote_nonempty :
    (size : Option ℕ) (c : ℕ) (cs rest : List ℕ)
    → IsPrintable (c ∷ cs)
    → is_zero_size size ≡ false
    → let w = put_all size (c ∷ cs) nothing_written in
      parse_string size true (quote (c ∷ cs) ++ rest)
      ≡ ok ((if w.was_truncated then trim w.dst else w.dst, w.was_truncated), rest)
unfolding parse_string quote put_all
parse_string-quote_nonempty size c cs rest p z =
    let t = c ∷ cs in
    let w = put_all size t nothing_written in
    let loop = string_loop-escape size t rest nothing_written p in
    let filled : w.non_empty ≡ true =
      put_all-non_empty size cs (put size c nothing_written)
        (put-non_empty size c nothing_written) in
    rw (z, append_assoc (escape t) (b'"' ∷ []) rest, loop, filled) refl
