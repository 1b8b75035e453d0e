-- ===== src/Subtitle/Sanitize.antt =====
-- src/svc/subtitle_pipeline/subtitle_text_sanitize.c: text reduced to the characters of the font.
-- The input list is the C string without its terminator, which a read past its end finds as 0; the
-- result is what stands in `out` in front of the terminator.
pub mod Supported
pub mod Laws
use subtitle_overlay_fw.Base.{
  ℕ, zero, suc, ◌+◌, ◌-◌, Bool, true, false, not, ◌||◌, ◌&&◌, Option, none, some, List, [], ◌∷◌,
  ◌++◌, ltb, leb, between, ◌==◌, if◌then◌else◌, length, get_or, drop, Result, ok, err, einval,
}

unfoldable pub is_continuation : ℕ → Bool
is_continuation byte = between 0x80 0xbf byte

unfoldable pub encoded_length : ℕ → ℕ
encoded_length lead =
    if between 0xc2 0xdf lead
    then 2
    else if between 0xe0 0xef lead
    then 3
    else if between 0xf0 0xf4 lead
    then 4
    else 1

-- The `switch` of is_supported_spanish
abbrev pub spanish_c3 : ℕ → Bool
spanish_c3 c =
    c == 0x81
    || (c == 0x89
        || (c == 0x8d
            || (c == 0x91
                || (c == 0x93
                    || (c == 0x9a
                        || (c == 0x9c
                            || (c == 0xa1
                                || (c == 0xa9
                                    || (c == 0xad
                                        || (c == 0xb1
                                            || (c == 0xb3 || (c == 0xba || c == 0xbc))))))))))))

unfoldable pub is_supported_spanish : ℕ → ℕ → Bool
is_supported_spanish lead continuation =
    if lead == 0xc2 && (continuation == 0xa1 || continuation == 0xbf)
    then true
    else if not (lead == 0xc3)
    then false
    else spanish_c3 continuation

unfoldable pub normalize_ascii : ℕ → ℕ
normalize_ascii byte = if ltb byte 0x20 then b' ' else if byte == b'"' then b'\'' else byte

unfoldable pub emit_bytes : List ℕ → ℕ → List ℕ → List ℕ
emit_bytes out out_size bytes =
    if ltb (length out + length bytes) out_size then out ++ bytes else out

-- The replacement of E2 80 `punctuation`
unfoldable pub replace_punctuation : ℕ → List ℕ
replace_punctuation p =
    if between 0x98 0x9d p
    then b'\'' ∷ []
    else if p == 0x93 || p == 0x94
    then b'-' ∷ []
    else if p == 0xa6
    then b'.' ∷ b'.' ∷ b'.' ∷ []
    else b' ' ∷ []

-- How many more bytes of a malformed or unsupported sequence are skipped, at most `n`.
unfoldable pub continuations : ℕ → List ℕ → ℕ
continuations zero rest = 0
continuations (suc n) [] = 0
continuations (suc n) (c ∷ rest) = if is_continuation c then suc (continuations n rest) else 0

-- One round of the loop at `lead`, with the bytes behind it: what is emitted, and how many bytes of
-- input are consumed.
unfoldable pub round : ℕ → List ℕ → List ℕ × ℕ
round lead rest =
    let next = get_or rest 0 0 in
    let after = get_or rest 1 0 in
    if leb lead 0x7e
    then (normalize_ascii lead ∷ [], 1)
    else if (encoded_length lead == 2 && not (next == 0))
        && (is_continuation next && is_supported_spanish lead next)
    then (lead ∷ next ∷ [], 2)
    else if lead == 0xe2 && (next == 0x80 && not (after == 0))
    then (replace_punctuation after, 3)
    else (b' ' ∷ [], 1 + continuations (encoded_length lead - 1) rest)

-- The `while` loop on fuel, with the output so far.
unfoldable pub sanitize_loop : ℕ → List ℕ → ℕ → List ℕ → List ℕ
sanitize_loop zero input out_size out = out
sanitize_loop (suc n) [] out_size out = out
sanitize_loop (suc n) (lead ∷ rest) out_size out =
    let (bytes, consumed) = round lead rest in
    sanitize_loop n (drop consumed (lead ∷ rest)) out_size (emit_bytes out out_size bytes)

-- `none` is a NULL `in`, and `has_out` is `out != NULL`. Each round consumes a byte at least, so the
-- input's length is fuel enough.
unfoldable pub sanitize : Option (List ℕ) → Bool → ℕ → Result (List ℕ)
sanitize none has_out out_size = err einval
sanitize (some input) has_out out_size =
    if not has_out || out_size == 0
    then err einval
    else ok (sanitize_loop (length input) input out_size [])
