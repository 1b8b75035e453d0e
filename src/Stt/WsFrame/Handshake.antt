-- ===== src/Stt/WsFrame/Handshake.antt =====
-- The opening handshake of stt_ws_frame.c: the accept value and the check of the server's response.
-- stt_ws_handshake_build_request, which prints the request, is left out.
pub mod Stable
use subtitle_overlay_fw.Base.{
  ℕ, zero, suc, ◌+◌, ◌-◌, ◌*◌, Bool, true, false, not, ◌||◌, ◌&&◌, Option, none, some, List, [],
  ◌∷◌, ◌++◌, ltb, ◌==◌, between, if◌then◌else◌, length, take, drop, Result, ok, err, einval, eagain,
  eproto,
}
use subtitle_overlay_fw.Stt.WsFrame.Base64.{base64_encode}
use subtitle_overlay_fw.Stt.WsFrame.Sha1.{sha1_init, sha1_update, sha1_final}

-- memcmp(a, b, n) == 0 on strings of n bytes
unfoldable pub same : List ℕ → List ℕ → Bool
same [] [] = true
same [] (y ∷ ys) = false
same (x ∷ xs) [] = false
same (x ∷ xs) (y ∷ ys) = x == y && same xs ys

-- WS_ACCEPT_GUID
abbrev pub accept_guid : List ℕ
accept_guid =
    50 ∷ 53 ∷ 56 ∷ 69 ∷ 65 ∷ 70 ∷ 65 ∷ 53 ∷ 45 ∷ 69 ∷ 57 ∷ 49 ∷ 52 ∷ 45 ∷ 52 ∷ 55 ∷ 68 ∷ 65 ∷ 45
    ∷ 57 ∷ 53 ∷ 67 ∷ 65 ∷ 45 ∷ 67 ∷ 53 ∷ 65 ∷ 66 ∷ 48 ∷ 68 ∷ 67 ∷ 56 ∷ 53 ∷ 66 ∷ 49 ∷ 49 ∷ []

-- stt_ws_handshake_accept_for_key; `none` is a NULL key, `has_out` is `out != NULL`.
unfoldable pub accept_for_key : Option (List ℕ) → Bool → ℕ → Result (List ℕ)
accept_for_key none has_out out_size = err einval
accept_for_key (some key) has_out out_size =
    if has_out
    then base64_encode (sha1_final (sha1_update (sha1_update sha1_init key) accept_guid)) out_size
    else err einval

-- The loop of find_header_end, from index `i` on
unfoldable pub find_header_end : ℕ → List ℕ → ℕ
find_header_end i (a ∷ b ∷ c ∷ d ∷ rest) =
    if a == 13 && (b == 10 && (c == 13 && d == 10))
    then i + 4
    else find_header_end (i + 1) (b ∷ c ∷ d ∷ rest)
find_header_end i _ = 0

-- "HTTP/1." and " 101"
abbrev pub status_prefix : List ℕ
status_prefix = 72 ∷ 84 ∷ 84 ∷ 80 ∷ 47 ∷ 49 ∷ 46 ∷ []

abbrev pub status_code : List ℕ
status_code = 32 ∷ 49 ∷ 48 ∷ 49 ∷ []

unfoldable pub response_status_is_101 : List ℕ → Bool
unfolding same
response_status_is_101 response =
    if ltb (length response) (7 + 5) || not (same (take 7 response) status_prefix)
    then false
    else same (take 4 (drop 8 response)) status_code

-- tolower
abbrev pub to_lower : ℕ → ℕ
to_lower c = if between 65 90 c then c + 32 else c

abbrev pub lowered : List ℕ → List ℕ
lowered [] = []
lowered (c ∷ cs) = to_lower c ∷ lowered cs

-- "sec-websocket-accept:"
abbrev pub accept_name : List ℕ
accept_name =
    115 ∷ 101 ∷ 99 ∷ 45 ∷ 119 ∷ 101 ∷ 98 ∷ 115 ∷ 111 ∷ 99 ∷ 107 ∷ 101 ∷ 116 ∷ 45 ∷ 97 ∷ 99 ∷ 99
    ∷ 101 ∷ 112 ∷ 116 ∷ 58 ∷ []

unfoldable pub skip_blanks : List ℕ → List ℕ
skip_blanks [] = []
skip_blanks (c ∷ cs) = if c == 32 || c == 9 then skip_blanks cs else c ∷ cs

unfoldable pub until_line_end : List ℕ → List ℕ
until_line_end [] = []
until_line_end (c ∷ cs) = if c == 13 || c == 10 then [] else c ∷ until_line_end cs

-- The loop of accept_header_matches at the headers from index i on; `line_start` is
-- `i == 0 || headers[i - 1] == '\n'`.
unfoldable pub accept_header_matches : Bool → List ℕ → List ℕ → Bool
unfolding same skip_blanks until_line_end
accept_header_matches line_start [] expected = false
accept_header_matches line_start (c ∷ cs) expected =
    if ltb (length (c ∷ cs)) 21
    then false
    else if line_start && same (lowered (take 21 (c ∷ cs))) accept_name
    then same (until_line_end (skip_blanks (drop 21 (c ∷ cs)))) expected
    else accept_header_matches (c == 10) cs expected

-- stt_ws_handshake_validate_response: the header length on success. `none` is a NULL pointer.
unfoldable pub validate_bytes : List ℕ → List ℕ → Result ℕ
validate_bytes response expected =
    let end_ = find_header_end 0 response in
    if end_ == 0
    then err eagain
    else if not (response_status_is_101 (take end_ response))
    then err eproto
    else if not (accept_header_matches true (take end_ response) expected)
    then err eproto
    else ok end_

unfoldable pub validate_response : Option (List ℕ) → Option (List ℕ) → Bool → Result ℕ
validate_response (some response) (some expected) has_header_len =
    if has_header_len then validate_bytes response expected else err einval
validate_response _ _ has_header_len = err einval
