-- ===== src/Stt/WsFrame/Decode.antt =====
-- stt_ws_frame_decode.
pub mod Bounds
pub mod ServerFrame
pub mod Stable
use subtitle_overlay_fw.Base.{
  ℕ, zero, suc, ◌+◌, ◌-◌, ◌*◌, ◌/◌, ◌%◌, ◌^◌, Bool, true, false, not, ◌||◌, ◌&&◌, Option, none,
  some, List, ltb, ◌==◌, if◌then◌else◌, length, get_or, drop, Result, ok, err, einval, eagain,
  eproto, emsgsize, ◌>>=◌,
}

-- stt_ws_frame_t; `payload` is the buffer from the payload's first byte on, as the C pointer is.
pub record Frame : Type 0 where
  pub opcode : ℕ
  pub fin : Bool
  pub payload_len : ℕ
  pub header_len : ℕ
  pub payload : List ℕ

-- The loop over the eight length bytes, with the rounds left, in 64-bit arithmetic.
unfoldable pub be_loop : ℕ → ℕ → List ℕ → ℕ → ℕ
be_loop zero i bytes payload_len = payload_len
be_loop (suc n) i bytes payload_len =
    be_loop n (i + 1) bytes (payload_len * 256 % 2 ^ 64 + get_or bytes (2 + i) 0)

-- The two extended lengths: the header's size and the payload's length.
unfoldable pub read_16bit : List ℕ → Result (ℕ × ℕ)
read_16bit bytes =
    if ltb (length bytes) 4 then err eagain else ok (4, get_or bytes 2 0 * 256 + get_or bytes 3 0)

unfoldable pub read_64bit : List ℕ → Result (ℕ × ℕ)
read_64bit bytes =
    let payload_len = be_loop 8 0 bytes 0 in
    if ltb (length bytes) 10
    then err eagain
    else if payload_len / 2 ^ 63 == 0
    then ok (10, payload_len)
    else err eproto

unfoldable pub read_header : List ℕ → Result (ℕ × ℕ)
read_header bytes =
    let length_field = get_or bytes 1 0 % 128 in
    if length_field == 126
    then read_16bit bytes
    else if length_field == 127
    then read_64bit bytes
    else ok (2, length_field)

unfoldable pub finish : List ℕ → ℕ → ℕ → ℕ → Result Frame
finish bytes max_payload header payload_len =
    let first = get_or bytes 0 0 in
    let opcode = first % 16 in
    let is_control = opcode / 8 % 2 == 1 in
    if is_control && (ltb 125 payload_len || first / 128 % 2 == 0)
    then err eproto
    else if ltb max_payload payload_len
    then err emsgsize
    else if ltb (length bytes - header) payload_len
    then err eagain
    else ok (record {
      opcode = opcode;
      fin = not (first / 128 % 2 == 0);
      payload_len = payload_len;
      header_len = header;
      payload = drop header bytes;
    })

unfoldable pub decode_bytes : List ℕ → ℕ → Result Frame
decode_bytes bytes max_payload =
    if ltb (length bytes) 2
    then err eagain
    else if not (get_or bytes 0 0 / 16 % 8 == 0)
    then err eproto
    else if not (get_or bytes 1 0 / 128 % 2 == 0)
    then err eproto
    else read_header bytes >>= λ (h : ℕ × ℕ). finish bytes max_payload h.0 h.1

-- `none` is a NULL `data`, and `has_frame` is `frame != NULL`.
unfoldable pub decode : Option (List ℕ) → ℕ → Bool → Result Frame
decode none max_payload has_frame = err einval
decode (some bytes) max_payload has_frame =
    if has_frame then decode_bytes bytes max_payload else err einval
