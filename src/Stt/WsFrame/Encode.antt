-- ===== src/Stt/WsFrame/Encode.antt =====
-- stt_ws_frame_encode. The result is the C result and the bytes written to `out`. The board is of 32
-- bits: sums of size_t wrap at 2^32, and an int has 32 bits.
pub mod ReadBack
use Prim.Native.Nat.{bit_xor}
use subtitle_overlay_fw.Base.{
  ℕ, ◌+◌, ◌-◌, ◌*◌, ◌/◌, ◌%◌, ◌^◌, Bool, true, false, not, ◌||◌, ◌&&◌, Option, none, some, List, [],
  ◌∷◌, ◌++◌, ltb, ◌==◌, if◌then◌else◌, length, take, Result, ok, err, einval, enobufs,
}
use subtitle_overlay_fw.Base.Int.{ℤ, pos, negsuc}

-- WS_CONTROL_MAX and UINT16_MAX
abbrev pub control_max : ℕ
control_max = 125

abbrev pub uint16_max : ℕ
uint16_max = 65535

-- Byte `k` of a number, the lowest first, as the C shifts and casts take it.
abbrev pub byte_of : ℕ → ℕ → ℕ
byte_of v k = v / 2 ^ (8 * k) % 256

-- mask[i], for i below 4
unfoldable pub mask_byte : ℕ → ℕ → ℕ
mask_byte mask_key i = mask_key / 2 ^ (24 - i * 8) % 256

-- out[1] and the extended length behind it
unfoldable pub length_bytes : ℕ → List ℕ
length_bytes n =
    if ltb uint16_max n
    then (128 + 127)
      ∷ byte_of n 7
      ∷ byte_of n 6
      ∷ byte_of n 5
      ∷ byte_of n 4
      ∷ byte_of n 3
      ∷ byte_of n 2
      ∷ byte_of n 1
      ∷ byte_of n 0
      ∷ []
    else if ltb control_max n
    then (128 + 126) ∷ byte_of n 1 ∷ byte_of n 0 ∷ []
    else (128 + n) ∷ []

-- The masking loop; `i` is the index into the payload.
unfoldable pub mask_payload : ℕ → ℕ → List ℕ → List ℕ
mask_payload mask_key i [] = []
mask_payload mask_key i (c ∷ cs) =
    bit_xor c (mask_byte mask_key (i % 4)) ∷ mask_payload mask_key (i + 1) cs

abbrev pub mask_bytes : ℕ → List ℕ
mask_bytes key = mask_byte key 0 ∷ mask_byte key 1 ∷ mask_byte key 2 ∷ mask_byte key 3 ∷ []

-- The header with the mask
abbrev pub header_size : ℕ → ℕ
header_size n = (if ltb uint16_max n then 10 else if ltb control_max n then 4 else 2) + 4

-- A conversion of size_t to int
abbrev pub to_int : ℕ → ℤ
to_int n = if ltb n (2 ^ 31) then pos n else negsuc (2 ^ 32 - n - 1)

-- The bytes at `payload`, of which `payload_len` are read; `none` is a NULL pointer.
abbrev pub source : Option (List ℕ) → List ℕ
source none = []
source (some bytes) = bytes

abbrev pub is_null : Option (List ℕ) → Bool
is_null none = true
is_null (some bytes) = false

-- `has_out` is `out != NULL`. `opcode & 0x08` marks a control frame.
unfoldable pub encode : Bool → ℕ → ℕ → Option (List ℕ) → ℕ → ℕ → Result (ℤ × List ℕ)
encode has_out out_size opcode payload payload_len mask_key =
    let total = (header_size payload_len + payload_len) % 2 ^ 32 in
    if not has_out || (is_null payload && ltb 0 payload_len)
    then err einval
    else if opcode / 8 % 2 == 1 && ltb control_max payload_len
    then err einval
    else if ltb out_size total
    then err enobufs
    else ok (
      to_int total,
      (128 + opcode % 16)
          ∷ (length_bytes payload_len
              ++ (mask_bytes mask_key
                  ++ mask_payload mask_key 0 (take payload_len (source payload)))),
    )
