-- ===== src/Stt/WsFrame/Decode/Bounds.antt =====
-- Where a decoded frame lies in the receive buffer.
use subtitle_overlay_fw.Base.{
  ℕ, ◌+◌, ◌≤◌, ◌<◌, ◌≡◌, ◌⊎◌, refl, true, some, List, arith, length, drop, ok, err, Result, ◌>>=◌,
}
use subtitle_overlay_fw.Stt.WsFrame.Decode.{
  Frame, read_16bit, read_64bit, read_header, finish, decode_bytes, decode,
}

-- What holds of a decoded frame in a buffer.
pub record InBuffer (bytes : List ℕ) (max_payload : ℕ) (f : Frame) : Type 0 where
  pub inside : f.header_len + f.payload_len ≤ length bytes
  pub limit : f.payload_len ≤ max_payload
  pub pointer : f.payload ≡ drop f.header_len bytes
  pub control : (f.opcode < 8) ⊎ ((f.fin ≡ true) × (f.payload_len ≤ 125))

read_header-bounds :
    (bytes : List ℕ) {header n : ℕ}
    → 2 ≤ length bytes
    → read_header bytes ≡ ok (header, n)
    → header ≤ length bytes
unfolding read_header read_16bit read_64bit
read_header-bounds bytes two e = ground arith

finish-bounds :
    (bytes : List ℕ) (max header n : ℕ) {f : Frame}
    → header ≤ length bytes
    → finish bytes max header n ≡ ok f
    → InBuffer bytes max f
unfolding finish
finish-bounds bytes max header n le e = ground arith

-- A decoded frame lies inside the buffer and keeps to the limit, its payload pointer is the first
-- byte behind the header, and a control frame is final with at most 125 bytes.
pub decode_bounds :
    (bytes : List ℕ) (max_payload : ℕ) {f : Frame}
    → decode (some bytes) max_payload true ≡ ok f
    → InBuffer bytes max_payload f
unfolding decode decode_bytes
decode_bounds bytes max {f} e = go (read_header bytes) refl (ground arith)
  where
    go :
        (h : Result (ℕ × ℕ))
        → read_header bytes ≡ h
        → (2 ≤ length bytes) × ((h >>= λ (p : ℕ × ℕ). finish bytes max p.0 p.1) ≡ ok f)
        → InBuffer bytes max f
    go (ok (header, n)) r (two, d) =
        finish-bounds bytes max header n (read_header-bounds bytes two r) d
    go (err x) r (two, d) = cc
