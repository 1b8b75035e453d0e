-- ===== src/Stt/WsFrame/Decode/ServerFrame.antt =====
-- stt_ws_frame_decode on the frames that a server sends, whole or in part.
use subtitle_overlay_fw.Base.{
  ℕ, suc, ◌+◌, ◌/◌, ◌%◌, ◌^◌, ◌≤◌, ◌<◌, ◌≡◌, ◌≢◌, ◌⊎◌, refl, sym, ap, ◌∙◌, Bool, true, false, some,
  List, [], ◌∷◌, ◌++◌, arith, ltb, ◌==◌, if◌then◌else◌, length, length-append, get_or, drop, ok,
  err, einval, eagain, eproto, emsgsize, enobufs, erange, eio, Result, Bool-cases, inl, inr,
  append_assoc, append-nil,
}
use subtitle_overlay_fw.Stt.WsFrame.Encode.{byte_of}
use subtitle_overlay_fw.Stt.WsFrame.Decode.{
  Frame, be_loop, read_16bit, read_64bit, read_header, finish, decode_bytes, decode,
}
use subtitle_overlay_fw.Stt.WsFrame.Decode.Bounds.{decode_bounds}
use subtitle_overlay_fw.Stt.WsFrame.Decode.Stable.{Extends, decode_stable}

-- The shortest length field of RFC 6455, section 5.2, with the mask bit clear.
abbrev pub server_length : ℕ → List ℕ
server_length n =
    if ltb 65535 n
    then 127
      ∷ byte_of n 7
      ∷ byte_of n 6
      ∷ byte_of n 5
      ∷ byte_of n 4
      ∷ byte_of n 3
      ∷ byte_of n 2
      ∷ byte_of n 1
      ∷ byte_of n 0
      ∷ []
    else if ltb 125 n
    then 126 ∷ byte_of n 1 ∷ byte_of n 0 ∷ []
    else n ∷ []

abbrev pub server_frame : Bool → ℕ → List ℕ → List ℕ
server_frame fin opcode payload =
    ((if fin then 128 else 0) + opcode) ∷ (server_length (length payload) ++ payload)

-- The frame that a decoder should find in front of `rest`.
abbrev pub decoded : Bool → ℕ → List ℕ → List ℕ → Frame
decoded fin opcode payload rest = record {
  opcode = opcode;
  fin = fin;
  payload_len = length payload;
  header_len = 1 + length (server_length (length payload));
  payload = payload ++ rest;
}

-- A control frame is final and carries 125 bytes at most.
abbrev pub IsLegal : Bool → ℕ → ℕ → Type 0
IsLegal fin opcode n = (opcode < 16) × ((opcode < 8) ⊎ ((fin ≡ true) × (n ≤ 125)))

finish-decoded :
    (fin : Bool) (opcode n second max header : ℕ) (bytes payload rest : List ℕ)
    → IsLegal fin opcode n
    → n ≤ max
    → length payload ≡ n
    → let all = ((if fin then 128 else 0) + opcode) ∷ (bytes ++ (payload ++ rest)) in
      drop header all ≡ payload ++ rest
      → header ≡ suc (length bytes)
      → finish all max header n
        ≡ ok (record {
          opcode = opcode;
          fin = fin;
          payload_len = n;
          header_len = header;
          payload = payload ++ rest;
        })
unfolding finish
finish-decoded fin opcode n second max header bytes payload rest legal le len d h =
    ground (arith, length-append bytes (payload ++ rest), length-append payload rest)

be_loop-bytes :
    (a b n : ℕ) (rest : List ℕ)
    → n < 2 ^ 64
    → be_loop 8 0
        (a
          ∷ b
          ∷ byte_of n 7
          ∷ byte_of n 6
          ∷ byte_of n 5
          ∷ byte_of n 4
          ∷ byte_of n 3
          ∷ byte_of n 2
          ∷ byte_of n 1
          ∷ byte_of n 0
          ∷ rest)
        0
      ≡ n
unfolding be_loop
be_loop-bytes a b n rest h = omega arith

-- The length field in its three forms is read back, and has no mask bit.
record HeaderRead (b0 n : ℕ) (tail field : List ℕ) : Type 0 where
  header : read_header (b0 ∷ (field ++ tail)) ≡ ok (1 + length field, n)
  bare : (get_or (b0 ∷ (field ++ tail)) 1 0 / 128 % 2 == 0) ≡ true
  long : ltb (length (b0 ∷ (field ++ tail))) 2 ≡ false
  behind : drop (1 + length field) (b0 ∷ (field ++ tail)) ≡ tail

server_length-HeaderRead :
    (b0 n : ℕ) (tail : List ℕ) → n < 2 ^ 63 → HeaderRead b0 n tail (server_length n)
unfolding read_header read_16bit read_64bit
server_length-HeaderRead b0 n tail h = elim (Bool-cases (ltb 65535 n)) [
  | inl large ↦
      let v = be_loop-bytes b0 127 n tail (omega arith) in
      let top : (n / 2 ^ 63 == 0) ≡ true = ground arith in
      rw (large, server_length)
        (record {
          header = rw (v, top) (ground arith);
          bare = refl;
          long = ground arith;
          behind = refl;
        })
  | inr small ↦ elim (Bool-cases (ltb 125 n)) [
    | inl medium ↦
        rw (small, medium, server_length)
          (record { header = ground arith; bare = refl; long = ground arith; behind = refl })
    | inr tiny ↦
        rw (small, tiny, server_length)
          (record {
            header = ground arith;
            bare = ground arith;
            long = ground arith;
            behind = refl;
          })
  ]
]

-- A server's frame with a legal opcode and a payload within the receiver's limit is decoded to its
-- opcode, finality and payload, whatever bytes stand behind it in the buffer.
pub decode-server_frame :
    (fin : Bool) (opcode max_payload : ℕ) (payload rest : List ℕ)
    → IsLegal fin opcode (length payload)
    → length payload ≤ max_payload
    → length payload < 2 ^ 63
    → decode (some (server_frame fin opcode payload ++ rest)) max_payload true
      ≡ ok (decoded fin opcode payload rest)
unfolding decode decode_bytes
decode-server_frame fin opcode max payload rest legal le small =
    let n = length payload in
    let b0 = (if fin then 128 else 0) + opcode in
    let r = server_length-HeaderRead b0 n (payload ++ rest) small in
    let plain : (b0 / 16 % 8 == 0) ≡ true = ground arith in
    rw (append_assoc (server_length n) payload rest, r.long, plain, r.bare, r.header)
      (finish-decoded fin opcode n 0 max (1 + length (server_length n)) (server_length n) payload
        rest legal le refl r.behind (omega arith))

abbrev header_of : Result Frame → ℕ
header_of (ok f) = f.header_len
header_of (err e) = 0

abbrev payload_len_of : Result Frame → ℕ
payload_len_of (ok f) = f.payload_len
payload_len_of (err e) = 0

0-lt-length : (xs : List ℕ) → xs ≢ [] → 0 < length xs
0-lt-length [] ne = absurd (ne refl)
0-lt-length (x ∷ xs) ne = omega arith

-- Any proper prefix of a server's legal frame, whose payload is within the limit and below 2^63 bytes,
-- asks for more input, and yields neither a frame nor an error.
pub decode-prefix :
    (fin : Bool) (opcode max_payload : ℕ) (payload front back : List ℕ)
    → IsLegal fin opcode (length payload)
    → length payload ≤ max_payload
    → length payload < 2 ^ 63
    → front ++ back ≡ server_frame fin opcode payload
    → back ≢ []
    → decode (some front) max_payload true ≡ err eagain
decode-prefix fin opcode max payload front back legal le small e ne =
    go (decode (some front) max true) refl (decode_stable front back max)
  where
    whole : decode (some (front ++ back)) max true ≡ ok (decoded fin opcode payload [])
    whole = rw e (
        rw (← append-nil (server_frame fin opcode payload))
          (decode-server_frame fin opcode max payload [] legal le small))

    go :
        (d : Result Frame)
        → decode (some front) max true ≡ d
        → Extends back d (decode (some (front ++ back)) max true)
        → d ≡ err eagain
    go (err eagain) q x = refl
    go (ok f) q x =
        let same = sym x ∙ whole in
        absurd (
          omega (
            arith,
            (decode_bounds front max q).inside,
            ap header_of same,
            ap payload_len_of same,
            ap length e,
            length-append front back,
            length-append (server_length (length payload)) payload,
            0-lt-length back ne,
          ))
    go (err einval) q x = absurd (cc (whole, x))
    go (err enobufs) q x = absurd (cc (whole, x))
    go (err eproto) q x = absurd (cc (whole, x))
    go (err emsgsize) q x = absurd (cc (whole, x))
    go (err erange) q x = absurd (cc (whole, x))
    go (err eio) q x = absurd (cc (whole, x))
