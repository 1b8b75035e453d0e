-- ===== src/Stt/WsFrame/Encode/ReadBack.antt =====
-- What a server that follows RFC 6455 reads out of an encoded frame.
use Prim.Native.Nat.{bit_xor}
use subtitle_overlay_fw.Base.{
  ℕ, zero, suc, ◌+◌, ◌*◌, ◌/◌, ◌%◌, ◌^◌, ◌≤◌, ◌<◌, ◌≡◌, ◌⊎◌, refl, sym, ap, ◌∙◌, Bool, ◌&&◌, true,
  false, Option, none, some, List, [], ◌∷◌, ◌++◌, append_assoc, arith, ltb, ◌==◌, if◌then◌else◌,
  length, length-append, get_or, take, drop, take-append_length, drop-append_length, take-all, ok,
  Bool-cases, inl, inr,
}
use subtitle_overlay_fw.Base.Int.{pos}
use subtitle_overlay_fw.Base.Bits.{bit_xor-undo}
use subtitle_overlay_fw.Stt.WsFrame.Encode.{
  byte_of, mask_byte, mask_bytes, mask_payload, length_bytes, header_size, control_max, uint16_max,
  encode,
}

-- One frame as RFC 6455, section 5.2, lays it out, and what stands behind it.
pub record Read : Type 0 where
  pub fin : Bool
  pub masked : Bool
  pub opcode : ℕ
  pub payload : List ℕ
  pub rest : List ℕ

-- A number from its bytes, the highest first.
abbrev pub be_value : ℕ → List ℕ → ℕ
be_value acc [] = acc
be_value acc (b ∷ bs) = be_value (acc * 256 + b) bs

-- The length and what stands behind it, from the seven-bit field.
abbrev pub read_length : ℕ → List ℕ → ℕ × List ℕ
read_length field bytes =
    if field == 126
    then (be_value 0 (take 2 bytes), drop 2 bytes)
    else if field == 127
    then (be_value 0 (take 8 bytes), drop 8 bytes)
    else (field, bytes)

abbrev pub unmask : List ℕ → ℕ → List ℕ → List ℕ
unmask key i [] = []
unmask key i (c ∷ cs) = bit_xor c (get_or key (i % 4) 0) ∷ unmask key (i + 1) cs

abbrev pub read_body : ℕ → ℕ → ℕ × List ℕ → Read
read_body b0 b1 (n, bytes) = record {
  fin = b0 / 128 == 1;
  masked = b1 / 128 == 1;
  opcode = b0 % 16;
  payload = unmask (take 4 bytes) 0 (take n (drop 4 bytes));
  rest = drop n (drop 4 bytes);
}

-- A length is below 2^63.
abbrev pub bounded : ℕ → ℕ → ℕ × List ℕ → Option Read
bounded b0 b1 (n, bytes) = if ltb n (2 ^ 63) then some (read_body b0 b1 (n, bytes)) else none

abbrev pub rfc_read : List ℕ → Option Read
rfc_read (b0 ∷ b1 ∷ bytes) = bounded b0 b1 (read_length (b1 % 128) bytes)
rfc_read _ = none

mask_byte-key : (key i : ℕ) → i < 4 → get_or (mask_bytes key) i 0 ≡ mask_byte key i
mask_byte-key key zero h = refl
mask_byte-key key (suc zero) h = refl
mask_byte-key key (suc (suc zero)) h = refl
mask_byte-key key (suc (suc (suc zero))) h = refl
mask_byte-key key (suc (suc (suc (suc i)))) h = absurd (omega arith)

unmask-mask_payload :
    (key i : ℕ) (cs : List ℕ) → unmask (mask_bytes key) i (mask_payload key i cs) ≡ cs
unfolding mask_payload
unmask-mask_payload key i [] = refl
unmask-mask_payload key i (c ∷ cs) =
    rw (mask_byte-key key (i % 4) (omega arith), bit_xor-undo)
      (ap (◌∷◌ c) (unmask-mask_payload key (i + 1) cs))

length-mask_payload : (key i : ℕ) (cs : List ℕ) → length (mask_payload key i cs) ≡ length cs
unfolding mask_payload
length-mask_payload key i [] = refl
length-mask_payload key i (c ∷ cs) = ap suc (length-mask_payload key (i + 1) cs)

-- The big-endian bytes of a 64-bit number.
be_value-bytes :
    (n : ℕ)
    → n < 2 ^ 64
    → be_value 0 (
        byte_of n 7
        ∷ byte_of n 6
        ∷ byte_of n 5
        ∷ byte_of n 4
        ∷ byte_of n 3
        ∷ byte_of n 2
        ∷ byte_of n 1
        ∷ byte_of n 0
        ∷ [])
      ≡ n
be_value-bytes n h = omega arith

be_value-two : (n : ℕ) → n < 2 ^ 16 → be_value 0 (byte_of n 1 ∷ byte_of n 0 ∷ []) ≡ n
be_value-two n h = omega arith

-- The length field in its three forms: the mask bit is set, and a reader gets the length back.
record ReadsLength (n : ℕ) (bytes : List ℕ) : Type 0 where
  second : ℕ
  extended : List ℕ
  splits : length_bytes n ≡ second ∷ extended
  masked : second / 128 ≡ 1
  reads : read_length (second % 128) (extended ++ bytes) ≡ (n, bytes)
  size : 2 + length extended + 4 ≡ header_size n

length_bytes-ReadsLength : (n : ℕ) (bytes : List ℕ) → n < 2 ^ 64 → ReadsLength n bytes
unfolding length_bytes
length_bytes-ReadsLength n bytes h = elim (Bool-cases (ltb uint16_max n)) [
  | inl large ↦ record {
    second = 255;
    extended =
        byte_of n 7
        ∷ byte_of n 6
        ∷ byte_of n 5
        ∷ byte_of n 4
        ∷ byte_of n 3
        ∷ byte_of n 2
        ∷ byte_of n 1
        ∷ byte_of n 0
        ∷ [];
    splits = rw large;
    masked = refl;
    reads = ap (λ (k : ℕ). (k, bytes)) (be_value-bytes n h);
    size = rw large;
  }
  | inr small ↦ elim (Bool-cases (ltb control_max n)) [
    | inl medium ↦ record {
      second = 254;
      extended = byte_of n 1 ∷ byte_of n 0 ∷ [];
      splits = rw (small, medium);
      masked = refl;
      reads = ap (λ (k : ℕ). (k, bytes)) (be_value-two n (ground arith));
      size = rw (small, medium);
    }
    | inr tiny ↦ record {
      second = 128 + n;
      extended = [];
      splits = rw (small, tiny);
      masked = ground arith;
      reads = ground arith;
      size = rw (small, tiny);
    }
  ]
]

-- Behind the length: the mask and the masked payload, then whatever follows the frame.
read_body-masked :
    (opcode key second n : ℕ) (cs rest : List ℕ)
    → opcode < 16
    → second / 128 ≡ 1
    → length cs ≡ n
    → read_body (128 + opcode % 16) second (n, mask_bytes key ++ (mask_payload key 0 cs ++ rest))
      ≡ record { fin = true; masked = true; opcode = opcode; payload = cs; rest = rest }
read_body-masked opcode key second n cs rest ho m e =
    let len = length-mask_payload key 0 cs ∙ e in
    let fin : ((128 + opcode % 16) / 128 == 1) ≡ true = ground arith in
    let code : (128 + opcode % 16) % 16 ≡ opcode = omega arith in
    let mask : (second / 128 == 1) ≡ true = ground arith in
    rw (fin, code, mask, ← len) (rw (take-append_length, drop-append_length, unmask-mask_payload))

-- A frame with an opcode below 16, a payload of at most 125 bytes for a control opcode, and fewer than
-- 2^31 bytes in all, with room for them in the buffer, is encoded: the C result is the number of
-- bytes, which are header and payload in number; and a server that reads them by RFC 6455, whatever
-- comes behind, gets a final masked frame with exactly that opcode and payload, and what came behind.
pub encode_reads_back :
    (out_size opcode key : ℕ) (payload rest : List ℕ)
    → opcode < 16
    → header_size (length payload) + length payload < 2 ^ 31
    → (opcode < 8) ⊎ (length payload ≤ control_max)
    → header_size (length payload) + length payload ≤ out_size
    → (bytes : List ℕ) × (encode true out_size opcode (some payload) (length payload) key
        ≡ ok (pos (length bytes), bytes))
      × (length bytes ≡ header_size (length payload) + length payload)
      × (rfc_read (bytes ++ rest)
          ≡ some (record {
            fin = true;
            masked = true;
            opcode = opcode;
            payload = payload;
            rest = rest;
          }))
unfolding encode
encode_reads_back out_size opcode key payload rest ho hn hc room =
    let n = length payload in
    let below : n < 2 ^ 31 = omega (arith, hn) in
    let r =
      length_bytes-ReadsLength n (mask_bytes key ++ (mask_payload key 0 payload ++ rest))
        (omega (arith, below)) in
    let control : (opcode / 8 % 2 == 1 && ltb control_max n) ≡ false = ground arith in
    let total : (header_size n + n) % 2 ^ 32 ≡ header_size n + n = omega (arith, hn) in
    let fits : ltb out_size (header_size n + n) ≡ false = ground arith in
    let positive : ltb (header_size n + n) (2 ^ 31) ≡ true = ground (arith, hn) in
    let legal : ltb n (2 ^ 63) ≡ true = ground (arith, below) in
    let bytes =
      (128 + opcode % 16) ∷ (length_bytes n ++ (mask_bytes key ++ mask_payload key 0 payload)) in
    let size : length bytes ≡ header_size n + n = omega (
      arith,
      ap length r.splits,
      r.size,
      length-append (length_bytes n) (mask_bytes key ++ mask_payload key 0 payload),
      length-mask_payload key 0 payload,
    ) in
    (
      bytes,
      rw (control, total, fits, positive, take-all n payload (omega arith))
          (ap (λ k. ok (pos k, bytes)) (sym size)),
      size,
      rw r.splits (
          ap (bounded (128 + opcode % 16) r.second) (
            ap (read_length (r.second % 128))
              (append_assoc r.extended (mask_bytes key ++ mask_payload key 0 payload) rest)
            ∙ r.reads)
          ∙ rw legal
              (ap some (read_body-masked opcode key r.second n payload rest ho r.masked refl))),
    )
