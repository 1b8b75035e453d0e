-- ===== src/Stt/WsFrame/Sha1.antt =====
-- The SHA-1 of stt_ws_frame.c. `block` holds the first `block_used` bytes of the C array, so that its
-- length is `block_used`; the bytes behind are overwritten before they are read.
pub mod Stream
use Prim.Native.Nat.{bit_and, bit_or, bit_xor}
use subtitle_overlay_fw.Base.{
  ℕ, zero, suc, ◌+◌, ◌-◌, ◌*◌, ◌/◌, ◌%◌, ◌^◌, Bool, List, [], ◌∷◌, ◌++◌, ltb, ◌==◌, if◌then◌else◌,
  length, get_or, take, drop,
}

abbrev pub u32 : ℕ → ℕ
u32 n = n % 2 ^ 32

-- sha1_ctx_t
pub record Sha1Ctx : Type 0 where
  pub state : List ℕ
  pub bit_count : ℕ
  pub block : List ℕ

unfoldable pub sha1_rotate_left : ℕ → ℕ → ℕ
sha1_rotate_left value bits = bit_or (u32 (value * 2 ^ bits)) (value / 2 ^ (32 - bits))

-- The first loop: the words of the block, the latest first, from word `i` on
unfoldable pub load_words : ℕ → List ℕ → List ℕ → List ℕ
load_words zero block w = w
load_words (suc n) block w = load_words n (drop 4 block) (
    (get_or block 0 0 * 2 ^ 24
      + get_or block 1 0 * 2 ^ 16
      + get_or block 2 0 * 2 ^ 8
      + get_or block 3 0)
    ∷ w)

-- The second loop: w[i - k] is entry k - 1 of the words so far.
unfoldable pub extend_words : ℕ → List ℕ → List ℕ
unfolding sha1_rotate_left
extend_words zero w = w
extend_words (suc n) w = extend_words n (
    sha1_rotate_left
      (bit_xor (bit_xor (bit_xor (get_or w 2 0) (get_or w 7 0)) (get_or w 13 0)) (get_or w 15 0)) 1
    ∷ w)

-- The words a, b, c, d and e
pub record Words : Type 0 where
  pub a : ℕ
  pub b : ℕ
  pub c : ℕ
  pub d : ℕ
  pub e : ℕ

abbrev pub complement : ℕ → ℕ
complement n = 2 ^ 32 - 1 - n

-- The function and the constant of round `i`
unfoldable pub round_f : ℕ → Words → ℕ
round_f i v =
    if ltb i 20
    then bit_or (bit_and v.b v.c) (bit_and (complement v.b) v.d)
    else if ltb i 40
    then bit_xor (bit_xor v.b v.c) v.d
    else if ltb i 60
    then bit_or (bit_or (bit_and v.b v.c) (bit_and v.b v.d)) (bit_and v.c v.d)
    else bit_xor (bit_xor v.b v.c) v.d

unfoldable pub round_k : ℕ → ℕ
round_k i =
    if ltb i 20
    then 0x5A827999
    else if ltb i 40
    then 0x6ED9EBA1
    else if ltb i 60
    then 0x8F1BBCDC
    else 0xCA62C1D6

-- The third loop, from round `i` on; the words in order
unfoldable pub rounds : ℕ → List ℕ → Words → Words
unfolding round_f round_k sha1_rotate_left
rounds i [] v = v
rounds i (x ∷ w) v = rounds (i + 1) w (record {
  a = u32 (sha1_rotate_left v.a 5 + round_f i v + v.e + round_k i + x);
  b = v.a;
  c = sha1_rotate_left v.b 30;
  d = v.c;
  e = v.d;
})

abbrev reverse_onto : List ℕ → List ℕ → List ℕ
reverse_onto [] ys = ys
reverse_onto (x ∷ xs) ys = reverse_onto xs (x ∷ ys)

-- The state that sha1_compress leaves
unfoldable pub sha1_compress : List ℕ → List ℕ → List ℕ
unfolding load_words extend_words rounds
sha1_compress state block =
    let w = reverse_onto (extend_words 64 (load_words 16 block [])) [] in
    let s0 = get_or state 0 0 in
    let s1 = get_or state 1 0 in
    let s2 = get_or state 2 0 in
    let s3 = get_or state 3 0 in
    let s4 = get_or state 4 0 in
    let v = rounds 0 w (record { a = s0; b = s1; c = s2; d = s3; e = s4 }) in
    u32 (s0 + v.a) ∷ u32 (s1 + v.b) ∷ u32 (s2 + v.c) ∷ u32 (s3 + v.d) ∷ u32 (s4 + v.e) ∷ []

unfoldable pub sha1_init : Sha1Ctx
sha1_init = record {
  state = 0x67452301 ∷ 0xEFCDAB89 ∷ 0x98BADCFE ∷ 0x10325476 ∷ 0xC3D2E1F0 ∷ [];
  bit_count = 0;
  block = [];
}

-- A full block is compressed.
unfoldable pub flush : Sha1Ctx → Sha1Ctx
flush ctx =
    if length ctx.block == 64
    then record ctx { state = sha1_compress ctx.state ctx.block; block = [] }
    else ctx

-- The loop of sha1_update. A round takes what fits in the block, at least one byte, so as many
-- rounds as there are bytes are enough.
unfoldable pub update_loop : ℕ → Sha1Ctx → List ℕ → Sha1Ctx
unfolding flush
update_loop zero ctx data_ = ctx
update_loop (suc n) ctx [] = ctx
update_loop (suc n) ctx (x ∷ xs) =
    let room = 64 - length ctx.block in
    update_loop n (flush (record ctx { block = ctx.block ++ take room (x ∷ xs) }))
      (drop room (x ∷ xs))

unfoldable pub sha1_update : Sha1Ctx → List ℕ → Sha1Ctx
unfolding update_loop
sha1_update ctx bytes =
    update_loop (length bytes)
      (record ctx { bit_count = (ctx.bit_count + length bytes * 8 % 2 ^ 64) % 2 ^ 64 }) bytes

-- The padding loop: zero bytes until `block_used` is 56. At most 64 are needed.
unfoldable pub pad : ℕ → Sha1Ctx → Sha1Ctx
pad zero ctx = ctx
pad (suc n) ctx = if length ctx.block == 56 then ctx else pad n (sha1_update ctx (0 ∷ []))

abbrev pub shifted : ℕ → ℕ → ℕ
shifted n bits = n / 2 ^ bits % 256

-- The bytes of a word or of the length, the highest first
abbrev pub word_bytes : ℕ → List ℕ
word_bytes n = shifted n 24 ∷ shifted n 16 ∷ shifted n 8 ∷ shifted n 0 ∷ []

abbrev pub length_be : ℕ → List ℕ
length_be n = shifted n 56 ∷ shifted n 48 ∷ shifted n 40 ∷ shifted n 32 ∷ word_bytes n

abbrev pub digest_of : List ℕ → List ℕ
digest_of [] = []
digest_of (x ∷ xs) = word_bytes x ++ digest_of xs

unfoldable pub sha1_final : Sha1Ctx → List ℕ
unfolding pad
sha1_final ctx =
    let padded = pad 64 (sha1_update ctx (0x80 ∷ [])) in
    digest_of (sha1_compress padded.state (take 56 padded.block ++ length_be ctx.bit_count))
