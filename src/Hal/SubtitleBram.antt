-- ===== src/Hal/SubtitleBram.antt =====
-- src/hal/subtitle_bram/subtitle_bram.c: the 1024 x 256 subtitle mask, one bit for a pixel, in 32-bit
-- words. `words` is the device's memory, which reads back what was written last, and `base` its
-- address, 0 for a NULL base. A source bitmap is the list of its bytes. The indices are far below
-- 2 ^ 32, so their arithmetic does not wrap.
pub mod Bits
pub mod Loops
pub mod Pixels
use subtitle_overlay_fw.Base.{
  ℕ, zero, suc, ◌+◌, ◌*◌, ◌-◌, ◌/◌, ◌%◌, ◌^◌, Bool, true, false, not, ◌||◌, ◌&&◌, Option, none,
  some, List, ◌==◌, if◌then◌else◌, ltb, leb, get_or, set, replicate,
}
use Prim.Native.Nat.{bit_and, bit_or}
use subtitle_overlay_fw.Base.Int.{ℤ, pos, negsuc}
use subtitle_overlay_fw.Hal.Status.{success, eio, einval, estate}

-- SUBTITLE_BRAM_MASK_WIDTH, _HEIGHT, _WORDS_PER_ROW and _WORD_COUNT
abbrev pub mask_width : ℕ
mask_width = 1024

abbrev pub mask_height : ℕ
mask_height = 256

abbrev pub words_per_row : ℕ
words_per_row = 32

abbrev pub word_count : ℕ
word_count = 8192

-- subtitle_bram_t, and the memory that `base` points to
pub record Bram : Type 0 where
  pub base : ℕ
  pub shadow : List ℕ
  pub words : List ℕ

unfoldable pub reverse_bits_u8 : ℕ → ℕ
reverse_bits_u8 value =
    let v1 = bit_or (bit_and value 0xf0 / 16) (bit_and value 0x0f * 16) in
    let v2 = bit_or (bit_and v1 0xcc / 4) (bit_and v1 0x33 * 4) in
    bit_or (bit_and v2 0xaa / 2) (bit_and v2 0x55 * 2)

-- The four bytes at `at`; they stand in disjoint bits, so `|` is a sum.
unfoldable pub pack_word : List ℕ → ℕ → ℕ
pack_word src at_ =
    reverse_bits_u8 (get_or src at_ 0)
    + reverse_bits_u8 (get_or src (at_ + 1) 0) * 2 ^ 8
    + reverse_bits_u8 (get_or src (at_ + 2) 0) * 2 ^ 16
    + reverse_bits_u8 (get_or src (at_ + 3) 0) * 2 ^ 24

-- A word goes to the device only where the shadow shows another.
unfoldable pub write_word : ℕ → ℕ → Bram → Bram
write_word word_index new_word b =
    if new_word == get_or b.shadow word_index 0 then b else record b {
      words = set b.words word_index new_word;
      shadow = set b.shadow word_index new_word;
    }

-- The inner loop: `n` words are left from column `word_col` on.
unfoldable pub write_row : List ℕ → ℕ → ℕ → ℕ → ℕ → Bram → Bram
write_row src src_row dst_row zero word_col b = b
write_row src src_row dst_row (suc n) word_col b =
    write_row src src_row dst_row n (word_col + 1)
      (write_word (dst_row + word_col) (pack_word src (src_row + word_col * 4)) b)

-- The outer loop: `n` rows are left from `row` on.
unfoldable pub write_rows : List ℕ → ℕ → ℕ → ℕ → ℕ → Bram → Bram
write_rows src src_stride columns zero row b = b
write_rows src src_stride columns (suc n) row b =
    write_rows src src_stride columns n (row + 1)
      (write_row src (row * src_stride) (row * words_per_row) columns 0 b)

unfoldable pub write_full_bitmap : List ℕ → ℕ → ℕ → ℕ → Bram → ℤ × Bram
write_full_bitmap src src_stride width height b =
    (success, write_rows src src_stride (width / 32) height 0 b)

-- subtitle_bram_init; `base` is what hw_platform_base returns.
unfoldable pub init : ℕ → Bram → ℤ × Bram
init base b =
    (if base == 0 then eio else success, record b { base = base; shadow = replicate word_count 0 })

unfoldable pub clear : Bram → ℤ × Bram
clear b =
    if b.base == 0
    then (estate, b)
    else (success, record b { words = replicate word_count 0; shadow = replicate word_count 0 })

-- x + (int32_t)col, `none` where that is negative
abbrev pub shifted : ℤ → ℕ → Option ℕ
shifted (pos x) col = some (x + col)
shifted (negsuc x) col = if ltb x col then some (col - (x + 1)) else none

-- words[word_index] with one bit set or cleared
unfoldable pub write_bit : Bool → ℕ → ℕ → Bram → Bram
write_bit bit word_index bit_index b =
    let word = get_or b.words word_index 0 in
    let mask = 2 ^ bit_index in
    record b {
      words =
          set b.words word_index
            (if bit then bit_or word mask else bit_and word (2 ^ 32 - 1 - mask));
    }

-- One pixel of the fallback path
unfoldable pub write_pixel : List ℕ → ℕ → ℤ → ℕ → ℕ → ℕ → Bram → Bram
write_pixel src src_stride x row dst_y col b = elim (shifted x col) [
  | none ↦ b
  | some dst_x ↦
      let src_byte = get_or src (row * src_stride + col / 8) 0 in
      let src_bit = src_byte / 2 ^ (7 - col % 8) % 2 in
      if leb mask_width dst_x
      then b
      else write_bit (not (src_bit == 0)) (dst_y * words_per_row + dst_x / 32) (dst_x % 32) b
]

unfoldable pub write_pixels : List ℕ → ℕ → ℤ → ℕ → ℕ → ℕ → ℕ → Bram → Bram
write_pixels src src_stride x row dst_y zero col b = b
write_pixels src src_stride x row dst_y (suc n) col b =
    write_pixels src src_stride x row dst_y n (col + 1)
      (write_pixel src src_stride x row dst_y col b)

unfoldable pub write_pixel_row : List ℕ → ℕ → ℤ → ℤ → ℕ → ℕ → Bram → Bram
write_pixel_row src src_stride x y width row b = elim (shifted y row) [
  | none ↦ b
  | some dst_y ↦
      let written = write_pixels src src_stride x row dst_y width 0 b in
      if leb mask_height dst_y then b else written
]

unfoldable pub write_pixel_rows : List ℕ → ℕ → ℤ → ℤ → ℕ → ℕ → ℕ → Bram → Bram
write_pixel_rows src src_stride x y width zero row b = b
write_pixel_rows src src_stride x y width (suc n) row b =
    write_pixel_rows src src_stride x y width n (row + 1)
      (write_pixel_row src src_stride x y width row b)

abbrev pub is_zero : ℤ → Bool
is_zero (pos n) = n == 0
is_zero (negsuc n) = false

-- subtitle_bram_write_bitmap; `src` is `none` for NULL.
unfoldable pub write_bitmap : Option (List ℕ) → ℕ → ℤ → ℤ → ℕ → ℕ → Bram → ℤ × Bram
write_bitmap none src_stride x y width height b = (if b.base == 0 then estate else einval, b)
write_bitmap (some src) src_stride x y width height b =
    if b.base == 0
    then (estate, b)
    else if src_stride == 0 || (width == 0 || height == 0)
    then (einval, b)
    else if is_zero x
        && (is_zero y && ((width % 32 == 0) && (leb width mask_width && leb height mask_height)))
    then write_full_bitmap src src_stride width height b
    else (success, write_pixel_rows src src_stride x y width height 0 b)
