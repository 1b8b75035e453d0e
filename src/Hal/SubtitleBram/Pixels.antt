-- ===== src/Hal/SubtitleBram/Pixels.antt =====
-- The mask as a picture: subtitle_bram_write_bitmap shows the bitmap, pixel by pixel.
use subtitle_overlay_fw.Base.{
  ℕ, zero, suc, ◌+◌, ◌*◌, ◌-◌, ◌/◌, ◌%◌, ◌≤◌, ◌<◌, ◌≡◌, ◌≢◌, ◌⊎◌, refl, ap, ◌∙◌, List, ◌==◌, ◌||◌,
  ◌&&◌, true, false, some, leb, get_or, replicate, length-replicate, arith,
}
use subtitle_overlay_fw.Base.Int.{pos}
use subtitle_overlay_fw.Hal.Status.{success}
use subtitle_overlay_fw.Hal.SubtitleBram.{
  Bram, write_rows, write_full_bitmap, write_bitmap, clear, mask_width, mask_height,
}
use subtitle_overlay_fw.Hal.SubtitleBram.Bits.{bit, AreBytes, pack_word-bit}
use subtitle_overlay_fw.Hal.SubtitleBram.Loops.{
  InSync, write_rows-InSync, write_rows-inside, write_rows-outside, write_rows-base,
}

-- Pixel (x, y) of the mask: bit 0 of a word is its leftmost pixel.
unfoldable pub mask_pixel : Bram → ℕ → ℕ → ℕ
mask_pixel b x y = bit (x % 32) (get_or b.words (y * 32 + x / 32) 0)

-- Pixel (x, y) of a bitmap: bit 7 of a byte is its leftmost pixel.
unfoldable pub bitmap_pixel : List ℕ → ℕ → ℕ → ℕ → ℕ
bitmap_pixel src src_stride x y = bit (7 - x % 8) (get_or src (y * src_stride + x / 8) 0)

-- What a bitmap that stands in the left upper corner makes of the picture
unfoldable pub Shows : Bram → Bram → List ℕ → ℕ → ℕ → ℕ → Type 0
Shows after before src src_stride width height =
    ((x y : ℕ) → x < width → y < height → mask_pixel after x y ≡ bitmap_pixel src src_stride x y)
    × ((x y : ℕ)
        → x < 1024
        → (width ≤ x) ⊎ (height ≤ y)
        → mask_pixel after x y ≡ mask_pixel before x y)

write_rows-Shows :
    (src : List ℕ) (src_stride width height : ℕ) (b : Bram)
    → AreBytes src
    → InSync b
    → width % 32 ≡ 0
    → width ≤ 1024
    → height ≤ 256
    → Shows (write_rows src src_stride (width / 32) height 0 b) b src src_stride width height
unfolding Shows mask_pixel bitmap_pixel
write_rows-Shows src src_stride width height b bytes s whole w h = (
  λ x y p q.
      rw
        (write_rows-inside src src_stride (width / 32) (omega (arith, w)) height 0 y (x / 32) b s
          (omega (arith, h)) (omega (arith, p, whole)) (omega arith) (omega (arith, q)))
        (pack_word-bit src bytes (y * src_stride + x / 32 * 4) (x % 32 / 8) (x % 8) (x % 32)
            (omega arith) (omega arith) (omega arith)
          ∙ ap (λ (i : ℕ). bit (7 - x % 8) (get_or src i 0)) (omega arith)),
  λ x y p q.
      rw
        (write_rows-outside src src_stride (width / 32) (omega (arith, w)) height 0 y (x / 32) b
          (omega (arith, p)) (ground (arith, q, whole)))
        refl,
)

-- On an initialized mask whose shadow is right, a bitmap of legal size that is a multiple of 32
-- wide is written with status 0. Each pixel of it then stands in the mask at its own place, every
-- other pixel is what it was, though words that show in the shadow are never sent, and the shadow
-- is right again, the mask mapped where it was.
pub write_bitmap-Shows :
    (src : List ℕ) (src_stride width height : ℕ) (b : Bram)
    → AreBytes src
    → InSync b
    → b.base ≢ 0
    → src_stride ≢ 0
    → (0 < width) × ((width % 32 ≡ 0) × (width ≤ 1024))
    → (0 < height) × (height ≤ 256)
    → let r = write_bitmap (some src) src_stride (pos 0) (pos 0) width height b in
      (r.0 ≡ success)
      × ((r.1.base ≡ b.base) × (InSync r.1 × Shows r.1 b src src_stride width height))
unfolding write_bitmap write_full_bitmap
write_bitmap-Shows src src_stride width height b bytes s based strided w h =
    let mapped : (b.base == 0) ≡ false = ground (arith, based) in
    let sized : (src_stride == 0 || (width == 0 || height == 0)) ≡ false =
      ground (arith, strided, w.0, h.0) in
    let fast : (width % 32 == 0 && (leb width mask_width && leb height mask_height)) ≡ true =
      ground (arith, w.1, h.1) in
    rw (mapped, sized, fast)
      (
        refl,
        (
          write_rows-base src src_stride (width / 32) height 0 b,
          (
            write_rows-InSync src src_stride (width / 32) (omega (arith, w.1.1)) height 0 b s,
            write_rows-Shows src src_stride width height b bytes s w.1.0 w.1.1 h.1,
          ),
        ),
      )

get_or-replicate : (n i : ℕ) → get_or (replicate {A = ℕ} n 0) i 0 ≡ 0
get_or-replicate zero i = refl
get_or-replicate (suc n) zero = refl
get_or-replicate (suc n) (suc i) = get_or-replicate n i

bit-zero : (k : ℕ) → bit k 0 ≡ 0
bit-zero zero = refl
bit-zero (suc k) = bit-zero k

-- Clearing leaves an empty picture and a shadow that is right, whatever was there before.
pub clear-InSync :
    (b : Bram)
    → b.base ≢ 0
    → ((clear b).0 ≡ success) × (InSync (clear b).1 × ((x y : ℕ) → mask_pixel (clear b).1 x y ≡ 0))
unfolding clear mask_pixel
clear-InSync b based =
    let mapped : (b.base == 0) ≡ false = ground (arith, based) in
    rw mapped (
      refl,
      (
        (refl, length-replicate {A = ℕ} 8192 0),
        λ x y. rw (get_or-replicate 8192 (y * 32 + x / 32)) (bit-zero (x % 32)),
      ),
    )
