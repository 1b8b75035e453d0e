-- ===== src/Hal/SubtitleBram/Loops.antt =====
-- What the word-wise loops leave in the mask, word by word.
use subtitle_overlay_fw.Base.{
  ℕ, zero, suc, ◌+◌, ◌*◌, ◌≤◌, ◌<◌, ◌≡◌, ◌≢◌, ◌⊎◌, inl, inr, refl, sym, ap, ◌∙◌, Bool-cases, List,
  ◌==◌, ==_iff, length, get_or, set, length-set, get_or-set_self, get_or-set_ne, arith,
}
use subtitle_overlay_fw.Hal.SubtitleBram.{Bram, pack_word, write_word, write_row, write_rows}

-- The shadow shows the mask.
abbrev pub InSync : Bram → Type 0
InSync b = (b.shadow ≡ b.words) × (length b.words ≡ 8192)

write_word-InSync : (i w : ℕ) (b : Bram) → InSync b → InSync (write_word i w b)
unfolding write_word
write_word-InSync i w b s = elim (Bool-cases (w == get_or b.shadow i 0)) [
  | inl same ↦ rw same s
  | inr other ↦ rw other (ap (λ (l : List ℕ). set l i w) s.0, length-set b.words i w ∙ s.1)
]

get_or-write_word_self :
    (i w : ℕ) (b : Bram) → InSync b → i < 8192 → get_or (write_word i w b).words i 0 ≡ w
unfolding write_word
get_or-write_word_self i w b s h = elim (Bool-cases (w == get_or b.shadow i 0)) [
  | inl same ↦
      let kept : w ≡ get_or b.shadow i 0 = (==_iff w (get_or b.shadow i 0)).0 same in
      rw same (sym (kept ∙ ap (λ (l : List ℕ). get_or l i 0) s.0))
  | inr other ↦ rw other (get_or-set_self b.words i w 0 (omega (arith, h, s.1)))
]

get_or-write_word_ne :
    (i j w : ℕ) (b : Bram) → i ≢ j → get_or (write_word i w b).words j 0 ≡ get_or b.words j 0
unfolding write_word
get_or-write_word_ne i j w b h = elim (Bool-cases (w == get_or b.shadow i 0)) [
  | inl same ↦ rw same refl
  | inr other ↦ rw other (get_or-set_ne b.words i j w 0 h)
]

module _ (src : List ℕ) (src_row dst_row : ℕ) where
  write_row-InSync :
      (n col : ℕ) (b : Bram) → InSync b → InSync (write_row src src_row dst_row n col b)
  unfolding write_row
  write_row-InSync zero col b s = s
  write_row-InSync (suc n) col b s =
      let w = pack_word src (src_row + col * 4) in
      write_row-InSync n (col + 1) (write_word (dst_row + col) w b)
        (write_word-InSync (dst_row + col) w b s)

  write_row-outside :
      (n col j : ℕ) (b : Bram)
      → (j < dst_row + col) ⊎ (dst_row + col + n ≤ j)
      → get_or (write_row src src_row dst_row n col b).words j 0 ≡ get_or b.words j 0
  unfolding write_row
  write_row-outside zero col j b h = refl
  write_row-outside (suc n) col j b h =
      let w = pack_word src (src_row + col * 4) in
      write_row-outside n (col + 1) j (write_word (dst_row + col) w b) (ground (arith, h))
      ∙ get_or-write_word_ne (dst_row + col) j w b (λ e. ground (arith, h, e))

  write_row-inside :
      (n col k : ℕ) (b : Bram)
      → InSync b
      → dst_row + col + n ≤ 8192
      → col ≤ k
      → k < col + n
      → get_or (write_row src src_row dst_row n col b).words (dst_row + k) 0
        ≡ pack_word src (src_row + k * 4)
  unfolding write_row
  write_row-inside zero col k b s r l h = absurd (omega (arith, l, h))
  write_row-inside (suc n) col k b s r l h =
      let w = pack_word src (src_row + col * 4) in
      elim (Bool-cases (col == k)) [
        | inl same ↦
            let here : col ≡ k = (==_iff col k).0 same in
            let first =
              write_row-outside n (col + 1) (dst_row + col) (write_word (dst_row + col) w b)
                (inl (omega arith))
              ∙ get_or-write_word_self (dst_row + col) w b s (omega (arith, r)) in
            rw (sym here) first
        | inr other ↦
            write_row-inside n (col + 1) k (write_word (dst_row + col) w b)
              (write_word-InSync (dst_row + col) w b s) (omega (arith, r))
              (ground (arith, other, l)) (omega (arith, h))
      ]

module _ (src : List ℕ) (src_stride columns : ℕ) (narrow : columns ≤ 32) where
  pub write_rows-InSync :
      (n row : ℕ) (b : Bram) → InSync b → InSync (write_rows src src_stride columns n row b)
  unfolding write_rows
  write_rows-InSync zero row b s = s
  write_rows-InSync (suc n) row b s =
      write_rows-InSync n (row + 1) (write_row src (row * src_stride) (row * 32) columns 0 b)
        (write_row-InSync src (row * src_stride) (row * 32) columns 0 b s)

  pub write_rows-outside :
      (n row r c : ℕ) (b : Bram)
      → c < 32
      → (columns ≤ c) ⊎ ((r < row) ⊎ (row + n ≤ r))
      → get_or (write_rows src src_stride columns n row b).words (r * 32 + c) 0
        ≡ get_or b.words (r * 32 + c) 0
  unfolding write_rows
  write_rows-outside zero row r c b w h = refl
  write_rows-outside (suc n) row r c b w h =
      let b' = write_row src (row * src_stride) (row * 32) columns 0 b in
      write_rows-outside n (row + 1) r c b' w (ground (arith, h))
      ∙ write_row-outside src (row * src_stride) (row * 32) columns 0 (r * 32 + c) b
          (ground (arith, h, narrow))

  pub write_rows-inside :
      (n row r c : ℕ) (b : Bram)
      → InSync b
      → row + n ≤ 256
      → c < columns
      → row ≤ r
      → r < row + n
      → get_or (write_rows src src_stride columns n row b).words (r * 32 + c) 0
        ≡ pack_word src (r * src_stride + c * 4)
  unfolding write_rows
  write_rows-inside zero row r c b s t w l h = absurd (omega (arith, l, h))
  write_rows-inside (suc n) row r c b s t w l h =
      let b' = write_row src (row * src_stride) (row * 32) columns 0 b in
      elim (Bool-cases (row == r)) [
        | inl same ↦
            let here : row ≡ r = (==_iff row r).0 same in
            let first =
              write_rows-outside n (row + 1) row c b' (omega (arith, w, narrow))
                (inr (inl (omega arith)))
              ∙ write_row-inside src (row * src_stride) (row * 32) columns 0 c b s
                  (omega (arith, t, narrow)) (omega arith) (omega (arith, w)) in
            rw (sym here) first
        | inr other ↦
            write_rows-inside n (row + 1) r c b'
              (write_row-InSync src (row * src_stride) (row * 32) columns 0 b s) (omega (arith, t))
              w (ground (arith, other, l)) (omega (arith, h))
      ]

write_word-base : (i w : ℕ) (b : Bram) → (write_word i w b).base ≡ b.base
unfolding write_word
write_word-base i w b = elim (Bool-cases (w == get_or b.shadow i 0)) [
  | inl same ↦ rw same refl
  | inr other ↦ rw other refl
]

write_row-base :
    (src : List ℕ) (src_row dst_row n col : ℕ) (b : Bram)
    → (write_row src src_row dst_row n col b).base ≡ b.base
unfolding write_row
write_row-base src src_row dst_row zero col b = refl
write_row-base src src_row dst_row (suc n) col b =
    let w = pack_word src (src_row + col * 4) in
    write_row-base src src_row dst_row n (col + 1) (write_word (dst_row + col) w b)
    ∙ write_word-base (dst_row + col) w b

pub write_rows-base :
    (src : List ℕ) (src_stride columns n row : ℕ) (b : Bram)
    → (write_rows src src_stride columns n row b).base ≡ b.base
unfolding write_rows
write_rows-base src src_stride columns zero row b = refl
write_rows-base src src_stride columns (suc n) row b =
    write_rows-base src src_stride columns n (row + 1)
      (write_row src (row * src_stride) (row * 32) columns 0 b)
    ∙ write_row-base src (row * src_stride) (row * 32) columns 0 b
