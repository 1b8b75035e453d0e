-- ===== src/Hal/SubtitleBram/Bits.antt =====
-- The bits of a packed word against those of its source bytes.
use subtitle_overlay_fw.Base.{
  ℕ, zero, suc, ◌+◌, ◌*◌, ◌-◌, ◌/◌, ◌%◌, ◌<◌, ◌≡◌, inl, inr, refl, ap, ◌∙◌, Bool, true, ◌&&◌,
  Bool-cases, List, [], ◌∷◌, ◌==◌, ltb, get_or, ==_iff, arith,
}
use subtitle_overlay_fw.Hal.SubtitleBram.{reverse_bits_u8, pack_word}

-- Bit k of a number
abbrev pub bit : ℕ → ℕ → ℕ
bit zero n = n % 2
bit (suc k) n = bit k (n / 2)

abbrev all_below : ℕ → (ℕ → Bool) → Bool
all_below zero p = true
all_below (suc n) p = p n && all_below n p

all_below-at : (n k : ℕ) (p : ℕ → Bool) → all_below n p ≡ true → k < n → p k ≡ true
all_below-at zero k p e h = absurd (omega (arith, h))
all_below-at (suc n) k p e h = elim (Bool-cases (k == n)) [
  | inl same ↦ ap p ((==_iff k n).0 same) ∙ ground (arith, e)
  | inr other ↦ all_below-at n k p (ground (arith, e)) (ground (arith, h, other))
]

abbrev reverses : ℕ → Bool
reverses v =
    ltb (reverse_bits_u8 v) 256 && all_below 8 (λ i. bit i (reverse_bits_u8 v) == bit (7 - i) v)

reverses_all : all_below 256 reverses ≡ true
unfolding reverse_bits_u8
reverses_all = refl

pub reverse_bits_u8-bit :
    (v i : ℕ)
    → v < 256
    → i < 8
    → (reverse_bits_u8 v < 256) × (bit i (reverse_bits_u8 v) ≡ bit (7 - i) v)
reverse_bits_u8-bit v i h k =
    let all = all_below-at 256 v reverses reverses_all h in
    let bits : all_below 8 (λ i. bit i (reverse_bits_u8 v) == bit (7 - i) v) ≡ true =
      ground (arith, all) in
    let small : ltb (reverse_bits_u8 v) 256 ≡ true = ground (arith, all) in
    let same = all_below-at 8 i (λ i. bit i (reverse_bits_u8 v) == bit (7 - i) v) bits k in
    (ground (arith, small), (==_iff (bit i (reverse_bits_u8 v)) (bit (7 - i) v)).0 same)

-- n shifted to the left
abbrev shifted_left : ℕ → ℕ → ℕ
shifted_left zero n = n
shifted_left (suc k) n = 2 * shifted_left k n

bit-low : (i k r n : ℕ) → i < k → bit i (r + shifted_left k n) ≡ bit i r
bit-low i zero r n h = absurd (omega (arith, h))
bit-low zero (suc k) r n h = omega arith
bit-low (suc i) (suc k) r n h = ap (bit i) (omega arith) ∙ bit-low i k (r / 2) n (omega (arith, h))

bit-byte : (i r n : ℕ) → i < 8 → bit i (r + 256 * n) ≡ bit i r
bit-byte i r n h = ap (bit i) (omega arith) ∙ bit-low i 8 r n h

bit-next : (k i r n : ℕ) → r < 256 → k ≡ 8 + i → bit k (r + 256 * n) ≡ bit i n
bit-next k i r n h e =
    let drop_byte : bit (suc (suc (suc (suc (suc (suc (suc (suc i)))))))) (r + 256 * n) ≡ bit i n =
      ap (bit i) (omega (arith, h)) in
    let eighth : k ≡ suc (suc (suc (suc (suc (suc (suc (suc i))))))) = omega (arith, e) in
    rw eighth drop_byte

-- Bytes of a bitmap, of which it may have too few
abbrev pub AreBytes : List ℕ → Type 0
AreBytes [] = Unit
AreBytes (c ∷ cs) = (c < 256) × AreBytes cs

get_or-AreBytes : (src : List ℕ) (i : ℕ) → AreBytes src → get_or src i 0 < 256
get_or-AreBytes [] i b = omega arith
get_or-AreBytes (c ∷ cs) zero b = b.0
get_or-AreBytes (c ∷ cs) (suc i) b = get_or-AreBytes cs i b.1

module _ (src : List ℕ) (bytes : AreBytes src) where
  reversed : ℕ → ℕ
  reversed at_ = reverse_bits_u8 (get_or src at_ 0)

  reversed-small : (at_ : ℕ) → reversed at_ < 256
  unfolding reversed
  reversed-small at_ =
      (reverse_bits_u8-bit (get_or src at_ 0) 0 (get_or-AreBytes src at_ bytes) (omega arith)).0

  reversed-bit : (at_ i : ℕ) → i < 8 → bit i (reversed at_) ≡ bit (7 - i) (get_or src at_ 0)
  unfolding reversed
  reversed-bit at_ i h =
      (reverse_bits_u8-bit (get_or src at_ 0) i (get_or-AreBytes src at_ bytes) h).1

  pack_word-shape :
      (at_ : ℕ)
      → pack_word src at_
        ≡ reversed at_
          + 256
            * (reversed (at_ + 1)
                + 256 * (reversed (at_ + 2) + 256 * (reversed (at_ + 3) + 256 * 0)))
  unfolding pack_word reversed
  pack_word-shape at_ = omega arith

  reversed-last :
      (at_ k n : ℕ) → k < 8 → bit k (reversed at_ + 256 * n) ≡ bit (7 - k) (get_or src at_ 0)
  reversed-last at_ k n h = bit-byte k (reversed at_) n h ∙ reversed-bit at_ k h

  -- Bit 8 * j + i of a word is the pixel of byte j that stands i places from the left.
  pub pack_word-bit :
      (at_ j i k : ℕ)
      → i < 8
      → j < 4
      → k ≡ 8 * j + i
      → bit k (pack_word src at_) ≡ bit (7 - i) (get_or src (at_ + j) 0)
  pack_word-bit at_ zero i k h l e =
      let same : k ≡ i = omega (arith, e) in
      let here : at_ + 0 ≡ at_ = omega arith in
      rw (same, here, pack_word-shape at_) (reversed-last at_ i _ h)
  pack_word-bit at_ (suc zero) i k h l e =
      rw (pack_word-shape at_)
        (bit-next k i _ _ (reversed-small at_) (omega (arith, e)) ∙ reversed-last (at_ + 1) i _ h)
  pack_word-bit at_ (suc (suc zero)) i k h l e = rw (pack_word-shape at_) (
      bit-next k (8 + i) _ _ (reversed-small at_) (omega (arith, e))
      ∙ bit-next (8 + i) i _ _ (reversed-small (at_ + 1)) refl
      ∙ reversed-last (at_ + 2) i _ h)
  pack_word-bit at_ (suc (suc (suc zero))) i k h l e = rw (pack_word-shape at_) (
      bit-next k (16 + i) _ _ (reversed-small at_) (omega (arith, e))
      ∙ bit-next (16 + i) (8 + i) _ _ (reversed-small (at_ + 1)) (omega arith)
      ∙ bit-next (8 + i) i _ _ (reversed-small (at_ + 2)) refl
      ∙ reversed-last (at_ + 3) i 0 h)
  pack_word-bit at_ (suc (suc (suc (suc j)))) i k h l e = absurd (omega (arith, l))
