-- ===== src/Stt/WsFrame/Handshake/Stable.antt =====
-- What follows the header block of the response plays no part in the handshake.
use subtitle_overlay_fw.Base.{
  ℕ, ◌+◌, ◌≡◌, ◌≢◌, ◌≤◌, refl, true, ◌&&◌, Bool-cases, inl, inr, some, List, [], ◌∷◌, ◌++◌, ◌==◌,
  length, take-append_le, arith,
}
use subtitle_overlay_fw.Stt.WsFrame.Handshake.{find_header_end, validate_bytes, validate_response}

-- An end that is found is found in the longer buffer too, and lies within the shorter one.
find_header_end-append :
    (i : ℕ) (xs ys : List ℕ)
    → find_header_end i xs ≢ 0
    → (find_header_end i (xs ++ ys) ≡ find_header_end i xs) × (find_header_end i xs ≤ i + length xs)
unfolding find_header_end
find_header_end-append i [] ys h = absurd (h refl)
find_header_end-append i (a ∷ []) ys h = absurd (h refl)
find_header_end-append i (a ∷ b ∷ []) ys h = absurd (h refl)
find_header_end-append i (a ∷ b ∷ c ∷ []) ys h = absurd (h refl)
find_header_end-append i (a ∷ b ∷ c ∷ d ∷ rest) ys h =
    let ih = find_header_end-append (i + 1) (b ∷ c ∷ d ∷ rest) ys in
    elim (Bool-cases (a == 13 && (b == 10 && (c == 13 && d == 10)))) [
      | inl e ↦ rw e (refl, omega arith)
      | inr e ↦ let (q, l) = ih (λ z. h (rw e z)) in rw e (q, omega (arith, l))
    ]

-- Once the response is long enough to be judged, which is when its header block is complete, the
-- verdict, accepted with the length of the block or refused, is the same whatever bytes follow.
pub validate_response-append :
    (response more expected : List ℕ)
    → find_header_end 0 response ≢ 0
    → (validate_response (some (response ++ more)) (some expected) true
        ≡ validate_response (some response) (some expected) true)
unfolding validate_response validate_bytes
validate_response-append response more expected h =
    let (q, l) = find_header_end-append 0 response more h in
    rw (q, take-append_le (find_header_end 0 response) response more (omega (arith, l))) refl
