-- ===== src/Utils/NumberParse/Decimal.antt =====
-- number_parse_u32 against the decimal number that a text denotes.
use subtitle_overlay_fw.Base.{
  ℕ, ◌+◌, ◌-◌, ◌*◌, ◌^◌, ◌≤◌, ◌<◌, ◌≡◌, ◌≢◌, ◌↔◌, ◌⊎◌, refl, true, some, List, [], ◌∷◌, arith, ok,
  err, erange,
}
use subtitle_overlay_fw.Utils.NumberParse.{parse_digits, number_parse_u32}

abbrev pub IsDigits : List ℕ → Type 0
IsDigits [] = Unit
IsDigits (c ∷ cs) = (b'0' ≤ c) × (c ≤ b'9') × IsDigits cs

-- The number that digits denote behind a prefix of value `acc`, with no bound on its size.
abbrev pub decimal_from : ℕ → List ℕ → ℕ
decimal_from acc [] = acc
decimal_from acc (c ∷ cs) = decimal_from (acc * 10 + (c - b'0')) cs

abbrev pub decimal : List ℕ → ℕ
decimal = decimal_from 0

decimal_from-le : (acc : ℕ) (cs : List ℕ) → acc ≤ decimal_from acc cs
decimal_from-le acc [] = omega arith
decimal_from-le acc (c ∷ cs) = omega (arith, decimal_from-le (acc * 10 + (c - b'0')) cs)

module _ (lo hi : ℕ) (small : hi < 2 ^ 32) where
  parse_digits-ok :
      (acc : ℕ) (cs : List ℕ) (v : ℕ)
      → acc ≤ hi
      → parse_digits lo hi acc cs ≡ ok v
      → IsDigits cs × (decimal_from acc cs ≡ v) × (lo ≤ v) × (v ≤ hi)
  unfolding parse_digits
  parse_digits-ok acc [] v h e = ground arith
  parse_digits-ok acc (c ∷ cs) v h e = ground (arith, parse_digits-ok (acc * 10 + (c - b'0')) cs v)

  parse_digits_complete :
      (acc : ℕ) (cs : List ℕ)
      → IsDigits cs
      → decimal_from acc cs ≤ hi
      → lo ≤ decimal_from acc cs
      → parse_digits lo hi acc cs ≡ ok (decimal_from acc cs)
  unfolding parse_digits
  parse_digits_complete acc [] d h l = ground arith
  parse_digits_complete acc (c ∷ cs) d h l =
      let next = acc * 10 + (c - b'0') in
      ground (arith, parse_digits_complete next cs, decimal_from-le next cs)

  parse_digits-erange :
      (acc : ℕ) (cs : List ℕ)
      → acc ≤ hi
      → IsDigits cs
      → (decimal_from acc cs < lo) ⊎ (hi < decimal_from acc cs)
      → parse_digits lo hi acc cs ≡ err erange
  unfolding parse_digits
  parse_digits-erange acc [] a d h = ground arith
  parse_digits-erange acc (c ∷ cs) a d h =
      ground (arith, parse_digits-erange (acc * 10 + (c - b'0')) cs)

-- For bounds lo ≤ hi below 2 ^ 32: a span is accepted with value v exactly when it is non-empty,
-- all decimal digits, and denotes v (computed without any bound), with lo ≤ v ≤ hi.
pub number_parse_u32-eq-ok :
    (lo hi : ℕ) (text : List ℕ) (v : ℕ)
    → hi < 2 ^ 32
    → lo ≤ hi
    → (number_parse_u32 (some text) lo hi true ≡ ok v)
      ↔ ((text ≢ []) × IsDigits text × (decimal text ≡ v) × (lo ≤ v) × (v ≤ hi))
unfolding number_parse_u32
number_parse_u32-eq-ok lo hi [] v s b = (λ h. cc, λ h. absurd (h.0 refl))
number_parse_u32-eq-ok lo hi (c ∷ cs) v s b = (
  λ h. ground (arith, parse_digits-ok lo hi s 0 (c ∷ cs) v),
  λ h. ground (arith, parse_digits_complete lo hi s 0 (c ∷ cs)),
)

-- For bounds lo ≤ hi below 2 ^ 32: a non-empty span of digits whose value lies outside the
-- bounds, however long, is refused as -ERANGE.
pub number_parse_u32-erange :
    (lo hi : ℕ) (text : List ℕ)
    → hi < 2 ^ 32
    → lo ≤ hi
    → text ≢ []
    → IsDigits text
    → (decimal text < lo) ⊎ (hi < decimal text)
    → number_parse_u32 (some text) lo hi true ≡ err erange
unfolding number_parse_u32
number_parse_u32-erange lo hi [] s b ne d h = absurd (ne refl)
number_parse_u32-erange lo hi (c ∷ cs) s b ne d h =
    ground (arith, parse_digits-erange lo hi s 0 (c ∷ cs))
