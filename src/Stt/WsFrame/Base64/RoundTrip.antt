-- ===== src/Stt/WsFrame/Base64/RoundTrip.antt =====
-- base64_encode against a decoder as RFC 4648 describes it.
use subtitle_overlay_fw.Base.{
  ◌||◌, Bool-cases, inl, inr, ◌⊎◌, ap₂, ℕ, zero, suc, ◌+◌, ◌-◌, ◌*◌, ◌/◌, ◌%◌, ◌^◌, ◌≡◌, ◌≤◌, ◌<◌,
  refl, Bool, true, false, ◌&&◌, List, [], ◌∷◌, ◌++◌, ltb, leb, ◌==◌, if◌then◌else◌, length, get_or,
  ok, err, enobufs, arith, between, ==_iff, ap,
}
use subtitle_overlay_fw.Stt.WsFrame.Base64.{base64_alphabet, digit, encode_loop, base64_encode}

-- The value of a character: A-Z, a-z, 0-9, + and /
abbrev pub sextet : ℕ → ℕ
sextet c =
    if between 65 90 c
    then c - 65
    else if between 97 122 c
    then c - 71
    else if between 48 57 c
    then c + 4
    else if c == 43
    then 62
    else 63

-- One group of four characters, of which the last two may be padding
abbrev pub group : ℕ → ℕ → ℕ → ℕ → List ℕ
group w x y z =
    let n = sextet w * 2 ^ 18 + sextet x * 2 ^ 12 + sextet y * 2 ^ 6 + sextet z in
    if y == 61
    then n / 2 ^ 16 ∷ []
    else if z == 61
    then n / 2 ^ 16 ∷ n / 2 ^ 8 % 256 ∷ []
    else n / 2 ^ 16 ∷ n / 2 ^ 8 % 256 ∷ n % 256 ∷ []

unfoldable pub rfc_decode : List ℕ → List ℕ
rfc_decode (w ∷ x ∷ y ∷ z ∷ rest) = group w x y z ++ rfc_decode rest
rfc_decode _ = []

abbrev good : ℕ → ℕ → Bool
good c k = sextet c == k && (ltb c 61 || ltb 61 c)

good-means : (c k : ℕ) → good c k ≡ true → (sextet c ≡ k) × ((c == 61) ≡ false)
good-means c k h =
    let both : ((sextet c == k) ≡ true) × ((c == 61) ≡ false) = go (sextet c == k) h in
    ((==_iff (sextet c) k).0 both.0, both.1)
  where
    go : (b : Bool) → (b && (ltb c 61 || ltb 61 c)) ≡ true → (b ≡ true) × ((c == 61) ≡ false)
    go b e = ground (arith, e)

all_below : (ℕ → Bool) → ℕ → Bool
all_below f zero = true
all_below f (suc n) = f n && all_below f n

all_below-at : (f : ℕ → Bool) (n k : ℕ) → all_below f n ≡ true → k < n → f k ≡ true
unfolding all_below
all_below-at f zero k h l = elim l [ ]
all_below-at f (suc n) k h l = elim (Bool-cases (k == n)) [
  | inl e ↦ let same : k ≡ n = (==_iff k n).0 e in rw same (ground (arith, h))
  | inr e ↦ all_below-at f n k (ground (arith, h)) (ground (arith, e, l))
]

-- Every entry of the table has its value, and none is the padding character.
table : all_below (λ k. good (get_or base64_alphabet k 0) k) 64 ≡ true
unfolding all_below
table = refl

digit-sextet :
    (triple shift : ℕ)
    → (sextet (digit triple shift) ≡ triple / 2 ^ shift % 64) × ((digit triple shift == 61) ≡ false)
unfolding digit
digit-sextet triple shift = good-means (digit triple shift) (triple / 2 ^ shift % 64) (
    all_below-at (λ k. good (get_or base64_alphabet k 0) k) 64 (triple / 2 ^ shift % 64) table
      (omega arith))

-- Bytes
abbrev pub AreBytes : List ℕ → Type 0
AreBytes [] = Unit
AreBytes (c ∷ cs) = (c < 256) × AreBytes cs

sextets-sum :
    (t : ℕ)
    → t < 2 ^ 24
    → t / 2 ^ 18 % 64 * 2 ^ 18 + t / 2 ^ 12 % 64 * 2 ^ 12 + t / 2 ^ 6 % 64 * 2 ^ 6 + t / 2 ^ 0 % 64
      ≡ t
sextets-sum t h = omega arith

group-three :
    (t : ℕ)
    → t < 2 ^ 24
    → group (digit t 18) (digit t 12) (digit t 6) (digit t 0)
      ≡ t / 2 ^ 16 ∷ t / 2 ^ 8 % 256 ∷ t % 256 ∷ []
group-three t h =
    let (w, _) = digit-sextet t 18 in
    let (x, _) = digit-sextet t 12 in
    let (y, y61) = digit-sextet t 6 in
    let (z, z61) = digit-sextet t 0 in rw (y61, z61, w, x, y, z, sextets-sum t h) refl

group-two :
    (t : ℕ)
    → t < 2 ^ 24
    → t % 2 ^ 8 ≡ 0
    → group (digit t 18) (digit t 12) (digit t 6) 61 ≡ t / 2 ^ 16 ∷ t / 2 ^ 8 % 256 ∷ []
group-two t h low =
    let (w, _) = digit-sextet t 18 in
    let (x, _) = digit-sextet t 12 in
    let (y, y61) = digit-sextet t 6 in
    let n = t / 2 ^ 18 % 64 * 2 ^ 18 + t / 2 ^ 12 % 64 * 2 ^ 12 + t / 2 ^ 6 % 64 * 2 ^ 6 + 63 in
    let high : n / 2 ^ 16 ≡ t / 2 ^ 16 = omega arith in
    let middle : n / 2 ^ 8 % 256 ≡ t / 2 ^ 8 % 256 = omega arith in
    rw (y61, w, x, y) (ap₂ (λ p q. p ∷ q ∷ []) high middle)

group-one :
    (t : ℕ) → t < 2 ^ 24 → t % 2 ^ 16 ≡ 0 → group (digit t 18) (digit t 12) 61 61 ≡ t / 2 ^ 16 ∷ []
group-one t h low =
    let (w, _) = digit-sextet t 18 in
    let (x, _) = digit-sextet t 12 in
    let n = t / 2 ^ 18 % 64 * 2 ^ 18 + t / 2 ^ 12 % 64 * 2 ^ 12 + 63 * 2 ^ 6 + 63 in
    let high : n / 2 ^ 16 ≡ t / 2 ^ 16 = omega arith in rw (w, x) (ap (λ p. p ∷ []) high)

rfc_decode-encode_loop : (bytes : List ℕ) → AreBytes bytes → rfc_decode (encode_loop bytes) ≡ bytes
unfolding rfc_decode encode_loop
rfc_decode-encode_loop [] h = refl
rfc_decode-encode_loop (a ∷ []) (i, h) =
    let t = a * 2 ^ 16 in
    let high : t / 2 ^ 16 ≡ a = omega arith in
    rw (group-one t (omega arith) (omega arith)) (ap (λ p. p ∷ []) high)
rfc_decode-encode_loop (a ∷ b ∷ []) (i, (j, h)) =
    let t = a * 2 ^ 16 + b * 2 ^ 8 in
    let high : t / 2 ^ 16 ≡ a = omega arith in
    let middle : t / 2 ^ 8 % 256 ≡ b = omega arith in
    rw (group-two t (omega arith) (omega arith)) (ap₂ (λ p q. p ∷ q ∷ []) high middle)
rfc_decode-encode_loop (a ∷ b ∷ c ∷ cs) (i, (j, (k, h))) =
    let t = a * 2 ^ 16 + b * 2 ^ 8 + c in
    let high : t / 2 ^ 16 ≡ a = omega arith in
    let middle : t / 2 ^ 8 % 256 ≡ b = omega arith in
    let low : t % 256 ≡ c = omega arith in
    rw (group-three t (omega arith), high, middle, low, rfc_decode-encode_loop cs h) refl

length-encode_loop : (bytes : List ℕ) → length (encode_loop bytes) ≡ (length bytes + 2) / 3 * 4
unfolding encode_loop
length-encode_loop [] = omega arith
length-encode_loop (a ∷ []) = omega arith
length-encode_loop (a ∷ b ∷ []) = omega arith
length-encode_loop (a ∷ b ∷ c ∷ cs) = omega (arith, length-encode_loop cs)

-- For every list of bytes and every buffer size: either the buffer cannot hold four characters for
-- each started group of three bytes and the terminator, and the result is ENOBUFS, or it can, and
-- that many characters are written and an RFC 4648 decoder reads the bytes back from them.
pub base64_encode-rfc_decode :
    (bytes : List ℕ) (out_size : ℕ)
    → AreBytes bytes
    → ((out_size ≤ (length bytes + 2) / 3 * 4) × (base64_encode bytes out_size ≡ err enobufs))
      ⊎ ((text : List ℕ) × (base64_encode bytes out_size ≡ ok text)
          × (length text ≡ (length bytes + 2) / 3 * 4)
          × (length text < out_size)
          × (rfc_decode text ≡ bytes))
unfolding base64_encode
base64_encode-rfc_decode bytes out_size h =
    let len = length-encode_loop bytes in
    elim (Bool-cases (leb out_size ((length bytes + 2) / 3 * 4))) [
      | inl small ↦ inl (ground (arith, small), rw small refl)
      | inr large ↦ inr (
        encode_loop bytes,
        rw large refl,
        len,
        ground (arith, large, len),
        rfc_decode-encode_loop bytes h,
      )
    ]
