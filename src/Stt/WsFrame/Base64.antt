-- ===== src/Stt/WsFrame/Base64.antt =====
-- base64_encode of stt_ws_frame.c. Characters are their codes; the result is what stands in `out`
-- in front of the terminator, and its length is the C result.
pub mod RoundTrip
use subtitle_overlay_fw.Base.{
  ℕ, ◌+◌, ◌*◌, ◌/◌, ◌%◌, ◌^◌, Bool, List, [], ◌∷◌, leb, if◌then◌else◌, length, get_or, Result, ok,
  err, enobufs,
}

abbrev pub base64_alphabet : List ℕ
base64_alphabet =
    65 ∷ 66 ∷ 67 ∷ 68 ∷ 69 ∷ 70 ∷ 71 ∷ 72 ∷ 73 ∷ 74 ∷ 75 ∷ 76 ∷ 77 ∷ 78 ∷ 79 ∷ 80 ∷ 81 ∷ 82 ∷ 83
    ∷ 84 ∷ 85 ∷ 86 ∷ 87 ∷ 88 ∷ 89 ∷ 90 ∷ 97 ∷ 98 ∷ 99 ∷ 100 ∷ 101 ∷ 102 ∷ 103 ∷ 104 ∷ 105 ∷ 106
    ∷ 107 ∷ 108 ∷ 109 ∷ 110 ∷ 111 ∷ 112 ∷ 113 ∷ 114 ∷ 115 ∷ 116 ∷ 117 ∷ 118 ∷ 119 ∷ 120 ∷ 121 ∷ 122
    ∷ 48 ∷ 49 ∷ 50 ∷ 51 ∷ 52 ∷ 53 ∷ 54 ∷ 55 ∷ 56 ∷ 57 ∷ 43 ∷ 47 ∷ []

-- base64_alphabet[(triple >> shift) & 0x3F]
unfoldable pub digit : ℕ → ℕ → ℕ
digit triple shift = get_or base64_alphabet (triple / 2 ^ shift % 64) 0

-- The loop; a round takes three bytes, or the one or two that remain.
unfoldable pub encode_loop : List ℕ → List ℕ
unfolding digit
encode_loop [] = []
encode_loop (a ∷ []) = let triple = a * 2 ^ 16 in digit triple 18 ∷ digit triple 12 ∷ 61 ∷ 61 ∷ []
encode_loop (a ∷ b ∷ []) =
    let triple = a * 2 ^ 16 + b * 2 ^ 8 in
    digit triple 18 ∷ digit triple 12 ∷ digit triple 6 ∷ 61 ∷ []
encode_loop (a ∷ b ∷ c ∷ cs) =
    let triple = a * 2 ^ 16 + b * 2 ^ 8 + c in
    digit triple 18 ∷ digit triple 12 ∷ digit triple 6 ∷ digit triple 0 ∷ encode_loop cs

unfoldable pub base64_encode : List ℕ → ℕ → Result (List ℕ)
unfolding encode_loop
base64_encode bytes out_size =
    if leb out_size ((length bytes + 2) / 3 * 4) then err enobufs else ok (encode_loop bytes)
