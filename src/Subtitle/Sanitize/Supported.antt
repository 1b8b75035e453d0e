-- ===== src/Subtitle/Sanitize/Supported.antt =====
-- Texts that the subtitle font can show.
use subtitle_overlay_fw.Base.{ℕ, ◌≤◌, ◌≡◌, ◌≢◌, true, List, [], ◌∷◌, ◌++◌}
use subtitle_overlay_fw.Subtitle.Sanitize.{is_supported_spanish}

-- Printable ASCII but the double quote, and whole two-byte Spanish characters.
pub data IsSupported : List ℕ → Type 0 where
  nil : IsSupported []
  ascii :
      {c : ℕ} {cs : List ℕ} → 0x20 ≤ c → c ≤ 0x7e → c ≢ b'"' → IsSupported cs → IsSupported (c ∷ cs)
  spanish :
      {lead next : ℕ} {cs : List ℕ}
      → is_supported_spanish lead next ≡ true
      → IsSupported cs
      → IsSupported (lead ∷ next ∷ cs)

pub IsSupported-append : {xs ys : List ℕ} → IsSupported xs → IsSupported ys → IsSupported (xs ++ ys)
IsSupported-append nil q = q
IsSupported-append (ascii lo hi ne p) q = ascii lo hi ne (IsSupported-append p q)
IsSupported-append (spanish s p) q = spanish s (IsSupported-append p q)
