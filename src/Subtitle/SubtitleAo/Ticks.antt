-- ===== src/Subtitle/SubtitleAo/Ticks.antt =====
-- The conversion of the configured timeouts.
use subtitle_overlay_fw.Base.{ℕ, ◌/◌, ◌^◌, ◌<◌, ◌≡◌, arith}
use subtitle_overlay_fw.Subtitle.SubtitleAo.{ms_to_ticks}

-- For every 32-bit number of milliseconds the conversion, whose products are taken in 32 bits, is
-- the number of whole ticks of ten milliseconds: nothing wraps.
pub ms_to_ticks-exact :
    (timeout_ms : ℕ) → timeout_ms < 2 ^ 32 → ms_to_ticks timeout_ms ≡ timeout_ms / 10
unfolding ms_to_ticks
ms_to_ticks-exact timeout_ms h = omega arith
