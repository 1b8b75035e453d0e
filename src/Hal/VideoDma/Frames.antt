-- ===== src/Hal/VideoDma/Frames.antt =====
-- What the log of the frame buffer driver says: which channels transfer, which memory, and how many
-- descriptors are open.
use subtitle_overlay_fw.Base.{
  ℕ, suc, ◌-◌, ◌*◌, ◌≤◌, ◌<◌, Bool, true, false, not, ◌||◌, ◌&&◌, List, [], ◌∷◌, if◌then◌else◌,
}
use subtitle_overlay_fw.Hal.VideoDma.{
  Channel, mm2s, s2mm, configure, start, stop, Event, opened, closed, asked,
}

abbrev pub same : Channel → Channel → Bool
same mm2s mm2s = true
same s2mm s2mm = true
same _ _ = false

-- The channel was asked to start, and not asked to stop since: what may transfer. A start that
-- failed counts.
abbrev pub transfers : Channel → List Event → Bool
transfers c [] = false
transfers c (asked (start d) done ∷ l) = same c d || transfers c l
transfers c (asked (stop d) done ∷ l) = not (same c d) && transfers c l
transfers c (_ ∷ l) = transfers c l

-- The last start of the channel succeeded, and it was not asked to stop since.
abbrev pub runs : Channel → List Event → Bool
runs c [] = false
runs c (asked (start d) done ∷ l) = if same c d then done else runs c l
runs c (asked (stop d) done ∷ l) = not (same c d) && runs c l
runs c (_ ∷ l) = runs c l

-- The number of descriptors that were opened and not closed
abbrev pub descriptors : List Event → ℕ
descriptors [] = 0
descriptors (opened ∷ l) = suc (descriptors l)
descriptors (closed ∷ l) = descriptors l - 1
descriptors (_ ∷ l) = descriptors l

-- Every configured transfer stays inside one frame of 1080 lines of 1920 pixels of 3 bytes, and
-- is of frame 0, the only one that is asked for.
abbrev pub InFrame : List Event → Type 0
InFrame [] = Unit
InFrame (asked (configure c width height stride frame_index) done ∷ l) =
    (width * 3 ≤ stride) × ((stride * height ≤ 1920 * 3 * 1080) × ((frame_index < 1) × InFrame l))
InFrame (_ ∷ l) = InFrame l
