-- ===== src/Hal/VideoDma.antt =====
-- src/hal/video_dma/video_dma.c: the user side of the frame buffer driver. What the kernel answers is
-- a parameter: `ioctl` whether a request returns 0, `info` what HDMI_VDMA_GET_INFO fills in. The
-- `log` holds what was done with the driver so far, the latest first; `memset` leaves it alone.
pub mod Frames
use subtitle_overlay_fw.Base.{
  ℕ, Bool, true, false, not, ◌||◌, ◌&&◌, Option, none, some, List, [], ◌∷◌, ◌==◌, if◌then◌else◌,
  ltb,
}
use subtitle_overlay_fw.Base.Int.{ℤ, negsuc}
use subtitle_overlay_fw.Hal.Status.{success, eio, einval}

-- -ENODEV
abbrev pub enodev : ℤ
enodev = negsuc 18

abbrev pub max_frames : ℕ
max_frames = 3

-- video_dma_channel_e
pub data Channel : Type 0 where
  mm2s s2mm : Channel

-- `configure` with width, height, stride and frame index
pub data Request : Type 0 where
  get_info : Request
  configure : Channel → ℕ → ℕ → ℕ → ℕ → Request
  start stop : Channel → Request
  choose : Channel → ℕ → Request

-- What the driver saw: a descriptor that was opened or closed, a request and whether it returned 0
pub data Event : Type 0 where
  opened closed : Event
  asked : Request → Bool → Event

pub record VideoDma : Type 0 where
  pub is_open : Bool
  pub frame_count : ℕ
  pub log : List Event

-- memset: the flag is gone, the descriptor is not closed by it.
abbrev pub zeroed : VideoDma → VideoDma
zeroed dma = record { is_open = false; frame_count = 0; log = dma.log }

abbrev pub answered : Option (ℕ × ℕ) → Bool
answered none = false
answered (some info) = true

module _ (ioctl : Request → Bool) where
  unfoldable pub video_dma_cleanup : VideoDma → VideoDma
  video_dma_cleanup dma = zeroed (
      if dma.is_open
      then record dma {
        log =
            closed
            ∷ asked (stop mm2s) (ioctl (stop mm2s))
            ∷ asked (stop s2mm) (ioctl (stop s2mm))
            ∷ dma.log;
      }
      else dma)

  -- The checks behind HDMI_VDMA_GET_INFO
  unfoldable pub use_info : ℕ → Option (ℕ × ℕ) → VideoDma → ℤ × VideoDma
  use_info frame_count none dma = (eio, video_dma_cleanup dma)
  use_info frame_count (some (count, size)) dma =
      if count == 0 || size == 0
      then (eio, video_dma_cleanup dma)
      else if ltb count frame_count
      then (einval, video_dma_cleanup dma)
      else (success, record dma { frame_count = frame_count })

  unfoldable pub video_dma_init : Bool → Option (ℕ × ℕ) → ℕ → VideoDma → ℤ × VideoDma
  unfolding use_info
  video_dma_init device_opened info frame_count dma =
      if frame_count == 0 || ltb max_frames frame_count
      then (einval, dma)
      else if device_opened
      then use_info frame_count info (record {
        is_open = true;
        frame_count = 0;
        log = asked get_info (answered info) ∷ opened ∷ dma.log;
      })
      else (enodev, zeroed dma)

  abbrev pub issue : Request → VideoDma → ℤ × VideoDma
  issue r dma = (if ioctl r then success else eio, record dma { log = asked r (ioctl r) ∷ dma.log })

  unfoldable pub ioctl_noarg : Request → VideoDma → ℤ × VideoDma
  ioctl_noarg r dma = if dma.is_open then issue r dma else (einval, dma)

  unfoldable pub video_dma_configure : Channel → ℕ → ℕ → ℕ → ℕ → VideoDma → ℤ × VideoDma
  video_dma_configure channel width height stride frame_index dma =
      if not dma.is_open
        || (width == 0 || (height == 0 || (stride == 0 || not (ltb frame_index dma.frame_count))))
      then (einval, dma)
      else issue (configure channel width height stride frame_index) dma

  unfoldable pub video_dma_start : Channel → VideoDma → ℤ × VideoDma
  unfolding ioctl_noarg
  video_dma_start channel dma = ioctl_noarg (start channel) dma

  unfoldable pub video_dma_stop : Channel → VideoDma → ℤ × VideoDma
  unfolding ioctl_noarg
  video_dma_stop channel dma = ioctl_noarg (stop channel) dma

  unfoldable pub video_dma_select_frame : Channel → ℕ → VideoDma → ℤ × VideoDma
  video_dma_select_frame channel frame_index dma =
      if not dma.is_open || not (ltb frame_index dma.frame_count)
      then (einval, dma)
      else issue (choose channel frame_index) dma
