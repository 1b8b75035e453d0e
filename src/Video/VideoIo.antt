-- ===== src/Video/VideoIo.antt =====
-- src/svc/video_pipeline/video_io.c: the input and the output, over the drivers of src/hal. Both hold
-- a pointer to the one DMA adapter, so that a function takes the three together, as `Transport`;
-- `has_dma` is whether the pointer is set. What the devices answer is the record `Answers`. Of
-- src/hal/video_dynclk/video_dynclk.c it holds the statuses of video_dynclk_init and
-- video_dynclk_configure: the clock's registers are left out, as is the status of a stop, which is
-- ignored.
pub mod Wired
pub mod Started
use subtitle_overlay_fw.Base.{
  ℕ, zero, ◌+◌, ◌-◌, ◌*◌, ◌%◌, ◌^◌, Bool, true, false, not, ◌||◌, Option, none, some, List, [], ◌∷◌,
  ◌==◌, if◌then◌else◌,
}
use subtitle_overlay_fw.Base.Int.{ℤ, pos, negsuc}
use subtitle_overlay_fw.Hal.Status.{success, eio, einval}
use subtitle_overlay_fw.Hal.HwPlatform.{Platform}
use subtitle_overlay_fw.Hal.VideoDma.{
  Request, mm2s, s2mm, VideoDma, video_dma_configure, video_dma_start, video_dma_stop,
  video_dma_select_frame,
}
use subtitle_overlay_fw.Hal.VideoVtc.{
  VtcMode, Role, generator, detector, VideoVtc, video_vtc_init, video_vtc_configure_generator,
  video_vtc_start_generator, video_vtc_stop_generator, video_vtc_start_detector,
  video_vtc_read_detector_timing, VideoGpio, video_gpio_init, video_gpio_is_locked,
}
use subtitle_overlay_fw.Subtitle.SubtitleAo.{is_zero}

-- What the devices and their drivers answer during one call of the pipeline
pub record Answers : Type 0 where
  pub opened : Bool
  pub mapped : ℕ → Option ℕ
  pub regions : List (ℕ × ℕ)
  pub device_opened : Bool
  pub info : Option (ℕ × ℕ)
  pub ioctl : Request → Bool
  pub vtc_config : Role → Option ℕ
  pub vtc_initializes : Role → Bool
  pub vtc_locked : Bool
  pub vtc_detected : ℕ × ℕ
  pub gpio_word : ℕ
  pub dynclk_init : ℤ
  pub dynclk_configure : ℕ → ℤ

pub record Input : Type 0 where
  pub gpio : VideoGpio
  pub vtc : VideoVtc
  pub has_dma : Bool
  pub stride : ℕ
  pub detector_started_ms : ℕ
  pub detector_started : Bool
  pub running : Bool

pub record Output : Type 0 where
  pub vtc : VideoVtc
  pub has_dma : Bool
  pub mode : Option VtcMode
  pub stride : ℕ
  pub running : Bool

pub record Transport : Type 0 where
  pub dma : VideoDma
  pub output : Output
  pub input : Input

-- `if (status != 0) return status;` between two calls
infixl 5 ◌>>◌
unfoldable pub ◌>>◌ : {S : Type 0} → (S → ℤ × S) → (S → ℤ × S) → S → ℤ × S
◌>>◌ m k s = let (status, t) = m s in let rest = k t in if is_zero status then rest else (status, t)

-- A call of one of the drivers
abbrev pub on_dma : (VideoDma → ℤ × VideoDma) → Transport → ℤ × Transport
on_dma f t = let (status, dma) = f t.dma in (status, record t { dma = dma })

abbrev pub on_input_vtc : (VideoVtc → ℤ × VideoVtc) → Transport → ℤ × Transport
on_input_vtc f t =
    let (status, vtc) = f t.input.vtc in (status, record t { input = record t.input { vtc = vtc } })

abbrev pub on_output_vtc : (VideoVtc → ℤ × VideoVtc) → Transport → ℤ × Transport
on_output_vtc f t =
    let (status, vtc) = f t.output.vtc in
    (status, record t { output = record t.output { vtc = vtc } })

abbrev pub on_gpio : (VideoGpio → ℤ × VideoGpio) → Transport → ℤ × Transport
on_gpio f t =
    let (status, gpio) = f t.input.gpio in
    (status, record t { input = record t.input { gpio = gpio } })

-- Statements that have no status
abbrev pub then_set : (Transport → Transport) → Transport → ℤ × Transport
then_set f t = (success, f t)

module _ (a : Answers) where
  unfoldable pub video_input_init : Platform → ℕ → Transport → ℤ × Transport
  video_input_init platform stride t =
      let blank : Input = record {
        gpio = record t.input.gpio { base = 0 };
        vtc = record t.input.vtc { initialized = false };
        has_dma = true;
        stride = stride;
        detector_started_ms = 0;
        detector_started = false;
        running = false;
      } in
      let next =
        (on_gpio (video_gpio_init platform)
            >> on_input_vtc (
                video_vtc_init (a.vtc_config detector) (a.vtc_initializes detector) a.regions
                  platform))
          (record t { input = blank }) in
      if stride == 0 then (einval, t) else next

  unfoldable pub video_input_locked : Transport → Bool
  video_input_locked t = video_gpio_is_locked a.gpio_word t.input.gpio

  unfoldable pub video_input_start_detector : ℕ → Transport → ℤ × Transport
  video_input_start_detector now_ms t =
      let next =
        (on_input_vtc video_vtc_start_detector
            >> then_set (λ (u : Transport). record u {
              input = record u.input { detector_started = true; detector_started_ms = now_ms };
            }))
          t in
      if t.input.detector_started then (success, t) else next

  -- Unsigned subtraction wraps.
  unfoldable pub video_input_detector_elapsed_ms : ℕ → Transport → ℕ
  video_input_detector_elapsed_ms now_ms t =
      if t.input.detector_started
      then (now_ms + 2 ^ 32 - t.input.detector_started_ms) % 2 ^ 32
      else 0

  unfoldable pub video_input_reset_detector : Transport → Transport
  video_input_reset_detector t = record t {
    input = record t.input { detector_started = false; detector_started_ms = 0 };
  }

  unfoldable pub video_input_read_timing : Transport → ℤ × (ℕ × ℕ)
  video_input_read_timing t = video_vtc_read_detector_timing a.vtc_locked a.vtc_detected t.input.vtc

  unfoldable pub video_input_stop : Transport → Transport
  video_input_stop t =
      let dma = if t.input.has_dma then (video_dma_stop a.ioctl s2mm t.dma).1 else t.dma in
      record t { dma = dma; input = record t.input { running = false; detector_started = false } }

  -- What starts the channel, after a stop
  unfoldable pub capture_calls : VtcMode → ℕ → ℕ → Transport → ℤ × Transport
  capture_calls mode frame_index stride =
      on_dma (video_dma_configure a.ioctl s2mm mode.width mode.height stride frame_index)
      >> on_dma (video_dma_start a.ioctl s2mm)
      >> then_set (λ (v : Transport). record v { input = record v.input { running = true } })

  unfoldable pub video_input_start_capture : VtcMode → ℕ → Transport → ℤ × Transport
  unfolding video_input_stop capture_calls
  video_input_start_capture mode frame_index t =
      let u = if t.input.running then video_input_stop t else t in
      if t.input.has_dma then capture_calls mode frame_index t.input.stride u else (einval, t)

  unfoldable pub video_output_init : Platform → ℕ → Transport → ℤ × Transport
  video_output_init platform stride t =
      let blank : Output = record {
        vtc = record t.output.vtc { initialized = false };
        has_dma = true;
        mode = none;
        stride = stride;
        running = false;
      } in
      let next =
        ((λ (u : Transport). (a.dynclk_init, u))
            >> on_output_vtc (
                video_vtc_init (a.vtc_config generator) (a.vtc_initializes generator) a.regions
                  platform))
          (record t { output = blank }) in
      if stride == 0 then (einval, t) else next

  unfoldable pub video_output_stop : Transport → Transport
  video_output_stop t =
      let dma = if t.output.has_dma then (video_dma_stop a.ioctl mm2s t.dma).1 else t.dma in
      record t {
        dma = dma;
        output = record t.output {
          vtc = video_vtc_stop_generator t.output.vtc;
          running = false;
          mode = none;
        };
      }

  unfoldable pub output_calls : VtcMode → ℕ → ℕ → Transport → ℤ × Transport
  output_calls mode frame_index stride =
      (λ (v : Transport). (a.dynclk_configure mode.pixel_clock_khz, v))
      >> on_output_vtc (video_vtc_configure_generator mode)
      >> on_output_vtc (λ (vtc : VideoVtc). (success, video_vtc_start_generator vtc))
      >> on_dma (video_dma_configure a.ioctl mm2s mode.width mode.height stride frame_index)
      >> on_dma (video_dma_start a.ioctl mm2s)
      >> on_dma (video_dma_select_frame a.ioctl mm2s frame_index)
      >> then_set (λ (v : Transport). record v {
        output = record v.output { mode = some mode; running = true };
      })

  unfoldable pub video_output_start : VtcMode → ℕ → Transport → ℤ × Transport
  unfolding video_output_stop output_calls
  video_output_start mode frame_index t =
      let u = if t.output.running then video_output_stop t else t in
      if t.output.has_dma then output_calls mode frame_index t.output.stride u else (einval, t)
