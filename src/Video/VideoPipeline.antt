-- ===== src/Video/VideoPipeline.antt =====
-- src/svc/video_pipeline/video_pipeline.c: the picture's path from the input to the output, one poll
-- at a time. The platform that it shares with others is passed along.
pub mod Seen
pub mod Phases
pub mod Sound
pub mod Startup
pub mod Live
pub mod Unchanged
use subtitle_overlay_fw.Base.{
  ℕ, ◌+◌, ◌*◌, Bool, true, false, not, ◌||◌, ◌&&◌, Option, none, some, ◌==◌, if◌then◌else◌, ltb,
  leb,
}
use subtitle_overlay_fw.Base.Int.{ℤ, pos, negsuc}
use subtitle_overlay_fw.Hal.Status.{success, eio}
use subtitle_overlay_fw.Hal.HwPlatform.{Platform, hw_platform_init, hw_platform_cleanup}
use subtitle_overlay_fw.Hal.VideoDma.{VideoDma, video_dma_init, video_dma_cleanup, zeroed}
use subtitle_overlay_fw.Hal.VideoVtc.{VtcMode, enodata}
use subtitle_overlay_fw.Video.Modes.{video_modes_find}
use subtitle_overlay_fw.Video.VideoIo.{
  Answers, Input, Output, Transport, ◌>>◌, on_dma, video_input_init, video_input_locked,
  video_input_start_detector, video_input_detector_elapsed_ms, video_input_reset_detector,
  video_input_read_timing, video_input_start_capture, video_input_stop, video_output_init,
  video_output_start, video_output_stop,
}
use subtitle_overlay_fw.Subtitle.SubtitleAo.{is_zero}

-- VIDEO_PIPELINE_FRAME_COUNT, _PASSTHROUGH_FRAME, _MAX_WIDTH, _MAX_HEIGHT, _STRIDE and
-- _TIMING_TIMEOUT_MS
abbrev pub frame_count : ℕ
frame_count = 1

abbrev pub passthrough_frame : ℕ
passthrough_frame = 0

abbrev pub max_width : ℕ
max_width = 1920

abbrev pub max_height : ℕ
max_height = 1080

abbrev pub stride : ℕ
stride = max_width * 3

abbrev pub timing_timeout_ms : ℕ
timing_timeout_ms = 2000

-- video_pipeline_state_e
pub data Phase : Type 0 where
  uninitialized waiting_for_signal acquiring_timing streaming unsupported_input failed : Phase

-- video_pipeline_poll_result_e
pub data PollResult : Type 0 where
  unchanged signal_detected streaming_started signal_lost unsupported timing_timeout poll_error :
      PollResult

pub record VideoPipeline : Type 0 where
  pub transport : Transport
  pub active_mode : Option VtcMode
  pub input_timing : ℕ × ℕ
  pub state : Phase
  pub platform_ready : Bool

-- memset: what the devices were told before stays told.
abbrev pub blank : VideoPipeline → VideoPipeline
blank p = record {
  transport = record {
    dma = zeroed p.transport.dma;
    output = record {
      vtc = record p.transport.output.vtc { initialized = false };
      has_dma = false;
      mode = none;
      stride = 0;
      running = false;
    };
    input = record {
      gpio = record p.transport.input.gpio { base = 0 };
      vtc = record p.transport.input.vtc { initialized = false };
      has_dma = false;
      stride = 0;
      detector_started_ms = 0;
      detector_started = false;
      running = false;
    };
  };
  active_mode = none;
  input_timing = (0, 0);
  state = uninitialized;
  platform_ready = false;
}

-- Whether a timing is not that of the active mode. While streaming there is one.
abbrev pub differs : ℕ → ℕ → Option VtcMode → Bool
differs width height none = false
differs width height (some m) = not (width == m.width) || not (height == m.height)

module _ (a : Answers) where
  unfoldable pub stop_transport : VideoPipeline → VideoPipeline
  stop_transport p = record p {
    transport = video_output_stop a (video_input_stop a p.transport);
    active_mode = none;
    input_timing = (0, 0);
  }

  unfoldable pub start_passthrough : VtcMode → VideoPipeline → PollResult × VideoPipeline
  start_passthrough mode p =
      let (status, t) = video_output_start a mode passthrough_frame p.transport in
      let (captured, u) = video_input_start_capture a mode passthrough_frame t in
      if not (is_zero status)
      then (poll_error, record p { transport = t; state = failed })
      else if not (is_zero captured)
      then (poll_error, record p { transport = video_output_stop a u; state = failed })
      else (
        streaming_started,
        record p { transport = u; active_mode = some mode; state = streaming },
      )

  unfoldable pub video_pipeline_cleanup : VideoPipeline → Platform → VideoPipeline × Platform
  unfolding stop_transport
  video_pipeline_cleanup p platform =
      let q = stop_transport p in
      let r = record q {
        transport = record q.transport { dma = video_dma_cleanup a.ioctl q.transport.dma };
      } in
      (blank r, if p.platform_ready then hw_platform_cleanup platform else platform)

  -- The three initialisations after the platform's
  unfoldable pub init_transport : Platform → Transport → ℤ × Transport
  init_transport platform =
      on_dma (video_dma_init a.ioctl a.device_opened a.info frame_count)
      >> video_output_init a platform stride
      >> video_input_init a platform stride

  unfoldable pub video_pipeline_init : VideoPipeline → Platform → ℤ × (VideoPipeline × Platform)
  unfolding init_transport video_pipeline_cleanup
  video_pipeline_init p platform =
      let (ready, held) = hw_platform_init a.opened a.mapped platform in
      let q = blank p in
      let (status, t) = init_transport held q.transport in
      let r = record q { transport = t; platform_ready = true } in
      if not ready
      then (eio, (record q { state = failed }, held))
      else if is_zero status
      then (success, (record r { state = waiting_for_signal }, held))
      else (status, video_pipeline_cleanup r held)

  -- The three cases of the switch, for a locked input
  unfoldable pub poll_streaming : VideoPipeline → PollResult × VideoPipeline
  unfolding stop_transport
  poll_streaming p =
      let (status, (width, height)) = video_input_read_timing a p.transport in
      if is_zero status && differs width height p.active_mode
      then (signal_lost, record (stop_transport p) { state = acquiring_timing })
      else (unchanged, p)

  -- The mode of a timing, if it fits the framebuffer
  unfoldable pub supported_mode : ℕ × ℕ → Option VtcMode
  supported_mode (width, height) =
      if ltb max_width width || ltb max_height height then none else video_modes_find width height

  unfoldable pub take_timing : ℕ × ℕ → VideoPipeline → PollResult × VideoPipeline
  unfolding supported_mode
  take_timing timing p =
      let q = record p { input_timing = timing } in
      elim (supported_mode timing) [
        | none ↦ (unsupported, record q { state = unsupported_input })
        | some mode ↦ start_passthrough mode q
      ]

  -- status == -ENODATA
  abbrev pub is_enodata : ℤ → Bool
  is_enodata (pos n) = false
  is_enodata (negsuc n) = n == 60

  unfoldable pub poll_acquiring : ℕ → VideoPipeline → PollResult × VideoPipeline
  unfolding take_timing
  poll_acquiring now_ms p =
      let (status, timing) = video_input_read_timing a p.transport in
      if is_enodata status
      then if leb timing_timeout_ms (video_input_detector_elapsed_ms a now_ms p.transport)
        then (
          timing_timeout,
          record p {
            transport = video_input_reset_detector a p.transport;
            state = waiting_for_signal;
          },
        )
        else (unchanged, p)
      else if not (is_zero status)
      then (poll_error, record p { state = failed })
      else take_timing timing p

  unfoldable pub poll_waiting : ℕ → VideoPipeline → PollResult × VideoPipeline
  poll_waiting now_ms p =
      let (status, t) = video_input_start_detector a now_ms p.transport in
      if is_zero status
      then (signal_detected, record p { transport = t; state = acquiring_timing })
      else (poll_error, record p { transport = t; state = failed })

  unfoldable pub poll_locked : Phase → ℕ → VideoPipeline → PollResult × VideoPipeline
  poll_locked streaming now_ms p = poll_streaming p
  poll_locked unsupported_input now_ms p = (unchanged, p)
  poll_locked acquiring_timing now_ms p = poll_acquiring now_ms p
  poll_locked uninitialized now_ms p = (poll_error, p)
  poll_locked waiting_for_signal now_ms p = poll_waiting now_ms p
  poll_locked failed now_ms p = poll_waiting now_ms p

  -- Without a lock on the input
  unfoldable pub poll_unlocked : Phase → VideoPipeline → PollResult × VideoPipeline
  unfolding stop_transport
  poll_unlocked uninitialized p = (poll_error, p)
  poll_unlocked waiting_for_signal p = (unchanged, p)
  poll_unlocked _ p = (signal_lost, record (stop_transport p) { state = waiting_for_signal })

  unfoldable pub video_pipeline_poll : ℕ → VideoPipeline → PollResult × VideoPipeline
  unfolding poll_locked poll_unlocked
  video_pipeline_poll now_ms p =
      if video_input_locked a p.transport
      then poll_locked p.state now_ms p
      else poll_unlocked p.state p
