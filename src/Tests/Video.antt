-- ===== src/Tests/Video.antt =====
-- The files of src/svc/video_pipeline at concrete inputs: a board that works, and a source of 1280 by
-- 720.
use subtitle_overlay_fw.Base.{
  ℕ, ◌+◌, ◌≢◌, ◌⊎◌, refl, true, false, Option, none, some, [], ◌∷◌, arith,
}
use subtitle_overlay_fw.Base.Int.{pos}
use subtitle_overlay_fw.Hal.HwPlatform.{at_start}
use subtitle_overlay_fw.Hal.HwPlatform.Owners.{NeverNull, at_start-IsConsistent}
use subtitle_overlay_fw.Hal.VideoDma.{opened}
use subtitle_overlay_fw.Hal.VideoVtc.{VtcMode, video_gpio_is_locked}
use subtitle_overlay_fw.Video.Modes.{video_modes_find}
use subtitle_overlay_fw.Video.VideoIo.{Answers, video_input_locked}
use subtitle_overlay_fw.Video.VideoPipeline.{
  Phase, uninitialized, waiting_for_signal, VideoPipeline, video_pipeline_init, video_pipeline_poll,
}
use subtitle_overlay_fw.Video.VideoPipeline.Phases.{InPhase}
use subtitle_overlay_fw.Video.VideoPipeline.Startup.{
  IsReleased, Initialised, Refused, video_pipeline_init-outcome,
}
use subtitle_overlay_fw.Video.VideoPipeline.Live.{IsGood, Starts, streams_after_signal}
use subtitle_overlay_fw.Video.VideoAo.{
  VideoAo, Signal, component_init, video_poll, State, idle, ctor,
}
use subtitle_overlay_fw.Video.VideoAo.Reach.{next, respond}

abbrev everywhere : ℕ → Option ℕ
everywhere region = some (4096 + region)

everywhere-NeverNull : NeverNull everywhere
everywhere-NeverNull region e = ground (arith, e)

-- A board on which every call works, with the word of the lock signal
abbrev board : ℕ → Answers
board gpio_word = record {
  opened = true;
  mapped = everywhere;
  regions = (1, 1) ∷ (2, 1) ∷ (3, 1) ∷ [];
  device_opened = true;
  info = some (1, 6220800);
  ioctl = λ r. true;
  vtc_config = λ role. some 2;
  vtc_initializes = λ role. true;
  vtc_locked = true;
  vtc_detected = (1280, 720);
  gpio_word = gpio_word;
  dynclk_init = pos 0;
  dynclk_configure = λ khz. pos 0;
}

abbrev hd : VtcMode
hd = record {
  width = 1280;
  height = 720;
  hps = 1390;
  hpe = 1430;
  hmax = 1649;
  hpol = 1;
  vps = 725;
  vpe = 730;
  vmax = 749;
  vpol = 1;
  pixel_clock_khz = 74250;
}

board-IsGood : IsGood hd (board 1)
unfolding video_modes_find
board-IsGood = record {
  locked = refl;
  timed = refl;
  detected = refl;
  listed = refl;
  takes = λ r. refl;
  clocks = refl;
}

-- A pipeline before and after its initialisation
abbrev zeroed_pipeline : VideoPipeline
zeroed_pipeline = record {
  transport = record {
    dma = record { is_open = false; frame_count = 0; log = [] };
    output = record {
      vtc = record { initialized = false; log = [] };
      has_dma = false;
      mode = none;
      stride = 0;
      running = false;
    };
    input = record {
      gpio = record { base = 0; log = [] };
      vtc = record { initialized = false; log = [] };
      has_dma = false;
      stride = 0;
      detector_started_ms = 0;
      detector_started = false;
      running = false;
    };
  };
  active_mode = none;
  input_timing = (0, 0);
  state = uninitialized;
  platform_ready = false;
}

abbrev waiting : VideoPipeline
waiting = record {
  transport = record {
    dma = record { is_open = true; frame_count = 1; log = opened ∷ [] };
    output = record {
      vtc = record { initialized = true; log = [] };
      has_dma = true;
      mode = none;
      stride = 5760;
      running = false;
    };
    input = record {
      gpio = record { base = 4101; log = [] };
      vtc = record { initialized = true; log = [] };
      has_dma = true;
      stride = 5760;
      detector_started_ms = 0;
      detector_started = false;
      running = false;
    };
  };
  active_mode = none;
  input_timing = (0, 0);
  state = waiting_for_signal;
  platform_ready = true;
}

waiting-InPhase : InPhase waiting_for_signal waiting
waiting-InPhase = (
  refl,
  (
    record {
      opened = refl;
      one_frame = refl;
      output_dma = refl;
      input_dma = refl;
      output_stride = refl;
      input_stride = refl;
      generator_ready = refl;
      detector_ready = refl;
      lock_readable = λ e. absurd (omega (arith, e));
      descriptor = refl;
      in_frame = tt;
    },
    (refl, (refl, (refl, refl))),
  ),
)

not_failed : waiting_for_signal ≢ Phase.failed
not_failed e = cc

streams_after_signal_example :
    let q = (video_pipeline_poll (board 1) 200 (video_pipeline_poll (board 0) 100 waiting).1).1 in
    Starts hd (video_pipeline_poll (board 1) 300 q)
unfolding video_input_locked video_gpio_is_locked
streams_after_signal_example =
    streams_after_signal hd (board 0) (board 1) (board 1) waiting_for_signal 100 200 300 waiting
      not_failed waiting-InPhase refl board-IsGood board-IsGood

zeroed_pipeline-IsReleased : IsReleased zeroed_pipeline
zeroed_pipeline-IsReleased = ((tt, (refl, (refl, refl))), ((refl, refl), (refl, refl)))

video_pipeline_init-outcome_example :
    let r = video_pipeline_init (board 1) zeroed_pipeline at_start in
    Initialised (board 1) zeroed_pipeline at_start r ⊎ Refused (board 1) zeroed_pipeline at_start r
video_pipeline_init-outcome_example =
    video_pipeline_init-outcome (board 1) zeroed_pipeline at_start everywhere-NeverNull
      (omega arith) at_start-IsConsistent zeroed_pipeline-IsReleased.0 refl

abbrev send : Answers → Signal → State × VideoAo → State × VideoAo
send a e (s, me) = let (o, me') = respond a s e me in (next s o, me')

-- Two polls after the initialisation the picture streams.
abbrev streamed : State × VideoAo
streamed = send (board 1) video_poll (
    send (board 1) video_poll (send (board 1) component_init (idle, ctor zeroed_pipeline at_start)))
