-- ===== src/Video/VideoPipeline/Live.antt =====
-- With a source that it can show, the video pipeline comes to stream.
use subtitle_overlay_fw.Base.{
  ℕ, ◌%◌, ◌≡◌, ◌≢◌, refl, ap, true, false, not, ◌||◌, some, ◌==◌, ltb, arith,
}
use subtitle_overlay_fw.Base.Int.{ℤ}
use subtitle_overlay_fw.Hal.VideoDma.{
  Channel, mm2s, s2mm, Request, video_dma_configure, video_dma_start, video_dma_select_frame,
  ioctl_noarg,
}
use subtitle_overlay_fw.Hal.VideoVtc.{
  VtcMode, VideoVtc, video_vtc_configure_generator, video_vtc_start_generator,
  video_vtc_read_detector_timing, video_gpio_is_locked,
}
use subtitle_overlay_fw.Hal.Status.{success}
use subtitle_overlay_fw.Video.Modes.{IsProper, video_modes_find, video_modes_find-IsProper}
use subtitle_overlay_fw.Video.VideoIo.{
  Answers, Transport, ◌>>◌, on_dma, on_output_vtc, capture_calls, output_calls, video_input_locked,
  video_input_read_timing, video_output_start, video_input_start_capture, video_output_stop,
  video_input_stop,
}
use subtitle_overlay_fw.Video.VideoIo.Wired.{
  IsWired, captures, if-keeps, input_stop-IsWired, output_stop-IsWired,
}
use subtitle_overlay_fw.Video.VideoIo.Started.{
  configure-IsWired, input_start-DisplayKept, output_start-CaptureKept, choose-CaptureKept,
  generator-CaptureKept, video_input_start_capture-calls, video_output_start-calls,
}
use subtitle_overlay_fw.Video.VideoPipeline.{
  Phase, uninitialized, waiting_for_signal, acquiring_timing, streaming, unsupported_input, failed,
  PollResult, streaming_started, VideoPipeline, start_passthrough, supported_mode, take_timing,
  poll_acquiring, poll_locked, poll_unlocked, video_pipeline_poll,
}
use subtitle_overlay_fw.Video.VideoPipeline.Phases.{InPhase, InPhase-state, stop_transport-IsIdle}
use subtitle_overlay_fw.Video.VideoPipeline.Sound.{poll_waiting-acquires}
use subtitle_overlay_fw.Subtitle.SubtitleAo.{is_zero}

-- A source in a mode of the table that the input has locked on to, with drivers that refuse nothing
pub record IsGood (m : VtcMode) (a : Answers) : Type 0 where
  pub locked : a.gpio_word % 2 ≡ 1
  pub timed : a.vtc_locked ≡ true
  pub detected : a.vtc_detected ≡ (m.width, m.height)
  pub listed : video_modes_find m.width m.height ≡ some m
  pub takes : (r : Request) → a.ioctl r ≡ true
  pub clocks : is_zero (a.dynclk_configure m.pixel_clock_khz) ≡ true

-- A chain all of whose calls succeed
abbrev Succeeds : (Transport → ℤ × Transport) → Type 0
Succeeds m = (t : Transport) → IsWired t → (is_zero (m t).0 ≡ true) × IsWired (m t).1

>>-Succeeds : (m k : Transport → ℤ × Transport) → Succeeds m → Succeeds k → Succeeds (m >> k)
unfolding ◌>>◌
>>-Succeeds m k first second t w = let f = first t w in rw (f.0) (second (m t).1 f.1)

-- The result of a poll that starts the stream in a mode
abbrev pub Starts : VtcMode → PollResult × VideoPipeline → Type 0
Starts m r = (r.0 ≡ streaming_started) × ((r.1.state ≡ streaming) × (r.1.active_mode ≡ some m))

module _ (a : Answers) (m : VtcMode) (good : IsGood m a) where
  proper : IsProper m
  proper = (video_modes_find-IsProper good.listed).0

  configure-Succeeds :
      (c : Channel) → Succeeds (on_dma (video_dma_configure a.ioctl c m.width m.height 5760 0))
  unfolding video_dma_configure
  configure-Succeeds c t w =
      let p = proper in
      let none_ : not t.dma.is_open
            || (m.width == 0 || (m.height == 0 || (5760 == 0 || not (ltb 0 t.dma.frame_count))))
          ≡ false =
        ground (arith, w.opened, w.one_frame, p.wide, p.tall) in
      let z : is_zero (on_dma (video_dma_configure a.ioctl c m.width m.height 5760 0) t).0 ≡ true =
        rw (none_, good.takes) refl in
      (z, (configure-IsWired a c m t p w).0)

  start-Succeeds :
      Succeeds (on_dma (video_dma_start a.ioctl s2mm))
      × Succeeds (on_dma (video_dma_start a.ioctl mm2s))
  unfolding video_dma_start ioctl_noarg
  start-Succeeds = (
    λ t w. (
      rw (w.opened, good.takes) refl,
      (input_start-DisplayKept a _ _ _ t (w, (refl, (refl, refl)))).0,
    ),
    λ t w. (rw (w.opened, good.takes) refl, (output_start-CaptureKept a _ t (w, refl)).0),
  )

  choose-Succeeds : Succeeds (on_dma (video_dma_select_frame a.ioctl mm2s 0))
  unfolding video_dma_select_frame
  choose-Succeeds t w =
      (rw (w.opened, w.one_frame, good.takes) refl, (choose-CaptureKept a _ t (w, refl)).0)

  generator-Succeeds :
      Succeeds (on_output_vtc (video_vtc_configure_generator m))
      × Succeeds (on_output_vtc (λ (vtc : VideoVtc). (success, video_vtc_start_generator vtc)))
  unfolding video_vtc_configure_generator
  generator-Succeeds = (
    λ t w.
        (rw (w.generator_ready) refl, ((generator-CaptureKept a m (captures t)).0 t (w, refl)).0),
    λ t w. (refl, ((generator-CaptureKept a m (captures t)).1 t (w, refl)).0),
  )

  capture_calls-Succeeds : Succeeds (capture_calls a m 0 5760)
  unfolding capture_calls
  capture_calls-Succeeds =
      >>-Succeeds _ _ (>>-Succeeds _ _ (configure-Succeeds s2mm) start-Succeeds.0)
        (λ t w. (refl, ground (arith, w, w.in_frame)))

  output_calls-Succeeds : Succeeds (output_calls a m 0 5760)
  unfolding output_calls
  output_calls-Succeeds =
      let clock : Succeeds (λ (v : Transport). (a.dynclk_configure m.pixel_clock_khz, v)) =
        λ t w. (good.clocks, w) in
      let timed =
        >>-Succeeds _ _ (>>-Succeeds _ _ clock generator-Succeeds.0) generator-Succeeds.1 in
      let started =
        >>-Succeeds _ _ (>>-Succeeds _ _ timed (configure-Succeeds mm2s)) start-Succeeds.1 in
      >>-Succeeds _ _ (>>-Succeeds _ _ started choose-Succeeds)
        (λ t w. (refl, ground (arith, w, w.in_frame)))

  video_output_start-Succeeds : Succeeds (video_output_start a m 0)
  video_output_start-Succeeds t w = rw (video_output_start-calls a m t w) (
      output_calls-Succeeds _ (
        if-keeps (λ (v : Transport). IsWired v) t.output.running (video_output_stop a t) t
          (output_stop-IsWired a t w).0 w))

  video_input_start_capture-Succeeds : Succeeds (video_input_start_capture a m 0)
  video_input_start_capture-Succeeds t w = rw (video_input_start_capture-calls a m t w) (
      capture_calls-Succeeds _ (
        if-keeps (λ (v : Transport). IsWired v) t.input.running (video_input_stop a t) t
          (input_stop-IsWired a t w).0 w))

  start_passthrough-Starts :
      (p : VideoPipeline) → IsWired p.transport → Starts m (start_passthrough a m p)
  unfolding start_passthrough
  start_passthrough-Starts p w =
      let o = video_output_start-Succeeds p.transport w in
      let c = video_input_start_capture-Succeeds (video_output_start a m 0 p.transport).1 o.1 in
      rw (o.0, c.0) (refl, (refl, refl))

  supported : supported_mode a (m.width, m.height) ≡ some m
  unfolding supported_mode
  supported =
      let p = proper in
      let fits : ltb 1920 m.width || ltb 1080 m.height ≡ false = ground (arith, p.narrow, p.low) in
      rw fits good.listed

  read_timing-good :
      (t : Transport) → IsWired t → video_input_read_timing a t ≡ (success, (m.width, m.height))
  unfolding video_input_read_timing video_vtc_read_detector_timing
  read_timing-good t w =
      let p = proper in
      let some_ : (m.width == 0 || m.height == 0) ≡ false = ground (arith, p.wide, p.tall) in
      rw (good.timed, good.detected, w.detector_ready, some_) refl

  take_timing-Starts :
      (p : VideoPipeline) → IsWired p.transport → Starts m (take_timing a (m.width, m.height) p)
  unfolding take_timing
  take_timing-Starts p w =
      rw (supported, take_timing)
        (start_passthrough-Starts (record p { input_timing = (m.width, m.height) }) w)

  poll_acquiring-Starts :
      (now_ms : ℕ) (p : VideoPipeline) → IsWired p.transport → Starts m (poll_acquiring a now_ms p)
  unfolding poll_acquiring
  poll_acquiring-Starts now_ms p w = rw (read_timing-good p.transport w) (take_timing-Starts p w)

  locked-good : (t : Transport) → IsWired t → video_input_locked a t ≡ true
  unfolding video_input_locked video_gpio_is_locked
  locked-good t w =
      let based : (t.input.gpio.base == 0) ≡ false = ground (arith, w.lock_readable) in
      let bit : not (a.gpio_word % 2 == 0) ≡ true = ground (arith, good.locked) in
      rw (based, bit) refl

  poll-good :
      (s : Phase) (now_ms : ℕ) (p : VideoPipeline)
      → InPhase s p
      → IsWired p.transport
      → video_pipeline_poll a now_ms p ≡ poll_locked a s now_ms p
  unfolding video_pipeline_poll
  poll-good s now_ms p i w =
      rw (locked-good p.transport w)
        (ap (λ (t : Phase). poll_locked a t now_ms p) (InPhase-state a s p i))

  acquires :
      (now_ms : ℕ) (p : VideoPipeline)
      → InPhase waiting_for_signal p
      → InPhase acquiring_timing (video_pipeline_poll a now_ms p).1
  unfolding poll_locked
  acquires now_ms p i =
      rw (poll-good waiting_for_signal now_ms p i i.1.0) (poll_waiting-acquires a now_ms p i.1).1

  streams :
      (now_ms : ℕ) (p : VideoPipeline)
      → InPhase acquiring_timing p
      → Starts m (video_pipeline_poll a now_ms p)
  unfolding poll_locked
  streams now_ms p i =
      rw (poll-good acquiring_timing now_ms p i i.1.0) (poll_acquiring-Starts now_ms p i.1.0)

waits :
    (a : Answers) (s : Phase) (now_ms : ℕ) (p : VideoPipeline)
    → s ≢ failed
    → InPhase s p
    → video_input_locked a p.transport ≡ false
    → InPhase waiting_for_signal (video_pipeline_poll a now_ms p).1
unfolding video_pipeline_poll
waits a s now_ms p f i l = rw l (
    coe 1 0 (j. InPhase waiting_for_signal (poll_unlocked a (InPhase-state a s p i j) p).1)
      (unlocked s f i))
  where
    unlocked :
        (t : Phase) → t ≢ failed → InPhase t p → InPhase waiting_for_signal (poll_unlocked a t p).1
    unlocked uninitialized g k = elim k [ ]
    unlocked waiting_for_signal g k = k
    unlocked acquiring_timing g k = (refl, stop_transport-IsIdle a p k.1.0 k.1.1.0)
    unlocked streaming g k = (refl, stop_transport-IsIdle a p k.1.0 k.1.1.0)
    unlocked unsupported_input g k = (refl, stop_transport-IsIdle a p k.1.0 k.1.1.0)
    unlocked failed g k = absurd (g refl)

-- From any state of an initialised pipeline but the failed one, with the devices as that state asks,
-- once the input has no signal at one poll, and at the next two polls is locked on to a source in a
-- mode of the table, with drivers that refuse nothing, the second of these starts the stream in that
-- mode.
pub streams_after_signal :
    (m : VtcMode) (a b c : Answers) (s : Phase) (t0 t1 t2 : ℕ) (p : VideoPipeline)
    → s ≢ failed
    → InPhase s p
    → video_input_locked a p.transport ≡ false
    → IsGood m b
    → IsGood m c
    → let q = (video_pipeline_poll b t1 (video_pipeline_poll a t0 p).1).1 in
      Starts m (video_pipeline_poll c t2 q)
streams_after_signal m a b c s t0 t1 t2 p f i l good_b good_c =
    streams c m good_c t2 _ (acquires b m good_b t1 _ (waits a s t0 p f i l))
