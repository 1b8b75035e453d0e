-- ===== src/Video/VideoPipeline/Phases.antt =====
-- The states of the video pipeline, what the devices do in each, and the polls of a stream and its
-- start.
use subtitle_overlay_fw.Base.{
  ℕ, ◌≡◌, ◌⊎◌, refl, sym, ap, ◌∙◌, true, false, Bool-cases, none, some, inl, inr,
}
use subtitle_overlay_fw.Hal.VideoVtc.{VtcMode}
use subtitle_overlay_fw.Video.Modes.{IsProper}
use subtitle_overlay_fw.Video.VideoIo.{
  Answers, video_input_start_capture, video_input_stop, video_output_start,
}
use subtitle_overlay_fw.Video.VideoIo.Wired.{
  IsWired, captures, displays, input_stop-IsWired, output_stop-IsWired,
}
use subtitle_overlay_fw.Video.VideoIo.Started.{
  Displaying, start_capture-IsWired, start_capture-captures, output_start-IsWired,
  output_start-Displaying,
}
use subtitle_overlay_fw.Hal.VideoDma.{s2mm}
use subtitle_overlay_fw.Hal.VideoDma.Frames.{runs}
use subtitle_overlay_fw.Video.VideoPipeline.Seen.{
  HasLock, reading, Shows, Step, start_up, fail, hold, switch, video_input_read_timing-reading,
  differs-true, differs-false,
}
use subtitle_overlay_fw.Video.VideoPipeline.{
  Phase, uninitialized, waiting_for_signal, acquiring_timing, streaming, unsupported_input, failed,
  PollResult, streaming_started, poll_error, VideoPipeline, differs, stop_transport,
  start_passthrough, poll_streaming,
}
use subtitle_overlay_fw.Subtitle.SubtitleAo.{is_zero}

-- An initialised pipeline that has no active mode, and whose channels and generator are off
abbrev pub IsIdle : VideoPipeline → Type 0
IsIdle p =
    IsWired p.transport
    × ((p.platform_ready ≡ true)
        × ((p.active_mode ≡ none)
            × ((captures p.transport ≡ false) × (displays p.transport ≡ false))))

-- One whose channels both run after a start that succeeded, whose output is in the active mode, and
-- whose mode has the size that was detected
abbrev pub IsStreaming : VideoPipeline → Type 0
IsStreaming p =
    IsWired p.transport
    × ((p.platform_ready ≡ true)
        × ((m : VtcMode) × ((p.active_mode ≡ some m)
              × (IsProper m
                  × ((runs s2mm p.transport.dma.log ≡ true)
                      × (Displaying m p.transport × (p.input_timing ≡ (m.width, m.height))))))))

abbrev pub InPhase : Phase → VideoPipeline → Type 0
InPhase uninitialized p = ⊥
InPhase streaming p = (p.state ≡ streaming) × IsStreaming p
InPhase failed p = (p.state ≡ failed) × (IsWired p.transport × (p.platform_ready ≡ true))
InPhase s p = (p.state ≡ s) × IsIdle p

-- A step of the machine from a pipeline, and the state that it ends in
abbrev pub Steps : Answers → ℕ → VideoPipeline → Phase → PollResult × VideoPipeline → Type 0
Steps a now_ms p s r = (s' : Phase) × (Step a now_ms p s r.0 s' × InPhase s' r.1)

module _ (a : Answers) where
  pub stop_transport-IsIdle :
      (p : VideoPipeline)
      → IsWired p.transport
      → p.platform_ready ≡ true
      → IsIdle (stop_transport a p)
  unfolding stop_transport
  stop_transport-IsIdle p w r =
      let s = input_stop-IsWired a p.transport w in
      let t = output_stop-IsWired a (video_input_stop a p.transport) s.0 in
      (t.0, (r, (refl, (t.1.1 ∙ s.1.0, t.1.0))))

  hold_or_switch :
      (now_ms : ℕ) (p : VideoPipeline) (m : VtcMode)
      → HasLock a
      → p.active_mode ≡ some m
      → InPhase streaming p
      → p.input_timing ≡ (m.width, m.height)
      → Steps a now_ms p streaming (poll_streaming a p)
  unfolding poll_streaming
  hold_or_switch now_ms p m lock active i timing =
      elim (video_input_read_timing-reading a p.transport i.1.0) [
        | inl (none_, e) ↦ rw e (streaming, (hold lock (inl none_), i))
        | inr (some_, e) ↦
            elim (Bool-cases (differs a.vtc_detected.0 a.vtc_detected.1 p.active_mode)) [
              | inl d ↦
                  rw (e, d)
                    (
                      acquiring_timing,
                      (
                        switch a.vtc_detected lock some_
                            (λ h. differs-true a.vtc_detected m (rw active at d) (h ∙ timing)),
                        (refl, stop_transport-IsIdle p i.1.0 i.1.1.0),
                      ),
                    )
              | inr d ↦
                  rw (e, d)
                    (
                      streaming,
                      (
                        hold lock (
                            inr (
                              some_
                              ∙ ap some
                                  (differs-false a.vtc_detected m (rw active at d) ∙ sym timing))),
                        i,
                      ),
                    )
            ]
      ]

  pub poll_streaming-Steps :
      (now_ms : ℕ) (p : VideoPipeline)
      → HasLock a
      → InPhase streaming p
      → Steps a now_ms p streaming (poll_streaming a p)
  poll_streaming-Steps now_ms p lock (e, i) =
      let (m, (active, (proper, (captured, (display, timing))))) = i.1.1 in
      hold_or_switch now_ms p m lock active (e, i) timing

  -- What a start comes to: a stream, or a failure
  abbrev pub Started : VtcMode → PollResult × VideoPipeline → Type 0
  Started m r =
      ((r.0 ≡ streaming_started) × InPhase streaming r.1)
      ⊎ ((r.0 ≡ poll_error) × InPhase failed r.1)

  pub start_passthrough-Started :
      (m : VtcMode) (p : VideoPipeline)
      → IsProper m
      → IsIdle p
      → p.input_timing ≡ (m.width, m.height)
      → Started m (start_passthrough a m p)
  unfolding start_passthrough
  start_passthrough-Started m p proper i e =
      let shown = output_start-IsWired a m p.transport proper i.0 in
      let t = (video_output_start a m 0 p.transport).1 in
      let taken = start_capture-IsWired a m t proper shown.0 in
      let on = output_start-Displaying a m p.transport proper i.0 in
      let captured = start_capture-captures a m t proper shown.0 in
      elim (Bool-cases (is_zero (video_output_start a m 0 p.transport).0)) [
        | inr z ↦ rw z (inr (refl, (refl, (shown.0, i.1.0))))
        | inl z ↦ elim (Bool-cases (is_zero (video_input_start_capture a m 0 t).0)) [
          | inr y ↦ rw (z, y) (inr (refl, (refl, ((output_stop-IsWired a _ taken.0).0, i.1.0))))
          | inl y ↦
              let d = on z in
              let display : Displaying m (video_input_start_capture a m 0 t).1 =
                (taken.1.0 ∙ d.0, (taken.1.1.0 ∙ d.1.0, taken.1.1.1 ∙ d.1.1)) in
              rw (z, y)
                (inl (
                  refl,
                  (refl, (taken.0, (i.1.0, (m, (refl, (proper, (captured y, (display, e)))))))),
                ))
        ]
      ]

  pub start_passthrough-Steps :
      (now_ms : ℕ) (m : VtcMode) (size : ℕ × ℕ) (p q : VideoPipeline)
      → HasLock a
      → reading a ≡ some size
      → Shows size m
      → Started m (start_passthrough a m q)
      → Steps a now_ms p acquiring_timing (start_passthrough a m q)
  start_passthrough-Steps now_ms m size p q lock read shows (inl (e, i)) = (
    streaming,
    (
      coe 1 0 (j. Step a now_ms p acquiring_timing (e j) streaming)
          (start_up size m lock read shows),
      i,
    ),
  )
  start_passthrough-Steps now_ms m size p q lock read shows (inr (e, i)) = (
    failed,
    (coe 1 0 (j. Step a now_ms p acquiring_timing (e j) failed) (fail size m lock read shows), i),
  )

  pub InPhase-IsWired :
      (s : Phase) (p : VideoPipeline)
      → InPhase s p
      → IsWired p.transport × (p.platform_ready ≡ true)
  InPhase-IsWired uninitialized p i = elim i [ ]
  InPhase-IsWired waiting_for_signal p i = (i.1.0, i.1.1.0)
  InPhase-IsWired acquiring_timing p i = (i.1.0, i.1.1.0)
  InPhase-IsWired streaming p i = (i.1.0, i.1.1.0)
  InPhase-IsWired unsupported_input p i = (i.1.0, i.1.1.0)
  InPhase-IsWired failed p i = i.1

  pub InPhase-state : (s : Phase) (p : VideoPipeline) → InPhase s p → p.state ≡ s
  InPhase-state uninitialized p i = elim i [ ]
  InPhase-state waiting_for_signal p i = i.0
  InPhase-state acquiring_timing p i = i.0
  InPhase-state streaming p i = i.0
  InPhase-state unsupported_input p i = i.0
  InPhase-state failed p i = i.0
