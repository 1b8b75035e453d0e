-- ===== src/Video/VideoPipeline/Sound.antt =====
-- The polls of the video pipeline follow the state machine.
use subtitle_overlay_fw.Base.{
  ℕ, ◌≡◌, ◌≢◌, refl, ◌∙◌, ◌||◌, Bool-cases, none, some, Option-cases, ltb, leb, inl, inr, arith,
}
use subtitle_overlay_fw.Hal.VideoVtc.{VtcMode}
use subtitle_overlay_fw.Video.Modes.{video_modes_find-IsProper}
use subtitle_overlay_fw.Video.VideoIo.{
  Answers, video_input_detector_elapsed_ms, video_input_reset_detector,
}
use subtitle_overlay_fw.Video.VideoIo.Wired.{start_detector-IsWired, reset_detector-IsWired}
use subtitle_overlay_fw.Video.VideoPipeline.Seen.{
  HasLock, NoLock, reading, waited, Shows, CannotShow, Step, wait, detect, measure, give_up, reject,
  ignore, lose, video_input_locked-HasLock, video_input_read_timing-reading,
}
use subtitle_overlay_fw.Video.VideoPipeline.{
  Phase, uninitialized, waiting_for_signal, acquiring_timing, streaming, unsupported_input, failed,
  signal_detected, VideoPipeline, supported_mode, take_timing, poll_acquiring, poll_waiting,
  poll_locked, poll_unlocked, video_pipeline_poll,
}
use subtitle_overlay_fw.Video.VideoPipeline.Phases.{
  IsIdle, InPhase, Steps, stop_transport-IsIdle, poll_streaming-Steps, start_passthrough-Started,
  start_passthrough-Steps, InPhase-state, InPhase-IsWired,
}

module _ (a : Answers) where
  supported_mode-Shows :
      (width height : ℕ) (m : VtcMode)
      → supported_mode a (width, height) ≡ some m
      → Shows (width, height) m
  unfolding supported_mode
  supported_mode-Shows width height m e = elim (Bool-cases (ltb 1920 width || ltb 1080 height)) [
    | inl big ↦ cc (rw big at e)
    | inr fits ↦ (ground (arith, fits), (ground (arith, fits), rw fits at e))
  ]

  supported_mode-CannotShow :
      (width height : ℕ) → supported_mode a (width, height) ≡ none → CannotShow (width, height)
  unfolding supported_mode
  supported_mode-CannotShow width height e = elim (Bool-cases (ltb 1920 width)) [
    | inl wide ↦ inl (ground (arith, wide))
    | inr narrow ↦ elim (Bool-cases (ltb 1080 height)) [
      | inl high ↦ inr (inl (ground (arith, high)))
      | inr low ↦ inr (inr (rw (narrow, low) at e))
    ]
  ]

  take_timing-Steps :
      (now_ms : ℕ) (size : ℕ × ℕ) (p : VideoPipeline)
      → HasLock a
      → reading a ≡ some size
      → IsIdle p
      → Steps a now_ms p acquiring_timing (take_timing a size p)
  unfolding take_timing
  take_timing-Steps now_ms (width, height) p lock read i =
      elim (Option-cases (supported_mode a (width, height))) [
        | inl none_ ↦
            rw (none_, take_timing)
              (
                unsupported_input,
                (
                  reject (width, height) lock read (supported_mode-CannotShow width height none_),
                  (refl, i),
                ),
              )
        | inr (m, e) ↦
            let shows = supported_mode-Shows width height m e in
            let f = video_modes_find-IsProper shows.1.1 in
            let q : VideoPipeline = record p { input_timing = (width, height) } in
            rw (e, take_timing)
              (start_passthrough-Steps a now_ms m (width, height) p q lock read shows
                (start_passthrough-Started a m q f.0 i (ground (arith, f.1))))
      ]

  poll_acquiring-Steps :
      (now_ms : ℕ) (p : VideoPipeline)
      → HasLock a
      → InPhase acquiring_timing p
      → Steps a now_ms p acquiring_timing (poll_acquiring a now_ms p)
  unfolding poll_acquiring video_input_reset_detector video_input_detector_elapsed_ms
  poll_acquiring-Steps now_ms p lock (e, i) =
      elim (video_input_read_timing-reading a p.transport i.0) [
        | inr (some_, r) ↦ rw r (take_timing-Steps now_ms a.vtc_detected p lock some_ i)
        | inl (none_, r) ↦ elim (Bool-cases (leb 2000 (waited now_ms p))) [
          | inl l ↦
              rw (r, l)
                (
                  waiting_for_signal,
                  (
                    give_up lock none_ (ground (arith, l)),
                    (refl, (reset_detector-IsWired a p.transport i.0, i.1)),
                  ),
                )
          | inr l ↦ rw (r, l) (acquiring_timing, (measure lock none_ (ground (arith, l)), (e, i)))
        ]
      ]

  pub poll_waiting-acquires :
      (now_ms : ℕ) (p : VideoPipeline)
      → IsIdle p
      → ((poll_waiting a now_ms p).0 ≡ signal_detected)
        × InPhase acquiring_timing (poll_waiting a now_ms p).1
  unfolding poll_waiting
  poll_waiting-acquires now_ms p i =
      let d = start_detector-IsWired a now_ms p.transport i.0 in
      rw (d.0)
        (refl, (refl, (d.1.0, (i.1.0, (i.1.1.0, (d.1.1.0 ∙ i.1.1.1.0, d.1.1.1.0 ∙ i.1.1.1.1))))))

  poll_waiting-Steps :
      (now_ms : ℕ) (p : VideoPipeline)
      → HasLock a
      → IsIdle p
      → Steps a now_ms p waiting_for_signal (poll_waiting a now_ms p)
  poll_waiting-Steps now_ms p lock i =
      let (e, phase) = poll_waiting-acquires now_ms p i in
      (
        acquiring_timing,
        (
          coe 1 0 (j. Step a now_ms p waiting_for_signal (e j) acquiring_timing) (detect lock),
          phase,
        ),
      )

  poll_locked-Steps :
      (s : Phase) (now_ms : ℕ) (p : VideoPipeline)
      → s ≢ failed
      → HasLock a
      → InPhase s p
      → Steps a now_ms p s (poll_locked a s now_ms p)
  unfolding poll_locked
  poll_locked-Steps uninitialized now_ms p f lock i = elim i [ ]
  poll_locked-Steps waiting_for_signal now_ms p f lock i = poll_waiting-Steps now_ms p lock i.1
  poll_locked-Steps acquiring_timing now_ms p f lock i = poll_acquiring-Steps now_ms p lock i
  poll_locked-Steps streaming now_ms p f lock i = poll_streaming-Steps a now_ms p lock i
  poll_locked-Steps unsupported_input now_ms p f lock i = (unsupported_input, (ignore lock, i))
  poll_locked-Steps failed now_ms p f lock i = absurd (f refl)

  poll_unlocked-Steps :
      (s : Phase) (now_ms : ℕ) (p : VideoPipeline)
      → s ≢ failed
      → NoLock a
      → InPhase s p
      → Steps a now_ms p s (poll_unlocked a s p)
  unfolding poll_unlocked
  poll_unlocked-Steps uninitialized now_ms p f unlocked i = elim i [ ]
  poll_unlocked-Steps waiting_for_signal now_ms p f unlocked i =
      (waiting_for_signal, (wait unlocked, i))
  poll_unlocked-Steps acquiring_timing now_ms p f unlocked i = (
    waiting_for_signal,
    (lose acquiring_timing unlocked (λ h. cc) f, (refl, stop_transport-IsIdle a p i.1.0 i.1.1.0)),
  )
  poll_unlocked-Steps streaming now_ms p f unlocked i = (
    waiting_for_signal,
    (lose streaming unlocked (λ h. cc) f, (refl, stop_transport-IsIdle a p i.1.0 i.1.1.0)),
  )
  poll_unlocked-Steps unsupported_input now_ms p f unlocked i = (
    waiting_for_signal,
    (lose unsupported_input unlocked (λ h. cc) f, (refl, stop_transport-IsIdle a p i.1.0 i.1.1.0)),
  )
  poll_unlocked-Steps failed now_ms p f unlocked i = absurd (f refl)

  pub video_pipeline_poll-Steps :
      (s : Phase) (now_ms : ℕ) (p : VideoPipeline)
      → s ≢ failed
      → InPhase s p
      → Steps a now_ms p s (video_pipeline_poll a now_ms p)
  unfolding video_pipeline_poll
  video_pipeline_poll-Steps s now_ms p f i =
      let e = InPhase-state a s p i in
      elim (video_input_locked-HasLock a p.transport (InPhase-IsWired a s p i).0) [
        | inl (lock, l) ↦ rw l (
            coe 1 0 (j. Steps a now_ms p s (poll_locked a (e j) now_ms p))
              (poll_locked-Steps s now_ms p f lock i))
        | inr (unlocked, l) ↦ rw l (
            coe 1 0 (j. Steps a now_ms p s (poll_unlocked a (e j) p))
              (poll_unlocked-Steps s now_ms p f unlocked i))
      ]
