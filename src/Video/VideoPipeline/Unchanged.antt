-- ===== src/Video/VideoPipeline/Unchanged.antt =====
-- A poll that reports no change has changed nothing.
use subtitle_overlay_fw.Base.{ℕ, ◌≡◌, ◌≢◌, refl, Option-cases, inl, inr, arith}
use subtitle_overlay_fw.Hal.VideoVtc.{VtcMode}
use subtitle_overlay_fw.Video.VideoIo.{Answers, video_input_read_timing}
use subtitle_overlay_fw.Video.VideoPipeline.{
  Phase, waiting_for_signal, acquiring_timing, unchanged, VideoPipeline, start_passthrough,
  poll_streaming, take_timing, supported_mode, poll_acquiring, poll_waiting, poll_locked,
  poll_unlocked, video_pipeline_poll,
}

module _ (a : Answers) where
  start_passthrough-ne : (m : VtcMode) (p : VideoPipeline) → (start_passthrough a m p).0 ≢ unchanged
  unfolding start_passthrough
  start_passthrough-ne m p h = ground (arith, h)

  take_timing-ne : (timing : ℕ × ℕ) (p : VideoPipeline) → (take_timing a timing p).0 ≢ unchanged
  unfolding take_timing
  take_timing-ne timing p h = elim (Option-cases (supported_mode a timing)) [
    | inl n ↦ cc (rw (n, take_timing) at h)
    | inr (m, e) ↦
        start_passthrough-ne m (record p { input_timing = timing }) (rw (e, take_timing) at h)
  ]

  poll_locked-unchanged :
      (s : Phase) (now_ms : ℕ) (p : VideoPipeline)
      → (poll_locked a s now_ms p).0 ≡ unchanged
      → (poll_locked a s now_ms p).1 ≡ p
  unfolding poll_locked poll_streaming poll_acquiring poll_waiting
  poll_locked-unchanged acquiring_timing now_ms p h =
      ground (arith, h, take_timing-ne (video_input_read_timing a p.transport).1 p)
  poll_locked-unchanged _ now_ms p h = ground (arith, h)

  poll_unlocked-unchanged :
      (s : Phase) (p : VideoPipeline)
      → (poll_unlocked a s p).0 ≡ unchanged
      → (poll_unlocked a s p).1 ≡ p
  unfolding poll_unlocked
  poll_unlocked-unchanged waiting_for_signal p h = refl
  poll_unlocked-unchanged _ p h = cc

  pub video_pipeline_poll-unchanged :
      (now_ms : ℕ) (p : VideoPipeline)
      → (video_pipeline_poll a now_ms p).0 ≡ unchanged
      → (video_pipeline_poll a now_ms p).1 ≡ p
  unfolding video_pipeline_poll
  video_pipeline_poll-unchanged now_ms p h =
      ground (arith, h, poll_locked-unchanged p.state now_ms p, poll_unlocked-unchanged p.state p)
