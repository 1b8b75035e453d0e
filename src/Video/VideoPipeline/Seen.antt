-- ===== src/Video/VideoPipeline/Seen.antt =====
-- What a poll of the video pipeline gets to see, and the state machine that it is to follow.
use subtitle_overlay_fw.Base.{
  ℕ, ◌+◌, ◌-◌, ◌%◌, ◌^◌, ◌≤◌, ◌<◌, ◌≡◌, ◌≢◌, ◌⊎◌, inl, inr, refl, ap, ap₂, true, false, not, ◌||◌,
  ◌&&◌, Bool-cases, Option, none, some, ◌==◌, if◌then◌else◌, arith,
}
use subtitle_overlay_fw.Hal.Status.{success}
use subtitle_overlay_fw.Hal.VideoVtc.{
  VtcMode, enodata, video_vtc_read_detector_timing, video_gpio_is_locked,
}
use subtitle_overlay_fw.Video.Modes.{video_modes_find}
use subtitle_overlay_fw.Video.VideoIo.{
  Answers, Transport, video_input_locked, video_input_read_timing,
}
use subtitle_overlay_fw.Video.VideoIo.Wired.{IsWired}
use subtitle_overlay_fw.Video.VideoPipeline.{
  Phase, waiting_for_signal, acquiring_timing, streaming, unsupported_input, failed, PollResult,
  unchanged, signal_detected, streaming_started, signal_lost, unsupported, timing_timeout,
  poll_error, VideoPipeline, differs,
}

-- Bit 0 of the second word of the GPIO is the lock.
abbrev pub HasLock : Answers → Type 0
HasLock a = a.gpio_word % 2 ≡ 1

abbrev pub NoLock : Answers → Type 0
NoLock a = a.gpio_word % 2 ≡ 0

-- The size that the detector has measured, if it has
abbrev pub reading : Answers → Option (ℕ × ℕ)
reading a =
    if a.vtc_locked && not (a.vtc_detected.0 == 0 || a.vtc_detected.1 == 0)
    then some a.vtc_detected
    else none

-- The time since the detector was started, on a clock of 32 bits
abbrev pub waited : ℕ → VideoPipeline → ℕ
waited now_ms p =
    if p.transport.input.detector_started
    then (now_ms + 2 ^ 32 - p.transport.input.detector_started_ms) % 2 ^ 32
    else 0

-- A size that is in the table and fits the frame, and one that cannot be shown
abbrev pub Shows : ℕ × ℕ → VtcMode → Type 0
Shows (width, height) m =
    (width ≤ 1920) × ((height ≤ 1080) × (video_modes_find width height ≡ some m))

abbrev pub CannotShow : ℕ × ℕ → Type 0
CannotShow (width, height) =
    (1920 < width) ⊎ ((1080 < height) ⊎ (video_modes_find width height ≡ none))

-- The steps of the state machine, each with when it is taken and the result that it reports. Only a
-- driver that refuses a call makes a start fail, which `fail` leaves open.
pub data Step (a : Answers) (now_ms : ℕ) (p : VideoPipeline)
    : Phase → PollResult → Phase → Type 0 where
  wait : NoLock a → Step a now_ms p waiting_for_signal unchanged waiting_for_signal
  detect : HasLock a → Step a now_ms p waiting_for_signal signal_detected acquiring_timing
  measure :
      HasLock a
      → reading a ≡ none
      → waited now_ms p < 2000
      → Step a now_ms p acquiring_timing unchanged acquiring_timing
  give_up :
      HasLock a
      → reading a ≡ none
      → 2000 ≤ waited now_ms p
      → Step a now_ms p acquiring_timing timing_timeout waiting_for_signal
  reject :
      (size : ℕ × ℕ)
      → HasLock a
      → reading a ≡ some size
      → CannotShow size
      → Step a now_ms p acquiring_timing unsupported unsupported_input
  start_up :
      (size : ℕ × ℕ) (m : VtcMode)
      → HasLock a
      → reading a ≡ some size
      → Shows size m
      → Step a now_ms p acquiring_timing streaming_started streaming
  fail :
      (size : ℕ × ℕ) (m : VtcMode)
      → HasLock a
      → reading a ≡ some size
      → Shows size m
      → Step a now_ms p acquiring_timing poll_error failed
  hold :
      HasLock a
      → (reading a ≡ none) ⊎ (reading a ≡ some p.input_timing)
      → Step a now_ms p streaming unchanged streaming
  switch :
      (size : ℕ × ℕ)
      → HasLock a
      → reading a ≡ some size
      → size ≢ p.input_timing
      → Step a now_ms p streaming signal_lost acquiring_timing
  ignore : HasLock a → Step a now_ms p unsupported_input unchanged unsupported_input
  lose :
      (s : Phase)
      → NoLock a
      → s ≢ waiting_for_signal
      → s ≢ failed
      → Step a now_ms p s signal_lost waiting_for_signal

-- What an initialised input reads
module _ (a : Answers) (t : Transport) (w : IsWired t) where
  pub video_input_locked-HasLock :
      (HasLock a × (video_input_locked a t ≡ true)) ⊎ (NoLock a × (video_input_locked a t ≡ false))
  unfolding video_input_locked video_gpio_is_locked
  video_input_locked-HasLock =
      let based : (t.input.gpio.base == 0) ≡ false = ground (arith, w.lock_readable) in
      elim (Bool-cases (a.gpio_word % 2 == 0)) [
        | inl e ↦ rw (based, e) (inr (ground (arith, e), refl))
        | inr e ↦ rw (based, e) (inl (ground (arith, e), refl))
      ]

  pub video_input_read_timing-reading :
      ((reading a ≡ none) × (video_input_read_timing a t ≡ (enodata, (0, 0))))
      ⊎ ((reading a ≡ some a.vtc_detected)
          × (video_input_read_timing a t ≡ (success, a.vtc_detected)))
  unfolding video_input_read_timing video_vtc_read_detector_timing
  video_input_read_timing-reading = elim (Bool-cases a.vtc_locked) [
    | inr e ↦ rw (w.detector_ready, e) (inl (refl, refl))
    | inl e ↦ elim (Bool-cases (a.vtc_detected.0 == 0 || a.vtc_detected.1 == 0)) [
      | inl z ↦ rw (w.detector_ready, e, z) (inl (refl, refl))
      | inr z ↦ rw (w.detector_ready, e, z) (inr (refl, refl))
    ]
  ]

-- The comparison with the active mode's size
pub differs-true :
    (size : ℕ × ℕ) (m : VtcMode)
    → differs size.0 size.1 (some m) ≡ true
    → size ≢ (m.width, m.height)
differs-true size m d e = ground (arith, d, ap (λ s. s.0) e, ap (λ s. s.1) e)

pub differs-false :
    (size : ℕ × ℕ) (m : VtcMode)
    → differs size.0 size.1 (some m) ≡ false
    → size ≡ (m.width, m.height)
differs-false (width, height) m d =
    let w : width ≡ m.width = ground (arith, d) in
    let h : height ≡ m.height = ground (arith, d) in ap₂ (λ x y. (x, y)) w h
