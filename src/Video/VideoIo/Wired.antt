-- ===== src/Video/VideoIo/Wired.antt =====
-- An initialised input and output over one open DMA adapter, and what starting and stopping them
-- asks of the channels and of the timing generator.
use subtitle_overlay_fw.Base.{
  ℕ, ◌≡◌, ◌≢◌, refl, Bool, true, false, ◌||◌, Bool-cases, List, [], ◌∷◌, if◌then◌else◌, inl, inr,
  arith,
}
use subtitle_overlay_fw.Base.Int.{ℤ}
use subtitle_overlay_fw.Hal.VideoDma.{mm2s, s2mm, video_dma_stop, ioctl_noarg}
use subtitle_overlay_fw.Hal.VideoDma.Frames.{transfers, runs, descriptors, InFrame}
use subtitle_overlay_fw.Hal.VideoVtc.{
  Call, enable_generator, disable_generator, video_vtc_stop_generator, video_vtc_start_detector,
}
use subtitle_overlay_fw.Video.VideoIo.{
  Answers, Transport, ◌>>◌, video_input_stop, video_output_stop, video_input_start_detector,
  video_input_reset_detector,
}
use subtitle_overlay_fw.Subtitle.SubtitleAo.{is_zero}

-- The generator was enabled, and not disabled since.
abbrev pub generates : List Call → Bool
generates [] = false
generates (enable_generator ∷ l) = true
generates (disable_generator ∷ l) = false
generates (_ ∷ l) = generates l

pub record IsWired (t : Transport) : Type 0 where
  pub opened : t.dma.is_open ≡ true
  pub one_frame : t.dma.frame_count ≡ 1
  pub output_dma : t.output.has_dma ≡ true
  pub input_dma : t.input.has_dma ≡ true
  pub output_stride : t.output.stride ≡ 5760
  pub input_stride : t.input.stride ≡ 5760
  pub generator_ready : t.output.vtc.initialized ≡ true
  pub detector_ready : t.input.vtc.initialized ≡ true
  pub lock_readable : t.input.gpio.base ≢ 0
  pub descriptor : descriptors t.dma.log ≡ 1
  pub in_frame : InFrame t.dma.log

-- Whether the input may write; whether the output may read or its timing is generated
abbrev pub captures : Transport → Bool
captures t = transfers s2mm t.dma.log

abbrev pub displays : Transport → Bool
displays t = transfers mm2s t.dma.log || generates t.output.vtc.log

pub if-keeps :
    (P : Transport → Type 0) (b : Bool) (x y : Transport) → P x → P y → P (if b then x else y)
if-keeps P true x y h k = h
if-keeps P false x y h k = k

pub if-true {ℓ} : {A : Type ℓ} (b : Bool) (x y : A) → b ≡ true → (if b then x else y) ≡ x
if-true true x y h = refl
if-true false x y h = cc

abbrev pub Keeps : (Transport → Type 0) → (Transport → ℤ × Transport) → Type 0
Keeps P m = (t : Transport) → P t → P (m t).1

pub >>-Keeps :
    (P : Transport → Type 0) (m k : Transport → ℤ × Transport)
    → Keeps P m
    → Keeps P k
    → Keeps P (m >> k)
unfolding ◌>>◌
>>-Keeps P m k keep_m keep_k t h = elim (Bool-cases (is_zero (m t).0)) [
  | inl e ↦ rw e (keep_k (m t).1 (keep_m t h))
  | inr e ↦ rw e (keep_m t h)
]

-- What holds after a chain that succeeds
abbrev pub Ensures :
    (Transport → Type 0) → (Transport → ℤ × Transport) → (Transport → Type 0) → Type 0
Ensures P m Q = (t : Transport) → P t → is_zero (m t).0 ≡ true → Q (m t).1

pub >>-Ensures :
    (P Q R : Transport → Type 0) (m k : Transport → ℤ × Transport)
    → Ensures P m Q
    → Ensures Q k R
    → Ensures P (m >> k) R
unfolding ◌>>◌
>>-Ensures P Q R m k first second t h z = elim (Bool-cases (is_zero (m t).0)) [
  | inl e ↦ rw e (second (m t).1 (first t h e) (rw e at z))
  | inr e ↦ absurd (ground (arith, rw e at z, e))
]

module _ (a : Answers) where
  pub input_stop-IsWired :
      (t : Transport)
      → IsWired t
      → let u = video_input_stop a t in
        IsWired u
        × ((captures u ≡ false)
            × ((runs mm2s u.dma.log ≡ runs mm2s t.dma.log)
                × ((u.output.vtc.log ≡ t.output.vtc.log) × (u.output.mode ≡ t.output.mode))))
  unfolding video_input_stop video_dma_stop ioctl_noarg
  input_stop-IsWired t w = rw (w.input_dma, w.opened) (ground (arith, w.descriptor, w.in_frame))

  pub output_stop-IsWired :
      (t : Transport)
      → IsWired t
      → let u = video_output_stop a t in
        IsWired u × ((displays u ≡ false) × (captures u ≡ captures t))
  unfolding video_output_stop video_dma_stop ioctl_noarg video_vtc_stop_generator
  output_stop-IsWired t w =
      rw (w.output_dma, w.opened, w.generator_ready) (ground (arith, w.descriptor, w.in_frame))

  pub start_detector-IsWired :
      (now_ms : ℕ) (t : Transport)
      → IsWired t
      → let (status, u) = video_input_start_detector a now_ms t in
        (is_zero status ≡ true)
        × (IsWired u
            × ((captures u ≡ captures t)
                × ((displays u ≡ displays t)
                    × ((u.output.mode ≡ t.output.mode) × (u.input.detector_started ≡ true)))))
  unfolding video_input_start_detector video_vtc_start_detector ◌>>◌
  start_detector-IsWired now_ms t w = elim (Bool-cases t.input.detector_started) [
    | inl e ↦ rw e (ground (arith, w, w.descriptor, w.in_frame, e))
    | inr e ↦ rw (e, w.detector_ready) (ground (arith, w.descriptor, w.in_frame))
  ]

  pub reset_detector-IsWired :
      (t : Transport) → IsWired t → IsWired (video_input_reset_detector a t)
  unfolding video_input_reset_detector
  reset_detector-IsWired t w = ground (arith, w.descriptor, w.in_frame)
