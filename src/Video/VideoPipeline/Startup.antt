-- ===== src/Video/VideoPipeline/Startup.antt =====
-- Starting the video pipeline, and releasing what it holds.
use subtitle_overlay_fw.Base.{
  ℕ, ◌+◌, ◌-◌, ◌^◌, ◌<◌, ◌≡◌, refl, ap, ◌∙◌, Bool, true, false, ◌||◌, Bool-cases, Option, none,
  some, Option-cases, List, ◌==◌, ltb, ◌⊎◌, inl, inr, arith,
}
use subtitle_overlay_fw.Base.Int.{ℤ}
use subtitle_overlay_fw.Hal.HwPlatform.{
  Platform, hw_platform_translate, hw_platform_base, hw_platform_init,
}
use subtitle_overlay_fw.Hal.HwPlatform.Owners.{
  IsConsistent, NeverNull, init-outcome, cleanup-refcount,
}
use subtitle_overlay_fw.Hal.VideoDma.{
  mm2s, s2mm, video_dma_init, use_info, video_dma_cleanup, video_dma_stop, ioctl_noarg,
}
use subtitle_overlay_fw.Hal.VideoDma.Frames.{transfers, descriptors, InFrame}
use subtitle_overlay_fw.Hal.VideoVtc.{
  VideoVtc, region_video_gpio, generator, detector, video_vtc_init, video_gpio_init,
  video_vtc_stop_generator,
}
use subtitle_overlay_fw.Video.VideoIo.{
  Answers, Transport, ◌>>◌, on_dma, video_input_init, video_input_stop, video_output_init,
  video_output_stop,
}
use subtitle_overlay_fw.Video.VideoIo.Wired.{
  IsWired, captures, displays, generates, Keeps, Ensures, >>-Ensures,
}
use subtitle_overlay_fw.Video.VideoPipeline.{
  uninitialized, waiting_for_signal, VideoPipeline, blank, stop_transport, video_pipeline_cleanup,
  init_transport, video_pipeline_init,
}
use subtitle_overlay_fw.Video.VideoPipeline.Phases.{InPhase}
use subtitle_overlay_fw.Subtitle.SubtitleAo.{is_zero}

-- As many descriptors are open as the adapter's flag says.
abbrev pub opens : Bool → ℕ
opens true = 1
opens false = 0

-- Nothing is asked to transfer or generated, and an open descriptor is that of the adapter.
abbrev pub IsQuiet : Transport → Type 0
IsQuiet t =
    InFrame t.dma.log
    × ((captures t ≡ false)
        × ((displays t ≡ false) × (descriptors t.dma.log ≡ opens t.dma.is_open)))

-- What a cleanup can silence
pub record IsTame (t : Transport) : Type 0 where
  pub in_frame : InFrame t.dma.log
  pub closed_off :
      t.dma.is_open ≡ false
      → (transfers mm2s t.dma.log ≡ false) × (transfers s2mm t.dma.log ≡ false)
  pub descriptor : descriptors t.dma.log ≡ opens t.dma.is_open
  pub generator_off : t.output.vtc.initialized ≡ false → generates t.output.vtc.log ≡ false

-- A pipeline that holds nothing: no descriptor of the driver is open, the devices are quiet, and no
-- platform reference is kept.
abbrev pub IsReleased : VideoPipeline → Type 0
IsReleased p =
    IsQuiet p.transport
    × (((p.transport.dma.is_open ≡ false) × (descriptors p.transport.dma.log ≡ 0))
        × ((p.platform_ready ≡ false) × (p.active_mode ≡ none)))

pub IsWired-IsTame : (t : Transport) → IsWired t → IsTame t
IsWired-IsTame t w = ground (arith, w.in_frame)

IsQuiet-IsTame : (t : Transport) → IsQuiet t → IsTame t
IsQuiet-IsTame t q = ground (arith, q)

module _ (a : Answers) where
  input_stop-IsTame : (t : Transport) → IsTame t → IsTame (video_input_stop a t)
  unfolding video_input_stop video_dma_stop ioctl_noarg
  input_stop-IsTame t w = ground (arith, w.in_frame, w.closed_off, w.generator_off)

  output_stop-IsTame :
      (t : Transport)
      → IsTame t
      → let u = video_output_stop a t in IsTame u × (generates u.output.vtc.log ≡ false)
  unfolding video_output_stop video_dma_stop ioctl_noarg video_vtc_stop_generator
  output_stop-IsTame t w = ground (arith, w.in_frame, w.closed_off, w.generator_off)

  dma_cleanup-quiet :
      (t : Transport)
      → IsTame t
      → generates t.output.vtc.log ≡ false
      → let d = video_dma_cleanup a.ioctl t.dma in
        InFrame d.log
        × ((transfers s2mm d.log ≡ false)
            × ((transfers mm2s d.log || generates t.output.vtc.log ≡ false)
                × ((d.is_open ≡ false) × (descriptors d.log ≡ 0))))
  unfolding video_dma_cleanup
  dma_cleanup-quiet t w g = elim (Bool-cases t.dma.is_open) [
    | inl e ↦
        let one : descriptors t.dma.log ≡ 1 = w.descriptor ∙ ap opens e in
        rw e (w.in_frame, (refl, (g, (refl, omega (arith, one)))))
    | inr e ↦
        let c = w.closed_off e in
        rw (e, c.0) (w.in_frame, (c.1, (g, (refl, w.descriptor ∙ ap opens e))))
  ]

  -- A cleanup of a pipeline in any state leaves it holding nothing, and gives a reference back.
  pub video_pipeline_cleanup-IsReleased :
      (p : VideoPipeline) (platform : Platform)
      → IsTame p.transport
      → let (q, after) = video_pipeline_cleanup a p platform in
        IsReleased q
        × ((q.state ≡ uninitialized)
            × (p.platform_ready ≡ true → after.refcount ≡ platform.refcount - 1))
  unfolding video_pipeline_cleanup stop_transport
  video_pipeline_cleanup-IsReleased p platform w =
      let o =
        output_stop-IsTame (video_input_stop a p.transport) (input_stop-IsTame p.transport w) in
      let d = dma_cleanup-quiet (video_output_stop a (video_input_stop a p.transport)) o.0 o.1 in
      (
        ((d.0, (d.1.0, (d.1.1.0, d.1.1.1.1))), ((refl, d.1.1.1.1), (refl, refl))),
        (refl, λ r. rw r (cleanup-refcount platform)),
      )

  abbrev HasDma : Transport → Type 0
  HasDma t = (t.dma.is_open ≡ true) × (t.dma.frame_count ≡ 1)

  -- A device that is opened, and closed again where what it says does not fit
  dma_init-outcome :
      (t : Transport)
      → IsQuiet t
      → t.dma.is_open ≡ false
      → let (status, u) = on_dma (video_dma_init a.ioctl a.device_opened a.info 1) t in
        IsQuiet u × (is_zero status ≡ true → HasDma u)
  unfolding video_dma_init use_info video_dma_cleanup
  dma_init-outcome t q shut =
      let none_open : descriptors t.dma.log ≡ 0 = q.1.1.1 ∙ ap opens shut in
      elim (Bool-cases a.device_opened) [
        | inl e ↦ elim (Option-cases a.info) [
          | inl n ↦ rw (e, n) (ground (arith, q, none_open), λ z. cc)
          | inr ((count, size), f) ↦ elim (Bool-cases (count == 0 || size == 0)) [
            | inl z ↦ rw (e, f, z) (ground (arith, q, none_open), λ z. cc)
            | inr z ↦ elim (Bool-cases (ltb count 1)) [
              | inl y ↦ rw (e, f, z, y) (ground (arith, q, none_open), λ z. cc)
              | inr y ↦
                  rw (e, f, z, y)
                    ((q.0, (q.1.0, (q.1.1.0, omega (arith, none_open)))), λ z. (refl, refl))
            ]
          ]
        ]
        | inr e ↦ rw e ((q.0, (q.1.0, (q.1.1.0, none_open))), λ z. cc)
      ]

  abbrev HasOutput : Transport → Type 0
  HasOutput t =
      HasDma t
      × ((t.output.has_dma ≡ true) × ((t.output.stride ≡ 5760) × (t.output.vtc.initialized ≡ true)))

  vtc_init-log :
      (config : Option ℕ) (initializes : Bool) (regions : List (ℕ × ℕ)) (platform : Platform)
      (vtc : VideoVtc)
      → let (status, v) = video_vtc_init config initializes regions platform vtc in
        (v.log ≡ vtc.log) × (is_zero status ≡ true → v.initialized ≡ true)
  unfolding video_vtc_init
  vtc_init-log none initializes regions platform vtc = (refl, λ z. cc)
  vtc_init-log (some base) initializes regions platform vtc =
      elim (Bool-cases (hw_platform_translate regions 0 platform base == 0)) [
        | inl e ↦ rw e (refl, λ z. cc)
        | inr e ↦ elim (Bool-cases initializes) [
          | inl f ↦ rw (e, f) (refl, λ z. refl)
          | inr f ↦ rw (e, f) (refl, λ z. cc)
        ]
      ]

  output_init-outcome :
      (platform : Platform) (t : Transport)
      → IsQuiet t
      → let (status, u) = video_output_init a platform 5760 t in
        IsQuiet u × (is_zero status ≡ true → HasDma t → HasOutput u)
  unfolding video_output_init ◌>>◌
  output_init-outcome platform t q =
      let v =
        vtc_init-log (a.vtc_config generator) (a.vtc_initializes generator) a.regions platform
          (record t.output.vtc { initialized = false }) in
      elim (Bool-cases (is_zero a.dynclk_init)) [
        | inl e ↦ rw (e, v.0) (q, λ z h. (h, (refl, (refl, v.1 z))))
        | inr e ↦ rw e (q, λ z. cc)
      ]

  input_init-outcome :
      (platform : Platform) (t : Transport)
      → IsQuiet t
      → let (status, u) = video_input_init a platform 5760 t in
        IsQuiet u × (is_zero status ≡ true → HasOutput t → IsWired u)
  unfolding video_input_init ◌>>◌ video_gpio_init
  input_init-outcome platform t q =
      let v =
        vtc_init-log (a.vtc_config detector) (a.vtc_initializes detector) a.regions platform
          (record t.input.vtc { initialized = false }) in
      elim (Bool-cases (hw_platform_base region_video_gpio platform == 0)) [
        | inl e ↦ rw e (q, λ z. cc)
        | inr e ↦ rw e (
          q,
          λ z h. record {
            opened = h.0.0;
            one_frame = h.0.1;
            output_dma = h.1.0;
            input_dma = refl;
            output_stride = h.1.1.0;
            input_stride = refl;
            generator_ready = h.1.1.1;
            detector_ready = v.1 z;
            lock_readable = λ b. ground (arith, e, b);
            descriptor = q.1.1.1 ∙ ap opens h.0.0;
            in_frame = q.0;
          },
        )
      ]

  -- From the initialisation of the driver to the others
  >>-IsQuiet :
      (m k : Transport → ℤ × Transport) (t : Transport)
      → IsQuiet (m t).1
      → Keeps (λ (v : Transport). IsQuiet v) k
      → IsQuiet ((m >> k) t).1
  unfolding ◌>>◌
  >>-IsQuiet m k t q keep = elim (Bool-cases (is_zero (m t).0)) [
    | inl e ↦ rw e (keep (m t).1 q)
    | inr e ↦ rw e q
  ]

  -- Whatever the devices answer
  init_transport-outcome :
      (platform : Platform) (t : Transport)
      → IsQuiet t
      → t.dma.is_open ≡ false
      → let (status, u) = init_transport a platform t in
        IsQuiet u × (is_zero status ≡ true → IsWired u)
  unfolding init_transport
  init_transport-outcome platform t q shut =
      let Q : Transport → Type 0 = λ (v : Transport). IsQuiet v × (v.dma.is_open ≡ false) in
      let D : Transport → Type 0 = λ (v : Transport). IsQuiet v × HasDma v in
      let O : Transport → Type 0 = λ (v : Transport). IsQuiet v × HasOutput v in
      let m = on_dma (video_dma_init a.ioctl a.device_opened a.info 1) in
      let n = video_output_init a platform 5760 in
      let k = video_input_init a platform 5760 in
      let first = dma_init-outcome t q shut in
      let quiet : IsQuiet ((m >> n >> k) t).1 =
        >>-IsQuiet (m >> n) k t
          (>>-IsQuiet m n t first.0 (λ v h. (output_init-outcome platform v h).0))
          (λ v h. (input_init-outcome platform v h).0) in
      let wired : Ensures Q (m >> n >> k) (λ (v : Transport). IsWired v) =
        >>-Ensures Q O (λ (v : Transport). IsWired v) (m >> n) k
          (>>-Ensures Q D O m n (λ v h z. let r = dma_init-outcome v h.0 h.1 in (r.0, r.1 z))
            (λ v h z. let r = output_init-outcome platform v h.0 in (r.0, r.1 z h.1)))
          (λ v h z. (input_init-outcome platform v h.0).1 z h.1) in
      (quiet, wired t (q, shut))

  module _ (p : VideoPipeline) (platform : Platform) where
    -- A pipeline that waits for a signal, and one more platform reference
    abbrev pub Initialised : ℤ × (VideoPipeline × Platform) → Type 0
    Initialised r =
        (is_zero r.0 ≡ true)
        × (InPhase waiting_for_signal r.1.0 × (r.1.1.refcount ≡ platform.refcount + 1))

    -- A pipeline that holds nothing, and as many references as before
    abbrev pub Refused : ℤ × (VideoPipeline × Platform) → Type 0
    Refused r = (is_zero r.0 ≡ false) × (IsReleased r.1.0 × (r.1.1.refcount ≡ platform.refcount))

    -- From a pipeline that has no descriptor of the frame buffer driver open, and whose channels and
    -- generator are off, on a platform in a consistent state with fewer than 2^32 - 1 references,
    -- whatever the devices, the drivers, open and mmap answer, where mmap never gives address 0: either
    -- init returns 0, and then the pipeline waits for a signal, one descriptor is open and one more
    -- platform reference is held; or it returns an error, and then no descriptor is open, since its
    -- last start each channel was asked to stop, the output's timing is disabled, and the reference
    -- count is as before.
    pub video_pipeline_init-outcome :
        NeverNull a.mapped
        → platform.refcount + 1 < 2 ^ 32
        → IsConsistent platform
        → IsQuiet p.transport
        → p.transport.dma.is_open ≡ false
        → Initialised (video_pipeline_init a p platform)
          ⊎ Refused (video_pipeline_init a p platform)
    unfolding video_pipeline_init
    video_pipeline_init-outcome null l c q shut =
        let none_open : descriptors p.transport.dma.log ≡ 0 = q.1.1.1 ∙ ap opens shut in
        let quiet : IsQuiet (blank p).transport = (q.0, (q.1.0, (q.1.1.0, none_open))) in
        let held = (hw_platform_init a.opened a.mapped platform).1 in
        let r = init_transport-outcome held (blank p).transport quiet refl in
        elim (init-outcome a.opened a.mapped platform null l c) [
          | inr (fails, count) ↦
              rw fails (inr (refl, ((quiet, ((refl, none_open), (refl, refl))), count)))
          | inl (works, (count, based)) ↦
              elim (Bool-cases (is_zero (init_transport a held (blank p).transport).0)) [
                | inl z ↦
                    rw (works, z)
                      (inl (refl, ((refl, (r.1 z, (refl, (refl, (r.0.1.0, r.0.1.1.0))))), count)))
                | inr z ↦
                    rw (works, z)
                      (inr (
                        let failed_start = record (blank p) {
                          transport = (init_transport a held (blank p).transport).1;
                          platform_ready = true;
                        } in
                        let k =
                          video_pipeline_cleanup-IsReleased failed_start held
                            (IsQuiet-IsTame _ r.0) in
                        (z, (k.0, omega (arith, k.1.1 refl, count)))))
              ]
        ]
