-- ===== src/Video/VideoIo/Started.antt =====
-- What the calls that start the input and the output ask of the channels, whether or not they succeed.
use subtitle_overlay_fw.Base.{
  ℕ, ◌≡◌, refl, ap, ◌∙◌, Bool, true, false, not, ◌||◌, Option, some, ◌==◌, if◌then◌else◌, ltb,
  arith,
}
use subtitle_overlay_fw.Hal.Status.{success, eio}
use subtitle_overlay_fw.Hal.VideoDma.{
  Channel, mm2s, s2mm, video_dma_configure, video_dma_start, video_dma_select_frame, ioctl_noarg,
}
use subtitle_overlay_fw.Hal.VideoDma.Frames.{runs}
use subtitle_overlay_fw.Hal.VideoVtc.{
  VtcMode, VideoVtc, video_vtc_configure_generator, video_vtc_start_generator,
}
use subtitle_overlay_fw.Video.Modes.{IsProper}
use subtitle_overlay_fw.Video.VideoIo.{
  Answers, Transport, on_dma, on_output_vtc, video_input_stop, video_output_stop,
  video_output_start, video_input_start_capture, capture_calls, output_calls,
}
use subtitle_overlay_fw.Subtitle.SubtitleAo.{is_zero}
use subtitle_overlay_fw.Video.VideoIo.Wired.{
  generates, IsWired, captures, if-keeps, if-true, Keeps, >>-Keeps, Ensures, >>-Ensures,
  input_stop-IsWired, output_stop-IsWired,
}

-- What starting one side leaves of the other
abbrev pub DisplayKept : Bool → Bool → Option VtcMode → Transport → Type 0
DisplayKept d g o t =
    IsWired t
    × ((runs mm2s t.dma.log ≡ d) × ((generates t.output.vtc.log ≡ g) × (t.output.mode ≡ o)))

abbrev pub CaptureKept : Bool → Transport → Type 0
CaptureKept c t = IsWired t × (captures t ≡ c)

-- An output that is started displays the mode.
abbrev pub Displaying : VtcMode → Transport → Type 0
Displaying m t =
    (runs mm2s t.dma.log ≡ true) × ((generates t.output.vtc.log ≡ true) × (t.output.mode ≡ some m))

took : (b : Bool) → is_zero (if b then success else eio) ≡ true → b ≡ true
took true e = refl
took false e = cc

module _ (a : Answers) where
  -- A start that returns 0
  start-runs :
      (c : Channel) (t : Transport)
      → IsWired t
      → is_zero (on_dma (video_dma_start a.ioctl c) t).0 ≡ true
      → runs c (on_dma (video_dma_start a.ioctl c) t).1.dma.log ≡ true
  unfolding video_dma_start ioctl_noarg
  start-runs mm2s t w e = rw w.opened (took _ (rw w.opened at e))
  start-runs s2mm t w e = rw w.opened (took _ (rw w.opened at e))

  -- A frame of a mode in the table lies in the one buffer.
  pub configure-IsWired :
      (c : Channel) (m : VtcMode) (t : Transport)
      → IsProper m
      → IsWired t
      → let u = (on_dma (video_dma_configure a.ioctl c m.width m.height 5760 0) t).1 in
        IsWired u
        × ((captures u ≡ captures t)
            × ((runs mm2s u.dma.log ≡ runs mm2s t.dma.log)
                × ((u.output.vtc.log ≡ t.output.vtc.log) × (u.output.mode ≡ t.output.mode))))
  unfolding video_dma_configure
  configure-IsWired c m t p w =
      let none_ : not t.dma.is_open
            || (m.width == 0 || (m.height == 0 || (5760 == 0 || not (ltb 0 t.dma.frame_count))))
          ≡ false =
        ground (arith, w.opened, w.one_frame, p.wide, p.tall) in
      rw none_ (ground (arith, w.descriptor, w.in_frame, p.narrow, p.low))

  pub input_start-DisplayKept :
      (d g : Bool) (o : Option VtcMode)
      → Keeps (DisplayKept d g o) (on_dma (video_dma_start a.ioctl s2mm))
  unfolding video_dma_start ioctl_noarg
  input_start-DisplayKept d g o t (w, k) = rw w.opened (ground (arith, w.descriptor, w.in_frame, k))

  capture_calls-DisplayKept :
      (m : VtcMode) (d g : Bool) (o : Option VtcMode)
      → IsProper m
      → Keeps (DisplayKept d g o) (capture_calls a m 0 5760)
  unfolding capture_calls
  capture_calls-DisplayKept m d g o p =
      let P = DisplayKept d g o in
      let configured : Keeps P (on_dma (video_dma_configure a.ioctl s2mm m.width m.height 5760 0)) =
        λ v h. let c = configure-IsWired s2mm m v p h.0 in ground (arith, c, h) in
      >>-Keeps P _ _ (>>-Keeps P _ _ configured (input_start-DisplayKept d g o))
        (λ v h. ground (arith, h))

  capture_calls-captures :
      (m : VtcMode)
      → IsProper m
      → Ensures
          (λ (t : Transport). IsWired t)
          (capture_calls a m 0 5760)
          (λ (t : Transport). runs s2mm t.dma.log ≡ true)
  unfolding capture_calls video_dma_start ioctl_noarg
  capture_calls-captures m p =
      let W : Transport → Type 0 = λ (v : Transport). IsWired v in
      let On : Transport → Type 0 = λ (v : Transport). runs s2mm v.dma.log ≡ true in
      >>-Ensures W On On _ _
        (>>-Ensures W W On _ _ (λ v h e. (configure-IsWired s2mm m v p h).0)
          (λ v h e. start-runs s2mm v h e))
        (λ v h e. h)

  pub video_input_start_capture-calls :
      (m : VtcMode) (t : Transport)
      → IsWired t
      → video_input_start_capture a m 0 t
        ≡ capture_calls a m 0 5760 (if t.input.running then video_input_stop a t else t)
  unfolding video_input_start_capture
  video_input_start_capture-calls m t w =
      if-true t.input.has_dma _ _ w.input_dma
      ∙ ap (λ (s : ℕ). capture_calls a m 0 s (if t.input.running then video_input_stop a t else t))
          w.input_stride

  -- Whatever the driver answers, what is captured is the mode's picture in the one frame.
  pub start_capture-IsWired :
      (m : VtcMode) (t : Transport)
      → IsProper m
      → IsWired t
      → let u = (video_input_start_capture a m 0 t).1 in
        IsWired u
        × ((runs mm2s u.dma.log ≡ runs mm2s t.dma.log)
            × ((generates u.output.vtc.log ≡ generates t.output.vtc.log)
                × (u.output.mode ≡ t.output.mode)))
  start_capture-IsWired m t p w =
      let g = generates t.output.vtc.log in
      let P = DisplayKept (runs mm2s t.dma.log) g t.output.mode in
      let s = input_stop-IsWired a t w in
      rw (video_input_start_capture-calls m t w) (
        capture_calls-DisplayKept m (runs mm2s t.dma.log) g t.output.mode p _ (
          if-keeps P t.input.running (video_input_stop a t) t
            (s.0, (s.1.1.0, (ap generates s.1.1.1.0, s.1.1.1.1))) (w, (refl, (refl, refl)))))

  -- A capture that is started without an error runs.
  pub start_capture-captures :
      (m : VtcMode) (t : Transport)
      → IsProper m
      → IsWired t
      → is_zero (video_input_start_capture a m 0 t).0 ≡ true
      → runs s2mm (video_input_start_capture a m 0 t).1.dma.log ≡ true
  start_capture-captures m t p w =
      let s = input_stop-IsWired a t w in
      rw (video_input_start_capture-calls m t w) (
        capture_calls-captures m p _
          (if-keeps (λ (v : Transport). IsWired v) t.input.running (video_input_stop a t) t s.0 w))

  pub output_start-CaptureKept :
      (c : Bool) → Keeps (CaptureKept c) (on_dma (video_dma_start a.ioctl mm2s))
  unfolding video_dma_start ioctl_noarg
  output_start-CaptureKept c t (w, k) = rw w.opened (ground (arith, w.descriptor, w.in_frame, k))

  pub choose-CaptureKept :
      (c : Bool) → Keeps (CaptureKept c) (on_dma (video_dma_select_frame a.ioctl mm2s 0))
  unfolding video_dma_select_frame
  choose-CaptureKept c t (w, k) =
      rw (w.opened, w.one_frame) (ground (arith, w.descriptor, w.in_frame, k))

  pub generator-CaptureKept :
      (m : VtcMode) (c : Bool)
      → Keeps (CaptureKept c) (on_output_vtc (video_vtc_configure_generator m))
        × Keeps
            (CaptureKept c)
            (on_output_vtc (λ (vtc : VideoVtc). (success, video_vtc_start_generator vtc)))
  unfolding video_vtc_configure_generator video_vtc_start_generator
  generator-CaptureKept m c = (
    λ t h. rw (h.0.generator_ready) (ground (arith, h)),
    λ t h. rw (h.0.generator_ready) (ground (arith, h)),
  )

  output_calls-CaptureKept :
      (m : VtcMode) (c : Bool) → IsProper m → Keeps (CaptureKept c) (output_calls a m 0 5760)
  unfolding output_calls
  output_calls-CaptureKept m c p =
      let P = CaptureKept c in
      let g = generator-CaptureKept m c in
      let configured : Keeps P (on_dma (video_dma_configure a.ioctl mm2s m.width m.height 5760 0)) =
        λ v h. let k = configure-IsWired mm2s m v p h.0 in ground (arith, k, h) in
      let timed =
        >>-Keeps P _ _
          (>>-Keeps P (λ (v : Transport). (a.dynclk_configure m.pixel_clock_khz, v)) _ (λ v h. h)
            g.0)
          g.1 in
      let started = >>-Keeps P _ _ (>>-Keeps P _ _ timed configured) (output_start-CaptureKept c) in
      >>-Keeps P _ _ (>>-Keeps P _ _ started (choose-CaptureKept c)) (λ v h. ground (arith, h))

  pub video_output_start-calls :
      (m : VtcMode) (t : Transport)
      → IsWired t
      → video_output_start a m 0 t
        ≡ output_calls a m 0 5760 (if t.output.running then video_output_stop a t else t)
  unfolding video_output_start
  video_output_start-calls m t w =
      if-true t.output.has_dma _ _ w.output_dma
      ∙ ap (λ (s : ℕ). output_calls a m 0 s (if t.output.running then video_output_stop a t else t))
          w.output_stride

  -- Whatever the drivers answer, what is displayed is the mode's picture in the one frame.
  pub output_start-IsWired :
      (m : VtcMode) (t : Transport)
      → IsProper m
      → IsWired t
      → let u = (video_output_start a m 0 t).1 in IsWired u × (captures u ≡ captures t)
  output_start-IsWired m t p w =
      let s = output_stop-IsWired a t w in
      rw (video_output_start-calls m t w) (
        output_calls-CaptureKept m (captures t) p _ (
          if-keeps (CaptureKept (captures t)) t.output.running (video_output_stop a t) t
            (s.0, s.1.1) (w, refl)))

  output_calls-Displaying :
      (m : VtcMode)
      → IsProper m
      → Ensures (λ (t : Transport). IsWired t) (output_calls a m 0 5760) (Displaying m)
  unfolding output_calls video_vtc_configure_generator video_vtc_start_generator video_dma_start
      ioctl_noarg video_dma_select_frame
  output_calls-Displaying m p =
      let W : Transport → Type 0 = λ (v : Transport). IsWired v in
      let G : Transport → Type 0 =
        λ (v : Transport). IsWired v × (generates v.output.vtc.log ≡ true) in
      let T : Transport → Type 0 = λ (v : Transport). G v × (runs mm2s v.dma.log ≡ true) in
      let g = generator-CaptureKept m in
      let clock : Ensures W (λ (v : Transport). (a.dynclk_configure m.pixel_clock_khz, v)) W =
        λ v h e. h in
      let timed = >>-Ensures W W W _ _ clock (λ v h e. ((g (captures v)).0 v (h, refl)).0) in
      let generating =
        >>-Ensures W W G _ _ timed
          (λ v h e. (((g (captures v)).1 v (h, refl)).0, rw (h.generator_ready) refl)) in
      let configured =
        >>-Ensures W G G _ _ generating
          (λ v h e. let c = configure-IsWired mm2s m v p h.0 in (c.0, h.1)) in
      let started = >>-Ensures W G T _ _ configured (λ v h e. (
        ((output_start-CaptureKept (captures v) v (h.0, refl)).0, h.1),
        start-runs mm2s v h.0 e,
      )) in
      let chosen = >>-Ensures W T T _ _ started (λ v h e. (
        ((choose-CaptureKept (captures v) v (h.0.0, refl)).0, h.0.1),
        rw (h.0.0.opened, h.0.0.one_frame) h.1,
      )) in
      >>-Ensures W T (Displaying m) _ _ chosen (λ v h e. (h.1, (h.0.1, refl)))

  pub output_start-Displaying :
      (m : VtcMode) (t : Transport)
      → IsProper m
      → IsWired t
      → is_zero (video_output_start a m 0 t).0 ≡ true
      → Displaying m (video_output_start a m 0 t).1
  output_start-Displaying m t p w =
      let s = output_stop-IsWired a t w in
      rw (video_output_start-calls m t w) (
        output_calls-Displaying m p _ (
          if-keeps (λ (v : Transport). IsWired v) t.output.running (video_output_stop a t) t s.0 w))
