-- ===== src/Subtitle/Pipeline/Startup.antt =====
-- subtitle_pipeline_init and _cleanup: the cleared, disabled start, and the platform reference.
use subtitle_overlay_fw.Base.{
  ℕ, ◌+◌, ◌-◌, ◌%◌, ◌^◌, ◌≤◌, ◌<◌, ◌≡◌, ◌≢◌, ◌⊎◌, inl, inr, refl, sym, ◌∙◌, Bool, true, false, ◌||◌,
  Bool-cases, Option, ◌==◌, replicate, arith,
}
use subtitle_overlay_fw.Base.Int.{ℤ}
use subtitle_overlay_fw.Hal.Status.{success, eio}
use subtitle_overlay_fw.Hal.SubtitleBram as SubtitleBram
use subtitle_overlay_fw.Hal.SubtitleBram.{Bram, word_count}
use subtitle_overlay_fw.Hal.SubtitleBram.Pixels.{mask_pixel, clear-InSync}
use subtitle_overlay_fw.Hal.SubtitleOverlay as SubtitleOverlay
use subtitle_overlay_fw.Hal.SubtitleOverlay.{Overlay, Config, with_enable}
use subtitle_overlay_fw.Hal.HwPlatform.{
  Platform, hw_platform_init, hw_platform_base, region_overlay, region_subtitle_bram,
}
use subtitle_overlay_fw.Hal.HwPlatform.Owners.{
  IsConsistent, NeverNull, init-outcome, cleanup-refcount,
}
use subtitle_overlay_fw.Subtitle.Pipeline.{
  Handle, default_config, later_stages, configure_hardware, set_up, clean_up, release, reset,
}
use subtitle_overlay_fw.Subtitle.Pipeline.Screen.{IsReady, IsLegal, registers, configure-IsLegal}

default_config-IsLegal :
    (width height : ℕ) → width ≤ 0xffff → height ≤ 0xffff → IsLegal (default_config width height)
unfolding default_config
default_config-IsLegal width height w h = record {
  x = ground (arith, w);
  y = ground (arith, h);
  width = ground (arith, w);
  height = ground (arith, h);
  bar_color = omega arith;
  text_color = omega arith;
}

-- On a display that is at least as large as the mask, the default box lies inside it, as far from
-- the left edge as from the right but for a pixel.
default_config-inside :
    (width height : ℕ)
    → 1024 ≤ width
    → width ≤ 0xffff
    → 256 ≤ height
    → let c = default_config width height in (c.x + c.width ≤ width) × (c.y + c.height ≤ height)
unfolding default_config
default_config-inside width height w w' h = (ground (arith, w, w'), ground (arith, h))

-- The handle after a start that succeeds
unfoldable started : Handle → Handle
started h = record h {
  overlay = record (registers h.config h.overlay) {
    base = hw_platform_base region_overlay h.platform;
    reg_ctrl = with_enable false h.overlay.reg_ctrl;
  };
  bram =
      (SubtitleBram.clear (record h.bram {
        base = hw_platform_base region_subtitle_bram h.platform;
        shadow = replicate word_count 0;
      })).1;
}

later_stages-started :
    (h : Handle)
    → hw_platform_base region_subtitle_bram h.platform ≢ 0
    → h.overlay.base ≢ 0
    → IsLegal h.config
    → later_stages h ≡ (
      success,
      record h {
        overlay = record (registers h.config h.overlay) {
          reg_ctrl = with_enable false h.overlay.reg_ctrl;
        };
        bram =
            (SubtitleBram.clear (record h.bram {
              base = hw_platform_base region_subtitle_bram h.platform;
              shadow = replicate word_count 0;
            })).1;
      },
    )
unfolding later_stages SubtitleBram.init SubtitleOverlay.enable registers
later_stages-started h mapped based legal =
    let b : Bram = record h.bram {
      base = hw_platform_base region_subtitle_bram h.platform;
      shadow = replicate word_count 0;
    } in
    let there : (hw_platform_base region_subtitle_bram h.platform == 0) ≡ false =
      ground (arith, mapped) in
    let here : (h.overlay.base == 0) ≡ false = ground (arith, based) in
    rw (there, configure-IsLegal h.config h.overlay based legal, (clear-InSync b mapped).0, here)
      refl

configure_hardware-started :
    (h : Handle)
    → hw_platform_base region_overlay h.platform ≢ 0
    → hw_platform_base region_subtitle_bram h.platform ≢ 0
    → IsLegal h.config
    → configure_hardware h ≡ (success, started h)
unfolding configure_hardware SubtitleOverlay.init started registers
configure_hardware-started h overlay_there bram_there legal =
    let based : Handle = record h {
      overlay = record h.overlay { base = hw_platform_base region_overlay h.platform };
    } in
    let there : (hw_platform_base region_overlay h.platform == 0) ≡ false =
      ground (arith, overlay_there) in
    rw (there, later_stages-started based bram_there overlay_there legal) refl

-- An empty mask under an overlay that passes the video through
abbrev pub IsBlank : Handle → Type 0
IsBlank h = ((x y : ℕ) → mask_pixel h.bram x y ≡ 0) × (h.overlay.reg_ctrl % 2 ≡ 0)

started-IsBlank :
    (h : Handle) → hw_platform_base region_subtitle_bram h.platform ≢ 0 → IsBlank (started h)
unfolding started
started-IsBlank h there =
    let b : Bram = record h.bram {
      base = hw_platform_base region_subtitle_bram h.platform;
      shadow = replicate word_count 0;
    } in
    ((clear-InSync b there).1.1, omega arith)

clear-base : (b : Bram) → (SubtitleBram.clear b).1.base ≡ b.base
unfolding SubtitleBram.clear
clear-base b = elim (Bool-cases (b.base == 0)) [ inl e ↦ rw e refl | inr e ↦ rw e refl ]

started-IsReady :
    (h : Handle)
    → hw_platform_base region_overlay h.platform ≢ 0
    → hw_platform_base region_subtitle_bram h.platform ≢ 0
    → IsLegal h.config
    → h.display_width ≤ 0xffff
    → h.display_height ≤ 0xffff
    → IsReady (record (started h) { initialized = true })
unfolding started
started-IsReady h overlay_there bram_there legal w l =
    let b : Bram = record h.bram {
      base = hw_platform_base region_subtitle_bram h.platform;
      shadow = replicate word_count 0;
    } in
    record {
      initialized = refl;
      overlay_mapped = overlay_there;
      bram_mapped = λ e. bram_there (sym (clear-base b) ∙ e);
      in_sync = (clear-InSync b bram_there).1.0;
      bar_color = legal.bar_color;
      text_color = legal.text_color;
      display_width = w;
      display_height = l;
    }

module _ (opened : Bool) (mapped : ℕ → Option ℕ) (width height : ℕ) (h : Handle) where
  -- What init makes of the handle before it touches a device
  unfoldable prepared : Platform → Handle
  prepared p = record (reset h) {
    display_width = width;
    display_height = height;
    config = default_config width height;
    platform = p;
    platform_ready = true;
  }

  set_up-acquired :
      (width == 0 || height == 0) ≡ false
      → (hw_platform_init opened mapped h.platform).0 ≡ true
      → configure_hardware (prepared (hw_platform_init opened mapped h.platform).1)
        ≡ (success, started (prepared (hw_platform_init opened mapped h.platform).1))
      → set_up opened mapped width height h ≡ (
        success,
        record (started (prepared (hw_platform_init opened mapped h.platform).1)) {
          initialized = true;
        },
      )
  unfolding set_up reset prepared
  set_up-acquired sized got done = rw (sized, got, done) refl

  set_up-refused :
      (width == 0 || height == 0) ≡ false
      → (hw_platform_init opened mapped h.platform).0 ≡ false
      → set_up opened mapped width height h ≡ (
        eio,
        record (prepared (hw_platform_init opened mapped h.platform).1) { platform_ready = false },
      )
  unfolding set_up reset prepared
  set_up-refused sized got = rw (sized, got) refl

  -- What init leaves when it succeeds
  abbrev pub Started : ℤ × Handle → Type 0
  Started r =
      (r.0 ≡ success)
      × ((IsReady r.1 × IsBlank r.1)
          × ((r.1.platform_ready ≡ true) × (r.1.platform.refcount ≡ h.platform.refcount + 1)))

  -- What it leaves when the platform cannot be had
  abbrev pub Refused : ℤ × Handle → Type 0
  Refused r =
      (r.0 ≡ eio)
      × ((r.1.initialized ≡ false)
          × ((r.1.platform_ready ≡ false) × (r.1.platform.refcount ≡ h.platform.refcount)))

  -- For a display of 1 to 65535 pixels each way, on a platform in a consistent state with fewer than
  -- 2^32 - 1 references, whatever open and mmap return, where mmap never gives address 0: either init returns 0, and then the pipeline is ready, its mask empty, the
  -- overlay passes the video through and one more platform reference is held; or it returns -EIO,
  -- and then the pipeline is not initialized and holds no reference, and the count is as before.
  pub set_up-outcome :
      NeverNull mapped
      → h.platform.refcount + 1 < 2 ^ 32
      → IsConsistent h.platform
      → (0 < width) × (width ≤ 0xffff)
      → (0 < height) × (height ≤ 0xffff)
      → Started (set_up opened mapped width height h)
        ⊎ Refused (set_up opened mapped width height h)
  unfolding prepared started reset
  set_up-outcome null l c w k =
      let sized : (width == 0 || height == 0) ≡ false = ground (arith, w.0, k.0) in
      elim (init-outcome opened mapped h.platform null l c) [
        | inl r ↦
            let (got, (count, all)) = r in
            let g = prepared (hw_platform_init opened mapped h.platform).1 in
            let legal = default_config-IsLegal width height w.1 k.1 in
            let overlay_there = all 3 (omega arith) in
            let bram_there = all 4 (omega arith) in
            let done = configure_hardware-started g overlay_there bram_there legal in
            rw (set_up-acquired sized got done) (
              inl (
                refl,
                (
                  (
                    started-IsReady g overlay_there bram_there legal w.1 k.1,
                    started-IsBlank g bram_there,
                  ),
                  (refl, count),
                ),
              ))
        | inr r ↦ rw (set_up-refused sized r.0) (inr (refl, (refl, (refl, r.1))))
      ]

clean_up-held :
    (h : Handle)
    → h.platform_ready ≡ true
    → ((clean_up h).platform.refcount ≡ h.platform.refcount - 1)
unfolding clean_up release reset
clean_up-held h r = elim (Bool-cases h.initialized) [
  | inl e ↦ rw (e, r) (cleanup-refcount h.platform)
  | inr e ↦ rw (e, r) (cleanup-refcount h.platform)
]

clean_up-free :
    (h : Handle) → h.platform_ready ≡ false → ((clean_up h).platform.refcount ≡ h.platform.refcount)
unfolding clean_up reset
clean_up-free h r = elim (Bool-cases h.initialized) [
  | inl e ↦ rw (e, r) refl
  | inr e ↦ rw (e, r) refl
]

clean_up-stopped :
    (h : Handle) → ((clean_up h).initialized ≡ false) × ((clean_up h).platform_ready ≡ false)
unfolding clean_up reset
clean_up-stopped h = (refl, refl)

-- Under the same conditions, an init and then a cleanup leave the pipeline stopped without a
-- reference, and the reference count of the platform as it was, however far the init came.
pub clean_up-set_up :
    (opened : Bool) (mapped : ℕ → Option ℕ) (width height : ℕ) (h : Handle)
    → NeverNull mapped
    → h.platform.refcount + 1 < 2 ^ 32
    → IsConsistent h.platform
    → (0 < width) × (width ≤ 0xffff)
    → (0 < height) × (height ≤ 0xffff)
    → let g = clean_up (set_up opened mapped width height h).1 in
      (g.initialized ≡ false)
      × ((g.platform_ready ≡ false) × (g.platform.refcount ≡ h.platform.refcount))
clean_up-set_up opened mapped width height h null l c w k =
    let r = set_up opened mapped width height h in
    let stopped = clean_up-stopped r.1 in
    let count : (clean_up r.1).platform.refcount ≡ h.platform.refcount =
      elim (set_up-outcome opened mapped width height h null l c w k) [
        | inl s ↦ omega (arith, clean_up-held r.1 s.1.1.0, s.1.1.1)
        | inr s ↦ clean_up-free r.1 s.1.1.0 ∙ s.1.1.1
      ] in
    (stopped.0, (stopped.1, count))
