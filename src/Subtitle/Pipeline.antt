-- ===== src/Subtitle/Pipeline.antt =====
-- src/svc/subtitle_pipeline/subtitle_pipeline.c: the overlay's box and the mask behind one handle.
-- The text renderer is the interface `Renderer`; what open and mmap return when the platform is
-- acquired is `opened` and `mapped`. The `Handle` holds the pipeline with the devices that it
-- drives and the platform that it shares. `memset` of the pipeline leaves the devices alone.
pub mod Screen
pub mod Startup
use subtitle_overlay_fw.Base.{
  ℕ, ◌+◌, ◌*◌, ◌-◌, ◌/◌, ◌%◌, ◌^◌, Bool, true, false, not, ◌||◌, ◌&&◌, Option, none, some, List, [],
  ◌==◌, if◌then◌else◌, ltb, replicate,
}
use subtitle_overlay_fw.Base.Int.{ℤ, pos, negsuc}
use subtitle_overlay_fw.Hal.Status.{success, eio, einval, estate}
use subtitle_overlay_fw.Hal.SubtitleBram as SubtitleBram
use subtitle_overlay_fw.Hal.SubtitleBram.{Bram, mask_width, mask_height, word_count}
use subtitle_overlay_fw.Hal.SubtitleOverlay as SubtitleOverlay
use subtitle_overlay_fw.Hal.SubtitleOverlay.{Overlay, Config}
use subtitle_overlay_fw.Hal.HwPlatform.{
  Platform, hw_platform_init, hw_platform_cleanup, hw_platform_base, region_overlay,
  region_subtitle_bram,
}
use subtitle_overlay_fw.Subtitle.SubtitleAo.{
  Pipeline, Call, pipeline_init, reconfigure, clear, cleanup, write_caption, enable, is_zero,
}

-- What subtitle_text_renderer_render_caption writes: the buffer, and the three sizes
pub record Caption : Type 0 where
  pub bitmap : List ℕ
  pub width : ℕ
  pub height : ℕ
  pub stride : ℕ

pub record Renderer : Type 0 where
  pub render_caption : List ℕ → Bool → ℤ × Caption

pub record Handle : Type 0 where
  pub overlay : Overlay
  pub bram : Bram
  pub config : Config
  pub display_width : ℕ
  pub display_height : ℕ
  pub platform_ready : Bool
  pub initialized : Bool
  pub platform : Platform

-- The larger of the two
abbrev pub at_least : ℕ → ℕ → ℕ
at_least low n = if ltb n low then low else n

abbrev pub bottom_margin : ℕ → ℕ
bottom_margin display_height = display_height / 20

abbrev pub box_y : ℕ → ℕ → ℕ
box_y display_height height =
    if ltb (height + bottom_margin display_height) display_height
    then display_height - height - bottom_margin display_height
    else 0

-- The multiplication wraps at 32 bits; the colors are SUBTITLE_PIPELINE_DEFAULT_BAR_COLOR and
-- SUBTITLE_PIPELINE_DEFAULT_TEXT_COLOR.
unfoldable pub default_config : ℕ → ℕ → Config
default_config display_width display_height =
    let bar_width = at_least mask_width (display_width * 4 % 2 ^ 32 / 5) in
    let bar_height = at_least mask_height (display_height / 6) in
    record {
      x = if ltb bar_width display_width then (display_width - bar_width) / 2 else 0;
      y = box_y display_height bar_height;
      width = bar_width;
      height = bar_height;
      bar_color = 0;
      text_color = 0xffffff;
    }

-- A call of the overlay or of the mask
abbrev pub on_overlay : (Overlay → ℤ × Overlay) → Handle → ℤ × Handle
on_overlay f h = let (status, o) = f h.overlay in (status, record h { overlay = o })

abbrev pub on_bram : (Bram → ℤ × Bram) → Handle → ℤ × Handle
on_bram f h = let (status, b) = f h.bram in (status, record h { bram = b })

-- `if (status == 0) status = ...;`
infixl 5 ◌then_if_ok◌
abbrev pub ◌then_if_ok◌ : ℤ × Handle → (Handle → ℤ × Handle) → ℤ × Handle
(status, h) then_if_ok f = if is_zero status then f h else (status, h)

-- The stages behind the overlay's init
unfoldable pub later_stages : Handle → ℤ × Handle
later_stages h =
    on_bram (SubtitleBram.init (hw_platform_base region_subtitle_bram h.platform)) h
    then_if_ok (λ g. on_overlay (SubtitleOverlay.configure (some g.config)) g)
    then_if_ok (on_bram SubtitleBram.clear)
    then_if_ok (on_overlay (SubtitleOverlay.enable false))

-- If a stage failed, the overlay is left disabled.
abbrev pub roll_back : ℤ × Handle → ℤ × Handle
roll_back (status, h) =
    (status, if is_zero status then h else (on_overlay (SubtitleOverlay.enable false) h).1)

unfoldable pub configure_hardware : Handle → ℤ × Handle
configure_hardware h =
    on_overlay (SubtitleOverlay.init (hw_platform_base region_overlay h.platform)) h
    then_if_ok (λ g. roll_back (later_stages g))

abbrev pub no_config : Config
no_config = record { x = 0; y = 0; width = 0; height = 0; bar_color = 0; text_color = 0 }

-- memset(pipeline, 0, sizeof(*pipeline))
unfoldable pub reset : Handle → Handle
reset h = record h {
  overlay = record h.overlay { base = 0 };
  bram = record h.bram { base = 0; shadow = replicate word_count 0 };
  config = no_config;
  display_width = 0;
  display_height = 0;
  platform_ready = false;
  initialized = false;
}

unfoldable pub release : Handle → Handle
release h = record h { platform = hw_platform_cleanup h.platform; platform_ready = false }

-- subtitle_pipeline_cleanup
unfoldable pub clean_up : Handle → Handle
clean_up h =
    let h1 = if h.initialized then (on_overlay (SubtitleOverlay.enable false) h).1 else h in
    reset (if h1.platform_ready then release h1 else h1)

unfoldable pub resize : ℕ → ℕ → Handle → ℤ × Handle
resize display_width display_height h =
    if not h.initialized
    then (estate, h)
    else if display_width == 0 || display_height == 0
    then (einval, h)
    else on_overlay (SubtitleOverlay.configure (some (default_config display_width display_height)))
        (record h {
          display_width = display_width;
          display_height = display_height;
          config = default_config display_width display_height;
        })

unfoldable pub clear_mask : Handle → ℤ × Handle
clear_mask h = if h.initialized then on_bram SubtitleBram.clear h else (estate, h)

-- The box that subtitle_pipeline_set_box asks for
unfoldable pub box_config : ℕ → ℕ → Handle → Config
box_config width height h = record h.config {
  width = width;
  height = height;
  x = (h.display_width - width) / 2;
  y = box_y h.display_height height;
}

unfoldable pub set_box : ℕ → ℕ → Handle → ℤ × Handle
set_box width height h =
    if not h.initialized
    then (estate, h)
    else if width == 0
        || (height == 0
            || (ltb mask_width width
                || (ltb mask_height height
                    || (ltb h.display_width width || ltb h.display_height height))))
    then (einval, h)
    else let (status, h1) =
        on_overlay (SubtitleOverlay.configure (some (box_config width height h))) h in
      (status, if is_zero status then record h1 { config = box_config width height h } else h1)

unfoldable pub set_enabled : Bool → Handle → ℤ × Handle
set_enabled enabled h =
    if h.initialized then on_overlay (SubtitleOverlay.enable enabled) h else (estate, h)

-- subtitle_pipeline_write_caption behind the rendering
unfoldable pub show_caption : Caption → Handle → ℤ × Handle
show_caption c h =
    set_box c.width c.height h
    then_if_ok (on_bram SubtitleBram.clear)
    then_if_ok (on_bram
        (SubtitleBram.write_bitmap (some c.bitmap) c.stride (pos 0) (pos 0) c.width c.height))

module _ (renderer : Renderer) where
  unfoldable pub write_text : List ℕ → Bool → Handle → ℤ × Handle
  write_text text current_is_final h =
      let (status, caption) = renderer.render_caption text current_is_final in
      if not h.initialized
      then (estate, h)
      else if is_zero status
      then show_caption caption h
      else (status, h)

module _ (opened : Bool) (mapped : ℕ → Option ℕ) where
  unfoldable pub set_up : ℕ → ℕ → Handle → ℤ × Handle
  set_up display_width display_height h =
      if display_width == 0 || display_height == 0
      then (einval, h)
      else let h1 = record (reset h) {
        display_width = display_width;
        display_height = display_height;
        config = default_config display_width display_height;
      } in
        let (acquired, p) = hw_platform_init opened mapped h1.platform in
        let (status, h2) = configure_hardware (record h1 { platform = p; platform_ready = true }) in
        if not acquired
        then (eio, record h1 { platform = p })
        else if is_zero status
        then (success, record h2 { initialized = true })
        else (status, release h2)

-- The calls of subtitle_pipeline.h, as the subtitle object makes them
module _ (renderer : Renderer) (opened : Bool) (mapped : ℕ → Option ℕ) where
  unfoldable pub call : Call → Handle → ℤ × Handle
  call (pipeline_init display_width display_height) h =
      set_up opened mapped display_width display_height h
  call (reconfigure display_width display_height) h = resize display_width display_height h
  call clear h = clear_mask h
  call cleanup h = (success, clean_up h)
  call (write_caption text is_final) h = write_text renderer text is_final h
  call (enable enabled) h = set_enabled enabled h

  abbrev pub pipeline : Pipeline
  pipeline = record {
    Handle = Handle;
    call = call;
    display_width = λ h. h.display_width;
    display_height = λ h. h.display_height;
  }
