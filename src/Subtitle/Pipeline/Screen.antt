-- ===== src/Subtitle/Pipeline/Screen.antt =====
-- A caption on the screen: the box's place and the pixels of the mask.
use subtitle_overlay_fw.Base.{
  ℕ, ◌+◌, ◌-◌, ◌/◌, ◌%◌, ◌^◌, ◌≤◌, ◌<◌, ◌≡◌, ◌≢◌, ◌⊎◌, inl, inr, refl, sym, ◌∙◌, Bool, true, false,
  ◌||◌, Bool-cases, some, List, ◌==◌, ltb, leb, arith,
}
use subtitle_overlay_fw.Base.Int.{pos}
use subtitle_overlay_fw.Hal.Status.{success}
use subtitle_overlay_fw.Hal.SubtitleBram as SubtitleBram
use subtitle_overlay_fw.Hal.SubtitleBram.{Bram}
use subtitle_overlay_fw.Hal.SubtitleBram.Bits.{AreBytes}
use subtitle_overlay_fw.Hal.SubtitleBram.Loops.{InSync}
use subtitle_overlay_fw.Hal.SubtitleBram.Pixels.{
  mask_pixel, bitmap_pixel, Shows, write_bitmap-Shows, clear-InSync,
}
use subtitle_overlay_fw.Hal.SubtitleOverlay as SubtitleOverlay
use subtitle_overlay_fw.Hal.SubtitleOverlay.{Overlay, Config, pack}
use subtitle_overlay_fw.Subtitle.Pipeline.{
  Caption, Renderer, Handle, box_y, box_config, set_box, show_caption, write_text,
}

-- An initialized pipeline with mapped devices, on a display of 16-bit size
pub record IsReady (h : Handle) : Type 0 where
  pub initialized : h.initialized ≡ true
  pub overlay_mapped : h.overlay.base ≢ 0
  pub bram_mapped : h.bram.base ≢ 0
  pub in_sync : InSync h.bram
  pub bar_color : h.config.bar_color < 2 ^ 24
  pub text_color : h.config.text_color < 2 ^ 24
  pub display_width : h.display_width ≤ 0xffff
  pub display_height : h.display_height ≤ 0xffff

-- A caption that the mask and the display have room for
abbrev pub Fits : Caption → Handle → Type 0
Fits c h =
    ((0 < c.width) × ((c.width ≤ 1024) × (c.width ≤ h.display_width)))
    × ((0 < c.height) × ((c.height ≤ 256) × (c.height ≤ h.display_height)))

-- The registers for a configuration
unfoldable pub registers : Config → Overlay → Overlay
registers c o = record o {
  reg_pos = pack c.x c.y;
  reg_size = pack c.width c.height;
  reg_bar_color = c.bar_color;
  reg_text_color = c.text_color;
}

-- A configuration whose sizes are 16 bits and whose colors are 24
pub record IsLegal (c : Config) : Type 0 where
  pub x : c.x ≤ 0xffff
  pub y : c.y ≤ 0xffff
  pub width : (0 < c.width) × (c.width ≤ 0xffff)
  pub height : (0 < c.height) × (c.height ≤ 0xffff)
  pub bar_color : c.bar_color < 2 ^ 24
  pub text_color : c.text_color < 2 ^ 24

pub configure-IsLegal :
    (c : Config) (o : Overlay)
    → o.base ≢ 0
    → IsLegal c
    → SubtitleOverlay.configure (some c) o ≡ (success, registers c o)
unfolding SubtitleOverlay.configure registers
configure-IsLegal c o based l =
    let mapped : (o.base == 0) ≡ false = ground (arith, based) in
    let sized : (c.width == 0
          || (c.height == 0
              || (ltb 0xffff c.x
                  || (ltb 0xffff c.y
                      || (ltb 0xffff c.width
                          || (ltb 0xffff c.height
                              || (leb (2 ^ 24) c.bar_color || leb (2 ^ 24) c.text_color)))))))
        ≡ false =
      ground (arith, l.x, l.y, l.width, l.height, l.bar_color, l.text_color) in
    rw (mapped, sized) refl

box_y-le : (display height : ℕ) → height ≤ display → box_y display height + height ≤ display
box_y-le display height h = ground (arith, h)

box_config-IsLegal :
    (c : Caption) (h : Handle) → IsReady h → Fits c h → IsLegal (box_config c.width c.height h)
unfolding box_config
box_config-IsLegal c h r f = record {
  x = omega (arith, r.display_width);
  y = omega (arith, r.display_height, box_y-le h.display_height c.height f.1.1.1);
  width = (f.0.0, omega (arith, f.0.1.0));
  height = (f.1.0, omega (arith, f.1.1.0));
  bar_color = r.bar_color;
  text_color = r.text_color;
}

-- The handle after the box of a caption
unfoldable pub boxed : Caption → Handle → Handle
boxed c h = record h {
  overlay = registers (box_config c.width c.height h) h.overlay;
  config = box_config c.width c.height h;
}

set_box-boxed :
    (c : Caption) (h : Handle)
    → IsReady h
    → Fits c h
    → set_box c.width c.height h ≡ (success, boxed c h)
unfolding set_box boxed SubtitleOverlay.configure registers box_config
set_box-boxed c h r f =
    let sized : (c.width == 0
          || (c.height == 0
              || (ltb 1024 c.width
                  || (ltb 256 c.height
                      || (ltb h.display_width c.width || ltb h.display_height c.height)))))
        ≡ false =
      ground (arith, f.0, f.1) in
    let configured =
      configure-IsLegal (box_config c.width c.height h) h.overlay r.overlay_mapped
        (box_config-IsLegal c h r f) in
    rw (r.initialized, sized, configured) refl

-- The mask after a caption: cleared, then written
unfoldable pub drawn : Caption → Bram → Bram
drawn c b =
    (SubtitleBram.write_bitmap (some c.bitmap) c.stride (pos 0) (pos 0) c.width c.height
      (SubtitleBram.clear b).1).1

-- What the renderer promises of a caption
pub record IsCaption (c : Caption) : Type 0 where
  pub bytes : AreBytes c.bitmap
  pub aligned : c.width % 32 ≡ 0
  pub strided : c.stride ≢ 0

clear-base : (b : Bram) → (SubtitleBram.clear b).1.base ≡ b.base
unfolding SubtitleBram.clear
clear-base b = elim (Bool-cases (b.base == 0)) [ inl e ↦ rw e refl | inr e ↦ rw e refl ]

module _ (c : Caption) (h : Handle) (r : IsReady h) (f : Fits c h) (k : IsCaption c) where
  drawn-Shows :
      let cleared = (SubtitleBram.clear h.bram).1 in
      let w =
        SubtitleBram.write_bitmap
          (some c.bitmap)
          c.stride
          (pos 0)
          (pos 0)
          c.width
          c.height
          cleared in
      (w.0 ≡ success)
      × ((w.1.base ≡ cleared.base)
          × (InSync w.1 × Shows w.1 cleared c.bitmap c.stride c.width c.height))
  drawn-Shows =
      let clean = clear-InSync h.bram r.bram_mapped in
      write_bitmap-Shows c.bitmap c.stride c.width c.height (SubtitleBram.clear h.bram).1 k.bytes
        clean.1.0 (λ e. r.bram_mapped (sym (clear-base h.bram) ∙ e)) k.strided
        (f.0.0, (k.aligned, f.0.1.0)) (f.1.0, f.1.1.0)

  show_caption-drawn : show_caption c h ≡ (success, record (boxed c h) { bram = drawn c h.bram })
  unfolding show_caption drawn boxed
  show_caption-drawn =
      rw (set_box-boxed c h r f, (clear-InSync h.bram r.bram_mapped).0, drawn-Shows.0) refl

  drawn-IsReady : IsReady (record (boxed c h) { bram = drawn c h.bram })
  unfolding boxed drawn box_config registers
  drawn-IsReady = record {
    initialized = r.initialized;
    overlay_mapped = r.overlay_mapped;
    bram_mapped = λ e. r.bram_mapped (sym (clear-base h.bram) ∙ sym drawn-Shows.1.0 ∙ e);
    in_sync = drawn-Shows.1.1.0;
    bar_color = r.bar_color;
    text_color = r.text_color;
    display_width = r.display_width;
    display_height = r.display_height;
  }

-- The picture and the registers show the caption: its pixels in the left upper corner of a mask
-- that is empty otherwise, under a box of its size that lies centered in the display.
abbrev pub OnScreen : Caption → Handle → Handle → Type 0
OnScreen c before after =
    let left = (before.display_width - c.width) / 2 in
    let top = box_y before.display_height c.height in
    (((x y : ℕ)
        → x < c.width
        → y < c.height
        → mask_pixel after.bram x y ≡ bitmap_pixel c.bitmap c.stride x y)
      × ((x y : ℕ) → x < 1024 → (c.width ≤ x) ⊎ (c.height ≤ y) → mask_pixel after.bram x y ≡ 0))
    × (((after.overlay.reg_pos ≡ pack left top) × (after.overlay.reg_size ≡ pack c.width c.height))
        × ((left + c.width ≤ before.display_width) × (top + c.height ≤ before.display_height)))

drawn-OnScreen :
    (c : Caption) (h : Handle)
    → IsReady h
    → Fits c h
    → IsCaption c
    → OnScreen c h (record (boxed c h) { bram = drawn c h.bram })
unfolding boxed drawn box_config registers Shows
drawn-OnScreen c h r f k =
    let shows = (drawn-Shows c h r f k).1.1.1 in
    let empty = (clear-InSync h.bram r.bram_mapped).1.1 in
    (
      (shows.0, λ x y p q. shows.1 x y p q ∙ empty x y),
      ((refl, refl), (omega (arith, f.0.1.1), box_y-le h.display_height c.height f.1.1.1)),
    )

write_text-drawn :
    (renderer : Renderer) (text : List ℕ) (is_final : Bool) (h : Handle)
    → let c = (renderer.render_caption text is_final).1 in
      IsReady h
      → (renderer.render_caption text is_final).0 ≡ success
      → Fits c h
      → IsCaption c
      → write_text renderer text is_final h
        ≡ (success, record (boxed c h) { bram = drawn c h.bram })
unfolding write_text
write_text-drawn renderer text is_final h r s f k =
    let c = (renderer.render_caption text is_final).1 in
    rw (s, show_caption-drawn c h r f k, r.initialized) refl

-- On a ready pipeline, a caption that the renderer makes and that mask and display have room for is
-- written with status 0: the mask shows exactly its pixels, whatever was there before, under a box
-- of its size that lies centered in the display, and the pipeline is ready for the next.
pub write_text-OnScreen :
    (renderer : Renderer) (text : List ℕ) (is_final : Bool) (h : Handle)
    → let c = (renderer.render_caption text is_final).1 in
      let r = write_text renderer text is_final h in
      IsReady h
      → (renderer.render_caption text is_final).0 ≡ success
      → Fits c h
      → IsCaption c
      → (r.0 ≡ success) × (OnScreen c h r.1 × IsReady r.1)
write_text-OnScreen renderer text is_final h r s f k =
    let c = (renderer.render_caption text is_final).1 in
    rw (write_text-drawn renderer text is_final h r s f k)
      (refl, (drawn-OnScreen c h r f k, drawn-IsReady c h r f k))
