-- ===== src/Hal/SubtitleOverlay.antt =====
-- src/hal/subtitle_overlay/subtitle_overlay.c: the registers of the overlay. A register reads back
-- what was written last, but for the start-of-frame bit of the control register, which the device
-- sets by itself: `wait_sof` takes the values that its reads return. `base` is 0 for a NULL base.
use subtitle_overlay_fw.Base.{
  ℕ, zero, suc, ◌+◌, ◌*◌, ◌/◌, ◌%◌, ◌^◌, Bool, true, false, ◌||◌, Option, none, some, ◌==◌,
  if◌then◌else◌, ltb, leb,
}
use subtitle_overlay_fw.Base.Int.{ℤ}
use subtitle_overlay_fw.Hal.Status.{success, eio, eagain, einval, estate}

-- subtitle_overlay_config_t
pub record Config : Type 0 where
  pub x : ℕ
  pub y : ℕ
  pub width : ℕ
  pub height : ℕ
  pub bar_color : ℕ
  pub text_color : ℕ

-- subtitle_overlay_t, and the registers that `base` points to
pub record Overlay : Type 0 where
  pub base : ℕ
  pub reg_pos : ℕ
  pub reg_size : ℕ
  pub reg_bar_color : ℕ
  pub reg_text_color : ℕ
  pub reg_ctrl : ℕ

-- SUBTITLE_OVERLAY_PACK_POS and _PACK_SIZE, on 32 bits
abbrev pub pack : ℕ → ℕ → ℕ
pack low high = high * 2 ^ 16 % 2 ^ 32 + low % 2 ^ 16

-- validate_overlay
unfoldable pub validate_overlay : Overlay → ℤ
validate_overlay o = if o.base == 0 then estate else success

-- subtitle_overlay_init; `base` is what hw_platform_base returns.
unfoldable pub init : ℕ → Overlay → ℤ × Overlay
init base o = (if base == 0 then eio else success, record o { base = base })

-- A color with bits outside of SUBTITLE_OVERLAY_RGB_MASK
abbrev pub is_no_color : ℕ → Bool
is_no_color c = leb (2 ^ 24) c

-- subtitle_overlay_configure; the configuration is `none` for NULL.
unfoldable pub configure : Option Config → Overlay → ℤ × Overlay
configure none o = (if o.base == 0 then estate else einval, o)
configure (some c) o =
    if o.base == 0
    then (estate, o)
    else if c.width == 0
        || (c.height == 0
            || (ltb 0xffff c.x
                || (ltb 0xffff c.y
                    || (ltb 0xffff c.width
                        || (ltb 0xffff c.height
                            || (is_no_color c.bar_color || is_no_color c.text_color))))))
    then (einval, o)
    else (
      success,
      record o {
        reg_pos = pack c.x c.y;
        reg_size = pack c.width c.height;
        reg_bar_color = c.bar_color;
        reg_text_color = c.text_color;
      },
    )

-- `control |= SUBTITLE_OVERLAY_CTRL_ENABLE` or `control &= ~SUBTITLE_OVERLAY_CTRL_ENABLE`
abbrev pub with_enable : Bool → ℕ → ℕ
with_enable true control = control / 2 * 2 + 1
with_enable false control = control / 2 * 2

-- subtitle_overlay_enable
unfoldable pub enable : Bool → Overlay → ℤ × Overlay
enable enabled o =
    if o.base == 0
    then (estate, o)
    else (success, record o { reg_ctrl = with_enable enabled o.reg_ctrl })

-- subtitle_overlay_read_control; the flag is `control != NULL`.
unfoldable pub read_control : Bool → Overlay → ℤ × Option ℕ
read_control has_destination o =
    if o.base == 0
    then (estate, none)
    else if has_destination
    then (success, some o.reg_ctrl)
    else (einval, none)

-- subtitle_overlay_clear_sof: SUBTITLE_OVERLAY_CTRL_SOF is bit 1.
unfoldable pub clear_sof : Overlay → ℤ × Overlay
clear_sof o =
    if o.base == 0
    then (estate, o)
    else (success, record o { reg_ctrl = o.reg_ctrl / 4 * 4 + o.reg_ctrl % 2 })

-- The loop of subtitle_overlay_wait_sof; `reads n` is what the n-th read of the register returns.
unfoldable pub poll_sof : (ℕ → ℕ) → ℕ → ℕ → ℤ
poll_sof reads n zero = eagain
poll_sof reads n (suc timeout_reads) =
    let rest = poll_sof reads (n + 1) timeout_reads in
    if reads n / 2 % 2 == 1 then success else rest

unfoldable pub wait_sof : (ℕ → ℕ) → Overlay → ℕ → ℤ
wait_sof reads o timeout_reads =
    if o.base == 0
    then estate
    else if timeout_reads == 0
    then einval
    else poll_sof reads 0 timeout_reads
