-- ===== src/Hal/VideoVtc.antt =====
-- src/hal/video_vtc/video_vtc.c and src/hal/video_gpio/video_gpio.c: the timing controllers and the
-- input's lock signal. The vendor's driver is a parameter: what its lookup, its initialisation and
-- its detector answer. The calls that set a controller are entries of its `log`, the latest first,
-- which `memset` leaves alone.
use subtitle_overlay_fw.Base.{
  ℕ, ◌+◌, ◌-◌, ◌%◌, ◌^◌, Bool, true, false, not, ◌||◌, Option, none, some, List, ◌∷◌, ◌==◌,
  if◌then◌else◌,
}
use subtitle_overlay_fw.Base.Int.{ℤ, negsuc}
use subtitle_overlay_fw.Hal.Status.{success, eio, einval}
use subtitle_overlay_fw.Hal.HwPlatform.{Platform, hw_platform_translate, hw_platform_base}
use subtitle_overlay_fw.Hal.VideoDma.{enodev}

-- -ENODATA
abbrev pub enodata : ℤ
enodata = negsuc 60

-- video_vtc_mode_t, with the pixel clock in kHz
pub record VtcMode : Type 0 where
  pub width : ℕ
  pub height : ℕ
  pub hps : ℕ
  pub hpe : ℕ
  pub hmax : ℕ
  pub hpol : ℕ
  pub vps : ℕ
  pub vpe : ℕ
  pub vmax : ℕ
  pub vpol : ℕ
  pub pixel_clock_khz : ℕ

-- The fields of XVtc_Timing that the generator is given; both fields of a frame have the same
-- vertical porches and it is not interlaced.
pub record Timing : Type 0 where
  pub h_active_video : ℕ
  pub h_front_porch : ℕ
  pub h_sync_width : ℕ
  pub h_back_porch : ℕ
  pub h_sync_polarity : ℕ
  pub v_active_video : ℕ
  pub v_front_porch : ℕ
  pub v_sync_width : ℕ
  pub v_back_porch : ℕ
  pub v_sync_polarity : ℕ

-- XPAR_V_TC_0_DEVICE_ID generates the output's timing, XPAR_V_TC_1_DEVICE_ID detects the input's.
pub data Role : Type 0 where
  generator detector : Role

pub data Call : Type 0 where
  reg_update_enable set_source enable_generator enable disable_generator enable_detector : Call
  set_generator_timing : Timing → Call

pub record VideoVtc : Type 0 where
  pub initialized : Bool
  pub log : List Call

-- uint16_t a - b, as the difference of two uint32_t is stored
abbrev pub sub16 : ℕ → ℕ → ℕ
sub16 a b = (a + 2 ^ 32 - b) % 2 ^ 16

-- video_vtc_init: XVtc_LookupConfig gives the base address, or NULL.
unfoldable pub video_vtc_init : Option ℕ → Bool → List (ℕ × ℕ) → Platform → VideoVtc → ℤ × VideoVtc
video_vtc_init none initializes regions platform vtc = (enodev, record vtc { initialized = false })
video_vtc_init (some base_address) initializes regions platform vtc =
    if hw_platform_translate regions 0 platform base_address == 0
    then (eio, record vtc { initialized = false })
    else if initializes
    then (success, record vtc { initialized = true })
    else (eio, record vtc { initialized = false })

unfoldable pub generator_timing : VtcMode → Timing
generator_timing mode = record {
  h_active_video = mode.width % 2 ^ 16;
  h_front_porch = sub16 mode.hps mode.width;
  h_sync_width = sub16 mode.hpe mode.hps;
  h_back_porch = sub16 (mode.hmax + 1) mode.hpe;
  h_sync_polarity = mode.hpol % 2 ^ 16;
  v_active_video = mode.height % 2 ^ 16;
  v_front_porch = sub16 mode.vps mode.height;
  v_sync_width = sub16 mode.vpe mode.vps;
  v_back_porch = sub16 (mode.vmax + 1) mode.vpe;
  v_sync_polarity = mode.vpol % 2 ^ 16;
}

unfoldable pub video_vtc_configure_generator : VtcMode → VideoVtc → ℤ × VideoVtc
video_vtc_configure_generator mode vtc =
    if vtc.initialized
    then (
      success,
      record vtc {
        log =
            set_source ∷ set_generator_timing (generator_timing mode) ∷ reg_update_enable ∷ vtc.log;
      },
    )
    else (einval, vtc)

unfoldable pub video_vtc_start_generator : VideoVtc → VideoVtc
video_vtc_start_generator vtc =
    if vtc.initialized then record vtc { log = enable ∷ enable_generator ∷ vtc.log } else vtc

unfoldable pub video_vtc_stop_generator : VideoVtc → VideoVtc
video_vtc_stop_generator vtc =
    if vtc.initialized then record vtc { log = disable_generator ∷ vtc.log } else vtc

unfoldable pub video_vtc_start_detector : VideoVtc → ℤ × VideoVtc
video_vtc_start_detector vtc =
    if vtc.initialized
    then (success, record vtc { log = enable ∷ enable_detector ∷ reg_update_enable ∷ vtc.log })
    else (einval, vtc)

-- `locked` and `detected` are what the detector answers: XVTC_STAT_LOCKED_MASK of its status, and
-- HActiveVideo and VActiveVideo of its timing. On success the result is what is written to `timing`.
unfoldable pub video_vtc_read_detector_timing : Bool → ℕ × ℕ → VideoVtc → ℤ × (ℕ × ℕ)
video_vtc_read_detector_timing locked (width, height) vtc =
    if not vtc.initialized
    then (einval, (0, 0))
    else if not locked
    then (enodata, (0, 0))
    else if width == 0 || height == 0
    then (enodata, (0, 0))
    else (success, (width, height))

-- HW_REGION_VIDEO_GPIO
abbrev pub region_video_gpio : ℕ
region_video_gpio = 5

-- video_gpio_t, with the writes to the registers, offset and value, the latest first
pub record VideoGpio : Type 0 where
  pub base : ℕ
  pub log : List (ℕ × ℕ)

unfoldable pub video_gpio_init : Platform → VideoGpio → ℤ × VideoGpio
video_gpio_init platform gpio =
    let base = hw_platform_base region_video_gpio platform in
    if base == 0
    then (eio, record gpio { base = 0 })
    else (success, record { base = base; log = (0, 1) ∷ (0xc, 1) ∷ (4, 0) ∷ (0, 0) ∷ gpio.log })

-- `word` is what is read from the second data register.
unfoldable pub video_gpio_is_locked : ℕ → VideoGpio → Bool
video_gpio_is_locked word gpio = if gpio.base == 0 then false else not (word % 2 == 0)
