-- ===== src/Tests/Overlay.antt =====
-- src/hal/subtitle_bram/subtitle_bram.c, src/bsp/platform/linux/hw_platform.c and
-- src/svc/subtitle_pipeline/subtitle_pipeline.c at concrete inputs.
use subtitle_overlay_fw.Base.{
  ℕ, ◌+◌, ◌≡◌, ◌≢◌, ◌⊎◌, refl, true, false, Option, none, some, List, [], ◌∷◌, replicate,
  length-replicate, arith,
}
use subtitle_overlay_fw.Base.Int.{pos}
use subtitle_overlay_fw.Hal.Status.{success}
use subtitle_overlay_fw.Hal.SubtitleBram.{
  Bram, write_bitmap, word_count, reverse_bits_u8, pack_word,
}
use subtitle_overlay_fw.Hal.SubtitleBram.Loops.{InSync}
use subtitle_overlay_fw.Hal.SubtitleBram.Pixels.{Shows, write_bitmap-Shows}
use subtitle_overlay_fw.Hal.HwPlatform.{Platform, at_start}
use subtitle_overlay_fw.Hal.HwPlatform.Owners.{
  Step, acquire, release, run, at_start-IsConsistent, bases-run,
}
use subtitle_overlay_fw.Subtitle.Pipeline.{
  Caption, Renderer, Handle, no_config, set_up, clean_up, write_text,
}
use subtitle_overlay_fw.Subtitle.Pipeline.Screen.{IsReady, OnScreen, IsCaption, write_text-OnScreen}
use subtitle_overlay_fw.Subtitle.Pipeline.Startup.{
  Started, Refused, set_up-outcome, clean_up-set_up,
}

-- The bits of a byte the other way round, and the leftmost of 32 pixels in bit 0
reverse_bits : reverse_bits_u8 0x1d ≡ 0xb8
unfolding reverse_bits_u8
reverse_bits = refl

leftmost_pixel : pack_word (0x80 ∷ 0 ∷ 0 ∷ 0x01 ∷ []) 0 ≡ 0x80000001
unfolding pack_word reverse_bits_u8
leftmost_pixel = refl

abbrev blank_bram : Bram
blank_bram = record { base = 4096; shadow = replicate word_count 0; words = replicate word_count 0 }

blank_bram-InSync : InSync blank_bram
blank_bram-InSync = (refl, length-replicate {A = ℕ} 8192 0)

-- One row of 32 pixels, of which the two ends are set
abbrev two_ends : Caption
two_ends = record { bitmap = 0x80 ∷ 0 ∷ 0 ∷ 0x01 ∷ []; width = 32; height = 1; stride = 4 }

write_bitmap-Shows_example :
    let r = write_bitmap (some two_ends.bitmap) 4 (pos 0) (pos 0) 32 1 blank_bram in
    (r.0 ≡ success)
    × ((r.1.base ≡ 4096) × (InSync r.1 × Shows r.1 blank_bram two_ends.bitmap 4 32 1))
write_bitmap-Shows_example =
    write_bitmap-Shows two_ends.bitmap 4 32 1 blank_bram (omega arith) blank_bram-InSync
      (omega arith) (omega arith) (omega arith, (refl, omega arith)) (omega arith, omega arith)

abbrev everywhere : ℕ → Option ℕ
everywhere region = some (4096 + region)

everywhere-NeverNull : (region : ℕ) → everywhere region ≢ some 0
everywhere-NeverNull region e = ground (arith, e)

-- A platform that one owner holds
abbrev held_once : Platform
held_once = record { refcount = 1; devmem_open = true; bases = replicate 6 4096 }

abbrev coming_and_going : List Step
coming_and_going = acquire true everywhere ∷ acquire false (λ region. none) ∷ release ∷ release ∷ []

bases-run_example :
    ((run coming_and_going held_once).bases ≡ replicate 6 4096)
    × ((run coming_and_going held_once).devmem_open ≡ true)
bases-run_example = bases-run coming_and_going 0 held_once tt (omega arith) (omega arith)

abbrev full_hd : Handle
full_hd = record {
  overlay = record {
    base = 8192;
    reg_pos = 0;
    reg_size = 0;
    reg_bar_color = 0;
    reg_text_color = 0;
    reg_ctrl = 3;
  };
  bram = blank_bram;
  config = no_config;
  display_width = 1920;
  display_height = 1080;
  platform_ready = true;
  initialized = true;
  platform = held_once;
}

full_hd-IsReady : IsReady full_hd
full_hd-IsReady = record {
  initialized = refl;
  overlay_mapped = omega arith;
  bram_mapped = omega arith;
  in_sync = blank_bram-InSync;
  bar_color = omega arith;
  text_color = omega arith;
  display_width = omega arith;
  display_height = omega arith;
}

abbrev draws_two_ends : Renderer
draws_two_ends = record { render_caption = λ text is_final. (success, two_ends) }

two_ends-IsCaption : IsCaption two_ends
two_ends-IsCaption = record { bytes = omega arith; aligned = refl; strided = omega arith }

write_text-OnScreen_example :
    let r = write_text draws_two_ends (b'h' ∷ b'i' ∷ []) true full_hd in
    (r.0 ≡ success) × (OnScreen two_ends full_hd r.1 × IsReady r.1)
write_text-OnScreen_example =
    write_text-OnScreen draws_two_ends (b'h' ∷ b'i' ∷ []) true full_hd full_hd-IsReady refl
      ((omega arith, (omega arith, omega arith)), (omega arith, (omega arith, omega arith)))
      two_ends-IsCaption

abbrev switched_off : Handle
switched_off = record full_hd { platform = at_start; platform_ready = false; initialized = false }

set_up-outcome_example :
    Started true everywhere 1920 1080 switched_off (set_up true everywhere 1920 1080 switched_off)
    ⊎ Refused true everywhere 1920 1080 switched_off (set_up true everywhere 1920 1080 switched_off)
set_up-outcome_example =
    set_up-outcome true everywhere 1920 1080 switched_off everywhere-NeverNull (omega arith)
      at_start-IsConsistent (omega arith, omega arith) (omega arith, omega arith)

clean_up-set_up_example :
    let g = clean_up (set_up true everywhere 1920 1080 switched_off).1 in
    (g.initialized ≡ false) × ((g.platform_ready ≡ false) × (g.platform.refcount ≡ 0))
clean_up-set_up_example =
    clean_up-set_up true everywhere 1920 1080 switched_off everywhere-NeverNull (omega arith)
      at_start-IsConsistent (omega arith, omega arith) (omega arith, omega arith)
