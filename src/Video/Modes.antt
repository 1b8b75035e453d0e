-- ===== src/Video/Modes.antt =====
-- src/svc/video_pipeline/video_modes.c: the table of supported modes, without their labels.
use subtitle_overlay_fw.Base.{
  ℕ, ◌^◌, ◌≤◌, ◌<◌, ◌≡◌, ◌&&◌, ◌==◌, Bool-cases, Option, none, some, List, [], ◌∷◌, inl, inr,
  if◌then◌else◌, arith,
}
use subtitle_overlay_fw.Hal.VideoVtc.{VtcMode}

-- The fields in the order of video_vtc_mode_t
abbrev mode : ℕ → ℕ → ℕ → ℕ → ℕ → ℕ → ℕ → ℕ → ℕ → ℕ → ℕ → VtcMode
mode width height hps hpe hmax hpol vps vpe vmax vpol clock = record {
  width = width;
  height = height;
  hps = hps;
  hpe = hpe;
  hmax = hmax;
  hpol = hpol;
  vps = vps;
  vpe = vpe;
  vmax = vmax;
  vpol = vpol;
  pixel_clock_khz = clock;
}

abbrev pub modes : List VtcMode
modes =
    mode 640 480 656 752 799 0 490 492 524 0 25000
    ∷ mode 800 600 840 968 1055 1 601 605 627 1 40000
    ∷ mode 1280 720 1390 1430 1649 1 725 730 749 1 74250
    ∷ mode 1280 1024 1328 1440 1687 1 1025 1028 1065 1 108000
    ∷ mode 1920 1080 2008 2052 2199 1 1084 1089 1124 1 148500
    ∷ []

unfoldable pub find_in : List VtcMode → ℕ → ℕ → Option VtcMode
find_in [] width height = none
find_in (m ∷ ms) width height =
    if m.width == width && m.height == height then some m else find_in ms width height

unfoldable pub video_modes_find : ℕ → ℕ → Option VtcMode
unfolding find_in
video_modes_find width height = find_in modes width height

-- Where the parts of a line and of a frame follow one another, and the picture fits 1920 by 1080
pub record IsProper (m : VtcMode) : Type 0 where
  pub wide : 0 < m.width
  pub narrow : m.width ≤ 1920
  pub tall : 0 < m.height
  pub low : m.height ≤ 1080
  pub front : m.width ≤ m.hps
  pub sync : m.hps ≤ m.hpe
  pub back : m.hpe ≤ m.hmax
  pub line : m.hmax < 2 ^ 16
  pub front_lines : m.height ≤ m.vps
  pub sync_lines : m.vps ≤ m.vpe
  pub back_lines : m.vpe ≤ m.vmax
  pub frame : m.vmax < 2 ^ 16

abbrev AreProper : List VtcMode → Type 0
AreProper [] = Unit
AreProper (m ∷ ms) = IsProper m × AreProper ms

modes-AreProper : AreProper modes
modes-AreProper = omega arith

find_in-IsProper :
    (ms : List VtcMode) (width height : ℕ) (m : VtcMode)
    → AreProper ms
    → find_in ms width height ≡ some m
    → IsProper m × ((m.width ≡ width) × (m.height ≡ height))
unfolding find_in
find_in-IsProper [] width height m p e = cc
find_in-IsProper (n ∷ ms) width height m p e =
    elim (Bool-cases (n.width == width && n.height == height)) [
      | inl here ↦ ground (arith, here, p.0, e)
      | inr there ↦ find_in-IsProper ms width height m p.1 (rw there at e)
    ]

pub video_modes_find-IsProper :
    {width height : ℕ} {m : VtcMode}
    → video_modes_find width height ≡ some m
    → IsProper m × ((m.width ≡ width) × (m.height ≡ height))
unfolding video_modes_find
video_modes_find-IsProper {width} {height} {m} e =
    find_in-IsProper modes width height m modes-AreProper e
