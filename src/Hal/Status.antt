-- ===== src/Hal/Status.antt =====
-- The statuses that the hardware layer returns: 0, or the negative of an errno or of an APP_ code.
use subtitle_overlay_fw.Base.Int.{ℤ, pos, negsuc}

abbrev pub success : ℤ
success = pos 0

-- -EIO, -EAGAIN and -EINVAL
abbrev pub eio : ℤ
eio = negsuc 4

abbrev pub eagain : ℤ
eagain = negsuc 10

abbrev pub einval : ℤ
einval = negsuc 21

-- -APP_ESTATE
abbrev pub estate : ℤ
estate = negsuc 999
