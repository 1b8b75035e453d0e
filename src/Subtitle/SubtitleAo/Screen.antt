-- ===== src/Subtitle/SubtitleAo/Screen.antt =====
-- What a log of the subtitle object says of the overlay, the timers and the reports.
use subtitle_overlay_fw.Base.{ℕ, ◌+◌, Bool, true, false, ◌&&◌, List, [], ◌∷◌, if◌then◌else◌}
use subtitle_overlay_fw.Subtitle.SubtitleAo.{
  Action, called, rearm_clear, rearm_previous, disarm_clear, disarm_previous, stopped_posted,
  ready_posted, error_posted, pipeline_init, clear, cleanup, write_caption, enable,
}

-- The caption memory and whether the overlay is enabled, as the calls that returned 0 left them
unfoldable pub memory : List Action → List ℕ
memory [] = []
memory (called (pipeline_init w h) true ∷ l) = []
memory (called clear true ∷ l) = []
memory (called (write_caption t f) true ∷ l) = t
memory (a ∷ l) = memory l

unfoldable pub enabled : List Action → Bool
enabled [] = false
enabled (called (pipeline_init w h) true ∷ l) = false
enabled (called (enable b) true ∷ l) = b
enabled (a ∷ l) = enabled l

-- The text to be seen
abbrev pub shown : List Action → List ℕ
shown l = if enabled l then memory l else []

-- Whether blanking the overlay ever failed
unfoldable pub blank_failed : List Action → Bool
blank_failed [] = false
blank_failed (called clear false ∷ l) = true
blank_failed (called (enable false) false ∷ l) = true
blank_failed (a ∷ l) = blank_failed l

-- Whether the pipeline is initialised
unfoldable pub up : List Action → Bool
up [] = false
up (called (pipeline_init w h) b ∷ l) = b
up (called cleanup b ∷ l) = false
up (a ∷ l) = up l

abbrev needs_up : Action → Bool
needs_up (called (pipeline_init w h) b) = false
needs_up (called cleanup b) = false
needs_up (called c b) = true
needs_up _ = false

-- Every other call of the pipeline stands between an initialisation and the next cleanup.
unfoldable pub disciplined : List Action → Bool
disciplined [] = true
disciplined (a ∷ l) = (if needs_up a then up l else true) && disciplined l

-- Whether the last call that armed or disarmed the timer armed it
unfoldable pub clear_armed : List Action → Bool
clear_armed [] = false
clear_armed (rearm_clear n ∷ l) = true
clear_armed (disarm_clear ∷ l) = false
clear_armed (a ∷ l) = clear_armed l

unfoldable pub previous_armed : List Action → Bool
previous_armed [] = false
previous_armed (rearm_previous n ∷ l) = true
previous_armed (disarm_previous ∷ l) = false
previous_armed (a ∷ l) = previous_armed l

abbrev is_ready : Action → Bool
is_ready (ready_posted w h) = true
is_ready _ = false

abbrev is_error : Action → Bool
is_error (error_posted c) = true
is_error _ = false

abbrev is_stopped : Action → Bool
is_stopped stopped_posted = true
is_stopped _ = false

abbrev count : (Action → Bool) → List Action → ℕ
count f [] = 0
count f (a ∷ l) = (if f a then 1 else 0) + count f l

-- The reports to the system object
abbrev pub readies : List Action → ℕ
readies = count is_ready

abbrev pub errors : List Action → ℕ
errors = count is_error

abbrev pub stops : List Action → ℕ
stops = count is_stopped
