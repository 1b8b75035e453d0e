-- ===== src/Stt/EventRing/Spec.antt =====
-- The ring as its users see it: entries, oldest first.
use subtitle_overlay_fw.Base.{
  ◌≤◌, ◌<◌, ◌≡◌, Bool, true, false, List, [], ◌∷◌, length, window, if◌then◌else◌,
}
use subtitle_overlay_fw.Stt.EventRing.{Entry, EventRing, depth, zero_entry}

abbrev pub contents : EventRing → List Entry
contents r = window r.ring depth zero_entry r.head r.count

pub record IsValid (r : EventRing) : Type 0 where
  pub slots : length r.ring ≡ depth
  pub head_in : r.head < depth
  pub count_in : r.count ≤ depth

abbrev pub has_partial : List Entry → Bool
has_partial [] = false
has_partial (e ∷ es) = if e.is_final then has_partial es else true

-- The list without its oldest partial; without its oldest entry if all are final.
abbrev pub remove_partial : List Entry → List Entry
remove_partial [] = []
remove_partial (e ∷ es) = if e.is_final then e ∷ remove_partial es else es

abbrev pub tail : List Entry → List Entry
tail [] = []
tail (e ∷ es) = es

unfoldable pub shed : List Entry → List Entry
shed es = if has_partial es then remove_partial es else tail es

abbrev pub finals : List Entry → List Entry
finals [] = []
finals (e ∷ es) = if e.is_final then e ∷ finals es else finals es
