-- ===== src/Stt/AudioTxq/Spec.antt =====
-- The queue as its users see it: audio items, oldest first, at most `depth` of them.
use subtitle_overlay_fw.Base.{ℕ, List, [], ◌∷◌, length, take, window, if◌then◌else◌, ◌==◌}
use subtitle_overlay_fw.Stt.AudioTxq.{Chunk, Txq, depth, zero_chunk}

-- The audio bytes and the capture time.
abbrev pub Item : Type 0
Item = List ℕ × ℕ

abbrev pub item : Chunk → Item
item c = (take c.size c.payload, c.timestamp_ns)

abbrev pub items : List Chunk → List Item
items [] = []
items (c ∷ cs) = item c ∷ items cs

abbrev pub contents : Txq → List Item
contents q = items (window q.queue depth zero_chunk q.head q.count)

-- A full queue loses its oldest item.
unfoldable pub shed : List Item → List Item
shed [] = []
shed (x ∷ xs) = if length (x ∷ xs) == depth then xs else x ∷ xs
