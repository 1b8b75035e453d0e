-- ===== src/Tests/EventRing.antt =====
-- src/svc/stt/stt_event_ring.c at concrete lines.
use subtitle_overlay_fw.Base.{
  ℕ, ◌≡◌, inr, ◌≤◌, refl, true, none, some, List, [], ◌∷◌, ◌++◌, ◌==◌, ok, length, take, min, arith,
}
use subtitle_overlay_fw.Stt.EventRing.{
  EventRing, TextEvent, Parser, init, push, drain, evict, depth, store,
}
use subtitle_overlay_fw.Stt.EventRing.Spec.{contents, IsValid, has_partial, finals, shed}
use subtitle_overlay_fw.Stt.EventRing.Evict.{evict_refines}
use subtitle_overlay_fw.Stt.EventRing.Push.{push_stores, finals-push, entry_of, kept}
use subtitle_overlay_fw.Stt.EventRing.Drain.{drain_refines, drain-Ascends, Quiet, Ascends, sieve}
use subtitle_overlay_fw.Stt.EventRing.Session.{
  IsCurrent, init-IsCurrent, push-IsCurrent, drain_restarted, restart_first,
}

-- A line of two numbers: the sequence number, and 70 for a final transcript
abbrev parse_line : Parser
parse_line (seq ∷ kind ∷ rest) =
    some (record { seq = seq; start_ms = 0; end_ms = 0; is_final = kind == 70; text = rest })
parse_line _ = none

abbrev line : ℕ → ℕ → List ℕ
line seq kind = seq ∷ kind ∷ 104 ∷ 105 ∷ []

abbrev push_all : EventRing → List (List ℕ) → EventRing
push_all r [] = r
push_all r (l ∷ ls) = push_all (push parse_line r l).1 ls

push_all-IsCurrent : (r : EventRing) (ls : List (List ℕ)) → IsCurrent r → IsCurrent (push_all r ls)
push_all-IsCurrent r [] c = c
push_all-IsCurrent r (l ∷ ls) c =
    push_all-IsCurrent (push parse_line r l).1 ls (push-IsCurrent parse_line l c)

abbrev two_lines : List (List ℕ)
two_lines = line 5 70 ∷ line 6 80 ∷ []

abbrev eight_lines : List (List ℕ)
eight_lines =
    line 1 70
    ∷ line 2 80
    ∷ line 3 70
    ∷ line 4 80
    ∷ line 5 70
    ∷ line 6 70
    ∷ line 7 70
    ∷ line 8 80
    ∷ []

abbrev two : EventRing
two = push_all init two_lines

two-IsCurrent : IsCurrent two
two-IsCurrent = push_all-IsCurrent init two_lines init-IsCurrent

abbrev full : EventRing
full = push_all init eight_lines

full-IsCurrent : IsCurrent full
full-IsCurrent = push_all-IsCurrent init eight_lines init-IsCurrent

full-count : full.count ≡ depth
unfolding push store evict init
full-count = refl

full-has_partial : has_partial (contents full) ≡ true
unfolding push store evict init
full-has_partial = refl

abbrev idle : ℕ → EventRing → EventRing
idle i r = r

idle-Quiet : Quiet idle
idle-Quiet i r = record {
  generation = refl;
  last_generation = refl;
  last_seq = refl;
  have_last = refl;
}

abbrev parsed : TextEvent
parsed = record { seq = 9; start_ms = 0; end_ms = 0; is_final = true; text = 104 ∷ 105 ∷ [] }

push_stores_example :
    ((push parse_line full (line 9 70)).0 ≡ ok true)
    × (contents (push parse_line full (line 9 70)).1
        ≡ kept full ++ (entry_of full (line 9 70) true ∷ []))
    × IsValid (push parse_line full (line 9 70)).1
push_stores_example =
    push_stores parse_line (line 9 70) parsed full-IsCurrent.valid (omega arith) refl

evict_refines_example : contents (evict full) ≡ shed (contents full)
evict_refines_example = evict_refines full-IsCurrent.valid full-count

finals-push_example :
    finals (contents (push parse_line full (line 9 70)).1)
    ≡ finals (contents full) ++ finals (entry_of full (line 9 70) true ∷ [])
finals-push_example =
    finals-push parse_line (line 9 70) parsed full-IsCurrent.valid (omega arith) refl
      (inr full-has_partial)

drain_refines_example :
    (drain parse_line idle two true 5).0
    ≡ ok (
        sieve parse_line two.session_generation two.have_last_event_seq two.last_event_seq
          (take (min 5 depth) (contents two)))
drain_refines_example =
    drain_refines parse_line idle 5 two-IsCurrent.valid two-IsCurrent.settled idle-Quiet
      (omega arith)

drain-Ascends_example :
    (events : List TextEvent) × ((drain parse_line idle two true 5).0 ≡ ok events)
    × (length events ≤ min 5 depth)
    × Ascends two.have_last_event_seq two.last_event_seq events
drain-Ascends_example =
    drain-Ascends parse_line idle 5 two-IsCurrent.valid two-IsCurrent.settled idle-Quiet
      (omega arith)

drain_restarted_example : (drain parse_line (restart_first idle) two true 5).0 ≡ ok []
drain_restarted_example = drain_restarted parse_line idle 5 two-IsCurrent idle-Quiet (omega arith)
