-- ===== src/Stt/EventRing.antt =====
-- src/svc/stt/stt_event_ring.c: transcript lines on their way from the network thread to the
-- application thread. Each critical section is one step from a ring to a ring. A line is the C
-- string in its array, without the terminator; `length` is its strlen. Log output is left out.
pub mod Spec
pub mod Evict
pub mod Push
pub mod Drain
pub mod Session
use subtitle_overlay_fw.Base.{
  ℕ, zero, suc, ◌+◌, ◌-◌, ◌%◌, Bool, true, false, not, ◌||◌, ◌&&◌, Option, none, some, List, [],
  ◌∷◌, ◌++◌, ltb, leb, ◌==◌, if◌then◌else◌, length, get_or, set, replicate, Result, ok, err, einval,
  min,
}

abbrev pub u32 : ℕ → ℕ
u32 n = n % 4294967296

-- STT_EVENT_RING_DEPTH and STT_EVENT_RING_LINE_MAX
abbrev pub depth : ℕ
depth = 8

abbrev pub line_max : ℕ
line_max = 1280

-- subtitle_text_evt_t, less its framework header
pub record TextEvent : Type 0 where
  pub seq : ℕ
  pub start_ms : ℕ
  pub end_ms : ℕ
  pub is_final : Bool
  pub text : List ℕ

-- stt_transcript_parse_line: `none` is a nonzero status.
abbrev pub Parser : Type 0
Parser = List ℕ → Option TextEvent

-- stt_event_ring_entry_t
pub record Entry : Type 0 where
  pub line : List ℕ
  pub length : ℕ
  pub is_final : Bool
  pub session_generation : ℕ

-- stt_event_ring_t
pub record EventRing : Type 0 where
  pub ring : List Entry
  pub head : ℕ
  pub count : ℕ
  pub session_generation : ℕ
  pub last_event_generation : ℕ
  pub last_event_seq : ℕ
  pub have_last_event_seq : Bool
  pub events_dropped_ring : ℕ
  pub events_rejected_old_seq : ℕ
  pub transcripts_received : ℕ
  pub transcripts_partial : ℕ
  pub transcripts_final : ℕ

abbrev pub zero_entry : Entry
zero_entry = record { line = []; length = 0; is_final = false; session_generation = 0 }

unfoldable pub init : EventRing
init = record {
  ring = replicate depth zero_entry;
  head = 0;
  count = 0;
  session_generation = 0;
  last_event_generation = 0;
  last_event_seq = 0;
  have_last_event_seq = false;
  events_dropped_ring = 0;
  events_rejected_old_seq = 0;
  transcripts_received = 0;
  transcripts_partial = 0;
  transcripts_final = 0;
}

-- stt_event_ring_cleanup: the memory is zeroed, whatever it held.
unfoldable pub cleanup : EventRing → EventRing
unfolding init
cleanup r = init

-- The getters, each a read in one critical section
abbrev pub get_generation : EventRing → ℕ
get_generation r = r.session_generation

abbrev pub get_dropped_count : EventRing → ℕ
get_dropped_count r = r.events_dropped_ring

abbrev pub get_rejected_count : EventRing → ℕ
get_rejected_count r = r.events_rejected_old_seq

abbrev pub get_count : EventRing → ℕ
get_count r = r.count

-- The `for` loop: the slot of the oldest partial, or `depth`. The first argument counts the rounds
-- left, `i` the rounds made.
unfoldable pub find_victim : ℕ → List Entry → ℕ → ℕ → ℕ
find_victim zero ring head i = depth
find_victim (suc n) ring head i =
    let slot = (head + i) % depth in
    let rest = find_victim n ring head (i + 1) in
    if not (get_or ring slot zero_entry).is_final then slot else rest

-- The `while` loop: the entries older than the victim move one slot up. The first argument is fuel;
-- `depth` rounds are enough.
unfoldable pub close_gap : ℕ → List Entry → ℕ → ℕ → List Entry
close_gap zero ring head victim = ring
close_gap (suc n) ring head victim =
    let previous = (victim + depth - 1) % depth in
    let rest = close_gap n (set ring victim (get_or ring previous zero_entry)) head previous in
    if victim == head then ring else rest

unfoldable pub evict : EventRing → EventRing
evict r =
    let found = find_victim depth r.ring r.head 0 in
    let victim = if found == depth then r.head else found in
    record r {
      ring = close_gap depth r.ring r.head victim;
      head = (r.head + 1) % depth % 256;
      count = r.count - 1;
      events_dropped_ring = u32 (r.events_dropped_ring + 1);
    }

unfoldable pub store : EventRing → List ℕ → Bool → EventRing
store r line is_final =
    let tail = (r.head + r.count) % depth in
    record r {
      ring = set r.ring tail (record {
        line = line;
        length = length line % 65536;
        is_final = is_final;
        session_generation = r.session_generation;
      });
      count = (r.count + 1) % 256;
      transcripts_received = u32 (r.transcripts_received + 1);
      transcripts_final = if is_final then u32 (r.transcripts_final + 1) else r.transcripts_final;
      transcripts_partial =
          if is_final then r.transcripts_partial else u32 (r.transcripts_partial + 1);
    }

abbrev pub keep_some : Option TextEvent → List TextEvent → List TextEvent
keep_some none l = l
keep_some (some e) l = e ∷ l

module _ (parse_line : Parser) where
  -- The result is the value written to `out_is_final`.
  unfoldable pub push : EventRing → List ℕ → Result Bool × EventRing
  push r line = if leb line_max (length line) then (err einval, r) else elim (parse_line line) [
    | none ↦ (err einval, r)
    | some parsed ↦
        (ok parsed.is_final, store (if r.count == depth then evict r else r) line parsed.is_final)
  ]

  -- The second loop of stt_event_ring_drain, for one entry: the event that is kept, if any.
  unfoldable pub admit : EventRing → Entry → Option TextEvent × EventRing
  admit r entry = elim (parse_line entry.line) [
    | none ↦ (none, r)
    | some target ↦
        if not (entry.session_generation == r.session_generation)
        then (none, record r { events_dropped_ring = u32 (r.events_dropped_ring + 1) })
        else let s = if r.last_event_generation == entry.session_generation then r else record r {
          last_event_generation = entry.session_generation;
          have_last_event_seq = false;
          last_event_seq = 0;
        } in
          if s.have_last_event_seq && leb target.seq s.last_event_seq
          then (none, record s { events_rejected_old_seq = u32 (s.events_rejected_old_seq + 1) })
          else (some target, record s { last_event_seq = target.seq; have_last_event_seq = true })
  ]

  -- `others` is what other threads do to the ring before each of the critical sections.
  unfoldable pub admit_all :
      (ℕ → EventRing → EventRing) → ℕ → EventRing → List Entry → List TextEvent × EventRing
  admit_all others i r [] = ([], r)
  admit_all others i r (entry ∷ pending) =
      let (kept, s) = admit (others i r) entry in
      let (events, t) = admit_all others (i + 1) s pending in (keep_some kept events, t)

-- The first loop of stt_event_ring_drain; the first argument is min(max_events, depth).
unfoldable pub take_pending : ℕ → EventRing → List Entry × EventRing
take_pending zero r = ([], r)
take_pending (suc n) r =
    let entry = get_or r.ring r.head zero_entry in
    let (pending, s) =
      take_pending n (record r { head = (r.head + 1) % depth % 256; count = r.count - 1 }) in
    if ltb 0 r.count then (entry ∷ pending, s) else ([], r)

-- The flag is `events != NULL && event_count != NULL`.
unfoldable pub drain :
    Parser
    → (ℕ → EventRing → EventRing)
    → EventRing
    → Bool
    → ℕ
    → Result (List TextEvent) × EventRing
drain parse_line others r has_destination max_events =
    if not has_destination || max_events == 0
    then (err einval, r)
    else let (pending, s) = take_pending (min max_events depth) r in
      let (events, t) = admit_all parse_line others 0 s pending in (ok events, t)

unfoldable pub invalidate_session : EventRing → ℕ × EventRing
invalidate_session r =
    let generation = u32 (r.session_generation + 1) in
    (
      r.count,
      record r {
        session_generation = generation;
        have_last_event_seq = false;
        last_event_seq = 0;
        last_event_generation = generation;
        events_dropped_ring = u32 (r.events_dropped_ring + r.count);
        head = 0;
        count = 0;
      },
    )
