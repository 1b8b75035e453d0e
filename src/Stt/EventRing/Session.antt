-- ===== src/Stt/EventRing/Session.antt =====
-- Sessions: what is buffered belongs to the present one, and a restart lets nothing older through.
use subtitle_overlay_fw.Base.{
  ℕ, zero, suc, ◌+◌, ◌≤◌, ◌<◌, ◌≡◌, ◌≢◌, refl, sym, ap, ◌∙◌, true, false, min, none, some, List, [],
  ◌∷◌, ◌++◌, arith, length, length-window, Bool-cases, Option-cases, inl, inr, ◌⊎◌, leb, ◌==◌, ok,
  take,
}
use subtitle_overlay_fw.Stt.EventRing.{
  Entry, EventRing, TextEvent, Parser, depth, line_max, zero_entry, u32, evict, store, push, admit,
  admit_all, take_pending, drain, init, invalidate_session,
}
use subtitle_overlay_fw.Stt.EventRing.Spec.{IsValid, contents, has_partial, remove_partial, shed}
use subtitle_overlay_fw.Stt.EventRing.Push.{push_stores, kept, entry_of}
use subtitle_overlay_fw.Stt.EventRing.Drain.{
  Settled, Quiet, SameMarks, take_pending-Taken, marks-take_pending,
}

abbrev pub AllOf : ℕ → List Entry → Type 0
AllOf gen [] = Unit
AllOf gen (e ∷ es) = (e.session_generation ≡ gen) × AllOf gen es

-- A well-formed, settled ring whose buffered entries all carry the present generation
pub record IsCurrent (r : EventRing) : Type 0 where
  pub valid : IsValid r
  pub settled : Settled r
  pub small : r.session_generation < 4294967296
  pub entries : AllOf r.session_generation (contents r)

AllOf-append : (gen : ℕ) (xs ys : List Entry) → AllOf gen xs → AllOf gen ys → AllOf gen (xs ++ ys)
AllOf-append gen [] ys hx hy = hy
AllOf-append gen (x ∷ xs) ys hx hy = (hx.0, AllOf-append gen xs ys hx.1 hy)

AllOf-take : (gen n : ℕ) (xs : List Entry) → AllOf gen xs → AllOf gen (take n xs)
AllOf-take gen zero xs h = tt
AllOf-take gen (suc n) [] h = tt
AllOf-take gen (suc n) (x ∷ xs) h = (h.0, AllOf-take gen n xs h.1)

AllOf-remove_partial : (gen : ℕ) (xs : List Entry) → AllOf gen xs → AllOf gen (remove_partial xs)
AllOf-remove_partial gen [] h = tt
AllOf-remove_partial gen (x ∷ xs) h = elim (Bool-cases x.is_final) [
  | inl e ↦ rw (e, AllOf) (h.0, AllOf-remove_partial gen xs h.1)
  | inr e ↦ rw (e, AllOf) h.1
]

AllOf-shed : (gen : ℕ) (xs : List Entry) → AllOf gen xs → AllOf gen (shed xs)
unfolding shed
AllOf-shed gen [] h = tt
AllOf-shed gen (x ∷ xs) h = elim (Bool-cases (has_partial (x ∷ xs))) [
  | inl e ↦ rw e (AllOf-remove_partial gen (x ∷ xs) h)
  | inr e ↦ rw e h.1
]

AllOf-kept :
    (r : EventRing) → AllOf r.session_generation (contents r) → AllOf r.session_generation (kept r)
AllOf-kept r h = elim (Bool-cases (r.count == depth)) [
  | inl e ↦ rw e (AllOf-shed r.session_generation (contents r) h)
  | inr e ↦ rw e h
]

-- A ring after stt_event_ring_init is well formed, and empty.
pub init-IsCurrent : IsCurrent init
unfolding init
init-IsCurrent = record {
  valid = record { slots = refl; head_in = omega arith; count_in = omega arith };
  settled = refl;
  small = omega arith;
  entries = tt;
}

marks-push :
    (parse_line : Parser) (r : EventRing) (line : List ℕ) → SameMarks r (push parse_line r line).1
unfolding push store evict
marks-push parse_line r line = ground arith

push-cases :
    (parse_line : Parser) (r : EventRing) (line : List ℕ)
    → ((push parse_line r line).1 ≡ r)
      ⊎ ((parsed : TextEvent) × (parse_line line ≡ some parsed) × (length line < line_max))
unfolding push
push-cases parse_line r line = elim (Bool-cases (leb line_max (length line))) [
  | inl long ↦ inl (rw long)
  | inr short ↦ elim (Option-cases (parse_line line)) [
    | inl bad ↦ inl (rw (short, bad))
    | inr (parsed, good) ↦ inr (parsed, good, ground arith)
  ]
]

-- Whatever the line, a push keeps the ring well formed and settled, and every buffered entry in the
-- present session.
pub push-IsCurrent :
    (parse_line : Parser) {r : EventRing} (line : List ℕ)
    → IsCurrent r
    → IsCurrent (push parse_line r line).1
push-IsCurrent parse_line {r} line c =
    let m = marks-push parse_line r line in
    elim (push-cases parse_line r line) [
      | inl same ↦ rw same c
      | inr (parsed, good, short) ↦
          let (_, after, valid) = push_stores parse_line line parsed c.valid short good in
          record {
            valid = valid;
            settled = m.last_generation ∙ c.settled ∙ sym m.generation;
            small = rw m.generation c.small;
            entries =
                rw (m.generation, after)
                  (AllOf-append r.session_generation (kept r) (entry_of r line parsed.is_final ∷ [])
                    (AllOf-kept r c.entries) (refl, tt));
          }
    ]

-- stt_event_ring_invalidate_session empties the ring into the drop counter, opens another session,
-- forgets the last sequence number, and returns how many entries it discarded.
pub invalidate_session_lem :
    {r : EventRing}
    → IsCurrent r
    → let (discarded, s) = invalidate_session r in
      IsCurrent s
      × (contents s ≡ [])
      × (discarded ≡ length (contents r))
      × (s.events_dropped_ring ≡ u32 (r.events_dropped_ring + length (contents r)))
      × (s.session_generation ≢ r.session_generation)
      × (s.have_last_event_seq ≡ false)
unfolding invalidate_session
invalidate_session_lem {r} c =
    let n = length-window r.ring depth zero_entry r.head r.count in
    (
      record {
        valid = record { slots = c.valid.slots; head_in = omega arith; count_in = omega arith };
        settled = refl;
        small = omega arith;
        entries = tt;
      },
      refl,
      sym n,
      rw n,
      omega (arith, c.small),
      refl,
    )

-- Other threads that restart the session before the first entry is looked at, and then only push.
abbrev pub restart_first : (ℕ → EventRing → EventRing) → ℕ → EventRing → EventRing
restart_first others zero r = (invalidate_session r).1
restart_first others (suc i) r = others i r

module _ (parse_line : Parser) (gen : ℕ) where
  admit-stale :
      (r : EventRing) (e : Entry)
      → e.session_generation ≡ gen
      → r.session_generation ≢ gen
      → ((admit parse_line r e).0 ≡ none)
        × ((admit parse_line r e).1.session_generation ≡ r.session_generation)
  unfolding admit
  admit-stale r e same other = ground arith

  admit_all-stale :
      (others : ℕ → EventRing → EventRing) (i : ℕ) (r : EventRing) (es : List Entry)
      → ((j : ℕ) (s : EventRing) → i ≤ j → SameMarks s (others j s))
      → r.session_generation ≢ gen
      → AllOf gen es
      → (admit_all parse_line others i r es).0 ≡ []
  unfolding admit_all
  admit_all-stale others i r [] q ne h = refl
  admit_all-stale others i r (e ∷ es) q ne h =
      let s = others i r in
      let m = q i r (omega arith) in
      let (dropped, kept_gen) = admit-stale s e h.0 (λ p. ne (sym m.generation ∙ p)) in
      rw dropped (
        admit_all-stale others (i + 1) (admit parse_line s e).1 es (λ j t le. q j t (omega arith))
          (λ p. ne (sym m.generation ∙ sym kept_gen ∙ p)) h.1)

restart_first-Quiet :
    (others : ℕ → EventRing → EventRing)
    → Quiet others
    → (j : ℕ) (s : EventRing) → 1 ≤ j
    → SameMarks s (restart_first others j s)
restart_first-Quiet others q zero s le = elim le [ ]
restart_first-Quiet others q (suc j) s le = q j s

generation-invalidate_session :
    (r : EventRing) → (invalidate_session r).1.session_generation ≡ u32 (r.session_generation + 1)
unfolding invalidate_session
generation-invalidate_session r = refl

admit_all-restarted :
    (parse_line : Parser) (others : ℕ → EventRing → EventRing) (r : EventRing) (es : List Entry)
    → Quiet others
    → r.session_generation < 4294967296
    → AllOf r.session_generation es
    → (admit_all parse_line (restart_first others) 0 r es).0 ≡ []
unfolding admit_all
admit_all-restarted parse_line others r [] q small h = refl
admit_all-restarted parse_line others r (e ∷ es) q small h =
    let gen = r.session_generation in
    let s = (invalidate_session r).1 in
    let fresh : s.session_generation ≢ gen = omega (arith, generation-invalidate_session r) in
    let (dropped, kept_gen) = admit-stale parse_line gen s e h.0 fresh in
    rw dropped (
      admit_all-stale parse_line gen (restart_first others) 1 (admit parse_line s e).1 es
        (restart_first-Quiet others q) (λ p. fresh (sym kept_gen ∙ p)) h.1)

-- A session that restarts after a drain has copied its entries and before it looks at the first
-- one: the drain succeeds and delivers none of the old session's transcripts.
pub drain_restarted :
    (parse_line : Parser) (others : ℕ → EventRing → EventRing) {r : EventRing} (n : ℕ)
    → IsCurrent r
    → Quiet others
    → 0 < n
    → (drain parse_line (restart_first others) r true n).0 ≡ ok []
unfolding drain
drain_restarted parse_line others {r} n c q pos =
    let m = marks-take_pending (min n depth) r in
    let taken = (take_pending-Taken (min n depth) c.valid).pending in
    let busy : (n == 0) ≡ false = ground arith in
    rw busy (
      ap ok (
        admit_all-restarted parse_line others (take_pending (min n depth) r).1
          (take_pending (min n depth) r).0 q (rw m.generation c.small)
          (rw (m.generation, taken)
            (AllOf-take r.session_generation (min n depth) (contents r) c.entries))))
