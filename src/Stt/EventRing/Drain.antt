-- ===== src/Stt/EventRing/Drain.antt =====
-- stt_event_ring_drain and stt_event_ring_invalidate_session.
use subtitle_overlay_fw.Base.{
  ℕ, zero, suc, ◌+◌, ◌-◌, ◌%◌, ◌≤◌, ◌<◌, ◌≡◌, ◌≢◌, refl, sym, ap, ◌∙◌, Bool, true, false, not, min,
  none, some, List, [], ◌∷◌, arith, length, get_or, window, window-next, Bool-cases, Option-cases,
  inl, inr, ◌&&◌, ltb, leb, ◌==◌, if◌then◌else◌, ok, take, drop,
}
use subtitle_overlay_fw.Stt.EventRing.{
  Entry, EventRing, TextEvent, Parser, depth, zero_entry, admit, admit_all, keep_some, take_pending,
  drain,
}
use subtitle_overlay_fw.Stt.EventRing.Spec.{IsValid, contents}

-- The first loop takes the oldest entries, as many as asked for, and leaves the rest in order.
pub record Taken (n : ℕ) (r : EventRing) : Type 0 where
  pub pending : (take_pending n r).0 ≡ take n (contents r)
  pub left : contents (take_pending n r).1 ≡ drop n (contents r)
  pub valid : IsValid (take_pending n r).1

contents-nil : (r : EventRing) → r.count ≡ 0 → contents r ≡ []
contents-nil r e = rw e

contents-next :
    {r : EventRing}
    → IsValid r
    → r.count ≢ 0
    → contents r
      ≡ get_or r.ring r.head zero_entry
        ∷ window r.ring depth zero_entry ((r.head + 1) % depth % 256) (r.count - 1)
contents-next {r} v ne =
    window-next r.ring depth zero_entry r.head ((r.head + 1) % depth % 256) r.count ne
      (omega (arith, v.head_in)) (omega arith)

pub take_pending-Taken : (n : ℕ) {r : EventRing} → IsValid r → Taken n r
unfolding take_pending
take_pending-Taken zero v = record { pending = refl; left = refl; valid = v }
take_pending-Taken (suc n) {r} v = elim (Bool-cases (ltb 0 r.count)) [
  | inl busy ↦
      let next = record r { head = (r.head + 1) % depth % 256; count = r.count - 1 } in
      let ih =
        take_pending-Taken n {r = next} (record {
          slots = v.slots;
          head_in = omega arith;
          count_in = omega (arith, v.count_in);
        }) in
      let e = contents-next v (ground arith) in
      record {
        pending = rw (busy, e) (ap (◌∷◌ (get_or r.ring r.head zero_entry)) ih.pending);
        left = rw (busy, e) ih.left;
        valid = rw busy ih.valid;
      }
  | inr idle ↦
      let e = contents-nil r (ground arith) in
      record { pending = rw (idle, e); left = rw (idle, e); valid = rw idle v }
]

-- What of the entries reaches the application, by a plain recursion: those that parse, belong to
-- the session `gen`, and have a higher sequence number than the last one kept before them.
abbrev pub sieve : Parser → ℕ → Bool → ℕ → List Entry → List TextEvent
sieve parse_line gen have last [] = []
sieve parse_line gen have last (e ∷ es) = elim (parse_line e.line) [
  | none ↦ sieve parse_line gen have last es
  | some t ↦
      if e.session_generation == gen && not (have && leb t.seq last)
      then t ∷ sieve parse_line gen true t.seq es
      else sieve parse_line gen have last es
]

-- The fields that stt_event_ring_drain compares sequence numbers by.
pub record SameMarks (r s : EventRing) : Type 0 where
  pub generation : s.session_generation ≡ r.session_generation
  pub last_generation : s.last_event_generation ≡ r.last_event_generation
  pub last_seq : s.last_event_seq ≡ r.last_event_seq
  pub have_last : s.have_last_event_seq ≡ r.have_last_event_seq

-- The other threads leave those fields alone: they push, and start no new session.
abbrev pub Quiet : (ℕ → EventRing → EventRing) → Type 0
Quiet others = (i : ℕ) (r : EventRing) → SameMarks r (others i r)

abbrev pub Settled : EventRing → Type 0
Settled r = r.last_event_generation ≡ r.session_generation

module _ (parse_line : Parser) where
  -- What `admit` does on a settled ring, and that it stays settled.
  record Admitted (r : EventRing) (e : Entry) : Type 0 where
    settled : Settled (admit parse_line r e).1
    generation : (admit parse_line r e).1.session_generation ≡ r.session_generation
    kept :
        (es : List Entry)
        → sieve parse_line r.session_generation r.have_last_event_seq r.last_event_seq (e ∷ es)
          ≡ keep_some (admit parse_line r e).0 (
              sieve parse_line r.session_generation
                (admit parse_line r e).1.have_last_event_seq
                (admit parse_line r e).1.last_event_seq
                es)

  admit-Admitted : (r : EventRing) (e : Entry) → Settled r → Admitted r e
  unfolding admit
  admit-Admitted r e h = record {
    settled = ground arith;
    generation = ground arith;
    kept = λ es. ground arith;
  }

  -- The same after other threads that leave the marks alone.
  admit_after :
      (r s : EventRing) (e : Entry) (es : List Entry)
      → SameMarks r s
      → Settled r
      → Settled (admit parse_line s e).1
        × (sieve parse_line r.session_generation r.have_last_event_seq r.last_event_seq (e ∷ es)
            ≡ keep_some (admit parse_line s e).0 (
                sieve parse_line
                  (admit parse_line s e).1.session_generation
                  (admit parse_line s e).1.have_last_event_seq
                  (admit parse_line s e).1.last_event_seq
                  es))
  admit_after r s e es m h =
      let a = admit-Admitted s e (m.last_generation ∙ h ∙ sym m.generation) in
      (a.settled, rw (← m.generation, ← m.have_last, ← m.last_seq, a.generation) (a.kept es))

  admit_all-sieve :
      (others : ℕ → EventRing → EventRing) (i : ℕ) (r : EventRing) (pending : List Entry)
      → Quiet others
      → Settled r
      → (admit_all parse_line others i r pending).0
        ≡ sieve parse_line r.session_generation r.have_last_event_seq r.last_event_seq pending
  unfolding admit_all
  admit_all-sieve others i r [] q h = refl
  admit_all-sieve others i r (e ∷ es) q h =
      let s = others i r in
      let (settled, kept) = admit_after r s e es (q i r) h in
      ap (keep_some (admit parse_line s e).0)
        (admit_all-sieve others (i + 1) (admit parse_line s e).1 es q settled)
      ∙ sym kept

-- Sequence numbers that go strictly up, from above `last` if there is one.
abbrev pub Ascends : Bool → ℕ → List TextEvent → Type 0
Ascends have last [] = Unit
Ascends have last (e ∷ es) = (have ≡ true → last < e.seq) × Ascends true e.seq es

module _ (parse_line : Parser) (gen : ℕ) where
  sieve-Ascends :
      (have : Bool) (last : ℕ) (es : List Entry)
      → Ascends have last (sieve parse_line gen have last es)
  sieve-Ascends have last [] = tt
  sieve-Ascends have last (e ∷ es) = elim (Option-cases (parse_line e.line)) [
    | inl bad ↦ rw (bad, Ascends) (sieve-Ascends have last es)
    | inr (t, good) ↦
        elim (Bool-cases (e.session_generation == gen && not (have && leb t.seq last))) [
          | inl keep ↦ rw (good, keep, Ascends) (λ h. ground arith, sieve-Ascends true t.seq es)
          | inr shut ↦ rw (good, shut, Ascends) (sieve-Ascends have last es)
        ]
  ]

  length-sieve :
      (have : Bool) (last : ℕ) (es : List Entry)
      → length (sieve parse_line gen have last es) ≤ length es
  length-sieve have last [] = omega arith
  length-sieve have last (e ∷ es) = elim (Option-cases (parse_line e.line)) [
    | inl bad ↦ rw (bad, length) (omega (arith, length-sieve have last es))
    | inr (t, good) ↦
        elim (Bool-cases (e.session_generation == gen && not (have && leb t.seq last))) [
          | inl keep ↦ rw (good, keep, length) (omega (arith, length-sieve true t.seq es))
          | inr shut ↦ rw (good, shut, length) (omega (arith, length-sieve have last es))
        ]
  ]

pub marks-take_pending : (n : ℕ) (r : EventRing) → SameMarks r (take_pending n r).1
unfolding take_pending
marks-take_pending zero r = ground arith
marks-take_pending (suc n) r = ground (
  arith,
  marks-take_pending n (record r { head = (r.head + 1) % depth % 256; count = r.count - 1 }),
)

-- Behind a well-formed, settled ring, with other threads that at most push, a drain of n > 0 returns
-- exactly what the plain recursion keeps of the min(n, 8) oldest entries.
pub drain_refines :
    (parse_line : Parser) (others : ℕ → EventRing → EventRing) {r : EventRing} (n : ℕ)
    → IsValid r
    → Settled r
    → Quiet others
    → 0 < n
    → (drain parse_line others r true n).0
      ≡ ok (
          sieve parse_line r.session_generation r.have_last_event_seq r.last_event_seq
            (take (min n depth) (contents r)))
unfolding drain
drain_refines parse_line others {r} n v h q pos =
    let s = (take_pending (min n depth) r).1 in
    let m = marks-take_pending (min n depth) r in
    let busy : (n == 0) ≡ false = ground arith in
    rw busy (
      ap ok (
        admit_all-sieve parse_line others 0 s (take_pending (min n depth) r).0 q
          (m.last_generation ∙ h ∙ sym m.generation)
        ∙ rw (m.generation, m.have_last, m.last_seq, (take_pending-Taken (min n depth) v).pending)))

length-take-le {ℓ} : {A : Type ℓ} (n : ℕ) (xs : List A) → length (take n xs) ≤ n
length-take-le zero xs = omega arith
length-take-le (suc n) [] = omega arith
length-take-le (suc n) (x ∷ xs) = omega (arith, length-take-le n xs)

-- On a well-formed ring whose last delivery mark belongs to the present session, while other threads
-- at most push, a drain of n > 0 events succeeds with at most min(n, 8) events, whose sequence
-- numbers go strictly up from above the last one delivered before, if there was one.
pub drain-Ascends :
    (parse_line : Parser) (others : ℕ → EventRing → EventRing) {r : EventRing} (n : ℕ)
    → IsValid r
    → Settled r
    → Quiet others
    → 0 < n
    → (events : List TextEvent) × ((drain parse_line others r true n).0 ≡ ok events)
      × (length events ≤ min n depth)
      × Ascends r.have_last_event_seq r.last_event_seq events
drain-Ascends parse_line others {r} n v h q pos =
    let pending = take (min n depth) (contents r) in
    let gen = r.session_generation in
    let have = r.have_last_event_seq in
    (
      sieve parse_line gen have r.last_event_seq pending,
      drain_refines parse_line others n v h q pos,
      omega (
        arith,
        length-sieve parse_line gen have r.last_event_seq pending,
        length-take-le (min n depth) (contents r),
      ),
      sieve-Ascends parse_line gen have r.last_event_seq pending,
    )
