-- ===== src/Stt/AudioTxq/Trace.antt =====
-- Histories of calls: what was accepted, what was delivered, and what became of the rest.
use subtitle_overlay_fw.Base.{
  ℕ, ◌+◌, ◌≤◌, ◌<◌, ◌≡◌, refl, true, false, Option, none, some, List, [], ◌∷◌, ◌++◌, append_assoc,
  arith, length, length-append, Errno, Result, ok, err, eagain, einval, not, ◌||◌, ◌⊎◌, Bool-cases,
  inl, inr, ◌==◌, ltb,
}
use subtitle_overlay_fw.Base.Subseq.{
  Subseq, done, skip, Subseq-refl, Subseq-nil, Subseq-trans, Subseq-append,
}
use subtitle_overlay_fw.Stt.AudioTxq.{
  Chunk, Txq, depth, max_bytes, u32, init, worker_started, make_room, append, push, pop,
  discard_all, request_stop,
}
use subtitle_overlay_fw.Stt.AudioTxq.Spec.{Item, item, contents, shed}
use subtitle_overlay_fw.Stt.AudioTxq.Valid.{
  IsValid, init-IsValid, push-IsValid, pop-IsValid, discard_all-IsValid,
}
use subtitle_overlay_fw.Stt.AudioTxq.Refine.{push_refines, pop_refines, PopSpec}

-- The calls of the capture threads, the worker and the client.
pub data Call : Type 0 where
  start stop take_one discard : Call
  give : Option (List ℕ) → ℕ → ℕ → Call

pub record History : Type 0 where
  pub q : Txq
  pub accepted : List Item
  pub delivered : List Item

pub note_push : Result (Unit {0}) → Option (List ℕ) → ℕ → List Item → List Item
note_push (ok u) (some pcm) t l = l ++ ((pcm, t) ∷ [])
note_push _ _ t l = l

pub note_pop : Result Chunk → List Item → List Item
note_pop (ok c) l = l ++ (item c ∷ [])
note_pop (err e) l = l

unfoldable pub step : History → Call → History
step h start = record h { q = worker_started h.q }
step h stop = record h { q = request_stop h.q }
step h discard = record h { q = discard_all h.q }
step h take_one = let (r, q') = pop h.q in record h { q = q'; delivered = note_pop r h.delivered }
step h (give pcm t d) =
    let (r, q') = push h.q pcm t d in record h { q = q'; accepted = note_push r pcm t h.accepted }

unfoldable pub run : History → List Call → History
run h [] = h
run h (c ∷ cs) = run (step h c) cs

unfoldable pub begin : History
begin = record { q = init; accepted = []; delivered = [] }

-- The queue is well formed, holds a remainder of what was accepted in its order, and every
-- accepted item is delivered, pending or counted as dropped.
pub record Accounts (h : History) : Type 0 where
  pub valid : IsValid h.q
  pub ordered : Subseq (h.delivered ++ contents h.q) h.accepted
  pub counted :
      u32 (length h.accepted) ≡ u32 (length h.delivered + h.q.count + h.q.chunks_dropped_tx)

-- What one accepted push does to the numbers.
push_counts :
    {q : Txq} (pcm : List ℕ) (t d : ℕ)
    → IsValid q
    → (push q (some pcm) t d).0 ≡ ok tt
    → u32 (q.count + q.chunks_dropped_tx + 1)
      ≡ u32 ((push q (some pcm) t d).1.count + (push q (some pcm) t d).1.chunks_dropped_tx)
unfolding push append make_room
push_counts {q} pcm t d v e = ground (arith, v.count_in)

Subseq-shed : (l : List Item) → Subseq (shed l) l
unfolding shed
Subseq-shed [] = done
Subseq-shed (x ∷ xs) = elim (Bool-cases (length (x ∷ xs) == depth)) [
  | inl e ↦ rw e (skip x (Subseq-refl xs))
  | inr e ↦ rw e (Subseq-refl (x ∷ xs))
]

-- A push is refused with no effect, or its arguments meet the conditions of `push_refines`.
push-cases :
    (q : Txq) (pcm : List ℕ) (t d : ℕ)
    → ((e : Errno) × (push q (some pcm) t d ≡ (err e, q)))
      ⊎ ((q.worker_started ≡ true)
          × (q.stop_requested ≡ false)
          × (0 < length pcm)
          × (length pcm ≤ max_bytes))
unfolding push
push-cases q pcm t d = elim (Bool-cases (length pcm == 0 || ltb max_bytes (length pcm))) [
  | inl bad ↦ inl (einval, rw bad)
  | inr good ↦ elim (Bool-cases (not q.worker_started || q.stop_requested)) [
    | inl shut ↦ inl (eagain, rw (good, shut))
    | inr open_ ↦ inr (ground arith, ground arith, ground arith, ground arith)
  ]
]

give-Accounts :
    (h : History) (pcm : List ℕ) (t d : ℕ) → Accounts h → Accounts (step h (give (some pcm) t d))
unfolding step note_push
give-Accounts h pcm t d a = elim (push-cases h.q pcm t d) [
  | inl (e, refused) ↦ rw refused a
  | inr (w, s, lo, hi) ↦
      let (accepted, after) = push_refines pcm t d a.valid w s lo hi in
      rw accepted (record {
        valid = push-IsValid (some pcm) t d a.valid;
        ordered =
            rw (after, ← append_assoc h.delivered)
              (Subseq-append
                (Subseq-trans (Subseq-append (Subseq-refl h.delivered) (Subseq-shed (contents h.q)))
                  a.ordered)
                (Subseq-refl ((pcm, t) ∷ [])));
        counted = omega (
          arith,
          a.counted,
          push_counts pcm t d a.valid accepted,
          length-append h.accepted ((pcm, t) ∷ []),
        );
      })
]

give_none-Accounts : (h : History) (t d : ℕ) → Accounts h → Accounts (step h (give none t d))
unfolding step push note_push
give_none-Accounts h t d a = a

start-Accounts : (h : History) → Accounts h → Accounts (step h start)
unfolding step worker_started
start-Accounts h a = record {
  valid = ground (arith, a.valid.fit);
  ordered = a.ordered;
  counted = a.counted;
}

stop-Accounts : (h : History) → Accounts h → Accounts (step h stop)
unfolding step request_stop
stop-Accounts h a = record {
  valid = ground (arith, a.valid.fit);
  ordered = a.ordered;
  counted = a.counted;
}

pop_counts :
    (q : Txq) {c : Chunk}
    → (pop q).0 ≡ ok c
    → ((pop q).1.count + 1 ≡ q.count) × ((pop q).1.chunks_dropped_tx ≡ q.chunks_dropped_tx)
unfolding pop
pop_counts q e = ground arith

take_some-Accounts :
    (h : History) (x : Item) (rest : List Item)
    → Accounts h
    → contents h.q ≡ x ∷ rest
    → PopSpec h.q (x ∷ rest)
    → Accounts (step h take_one)
unfolding step note_pop
take_some-Accounts h x rest a e (c, got, same, _, after) = rw got (record {
  valid = pop-IsValid a.valid;
  ordered = rw (after, same, append_assoc h.delivered) (rw e at a.ordered);
  counted = omega (arith, a.counted, pop_counts h.q got, length-append h.delivered (item c ∷ []));
})

take_none-Accounts : (h : History) → Accounts h → PopSpec h.q [] → Accounts (step h take_one)
unfolding step note_pop
take_none-Accounts h a e = rw e a

take_one-Accounts : (h : History) → Accounts h → Accounts (step h take_one)
take_one-Accounts h a = go (contents h.q) refl (pop_refines a.valid)
  where
    go :
        (l : List Item) → contents h.q ≡ l → PopSpec h.q (contents h.q) → Accounts (step h take_one)
    go [] e p = take_none-Accounts h a (rw e at p)
    go (x ∷ rest) e p = take_some-Accounts h x rest a e (rw e at p)

discard-Accounts : (h : History) → Accounts h → Accounts (step h discard)
unfolding step discard_all
discard-Accounts h a = record {
  valid = unfold discard_all in discard_all-IsValid a.valid;
  ordered =
      Subseq-trans (Subseq-append (Subseq-refl h.delivered) (Subseq-nil (contents h.q))) a.ordered;
  counted = omega (arith, a.counted);
}

step-Accounts : (h : History) (c : Call) → Accounts h → Accounts (step h c)
step-Accounts h discard a = discard-Accounts h a
step-Accounts h take_one a = take_one-Accounts h a
step-Accounts h (give (some pcm) t d) a = give-Accounts h pcm t d a
step-Accounts h (give none t d) a = give_none-Accounts h t d a
step-Accounts h start a = start-Accounts h a
step-Accounts h stop a = stop-Accounts h a

run-Accounts_from : (h : History) (cs : List Call) → Accounts h → Accounts (run h cs)
unfolding run
run-Accounts_from h [] a = a
run-Accounts_from h (c ∷ cs) a = run-Accounts_from (step h c) cs (step-Accounts h c a)

begin-Accounts : Accounts begin
unfolding begin init
begin-Accounts = record { valid = init-IsValid; ordered = done; counted = refl }

-- After any sequence of calls on a queue from stt_audio_txq_init: the queue is well formed; what
-- was delivered, followed by what is pending, is a subsequence of what was accepted, in its order;
-- and up to the wrap of the 32-bit drop counter every accepted chunk is delivered, pending or
-- counted as dropped.
pub run-Accounts : (cs : List Call) → Accounts (run begin cs)
run-Accounts cs = run-Accounts_from begin cs begin-Accounts
