-- ===== src/Stt/AudioTxq/Refine.antt =====
-- The array of slots against the list of items.
use subtitle_overlay_fw.Base.{
  ℕ, suc, ◌+◌, ◌-◌, ◌%◌, ◌≤◌, ◌<◌, ◌≡◌, ◌≢◌, refl, sym, ap, ◌∙◌, true, false, some, List, [], ◌∷◌,
  ◌++◌, arith, length, get_or, window, window-write, window-next, length-window, take-append_length,
  ok, err, eagain, Bool-cases, inl, inr, ◌==◌, ltb,
}
use subtitle_overlay_fw.Stt.AudioTxq.{
  Chunk, Txq, depth, max_bytes, zero_chunk, u32, make_room, fill, append, push, pop,
}
use subtitle_overlay_fw.Stt.AudioTxq.Spec.{Item, item, items, contents, shed}
use subtitle_overlay_fw.Stt.AudioTxq.Valid.{IsValid, make_room-IsValid, count-make_room}

items-append : (xs ys : List Chunk) → items (xs ++ ys) ≡ items xs ++ items ys
items-append [] ys = refl
items-append (x ∷ xs) ys = ap (◌∷◌ (item x)) (items-append xs ys)

length-items : (xs : List Chunk) → length (items xs) ≡ length xs
length-items [] = refl
length-items (x ∷ xs) = ap suc (length-items xs)

pub length-contents : (q : Txq) → length (contents q) ≡ q.count
length-contents q =
    length-items (window q.queue depth zero_chunk q.head q.count)
    ∙ length-window q.queue depth zero_chunk q.head q.count

item-fill : (c : Chunk) (pcm : List ℕ) (t d : ℕ) → item (fill c pcm t d) ≡ (pcm, t)
unfolding fill
item-fill c pcm t d = ap (λ (p : List ℕ). (p, t)) (take-append_length pcm _)

-- The slot behind the last one is none of the occupied ones.
tail_free : (h n j : ℕ) → h < depth → n < depth → j < n → (h + n) % depth ≢ (h + j) % depth
tail_free h n j hh hn hj = omega arith

contents-append :
    {q : Txq} (pcm : List ℕ) (t d : ℕ)
    → IsValid q
    → q.count < depth
    → contents (append q pcm t d) ≡ contents q ++ ((pcm, t) ∷ [])
unfolding append
contents-append {q} pcm t d v room =
    let slot = get_or q.queue ((q.head + q.count) % depth) zero_chunk in
    let c = fill slot pcm t d in
    let e : (q.count + 1) % 256 ≡ suc q.count = omega arith in
    rw e (
      ap items (
        window-write q.queue depth zero_chunk q.head q.count c (omega (arith, v.slots))
          (λ j. tail_free q.head q.count j v.head_in room))
      ∙ items-append (window q.queue depth zero_chunk q.head q.count) (c ∷ [])
      ∙ ap (λ (x : Item). contents q ++ (x ∷ [])) (item-fill slot pcm t d))

items-next :
    {q : Txq}
    → IsValid q
    → q.count ≢ 0
    → contents q
      ≡ item (get_or q.queue q.head zero_chunk)
        ∷ items (window q.queue depth zero_chunk ((q.head + 1) % depth % 256) (q.count - 1))
items-next {q} v ne = ap items (
    window-next q.queue depth zero_chunk q.head ((q.head + 1) % depth % 256) q.count ne
      (omega (arith, v.head_in)) (omega arith))

shed-full : (x : Item) (xs : List Item) → length (x ∷ xs) ≡ depth → shed (x ∷ xs) ≡ xs
unfolding shed
shed-full x xs e = ground arith

shed-room : (xs : List Item) → length xs ≢ depth → shed xs ≡ xs
unfolding shed
shed-room [] ne = refl
shed-room (x ∷ xs) ne = ground arith

contents-make_room : {q : Txq} → IsValid q → contents (make_room q) ≡ shed (contents q)
unfolding make_room
contents-make_room {q} v = elim (Bool-cases (q.count == depth)) [
  | inl e ↦
      let full : q.count ≡ depth = ground arith in
      let next = items-next v (omega arith) in
      rw e (sym (ap shed next ∙ shed-full _ _ (ap length (sym next) ∙ length-contents q ∙ full)))
  | inr e ↦ rw e (sym (shed-room (contents q) (λ p. ground (arith, length-contents q))))
]

-- On a well-formed queue whose worker runs and was not asked to stop, a chunk of 1 to 2048 bytes is
-- accepted: it stands last, and the only item given up is the oldest one of a full queue.
pub push_refines :
    {q : Txq} (pcm : List ℕ) (t d : ℕ)
    → IsValid q
    → q.worker_started ≡ true
    → q.stop_requested ≡ false
    → 0 < length pcm
    → length pcm ≤ max_bytes
    → ((push q (some pcm) t d).0 ≡ ok tt)
      × (contents (push q (some pcm) t d).1 ≡ shed (contents q) ++ ((pcm, t) ∷ []))
unfolding push
push_refines {q} pcm t d v w s lo hi = ground (
  arith,
  contents-append {q = make_room q} pcm t d (make_room-IsValid v) (count-make_room v),
  contents-make_room v,
)

-- What stt_audio_txq_pop does on a queue that holds these items.
abbrev pub PopSpec : Txq → List Item → Type 0
PopSpec q [] = pop q ≡ (err eagain, q)
PopSpec q (x ∷ rest) =
    (c : Chunk) × ((pop q).0 ≡ ok c)
    × (item c ≡ x)
    × (c.dropped ≡ u32 ((get_or q.queue q.head zero_chunk).dropped + q.dropped_total))
    × (contents (pop q).1 ≡ rest)

pop_some :
    {q : Txq} (x : Item) (rest : List Item)
    → IsValid q
    → q.count ≢ 0
    → contents q ≡ x ∷ rest
    → PopSpec q (x ∷ rest)
unfolding pop
pop_some {q} x rest v ne e =
    let c = get_or q.queue q.head zero_chunk in
    let next = sym (items-next v ne) ∙ e in
    let busy : ltb 0 q.count ≡ true = ground arith in
    rw busy (record c { dropped = u32 (c.dropped + q.dropped_total) }, refl, cc next, refl, cc next)

pop_none : (q : Txq) → q.count ≡ 0 → PopSpec q []
unfolding pop
pop_none q e = ground arith

-- stt_audio_txq_pop on a well-formed queue hands over the oldest item and keeps the others in
-- order, with the count of chunks lost in the queue so far added to the chunk's own drop count; on
-- an empty queue it returns -EAGAIN and changes nothing.
pub pop_refines : {q : Txq} → IsValid q → PopSpec q (contents q)
pop_refines {q} v = go (contents q) refl
  where
    go : (l : List Item) → contents q ≡ l → PopSpec q l
    go [] e = pop_none q (omega (arith, length-contents q, ap length e))
    go (x ∷ rest) e = pop_some x rest v (omega (arith, length-contents q, ap length e)) e
