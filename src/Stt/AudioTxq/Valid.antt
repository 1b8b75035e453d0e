-- ===== src/Stt/AudioTxq/Valid.antt =====
-- What holds of the audio queue between two calls.
use subtitle_overlay_fw.Base.{
  ℕ, zero, suc, ◌+◌, ◌%◌, ◌≤◌, ◌<◌, ◌≡◌, refl, Option, none, some, List, [], ◌∷◌, arith, length,
  get_or, set, drop, replicate, length-set, length-append, length-drop, length-replicate,
  Bool-cases, inl, inr, ◌==◌,
}
use subtitle_overlay_fw.Stt.AudioTxq.{
  Chunk, Txq, depth, max_bytes, zero_chunk, init, make_room, fill, append, push, pop, discard_all,
}

-- The payload is a whole array, and the recorded size stays inside it.
pub record Fits (c : Chunk) : Type 0 where
  pub whole : length c.payload ≡ max_bytes
  pub inside : c.size ≤ max_bytes

abbrev pub AllFit : List Chunk → Type 0
AllFit [] = Unit
AllFit (c ∷ cs) = Fits c × AllFit cs

pub record IsValid (q : Txq) : Type 0 where
  pub slots : length q.queue ≡ depth
  pub head_in : q.head < depth
  pub count_in : q.count ≤ depth
  pub drops_agree : q.dropped_total ≡ q.chunks_dropped_tx
  pub fit : AllFit q.queue

zero_chunk-Fits : Fits zero_chunk
unfolding zero_chunk
zero_chunk-Fits = record { whole = length-replicate {A = ℕ} max_bytes 0; inside = omega arith }

AllFit-replicate : (n : ℕ) → AllFit (replicate n zero_chunk)
AllFit-replicate zero = tt
AllFit-replicate (suc n) = (zero_chunk-Fits, AllFit-replicate n)

AllFit-set : (cs : List Chunk) (i : ℕ) (c : Chunk) → AllFit cs → Fits c → AllFit (set cs i c)
AllFit-set [] i c h f = tt
AllFit-set (x ∷ cs) zero c h f = (f, h.1)
AllFit-set (x ∷ cs) (suc i) c h f = (h.0, AllFit-set cs i c h.1 f)

get_or-Fits : (cs : List Chunk) (i : ℕ) → AllFit cs → Fits (get_or cs i zero_chunk)
get_or-Fits [] i h = zero_chunk-Fits
get_or-Fits (x ∷ cs) zero h = h.0
get_or-Fits (x ∷ cs) (suc i) h = get_or-Fits cs i h.1

fill-Fits :
    (c : Chunk) (pcm : List ℕ) (t d : ℕ) → Fits c → length pcm ≤ max_bytes → Fits (fill c pcm t d)
unfolding fill
fill-Fits c pcm t d f h = record {
  whole = omega (
    arith,
    length-append pcm (drop (length pcm) c.payload),
    length-drop (length pcm) c.payload,
    f.whole,
  );
  inside = h;
}

-- A queue after stt_audio_txq_init is well formed.
pub init-IsValid : IsValid init
unfolding init
init-IsValid = record {
  slots = refl;
  head_in = omega arith;
  count_in = omega arith;
  drops_agree = refl;
  fit = AllFit-replicate depth;
}

pub make_room-IsValid : {q : Txq} → IsValid q → IsValid (make_room q)
unfolding make_room
make_room-IsValid {q} v = elim (Bool-cases (q.count == depth)) [
  | inl e ↦ rw e (record {
    slots = v.slots;
    head_in = omega arith;
    count_in = omega (arith, v.count_in);
    drops_agree = rw v.drops_agree;
    fit = v.fit;
  })
  | inr e ↦ rw e v
]

-- There is a free slot after stt_audio_txq_push has made room.
pub count-make_room : {q : Txq} → IsValid q → (make_room q).count < depth
unfolding make_room
count-make_room v = ground arith

pub append-IsValid :
    {q : Txq} (pcm : List ℕ) (t d : ℕ)
    → IsValid q
    → q.count < depth
    → length pcm ≤ max_bytes
    → IsValid (append q pcm t d)
unfolding append
append-IsValid {q} pcm t d v room h =
    let tail = (q.head + q.count) % depth in
    let slot = get_or q.queue tail zero_chunk in
    record {
      slots = omega (arith, length-set q.queue tail (fill slot pcm t d), v.slots);
      head_in = v.head_in;
      count_in = omega arith;
      drops_agree = v.drops_agree;
      fit = AllFit-set _ tail _ v.fit (fill-Fits slot pcm t d (get_or-Fits q.queue tail v.fit) h);
    }

-- Whatever the arguments, stt_audio_txq_push keeps the queue well formed.
pub push-IsValid :
    {q : Txq} (pcm : Option (List ℕ)) (t d : ℕ) → IsValid q → IsValid (push q pcm t d).1
unfolding push
push-IsValid none t d v = v
push-IsValid {q} (some pcm) t d v =
    ground
      (arith, append-IsValid {q = make_room q} pcm t d (make_room-IsValid v) (count-make_room v))

pub pop-IsValid : {q : Txq} → IsValid q → IsValid (pop q).1
unfolding pop
pop-IsValid v = ground arith

pub discard_all-IsValid : {q : Txq} → IsValid q → IsValid (discard_all q)
unfolding discard_all
discard_all-IsValid v = ground arith
