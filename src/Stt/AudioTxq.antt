-- ===== src/Stt/AudioTxq.antt =====
-- src/svc/stt/stt_audio_txq.c: the bounded queue between the capture threads and the worker. Each
-- function body runs under the queue's mutex, so a call is one step from a queue to a queue; the
-- queue is passed by value, so its NULL test has no counterpart. The mutex and the condition
-- variable carry no data.
pub mod Spec
pub mod Valid
pub mod Refine
pub mod Trace
pub mod Deadline
use subtitle_overlay_fw.Base.{
  ℕ, ◌+◌, ◌-◌, ◌*◌, ◌/◌, ◌%◌, ◌^◌, Bool, true, false, not, ◌||◌, ◌&&◌, Option, none, some, List, [],
  ◌∷◌, ◌++◌, ltb, ◌==◌, if◌then◌else◌, length, get_or, set, drop, replicate, Result, ok, err,
  einval, eagain,
}

abbrev pub u8 : ℕ → ℕ
u8 n = n % 256

abbrev pub u32 : ℕ → ℕ
u32 n = n % 4294967296

-- STT_AUDIO_TXQ_DEPTH and STT_AUDIO_TXQ_MAX_BYTES
abbrev pub depth : ℕ
depth = 16

abbrev pub max_bytes : ℕ
max_bytes = 2048

-- stt_audio_txq_chunk_t; `payload` has `max_bytes` bytes, of which `size` are the audio.
pub record Chunk : Type 0 where
  pub payload : List ℕ
  pub size : ℕ
  pub timestamp_ns : ℕ
  pub dropped : ℕ

-- stt_audio_txq_t
pub record Txq : Type 0 where
  pub queue : List Chunk
  pub head : ℕ
  pub count : ℕ
  pub dropped_total : ℕ
  pub chunks_dropped_tx : ℕ
  pub worker_started : Bool
  pub stop_requested : Bool

-- What memset leaves in a chunk and in a queue.
pub zero_chunk : Chunk
zero_chunk = record { payload = replicate max_bytes 0; size = 0; timestamp_ns = 0; dropped = 0 }

unfoldable pub init : Txq
init = record {
  queue = replicate depth zero_chunk;
  head = 0;
  count = 0;
  dropped_total = 0;
  chunks_dropped_tx = 0;
  worker_started = false;
  stop_requested = false;
}

unfoldable pub cleanup : Txq → Txq
unfolding init
cleanup q = init

unfoldable pub worker_started : Txq → Txq
worker_started q = record q { worker_started = true }

-- A full queue gives up its oldest chunk.
unfoldable pub make_room : Txq → Txq
make_room q =
    if q.count == depth
    then record q {
      head = u8 ((q.head + 1) % depth);
      count = q.count - 1;
      dropped_total = u32 (q.dropped_total + 1);
      chunks_dropped_tx = u32 (q.chunks_dropped_tx + 1);
    }
    else q

-- memcpy into the slot's payload: what was behind the first `size` bytes stays.
unfoldable pub fill : Chunk → List ℕ → ℕ → ℕ → Chunk
fill c pcm timestamp_ns dropped = record {
  payload = pcm ++ drop (length pcm) c.payload;
  size = length pcm;
  timestamp_ns = timestamp_ns;
  dropped = dropped;
}

unfoldable pub append : Txq → List ℕ → ℕ → ℕ → Txq
append q pcm timestamp_ns dropped =
    let tail = (q.head + q.count) % depth in
    record q {
      queue = set q.queue tail (fill (get_or q.queue tail zero_chunk) pcm timestamp_ns dropped);
      count = u8 (q.count + 1);
    }

-- The list is the `size` bytes at `pcm`, `none` a NULL pointer.
unfoldable pub push : Txq → Option (List ℕ) → ℕ → ℕ → Result (Unit {0}) × Txq
push q none timestamp_ns dropped = (err einval, q)
push q (some pcm) timestamp_ns dropped =
    if length pcm == 0 || ltb max_bytes (length pcm)
    then (err einval, q)
    else if not q.worker_started || q.stop_requested
    then (err eagain, q)
    else (ok tt, append (make_room q) pcm timestamp_ns dropped)

unfoldable pub pop : Txq → Result Chunk × Txq
pop q =
    let c = get_or q.queue q.head zero_chunk in
    if ltb 0 q.count
    then (
      ok (record c { dropped = u32 (c.dropped + q.dropped_total) }),
      record q { head = u8 ((q.head + 1) % depth); count = q.count - 1 },
    )
    else (err eagain, q)

unfoldable pub discard_all : Txq → Txq
discard_all q = record q {
  chunks_dropped_tx = u32 (q.chunks_dropped_tx + q.count);
  dropped_total = u32 (q.dropped_total + q.count);
  head = 0;
  count = 0;
}

unfoldable pub request_stop : Txq → Txq
request_stop q = record q { stop_requested = true }

abbrev pub stop_requested : Txq → Bool
stop_requested q = q.stop_requested

abbrev pub get_dropped_count : Txq → ℕ
get_dropped_count q = q.chunks_dropped_tx

-- stt_audio_txq_wait: whether it blocks on the condition variable (it changes no field).
unfoldable pub wait_blocks : Txq → Bool
wait_blocks q = q.count == 0 && not q.stop_requested

-- The deadline of stt_audio_txq_wait, as seconds and nanoseconds, from the clock's.
unfoldable pub deadline : ℕ → ℕ → ℕ → ℕ × ℕ
deadline tv_sec tv_nsec timeout_ms =
    let nsec = tv_nsec + timeout_ms % 1000 * 1000000 in
    (tv_sec + (timeout_ms / 1000 + nsec / 1000000000), nsec % 1000000000)
