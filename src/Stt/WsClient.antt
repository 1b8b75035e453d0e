-- ===== src/Stt/WsClient.antt =====
-- src/svc/stt/stt_ws_client.c: the client's life from initialization to the end of its worker, and
-- what it does for the object that owns it. Each critical section is one step. The worker's own
-- fields, of the connection and the received bytes, are left out.
use subtitle_overlay_fw.Base.{
  ℕ, ◌+◌, ◌-◌, Bool, true, false, not, ◌||◌, Option, none, some, List, ◌==◌, ltb, if◌then◌else◌,
  length, Result, ok, err, einval,
}
use subtitle_overlay_fw.Base.Int.{ℤ, negsuc}
use subtitle_overlay_fw.Hal.Status.{success, eio}
use subtitle_overlay_fw.Stt.AudioTxq.{Txq, max_bytes}
use subtitle_overlay_fw.Stt.AudioTxq
use subtitle_overlay_fw.Stt.EventRing.{EventRing, TextEvent, u32, get_count, drain}
use subtitle_overlay_fw.Stt.EventRing
use subtitle_overlay_fw.Stt.Json.{Floating}
use subtitle_overlay_fw.Stt.Transcript.{parser}
use subtitle_overlay_fw.Stt.WsConfig.{Config}
use subtitle_overlay_fw.Hal.Status

-- -EALREADY
abbrev ealready : ℤ
ealready = negsuc 113

-- stt_transcript_delivery_status_t
pub data Delivery : Type 0 where
  accepted dropped_event_pool dropped_subtitle_queue : Delivery

-- The fields of stt_ws_client_t and of its counters that these functions use; `worker_thread` is
-- whether that thread was created and not joined.
pub record Client : Type 0 where
  pub config : Config
  pub audio_txq : Txq
  pub event_ring : EventRing
  pub worker_thread : Bool
  pub initialized : Bool
  pub worker_started : Bool
  pub worker_done : Bool
  pub stop_requested : Bool
  pub protocol_errors : ℕ
  pub deliveries_accepted : ℕ
  pub deliveries_dropped_pool : ℕ
  pub deliveries_dropped_queue : ℕ

-- Which calls of pthread_mutex_init, pthread_condattr_init, pthread_condattr_setclock and
-- pthread_cond_init return 0
pub record Primitives : Type 0 where
  pub mutex : Bool
  pub condattr : Bool
  pub setclock : Bool
  pub cond : Bool

-- What memset leaves, with the configuration
abbrev pub zeroed : Config → Client
zeroed config = record {
  config = config;
  audio_txq = AudioTxq.init;
  event_ring = EventRing.init;
  worker_thread = false;
  initialized = false;
  worker_started = false;
  worker_done = false;
  stop_requested = false;
  protocol_errors = 0;
  deliveries_accepted = 0;
  deliveries_dropped_pool = 0;
  deliveries_dropped_queue = 0;
}

unfoldable pub client_init : Primitives → Config → Client → ℤ × Client
client_init p config client =
    if length config.host == 0 || config.port == 0
    then (Status.einval, client)
    else if not p.mutex || (not p.condattr || (not p.setclock || not p.cond))
    then (eio, zeroed config)
    else (
      success,
      record (zeroed config) {
        audio_txq = AudioTxq.init;
        event_ring = EventRing.init;
        initialized = true;
      },
    )

-- The flag is whether pthread_create returns 0.
unfoldable pub start : Bool → Client → ℤ × Client
start created client =
    if not client.initialized
    then (Status.einval, client)
    else if client.worker_started
    then (ealready, client)
    else if created
    then (
      success,
      record client {
        worker_thread = true;
        worker_started = true;
        worker_done = false;
        stop_requested = false;
      },
    )
    else (eio, record client { worker_started = false; worker_done = true; stop_requested = false })

unfoldable pub request_stop : Client → Client
request_stop client = if client.initialized then record client { stop_requested = true } else client

unfoldable pub stop_complete : Client → Bool
stop_complete client = not client.initialized || (not client.worker_started || client.worker_done)

unfoldable pub finish_stop : Client → ℤ × Client
finish_stop client =
    if not client.initialized
    then (Status.einval, client)
    else if not client.worker_started
    then (success, client)
    else if not client.worker_done
    then (Status.eagain, client)
    else (success, record client { worker_thread = false; worker_started = false })

-- The end of worker_main, behind its loop and the closing of the connection
unfoldable pub worker_exit : Client → Client
worker_exit client = record client { worker_done = true }

-- The chunk is `none` for NULL.
unfoldable pub submit_audio : Option (List ℕ) → ℕ → ℕ → Client → Result (Unit {0}) × Client
submit_audio (some pcm) timestamp_ns dropped client =
    let (status, q) = AudioTxq.push client.audio_txq (some pcm) timestamp_ns dropped in
    if not client.initialized || (length pcm == 0 || ltb max_bytes (length pcm))
    then (err einval, client)
    else (status, record client { audio_txq = q })
submit_audio none timestamp_ns dropped client = (err einval, client)

-- What other threads do to the ring before the first reading of its count, between that and the
-- draining, before each further critical section of it, and before the second reading
pub record Meanwhile : Type 0 where
  pub before : EventRing → EventRing
  pub between : EventRing → EventRing
  pub during : ℕ → EventRing → EventRing
  pub behind : EventRing → EventRing

-- The number of entries that went without an event
abbrev pub unparsed : ℕ → ℕ → Result (List TextEvent) → ℕ
unparsed taken_before taken_after (ok events) = taken_before - taken_after - length events
unparsed taken_before taken_after (err e) = taken_before - taken_after

unfoldable pub poll_events : Floating → Meanwhile → ℕ → Client → Result (List TextEvent) × Client
unfolding drain
poll_events f m max_events client =
    let before = m.before client.event_ring in
    let (status, drained) = drain (parser f) m.during (m.between before) true max_events in
    let after = m.behind drained in
    if not client.initialized || max_events == 0 then (err einval, client) else (
      status,
      record client {
        event_ring = after;
        protocol_errors =
            u32 (client.protocol_errors + unparsed (get_count before) (get_count after) status);
      },
    )

unfoldable pub report_delivery : Delivery → Client → Client
report_delivery accepted client =
    if client.initialized
    then record client { deliveries_accepted = u32 (client.deliveries_accepted + 1) }
    else client
report_delivery dropped_event_pool client =
    if client.initialized
    then record client { deliveries_dropped_pool = u32 (client.deliveries_dropped_pool + 1) }
    else client
report_delivery dropped_subtitle_queue client =
    if client.initialized
    then record client { deliveries_dropped_queue = u32 (client.deliveries_dropped_queue + 1) }
    else client
