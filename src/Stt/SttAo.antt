-- ===== src/Stt/SttAo.antt =====
-- src/svc/stt/SttAO.c: the active object that owns the client and forwards its transcripts. Timer
-- calls, reports and posted captions are entries of its `log`, the latest first; a report whose event
-- cannot be allocated or posted is an entry too, since the object goes on as if it were sent. Log
-- output is left out.
pub mod Reach
pub mod Forward
pub mod Startup
pub mod Stop
pub mod Runs
use subtitle_overlay_fw.Base.{
  ℕ, ◌+◌, ◌%◌, ◌^◌, Bool, true, false, not, ◌||◌, Option, List, [], ◌∷◌, ◌==◌, ltb, if◌then◌else◌,
  length, ok, err, Errno, einval, eagain, enobufs, eproto, emsgsize, erange, eio,
}
use subtitle_overlay_fw.Base.Int.{ℤ, negsuc}
use subtitle_overlay_fw.Hal.Status.{success}
use subtitle_overlay_fw.Subtitle.SubtitleAo.{is_zero}
use subtitle_overlay_fw.Stt.EventRing.{TextEvent}
use subtitle_overlay_fw.Stt.Json.{Floating}
use subtitle_overlay_fw.Stt.WsConfig.{Variable, config_default, parse_url}
use subtitle_overlay_fw.Stt.WsClient.{
  Client, Primitives, Meanwhile, Delivery, accepted, dropped_event_pool, dropped_subtitle_queue,
  client_init, start, request_stop, stop_complete, finish_stop, poll_events, report_delivery,
}

-- STT_AO_METRICS_POLLS and STT_AO_MAX_EVENTS_PER_POLL
abbrev pub metrics_polls : ℕ
metrics_polls = 500

abbrev pub max_events_per_poll : ℕ
max_events_per_poll = 4

-- The timer is armed for every tick; a caption is posted with its margin.
pub data Action : Type 0 where
  arm_poll disarm_poll ready_sent stopped_posted : Action
  error_sent : ℤ → Action
  caption_posted : ℕ → TextEvent → Action

-- `other` is any other signal.
pub data Signal : Type 0 where
  system_stop component_init stt_poll other : Signal

pub data State : Type 0 where
  idle ready error stopping stopped : State

-- Q_HANDLED, Q_TRAN, Q_SUPER of the stop superstate, and Q_SUPER of QHsm_top
pub data Outcome : Type 0 where
  handled super_top ignored : Outcome
  tran : State → Outcome

-- stt_ao_t; `has_client` is client != NULL, and `registered` is whether the client was given to
-- stt_ws_client_set_active.
pub record SttAo : Type 0 where
  pub client_instance : Client
  pub has_client : Bool
  pub registered : Bool
  pub polls_since_metrics : ℕ
  pub running : Bool
  pub log : List Action

-- What the code outside answers while one signal is handled. Of the i-th transcript of a poll,
-- `allocates` is whether Q_NEW_X gives an event with this margin, and `posts` whether the subtitle
-- object's queue takes it.
pub record Answers : Type 0 where
  pub getenv : Variable → Option (List ℕ)
  pub primitives : Primitives
  pub created : Bool
  pub meanwhile : Meanwhile
  pub allocates : ℕ → ℕ → Bool
  pub posts : ℕ → ℕ → Bool

-- The negative value of an errno
abbrev negative : Errno → ℤ
negative einval = negsuc 21
negative eagain = negsuc 10
negative enobufs = negsuc 104
negative eproto = negsuc 70
negative emsgsize = negsuc 89
negative erange = negsuc 33
negative eio = negsuc 4

abbrev pub act : Action → SttAo → SttAo
act x me = record me { log = x ∷ me.log }

unfoldable pub begin_stop : SttAo → SttAo
begin_stop me =
    if me.has_client then record me { client_instance = request_stop me.client_instance } else me

unfoldable pub complete_stop : SttAo → SttAo
complete_stop me = record me {
  client_instance =
      if me.has_client then (finish_stop me.client_instance).1 else me.client_instance;
  has_client = false;
  running = false;
  log = disarm_poll ∷ me.log;
}

unfoldable pub enter_error : ℤ → SttAo → SttAo
unfolding begin_stop
enter_error code me = act (error_sent code) (begin_stop me)

abbrev pub refuse : ℤ → SttAo → ℤ × SttAo
refuse code me = (code, enter_error code me)

-- on_component_init, from the client's start on
abbrev pub started : ℤ × Client → SttAo → ℤ × SttAo
started (status, client) me =
    let me1 = record me { client_instance = client; registered = true } in
    if is_zero status
    then (
      success,
      record me1 {
        has_client = true;
        running = true;
        polls_since_metrics = 0;
        log = ready_sent ∷ arm_poll ∷ me.log;
      },
    )
    else refuse (negative eio) (record me1 { has_client = false })

-- on_component_init, from the client's initialization on
abbrev pub initialized : Bool → ℤ × Client → SttAo → ℤ × SttAo
initialized created (status, client) me =
    if is_zero status
    then started (start created client) me
    else refuse status (record me { client_instance = client })

-- The counter of log_metrics
unfoldable pub log_metrics : SttAo → SttAo
log_metrics me =
    let polls = (me.polls_since_metrics + 1) % 2 ^ 32 in
    record me { polls_since_metrics = if ltb polls metrics_polls then polls else 0 }

module _ (a : Answers) where
  unfoldable pub on_component_init : SttAo → ℤ × SttAo
  unfolding enter_error client_init start
  on_component_init me =
      let (found, config) = config_default a.getenv in
      if not found then refuse (negative einval) me else elim (parse_url config.url config) [
        | err e ↦ refuse (negative einval) me
        | ok parsed ↦ initialized a.created (client_init a.primitives parsed me.client_instance) me
      ]

  abbrev pub report : Delivery → SttAo → SttAo
  report d me = record me { client_instance = report_delivery d me.client_instance }

  -- For the i-th transcript of a poll; the copy of its text is the text, since both arrays have one
  -- size.
  unfoldable pub on_transcript : ℕ → TextEvent → SttAo → ℤ × SttAo
  unfolding report_delivery
  on_transcript i e me =
      let margin = if e.is_final then 1 else 4 in
      if length e.text == 0
      then (negative einval, me)
      else if not (a.allocates i margin)
      then (negative eagain, report dropped_event_pool me)
      else if not (a.posts i margin)
      then (negative eagain, report dropped_subtitle_queue me)
      else (success, report accepted (act (caption_posted margin e) me))

  -- The loop of on_poll
  unfoldable pub forward : ℕ → List TextEvent → SttAo → SttAo
  unfolding on_transcript
  forward i [] me = me
  forward i (e ∷ es) me = forward (i + 1) es (on_transcript i e me).1

  unfoldable pub on_poll : Floating → SttAo → ℤ × SttAo
  unfolding forward log_metrics poll_events
  on_poll f me =
      let (status, client) = poll_events f a.meanwhile max_events_per_poll me.client_instance in
      let me1 = record me { client_instance = client } in
      elim status [
        | err e ↦ (negative e, me1)
        | ok events ↦ (success, log_metrics (forward 0 events me1))
      ]

abbrev pub is_quiet : SttAo → Bool
is_quiet me = not me.has_client || stop_complete me.client_instance

abbrev pub stop_now : SttAo → SttAo
stop_now me = act stopped_posted (complete_stop me)

module _ (a : Answers) where
  unfoldable pub handle_top : Signal → SttAo → Outcome × SttAo
  unfolding begin_stop complete_stop stop_complete
  handle_top system_stop me =
      let me1 = begin_stop me in
      if is_quiet me1 then (tran stopped, stop_now me1) else (tran stopping, me1)
  handle_top _ me = (ignored, me)

  unfoldable pub handle_idle : Signal → SttAo → Outcome × SttAo
  unfolding on_component_init
  handle_idle component_init me =
      let (status, me1) = on_component_init a me in
      (if is_zero status then tran ready else tran error, me1)
  handle_idle _ me = (super_top, me)

  unfoldable pub handle_ready : Floating → Signal → SttAo → Outcome × SttAo
  unfolding on_poll enter_error
  handle_ready f stt_poll me =
      let (status, me1) = on_poll a f me in
      if is_zero status then (handled, me1) else (tran error, enter_error status me1)
  handle_ready f _ me = (super_top, me)

  unfoldable pub handle_error : Signal → SttAo → Outcome × SttAo
  handle_error e me = (super_top, me)

  unfoldable pub handle_stopping : Signal → SttAo → Outcome × SttAo
  unfolding complete_stop stop_complete
  handle_stopping stt_poll me = if is_quiet me then (tran stopped, stop_now me) else (handled, me)
  handle_stopping system_stop me = (handled, me)
  handle_stopping _ me = (super_top, me)

  unfoldable pub handle_stopped : Signal → SttAo → Outcome × SttAo
  handle_stopped e me = (ignored, me)

-- stt_ao_ctor, on the memory of the object's client
unfoldable pub ctor : Client → SttAo
ctor memory = record {
  client_instance = memory;
  has_client = false;
  registered = false;
  polls_since_metrics = 0;
  running = false;
  log = [];
}
