-- ===== src/System/SystemAo.antt =====
-- src/svc/system/SystemAO.c: the active object that starts the components and shuts them down. A
-- state handler takes an event and the object to an outcome and the object. The calls of the QP/C
-- framework (posts, timers, QF_stop) are entries of the object's `log`, and whether an init event
-- could be allocated and posted is the parameter `accepts`. Log output is left out, and so are the
-- log-only handler of SYSTEM_INIT_TIMEOUT_SIG's names and on_run.
pub mod Framework
pub mod Reach
pub mod Runs
use subtitle_overlay_fw.Base.{
  ℕ, Bool, true, false, not, ◌||◌, ◌&&◌, List, [], ◌∷◌, ◌++◌, ◌==◌, if◌then◌else◌,
}
use subtitle_overlay_fw.Base.Int.{ℤ, pos, negsuc}

-- component_id_e
pub data Component : Type 0 where
  nobody video usb_audio subtitle_pipeline stt buttons led : Component

abbrev pub id_of : Component → ℕ
id_of nobody = 0
id_of video = 1
id_of usb_audio = 2
id_of subtitle_pipeline = 3
id_of stt = 4
id_of buttons = 5
id_of led = 6

-- A uint8_t with a bit for each component, and `mask |= 1 << component`.
abbrev pub Mask : Type 0
Mask = Component → Bool

abbrev pub no_bits : Mask
no_bits c = false

abbrev pub set_bit : Component → Mask → Mask
set_bit c m d = id_of d == id_of c || m d

-- (mask & SYSTEM_INIT_EXPECTED_MASK) == SYSTEM_INIT_EXPECTED_MASK; the stop mask is the same.
abbrev pub all_expected : Mask → Bool
all_expected m = m video && (m usb_audio && (m subtitle_pipeline && m stt))

-- app_signal_e with the payloads that this object reads; `other` is any other signal.
pub data Signal : Type 0 where
  system_shutdown shutdown_timeout init_timeout other : Signal
  component_ready : Component → ℕ → ℕ → Signal
  component_error : Component → ℤ → Signal
  system_stopped : Component → Signal

-- Q_ENTRY_SIG, Q_EXIT_SIG, or a signal that was posted
pub data Event : Type 0 where
  entry exit : Event
  signal : Signal → Event

pub data Action : Type 0 where
  init_posted : Component → ℕ → ℕ → Action
  stop_posted : Component → Action
  arm_init disarm_init arm_shutdown disarm_shutdown qf_stop : Action

-- system_ao_t, with the framework calls made so far, the latest first
pub record SystemAo : Type 0 where
  pub error_source : Component
  pub error_code : ℤ
  pub active_video_width : ℕ
  pub active_video_height : ℕ
  pub ready_mask : Mask
  pub subtitle_init_requested : Bool
  pub stopped_mask : Mask
  pub requested_shutdown : Bool
  pub log : List Action

pub data State : Type 0 where
  top active init run stopping : State

-- Q_HANDLED, Q_TRAN and Q_SUPER
pub data Outcome : Type 0 where
  handled : Outcome
  tran super : State → Outcome

-- -EIO and -EINVAL
abbrev pub eio : ℤ
eio = negsuc 4

abbrev pub einval : ℤ
einval = negsuc 21

unfoldable pub ctor : SystemAo
ctor = record {
  error_source = nobody;
  error_code = pos 0;
  active_video_width = 0;
  active_video_height = 0;
  ready_mask = no_bits;
  subtitle_init_requested = false;
  stopped_mask = no_bits;
  requested_shutdown = false;
  log = [];
}

abbrev pub act : Action → SystemAo → SystemAo
act a me = record me { log = a ∷ me.log }

-- What on_component_ready returns: 0, -EAGAIN, or another error.
pub data Readiness : Type 0 where
  complete waiting failed : Readiness

module _ (accepts : Component → Bool) where
  -- post_component_init; on failure the caller records this source with -EIO.
  unfoldable pub post_component_init : Component → ℕ → ℕ → SystemAo → Bool × SystemAo
  post_component_init target width height me =
      if accepts target
      then (true, act (init_posted target width height) me)
      else (false, record me { error_source = target; error_code = eio })

  -- The flag is `status == 0`.
  unfoldable pub on_init : SystemAo → Bool × SystemAo
  unfolding post_component_init
  on_init me =
      let me0 = record me {
        active_video_width = 0;
        active_video_height = 0;
        ready_mask = no_bits;
        subtitle_init_requested = false;
      } in
      let (a, me1) = post_component_init video 0 0 me0 in
      let (b, me2) = post_component_init usb_audio 0 0 me1 in
      let (c, me3) = post_component_init stt 0 0 me2 in (a && (b && c), me3)

  -- Past the checks of a video report: request the subtitle component once.
  unfoldable pub request_subtitle : ℕ → ℕ → SystemAo → Bool × SystemAo
  unfolding post_component_init
  request_subtitle width height me =
      let (posted, me1) = post_component_init subtitle_pipeline width height me in
      if me.subtitle_init_requested
      then (true, me)
      else if posted
      then (true, record me1 { subtitle_init_requested = true })
      else (false, me1)

  -- The `switch` of on_component_ready; the flag is `status == -EAGAIN` behind it.
  unfoldable pub note_ready : Component → ℕ → ℕ → SystemAo → Bool × SystemAo
  note_ready video width height me =
      if width == 0 || height == 0
      then (false, record me { error_source = video; error_code = einval })
      else request_subtitle width height (record me {
        active_video_width = width;
        active_video_height = height;
        ready_mask = set_bit video me.ready_mask;
      })
  note_ready usb_audio width height me =
      (true, record me { ready_mask = set_bit usb_audio me.ready_mask })
  note_ready subtitle_pipeline width height me =
      (true, record me { ready_mask = set_bit subtitle_pipeline me.ready_mask })
  note_ready stt width height me = (true, record me { ready_mask = set_bit stt me.ready_mask })
  note_ready _ width height me = (true, me)

  unfoldable pub on_component_ready : Component → ℕ → ℕ → SystemAo → Readiness × SystemAo
  on_component_ready source width height me =
      let (status, me1) = note_ready source width height me in
      (if all_expected me1.ready_mask then complete else if status then waiting else failed, me1)

  abbrev pub after_ready : Readiness → Outcome
  after_ready complete = tran run
  after_ready waiting = handled
  after_ready failed = tran stopping

  unfoldable pub handle_init : Event → SystemAo → Outcome × SystemAo
  handle_init entry me =
      let (started, me1) = on_init (act arm_init me) in
      (if started then handled else tran stopping, me1)
  handle_init exit me = (handled, act disarm_init me)
  handle_init (signal (component_ready source width height)) me =
      let (r, me1) = on_component_ready source width height me in (after_ready r, me1)
  handle_init (signal init_timeout) me = (handled, me)
  handle_init _ me = (super active, me)

unfoldable pub handle_active : Event → SystemAo → Outcome × SystemAo
handle_active (signal (component_error source code)) me =
    (tran stopping, record me { error_source = source; error_code = code })
handle_active (signal system_shutdown) me = (tran stopping, record me { requested_shutdown = true })
handle_active _ me = (super top, me)

unfoldable pub handle_run : Event → SystemAo → Outcome × SystemAo
handle_run entry me = (handled, me)
handle_run _ me = (super active, me)

unfoldable pub broadcast_stop : SystemAo → SystemAo
broadcast_stop me =
    act (stop_posted stt) (
      act (stop_posted subtitle_pipeline)
        (act (stop_posted usb_audio) (act (stop_posted video) me)))

unfoldable pub handle_stopping : Event → SystemAo → Outcome × SystemAo
unfolding broadcast_stop
handle_stopping entry me =
    (handled, act arm_shutdown (broadcast_stop (record me { stopped_mask = no_bits })))
handle_stopping (signal (system_stopped source)) me =
    let me1 = record me { stopped_mask = set_bit source me.stopped_mask } in
    (handled, if all_expected me1.stopped_mask then act qf_stop (act disarm_shutdown me1) else me1)
handle_stopping (signal shutdown_timeout) me = (handled, act qf_stop me)
handle_stopping (signal (component_error source code)) me = (handled, me)
handle_stopping (signal (component_ready source width height)) me = (handled, me)
handle_stopping (signal system_shutdown) me = (handled, me)
handle_stopping _ me = (super top, me)
