-- ===== src/Subtitle/SubtitleAo.antt =====
-- src/svc/subtitle_pipeline/SubtitleAO.c: the active object that keeps the caption slots and drives
-- the overlay. The pipeline that it calls is the interface `Pipeline`: one function from a call
-- and the pipeline's state to the C status and the next state. Calls, timers and posted reports
-- are entries of the object's `log`; a report whose event cannot be allocated or posted is an
-- entry too, since the object goes on as if it were sent. A C string is the list of its characters
-- before the terminating NUL. Log output is left out.
pub mod Reach
pub mod Ready
pub mod Runs
pub mod Screen
pub mod Slots
pub mod Ticks
use subtitle_overlay_fw.Base.{
  ℕ, ◌+◌, ◌-◌, ◌*◌, ◌/◌, ◌%◌, ◌^◌, Bool, true, false, ◌||◌, ◌&&◌, not, List, [], ◌∷◌, ◌++◌, ◌==◌,
  if◌then◌else◌, take,
}
use subtitle_overlay_fw.Base.Int.{ℤ, pos, negsuc}
use subtitle_overlay_fw.System.SystemAo.{Component, video, eio, einval}

-- SUBTITLE_AO_SLOT_MAX and SUBTITLE_AO_RENDER_MAX
abbrev pub slot_max : ℕ
slot_max = 128

abbrev pub render_max : ℕ
render_max = slot_max * 2 + 2

-- What snprintf leaves of a string in a buffer of this size
abbrev pub fit : ℕ → List ℕ → List ℕ
fit size text = take (size - 1) text

-- status == 0
abbrev pub is_zero : ℤ → Bool
is_zero (pos n) = n == 0
is_zero (negsuc n) = false

-- text[0] != '\0'
abbrev pub has_text : List ℕ → Bool
has_text [] = false
has_text (c ∷ cs) = true

-- The calls of subtitle_pipeline.h
pub data Call : Type 0 where
  pipeline_init reconfigure : ℕ → ℕ → Call
  clear cleanup : Call
  write_caption : List ℕ → Bool → Call
  enable : Bool → Call

pub record Pipeline : Type 1 where
  pub Handle : Type 0
  pub call : Call → Handle → ℤ × Handle
  pub display_width : Handle → ℕ
  pub display_height : Handle → ℕ

-- A call with whether it returned 0, a timer armed or disarmed, or a report to the system object
pub data Action : Type 0 where
  called : Call → Bool → Action
  rearm_clear rearm_previous : ℕ → Action
  disarm_clear disarm_previous stopped_posted : Action
  ready_posted : ℕ → ℕ → Action
  error_posted : ℤ → Action

-- The signals with the payloads that this object reads; `other` is any other signal.
pub data Signal : Type 0 where
  system_stop subtitle_clear previous_expire other : Signal
  component_init : ℕ → ℕ → Signal
  component_ready : Component → ℕ → ℕ → Signal
  subtitle_text : List ℕ → Bool → Signal

pub data State : Type 0 where
  idle ready error stopped : State

-- Q_HANDLED, Q_TRAN, Q_SUPER of the stop superstate, and Q_SUPER of QHsm_top
pub data Outcome : Type 0 where
  handled super_top ignored : Outcome
  tran : State → Outcome

-- ms_to_ticks, in 32-bit arithmetic
unfoldable pub ms_to_ticks : ℕ → ℕ
ms_to_ticks timeout_ms =
    (timeout_ms / 1000 * 100 % 2 ^ 32 + timeout_ms % 1000 * 100 % 2 ^ 32 / 1000) % 2 ^ 32

module _ (p : Pipeline) where
  -- subtitle_ao_t, with what it did so far, the latest first
  pub record SubtitleAo : Type 0 where
    pub pipeline : p.Handle
    pub previous_final : List ℕ
    pub current_text : List ℕ
    pub clear_timeout_ticks : ℕ
    pub previous_hold_ticks : ℕ
    pub previous_visible : Bool
    pub current_valid : Bool
    pub current_is_final : Bool
    pub log : List Action

  abbrev pub act : Action → SubtitleAo → SubtitleAo
  act a me = record me { log = a ∷ me.log }

  -- One call of the pipeline
  unfoldable pub call : Call → SubtitleAo → ℤ × SubtitleAo
  call c me =
      let (status, handle) = p.call c me.pipeline in
      (status, record me { pipeline = handle; log = called c (is_zero status) ∷ me.log })

  unfoldable pub reset_text_state : SubtitleAo → SubtitleAo
  reset_text_state me = record me {
    previous_final = [];
    current_text = [];
    previous_visible = false;
    current_valid = false;
    current_is_final = false;
  }

  unfoldable pub promote_current_to_previous : SubtitleAo → SubtitleAo
  promote_current_to_previous me =
      if me.current_valid && has_text me.current_text
      then act (rearm_previous me.previous_hold_ticks)
          (record me { previous_final = fit slot_max me.current_text; previous_visible = true })
      else me

  unfoldable pub clear_subtitle : SubtitleAo → SubtitleAo
  unfolding reset_text_state call
  clear_subtitle me =
      let (cleared, me1) = call clear (act disarm_previous (reset_text_state me)) in
      let (disabled, me2) = call (enable false) me1 in me2

  -- The text that render_current_state writes
  unfoldable pub render_text : SubtitleAo → List ℕ
  render_text me =
      if me.previous_visible && me.current_valid
      then fit render_max (me.previous_final ++ 10 ∷ me.current_text)
      else if me.previous_visible
      then fit render_max me.previous_final
      else fit render_max me.current_text

  -- A call, and if it succeeded, `enable`
  unfoldable pub call_then_enable : Call → Bool → SubtitleAo → ℤ × SubtitleAo
  unfolding call
  call_then_enable c enabled me =
      let (status, me1) = call c me in
      let next = call (enable enabled) me1 in if is_zero status then next else (status, me1)

  unfoldable pub render_current_state : SubtitleAo → ℤ × SubtitleAo
  unfolding call_then_enable render_text
  render_current_state me =
      if not me.previous_visible && not me.current_valid
      then call_then_enable clear false me
      else call_then_enable (write_caption (render_text me) me.current_is_final) true me

  -- on_subtitle_text up to the rendering
  unfoldable pub take_text : List ℕ → Bool → SubtitleAo → SubtitleAo
  unfolding promote_current_to_previous
  take_text text is_final me =
      let me1 =
        if me.current_valid && me.current_is_final then promote_current_to_previous me else me in
      record me1 {
        current_text = fit slot_max text;
        current_valid = true;
        current_is_final = is_final;
      }

  unfoldable pub on_subtitle_text : List ℕ → Bool → SubtitleAo → ℤ × SubtitleAo
  unfolding take_text render_current_state
  on_subtitle_text [] is_final me = (einval, me)
  on_subtitle_text (c ∷ cs) is_final me =
      let (status, me1) = render_current_state (take_text (c ∷ cs) is_final me) in
      (status, if is_zero status then act (rearm_clear me1.clear_timeout_ticks) me1 else me1)

  unfoldable pub on_previous_expired : SubtitleAo → ℤ × SubtitleAo
  unfolding render_current_state
  on_previous_expired me =
      render_current_state (record me { previous_final = []; previous_visible = false })

  unfoldable pub quiesce : SubtitleAo → SubtitleAo
  unfolding call
  quiesce me = (call cleanup (act disarm_previous (act disarm_clear me))).1

  unfoldable pub enter_error : ℤ → SubtitleAo → SubtitleAo
  unfolding quiesce
  enter_error code me = act (error_posted code) (quiesce me)

  unfoldable pub on_component_init : ℕ → ℕ → SubtitleAo → ℤ × SubtitleAo
  unfolding call enter_error
  on_component_init width height me =
      let (status, me1) =
        if width == 0 || height == 0 then (einval, me) else call (pipeline_init width height) me in
      (
        status,
        if is_zero status
            then act (ready_posted (p.display_width me1.pipeline) (p.display_height me1.pipeline))
                me1
            else enter_error status me1,
      )

  unfoldable pub handle_top : Signal → SubtitleAo → Outcome × SubtitleAo
  unfolding quiesce
  handle_top system_stop me = (tran stopped, act stopped_posted (quiesce me))
  handle_top _ me = (ignored, me)

  unfoldable pub handle_idle : Signal → SubtitleAo → Outcome × SubtitleAo
  unfolding on_component_init
  handle_idle (component_init width height) me =
      let (status, me1) = on_component_init width height me in
      (if is_zero status then tran ready else tran error, me1)
  handle_idle _ me = (super_top, me)

  -- In the ready state a status other than 0 ends in the error state.
  abbrev pub or_error : ℤ × SubtitleAo → Outcome × SubtitleAo
  or_error (status, me) = if is_zero status then (handled, me) else (tran error, enter_error eio me)

  unfoldable pub handle_ready : Signal → SubtitleAo → Outcome × SubtitleAo
  unfolding call on_subtitle_text clear_subtitle on_previous_expired enter_error
  handle_ready (component_ready video width height) me =
      if width == 0 || height == 0
      then (handled, me)
      else or_error (call (reconfigure width height) me)
  handle_ready (component_ready source width height) me = (handled, me)
  handle_ready (subtitle_text text is_final) me = or_error (on_subtitle_text text is_final me)
  handle_ready subtitle_clear me = (handled, clear_subtitle me)
  handle_ready previous_expire me = or_error (on_previous_expired me)
  handle_ready _ me = (super_top, me)

  unfoldable pub handle_error : Signal → SubtitleAo → Outcome × SubtitleAo
  handle_error e me = (super_top, me)

  unfoldable pub handle_stopped : Signal → SubtitleAo → Outcome × SubtitleAo
  handle_stopped e me = (ignored, me)

  -- subtitle_ao_ctor on zeroed memory, with the two timeouts of the configuration
  unfoldable pub ctor : p.Handle → ℕ → ℕ → SubtitleAo
  unfolding ms_to_ticks reset_text_state
  ctor handle clear_timeout_ms partial_timeout_ms = reset_text_state (record {
    pipeline = handle;
    previous_final = [];
    current_text = [];
    clear_timeout_ticks = ms_to_ticks clear_timeout_ms;
    previous_hold_ticks = ms_to_ticks partial_timeout_ms;
    previous_visible = false;
    current_valid = false;
    current_is_final = false;
    log = [];
  })
