-- ===== src/Video/VideoAo.antt =====
-- src/svc/video_pipeline/VideoAO.c: the active object that polls the video pipeline. Timer calls and
-- reports are entries of its `log`, the latest first; a report whose event cannot be allocated or
-- posted is an entry too, since the object goes on as if it were sent. Log output is left out.
pub mod Reach
pub mod Polls
pub mod Runs
use subtitle_overlay_fw.Base.{
  ℕ, ◌+◌, ◌%◌, ◌^◌, Bool, true, false, not, ◌&&◌, Option, none, some, List, [], ◌∷◌, if◌then◌else◌,
}
use subtitle_overlay_fw.Base.Int.{ℤ, pos, negsuc}
use subtitle_overlay_fw.Hal.Status.{success, eio}
use subtitle_overlay_fw.Hal.HwPlatform.{Platform}
use subtitle_overlay_fw.Hal.VideoVtc.{VtcMode}
use subtitle_overlay_fw.Video.VideoIo.{Answers}
use subtitle_overlay_fw.Video.VideoPipeline.{
  VideoPipeline, PollResult, unchanged, signal_detected, streaming_started, signal_lost,
  unsupported, timing_timeout, poll_error, video_pipeline_init, video_pipeline_cleanup,
  video_pipeline_poll,
}
use subtitle_overlay_fw.Subtitle.SubtitleAo.{is_zero}

-- VIDEO_AO_POLL_PERIOD_MS
abbrev pub poll_period_ms : ℕ
poll_period_ms = 100

-- The timer is armed for every 10 ticks.
pub data Action : Type 0 where
  arm_poll disarm_poll stopped_posted : Action
  ready_sent : ℕ → ℕ → Action
  error_sent : ℤ → Action

-- `other` is any other signal.
pub data Signal : Type 0 where
  system_stop component_init video_poll other : Signal

pub data State : Type 0 where
  idle running_state error stopped : State

-- Q_HANDLED, Q_TRAN, Q_SUPER of the stop superstate, and Q_SUPER of QHsm_top
pub data Outcome : Type 0 where
  handled super_top ignored : Outcome
  tran : State → Outcome

-- video_ao_t, with the platform that its pipeline shares
pub record VideoAo : Type 0 where
  pub pipeline : VideoPipeline
  pub platform : Platform
  pub now_ms : ℕ
  pub running : Bool
  pub ready_posted : Bool
  pub log : List Action

abbrev pub act : Action → VideoAo → VideoAo
act x me = record me { log = x ∷ me.log }

-- post_ready, for the active mode
abbrev pub post_ready : VtcMode → VideoAo → VideoAo
post_ready m me = act (ready_sent m.width m.height) me

module _ (a : Answers) where
  unfoldable pub quiesce : VideoAo → VideoAo
  quiesce me =
      let (p, platform) = video_pipeline_cleanup a me.pipeline me.platform in
      if me.running
      then record me {
        pipeline = p;
        platform = platform;
        running = false;
        ready_posted = false;
        log = disarm_poll ∷ me.log;
      }
      else me

  unfoldable pub enter_error : ℤ → VideoAo → VideoAo
  unfolding quiesce
  enter_error code me = act (error_sent code) (quiesce me)

  unfoldable pub on_component_init : VideoAo → ℤ × VideoAo
  unfolding enter_error
  on_component_init me =
      let (status, (p, platform)) = video_pipeline_init a me.pipeline me.platform in
      let me1 = record me { pipeline = p; platform = platform } in
      (
        status,
        if is_zero status
            then record me1 {
              now_ms = 0;
              running = true;
              ready_posted = false;
              log = arm_poll ∷ me.log;
            }
            else enter_error status me1,
      )

  -- The announcement of a stream
  unfoldable pub announce : Option VtcMode → VideoAo → ℤ × VideoAo
  unfolding enter_error
  announce none me = (eio, enter_error eio me)
  announce (some m) me = (success, post_ready m (record me { ready_posted = true }))

  unfoldable pub take_result : PollResult → VideoAo → ℤ × VideoAo
  unfolding enter_error announce
  take_result poll_error me = (eio, enter_error eio me)
  take_result signal_lost me = (success, record me { ready_posted = false })
  take_result streaming_started me =
      if not me.ready_posted then announce me.pipeline.active_mode me else (success, me)
  take_result _ me = (success, me)

  unfoldable pub on_video_poll : VideoAo → ℤ × VideoAo
  unfolding take_result
  on_video_poll me =
      let now_ms = (me.now_ms + poll_period_ms) % 2 ^ 32 in
      let (result, p) = video_pipeline_poll a now_ms me.pipeline in
      let next = take_result result (record me { pipeline = p; now_ms = now_ms }) in
      if me.running then next else (success, me)

  unfoldable pub handle_top : Signal → VideoAo → Outcome × VideoAo
  unfolding quiesce
  handle_top system_stop me = (tran stopped, act stopped_posted (quiesce me))
  handle_top _ me = (ignored, me)

  unfoldable pub handle_idle : Signal → VideoAo → Outcome × VideoAo
  unfolding on_component_init
  handle_idle component_init me =
      let (status, me1) = on_component_init me in
      (if is_zero status then tran running_state else tran error, me1)
  handle_idle _ me = (super_top, me)

  unfoldable pub handle_running : Signal → VideoAo → Outcome × VideoAo
  unfolding on_video_poll
  handle_running video_poll me =
      let (status, me1) = on_video_poll me in (if is_zero status then handled else tran error, me1)
  handle_running _ me = (super_top, me)

  unfoldable pub handle_error : Signal → VideoAo → Outcome × VideoAo
  handle_error e me = (super_top, me)

  unfoldable pub handle_stopped : Signal → VideoAo → Outcome × VideoAo
  handle_stopped e me = (ignored, me)

-- video_ao_ctor
unfoldable pub ctor : VideoPipeline → Platform → VideoAo
ctor pipeline platform = record {
  pipeline = pipeline;
  platform = platform;
  now_ms = 0;
  running = false;
  ready_posted = false;
  log = [];
}
