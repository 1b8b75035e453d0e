-- ===== src/Video/VideoAo/Reach.antt =====
-- The states that the video object can reach, whatever signals come and whatever the devices answer.
use subtitle_overlay_fw.Base.{
  ℕ, suc, ◌+◌, ◌≤◌, ◌≡◌, ◌≢◌, Bool, true, false, Option, none, some, List, [], ◌∷◌,
}
use subtitle_overlay_fw.Hal.HwPlatform.{Platform}
use subtitle_overlay_fw.Hal.HwPlatform.Owners.{IsConsistent, NeverNull}
use subtitle_overlay_fw.Hal.VideoVtc.{VtcMode}
use subtitle_overlay_fw.Video.VideoIo.{Answers}
use subtitle_overlay_fw.Video.VideoPipeline.{Phase, streaming, failed, VideoPipeline}
use subtitle_overlay_fw.Video.VideoPipeline.Phases.{InPhase}
use subtitle_overlay_fw.Video.VideoPipeline.Startup.{IsReleased}
use subtitle_overlay_fw.Video.VideoAo.{
  Action, arm_poll, disarm_poll, stopped_posted, ready_sent, error_sent, Signal, State, idle,
  running_state, error, stopped, Outcome, super_top, tran, VideoAo, handle_top, handle_idle,
  handle_running, handle_error, handle_stopped, ctor,
}

abbrev pub armed : List Action → Bool
armed [] = false
armed (arm_poll ∷ l) = true
armed (disarm_poll ∷ l) = false
armed (_ ∷ l) = armed l

abbrev pub errors : List Action → ℕ
errors [] = 0
errors (error_sent code ∷ l) = suc (errors l)
errors (_ ∷ l) = errors l

abbrev pub stops : List Action → ℕ
stops [] = 0
stops (stopped_posted ∷ l) = suc (stops l)
stops (_ ∷ l) = stops l

-- The resolution that was announced last
abbrev pub announced : List Action → Option (ℕ × ℕ)
announced [] = none
announced (ready_sent width height ∷ l) = some (width, height)
announced (_ ∷ l) = announced l

-- The answer of a state's handler, or of the superstate that it names
abbrev pub defer : Answers → Signal → Outcome × VideoAo → Outcome × VideoAo
defer a e (super_top, me) = handle_top a e me
defer a e (o, me) = (o, me)

unfoldable pub respond : Answers → State → Signal → VideoAo → Outcome × VideoAo
respond a idle e me = defer a e (handle_idle a e me)
respond a running_state e me = defer a e (handle_running a e me)
respond a error e me = defer a e (handle_error a e me)
respond a stopped e me = defer a e (handle_stopped a e me)

abbrev pub next : State → Outcome → State
next s (tran t) = t
next s _ = s

-- The state machine, from the initial transition on, with new answers at each signal. No state has
-- an entry or exit action that changes the object.
pub data Reachable (p : VideoPipeline) (platform : Platform) : State → VideoAo → Type 0 where
  begin : Reachable p platform idle (ctor p platform)
  take_signal :
      {s : State} {me : VideoAo} (a : Answers) (e : Signal)
      → NeverNull a.mapped
      → Reachable p platform s me
      → Reachable p platform (next s (respond a s e me).0) (respond a s e me).1

-- What is announced in each state of the pipeline
abbrev pub Announces : Phase → VideoAo → Type 0
Announces streaming me =
    (me.ready_posted ≡ true)
    × ((m : VtcMode) × ((me.pipeline.active_mode ≡ some m)
          × (announced me.log ≡ some (m.width, m.height))))
Announces _ me = me.ready_posted ≡ false

module _ (count : ℕ) where
  -- The pipeline is in one of its states, and is announced while it streams.
  pub record IsLive (s : Phase) (me : VideoAo) : Type 0 where
    pub polls : me.running ≡ true
    pub timer_on : armed me.log ≡ true
    pub fine : s ≢ failed
    pub phase : InPhase s me.pipeline
    pub announces : Announces s me
    pub reference : me.platform.refcount ≡ count + 1
    pub no_errors : errors me.log ≡ 0
    pub no_stops : stops me.log ≡ 0

  pub record IsQuiescent (n_stops : ℕ) (me : VideoAo) : Type 0 where
    pub idles : me.running ≡ false
    pub timer_off : armed me.log ≡ false
    pub released : IsReleased me.pipeline
    pub returned : me.platform.refcount ≡ count
    pub errors_made : errors me.log ≤ 1
    pub stops_made : stops me.log ≡ n_stops

  abbrev pub Inv : State → VideoAo → Type 0
  Inv idle me =
      (me.log ≡ [])
      × ((me.running ≡ false)
          × (IsReleased me.pipeline × (IsConsistent me.platform × (me.platform.refcount ≡ count))))
  Inv running_state me = (s : Phase) × IsLive s me
  Inv error me = IsQuiescent 0 me × (errors me.log ≡ 1)
  Inv stopped me = IsQuiescent 1 me
