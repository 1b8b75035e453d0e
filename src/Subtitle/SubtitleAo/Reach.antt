-- ===== src/Subtitle/SubtitleAo/Reach.antt =====
-- The states that the subtitle object can reach, whatever signals come and whatever the pipeline
-- answers.
use subtitle_overlay_fw.Base.{
  ℕ, ◌≡◌, ◌≤◌, ◌⊎◌, true, false, List, [], length, arith, if◌then◌else◌, ◌&&◌, not,
}
use subtitle_overlay_fw.Base.Int.{ℤ}
use subtitle_overlay_fw.Subtitle.SubtitleAo.{
  Pipeline, SubtitleAo, reset_text_state, render_text, render_current_state, call_then_enable, call,
  is_zero, has_text, Signal, system_stop, State, idle, ready, error, stopped, Outcome, super_top,
  tran, handle_top, handle_idle, handle_ready, handle_error, handle_stopped, ctor, quiesce,
  enter_error,
}
use subtitle_overlay_fw.Subtitle.SubtitleAo.Screen.{
  shown, blank_failed, up, disciplined, clear_armed, previous_armed, readies, errors, stops, memory,
  enabled,
}

module _ (p : Pipeline) where
  -- The answer of a state's handler, or of the superstate that it names
  abbrev pub defer : Signal → Outcome × SubtitleAo p → Outcome × SubtitleAo p
  defer e (super_top, me) = handle_top p e me
  defer e (o, me) = (o, me)

  unfoldable pub respond : State → Signal → SubtitleAo p → Outcome × SubtitleAo p
  respond idle e me = defer e (handle_idle p e me)
  respond ready e me = defer e (handle_ready p e me)
  respond error e me = defer e (handle_error p e me)
  respond stopped e me = defer e (handle_stopped p e me)

  abbrev pub next : State → Outcome → State
  next s (tran t) = t
  next s _ = s

  -- The state machine, from the initial transition on. No state has an entry or exit action that
  -- changes the object.
  pub data Reachable : State → SubtitleAo p → Type 0 where
    begin : (h : p.Handle) (clear_ms partial_ms : ℕ) → Reachable idle (ctor p h clear_ms partial_ms)
    take_signal :
        {s : State} {me : SubtitleAo p} (e : Signal)
        → Reachable s me
        → Reachable (next s (respond s e me).0) (respond s e me).1

  -- The text that the slots ask for
  unfoldable pub caption : SubtitleAo p → List ℕ
  caption me = if not me.previous_visible && not me.current_valid then [] else render_text p me

  pub record SlotsOk (me : SubtitleAo p) : Type 0 where
    pub previous_short : length me.previous_final ≤ 127
    pub current_short : length me.current_text ≤ 127
    pub visible : me.previous_visible ≡ has_text me.previous_final
    pub valid : me.current_valid ≡ has_text me.current_text

  pub record Live (me : SubtitleAo p) : Type 0 where
    pub initialised : up me.log ≡ true
    pub in_order : disciplined me.log ≡ true
    pub one_ready : readies me.log ≡ 1
    pub no_errors : errors me.log ≡ 0
    pub no_stops : stops me.log ≡ 0

  abbrev pub View : SubtitleAo p → Type 0
  View me = (blank_failed me.log ≡ true) ⊎ (shown me.log ≡ caption me)

  -- The pipeline is released, both timers are off, and so many reports were made.
  pub record Quiet (n_stops : ℕ) (me : SubtitleAo p) : Type 0 where
    pub released : up me.log ≡ false
    pub in_order : disciplined me.log ≡ true
    pub clear_off : clear_armed me.log ≡ false
    pub previous_off : previous_armed me.log ≡ false
    pub at_most_ready : readies me.log ≤ 1
    pub errors_made : errors me.log ≤ 1
    pub stops_made : stops me.log ≡ n_stops

  -- The error state is entered with exactly one report.
  abbrev pub Inv : State → SubtitleAo p → Type 0
  Inv idle me =
      SlotsOk me × (me.log ≡ []) × (me.previous_visible ≡ false) × (me.current_valid ≡ false)
  Inv ready me = SlotsOk me × Live me × View me
  Inv error me = Quiet 0 me × (errors me.log ≡ 1)
  Inv stopped me = Quiet 1 me

  pub ctor-Inv : (h : p.Handle) (clear_ms partial_ms : ℕ) → Inv idle (ctor p h clear_ms partial_ms)
  unfolding ctor reset_text_state
  ctor-Inv h a b = ground arith

  pub enter_error-Inv :
      (code : ℤ) (me : SubtitleAo p)
      → disciplined me.log ≡ true
      → readies me.log ≤ 1
      → errors me.log ≡ 0
      → stops me.log ≡ 0
      → Inv error (enter_error p code me)
  unfolding enter_error quiesce call up disciplined clear_armed previous_armed
  enter_error-Inv code me d r e s = ground arith

  pub stop-Inv :
      (me : SubtitleAo p)
      → disciplined me.log ≡ true
      → readies me.log ≤ 1
      → errors me.log ≤ 1
      → stops me.log ≡ 0
      → Inv stopped (handle_top p system_stop me).1
  unfolding handle_top quiesce call up disciplined clear_armed previous_armed
  stop-Inv me d r e s = ground arith

  pub render-Live : (me : SubtitleAo p) → Live me → Live (render_current_state p me).1
  unfolding render_current_state call_then_enable call up disciplined
  render-Live me v = ground (arith, v.initialised, v.in_order, v.one_ready)

  pub render-View :
      (me : SubtitleAo p)
      → is_zero (render_current_state p me).0 ≡ true
      → shown (render_current_state p me).1.log ≡ caption (render_current_state p me).1
  unfolding render_current_state call_then_enable call caption render_text memory enabled
  render-View me z = ground arith
