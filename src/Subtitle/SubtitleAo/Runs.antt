-- ===== src/Subtitle/SubtitleAo/Runs.antt =====
-- The subtitle object through any run of signals.
use subtitle_overlay_fw.Base.{ℕ, arith, Bool-cases, inl, inr, ◌||◌, ◌==◌}
use subtitle_overlay_fw.System.SystemAo.{einval}
use subtitle_overlay_fw.Subtitle.SubtitleAo.{
  Pipeline, SubtitleAo, call, is_zero, Signal, system_stop, component_init, State, idle, ready,
  error, stopped, handle_top, handle_idle, handle_error, handle_stopped, on_component_init,
  pipeline_init,
}
use subtitle_overlay_fw.Subtitle.SubtitleAo.Screen.{blank_failed, up, disciplined, memory, enabled}
use subtitle_overlay_fw.Subtitle.SubtitleAo.Reach.{
  respond, next, Reachable, begin, take_signal, caption, Inv, ctor-Inv, enter_error-Inv, stop-Inv,
}
use subtitle_overlay_fw.Subtitle.SubtitleAo.Ready.{ready-Inv}

module _ (p : Pipeline) where
  -- A successful initialisation is the first thing in the log.
  init-Inv :
      (a b : ℕ) (me : SubtitleAo p)
      → Inv p idle me
      → let (o, me') = respond p idle (component_init a b) me in Inv p (next p idle o) me'
  unfolding respond handle_idle on_component_init call up disciplined blank_failed memory enabled
      caption
  init-Inv a b me (k, l, hidden, invalid) = elim (Bool-cases (a == 0 || b == 0)) [
    | inl none_ ↦ rw none_ (
        enter_error-Inv p einval me (ground (arith, l)) (ground (arith, l)) (ground (arith, l))
          (ground (arith, l)))
    | inr size ↦
        let (status, h) = p.call (pipeline_init a b) me.pipeline in
        elim (Bool-cases (is_zero status)) [
          | inl z ↦
              rw (size, z)
                (ground (arith, k), ground (arith, l), ground (arith, l, hidden, invalid))
          | inr n ↦
              rw (size, n)
                (enter_error-Inv p status _ (ground (arith, l)) (ground (arith, l))
                  (ground (arith, l)) (ground (arith, l)))
        ]
  ]

  idle-Inv :
      (e : Signal) (me : SubtitleAo p)
      → Inv p idle me
      → let (o, me') = respond p idle e me in Inv p (next p idle o) me'
  unfolding respond handle_idle handle_top disciplined
  idle-Inv system_stop me (k, l, hidden, invalid) =
      stop-Inv p me (ground arith) (ground arith) (ground arith) (ground arith)
  idle-Inv (component_init a b) me i = init-Inv a b me i
  idle-Inv _ me i = i

  error-Inv :
      (e : Signal) (me : SubtitleAo p)
      → Inv p error me
      → let (o, me') = respond p error e me in Inv p (next p error o) me'
  unfolding respond handle_error handle_top
  error-Inv system_stop me (q, n) =
      stop-Inv p me q.in_order q.at_most_ready q.errors_made q.stops_made
  error-Inv _ me i = i

  stopped-Inv :
      (e : Signal) (me : SubtitleAo p)
      → Inv p stopped me
      → let (o, me') = respond p stopped e me in Inv p (next p stopped o) me'
  unfolding respond handle_stopped
  stopped-Inv e me i = i

  respond-Inv :
      (s : State) (e : Signal) (me : SubtitleAo p)
      → Inv p s me
      → let (o, me') = respond p s e me in Inv p (next p s o) me'
  respond-Inv idle e me i = idle-Inv e me i
  respond-Inv ready e me i = ready-Inv p e me i
  respond-Inv error e me i = error-Inv e me i
  respond-Inv stopped e me i = stopped-Inv e me i

  -- Whatever signals come and whatever the pipeline answers, the object is in one of four states.
  -- Idle: nothing was done yet. Ready: each slot holds less than its 128 characters; the pipeline is
  -- initialised, and calls other than initialisation and cleanup were made only while it was; ready
  -- was reported once, no error and no stop was; the overlay shows what the slots ask for, or
  -- blanking it has failed before. Error and stopped: the pipeline is released, calls were made in
  -- that order, both timers are off, ready was reported at most once; in the error state exactly
  -- one error and no stop was reported, in the stopped state at most one error and exactly one
  -- stop.
  pub reachable_safe : {s : State} {me : SubtitleAo p} → Reachable p s me → Inv p s me
  reachable_safe (begin h a b) = ctor-Inv p h a b
  reachable_safe (take_signal {s} {me} e r) = respond-Inv s e me (reachable_safe r)
