-- ===== src/Video/VideoAo/Polls.antt =====
-- The video object while it runs: polls, failures and the stop.
use subtitle_overlay_fw.Base.{
  ℕ, ◌+◌, ◌%◌, ◌^◌, ◌≡◌, ◌≢◌, refl, ap, ◌∙◌, true, false, not, some, ◌∷◌, if◌then◌else◌, arith,
}
use subtitle_overlay_fw.Base.Int.{ℤ}
use subtitle_overlay_fw.Hal.Status.{success, eio}
use subtitle_overlay_fw.Video.VideoIo.{Answers}
use subtitle_overlay_fw.Video.VideoPipeline.{
  Phase, uninitialized, waiting_for_signal, acquiring_timing, streaming, unsupported_input, failed,
  VideoPipeline, PollResult, unchanged, video_pipeline_poll,
}
use subtitle_overlay_fw.Video.VideoPipeline.Seen.{
  Step, wait, detect, measure, give_up, reject, start_up, fail, hold, switch, ignore, lose,
}
use subtitle_overlay_fw.Video.VideoPipeline.Phases.{InPhase, InPhase-IsWired}
use subtitle_overlay_fw.Video.VideoPipeline.Sound.{video_pipeline_poll-Steps}
use subtitle_overlay_fw.Video.VideoPipeline.Unchanged.{video_pipeline_poll-unchanged}
use subtitle_overlay_fw.Video.VideoPipeline.Startup.{
  IsReleased, IsWired-IsTame, video_pipeline_cleanup-IsReleased,
}
use subtitle_overlay_fw.Video.VideoAo.{
  disarm_poll, system_stop, running_state, error, stopped, VideoAo, quiesce, enter_error, announce,
  take_result, on_video_poll, handle_top,
}
use subtitle_overlay_fw.Video.VideoAo.Reach.{
  armed, errors, stops, Announces, IsLive, IsQuiescent, Inv,
}
use subtitle_overlay_fw.Subtitle.SubtitleAo.{is_zero}

module _ (a : Answers) (count : ℕ) where
  quiesce-running :
      (s : Phase) (me : VideoAo)
      → me.running ≡ true
      → InPhase s me.pipeline
      → me.platform.refcount ≡ count + 1
      → let q = quiesce a me in
        (q.running ≡ false)
        × (IsReleased q.pipeline × ((q.platform.refcount ≡ count) × (q.log ≡ disarm_poll ∷ me.log)))
  unfolding quiesce
  quiesce-running s me r i n =
      let w = InPhase-IsWired a s me.pipeline i in
      let c = video_pipeline_cleanup-IsReleased a me.pipeline me.platform (IsWired-IsTame _ w.0) in
      rw r (refl, (c.0, (omega (arith, c.1.1 w.1, n), refl)))

  pub quiesce-idle : (me : VideoAo) → me.running ≡ false → quiesce a me ≡ me
  unfolding quiesce
  quiesce-idle me r = rw r refl

  -- A failure of a running object
  enter_error-Inv :
      (code : ℤ) (s : Phase) (me : VideoAo)
      → me.running ≡ true
      → InPhase s me.pipeline
      → me.platform.refcount ≡ count + 1
      → errors me.log ≡ 0
      → stops me.log ≡ 0
      → Inv count error (enter_error a code me)
  unfolding enter_error
  enter_error-Inv code s me r i n e t =
      let q = quiesce-running s me r i n in
      (
        record {
          idles = q.0;
          timer_off = ap armed q.1.1.1;
          released = q.1.0;
          returned = q.1.1.0;
          errors_made = rw (q.1.1.1) (omega (arith, e));
          stops_made = rw (q.1.1.1) t;
        },
        rw (q.1.1.1) (omega (arith, e)),
      )

  pub stop-live :
      (s : Phase) (me : VideoAo)
      → IsLive count s me
      → Inv count stopped (handle_top a system_stop me).1
  unfolding handle_top
  stop-live s me l =
      let q = quiesce-running s me l.polls l.phase l.reference in
      record {
        idles = q.0;
        timer_off = ap armed q.1.1.1;
        released = q.1.0;
        returned = q.1.1.0;
        errors_made = rw (q.1.1.1) (omega (arith, l.no_errors));
        stops_made = rw (q.1.1.1) (omega (arith, l.no_stops));
      }

  pub stop-quiet :
      (me : VideoAo) → IsQuiescent count 0 me → Inv count stopped (handle_top a system_stop me).1
  unfolding handle_top
  stop-quiet me q = rw (quiesce-idle me q.idles) (record {
    idles = q.idles;
    timer_off = q.timer_off;
    released = q.released;
    returned = q.returned;
    errors_made = q.errors_made;
    stops_made = omega (arith, q.stops_made);
  })

  -- Where a result of a poll leads
  abbrev pub Ran : ℤ × VideoAo → Type 0
  Ran r = Inv count (if is_zero r.0 then running_state else error) r.1

  -- A live object, as far as a poll leaves it alone
  record IsUp (me : VideoAo) : Type 0 where
    polls : me.running ≡ true
    timer_on : armed me.log ≡ true
    reference : me.platform.refcount ≡ count + 1
    no_errors : errors me.log ≡ 0
    no_stops : stops me.log ≡ 0

  live :
      (s : Phase) (me : VideoAo)
      → IsUp me
      → s ≢ failed
      → InPhase s me.pipeline
      → Announces s me
      → IsLive count s me
  live s me u f i n = record {
    polls = u.polls;
    timer_on = u.timer_on;
    fine = f;
    phase = i;
    announces = n;
    reference = u.reference;
    no_errors = u.no_errors;
    no_stops = u.no_stops;
  }

  announce-Inv :
      (me : VideoAo)
      → IsUp me
      → InPhase streaming me.pipeline
      → Ran (announce a me.pipeline.active_mode me)
  unfolding announce
  announce-Inv me u (e, (w, (r, (m, (active, rest))))) =
      let streams : InPhase streaming me.pipeline = (e, (w, (r, (m, (active, rest))))) in
      let announced_now : Ran (announce a (some m) me) = (
        streaming,
        record {
          polls = u.polls;
          timer_on = u.timer_on;
          fine = λ h. cc;
          phase = streams;
          announces = (refl, (m, (active, refl)));
          reference = u.reference;
          no_errors = u.no_errors;
          no_stops = u.no_stops;
        },
      ) in
      coe 1 0 (j. Ran (announce a (active j) me)) announced_now

  lost-IsUp : (me : VideoAo) → IsUp me → IsUp (record me { ready_posted = false })
  lost-IsUp me u = ground (arith, u)

  take_result-Inv :
      {s s' : Phase} {r : PollResult} {now_ms : ℕ} {p : VideoPipeline} (me : VideoAo)
      → Step a now_ms p s r s'
      → s ≢ failed
      → IsUp me
      → InPhase s' me.pipeline
      → (s ≢ streaming → me.ready_posted ≡ false)
      → (r ≡ unchanged → Announces s me)
      → Ran (take_result a r me)
  unfolding take_result
  take_result-Inv me (wait l) f u i n k =
      (waiting_for_signal, live waiting_for_signal me u f i (k refl))
  take_result-Inv me (measure l none_ t) f u i n k =
      (acquiring_timing, live acquiring_timing me u f i (k refl))
  take_result-Inv me (hold l same) f u i n k = (streaming, live streaming me u f i (k refl))
  take_result-Inv me (ignore l) f u i n k =
      (unsupported_input, live unsupported_input me u f i (k refl))
  take_result-Inv me (detect l) f u i n k =
      (acquiring_timing, live acquiring_timing me u (λ h. cc) i (n (λ h. cc)))
  take_result-Inv me (start_up size m l some_ shows) f u i n k =
      let first : me.ready_posted ≡ false = n (λ h. cc) in
      coe 1 0
        (j. Ran (if not (first j) then announce a me.pipeline.active_mode me else (success, me)))
        (announce-Inv me u i)
  take_result-Inv me (reject size l some_ cannot) f u i n k =
      (unsupported_input, live unsupported_input me u (λ h. cc) i (n (λ h. cc)))
  take_result-Inv me (give_up l none_ t) f u i n k =
      (waiting_for_signal, live waiting_for_signal me u (λ h. cc) i (n (λ h. cc)))
  take_result-Inv me (fail size m l some_ shows) f u i n k =
      enter_error-Inv eio failed me u.polls i u.reference u.no_errors u.no_stops
  take_result-Inv me (lose s l w g) f u i n k = (
    waiting_for_signal,
    live waiting_for_signal (record me { ready_posted = false }) (lost-IsUp me u) (λ h. cc) i refl,
  )
  take_result-Inv me (switch size l some_ other) f u i n k = (
    acquiring_timing,
    live acquiring_timing (record me { ready_posted = false }) (lost-IsUp me u) (λ h. cc) i refl,
  )

  Announces-before :
      (s : Phase) (me : VideoAo) → Announces s me → s ≢ streaming → me.ready_posted ≡ false
  Announces-before streaming me n h = absurd (h refl)
  Announces-before uninitialized me n h = n
  Announces-before waiting_for_signal me n h = n
  Announces-before acquiring_timing me n h = n
  Announces-before unsupported_input me n h = n
  Announces-before failed me n h = n

  Announces-polled :
      (s : Phase) (me : VideoAo) (p : VideoPipeline) (now_ms : ℕ)
      → p ≡ me.pipeline
      → Announces s me
      → Announces s (record me { pipeline = p; now_ms = now_ms })
  Announces-polled streaming me p now_ms e (r, (m, (active, n))) =
      (r, (m, (ap (λ (q : VideoPipeline). q.active_mode) e ∙ active, n)))
  Announces-polled uninitialized me p now_ms e n = n
  Announces-polled waiting_for_signal me p now_ms e n = n
  Announces-polled acquiring_timing me p now_ms e n = n
  Announces-polled unsupported_input me p now_ms e n = n
  Announces-polled failed me p now_ms e n = n

  pub on_video_poll-Inv : (s : Phase) (me : VideoAo) → IsLive count s me → Ran (on_video_poll a me)
  unfolding on_video_poll
  on_video_poll-Inv s me l =
      let now_ms = (me.now_ms + 100) % 2 ^ 32 in
      let (s', (step, phase)) = video_pipeline_poll-Steps a s now_ms me.pipeline l.fine l.phase in
      let p = (video_pipeline_poll a now_ms me.pipeline).1 in
      let me1 : VideoAo = record me { pipeline = p; now_ms = now_ms } in
      let up : IsUp me1 = record {
        polls = l.polls;
        timer_on = l.timer_on;
        reference = l.reference;
        no_errors = l.no_errors;
        no_stops = l.no_stops;
      } in
      let kept : (video_pipeline_poll a now_ms me.pipeline).0 ≡ unchanged → Announces s me1 = λ h.
        Announces-polled s me p now_ms (video_pipeline_poll-unchanged a now_ms me.pipeline h)
          l.announces in
      let after =
        take_result-Inv me1 step l.fine up phase (Announces-before s me l.announces) kept in
      coe 1 0
        (j. Ran (
          if l.polls j
          then take_result a (video_pipeline_poll a now_ms me.pipeline).0 me1
          else (success, me)))
        after
