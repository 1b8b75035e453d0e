-- ===== src/Stt/SttAo/Stop.antt =====
-- What SYSTEM_STOP and a poll behind it do to the speech-to-text object.
use subtitle_overlay_fw.Base.{suc, ◌≡◌, refl, ap, true, false, Bool-cases, inl, inr, arith}
use subtitle_overlay_fw.Stt.WsClient.{request_stop, stop_complete, finish_stop}
use subtitle_overlay_fw.Stt.SttAo.{
  system_stop, stt_poll, State, idle, ready, stopping, stopped, SttAo, Answers, begin_stop,
  complete_stop, handle_top, handle_stopping,
}
use subtitle_overlay_fw.Stt.SttAo.Reach.{armed, errors, stops, defer, next, IsLive, IsOver, Inv}

-- A handler without a client
pub idle-IsOver : (me : SttAo) → Inv idle me → IsOver 0 me
idle-IsOver me (l, (h, (r, t))) = record {
  let_go = h;
  no_thread = t;
  idles = r;
  timer_off = ap armed l;
  errors_made = omega (arith, ap errors l);
  stops_made = ap stops l;
}

-- SYSTEM_STOP where there is no client
pub stop-over :
    (a : Answers) (s : State) (me : SttAo)
    → IsOver 0 me
    → let (o, me') = handle_top a system_stop me in (next s o ≡ stopped) × Inv (next s o) me'
unfolding handle_top begin_stop complete_stop
stop-over a s me o = rw o.let_go (
  refl,
  record {
    let_go = refl;
    no_thread = o.no_thread;
    idles = refl;
    timer_off = refl;
    errors_made = o.errors_made;
    stops_made = ap (λ k. suc k) o.stops_made;
  },
)

-- SYSTEM_STOP while the worker runs
pub stop-live :
    (a : Answers) (me : SttAo)
    → IsLive false me
    → let (o, me') = handle_top a system_stop me in
      (next ready o ≡ stopping) × Inv (next ready o) me'
unfolding handle_top begin_stop request_stop stop_complete
stop-live a me l =
    let (i, (s, (t, (r, d)))) = l.served in
    rw (l.held, i, s, d refl)
      (
        refl,
        record {
          held = refl;
          handed = l.handed;
          served = (refl, (refl, (t, (refl, λ h. cc))));
          counted = l.counted;
          polls = l.polls;
          timer_on = l.timer_on;
          no_errors = l.no_errors;
          no_stops = l.no_stops;
        },
      )

-- A poll while the worker is to stop
pub poll-stopping :
    (a : Answers) (me : SttAo)
    → IsLive true me
    → let (o, me') = defer a stt_poll (handle_stopping a stt_poll me) in
      (me.client_instance.worker_done ≡ true → next stopping o ≡ stopped)
      × Inv (next stopping o) me'
unfolding handle_stopping complete_stop stop_complete finish_stop
poll-stopping a me l =
    let (i, (s, (t, (r, d)))) = l.served in
    elim (Bool-cases me.client_instance.worker_done) [
      | inr busy ↦
          rw (l.held, i, s, busy)
            (
              λ h. cc,
              record {
                held = refl;
                handed = l.handed;
                served = (refl, (refl, (t, (r, λ h. cc))));
                counted = l.counted;
                polls = l.polls;
                timer_on = l.timer_on;
                no_errors = l.no_errors;
                no_stops = l.no_stops;
              },
            )
      | inl done ↦
          rw (l.held, i, s, done)
            (
              λ h. refl,
              record {
                let_go = refl;
                no_thread = refl;
                idles = refl;
                timer_off = refl;
                errors_made = omega (arith, l.no_errors);
                stops_made = ap (λ k. suc k) l.no_stops;
              },
            )
    ]
