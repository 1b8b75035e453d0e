-- ===== src/Stt/SttAo/Runs.antt =====
-- The speech-to-text object through any run of signals, and its stop.
use subtitle_overlay_fw.Base.{ℕ, ◌≡◌, ◌⊎◌, refl, ap, true, false, if◌then◌else◌, inl, inr}
use subtitle_overlay_fw.Stt.EventRing.{EventRing}
use subtitle_overlay_fw.Stt.AudioTxq.{Txq}
use subtitle_overlay_fw.Stt.Json.{Floating}
use subtitle_overlay_fw.Stt.WsClient.{Client, worker_exit}
use subtitle_overlay_fw.Stt.SttAo.{
  Signal, system_stop, component_init, stt_poll, other, State, idle, ready, error, stopping,
  stopped, SttAo, Answers, on_component_init, handle_top, handle_idle, handle_ready, handle_error,
  handle_stopping, handle_stopped, ctor,
}
use subtitle_overlay_fw.Stt.SttAo.Reach.{
  respond, next, works, exits, Reachable, begin, take_signal, work, exit, IsLive, IsOver, Inv,
}
use subtitle_overlay_fw.Stt.SttAo.Startup.{on_component_init-Ran, init_outcome-Inv}
use subtitle_overlay_fw.Stt.SttAo.Stop.{idle-IsOver, stop-over, stop-live, poll-stopping}
use subtitle_overlay_fw.Stt.SttAo.Forward.{with_client, on_poll-Forwarded}

ready_poll-Inv :
    (f : Floating) (a : Answers) (me : SttAo)
    → IsLive false me
    → let (o, me') = respond f a ready stt_poll me in Inv (next ready o) me'
unfolding respond handle_ready
ready_poll-Inv f a me l = let (e, (es, (got, after))) = on_poll-Forwarded f a me l in rw e after.0

respond-Inv :
    (f : Floating) (a : Answers) (s : State) (e : Signal) (me : SttAo)
    → Inv s me
    → let (o, me') = respond f a s e me in Inv (next s o) me'
unfolding respond handle_top handle_idle handle_ready handle_error handle_stopping handle_stopped
respond-Inv f a idle system_stop me i = (stop-over a idle me (idle-IsOver me i)).1
respond-Inv f a idle component_init me i =
    init_outcome-Inv a (on_component_init a me) (on_component_init-Ran a me i)
respond-Inv f a idle stt_poll me i = i
respond-Inv f a idle other me i = i
respond-Inv f a ready system_stop me i = (stop-live a me i).1
respond-Inv f a ready component_init me i = i
respond-Inv f a ready stt_poll me i = ready_poll-Inv f a me i
respond-Inv f a ready other me i = i
respond-Inv f a error system_stop me i = (stop-over a error me i.0).1
respond-Inv f a error component_init me i = i
respond-Inv f a error stt_poll me i = i
respond-Inv f a error other me i = i
respond-Inv f a stopping system_stop me i = i
respond-Inv f a stopping component_init me i = i
respond-Inv f a stopping stt_poll me i = (poll-stopping a me i).1
respond-Inv f a stopping other me i = i
respond-Inv f a stopped e me i = i

IsOver-works :
    {n_stops : ℕ} (ring : EventRing) (queue : Txq) (errors_seen : ℕ) (me : SttAo)
    → IsOver n_stops me
    → IsOver n_stops (works ring queue errors_seen me)
IsOver-works ring queue n me o = record {
  let_go = o.let_go;
  no_thread = o.no_thread;
  idles = o.idles;
  timer_off = o.timer_off;
  errors_made = o.errors_made;
  stops_made = o.stops_made;
}

works-Inv :
    (ring : EventRing) (queue : Txq) (errors_seen : ℕ) (s : State) (me : SttAo)
    → Inv s me
    → Inv s (works ring queue errors_seen me)
works-Inv ring queue n idle me i = i
works-Inv ring queue n ready me l = with_client false _ me l l.served refl
works-Inv ring queue n error me (o, e) = (IsOver-works ring queue n me o, e)
works-Inv ring queue n stopping me l = with_client true _ me l l.served refl
works-Inv ring queue n stopped me o = IsOver-works ring queue n me o

-- The worker only ends where a stop was requested.
exits-Inv :
    (s : State) (me : SttAo)
    → me.client_instance.worker_thread ≡ true
    → me.client_instance.stop_requested ≡ true
    → Inv s me
    → Inv s (exits me)
unfolding worker_exit
exits-Inv idle me t r i = absurd cc
exits-Inv ready me t r l = let never = l.served.1.1.1.0 in absurd cc
exits-Inv error me t r (o, e) = let never = o.no_thread in absurd cc
exits-Inv stopping me t r l =
    let (i, (s, (t, (r, d)))) = l.served in with_client true _ me l (i, (s, (t, (r, λ h. cc)))) refl
exits-Inv stopped me t r o = let never = o.no_thread in absurd cc

-- Whatever signals come, whatever the code outside answers and whatever the worker does, the object
-- is in one of five states, from memory that holds no thread. Idle: nothing was done yet. Ready: the
-- worker runs and was not asked to stop, and the poll timer is armed. Stopping: the worker was asked
-- to stop, and the timer is still armed. In both, no error and no stop was reported, and the client's
-- count of accepted transcripts is the number of captions that were posted, modulo 2^32. Error and
-- stopped: the client is let go and no thread is left, and the timer is off; in the error state
-- exactly one error and no stop was reported, in the stopped state at most one error and exactly one
-- stop.
pub runs-Inv :
    {f : Floating} {memory : Client} {s : State} {me : SttAo}
    → memory.worker_thread ≡ false
    → Reachable f memory s me
    → Inv s me
unfolding ctor
runs-Inv t begin = (refl, (refl, (refl, t)))
runs-Inv {f} t (take_signal {s} {me} a e r) = respond-Inv f a s e me (runs-Inv t r)
runs-Inv t (work {s} {me} ring queue n r) = works-Inv ring queue n s me (runs-Inv t r)
runs-Inv t (exit {s} {me} thread requested r) = exits-Inv s me thread requested (runs-Inv t r)

-- The end of the worker, with what it and the capture threads wrote before it
abbrev pub finishes : EventRing → Txq → ℕ → SttAo → SttAo
finishes ring queue errors_seen me =
    if me.client_instance.worker_thread then exits (works ring queue errors_seen me) else me

asked :
    (f : Floating) (a : Answers) (s : State) (me : SttAo)
    → Inv s me
    → let s' = next s (respond f a s system_stop me).0 in (s' ≡ stopping) ⊎ (s' ≡ stopped)
unfolding respond handle_idle handle_ready handle_error handle_stopping handle_stopped
asked f a idle me i = inr (stop-over a idle me (idle-IsOver me i)).0
asked f a ready me i = inl (stop-live a me i).0
asked f a error me i = inr (stop-over a error me i.0).0
asked f a stopping me i = inl refl
asked f a stopped me i = inr refl

abbrev Settles : Floating → Answers → State → SttAo → Type 0
Settles f a s me = let (o, me') = respond f a s stt_poll me in (next s o ≡ stopped) × IsOver 1 me'

settled :
    (f : Floating) (a : Answers) (ring : EventRing) (queue : Txq) (n : ℕ) (s : State) (me : SttAo)
    → Inv s me
    → (s ≡ stopping) ⊎ (s ≡ stopped)
    → Settles f a s (finishes ring queue n me)
unfolding respond handle_stopped worker_exit
settled f a ring queue n idle me i h = absurd (elim h [ inl e ↦ cc | inr e ↦ cc ])
settled f a ring queue n ready me i h = absurd (elim h [ inl e ↦ cc | inr e ↦ cc ])
settled f a ring queue n error me i h = absurd (elim h [ inl e ↦ cc | inr e ↦ cc ])
settled f a ring queue n stopped me o h =
    let none_left = ap (λ b. if b then exits (works ring queue n me) else me) o.no_thread in
    coe 1 0 (j. Settles f a stopped (none_left j)) (refl, o)
settled f a ring queue n stopping me l h =
    let (i, (s, (t, (r, d)))) = l.served in
    let over = ap (λ b. if b then exits (works ring queue n me) else me) t in
    let l' =
      with_client true (exits (works ring queue n me)).client_instance me l
        (i, (s, (t, (r, λ h. cc)))) refl in
    let (ends, after) = poll-stopping a (exits (works ring queue n me)) l' in
    let e = ends refl in
    let me' = (respond f a stopping stt_poll (exits (works ring queue n me))).1 in
    coe 1 0 (j. Settles f a stopping (over j)) (e, coe 0 1 (j. Inv (e j) me') after)

-- From every state that can be reached, SYSTEM_STOP, then the end of the worker if there is one,
-- whatever it wrote before, and then one poll bring the object to the stopped state: the client is
-- let go, no thread is left, the timer is off, and exactly one stop was reported.
pub stop_ends :
    {f : Floating} {memory : Client} {s : State} {me : SttAo} (a a' : Answers) (ring : EventRing)
    (queue : Txq) (errors_seen : ℕ)
    → memory.worker_thread ≡ false
    → Reachable f memory s me
    → let (o, me1) = respond f a s system_stop me in
      let s1 = next s o in
      let (o', me2) = respond f a' s1 stt_poll (finishes ring queue errors_seen me1) in
      (next s1 o' ≡ stopped) × IsOver 1 me2
stop_ends {f} {s = s} {me = me} a a' ring queue n t r =
    let i = runs-Inv t r in
    let (o, me1) = respond f a s system_stop me in
    settled f a' ring queue n (next s o) me1 (respond-Inv f a s system_stop me i) (asked f a s me i)
