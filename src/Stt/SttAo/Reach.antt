-- ===== src/Stt/SttAo/Reach.antt =====
-- The states that the speech-to-text object can reach, whatever signals come, whatever the code
-- outside answers, and whatever the network worker does in between.
use subtitle_overlay_fw.Base.{ℕ, suc, ◌≤◌, ◌≡◌, Bool, true, false, List, [], ◌∷◌, ◌++◌, length}
use subtitle_overlay_fw.Stt.AudioTxq.{Txq}
use subtitle_overlay_fw.Stt.EventRing.{EventRing, TextEvent, u32}
use subtitle_overlay_fw.Stt.Json.{Floating}
use subtitle_overlay_fw.Stt.WsClient.{Client, worker_exit}
use subtitle_overlay_fw.Stt.SttAo.{
  Action, arm_poll, disarm_poll, stopped_posted, error_sent, caption_posted, Signal, State, idle,
  ready, error, stopping, stopped, Outcome, super_top, tran, SttAo, Answers, handle_top,
  handle_idle, handle_ready, handle_error, handle_stopping, handle_stopped, ctor,
}

abbrev pub armed : List Action → Bool
armed [] = false
armed (arm_poll ∷ l) = true
armed (disarm_poll ∷ l) = false
armed (_ ∷ l) = armed l

abbrev pub errors : List Action → ℕ
errors [] = 0
errors (error_sent code ∷ l) = suc (errors l)
errors (_ ∷ l) = errors l

abbrev pub stops : List Action → ℕ
stops [] = 0
stops (stopped_posted ∷ l) = suc (stops l)
stops (_ ∷ l) = stops l

-- The captions that were posted, the oldest first
abbrev pub captions : List Action → List TextEvent
captions [] = []
captions (caption_posted margin e ∷ l) = captions l ++ (e ∷ [])
captions (_ ∷ l) = captions l

-- The answer of a state's handler, or of the superstate that it names
abbrev pub defer : Answers → Signal → Outcome × SttAo → Outcome × SttAo
defer a e (super_top, me) = handle_top a e me
defer a e (o, me) = (o, me)

unfoldable pub respond : Floating → Answers → State → Signal → SttAo → Outcome × SttAo
respond f a idle e me = defer a e (handle_idle a e me)
respond f a ready e me = defer a e (handle_ready a f e me)
respond f a error e me = defer a e (handle_error a e me)
respond f a stopping e me = defer a e (handle_stopping a e me)
respond f a stopped e me = defer a e (handle_stopped a e me)

abbrev pub next : State → Outcome → State
next s (tran t) = t
next s _ = s

-- What the worker and the capture threads write while the object waits
abbrev pub works : EventRing → Txq → ℕ → SttAo → SttAo
works ring queue errors_seen me = record me {
  client_instance = record me.client_instance {
    event_ring = ring;
    audio_txq = queue;
    protocol_errors = errors_seen;
  };
}

abbrev pub exits : SttAo → SttAo
exits me = record me { client_instance = worker_exit me.client_instance }

-- The state machine, from the initial transition on, with new answers at each signal, beside the
-- worker, whose loop ends when it reads that a stop is requested. No state has an entry or exit
-- action that changes the object.
pub data Reachable (f : Floating) (memory : Client) : State → SttAo → Type 1 where
  begin : Reachable f memory idle (ctor memory)
  take_signal :
      {s : State} {me : SttAo} (a : Answers) (e : Signal)
      → Reachable f memory s me
      → Reachable f memory (next s (respond f a s e me).0) (respond f a s e me).1
  work :
      {s : State} {me : SttAo} (ring : EventRing) (queue : Txq) (errors_seen : ℕ)
      → Reachable f memory s me
      → Reachable f memory s (works ring queue errors_seen me)
  exit :
      {s : State} {me : SttAo}
      → me.client_instance.worker_thread ≡ true
      → me.client_instance.stop_requested ≡ true
      → Reachable f memory s me
      → Reachable f memory s (exits me)

-- The client runs, and a stop was requested or not; without a request the worker goes on.
abbrev pub IsServed : Bool → Client → Type 0
IsServed stop c =
    (c.initialized ≡ true)
    × ((c.worker_started ≡ true)
        × ((c.worker_thread ≡ true)
            × ((c.stop_requested ≡ stop) × (stop ≡ false → c.worker_done ≡ false))))

pub record IsLive (stop : Bool) (me : SttAo) : Type 0 where
  pub held : me.has_client ≡ true
  pub handed : me.registered ≡ true
  pub served : IsServed stop me.client_instance
  pub counted : me.client_instance.deliveries_accepted ≡ u32 (length (captions me.log))
  pub polls : me.running ≡ true
  pub timer_on : armed me.log ≡ true
  pub no_errors : errors me.log ≡ 0
  pub no_stops : stops me.log ≡ 0

pub record IsOver (n_stops : ℕ) (me : SttAo) : Type 0 where
  pub let_go : me.has_client ≡ false
  pub no_thread : me.client_instance.worker_thread ≡ false
  pub idles : me.running ≡ false
  pub timer_off : armed me.log ≡ false
  pub errors_made : errors me.log ≤ 1
  pub stops_made : stops me.log ≡ n_stops

abbrev pub Inv : State → SttAo → Type 0
Inv idle me =
    (me.log ≡ [])
    × ((me.has_client ≡ false)
        × ((me.running ≡ false) × (me.client_instance.worker_thread ≡ false)))
Inv ready me = IsLive false me
Inv error me = IsOver 0 me × (errors me.log ≡ 1)
Inv stopping me = IsLive true me
Inv stopped me = IsOver 1 me
