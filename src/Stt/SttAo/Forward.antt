-- ===== src/Stt/SttAo/Forward.antt =====
-- What a poll of the speech-to-text object forwards and counts.
use subtitle_overlay_fw.Base.{
  ℕ, ◌+◌, ◌≡◌, refl, sym, ap, ◌∙◌, Bool, true, false, not, ◌&&◌, Bool-cases, List, [], ◌∷◌, ◌++◌,
  append-nil, append_assoc, ◌==◌, if◌then◌else◌, length, length-append, inl, inr, arith, Result, ok,
}
use subtitle_overlay_fw.Hal.Status.{success}
use subtitle_overlay_fw.Stt.EventRing.{TextEvent, u32, drain}
use subtitle_overlay_fw.Stt.Json.{Floating}
use subtitle_overlay_fw.Stt.Transcript.{parser}
use subtitle_overlay_fw.Stt.WsClient.{Client, report_delivery, poll_events}
use subtitle_overlay_fw.Stt.SttAo.{SttAo, Answers, on_transcript, forward, log_metrics, on_poll}
use subtitle_overlay_fw.Stt.SttAo.Reach.{captions, IsServed, IsLive}

-- The object with another client that is served in the same way
pub with_client :
    (stop : Bool) (c : Client) (me : SttAo)
    → IsLive stop me
    → IsServed stop c
    → c.deliveries_accepted ≡ me.client_instance.deliveries_accepted
    → IsLive stop (record me { client_instance = c })
with_client stop c me l s e = record {
  held = l.held;
  handed = l.handed;
  served = s;
  counted = e ∙ l.counted;
  polls = l.polls;
  timer_on = l.timer_on;
  no_errors = l.no_errors;
  no_stops = l.no_stops;
}

-- All outcomes that the client counted
abbrev pub reported : SttAo → ℕ
reported me =
    let c = me.client_instance in
    u32 (c.deliveries_accepted + c.deliveries_dropped_pool + c.deliveries_dropped_queue)

abbrev pub has_text : TextEvent → Bool
has_text e = not (length e.text == 0)

abbrev pub margin_of : TextEvent → ℕ
margin_of e = if e.is_final then 1 else 4

abbrev pub texts : List TextEvent → ℕ
texts [] = 0
texts (e ∷ es) = (if has_text e then 1 else 0) + texts es

posted_first :
    (b : Bool) (e : TextEvent) (es : List TextEvent)
    → (if b then e ∷ [] else []) ++ es ≡ (if b then e ∷ es else es)
posted_first true e es = refl
posted_first false e es = refl

log_metrics-IsLive : (me : SttAo) → IsLive false me → IsLive false (log_metrics me)
unfolding log_metrics
log_metrics-IsLive me l = record {
  held = l.held;
  handed = l.handed;
  served = l.served;
  counted = l.counted;
  polls = l.polls;
  timer_on = l.timer_on;
  no_errors = l.no_errors;
  no_stops = l.no_stops;
}

module _ (a : Answers) where
  -- Whether the i-th transcript of a poll has text, an event and a place in the queue
  abbrev pub gets_through : ℕ → TextEvent → Bool
  gets_through i e = has_text e && (a.allocates i (margin_of e) && a.posts i (margin_of e))

  abbrev pub delivered : ℕ → List TextEvent → List TextEvent
  delivered i [] = []
  delivered i (e ∷ es) = if gets_through i e then e ∷ delivered (i + 1) es else delivered (i + 1) es

  -- What came of one transcript
  abbrev Taken : ℕ → TextEvent → SttAo → SttAo → Type 0
  Taken i e me me' =
      IsLive false me'
      × ((captions me'.log ≡ captions me.log ++ (if gets_through i e then e ∷ [] else []))
          × (reported me' ≡ u32 (reported me + (if has_text e then 1 else 0))))

  on_transcript-Taken :
      (i : ℕ) (e : TextEvent) (me : SttAo)
      → IsLive false me
      → Taken i e me (on_transcript a i e me).1
  unfolding on_transcript report_delivery
  on_transcript-Taken i e me l =
      let c = me.client_instance in
      elim (Bool-cases (length e.text == 0)) [
        | inl t ↦ rw t (l, (sym (append-nil (captions me.log)), omega arith))
        | inr t ↦ elim (Bool-cases (a.allocates i (margin_of e))) [
          | inr g ↦
              rw (t, g, l.served.0)
                (
                  with_client false _ me l (refl, l.served.1) refl,
                  (sym (append-nil (captions me.log)), omega arith),
                )
          | inl g ↦ elim (Bool-cases (a.posts i (margin_of e))) [
            | inr q ↦
                rw (t, g, q, l.served.0)
                  (
                    with_client false _ me l (refl, l.served.1) refl,
                    (sym (append-nil (captions me.log)), omega arith),
                  )
            | inl q ↦
                rw (t, g, q, l.served.0)
                  (
                    record {
                      held = l.held;
                      handed = l.handed;
                      served = (refl, l.served.1);
                      counted = omega (arith, l.counted, length-append (captions me.log) (e ∷ []));
                      polls = l.polls;
                      timer_on = l.timer_on;
                      no_errors = l.no_errors;
                      no_stops = l.no_stops;
                    },
                    (refl, omega arith),
                  )
          ]
        ]
      ]

  -- What came of the transcripts of a poll, from the i-th on
  abbrev pub Forwarded : ℕ → List TextEvent → SttAo → SttAo → Type 0
  Forwarded i es me me' =
      IsLive false me'
      × ((captions me'.log ≡ captions me.log ++ delivered i es)
          × (reported me' ≡ u32 (reported me + texts es)))

  forward-Forwarded :
      (i : ℕ) (es : List TextEvent) (me : SttAo)
      → IsLive false me
      → Forwarded i es me (forward a i es me)
  unfolding forward
  forward-Forwarded i [] me l = (l, (sym (append-nil (captions me.log)), omega arith))
  forward-Forwarded i (e ∷ es) me l =
      let (live, (shown, outcome)) = on_transcript-Taken i e me l in
      let (live', (shown', outcome')) =
        forward-Forwarded (i + 1) es (on_transcript a i e me).1 live in
      (
        live',
        (
          shown'
              ∙ ap (λ l. l ++ delivered (i + 1) es) shown
              ∙ append_assoc (captions me.log) _ _
              ∙ ap (◌++◌ (captions me.log))
                  (posted_first (gets_through i e) e (delivered (i + 1) es)),
          omega (arith, outcome, outcome'),
        ),
      )

  -- After the client was polled
  polled-Forwarded :
      (c : Client) (es : List TextEvent) (me : SttAo)
      → IsLive false me
      → IsServed false c
      → c.deliveries_accepted ≡ me.client_instance.deliveries_accepted
      → c.deliveries_dropped_pool ≡ me.client_instance.deliveries_dropped_pool
      → c.deliveries_dropped_queue ≡ me.client_instance.deliveries_dropped_queue
      → Forwarded 0 es me (log_metrics (forward a 0 es (record me { client_instance = c })))
  unfolding log_metrics
  polled-Forwarded c es me l s accepted pool queue =
      let me1 = record me { client_instance = c } in
      let (live, (shown, outcome)) =
        forward-Forwarded 0 es me1 (with_client false c me l s accepted) in
      (
        log_metrics-IsLive (forward a 0 es me1) live,
        (shown, omega (arith, outcome, accepted, pool, queue)),
      )

module _ (f : Floating) (a : Answers) where
  -- What the ring gives to a poll
  abbrev pub drained : SttAo → Result (List TextEvent)
  drained me =
      (drain (parser f) a.meanwhile.during
        (a.meanwhile.between (a.meanwhile.before me.client_instance.event_ring)) true 4).0

-- A poll of an object that is ready succeeds and leaves it so. Of the transcripts that the ring gives
-- it, those with a text for which an event and a place in the subtitle object's queue are found, with
-- the margin of a partial or of a final, are posted as captions, in their order; and each transcript
-- with a text counts as accepted, as dropped for want of an event or as dropped by the queue, modulo
-- 2^32.
pub on_poll-Forwarded :
    (f : Floating) (a : Answers) (me : SttAo)
    → IsLive false me
    → ((on_poll a f me).0 ≡ success)
      × ((es : List TextEvent) × ((drained f a me ≡ ok es)
            × Forwarded a 0 es me (on_poll a f me).1))
unfolding on_poll poll_events drain
on_poll-Forwarded f a me l =
    rw l.served.0 (refl, (_, (refl, polled-Forwarded a _ _ me l (refl, l.served.1) refl refl refl)))
