-- ===== src/System/SystemAo/Runs.antt =====
-- Sequences of signals given to the system object.
use subtitle_overlay_fw.Base.{
  ◌≤◌, ◌≡◌, ◌≢◌, ◌⊎◌, inl, inr, refl, Bool, true, false, List, [], ◌∷◌, arith, Bool-cases,
}
use subtitle_overlay_fw.System.SystemAo.{
  Component, video, usb_audio, subtitle_pipeline, stt, Mask, set_bit, all_expected, Signal,
  shutdown_timeout, component_ready, system_stopped, State, top, active, init, run, stopping,
  SystemAo, handle_stopping, handle_init, on_init, post_component_init,
}
use subtitle_overlay_fw.System.SystemAo.Framework.{
  Framework, respond, conclude, dispatch-conclude, start,
}
use subtitle_overlay_fw.System.SystemAo.Reach.{
  Seen, nothing, observe, asked_to_stop, subtitle_inits, unsized_inits, Core, Inv, Within,
  observe-Core, init-Inv, run-Inv,
}

-- Bits may be added on both sides.
Within-set_bit : (c : Component) (m n : Mask) → Within m n → Within (set_bit c m) (set_bit c n)
Within-set_bit c m n w = ground arith

all_expected-Within : (m n : Mask) → Within m n → all_expected m ≡ true → all_expected n ≡ true
all_expected-Within m n w h = ground arith

module _ (accepts : Component → Bool) where
  acknowledged-Inv :
      (c : Component) (me : SystemAo) (o : Seen)
      → Inv stopping me o
      → let (s', me') =
          conclude accepts stopping (respond accepts stopping (system_stopped c) me) in
        Inv s' me' (observe (system_stopped c) o)
  unfolding respond handle_stopping observe
  acknowledged-Inv c me o v =
      let within = Within-set_bit c me.stopped_mask o.stopped (v.stopped_seen refl) in
      let core : Core me (observe (system_stopped c) o) = observe-Core (system_stopped c) v.core in
      let mask = set_bit c me.stopped_mask in
      elim (Bool-cases (all_expected mask)) [
        | inl all ↦ rw all (record {
          core = record {
            ready_seen = core.ready_seen;
            cause = λ e. inl (all_expected-Within mask (set_bit c o.stopped) within all);
            one_init = ground (arith, core.one_init);
            sized = ground (arith, core.sized);
          };
          leaf = inr (inr refl);
          run_ready = λ e. cc;
          stopped_seen = λ e. within;
          quiet = λ e. refl;
        })
        | inr some_ ↦ rw some_ (record {
          core = record {
            ready_seen = core.ready_seen;
            cause = core.cause;
            one_init = core.one_init;
            sized = core.sized;
          };
          leaf = inr (inr refl);
          run_ready = λ e. cc;
          stopped_seen = λ e. within;
          quiet = λ e. refl;
        })
      ]

  stopping-Inv :
      (e : Signal) (me : SystemAo) (o : Seen)
      → Inv stopping me o
      → let (s', me') = conclude accepts stopping (respond accepts stopping e me) in
        Inv s' me' (observe e o)
  unfolding respond handle_stopping observe
  stopping-Inv (system_stopped c) me o v = acknowledged-Inv c me o v
  stopping-Inv shutdown_timeout me o v = record {
    core = ground (arith, v.core);
    leaf = inr (inr refl);
    run_ready = λ e. cc;
    stopped_seen = v.stopped_seen;
    quiet = λ e. refl;
  }
  stopping-Inv (component_ready c w h) me o v = record {
    core = unfold observe in observe-Core (component_ready c w h) v.core;
    leaf = inr (inr refl);
    run_ready = λ e. cc;
    stopped_seen = λ e. ground (arith, v.stopped_seen refl);
    quiet = λ e. refl;
  }
  stopping-Inv e me o v = v

  -- An init post to another component than the subtitle one changes no fact of the invariant.
  post-Inv :
      (c : Component) (me : SystemAo) (o : Seen)
      → c ≢ subtitle_pipeline
      → Inv init me o
      → Inv init (post_component_init accepts c 0 0 me).1 o
  unfolding post_component_init
  post-Inv subtitle_pipeline me o ne v = absurd (ne refl)
  post-Inv c me o ne v = elim (Bool-cases (accepts c)) [
    | inl e ↦ ground arith
    | inr e ↦ ground arith
  ]

  start-Inv : Inv init (start accepts) nothing
  unfolding start handle_init on_init
  start-Inv =
      post-Inv stt _ nothing (λ e. cc)
        (post-Inv usb_audio _ nothing (λ e. cc) (post-Inv video _ nothing (λ e. cc) (ground arith)))

  conclude-Inv :
      (s : State) (e : Signal) (me : SystemAo) (o : Seen)
      → Inv s me o
      → let (s', me') = conclude accepts s (respond accepts s e me) in Inv s' me' (observe e o)
  conclude-Inv init e me o v = init-Inv accepts e me o v
  conclude-Inv run e me o v = run-Inv accepts e me o v
  conclude-Inv stopping e me o v = stopping-Inv e me o v
  conclude-Inv top e me o v = absurd (ground (arith, v.leaf))
  conclude-Inv active e me o v = absurd (ground (arith, v.leaf))

  -- The object and its onlooker, through a list of signals
  unfoldable pub deliver : Framework accepts → State × SystemAo → List Signal → State × SystemAo
  deliver f (s, me) [] = (s, me)
  deliver f (s, me) (e ∷ es) = deliver f (f.dispatch s e me) es

  unfoldable pub watch : Seen → List Signal → Seen
  watch o [] = o
  watch o (e ∷ es) = watch (observe e o) es

  deliver-Inv :
      (f : Framework accepts) (s : State) (me : SystemAo) (o : Seen) (es : List Signal)
      → Inv s me o
      → let (s', me') = deliver f (s, me) es in Inv s' me' (watch o es)
  unfolding deliver watch
  deliver-Inv f s me o [] v = v
  deliver-Inv f s me o (e ∷ es) v =
      let (s', me') = conclude accepts s (respond accepts s e me) in
      rw (dispatch-conclude accepts f s e me)
        (deliver-Inv f s' me' (observe e o) es (conclude-Inv s e me o v))

  -- What the log and the events say in each state. The other two states are never current.
  abbrev pub Safe : State → SystemAo → Seen → Type 0
  Safe init me o = asked_to_stop me.log ≡ false
  Safe run me o = (asked_to_stop me.log ≡ false) × (all_expected o.ready ≡ true)
  Safe stopping me o =
      (asked_to_stop me.log ≡ false) ⊎ ((all_expected o.stopped ≡ true) ⊎ (o.timed_out ≡ true))
  Safe top me o = ⊥
  Safe active me o = ⊥

  Inv-Safe : (s : State) (me : SystemAo) (o : Seen) → Inv s me o → Safe s me o
  Inv-Safe init me o v = elim (Bool-cases (asked_to_stop me.log)) [
    | inl e ↦ absurd (ground (arith, v.quiet e))
    | inr e ↦ e
  ]
  Inv-Safe run me o v = elim (Bool-cases (asked_to_stop me.log)) [
    | inl e ↦ absurd (ground (arith, v.quiet e))
    | inr e ↦ (e, all_expected-Within me.ready_mask o.ready v.core.ready_seen (v.run_ready refl))
  ]
  Inv-Safe stopping me o v = elim (Bool-cases (asked_to_stop me.log)) [
    | inl e ↦ inr (v.core.cause e)
    | inr e ↦ inl e
  ]
  Inv-Safe top me o v = absurd (ground (arith, v.leaf))
  Inv-Safe active me o v = absurd (ground (arith, v.leaf))

  -- From the initial transition on, whatever signals come and whichever init posts succeed: the
  -- object is in its init, run or stopping state; it is in the run state only if the video (with a
  -- size), USB audio, subtitle and STT components have all reported ready; QF_stop was called only
  -- in the stopping state, and only if these four have all acknowledged the stop or the shutdown
  -- timer has run out; the subtitle component was sent at most one init event, and none without
  -- a size.
  pub deliver-Safe :
      (f : Framework accepts) (es : List Signal)
      → let (s, me) = deliver f (init, start accepts) es in
        Safe s me (watch nothing es) × (subtitle_inits me.log ≤ 1) × (unsized_inits me.log ≡ 0)
  deliver-Safe f es =
      let (s, me) = deliver f (init, start accepts) es in
      let o = watch nothing es in
      let v : Inv s me o = deliver-Inv f init (start accepts) nothing es start-Inv in
      (Inv-Safe s me o v, ground (arith, v.core.one_init), v.core.sized)
