-- ===== src/System/SystemAo/Reach.antt =====
-- What holds of the system object after any sequence of events, under any framework that keeps to
-- the documented dispatch.
use subtitle_overlay_fw.Base.{
  ℕ, ◌+◌, ◌≡◌, ◌≢◌, ◌⊎◌, inl, inr, Bool-cases, refl, ◌∙◌, Bool, true, false, not, ◌||◌, List, [],
  ◌∷◌, arith, ◌==◌, if◌then◌else◌,
}
use subtitle_overlay_fw.System.SystemAo.{
  Component, video, usb_audio, subtitle_pipeline, stt, Mask, no_bits, set_bit, all_expected, Signal,
  system_shutdown, shutdown_timeout, component_ready, component_error, system_stopped,
  broadcast_stop, State, init, run, stopping, SystemAo, Action, init_posted, qf_stop, note_ready,
  request_subtitle, post_component_init, on_component_ready, handle_init, handle_active, handle_run,
  handle_stopping,
}
use subtitle_overlay_fw.System.SystemAo.Framework.{respond, change, conclude}

-- What an onlooker sees of the events alone: the components that reported ready (the video one with
-- a size), those that acknowledged the stop, and whether the shutdown timer ran out.
pub record Seen : Type 0 where
  pub ready : Mask
  pub stopped : Mask
  pub timed_out : Bool

abbrev pub nothing : Seen
nothing = record { ready = no_bits; stopped = no_bits; timed_out = false }

unfoldable pub observe : Signal → Seen → Seen
observe (component_ready video w h) o =
    if w == 0 || h == 0 then o else record o { ready = set_bit video o.ready }
observe (component_ready c w h) o = record o { ready = set_bit c o.ready }
observe (system_stopped c) o = record o { stopped = set_bit c o.stopped }
observe shutdown_timeout o = record o { timed_out = true }
observe _ o = o

abbrev pub Within : Mask → Mask → Type 0
Within m n =
    (m video ≡ true → n video ≡ true)
    × (m usb_audio ≡ true → n usb_audio ≡ true)
    × (m subtitle_pipeline ≡ true → n subtitle_pipeline ≡ true)
    × (m stt ≡ true → n stt ≡ true)

abbrev is_stop : Action → Bool
is_stop qf_stop = true
is_stop _ = false

abbrev pub asked_to_stop : List Action → Bool
asked_to_stop [] = false
asked_to_stop (a ∷ l) = is_stop a || asked_to_stop l

abbrev is_subtitle_init : Action → Bool
is_subtitle_init (init_posted subtitle_pipeline w h) = not (w == 0 || h == 0)
is_subtitle_init _ = false

abbrev is_unsized : Action → Bool
is_unsized (init_posted subtitle_pipeline w h) = w == 0 || h == 0
is_unsized _ = false

-- Init events posted to the subtitle component, with a size and without
abbrev pub subtitle_inits : List Action → ℕ
subtitle_inits [] = 0
subtitle_inits (a ∷ l) = (if is_subtitle_init a then 1 else 0) + subtitle_inits l

abbrev pub unsized_inits : List Action → ℕ
unsized_inits [] = 0
unsized_inits (a ∷ l) = (if is_unsized a then 1 else 0) + unsized_inits l

-- What does not depend on the state.
pub record Core (me : SystemAo) (o : Seen) : Type 0 where
  pub ready_seen : Within me.ready_mask o.ready
  pub cause : asked_to_stop me.log ≡ true → (all_expected o.stopped ≡ true) ⊎ (o.timed_out ≡ true)
  pub one_init : subtitle_inits me.log ≡ (if me.subtitle_init_requested then 1 else 0)
  pub sized : unsized_inits me.log ≡ 0

pub record Inv (s : State) (me : SystemAo) (o : Seen) : Type 0 where
  pub core : Core me o
  pub leaf : (s ≡ init) ⊎ ((s ≡ run) ⊎ (s ≡ stopping))
  pub run_ready : s ≡ run → all_expected me.ready_mask ≡ true
  pub stopped_seen : s ≡ stopping → Within me.stopped_mask o.stopped
  pub quiet : asked_to_stop me.log ≡ true → s ≡ stopping

observe_ready-Core :
    (c : Component) (w h : ℕ) {me : SystemAo} {o : Seen}
    → Core me o
    → Core me (observe (component_ready c w h) o)
unfolding observe
observe_ready-Core video w h k = ground arith
observe_ready-Core _ w h k = ground arith

pub observe-Core : (e : Signal) {me : SystemAo} {o : Seen} → Core me o → Core me (observe e o)
unfolding observe
observe-Core (component_ready c w h) k = observe_ready-Core c w h k
observe-Core (system_stopped c) k = ground arith
observe-Core _ k = ground arith

module _ (accepts : Component → Bool) where
  request_subtitle-Core :
      (w h : ℕ) {me : SystemAo} {o : Seen}
      → (w == 0 || h == 0) ≡ false
      → Core me o
      → Core (request_subtitle accepts w h me).1 o
        × (asked_to_stop (request_subtitle accepts w h me).1.log ≡ asked_to_stop me.log)
  unfolding request_subtitle post_component_init
  request_subtitle-Core w h {me} size k = elim (Bool-cases me.subtitle_init_requested) [
    | inl old ↦ ground arith
    | inr new ↦ ground arith
  ]

  note_ready-Core :
      (c : Component) (w h : ℕ) {me : SystemAo} {o : Seen}
      → Core me o
      → Core (note_ready accepts c w h me).1 (observe (component_ready c w h) o)
        × (asked_to_stop (note_ready accepts c w h me).1.log ≡ asked_to_stop me.log)
  unfolding note_ready observe
  note_ready-Core video w h {me} {o} k = elim (Bool-cases (w == 0 || h == 0)) [
    | inl none_ ↦ rw none_ (ground arith)
    | inr size ↦ rw size (
        request_subtitle-Core w h {o = record o { ready = set_bit video o.ready }} size
          (ground arith))
  ]
  note_ready-Core _ w h k = ground arith

  -- Leaving the init or run state for the stopping state, or for the run state
  change-stopping :
      (s : State) (me : SystemAo) (o : Seen)
      → s ≢ stopping
      → Core me o
      → asked_to_stop me.log ≡ false
      → Inv stopping (change accepts s stopping me) o
  unfolding change handle_init handle_run handle_stopping handle_active broadcast_stop
  change-stopping stopping me o ne k q = absurd (ne refl)
  change-stopping _ me o ne k q = record {
    core = ground arith;
    leaf = inr (inr refl);
    run_ready = λ e. cc;
    stopped_seen = λ e. ground arith;
    quiet = λ e. refl;
  }

  change-run :
      (me : SystemAo) (o : Seen)
      → Core me o
      → asked_to_stop me.log ≡ false
      → all_expected me.ready_mask ≡ true
      → Inv run (change accepts init run me) o
  unfolding change handle_init handle_run
  change-run me o k q all = record {
    core = ground arith;
    leaf = inr (inl refl);
    run_ready = λ e. all;
    stopped_seen = λ e. cc;
    quiet = λ e. cc;
  }

  stay-init : (me : SystemAo) (o : Seen) → Core me o → asked_to_stop me.log ≡ false → Inv init me o
  stay-init me o k q = record {
    core = k;
    leaf = inl refl;
    run_ready = λ e. cc;
    stopped_seen = λ e. cc;
    quiet = λ e. cc;
  }

  -- The answer of the init state to a ready report
  ready-Inv :
      (c : Component) (w h : ℕ) (me : SystemAo) (o : Seen)
      → Core me o
      → asked_to_stop me.log ≡ false
      → let (s', me') = conclude accepts init (respond accepts init (component_ready c w h) me) in
        Inv s' me' (observe (component_ready c w h) o)
  unfolding respond handle_init on_component_ready
  ready-Inv c w h me o k q =
      let (core, same) = note_ready-Core c w h k in
      let me1 = (note_ready accepts c w h me).1 in
      elim (Bool-cases (all_expected me1.ready_mask)) [
        | inl all ↦ rw all (change-run me1 _ core (same ∙ q) all)
        | inr some_ ↦ elim (Bool-cases (note_ready accepts c w h me).0) [
          | inl fine ↦ rw (some_, fine) (stay-init me1 _ core (same ∙ q))
          | inr bad ↦ rw (some_, bad) (change-stopping init me1 _ (λ e. cc) core (same ∙ q))
        ]
      ]

  quiet_of :
      {s : State} {me : SystemAo} {o : Seen}
      → Inv s me o
      → s ≢ stopping
      → asked_to_stop me.log ≡ false
  quiet_of {s} {me} v ne = elim (Bool-cases (asked_to_stop me.log)) [
    | inl e ↦ absurd (ne (v.quiet e))
    | inr e ↦ e
  ]

  pub init-Inv :
      (e : Signal) (me : SystemAo) (o : Seen)
      → Inv init me o
      → let (s', me') = conclude accepts init (respond accepts init e me) in
        Inv s' me' (observe e o)
  unfolding respond handle_init handle_active
  init-Inv (component_ready c w h) me o v = ready-Inv c w h me o v.core (quiet_of v (λ e. cc))
  init-Inv (component_error c code) me o v =
      change-stopping init (record me { error_source = c; error_code = code })
        (observe (component_error c code) o) (λ e. cc)
        (observe-Core (component_error c code) (ground (arith, v.core))) (quiet_of v (λ e. cc))
  init-Inv system_shutdown me o v =
      change-stopping init (record me { requested_shutdown = true }) (observe system_shutdown o)
        (λ e. cc) (observe-Core system_shutdown (ground (arith, v.core))) (quiet_of v (λ e. cc))
  init-Inv e me o v = stay-init me (observe e o) (observe-Core e v.core) (quiet_of v (λ e. cc))

  pub run-Inv :
      (e : Signal) (me : SystemAo) (o : Seen)
      → Inv run me o
      → let (s', me') = conclude accepts run (respond accepts run e me) in Inv s' me' (observe e o)
  unfolding respond handle_run handle_active
  run-Inv (component_error c code) me o v =
      change-stopping run (record me { error_source = c; error_code = code })
        (observe (component_error c code) o) (λ e. cc)
        (observe-Core (component_error c code) (ground (arith, v.core))) (quiet_of v (λ e. cc))
  run-Inv system_shutdown me o v =
      change-stopping run (record me { requested_shutdown = true }) (observe system_shutdown o)
        (λ e. cc) (observe-Core system_shutdown (ground (arith, v.core))) (quiet_of v (λ e. cc))
  run-Inv e me o v = record {
    core = observe-Core e v.core;
    leaf = inr (inl refl);
    run_ready = v.run_ready;
    stopped_seen = λ p. cc;
    quiet = λ p. absurd (cc (quiet_of v (λ q. cc)));
  }
