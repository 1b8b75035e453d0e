-- ===== src/Subtitle/SubtitleAo/Ready.antt =====
-- The handlers of the ready state keep what is known of the object.
use subtitle_overlay_fw.Base.{
  length-take, ℕ, ◌≡◌, refl, Bool, true, false, List, [], ◌∷◌, take, arith, Bool-cases, inl, inr,
  if◌then◌else◌, ◌||◌, ◌==◌,
}
use subtitle_overlay_fw.System.SystemAo.{Component, video, eio}
use subtitle_overlay_fw.Base.Int.{ℤ}
use subtitle_overlay_fw.Subtitle.SubtitleAo.{
  Pipeline, SubtitleAo, reset_text_state, on_subtitle_text, render_text, take_text,
  promote_current_to_previous, render_current_state, call, is_zero, has_text, Signal, system_stop,
  subtitle_clear, previous_expire, other, component_init, component_ready, subtitle_text, ready,
  Outcome, handle_top, handle_ready, on_previous_expired, clear_subtitle, or_error, act,
  rearm_clear, reconfigure,
}
use subtitle_overlay_fw.Subtitle.SubtitleAo.Slots.{slots, render-slots}
use subtitle_overlay_fw.Subtitle.SubtitleAo.Screen.{blank_failed, up, disciplined, memory, enabled}
use subtitle_overlay_fw.Subtitle.SubtitleAo.Reach.{
  defer, respond, next, caption, SlotsOk, Live, View, Inv, enter_error-Inv, stop-Inv, render-Live,
  render-View,
}

module _ (p : Pipeline) where
  SlotsOk-slots : (me me' : SubtitleAo p) → slots p me' ≡ slots p me → SlotsOk p me → SlotsOk p me'
  SlotsOk-slots me me' q k =
      ground (arith, q, k.previous_short, k.current_short, k.visible, k.valid)

  has_text-take : (t : List ℕ) → has_text (take 127 t) ≡ has_text t
  has_text-take [] = refl
  has_text-take (c ∷ cs) = refl

  take_text-SlotsOk :
      (c : ℕ) (cs : List ℕ) (f : Bool) (me : SubtitleAo p)
      → SlotsOk p me
      → SlotsOk p (take_text p (c ∷ cs) f me)
  unfolding take_text promote_current_to_previous
  take_text-SlotsOk c cs f me k = ground (
    arith,
    k.previous_short,
    k.visible,
    length-take 127 (c ∷ cs),
    length-take 127 me.current_text,
    has_text-take me.current_text,
  )

  take_text-Live :
      (t : List ℕ) (f : Bool) (me : SubtitleAo p) → Live p me → Live p (take_text p t f me)
  unfolding take_text promote_current_to_previous up disciplined
  take_text-Live t f me v = ground (arith, v.initialised, v.in_order, v.one_ready)

  -- What a handler of the ready state leaves, given the status of the work that it does
  abbrev pub Work : ℤ × SubtitleAo p → Type 0
  Work (status, me) = SlotsOk p me × Live p me × (is_zero status ≡ true → View p me)

  abbrev pub Done : Outcome × SubtitleAo p → Type 0
  Done (o, me) = Inv p (next p ready o) me

  or_error-Inv : (e : Signal) (r : ℤ × SubtitleAo p) → Work r → Done (defer p e (or_error p r))
  or_error-Inv e (status, me) (k, v, w) = elim (Bool-cases (is_zero status)) [
    | inl z ↦ rw z (k, v, w z)
    | inr n ↦
        rw n
          (enter_error-Inv p eio me v.in_order (omega (arith, v.one_ready)) v.no_errors v.no_stops)
  ]

  render-Work : (me : SubtitleAo p) → SlotsOk p me → Live p me → Work (render_current_state p me)
  render-Work me k v =
      (SlotsOk-slots me _ (render-slots p me) k, render-Live p me v, λ z. inr (render-View p me z))

  rearm-Work :
      (status : ℤ) (me : SubtitleAo p)
      → Work (status, me)
      → Work (status, if is_zero status then act p (rearm_clear me.clear_timeout_ticks) me else me)
  unfolding up disciplined blank_failed memory enabled caption render_text
  rearm-Work status me (k, v, w) = elim (Bool-cases (is_zero status)) [
    | inl z ↦ rw z (ground (arith, k), ground (arith, v), λ e. ground (arith, w z))
    | inr n ↦ rw n (k, v, λ e. absurd (ground arith))
  ]

  on_subtitle_text-Work :
      (t : List ℕ) (f : Bool) (me : SubtitleAo p)
      → SlotsOk p me
      → Live p me
      → Work (on_subtitle_text p t f me)
  unfolding on_subtitle_text
  on_subtitle_text-Work [] f me k v = (k, v, λ z. absurd (ground arith))
  on_subtitle_text-Work (c ∷ cs) f me k v =
      let me1 = take_text p (c ∷ cs) f me in
      let (status, me2) = render_current_state p me1 in
      rearm-Work status me2
        (render-Work me1 (take_text-SlotsOk c cs f me k) (take_text-Live (c ∷ cs) f me v))

  expire-Work : (me : SubtitleAo p) → SlotsOk p me → Live p me → Work (on_previous_expired p me)
  unfolding on_previous_expired
  expire-Work me k v =
      render-Work (record me { previous_final = []; previous_visible = false }) (ground (arith, k))
        (ground (arith, v))

  reconfigure-Work :
      (w h : ℕ) (me : SubtitleAo p)
      → SlotsOk p me
      → Live p me
      → View p me
      → Work (call p (reconfigure w h) me)
  unfolding call up disciplined blank_failed memory enabled caption render_text
  reconfigure-Work w h me k v view =
      (ground (arith, k), ground (arith, v), λ z. ground (arith, view))

  clear-Inv : (me : SubtitleAo p) → Live p me → Inv p ready (clear_subtitle p me)
  unfolding clear_subtitle reset_text_state call up disciplined blank_failed memory enabled caption
  clear-Inv me v = (ground arith, ground (arith, v), ground arith)

  resize-Inv :
      (c : Component) (a b : ℕ) (me : SubtitleAo p)
      → Inv p ready me
      → Done (respond p ready (component_ready c a b) me)
  unfolding respond handle_ready
  resize-Inv video a b me (k, v, w) = elim (Bool-cases (a == 0 || b == 0)) [
    | inl z ↦ rw z (k, v, w)
    | inr n ↦ rw n (
        or_error-Inv (component_ready video a b) (call p (reconfigure a b) me)
          (reconfigure-Work a b me k v w))
  ]
  resize-Inv _ a b me i = i

  pub ready-Inv : (e : Signal) (me : SubtitleAo p) → Inv p ready me → Done (respond p ready e me)
  unfolding respond handle_ready handle_top
  ready-Inv system_stop me (k, v, w) =
      stop-Inv p me v.in_order (omega (arith, v.one_ready)) (omega (arith, v.no_errors)) v.no_stops
  ready-Inv subtitle_clear me (k, v, w) = clear-Inv me v
  ready-Inv previous_expire me (k, v, w) =
      or_error-Inv previous_expire (on_previous_expired p me) (expire-Work me k v)
  ready-Inv (subtitle_text t f) me (k, v, w) =
      or_error-Inv (subtitle_text t f) (on_subtitle_text p t f me)
        (on_subtitle_text-Work t f me k v)
  ready-Inv (component_ready c a b) me i = resize-Inv c a b me i
  ready-Inv (component_init a b) me i = i
  ready-Inv other me i = i
