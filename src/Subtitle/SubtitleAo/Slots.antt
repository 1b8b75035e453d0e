-- ===== src/Subtitle/SubtitleAo/Slots.antt =====
-- The two caption slots after a run of subtitle texts, against the texts that came.
use subtitle_overlay_fw.Base.{
  take-all, length-take, ℕ, zero, suc, ◌≡◌, ◌≤◌, refl, ap, Bool, true, false, Option, none, some,
  List, [], ◌∷◌, ◌++◌, take, length, arith, length-append, Bool-cases, inl, inr, if◌then◌else◌,
}
use subtitle_overlay_fw.Subtitle.SubtitleAo.{
  Pipeline, SubtitleAo, reset_text_state, on_subtitle_text, render_text, fit, slot_max, render_max,
  take_text, promote_current_to_previous, render_current_state, call_then_enable, call, is_zero,
}

-- A subtitle event whose text is not empty
pub record TextEvent : Type 0 where
  pub first : ℕ
  pub rest : List ℕ
  pub is_final : Bool

abbrev pub text : TextEvent → List ℕ
text e = fit slot_max (e.first ∷ e.rest)

-- Of texts with the latest first, the latest final one
unfoldable pub latest_final : List TextEvent → Option (List ℕ)
latest_final [] = none
latest_final (e ∷ es) = if e.is_final then some (text e) else latest_final es

-- The caption for a text after earlier ones: the latest final text before it, on a line of its own.
abbrev pub above : Option (List ℕ) → List ℕ → List ℕ
above none t = t
above (some f) t = f ++ 10 ∷ t

abbrev pub slot : Option (List ℕ) → List ℕ
slot none = []
slot (some f) = f

abbrev pub is_some : Option (List ℕ) → Bool
is_some none = false
is_some (some f) = true

take-take {ℓ} : {A : Type ℓ} (n : ℕ) (xs : List A) → take n (take n xs) ≡ take n xs
take-take zero xs = refl
take-take (suc n) [] = refl
take-take (suc n) (x ∷ xs) = ap (◌∷◌ x) (take-take n xs)

module _ (p : Pipeline) where
  -- on_subtitle_text for every text, the latest first
  unfoldable pub after : List TextEvent → SubtitleAo p → SubtitleAo p
  after [] me = me
  after (e ∷ es) me = (on_subtitle_text p (e.first ∷ e.rest) e.is_final (after es me)).1

  -- What the slots hold, given the latest text, if any, and those before it.
  pub record Holds (e : TextEvent) (es : List TextEvent) (me : SubtitleAo p) : Type 0 where
    pub current : me.current_text ≡ text e
    pub valid : me.current_valid ≡ true
    pub final : me.current_is_final ≡ e.is_final
    pub previous : me.previous_final ≡ slot (latest_final es)
    pub visible : me.previous_visible ≡ is_some (latest_final es)

  -- Rendering and timers leave the slots alone.
  abbrev pub slots : SubtitleAo p → List ℕ × List ℕ × Bool × Bool × Bool
  slots me = (
    me.previous_final, me.current_text, me.previous_visible, me.current_valid, me.current_is_final,
  )

  pub render-slots : (me : SubtitleAo p) → slots (render_current_state p me).1 ≡ slots me
  unfolding render_current_state call_then_enable call
  render-slots me = ground arith

  pub on_subtitle_text-slots :
      (c : ℕ) (cs : List ℕ) (f : Bool) (me : SubtitleAo p)
      → slots (on_subtitle_text p (c ∷ cs) f me).1 ≡ slots (take_text p (c ∷ cs) f me)
  unfolding on_subtitle_text
  on_subtitle_text-slots c cs f me =
      let r = render-slots (take_text p (c ∷ cs) f me) in
      elim (Bool-cases (is_zero (render_current_state p (take_text p (c ∷ cs) f me)).0)) [
        | inl e ↦ rw (e, render_current_state) r
        | inr e ↦ rw e r
      ]

  Holds-slots :
      (e : TextEvent) (es : List TextEvent) (me me' : SubtitleAo p)
      → slots me' ≡ slots me
      → Holds e es me
      → Holds e es me'
  Holds-slots e es me me' q h = ground (arith, q)

  take_text-Holds :
      (e d : TextEvent) (es : List TextEvent) (me : SubtitleAo p)
      → Holds d es me
      → Holds e (d ∷ es) (take_text p (e.first ∷ e.rest) e.is_final me)
  unfolding take_text promote_current_to_previous latest_final
  take_text-Holds e d es me h = elim (Bool-cases d.is_final) [
    | inl fin ↦ ground (arith, h.valid, h.final, h.current, take-take 127 (d.first ∷ d.rest))
    | inr live ↦ ground (arith, h.valid, h.final, h.previous, h.visible)
  ]

  take_text-Holds_first :
      (e : TextEvent) (me : SubtitleAo p)
      → Holds e [] (take_text p (e.first ∷ e.rest) e.is_final (reset_text_state p me))
  unfolding take_text promote_current_to_previous latest_final reset_text_state
  take_text-Holds_first e me = ground arith

  after-Holds :
      (e : TextEvent) (es : List TextEvent) (me : SubtitleAo p)
      → Holds e es (after (e ∷ es) (reset_text_state p me))
  unfolding after
  after-Holds e [] me =
      Holds-slots e [] _ _
        (on_subtitle_text-slots e.first e.rest e.is_final (reset_text_state p me))
        (take_text-Holds_first e me)
  after-Holds e (d ∷ es) me =
      let me1 = after (d ∷ es) (reset_text_state p me) in
      Holds-slots e (d ∷ es) _ _ (on_subtitle_text-slots e.first e.rest e.is_final me1)
        (take_text-Holds e d es me1 (after-Holds d es me))

  above-fits :
      (o : Option (List ℕ)) (t : List ℕ)
      → length (slot o) ≤ 127
      → length t ≤ 127
      → fit render_max (above o t) ≡ above o t
  above-fits none t h k = take-all 257 t (omega arith)
  above-fits (some f) t h k = take-all 257 (f ++ 10 ∷ t) (omega (arith, length-append f (10 ∷ t)))

  latest_final-short : (es : List TextEvent) → length (slot (latest_final es)) ≤ 127
  unfolding latest_final
  latest_final-short [] = omega arith
  latest_final-short (e ∷ es) = elim (Bool-cases e.is_final) [
    | inl fin ↦ rw fin (length-take 127 (e.first ∷ e.rest))
    | inr live ↦ rw live (latest_final-short es)
  ]

  -- After any run of texts that are not empty, from empty slots and whatever the pipeline answers,
  -- the current slot holds the last text cut to 127 characters with its flag, and the text to be
  -- rendered is that text, below the latest final one among the texts before it if there is one,
  -- with nothing cut off by the render buffer.
  pub on_subtitle_text-caption :
      (e : TextEvent) (es : List TextEvent) (me : SubtitleAo p)
      → let me' = after (e ∷ es) (reset_text_state p me) in
        (me'.current_text ≡ text e)
        × (me'.current_is_final ≡ e.is_final)
        × (render_text p me' ≡ above (latest_final es) (text e))
  unfolding render_text
  on_subtitle_text-caption e es me =
      let me' = after (e ∷ es) (reset_text_state p me) in
      let h : Holds e es me' = after-Holds e es me in
      let fits =
        above-fits (latest_final es) (text e) (latest_final-short es)
          (length-take 127 (e.first ∷ e.rest)) in
      (h.current, h.final, ground (arith, h.valid, h.visible, h.previous, h.current, fits))
