-- ===== src/Tests/SubtitleObject.antt =====
-- The subtitle object of src/svc/subtitle_pipeline/SubtitleAO.c over a pipeline that counts its calls.
use subtitle_overlay_fw.Base.{ℕ, ◌+◌, ◌≡◌, true, false, [], ◌∷◌}
use subtitle_overlay_fw.Base.Int.{pos}
use subtitle_overlay_fw.Subtitle.SubtitleAo.{
  Pipeline, SubtitleAo, component_init, subtitle_text, State, idle, ctor, reset_text_state,
  render_text,
}
use subtitle_overlay_fw.Subtitle.SubtitleAo.Reach.{
  Reachable, begin, take_signal, Inv, next, respond,
}
use subtitle_overlay_fw.Subtitle.SubtitleAo.Runs.{reachable_safe}
use subtitle_overlay_fw.Subtitle.SubtitleAo.Slots.{
  TextEvent, text, after, above, latest_final, on_subtitle_text-caption,
}

abbrev pipeline : Pipeline
pipeline = record {
  Handle = ℕ;
  call = λ c n. (pos 0, n + 1);
  display_width = λ n. 1280;
  display_height = λ n. 720;
}

abbrev fresh : SubtitleAo pipeline
fresh = ctor pipeline 0 5000 3000

abbrev initialised : State × SubtitleAo pipeline
initialised =
    let (o, me) = respond pipeline idle (component_init 1280 720) fresh in
    (next pipeline idle o, me)

abbrev captioned : State × SubtitleAo pipeline
captioned =
    let (s, me) = initialised in
    let (o, me') = respond pipeline s (subtitle_text (104 ∷ 105 ∷ []) true) me in
    (next pipeline s o, me')

captioned-Reachable : Reachable pipeline captioned.0 captioned.1
captioned-Reachable =
    take_signal (subtitle_text (104 ∷ 105 ∷ []) true)
      (take_signal (component_init 1280 720) (begin 0 5000 3000))

reachable_safe_example : Inv pipeline captioned.0 captioned.1
reachable_safe_example = reachable_safe pipeline captioned-Reachable

abbrev first : TextEvent
first = record { first = 104; rest = 105 ∷ []; is_final = true }

abbrev second : TextEvent
second = record { first = 111; rest = 107 ∷ []; is_final = false }

on_subtitle_text-caption_example :
    let me = after pipeline (second ∷ first ∷ []) (reset_text_state pipeline fresh) in
    (me.current_text ≡ text second)
    × (me.current_is_final ≡ false)
    × (render_text pipeline me ≡ above (latest_final (first ∷ [])) (text second))
on_subtitle_text-caption_example = on_subtitle_text-caption pipeline second (first ∷ []) fresh
