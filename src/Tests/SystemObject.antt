-- ===== src/Tests/SystemObject.antt =====
-- The system object of src/svc/system/SystemAO.c under a framework that does what the laws say.
use subtitle_overlay_fw.Base.{◌≤◌, ◌≡◌, ap, Bool, true, List, [], ◌∷◌}
use subtitle_overlay_fw.System.SystemAo.{
  Component, video, usb_audio, subtitle_pipeline, stt, Signal, system_shutdown, shutdown_timeout,
  component_ready, system_stopped, init,
}
use subtitle_overlay_fw.System.SystemAo.Framework.{Framework, respond, conclude, start}
use subtitle_overlay_fw.System.SystemAo.Reach.{nothing, subtitle_inits, unsized_inits}
use subtitle_overlay_fw.System.SystemAo.Runs.{deliver, watch, Safe, deliver-Safe}

abbrev accepts : Component → Bool
accepts c = true

abbrev framework : Framework accepts
framework = record {
  dispatch = λ s e me. conclude accepts s (respond accepts s e me);
  dispatch_handled = λ s e me h. ap (conclude accepts s) h;
  dispatch_super = λ s t e me h. ap (conclude accepts s) h;
  dispatch_tran = λ s t e me h. ap (conclude accepts s) h;
}

abbrev signals : List Signal
signals =
    component_ready usb_audio 0 0
    ∷ component_ready video 1280 720
    ∷ component_ready stt 0 0
    ∷ component_ready subtitle_pipeline 1280 720
    ∷ system_shutdown
    ∷ system_stopped video
    ∷ shutdown_timeout
    ∷ []

deliver-Safe_example :
    let (s, me) = deliver accepts framework (init, start accepts) signals in
    Safe accepts s me (watch accepts nothing signals)
    × (subtitle_inits me.log ≤ 1)
    × (unsized_inits me.log ≡ 0)
deliver-Safe_example = deliver-Safe accepts framework signals
