-- ===== src/Tests/SttObject.antt =====
-- src/svc/stt/SttAO.c at concrete inputs: a board on which the worker starts, and a message in the
-- ring.
use subtitle_overlay_fw.Base.{◌≡◌, refl, true, false, List, ok}
use subtitle_overlay_fw.Utils.NumberParse.{number_parse_u32, parse_digits}
use subtitle_overlay_fw.Stt.AudioTxq.{Txq}
use subtitle_overlay_fw.Stt.AudioTxq
use subtitle_overlay_fw.Stt.EventRing.{EventRing, TextEvent, push}
use subtitle_overlay_fw.Stt.EventRing
use subtitle_overlay_fw.Stt.Transcript.{parser}
use subtitle_overlay_fw.Stt.Transcript.Message.{print_message}
use subtitle_overlay_fw.Stt.WsConfig.{
  config_default, from_env, session_of_env, env_u32, env_string, parse_url, parse_location,
  break_at, behind_prefix,
}
use subtitle_overlay_fw.Stt.WsClient.{Client, zeroed, client_init, start}
use subtitle_overlay_fw.Stt.SttAo.{
  SttAo, Answers, system_stop, component_init, stt_poll, State, idle, ready, stopped, ctor,
  handle_idle, on_component_init, on_poll,
}
use subtitle_overlay_fw.Stt.SttAo.Reach.{
  Reachable, begin, take_signal, work, works, respond, next, Inv, IsLive, IsOver,
}
use subtitle_overlay_fw.Stt.SttAo.Forward.{Forwarded, drained, on_poll-Forwarded}
use subtitle_overlay_fw.Stt.SttAo.Runs.{finishes, runs-Inv, stop_ends}
use subtitle_overlay_fw.Tests.Configuration.{swapped_backoff, swapped}
use subtitle_overlay_fw.Tests.Messages.{whole_numbers, hello, space}
use subtitle_overlay_fw.Hal.Status.{success}

abbrev works_well : Answers
works_well = record {
  getenv = swapped_backoff;
  primitives = record { mutex = true; condattr = true; setclock = true; cond = true };
  created = true;
  meanwhile = record { before = λ r. r; between = λ r. r; during = λ i r. r; behind = λ r. r };
  allocates = λ i margin. true;
  posts = λ i margin. true;
}

abbrev memory : Client
memory = zeroed swapped.1

abbrev one_message : EventRing
one_message = (push (parser whole_numbers) EventRing.init (print_message space hello)).1

-- After the initialization, with a message that the worker received
abbrev begun : State × SttAo
begun =
    let (o, me) = respond whole_numbers works_well idle component_init (ctor memory) in
    (next idle o, works one_message AudioTxq.init 0 me)

begun-Reachable : Reachable whole_numbers memory begun.0 begun.1
begun-Reachable = work one_message AudioTxq.init 0 (take_signal works_well component_init begin)

runs-Inv_example : Inv begun.0 begun.1
runs-Inv_example = runs-Inv refl begun-Reachable

begun_ready : begun.0 ≡ ready
unfolding respond handle_idle on_component_init client_init start config_default from_env
    session_of_env env_u32 env_string parse_url parse_location break_at behind_prefix
    number_parse_u32 parse_digits
begun_ready = refl

begun-IsLive : IsLive false begun.1
begun-IsLive = coe 0 1 (j. Inv (begun_ready j) begun.1) (runs-Inv refl begun-Reachable)

on_poll-Forwarded_example :
    ((on_poll works_well whole_numbers begun.1).0 ≡ success)
    × ((es : List TextEvent) × ((drained whole_numbers works_well begun.1 ≡ ok es)
          × Forwarded works_well 0 es begun.1 (on_poll works_well whole_numbers begun.1).1))
on_poll-Forwarded_example = on_poll-Forwarded whole_numbers works_well begun.1 begun-IsLive

stop_ends_example :
    let (o, me1) = respond whole_numbers works_well begun.0 system_stop begun.1 in
    let s1 = next begun.0 o in
    let (o', me2) =
      respond whole_numbers works_well s1 stt_poll (finishes one_message AudioTxq.init 1 me1) in
    (next s1 o' ≡ stopped) × IsOver 1 me2
stop_ends_example = stop_ends works_well works_well one_message AudioTxq.init 1 refl begun-Reachable
