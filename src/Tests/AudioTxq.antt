-- ===== src/Tests/AudioTxq.antt =====
-- src/svc/stt/stt_audio_txq.c at concrete chunks.
use subtitle_overlay_fw.Base.{ℕ, ◌≡◌, refl, true, false, some, none, List, [], ◌∷◌, ◌++◌, ok, arith}
use subtitle_overlay_fw.Stt.AudioTxq.{Txq, init, worker_started, push}
use subtitle_overlay_fw.Stt.AudioTxq.Spec.{contents, shed}
use subtitle_overlay_fw.Stt.AudioTxq.Valid.{IsValid, init-IsValid, push-IsValid}
use subtitle_overlay_fw.Stt.AudioTxq.Refine.{push_refines, pop_refines, PopSpec}
use subtitle_overlay_fw.Stt.AudioTxq.Trace.{
  Call, start, stop, take_one, discard, give, run, begin, Accounts, run-Accounts,
}

abbrev started : Txq
started = worker_started init

started-IsValid : IsValid started
unfolding worker_started
started-IsValid = record {
  slots = init-IsValid.slots;
  head_in = init-IsValid.head_in;
  count_in = init-IsValid.count_in;
  drops_agree = init-IsValid.drops_agree;
  fit = init-IsValid.fit;
}

abbrev pcm : List ℕ
pcm = 1 ∷ 2 ∷ 3 ∷ []

abbrev one : Txq
one = (push started (some pcm) 7 0).1

one-IsValid : IsValid one
one-IsValid = push-IsValid (some pcm) 7 0 started-IsValid

started-runs : (started.worker_started ≡ true) × (started.stop_requested ≡ false)
unfolding worker_started init
started-runs = (refl, refl)

abbrev calls : List Call
calls =
    give (some pcm) 1 0
    ∷ start
    ∷ give (some pcm) 2 0
    ∷ give none 3 0
    ∷ give (some (4 ∷ [])) 4 1
    ∷ take_one
    ∷ discard
    ∷ stop
    ∷ give (some pcm) 5 0
    ∷ []

run-Accounts_example : Accounts (run begin calls)
run-Accounts_example = run-Accounts calls

push_refines_example :
    ((push started (some pcm) 7 0).0 ≡ ok tt)
    × (contents (push started (some pcm) 7 0).1 ≡ shed (contents started) ++ ((pcm, 7) ∷ []))
push_refines_example =
    push_refines pcm 7 0 started-IsValid started-runs.0 started-runs.1 (omega arith) (omega arith)

pop_refines_example : PopSpec one (contents one)
pop_refines_example = pop_refines one-IsValid
