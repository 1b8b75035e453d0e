-- ===== src/System/SystemAo/Framework.antt =====
-- The QP/C framework as a parameter: what its dispatcher is documented to do with the outcome of a
-- handler. A handler that names its superstate leaves the event to it, and the top state ignores
-- it; a transition leaves the source state and enters the target, whose entry cannot itself make
-- a transition.
use subtitle_overlay_fw.Base.{◌≡◌, refl, Bool}
use subtitle_overlay_fw.System.SystemAo.{
  Component, Signal, Event, entry, exit, signal, State, top, active, init, run, stopping, Outcome,
  handled, tran, super, SystemAo, ctor, handle_init, handle_active, handle_run, handle_stopping,
}

module _ (accepts : Component → Bool) where
  -- The handler of each state
  unfoldable pub handle : State → Event → SystemAo → Outcome × SystemAo
  handle top e me = (handled, me)
  handle active e me = handle_active e me
  handle init e me = handle_init accepts e me
  handle run e me = handle_run e me
  handle stopping e me = handle_stopping e me

  -- The answer of a handler, or of the superstate that it names.
  abbrev pub defer : Event → Outcome × SystemAo → Outcome × SystemAo
  defer e (super active, me) = handle_active e me
  defer e (o, me) = (o, me)

  unfoldable pub respond : State → Signal → SystemAo → Outcome × SystemAo
  unfolding handle
  respond s e me = defer (signal e) (handle s (signal e) me)

  -- Leaving a state and entering another
  unfoldable pub change : State → State → SystemAo → SystemAo
  unfolding handle
  change s t me = (handle t entry (handle s exit me).1).1

  pub record Framework : Type 0 where
    pub dispatch : State → Signal → SystemAo → State × SystemAo
    pub dispatch_handled :
        (s : State) (e : Signal) (me : SystemAo) {me' : SystemAo}
        → respond s e me ≡ (handled, me')
        → dispatch s e me ≡ (s, me')
    pub dispatch_super :
        (s t : State) (e : Signal) (me : SystemAo) {me' : SystemAo}
        → respond s e me ≡ (super t, me')
        → dispatch s e me ≡ (s, me')
    pub dispatch_tran :
        (s t : State) (e : Signal) (me : SystemAo) {me' : SystemAo}
        → respond s e me ≡ (tran t, me')
        → dispatch s e me ≡ (t, change s t me')

  -- The initial transition
  unfoldable pub start : SystemAo
  unfolding handle ctor
  start = (handle init entry ctor).1

  -- The dispatcher's laws as a function of the outcome
  abbrev pub conclude : State → Outcome × SystemAo → State × SystemAo
  conclude s (handled, me) = (s, me)
  conclude s (super t, me) = (s, me)
  conclude s (tran t, me) = (t, change s t me)

  pub dispatch-conclude :
      (f : Framework) (s : State) (e : Signal) (me : SystemAo)
      → f.dispatch s e me ≡ conclude s (respond s e me)
  dispatch-conclude f s e me = go (respond s e me) refl
    where
      go : (a : Outcome × SystemAo) → respond s e me ≡ a → f.dispatch s e me ≡ conclude s a
      go (handled, me') h = f.dispatch_handled s e me h
      go (super t, me') h = f.dispatch_super s t e me h
      go (tran t, me') h = f.dispatch_tran s t e me h
