-- ===== src/Voice/Player/Handles/Accepted.antt =====
-- voice/player.rs: what a player takes from its controller.
use discord_async_rs.Prelude.{
  Bool, true, false, none, some, is_some, List, [], ◌∷◌, ◌++◌, All, ◌≡◌, subst, inl, inr, refl,
  arith, ap, sym, ◌∙◌, Bool-cases, if◌then◌else◌,
}
use mathlib.Core.List.{append_assoc, append-nil}
use discord_async_rs.Voice.Messages.{State, is_shutdown, Control}
use discord_async_rs.Voice.Player.{PlayerApi, Player, Effects, Input, on_control}
use discord_async_rs.Voice.Player.Run.{step, run}
use discord_async_rs.Voice.Player.Handles.{
  ChannelApi, Fifo, Controller, connect, disconnect, shutdown, play, stop,
}

module _ (C : ChannelApi) (fifo : Fifo C) (A : PlayerApi) where
  -- The method that sends a control.
  unfoldable pub call :
      Control A.OpusStream → Controller C A.OpusStream → Bool × Controller C A.OpusStream
  call (Control.connect channel_id) = connect C A.OpusStream channel_id
  call Control.disconnect = disconnect C A.OpusStream
  call Control.shutdown = shutdown C A.OpusStream
  call (Control.play stream) = play C A.OpusStream stream
  call Control.stop = stop C A.OpusStream

  -- Calls one behind the other: the controls whose call gave `true`, and the controller.
  unfoldable pub calls :
      List (Control A.OpusStream)
      → Controller C A.OpusStream
      → List (Control A.OpusStream) × Controller C A.OpusStream
  unfolding call
  calls [] s = ([], s)
  calls (c ∷ cs) s =
      let (is_taken, s') = call c s in
      let (accepted, s'') = calls cs s' in (if is_taken then c ∷ accepted else accepted, s'')

  try_send-queued :
      {T : Type 0} (t : T) (s : C.Sender T)
      → let (is_taken, s') = C.try_send t s in
        C.queued s' ≡ (if is_taken then C.queued s ++ t ∷ [] else C.queued s)
  try_send-queued t s = ground (arith, fifo.taken t s, fifo.refused t s)

  call-queued :
      (c : Control A.OpusStream) (s : Controller C A.OpusStream)
      → let (is_taken, s') = call c s in
        C.queued s' ≡ (if is_taken then C.queued s ++ c ∷ [] else C.queued s)
  unfolding call connect disconnect shutdown play stop
  call-queued (Control.connect n) s = try_send-queued (Control.connect n) s
  call-queued Control.disconnect s = try_send-queued {T = Control A.OpusStream} Control.disconnect s
  call-queued Control.shutdown s = try_send-queued {T = Control A.OpusStream} Control.shutdown s
  call-queued (Control.play x) s = try_send-queued (Control.play x) s
  call-queued Control.stop s = try_send-queued {T = Control A.OpusStream} Control.stop s

  calls-queued :
      (cs : List (Control A.OpusStream)) (s : Controller C A.OpusStream)
      → C.queued (calls cs s).1 ≡ C.queued s ++ (calls cs s).0
  unfolding calls
  calls-queued [] s = sym (append-nil (C.queued s))
  calls-queued (c ∷ cs) s = ground (
    arith,
    call-queued c s,
    calls-queued cs (call c s).1,
    append_assoc (C.queued s) (c ∷ []) (calls cs (call c s).1).0,
  )

  abbrev pub Inputs : Type 0
  Inputs = List (Input A.OpusStream A.Frame A.FrameSender)

  -- The controls that the player takes.
  abbrev pub controls_of : Inputs → List (Control A.OpusStream)
  controls_of [] = []
  controls_of (Input.control (some c) ∷ is) = c ∷ controls_of is
  controls_of (_ ∷ is) = controls_of is

  -- No channel of the player's handles is closed.
  abbrev pub IsOpen : Input A.OpusStream A.Frame A.FrameSender → Type 0
  IsOpen (Input.update u) = is_some u ≡ true
  IsOpen (Input.control c) = is_some c ≡ true
  IsOpen _ = Unit

  step-IsOpen :
      (i : Input A.OpusStream A.Frame A.FrameSender) (p : Player A)
      → IsOpen i
      → (q : Player A) × (out : Effects A) × (step i p ≡ some (q, out))
  unfolding step
  step-IsOpen (Input.update none) p h = ground arith
  step-IsOpen (Input.update (some u)) p h = (_, _, refl)
  step-IsOpen (Input.control none) p h = ground arith
  step-IsOpen (Input.control (some c)) p h = (_, _, refl)
  step-IsOpen (Input.conn_event e) p h = (_, _, refl)
  step-IsOpen (Input.encoder f) p h = (_, _, refl)
  step-IsOpen Input.timeout p h = (_, _, refl)

  run-step :
      (i : Input A.OpusStream A.Frame A.FrameSender) (is : Inputs) (p q : Player A)
      (out : Effects A)
      → is_shutdown p.state ≡ false
      → step i p ≡ some (q, out)
      → (run (i ∷ is) p).0 ≡ (run is q).0
  unfolding run
  run-step i is p q out h e = ground arith

  run_ended :
      (is : Inputs) (p : Player A)
      → is_shutdown p.state ≡ true
      → (run is p).0.state ≡ State.shutdown
  unfolding run is_shutdown
  run_ended [] p h = ground arith
  run_ended (i ∷ is) p h = ground arith

  on_control-shutdown :
      (p : Player A)
      → is_shutdown p.state ≡ false
      → is_shutdown (on_control Control.shutdown p).0.state ≡ true
  unfolding on_control is_shutdown
  on_control-shutdown p h = ground arith

  -- One round, behind which the rest of the rounds shuts the player down.
  run_next :
      (i : Input A.OpusStream A.Frame A.FrameSender) (is : Inputs) (p : Player A)
      → IsOpen i
      → ((q : Player A) → (run is q).0.state ≡ State.shutdown)
      → (run (i ∷ is) p).0.state ≡ State.shutdown
  run_next i is p h rest = elim (Bool-cases (is_shutdown p.state)) [
    | inl over ↦ run_ended (i ∷ is) p over
    | inr going ↦
        let (q, out, e) = step-IsOpen i p h in
        ap (λ r. r.state) (run-step i is p q out going e) ∙ rest q
  ]

  run-shutdown_now :
      (is : Inputs) (p : Player A)
      → (run (Input.control (some Control.shutdown) ∷ is) p).0.state ≡ State.shutdown
  unfolding step
  run-shutdown_now is p = elim (Bool-cases (is_shutdown p.state)) [
    | inl over ↦ run_ended (Input.control (some Control.shutdown) ∷ is) p over
    | inr going ↦
        let (q, out) = on_control Control.shutdown p in
        ap (λ r. r.state) (run-step (Input.control (some Control.shutdown)) is p q out going refl)
        ∙ run_ended is q (on_control-shutdown p going)
  ]

  run-controls :
      (is : Inputs) (before after : List (Control A.OpusStream))
      → All IsOpen is
      → controls_of is ≡ before ++ Control.shutdown ∷ after
      → (p : Player A) → (run is p).0.state ≡ State.shutdown
  run-controls [] [] after h e p = ground arith
  run-controls [] (b ∷ before) after h e p = ground arith
  run-controls (Input.control none ∷ is) before after h e p = ground (arith, h.0)
  run-controls (Input.control (some c) ∷ is) [] after h e p =
      let c_is : c ≡ Control.shutdown = ground arith in
      subst (λ d. (run (Input.control (some d) ∷ is) p).0.state ≡ State.shutdown) (sym c_is)
        (run-shutdown_now is p)
  run-controls (Input.control (some c) ∷ is) (b ∷ before) after h e p =
      run_next (Input.control (some c)) is p h.0 (run-controls is before after h.1 (ground arith))
  run-controls (Input.update u ∷ is) before after h e p =
      run_next (Input.update u) is p h.0 (run-controls is before after h.1 e)
  run-controls (Input.conn_event v ∷ is) before after h e p =
      run_next (Input.conn_event v) is p h.0 (run-controls is before after h.1 e)
  run-controls (Input.encoder f ∷ is) before after h e p =
      run_next (Input.encoder f) is p h.0 (run-controls is before after h.1 e)
  run-controls (Input.timeout ∷ is) before after h e p =
      run_next Input.timeout is p h.0 (run-controls is before after h.1 e)

  -- If one of the calls on a new controller was `shutdown` and was accepted, then a player that
  -- takes all that was queued, with any updates, connection events, frames and timers in between and
  -- while its handles are held, ends shut down.
  pub calls-shutdown :
      (cs : List (Control A.OpusStream)) (s : Controller C A.OpusStream)
      (before after : List (Control A.OpusStream)) (is : Inputs) (p : Player A)
      → C.queued s ≡ []
      → (calls cs s).0 ≡ before ++ Control.shutdown ∷ after
      → controls_of is ≡ C.queued (calls cs s).1
      → All IsOpen is
      → (run is p).0.state ≡ State.shutdown
  calls-shutdown cs s before after is p new accepted taken held =
      run-controls is before after held
        (taken ∙ (calls-queued cs s ∙ (ap (λ q. q ++ (calls cs s).0) new ∙ accepted))) p
