-- ===== src/Voice/Player/Run.antt =====
-- voice/player.rs: `Player::run`, over the sequence of completed `select!` branches.
use discord_async_rs.Prelude.{
  true, false, Option, none, some, is_some, List, [], ◌∷◌, ◌++◌, ◌≡◌, if◌then◌else◌,
}
use discord_async_rs.Voice.Messages.{
  State, is_connecting, is_shutdown, Event, ConnectionEvent, Listener, Sleep,
}
use discord_async_rs.Voice.Player.{
  PlayerApi, Player, Effect, Effects, Act, Input, Encoded, ◌>>◌, assign, emit_event,
  clear_connection, update_voice_state, on_update, on_control,
}

module _ {A : PlayerApi} where
  unfoldable pub on_conn_event : Option (ConnectionEvent A.FrameSender) → Act A
  unfolding emit_event clear_connection
  on_conn_event (some ConnectionEvent.connected) p = (p, [])
  on_conn_event (some (ConnectionEvent.voice_frame_sender voice_send)) p = (
    record p {
      voice_send = some voice_send;
      state = State.connected;
      connect_timeout = A.clear Sleep p.connect_timeout;
    },
    elim p.channel_id [
      | some channel_id ↦ Effect.emit (Event.connected channel_id) ∷ []
      | none ↦ []
    ],
  )
  on_conn_event none p = clear_connection false p

  unfoldable pub on_encoded : Encoded A.Frame → Act A
  unfolding emit_event
  on_encoded (Encoded.frame f) p =
      (p, elim p.voice_send [ some c ↦ Effect.forward c f ∷ [] | none ↦ [] ])
  on_encoded Encoded.failed p = (p, [])
  on_encoded Encoded.finished p =
      (assign (λ q. record q { encoder = A.clear A.OpusStream q.encoder })
          >> emit_event Event.finished)
        p

  -- The timer was polled to its end before the branch runs.
  unfoldable pub on_timeout : Act A
  unfolding is_connecting clear_connection update_voice_state emit_event
  on_timeout p =
      (assign (λ q. record q { connect_timeout = A.completed Sleep q.connect_timeout })
          >> (if is_connecting p.state
              then assign (λ q. record q { connect_timeout = A.clear Sleep q.connect_timeout })
                >> clear_connection false
                >> update_voice_state none
                >> emit_event Event.connect_error
              else assign (λ q. q)))
        p

  -- One round of the loop; `none` is a `break`.
  unfoldable pub step :
      Input A.OpusStream A.Frame A.FrameSender → Player A → Option (Player A × Effects A)
  step (Input.update none) p = none
  step (Input.update (some u)) p = some (on_update u p)
  step (Input.control none) p = none
  step (Input.control (some c)) p = some (on_control c p)
  step (Input.conn_event e) p = some (on_conn_event e p)
  step (Input.encoder f) p = some (on_encoded f p)
  step Input.timeout p = some (on_timeout p)

  -- The player when it stops or waits, what it handed out, and the branches that it did not take.
  unfoldable pub run :
      List (Input A.OpusStream A.Frame A.FrameSender)
      → Player A
      → Player A × Effects A × List (Input A.OpusStream A.Frame A.FrameSender)
  unfolding is_shutdown
  run [] p = (p, [], [])
  run (i ∷ is) p =
      let after = run is in
      if is_shutdown p.state then (p, [], i ∷ is) else elim (step i p) [
        | none ↦ (p, [], is)
        | some (q, out) ↦ let (r, later, rest) = after q in (r, out ++ later, rest)
      ]

  -- A branch of the `select!` completes only if its slot holds something.
  abbrev pub IsEnabled : Player A → Input A.OpusStream A.Frame A.FrameSender → Type 0
  IsEnabled p (Input.conn_event e) = is_some (A.take Listener p.conn_event_recv).0 ≡ true
  IsEnabled p (Input.encoder f) = is_some (A.take A.OpusStream p.encoder).0 ≡ true
  IsEnabled p Input.timeout = is_some (A.take Sleep p.connect_timeout).0 ≡ true
  IsEnabled p _ = Unit
