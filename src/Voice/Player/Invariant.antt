-- ===== src/Voice/Player/Invariant.antt =====
-- voice/player.rs: what holds of the player between any two rounds of its loop.
use discord_async_rs.Prelude.{
  ℕ, Bool-cases, inl, inr, Bool, true, false, Option, none, some, is_some, ◌≡◌, refl, arith,
}
use discord_async_rs.Voice.Messages.{
  State, Control, Update, ConnectionEvent, Listener, Sleep, VoiceState, is_shutdown,
  VoiceServerUpdate,
}
use discord_async_rs.Voice.Player.Run.{on_conn_event, on_encoded, on_timeout, step, IsEnabled}
use discord_async_rs.Voice.Player.{
  PlayerApi, Player, Effects, Input, clear_connection, on_update, on_control, on_voice_state,
  open_connection, new, on_voice_server, on_guild_online, on_guild_offline, is_foreign, Encoded,
}

some_fst {ℓ κ} : {X : Type ℓ} {Y : Type κ} {a b : X × Y} → some a ≡ some b → a.0 ≡ b.0
some_fst e = cc

module _ {A : PlayerApi} where
  -- The state, the connection, the timer, the frame sender and the encoder agree.
  abbrev pub Agrees : Player A → State → Type 0
  Agrees p State.idle =
      (p.voice_send ≡ none)
      × ((A.take A.OpusStream p.encoder).0 ≡ none)
      × ((A.take Listener p.conn_event_recv).0 ≡ none)
      × (p.channel_id ≡ none)
  Agrees p State.connecting =
      (p.voice_send ≡ none)
      × ((A.take A.OpusStream p.encoder).0 ≡ none)
      × (is_some (A.take Sleep p.connect_timeout).0 ≡ true)
  Agrees p State.connected =
      (is_some p.voice_send ≡ true)
      × (is_some (A.take Listener p.conn_event_recv).0 ≡ true)
      × ((A.take Sleep p.connect_timeout).0 ≡ none)
  Agrees p State.shutdown =
      (p.voice_send ≡ none)
      × ((A.take A.OpusStream p.encoder).0 ≡ none)
      × ((A.take Listener p.conn_event_recv).0 ≡ none)
      × (p.channel_id ≡ none)

  abbrev pub Inv : Player A → Type 0
  Inv p = Agrees p p.state

  -- What the slots of the player hold after `clear_connection`.
  pub slots :
      (p : Player A)
      → ((A.take A.OpusStream (A.take A.OpusStream p.encoder).1).0 ≡ none)
        × ((A.take Listener (A.clear Listener p.conn_event_recv)).0 ≡ none)
        × ((A.take Sleep (A.set Sleep p.connect_timeout (record { secs = 5 }))).0
            ≡ some (record { secs = 5 }))
  slots p = (
    A.take-take A.OpusStream p.encoder,
    A.take-clear Listener p.conn_event_recv,
    A.take-set Sleep p.connect_timeout (record { secs = 5 }),
  )

  pub clear_connection-Agrees :
      (reconnect : Bool) (p : Player A) → Inv (clear_connection reconnect p).0
  unfolding clear_connection
  clear_connection-Agrees true p = (
    refl,
    A.take-take A.OpusStream p.encoder,
    rw (A.take-set Sleep p.connect_timeout (record { secs = 5 })),
  )
  clear_connection-Agrees false p =
      (refl, A.take-take A.OpusStream p.encoder, A.take-clear Listener p.conn_event_recv, refl)

  open_connection-Inv : (p : Player A) → Inv p → Inv (open_connection p).0
  unfolding open_connection
  open_connection-Inv p v = ground arith

  on_voice_state-Inv : (u : VoiceState) (p : Player A) → Inv p → Inv (on_voice_state u p).0
  unfolding on_voice_state
  on_voice_state-Inv u p v = ground (arith, slots p)

  on_voice_server-Inv : (u : VoiceServerUpdate) (p : Player A) → Inv p → Inv (on_voice_server u p).0
  unfolding on_voice_server
  on_voice_server-Inv u p v = ground (arith, slots p)

  on_guild_offline-Inv : (p : Player A) → Inv p → Inv (on_guild_offline p).0
  unfolding on_guild_offline
  on_guild_offline-Inv p v = ground (arith, slots p)

  on_guild_online-Inv : (p : Player A) → Inv p → Inv (on_guild_online p).0
  unfolding on_guild_online
  on_guild_online-Inv p v = ground arith

  pub on_update-Inv : (u : Update) (p : Player A) → Inv p → Inv (on_update u p).0
  unfolding on_update
  on_update-Inv (Update.voice_state_update u) p v =
      elim (Bool-cases (is_foreign p.guild_id p.user_id u)) [
        | inl e ↦ rw e v
        | inr e ↦ rw e (open_connection-Inv (on_voice_state u p).0 (on_voice_state-Inv u p v))
      ]
  on_update-Inv (Update.voice_server_update u) p v =
      open_connection-Inv (on_voice_server u p).0 (on_voice_server-Inv u p v)
  on_update-Inv Update.guild_online p v =
      open_connection-Inv (on_guild_online p).0 (on_guild_online-Inv p v)
  on_update-Inv Update.guild_offline p v =
      open_connection-Inv (on_guild_offline p).0 (on_guild_offline-Inv p v)
  on_update-Inv Update.session_invalidated p v = open_connection-Inv p v

  play-Inv :
      (stream : A.OpusStream) (p : Player A) → Inv p → Inv (on_control (Control.play stream) p).0
  unfolding on_control
  play-Inv stream p v = ground arith

  stop-Inv : (p : Player A) → Inv p → Inv (on_control Control.stop p).0
  unfolding on_control
  stop-Inv p v = ground (arith, A.take-take A.OpusStream p.encoder)

  pub on_control-Inv : (c : Control A.OpusStream) (p : Player A) → Inv p → Inv (on_control c p).0
  unfolding on_control
  on_control-Inv (Control.connect channel_id) p v = ground (arith, slots p)
  on_control-Inv Control.disconnect p v = clear_connection-Agrees false p
  on_control-Inv Control.shutdown p v = clear_connection-Agrees false p
  on_control-Inv (Control.play stream) p v = play-Inv stream p v
  on_control-Inv Control.stop p v = stop-Inv p v

  on_conn_event-Inv :
      (e : Option (ConnectionEvent A.FrameSender)) (p : Player A)
      → Inv p
      → is_some (A.take Listener p.conn_event_recv).0 ≡ true
      → Inv (on_conn_event e p).0
  unfolding on_conn_event
  on_conn_event-Inv (some ConnectionEvent.connected) p v h = v
  on_conn_event-Inv (some (ConnectionEvent.voice_frame_sender s)) p v h =
      (refl, h, A.take-clear Sleep p.connect_timeout)
  on_conn_event-Inv none p v h = clear_connection-Agrees false p

  on_encoded-Inv : (f : Encoded A.Frame) (p : Player A) → Inv p → Inv (on_encoded f p).0
  unfolding on_encoded
  on_encoded-Inv (Encoded.frame f) p v = v
  on_encoded-Inv Encoded.failed p v = v
  on_encoded-Inv Encoded.finished p v = ground (arith, A.take-clear A.OpusStream p.encoder)

  on_timeout-Inv :
      (p : Player A)
      → Inv p
      → is_some (A.take Sleep p.connect_timeout).0 ≡ true
      → Inv (on_timeout p).0
  unfolding on_timeout
  on_timeout-Inv p v h = ground (arith, slots p)

  step-Inv :
      (i : Input A.OpusStream A.Frame A.FrameSender) (p q : Player A) (out : Effects A)
      → Inv p
      → IsEnabled p i
      → step i p ≡ some (q, out)
      → Inv q
  unfolding step
  step-Inv (Input.update none) p q out v h e = cc
  step-Inv (Input.update (some u)) p q out v h e = rw (← some_fst e) (on_update-Inv u p v)
  step-Inv (Input.control none) p q out v h e = cc
  step-Inv (Input.control (some c)) p q out v h e = rw (← some_fst e) (on_control-Inv c p v)
  step-Inv (Input.conn_event c) p q out v h e = rw (← some_fst e) (on_conn_event-Inv c p v h)
  step-Inv (Input.encoder f) p q out v h e = rw (← some_fst e) (on_encoded-Inv f p v)
  step-Inv Input.timeout p q out v h e = rw (← some_fst e) (on_timeout-Inv p v h)

  -- The players that a loop starting at `p` passes through.
  pub data Reach (p : Player A) : Player A → Type 0 where
    here : Reach p p
    next :
        {q r : Player A} {out : Effects A} (i : Input A.OpusStream A.Frame A.FrameSender)
        → Reach p q
        → is_shutdown q.state ≡ false
        → IsEnabled q i
        → step i q ≡ some (r, out)
        → Reach p r

  Reach-Inv : {p q : Player A} → Inv p → Reach p q → Inv q
  Reach-Inv v here = v
  Reach-Inv v (next {q} {r} {out} i before _ h e) = step-Inv i q r out (Reach-Inv v before) h e

new-Inv : (A : PlayerApi) (guild_id user_id : ℕ) → Inv (new A guild_id user_id)
unfolding new
new-Inv A guild_id user_id = (refl, A.take-empty A.OpusStream, A.take-empty Listener, refl)

-- A new player, through any sequence of updates, controls, connection events, frames and
-- timeouts: it has a frame sender exactly while connected; it plays nothing unless connected; it
-- has its timer armed while connecting and not while connected; its connection is live while
-- connected, and gone while idle or shut down, when it has no channel either.
pub Reach-new-Inv :
    (A : PlayerApi) (guild_id user_id : ℕ) (p : Player A) → Reach (new A guild_id user_id) p → Inv p
Reach-new-Inv A guild_id user_id p r = Reach-Inv (new-Inv A guild_id user_id) r
