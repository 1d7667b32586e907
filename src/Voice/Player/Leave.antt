-- ===== src/Voice/Player/Leave.antt =====
-- voice/player.rs: how the player moves to another channel, is kicked, times out, lives through an
-- outage of its guild, and shuts down.
use discord_async_rs.Prelude.{ℕ, none, some, ◌≡◌, ◌≢◌, ◌⊎◌, arith, [], ◌∷◌, ◌++◌}
use discord_async_rs.Voice.Messages.{VoiceState, State, Control, Update, Event, Listener, Sleep}
use discord_async_rs.Voice.Player.Run.{on_timeout, step, run}
use discord_async_rs.Voice.Player.Invariant.{slots}
use discord_async_rs.Voice.Player.Connect.{IsOurs, go_to, parting, Inputs}
use discord_async_rs.Voice.Player.{PlayerApi, Player, Effect, Input, on_update, on_control}

module _ {O F S : Type 0} where
  abbrev pub offline : Input O F S
  offline = Input.update (some Update.guild_offline)

  abbrev pub online : Input O F S
  online = Input.update (some Update.guild_online)

module _ {A : PlayerApi} where
  -- Nothing of a connection is left.
  abbrev pub IsCleared : Player A → Type 0
  IsCleared p =
      (p.voice_send ≡ none)
      × (p.token ≡ none)
      × (p.endpoint ≡ none)
      × ((A.take Listener p.conn_event_recv).0 ≡ none)
      × ((A.take A.OpusStream p.encoder).0 ≡ none)

  -- A connected player that is moved waits, its timer armed, for the server of its new channel,
  -- and hands its stream back. One that is kicked is idle, and hands its stream back.
  pub moved_or_kicked :
      (p : Player A) (u : VoiceState)
      → p.state ≡ State.connected
      → IsOurs p u
      → let r = on_update (Update.voice_state_update u) p in
        let stream = (A.take A.OpusStream p.encoder).0 in
        IsCleared r.0
        × (r.0.channel_id ≡ u.channel_id)
        × (r.0.session_id ≡ some u.session_id)
        × (((c : ℕ) × (u.channel_id ≡ some c)
              × (r.0.state ≡ State.connecting)
              × ((A.take Sleep r.0.connect_timeout).0 ≡ some (record { secs = 5 }))
              × (r.1 ≡ Effect.emit (Event.reconnecting stream) ∷ []))
            ⊎ ((u.channel_id ≡ none)
                × (r.0.state ≡ State.idle)
                × (r.1 ≡ Effect.emit (Event.disconnected stream) ∷ [])))
  unfolding on_update
  moved_or_kicked p u e ours = ground (arith, slots p)

  -- The timer of a connecting player leaves it idle, with nothing of the connection left: it asks
  -- to leave and reports the error. At any other time the timer changes nothing but itself.
  pub on_timeout_lem :
      (p : Player A)
      → ((p.state ≡ State.connecting)
          × ((on_timeout p).0.state ≡ State.idle)
          × IsCleared (on_timeout p).0
          × ((on_timeout p).1 ≡ go_to p none ∷ Effect.emit Event.connect_error ∷ []))
        ⊎ ((p.state ≢ State.connecting)
            × (on_timeout p
                ≡ (record p { connect_timeout = A.completed Sleep p.connect_timeout }, [])))
  unfolding on_timeout
  on_timeout_lem p = ground (arith, slots p)

  -- At an outage of the guild the player drops its connection and keeps its channel. If the guild is
  -- back before the timer of the outage is out, it asks for the channel again; if the timer is out
  -- first, it gives the channel up, and is idle when the guild is back.
  pub outage_rejoins :
      (p : Player A) (c : ℕ)
      → p.state ≢ State.shutdown
      → p.channel_id ≡ some c
      → let r = run (offline ∷ online ∷ []) p in
        IsCleared r.0
        × (r.0.state ≡ State.connecting)
        × (r.0.channel_id ≡ some c)
        × (r.1 ≡ parting p Event.reconnecting ++ go_to p (some c) ∷ [])
        × (let late = run (offline ∷ Input.timeout ∷ online ∷ []) p in
            (late.0.state ≡ State.idle) × (late.0.channel_id ≡ none))
  unfolding run step on_update on_timeout
  outage_rejoins p c live e = ground (
    arith,
    A.take-take A.OpusStream p.encoder,
    A.take-clear Listener p.conn_event_recv,
    A.is_empty-take Listener (A.clear Listener p.conn_event_recv),
  )

  -- A player that is not shut down ends its loop on `shutdown`, whatever would follow: it reads
  -- nothing more, nothing of a connection is left, and it asks to leave after telling the listener
  -- of the connection that it had.
  pub run-shutdown :
      (p : Player A) (is : Inputs A)
      → p.state ≢ State.shutdown
      → let r = run (Input.control (some Control.shutdown) ∷ is) p in
        (r.2 ≡ is)
        × (r.0.state ≡ State.shutdown)
        × IsCleared r.0
        × (r.1 ≡ parting p Event.disconnected ++ go_to p none ∷ [])
  unfolding run step on_control
  run-shutdown p [] h = ground (arith, slots p)
  run-shutdown p (i ∷ is) h = ground (arith, slots p)
