-- ===== src/Voice/Player.antt =====
-- voice/player.rs: the player task of a guild. An operation returns the new player and, in order,
-- what it handed to the outside; what the other ends of the channels do is not part of the model,
-- and no result of a send changes what the player does.
-- `OpusStream`, `Frame` and `FrameSender` are the types that voice/opus.rs and voice/socket.rs give.
pub mod Run
pub mod Invariant
pub mod Connect
pub mod Tests
pub mod Streams
pub mod Leave
pub mod Handles
use discord_async_rs.Prelude.{
  ℕ, Bool, true, false, not, ◌&&◌, ◌||◌, Option, none, some, is_some, is_none, opt_eq, String, List,
  [], ◌∷◌, ◌++◌, ◌==◌, if◌then◌else◌,
}
use discord_async_rs.Fuse.{FuseApi}
use discord_async_rs.Voice.Messages.{
  Credentials, VoiceState, VoiceServerUpdate, UpdateVoiceState, State, is_connecting, is_connected,
  Control, Update, Event, ConnectionEvent, Listener, Sleep,
}

-- What the encoder yields when it is polled to an item, or to its end.
pub data Encoded (Frame : Type 0) : Type 0 where
  frame : Frame → Encoded Frame
  failed finished : Encoded Frame

-- Which branch of the `select!` completes, and with what. `none` is a closed channel.
pub data Input (OpusStream Frame FrameSender : Type 0) : Type 0 where
  update : Option Update → Input OpusStream Frame FrameSender
  control : Option (Control OpusStream) → Input OpusStream Frame FrameSender
  conn_event : Option (ConnectionEvent FrameSender) → Input OpusStream Frame FrameSender
  encoder : Encoded Frame → Input OpusStream Frame FrameSender
  timeout : Input OpusStream Frame FrameSender

-- What the player hands to the outside: an event to its listener, a command to the client, the
-- credentials to a connection task, a frame to the socket.
pub data Effect (OpusStream Frame FrameSender : Type 0) : Type 0 where
  emit : Event OpusStream → Effect OpusStream Frame FrameSender
  command : UpdateVoiceState → Effect OpusStream Frame FrameSender
  spawn : Credentials → Effect OpusStream Frame FrameSender
  forward : FrameSender → Frame → Effect OpusStream Frame FrameSender

-- What the player takes from other code.
pub record PlayerApi : Type 1 where
  pub fuse : FuseApi
  pub open fuse use *
  pub OpusStream : Type 0
  pub Frame : Type 0
  pub FrameSender : Type 0

pub record Player (A : PlayerApi) : Type 0 where
  pub guild_id : ℕ
  pub user_id : ℕ
  pub state : State
  pub channel_id : Option ℕ
  pub session_id : Option String
  pub token : Option String
  pub endpoint : Option String
  pub conn_event_recv : A.Fuse Listener
  pub connect_timeout : A.Fuse Sleep
  pub voice_send : Option A.FrameSender
  pub encoder : A.Fuse A.OpusStream

abbrev pub Effects : PlayerApi → Type 0
Effects A = List (Effect A.OpusStream A.Frame A.FrameSender)

abbrev pub Act : PlayerApi → Type 0
Act A = Player A → Player A × Effects A

-- The `?` ladder of `server_credentials`.
pub credentials : ℕ → ℕ → Option String → Option String → Option String → Option Credentials
credentials guild_id user_id (some session_id) (some token) (some endpoint) = some (record {
  guild_id = guild_id;
  user_id = user_id;
  session_id = session_id;
  token = token;
  endpoint = endpoint;
})
credentials guild_id user_id _ _ _ = none

-- `u.user_id != self.user_id || u.guild_id != Some(self.guild_id)`
pub is_foreign : ℕ → ℕ → VoiceState → Bool
is_foreign guild_id user_id u =
    not (u.user_id == user_id) || not (opt_eq u.guild_id (some guild_id))

pub new : (A : PlayerApi) → ℕ → ℕ → Player A
new A guild_id user_id = record {
  guild_id = guild_id;
  user_id = user_id;
  state = State.idle;
  channel_id = none;
  session_id = none;
  token = none;
  endpoint = none;
  conn_event_recv = A.empty Listener;
  connect_timeout = A.empty Sleep;
  voice_send = none;
  encoder = A.empty A.OpusStream;
}

module _ {A : PlayerApi} where
  -- One operation after another.
  infixl 5 ◌>>◌
  abbrev pub ◌>>◌ : Act A → Act A → Act A
  ◌>>◌ a b p = ((b (a p).0).0, (a p).1 ++ (b (a p).0).1)

  abbrev pub assign : (Player A → Player A) → Act A
  assign f p = (f p, [])

  abbrev pub unless : Bool → Act A → Act A
  unless b a p = if b then (p, []) else a p

  pub emit_event : Event A.OpusStream → Act A
  emit_event e p = (p, emit e ∷ [])

  pub server_credentials : Player A → Option Credentials
  unfolding credentials
  server_credentials p = credentials p.guild_id p.user_id p.session_id p.token p.endpoint

  pub update_voice_state : Option ℕ → Act A
  update_voice_state channel_id p = (
    p,
    command (record {
      guild_id = p.guild_id;
      channel_id = channel_id;
      self_mute = false;
      self_deaf = false;
    })
        ∷ [],
  )

  -- The stream is taken out of the encoder first, and goes with the event.
  pub clear_connection : Bool → Act A
  unfolding is_connected emit_event
  clear_connection reconnect p =
      let stream = (A.take A.OpusStream p.encoder).0 in
      (
        record p {
          encoder = (A.take A.OpusStream p.encoder).1;
          state = if reconnect then State.connecting else State.idle;
          connect_timeout =
              if reconnect
              then A.set Sleep p.connect_timeout (record { secs = 5 })
              else p.connect_timeout;
          channel_id = none;
          session_id = none;
          token = none;
          endpoint = none;
          conn_event_recv = A.clear Listener p.conn_event_recv;
          voice_send = none;
        },
        if is_connected p.state
            then emit (if reconnect then Event.reconnecting stream else Event.disconnected stream)
              ∷ []
            else [],
      )

  -- `on_update`, behind the match.
  pub open_connection : Act A
  unfolding is_connecting server_credentials
  open_connection p =
      if is_connecting p.state && A.is_empty Listener p.conn_event_recv
      then elim (server_credentials p) [
        | some cred ↦ (
          record p { conn_event_recv = A.set Listener p.conn_event_recv (record { cred = cred }) },
          spawn cred ∷ [],
        )
        | none ↦ (p, [])
      ]
      else (p, [])

  -- The arms of `on_update`'s match.
  pub on_voice_state : VoiceState → Act A
  unfolding is_connecting clear_connection
  on_voice_state u p =
      (unless (is_connecting p.state) (clear_connection (is_some u.channel_id))
          >> assign λ q. record q { channel_id = u.channel_id; session_id = some u.session_id })
        p

  pub on_voice_server : VoiceServerUpdate → Act A
  unfolding is_connected clear_connection update_voice_state
  on_voice_server u p =
      (assign (λ q. record q { token = some u.token; endpoint = u.endpoint })
          >> unless (not (is_connected p.state && is_none u.endpoint))
              (clear_connection false >> update_voice_state none))
        p

  pub on_guild_online : Act A
  unfolding is_connecting update_voice_state
  on_guild_online p =
      unless (not (is_connecting p.state && is_some p.channel_id)) (update_voice_state p.channel_id)
        p

  pub on_guild_offline : Act A
  unfolding clear_connection
  on_guild_offline p =
      (clear_connection true >> assign λ q. record q { channel_id = p.channel_id }) p

  pub on_update : Update → Act A
  unfolding is_foreign on_voice_state on_voice_server on_guild_online on_guild_offline
      open_connection
  on_update (Update.voice_state_update u) p =
      unless (is_foreign p.guild_id p.user_id u) (on_voice_state u >> open_connection) p
  on_update (Update.voice_server_update u) p = (on_voice_server u >> open_connection) p
  on_update Update.guild_online p = (on_guild_online >> open_connection) p
  on_update Update.guild_offline p = (on_guild_offline >> open_connection) p
  on_update Update.session_invalidated p = open_connection p

  pub on_control : Control A.OpusStream → Act A
  unfolding is_connected clear_connection update_voice_state emit_event
  on_control (Control.connect channel_id) p =
      if is_connected p.state && opt_eq p.channel_id (some channel_id)
      then emit_event (Event.connected channel_id) p
      else (clear_connection true >> update_voice_state (some channel_id)) p
  on_control Control.disconnect p = (clear_connection false >> update_voice_state none) p
  on_control Control.shutdown p =
      (clear_connection false
          >> update_voice_state none
          >> assign λ q. record q { state = State.shutdown })
        p
  on_control (Control.play stream) p =
      if is_connected p.state
      then (assign (λ q. record q { encoder = A.set A.OpusStream q.encoder stream })
            >> emit_event Event.playing)
          p
      else emit_event (Event.stopped stream) p
  on_control Control.stop p = elim (A.take A.OpusStream p.encoder).0 [
    | some stream ↦
        (record p { encoder = (A.take A.OpusStream p.encoder).1 }, emit (Event.stopped stream) ∷ [])
    | none ↦ (record p { encoder = (A.take A.OpusStream p.encoder).1 }, [])
  ]
