-- ===== src/Voice/Messages.antt =====
-- The data that voice/player.rs exchanges with its handles, its connection and the client. Guild,
-- channel and user ids are numbers. Of the types of the crate discord_types only the fields that
-- the code names are kept.
use discord_async_rs.Prelude.{ℕ, Bool, true, false, Option, String}

-- voice/gateway.rs.
pub record Credentials : Type 0 where
  pub guild_id : ℕ
  pub user_id : ℕ
  pub session_id : String
  pub token : String
  pub endpoint : String

pub record VoiceState : Type 0 where
  pub guild_id : Option ℕ
  pub channel_id : Option ℕ
  pub user_id : ℕ
  pub session_id : String

pub record VoiceServerUpdate : Type 0 where
  pub token : String
  pub endpoint : Option String

-- The command that `Client::update_voice_state` sends.
pub record UpdateVoiceState : Type 0 where
  pub guild_id : ℕ
  pub channel_id : Option ℕ
  pub self_mute : Bool
  pub self_deaf : Bool

pub data State : Type 0 where
  idle connecting connected shutdown : State

unfoldable pub is_connecting : State → Bool
is_connecting State.connecting = true
is_connecting _ = false

unfoldable pub is_connected : State → Bool
is_connected State.connected = true
is_connected _ = false

unfoldable pub is_shutdown : State → Bool
is_shutdown State.shutdown = true
is_shutdown _ = false

pub data Control (OpusStream : Type 0) : Type 0 where
  connect : ℕ → Control OpusStream
  disconnect shutdown : Control OpusStream
  play : OpusStream → Control OpusStream
  stop : Control OpusStream

pub data Update : Type 0 where
  guild_online guild_offline session_invalidated : Update
  voice_server_update : VoiceServerUpdate → Update
  voice_state_update : VoiceState → Update

pub data Event (OpusStream : Type 0) : Type 0 where
  connected : ℕ → Event OpusStream
  connect_error playing finished : Event OpusStream
  stopped : OpusStream → Event OpusStream
  disconnected reconnecting : Option OpusStream → Event OpusStream

-- voice/connection.rs: what a connection tells its player.
pub data ConnectionEvent (FrameSender : Type 0) : Type 0 where
  connected : ConnectionEvent FrameSender
  voice_frame_sender : FrameSender → ConnectionEvent FrameSender

-- The receiving end of the event channel of the connection that was made with `cred`.
pub record Listener : Type 0 where
  pub cred : Credentials

-- A timer of so many seconds.
pub record Sleep : Type 0 where
  pub secs : ℕ
