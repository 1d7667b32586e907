-- ===== src/Voice/Player/Handles.antt =====
-- voice/player.rs: the handles `Controller` and `Updater`. The channel of the crate futures is a
-- parameter.
pub mod Accepted
mod Tests
use discord_async_rs.Prelude.{ℕ, Bool, true, false, List, [], ◌∷◌, ◌++◌, ◌≡◌}
use discord_async_rs.Voice.Messages.{Control, Update, VoiceState, VoiceServerUpdate}

pub record ChannelApi : Type 1 where
  pub Sender : Type 0 → Type 0
  -- Whether the channel has room and a receiver, and the sender behind it.
  pub try_send : {T : Type 0} → T → Sender T → Bool × Sender T
  -- What the receiver has yet to take.
  pub queued : {T : Type 0} → Sender T → List T

-- A channel keeps what it takes, in order, and nothing else.
pub record Fifo (C : ChannelApi) : Type 1 where
  pub taken :
      {T : Type 0} (t : T) (s : C.Sender T)
      → (C.try_send t s).0 ≡ true
      → C.queued (C.try_send t s).1 ≡ C.queued s ++ t ∷ []
  pub refused :
      {T : Type 0} (t : T) (s : C.Sender T)
      → (C.try_send t s).0 ≡ false
      → C.queued (C.try_send t s).1 ≡ C.queued s

module _ (C : ChannelApi) where
  module _ (S : Type 0) where
    abbrev pub Controller : Type 0
    Controller = C.Sender (Control S)

    unfoldable pub connect : ℕ → Controller → Bool × Controller
    connect channel_id = C.try_send (Control.connect channel_id)

    unfoldable pub disconnect : Controller → Bool × Controller
    disconnect = C.try_send Control.disconnect

    unfoldable pub shutdown : Controller → Bool × Controller
    shutdown = C.try_send Control.shutdown

    unfoldable pub play : S → Controller → Bool × Controller
    play stream = C.try_send (Control.play stream)

    unfoldable pub stop : Controller → Bool × Controller
    stop = C.try_send Control.stop

  abbrev pub Updater : Type 0
  Updater = C.Sender Update

  unfoldable pub guild_online : Updater → Bool × Updater
  guild_online = C.try_send Update.guild_online

  unfoldable pub guild_offline : Updater → Bool × Updater
  guild_offline = C.try_send Update.guild_offline

  unfoldable pub session_invalidated : Updater → Bool × Updater
  session_invalidated = C.try_send Update.session_invalidated

  unfoldable pub server_update : VoiceServerUpdate → Updater → Bool × Updater
  server_update u = C.try_send (Update.voice_server_update u)

  unfoldable pub state_update : VoiceState → Updater → Bool × Updater
  state_update u = C.try_send (Update.voice_state_update u)
