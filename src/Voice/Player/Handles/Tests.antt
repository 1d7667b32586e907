-- ===== src/Voice/Player/Handles/Tests.antt =====
-- voice/player.rs: the theorem on the controller at a concrete channel and player.
use discord_async_rs.Prelude.{
  true, false, some, List, [], ◌∷◌, ◌++◌, length, ltb, if◌then◌else◌, ◌≡◌, refl, arith,
}
use discord_async_rs.Voice.Messages.{State, Control, Update}
use discord_async_rs.Voice.Player.{Input}
use discord_async_rs.Voice.Player.Run.{run}
use discord_async_rs.Voice.Player.Tests.{api, playing}
use discord_async_rs.Voice.Player.Handles.{ChannelApi, Fifo, shutdown, play, stop}
use discord_async_rs.Voice.Player.Handles.Accepted.{Inputs, call, calls, calls-shutdown}

-- A channel with room for two.
abbrev channel : ChannelApi
channel = record {
  Sender = λ T. List T;
  try_send = λ t s. if ltb (length s) 2 then (true, s ++ t ∷ []) else (false, s);
  queued = λ s. s;
}

channel-Fifo : Fifo channel
channel-Fifo = record { taken = λ t s e. ground arith; refused = λ t s e. ground arith }

abbrev inputs : Inputs channel channel-Fifo api
inputs =
    Input.control (some (Control.play 9))
    ∷ Input.update (some Update.guild_offline)
    ∷ Input.control (some Control.shutdown)
    ∷ Input.timeout
    ∷ []

calls-shutdown_example : (run inputs playing).0.state ≡ State.shutdown
unfolding calls call shutdown play stop
calls-shutdown_example =
    calls-shutdown channel channel-Fifo api (Control.play 9 ∷ Control.shutdown ∷ Control.stop ∷ [])
      [] (Control.play 9 ∷ []) [] inputs playing refl refl refl (refl, (refl, (refl, (tt, tt))))
