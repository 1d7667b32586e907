-- ===== src/Voice/Gateway.antt =====
-- voice/gateway.rs: the gateway of a voice connection. The connection is the list of the items that
-- it will give; its stream and sink are in Socket. The reader and the writer run at once: a run is a
-- sequence of turns, each of one of them, in an order from outside.
pub mod Handshake
pub mod Turns
pub mod Carries
pub mod Whole
pub mod Socket
pub mod Texts
mod Tests
use Prim.Native.String.{◌++◌}
use discord_async_rs.Prelude.{
  ℕ, Bool, true, false, Option, none, some, is_some, String, List, [], ◌∷◌, Result, ok, err,
  if◌then◌else◌, ◌+◌, suc,
}
use discord_async_rs.Gateway.{GatewayApi, Error}
use discord_async_rs.Voice.Messages.{Credentials}

-- discord_types::voice and the standard library.
pub record VoiceApi : Type 1 where
  pub Event : Type 0
  pub Ready : Type 0
  pub Addr : Type 0
  -- The heartbeat interval in milliseconds.
  pub expect_hello : Event → Option ℕ
  pub expect_ready : Event → Option Ready
  pub expect_resumed : Event → Option (Unit {0})
  pub is_heartbeat_ack : Event → Bool
  pub ready : Ready → Event
  pub resumed : Event
  pub ip_to_string : Addr → String
  pub port : Addr → ℕ
  pub trim_end_matches : String → String → String

-- `SpeakingFlags`.
pub record Speaking : Type 0 where
  pub microphone : Bool
  pub priority : Bool
  pub delay : ℕ
  pub ssrc : ℕ

pub record SelectProtocol : Type 0 where
  pub protocol : String
  pub address : String
  pub port : ℕ
  pub mode : String

pub data Command : Type 0 where
  identify : ℕ → ℕ → String → String → Command
  resume : ℕ → String → String → Command
  heartbeat : ℕ → Command
  speaking : Speaking → Command
  select_protocol : SelectProtocol → Command

-- A boxed error: of the gateway, an event of another kind, a channel whose receiver is gone.
pub data Failure (A : GatewayApi) : Type 0 where
  gateway : Error A → Failure A
  unexpected_event send : Failure A

-- The sender of a channel; whether the receiver was still there.
pub record SenderApi : Type 1 where
  pub Sender : Type 0
  pub send : Command → Sender → Bool × Sender

module _ (S : SenderApi) where
  -- `Controller::speaking`.
  unfoldable pub send_speaking : ℕ → Bool → S.Sender → Bool × S.Sender
  send_speaking ssrc priority =
      S.send (
        Command.speaking
          (record { microphone = true; priority = priority; delay = 0; ssrc = ssrc }))

  -- `Controller::select_protocol`.
  unfoldable pub send_select_protocol :
      (V : VoiceApi) → V.Addr → String → S.Sender → Bool × S.Sender
  send_select_protocol V addr mode = S.send (
      Command.select_protocol (record {
        protocol = "udp";
        address = V.ip_to_string addr;
        port = V.port addr;
        mode = mode;
      }))

abbrev pub url : VoiceApi → String → String
url V endpoint = "wss://" ++ (V.trim_end_matches ":443" endpoint ++ "/?v=4")

-- The first command on a connection.
unfoldable pub opening : Credentials → Bool → Command
opening cred again =
    if again
    then Command.resume cred.guild_id cred.session_id cred.token
    else Command.identify cred.guild_id cred.user_id cred.session_id cred.token
