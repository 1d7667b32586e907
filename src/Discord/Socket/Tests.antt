-- ===== src/Discord/Socket/Tests.antt =====
-- discord.rs over codec/mod.rs: the theorem at a concrete websocket and serde.
use Prim.Native.String.{len}
use discord_async_rs.Prelude.{
  ℕ, false, none, some, String, List, [], ◌∷◌, ◌++◌, map, Result, ok, err, ◌≡◌, if◌then◌else◌, ◌==◌,
}
use discord_async_rs.Gateway.{Payload, Command, GatewayEvent}
use discord_async_rs.Gateway.Tests.{api, payload}
use discord_async_rs.Gateway.Stream.{polls, conn_polls}
use discord_async_rs.Codec
use discord_async_rs.Codec.Polls.{socket}
use discord_async_rs.Codec.Items.{items, opened}
use discord_async_rs.Discord.{Turn, turns}
use discord_async_rs.Discord.Sequence.{heard}
use discord_async_rs.Discord.Socket.{payloads, last_number, codec, carried, turns-carried}

abbrev to_string : Command api → Result String ℕ
to_string c = ok "command"

-- A text has its length for its number, and the event 4.
abbrev from_str : String → Result (Payload api) ℕ
from_str s = if len s == 0 then err 3 else ok (payload (some (len s)) 4)

abbrev order : List (Turn api)
order = Turn.read none ∷ Turn.heartbeat none ∷ Turn.read none ∷ []

turns-carried_example :
    let C = codec Codec.Tests.codec to_string from_str in
    let incoming = items C (polls 6 (opened C 0 (record { file = none }))) in
    let (s, out, end) =
      turns order (record { sequence = 0; shutdown = false; closed = none; incoming = incoming }) in
    (read : List (Payload api)) × (carried Codec.Tests.codec to_string from_str
        (conn_polls (socket C) 6 0)
      ≡ read ++ payloads s.incoming)
    × (heard out ≡ map (λ p. GatewayEvent.event p.event) read)
    × (s.sequence ≡ last_number 0 read)
turns-carried_example =
    turns-carried Codec.Tests.codec to_string from_str 6 0 (record { file = none }) order 0
