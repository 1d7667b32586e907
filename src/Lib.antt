-- ===== src/Lib.antt =====
-- Verification library of discord-async-rs, a client of the chat service Discord.
--
-- The program. A task (src/discord.rs) keeps a connection to Discord's gateway (src/gateway.rs) and
-- hands what it reads to a callback. A guild (src/guild.rs) keeps a cache up to date from its
-- events. The HTTP client (src/client.rs) sends requests, among them the responses that
-- src/interaction.rs builds. With the voice feature, a player (src/voice/player.rs) joins a
-- channel with voice states and opens a voice connection (src/voice/connection.rs); the frames
-- that src/voice/opus.rs makes from the samples of src/voice/pcm.rs go out through
-- src/voice/socket.rs. Both gateways speak JSON through src/codec.
--
-- The files and what they model.
--   Prelude          Boolean tests, lists, results and maps that the others share
--   Fuse             the slot of the crate async-fuse, a parameter with laws
--   Discord          `start_discord`, `connect`, `read`, `write`: an attempt is a list of turns of
--                    reader, writer and shutdown signal in any order; the signal closes the channel
--                    of the commands, which then gives what was queued and its end; the callback's
--                    calls and the commands sent are effects
--   Gateway          `Error`, `Connector` and its `connect`, the fused stream `Gateway` and its sink;
--                    a connection is the list of the items that it will give, and Discord.Socket
--                    and Voice.Gateway.Texts make that list from the messages of a websocket
--   Codec            `JsonCodec` with its journal, and `Connection` with its stream and its sink
--   Discord.Builder  `Builder` with its intents, and what `build` waits for
--   Discord.Guilds   `Discord`, and the guilds that it makes
--   Guild            `Guild`: `update`, `next`, `new`, `member_role_position`; maps are association
--                    lists, and View looks at them as functions, and at roles as sets
--   Client           `Error`, `OptionalResult`, the verbs, `decode` and `check_response_code`, the
--                    calls and the builders; a call is its request and the function from the answer
--                    to the result
--   Interaction      `ResponseBuilder`
--   Errors           the errors of src/lib.rs and src/voice.rs, and the texts of errors
--   Voice.Messages, Voice.Player
--                    `State`, `Control`, `Update`, `Event` and `Player`: each branch of the `select!`
--                    of `run` is a function, a round is one completed branch, and what is sent is
--                    a list of effects; Player.Handles has `Controller` and `Updater`
--   Voice.Gateway    the handshake, `read`, `write` and `Controller` of the voice gateway: a run is a
--                    list of turns of reader and writer in any order, where the stream may go on
--                    without an item; its child Socket has the stream and the sink
--   Voice.Connection `Connection`: `event`, `socket_event` and the rounds of `run`
--   Voice.Socket     the bytes of the discovery and of the packets, and in its child Session
--                    `Socket::run`: a run is a list of turns of `read` and `write` in any order
--   Voice.System     the task of the connection with that of the socket that it spawns and the channels
--                    between them: a run is a list of moves of the two in any order; the channel of
--                    events is not bounded
--   Voice.Pcm        `PcmCodec`, `frame_sample_size`
--   Voice.Opus       `OpusStream`, and in its child Encoder `OpusEncoder`
--   Voice.Source     `PcmFile`, `FfmpegStream` and the streams that play them
-- The definitions stand in the parent file of a part, the proofs in its children, and the theorems
-- at concrete inputs in its Tests.
--
-- Choices. Ids and machine integers are natural numbers; where the code wraps, `% 2 ^ w` is
-- written. Times are in microseconds. Loops over what a stream gives recurse on the list of it.
-- Decoding all frames recurses on fuel, one more than the number of bytes, which is enough since a
-- frame takes at least one byte. The results of channel sends that the code ignores are left out.
-- reqwest, serde, discord_types, the cipher, the opus encoder, timers, sockets and async-fuse are
-- parameters; what the code relies on is a named law of them, which an instance in Fuse or Tests
-- meets.
--
-- The polls of a source are a list; an encoder that is polled `n` times gives everything if `n` is
-- at least the length of that list.
--
-- Not modelled: the websocket and serde behind src/codec, files, processes and their framing behind
-- src/voice/source, accessors that return a field, src/message.rs (commented out).
pub mod Prelude
pub mod Fuse
pub mod Voice
pub mod Gateway
pub mod Codec
pub mod Discord
pub mod Guild
pub mod Client
pub mod Errors
pub mod Interaction
