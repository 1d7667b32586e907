-- ===== src/Codec.antt =====
-- codec/mod.rs and codec/json.rs: a websocket that carries JSON. The websocket (async_tungstenite),
-- serde_json and the file of the journal are parameters; writing to the file, of which the code
-- takes for granted that it succeeds, adds to its text.
pub mod Journal
pub mod Polls
pub mod Items
pub mod Traffic
pub mod Tests
use Prim.Native.String.{◌++◌}
use discord_async_rs.Prelude.{
  Bool, Option, none, some, String, List, [], ◌∷◌, Result, ok, err, map_err,
}
use discord_async_rs.Gateway.{GatewayApi, Error}
use discord_async_rs.Gateway.Stream.{Poll, ready, pending}

-- tungstenite's `Message`, as far as the code tells messages apart, and its closing frame.
pub data Message (A : GatewayApi) (Other : Type 0) : Type 0 where
  text : String → Message A Other
  close : Option A.CloseFrame → Message A Other
  other : Other → Message A Other

pub record CodecApi (A : GatewayApi) : Type 1 where
  -- What is sent and what is received, with serde's reading and writing of them.
  pub S : Type 0
  pub D : Type 0
  pub to_string : S → Result String A.SerdeError
  pub from_str : String → Result D A.SerdeError
  pub Other : Type 0
  pub Socket : Type 0
  pub poll_next : Socket → Poll (Option (Result (Message A Other) A.WsError)) × Socket
  pub poll_ready : Socket → Poll (Result (Unit {0}) A.WsError) × Socket
  pub start_send : Message A Other → Socket → Result (Unit {0}) A.WsError × Socket
  pub poll_flush : Socket → Poll (Result (Unit {0}) A.WsError) × Socket
  pub poll_close : Socket → Poll (Result (Unit {0}) A.WsError) × Socket
  -- `close` with the code `Normal` and this reason.
  pub close_normal : String → Socket → Result (Unit {0}) A.WsError × Socket
  -- `connect_async` under a timeout; `none`: the time has passed.
  pub connect_async : String → Option (Result Socket A.WsError)

-- `JsonCodec`: the text of the journal, if there is one.
pub record JsonCodec : Type 0 where
  pub file : Option String

pub record Connection {A : GatewayApi} (C : CodecApi A) : Type 0 where
  pub conn : C.Socket
  pub codec : JsonCodec

-- The `write_all`s behind `if let Some(file)`.
abbrev pub write : String → String → JsonCodec → JsonCodec
write tag s codec = elim codec.file [
  | none ↦ codec
  | some written ↦ record codec { file = some (written ++ (tag ++ (s ++ "\n"))) }
]

-- The file is opened to append: its text is kept.
unfoldable pub json_codec : Option String → JsonCodec
json_codec file = record { file = file }

module _ {A : GatewayApi} (C : CodecApi A) where
  unfoldable pub encode : C.S → JsonCodec → Result (Message A C.Other) (Error A) × JsonCodec
  encode command codec = elim (C.to_string command) [
    | err e ↦ (err (Error.serde e), codec)
    | ok s ↦ (ok (Message.text s), write "OUT: " s codec)
  ]

  unfoldable pub decode : Message A C.Other → JsonCodec → Result C.D (Error A) × JsonCodec
  decode (Message.text s) codec = (map_err Error.serde (C.from_str s), write "IN: " s codec)
  decode (Message.close frame) codec = (err (Error.close frame), codec)
  decode (Message.other m) codec = (err Error.decode, codec)

  unfoldable pub connect : String → JsonCodec → Result (Connection C) (Error A)
  connect request codec = elim (C.connect_async request) [
    | none ↦ err Error.timeout
    | some (err e) ↦ err (Error.ws e)
    | some (ok conn) ↦ ok (record { conn = conn; codec = codec })
  ]

  unfoldable pub shutdown : Connection C → Result (Unit {0}) (Error A) × Connection C
  shutdown c =
      let (res, conn) = C.close_normal "shutdown" c.conn in
      (map_err Error.ws res, record c { conn = conn })

  -- What `poll_next` makes of the result of the socket.
  unfoldable pub received :
      Poll (Option (Result (Message A C.Other) A.WsError))
      → JsonCodec
      → Poll (Option (Result C.D (Error A))) × JsonCodec
  received (ready (some (ok message))) codec =
      let (res, codec') = decode message codec in (ready (some res), codec')
  received (ready (some (err e))) codec = (ready (some (err (Error.ws e))), codec)
  received (ready none) codec = (ready none, codec)
  received pending codec = (pending, codec)

  unfoldable pub poll_next : Connection C → Poll (Option (Result C.D (Error A))) × Connection C
  poll_next c =
      let (polled, conn) = C.poll_next c.conn in
      let (res, codec) = received polled c.codec in (res, record { conn = conn; codec = codec })

  -- `map_err` of a poll.
  abbrev polled_err : Poll (Result (Unit {0}) A.WsError) → Poll (Result (Unit {0}) (Error A))
  polled_err (ready res) = ready (map_err Error.ws res)
  polled_err pending = pending

  unfoldable pub poll_ready : Connection C → Poll (Result (Unit {0}) (Error A)) × Connection C
  poll_ready c = let (res, conn) = C.poll_ready c.conn in (polled_err res, record c { conn = conn })

  unfoldable pub start_send : C.S → Connection C → Result (Unit {0}) (Error A) × Connection C
  start_send item c =
      let (encoded, codec) = encode item c.codec in
      elim encoded [
        | err e ↦ (err e, record c { codec = codec })
        | ok message ↦
            let (res, conn) = C.start_send message c.conn in
            (map_err Error.ws res, record { conn = conn; codec = codec })
      ]

  unfoldable pub poll_flush : Connection C → Poll (Result (Unit {0}) (Error A)) × Connection C
  poll_flush c = let (res, conn) = C.poll_flush c.conn in (polled_err res, record c { conn = conn })

  unfoldable pub poll_close : Connection C → Poll (Result (Unit {0}) (Error A)) × Connection C
  poll_close c = let (res, conn) = C.poll_close c.conn in (polled_err res, record c { conn = conn })
