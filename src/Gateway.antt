-- ===== src/Gateway.antt =====
-- gateway.rs: the errors, the connector and the opening handshake of the main gateway.
-- The crates discord_types, async_tungstenite and serde_json are parameters.
pub mod Handshake
pub mod Stream
pub mod Sink
pub mod Tests
use discord_async_rs.Prelude.{
  ℕ, Bool, true, false, Option, none, some, String, List, [], ◌∷◌, Result, ok, err, ◌>>=◌, ok_or,
}

pub record Ready (Application User : Type 0) : Type 0 where
  pub session_id : String
  pub application : Application
  pub user : User

pub record Properties : Type 0 where
  pub os : String
  pub browser : String
  pub device : String

pub record GatewayApi : Type 1 where
  pub Event : Type 0
  pub Application : Type 0
  pub User : Type 0
  pub Intents : Type 0
  pub WsError : Type 0
  pub CloseFrame : Type 0
  pub SerdeError : Type 0
  -- What a bot sends through its client.
  pub ClientCommand : Type 0
  pub connection_closed : WsError
  -- The heartbeat interval in milliseconds.
  pub expect_hello : Event → Option ℕ
  pub expect_ready : Event → Option (Ready Application User)
  pub is_invalid_session : Event → Bool

pub data Error (A : GatewayApi) : Type 0 where
  shutdown : Error A
  ws : A.WsError → Error A
  unexpected_event timeout : Error A
  close : Option A.CloseFrame → Error A
  decode : Error A
  serde : A.SerdeError → Error A

pub record Payload (A : GatewayApi) : Type 0 where
  pub sequence : Option ℕ
  pub event : A.Event

pub data Command (A : GatewayApi) : Type 0 where
  identify : String → Properties → A.Intents → Command A
  resume : String → String → ℕ → Command A
  heartbeat : ℕ → Command A
  client : A.ClientCommand → Command A

pub data Token : Type 0 where
  new : String → Token
  resume : String → String → ℕ → Token

pub data Encoding : Type 0 where
  json : Encoding

pub record Connector (A : GatewayApi) : Type 0 where
  pub version : ℕ
  pub encoding : Encoding
  pub compression : Bool
  pub properties : Option Properties
  pub token : Token
  pub intents : A.Intents

pub data GatewayEvent (A : GatewayApi) : Type 0 where
  offline online session_invalidated : GatewayEvent A
  event : A.Event → GatewayEvent A

abbrev pub api_version : ℕ
api_version = 10

abbrev pub default_properties : Properties
default_properties = record {
  os = "linux";
  browser = "discord-async-rs";
  device = "discord-async-rs";
}

module _ {A : GatewayApi} where
  unfoldable pub is_shutdown : Error A → Bool
  is_shutdown Error.shutdown = true
  is_shutdown _ = false

  unfoldable pub connector_new : String → A.Intents → Connector A
  connector_new token intents = record {
    version = api_version;
    encoding = Encoding.json;
    compression = false;
    properties = none;
    token = Token.new token;
    intents = intents;
  }

  unfoldable pub connector_resume : String → String → ℕ → A.Intents → Connector A
  connector_resume token session_id sequence intents = record {
    version = api_version;
    encoding = Encoding.json;
    compression = false;
    properties = none;
    token = Token.resume token session_id sequence;
    intents = intents;
  }

  unfoldable pub is_new : Connector A → Bool
  is_new c = elim c.token [ Token.new t ↦ true | Token.resume t s n ↦ false ]

  pub set_properties : Properties → Connector A → Connector A
  set_properties ps c = record c { properties = some ps }

  pub set_compression : Bool → Connector A → Connector A
  set_compression b c = record c { compression = false }

  pub json_encoding : Connector A → Connector A
  json_encoding c = record c { encoding = Encoding.json }

  -- The first message of the client.
  unfoldable pub opening : Connector A → Command A
  opening c = elim c.token [
    | Token.new token ↦
        Command.identify token (elim c.properties [ none ↦ default_properties | some ps ↦ ps ])
          c.intents
    | Token.resume token session_id seq ↦ Command.resume token session_id seq
  ]
