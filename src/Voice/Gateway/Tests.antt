-- ===== src/Voice/Gateway/Tests.antt =====
-- voice/gateway.rs: the theorems at concrete runs.
use Prim.Native.String.{len}
use discord_async_rs.Prelude.{
  ℕ, String, Result, true, none, some, List, [], ◌∷◌, ◌++◌, ok, err, ◌≡◌, ◌==◌, if◌then◌else◌, refl,
  arith, is_some, ◌&&◌,
}
use discord_async_rs.Gateway.{Error}
use discord_async_rs.Gateway.Tests.{api as main_api}
use discord_async_rs.Voice.Messages.{Credentials}
use discord_async_rs.Gateway.Stream.{conn_polls}
use discord_async_rs.Codec
use discord_async_rs.Codec.Polls.{socket}
use discord_async_rs.Codec.Items.{items}
use discord_async_rs.Voice.Gateway.Socket.{polls}
use discord_async_rs.Voice.Gateway.Texts.{codec, told, opened, stops, is_over, turns-told}
use discord_async_rs.Voice.Gateway.{VoiceApi, Command}
use discord_async_rs.Voice.Gateway.Handshake.{Item, Wire, Opened}
use discord_async_rs.Voice.Gateway.Turns.{Effect, Turn, turns, joined, live, serve}
use discord_async_rs.Voice.Gateway.Whole.{ends_writer}
use discord_async_rs.Voice.Gateway.Carries.{carried, beats, upto, events, serve-Carries}

-- Events are numbers: 0 is the acknowledgement, 1 `Hello`, 2 `Ready`, 3 `Resumed`.
abbrev api : VoiceApi
api = record {
  Event = ℕ;
  Ready = ℕ;
  Addr = ℕ;
  expect_hello = λ e. if e == 1 then some 41250 else none;
  expect_ready = λ e. if e == 2 then some 7 else none;
  expect_resumed = λ e. if e == 3 then some tt else none;
  is_heartbeat_ack = λ e. e == 0;
  ready = λ r. 2;
  resumed = 3;
  ip_to_string = λ a. "10.0.0.1";
  port = λ a. a;
  trim_end_matches = λ suffix s. s;
}

abbrev cred : Credentials
cred = record { guild_id = 1; user_id = 2; session_id = "s"; token = "t"; endpoint = "e" }

abbrev given_items : List (Item main_api api)
given_items = ok 5 ∷ ok 0 ∷ err Error.decode ∷ ok 6 ∷ err (Error.close none) ∷ []

abbrev wire : Wire main_api api
wire = record { dial = λ u. ok tt; incoming = ok 1 ∷ ok 2 ∷ given_items; send = λ c. ok tt }

abbrev shaken : Opened main_api api
shaken = record { heartbeat_interval = 41250; ready = some 7; incoming = given_items }

abbrev order : List (Turn main_api)
order =
    Turn.read true
    ∷ Turn.heartbeat none
    ∷ Turn.read true
    ∷ Turn.read true
    ∷ Turn.heartbeat none
    ∷ Turn.read true
    ∷ Turn.read true
    ∷ Turn.commands_end none
    ∷ Turn.read true
    ∷ []

serve-Carries_example :
    let (s, out) = serve shaken order in
    (out' : List (Effect api)) × (out ≡ Effect.event 2 ∷ out')
    × (carried out' ++ events main_api api s.incoming ≡ events main_api api given_items)
    × (beats out' ≡ upto s.count)
serve-Carries_example = serve-Carries main_api api shaken order

abbrev to_string : Command → Result String ℕ
to_string c = ok "command"

-- A text stands for the event of its length.
abbrev from_str : String → Result ℕ ℕ
from_str s = if len s == 0 then err 3 else ok (len s)

abbrev seven : List (Turn main_api)
seven =
    Turn.read true
    ∷ Turn.read true
    ∷ Turn.heartbeat none
    ∷ Turn.read true
    ∷ Turn.commands_end none
    ∷ Turn.read true
    ∷ Turn.read true
    ∷ Turn.read true
    ∷ Turn.read true
    ∷ []

turns-told_example :
    let C = codec Codec.Tests.codec api to_string from_str in
    let given =
      polls C 6 (opened Codec.Tests.codec api to_string from_str 0 (record { file = none })) in
    let r =
      turns seven
        (live {V = api} (stops Codec.Tests.codec api to_string from_str given) (items C given)) in
    let rs = conn_polls (socket C) 6 0 in
    (carried r.1 ≡ told Codec.Tests.codec api to_string from_str rs)
    × (is_some r.0.reader ≡ is_over Codec.Tests.codec api to_string from_str rs)
    × (is_some (joined r.0)
        ≡ (is_over Codec.Tests.codec api to_string from_str rs && ends_writer seven))
turns-told_example =
    turns-told Codec.Tests.codec api to_string from_str 6 0 (record { file = none }) seven
      (refl, (refl, (tt, (refl, (tt, (refl, (refl, (refl, (refl, tt))))))))) (omega arith)
