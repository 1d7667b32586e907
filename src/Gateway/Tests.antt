-- ===== src/Gateway/Tests.antt =====
-- gateway.rs: a concrete outside, and the theorems at it.
use discord_async_rs.Prelude.{
  ℕ, ◌+◌, Bool, true, false, Option, none, some, List, [], ◌∷◌, Result, ok, err, ◌≡◌, ◌↔◌, refl,
  if◌then◌else◌, ◌==◌,
}
use discord_async_rs.Gateway.{GatewayApi, Payload, opening, connector_new}
use discord_async_rs.Gateway.Handshake.{Item, Opened, Wire, Answers, connect, connect_exact}
use discord_async_rs.Gateway.Stream.{Inner, Poll, ready, Gateway, polls, ends}

-- Event 0 is a `Hello`, event 1 a `Ready`, event 2 an invalid session.
abbrev pub api : GatewayApi
api = record {
  Event = ℕ;
  Application = ℕ;
  User = ℕ;
  Intents = ℕ;
  WsError = ℕ;
  CloseFrame = ℕ;
  SerdeError = ℕ;
  ClientCommand = ℕ;
  connection_closed = 0;
  expect_hello = λ e. if e == 0 then some 41250 else none;
  expect_ready =
      λ e. if e == 1 then some (record { session_id = "s"; application = 5; user = 6 }) else none;
  is_invalid_session = λ e. e == 2;
}

abbrev pub payload : Option ℕ → ℕ → Payload api
payload n e = record { sequence = n; event = e }

-- The socket connects and takes everything, and these items arrive.
abbrev pub wire : List (Item api) → Wire api
wire items = record { dial = ok tt; incoming = items; send = λ c. ok tt }

abbrev opened : Opened api
opened = record { heartbeat_interval = 41250; event = 1; incoming = [] }

connect_exact_example :
    (connect (connector_new "t" 3) (wire (ok (payload none 0) ∷ ok (payload (some 1) 1) ∷ []))
      ≡ (opening (connector_new "t" 3) ∷ [], ok opened))
    ↔ Answers
        (connector_new "t" 3)
        (wire (ok (payload none 0) ∷ ok (payload (some 1) 1) ∷ []))
        opened
connect_exact_example =
    connect_exact (connector_new "t" 3) (wire (ok (payload none 0) ∷ ok (payload (some 1) 1) ∷ []))
      opened

-- A connection that gives two items, then an error of the socket, then items again.
countdown : ℕ → Poll (Option (Result ℕ Bool)) × ℕ
countdown n = (if n == 2 then ready (some (err true)) else ready (some (ok n)), n + 1)

abbrev inner : Inner
inner = record { Conn = ℕ; Item = ℕ; Failure = Bool; is_ws = λ b. b; poll_next = countdown }

abbrev gateway : Gateway inner
gateway = record { conn = 0; finished = false }

polls-gateway :
    polls 5 gateway
    ≡ ready (some (ok 0))
      ∷ ready (some (ok 1))
      ∷ ready (some (err true))
      ∷ ready none
      ∷ ready none
      ∷ []
unfolding polls ends countdown
polls-gateway = refl
