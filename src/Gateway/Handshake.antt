-- ===== src/Gateway/Handshake.antt =====
-- gateway.rs: `Connector::connect`. The stream's items are a list, whose end is the end of the
-- stream; whether the socket connects and whether a send succeeds come from outside.
use discord_async_rs.Prelude.{
  ℕ, some, List, [], ◌∷◌, Result, ok, err, ◌>>=◌, ok_or, ◌≡◌, ◌↔◌, refl, arith,
}
use discord_async_rs.Gateway.{GatewayApi, Error, Payload, Command, Connector, opening}

abbrev pub Item : GatewayApi → Type 0
Item A = Result (Payload A) (Error A)

pub record Opened (A : GatewayApi) : Type 0 where
  pub heartbeat_interval : ℕ
  pub event : A.Event
  pub incoming : List (Item A)

-- The outside of one connection attempt.
pub record Wire (A : GatewayApi) : Type 0 where
  pub dial : Result (Unit {0}) (Error A)
  pub incoming : List (Item A)
  pub send : Command A → Result (Unit {0}) (Error A)

module _ {A : GatewayApi} where
  -- The macro `read_event!`. Of the payload only the event is kept.
  unfoldable pub read_event : List (Item A) → Result (A.Event × List (Item A)) (Error A)
  read_event [] = err (Error.ws A.connection_closed)
  read_event (ok p ∷ incoming) = ok (p.event, incoming)
  read_event (err e ∷ incoming) = err e

  unfoldable pub read_hello : List (Item A) → Result (ℕ × List (Item A)) (Error A)
  unfolding read_event
  read_hello incoming = do
    (event, rest) ← read_event incoming
    interval ← ok_or (A.expect_hello event) Error.unexpected_event
    ok (interval, rest)

  -- What follows `Hello`: the first message is sent, and one event awaited.
  unfoldable pub open_session :
      Connector A → Wire A → ℕ → List (Item A) → Result (Opened A) (Error A)
  unfolding read_event opening
  open_session c w interval incoming = do
    _ ← w.send (opening c)
    (event, rest) ← read_event incoming
    ok (record { heartbeat_interval = interval; event = event; incoming = rest })

  -- The messages that were handed to the socket, and the result.
  unfoldable pub connect : Connector A → Wire A → List (Command A) × Result (Opened A) (Error A)
  unfolding read_hello open_session
  connect c w = elim (w.dial >>= λ _. read_hello w.incoming) [
    | err e ↦ ([], err e)
    | ok (interval, rest) ↦ (opening c ∷ [], open_session c w interval rest)
  ]

  -- The socket connects and takes the message, and the first two items are payloads: a `Hello` and
  -- one more event.
  abbrev pub Answers : Connector A → Wire A → Opened A → Type 0
  Answers c w o =
      (hello : Payload A) × (first : Payload A) × (w.dial ≡ ok tt)
      × (w.incoming ≡ ok hello ∷ ok first ∷ o.incoming)
      × (A.expect_hello hello.event ≡ some o.heartbeat_interval)
      × (w.send (opening c) ≡ ok tt)
      × (o.event ≡ first.event)

  connect_sound :
      (c : Connector A) (w : Wire A) (o : Opened A) (is : List (Item A)) (log : List (Command A))
      → w.incoming ≡ is
      → connect c w ≡ (log, ok o)
      → Answers c w o × (log ≡ opening c ∷ [])
  unfolding connect
  connect_sound c w o [] log e h = ground arith
  connect_sound c w o (err x ∷ is) log e h = ground arith
  connect_sound c w o (ok hello ∷ []) log e h = ground arith
  connect_sound c w o (ok hello ∷ err x ∷ is) log e h = ground arith
  connect_sound c w o (ok hello ∷ ok first ∷ is) log e h = (
    (hello, first, ground arith, ground arith, ground arith, ground arith, ground arith),
    ground arith,
  )

  -- The handshake succeeds exactly when the socket connects, the first item is a `Hello`, the
  -- message is sent and one more event arrives. Then that event, the heartbeat interval and the
  -- unread items are returned, and the connector's opening command is all that was sent.
  pub connect_exact :
      (c : Connector A) (w : Wire A) (o : Opened A)
      → (connect c w ≡ (opening c ∷ [], ok o)) ↔ Answers c w o
  unfolding connect
  connect_exact c w o = (
    λ h. (connect_sound c w o w.incoming _ refl h).0,
    λ (hello, first, d, i, x, s, e). ground arith,
  )
