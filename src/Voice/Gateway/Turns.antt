-- ===== src/Voice/Gateway/Turns.antt =====
-- voice/gateway.rs: `connect`, `write` and `read`.
use discord_async_rs.Prelude.{
  ℕ, Bool, true, Option, none, some, List, [], ◌∷◌, ◌++◌, Result, ok, err, ◌+◌, if◌then◌else◌,
}
use discord_async_rs.Gateway.{GatewayApi, Error}
use discord_async_rs.Voice.Messages.{Credentials}
use discord_async_rs.Voice.Gateway.{VoiceApi, Command, Failure}
use discord_async_rs.Voice.Gateway.Handshake.{Item, Wire, Opened}
use discord_async_rs.Voice.Gateway.Handshake

-- An event for the voice connection; for the socket, the command `Heartbeat` with its count, or a
-- command of the controller.
pub data Effect (V : VoiceApi) : Type 0 where
  event : V.Event → Effect V
  beat : ℕ → Effect V
  send : Command → Effect V

-- One completed wait: the reader's next item, with whether the receiver takes an event; a tick of
-- the heartbeat, or a command, with the answer of the socket; the end of the commands, with the
-- answer to the closing.
pub data Turn (A : GatewayApi) : Type 0 where
  read : Bool → Turn A
  heartbeat : Option (Error A) → Turn A
  command : Command → Option (Error A) → Turn A
  commands_end : Option (Error A) → Turn A

abbrev pub Outcome : GatewayApi → Type 0
Outcome A = Result (Unit {0}) (Failure A)

-- The reader with its unread items and whether the stream ends behind them, the writer with its count, and how each has ended, if it has.
pub record Live (A : GatewayApi) (V : VoiceApi) : Type 0 where
  pub incoming : List (Item A V)
  pub over : Bool
  pub reader : Option (Outcome A)
  pub count : ℕ
  pub writer : Option (Outcome A)

-- `gateway.send(command).await?` and `gateway.close().await?`
abbrev pub refused : {A : GatewayApi} → Option (Error A) → Option (Outcome A)
refused none = none
refused (some e) = some (err (Failure.gateway e))

abbrev pub closed : {A : GatewayApi} → Option (Error A) → Option (Outcome A)
closed none = some (ok tt)
closed (some e) = some (err (Failure.gateway e))

module _ {A : GatewayApi} {V : VoiceApi} where
  -- The body of `read`'s loop. An open stream without an item goes on waiting. A closing frame stays unread: nothing is read behind it.
  unfoldable pub read_item : Bool → List (Item A V) → Live A V → Live A V × List (Effect V)
  read_item taken [] s = (if s.over then record s { reader = some (ok tt) } else s, [])
  read_item taken (ok e ∷ rest) s =
      if V.is_heartbeat_ack e then (record s { incoming = rest }, []) else (
        record s { incoming = rest; reader = if taken then none else some (err Failure.send) },
        Effect.event e ∷ [],
      )
  read_item taken (err (Error.close frame) ∷ rest) s =
      (record s { reader = some (err (Failure.gateway (Error.close frame))) }, [])
  read_item taken (err e ∷ rest) s = (record s { incoming = rest }, [])

  -- A turn of one that has ended is none.
  unfoldable pub turn : Turn A → Live A V → Live A V × List (Effect V)
  turn (Turn.read taken) s = elim s.reader [
    | none ↦ read_item taken s.incoming s
    | some _ ↦ (s, [])
  ]
  turn (Turn.heartbeat answer) s = elim s.writer [
    | none ↦
        (record s { count = s.count + 1; writer = refused answer }, Effect.beat (s.count + 1) ∷ [])
    | some _ ↦ (s, [])
  ]
  turn (Turn.command c answer) s = elim s.writer [
    | none ↦ (record s { writer = refused answer }, Effect.send c ∷ [])
    | some _ ↦ (s, [])
  ]
  turn (Turn.commands_end answer) s = elim s.writer [
    | none ↦ (record s { writer = closed answer }, [])
    | some _ ↦ (s, [])
  ]

  unfoldable pub turns : List (Turn A) → Live A V → Live A V × List (Effect V)
  turns [] s = (s, [])
  turns (t ∷ ts) s =
      let (s', out) = turn t s in let (s'', later) = turns ts s' in (s'', out ++ later)

  -- `reader.and(writer)`, when both have ended.
  unfoldable pub joined : Live A V → Option (Outcome A)
  joined s = elim s.reader [
    | none ↦ none
    | some (err e) ↦ elim s.writer [ none ↦ none | some _ ↦ some (err e) ]
    | some (ok _) ↦ s.writer
  ]

  unfoldable pub live : Bool → List (Item A V) → Live A V
  live over incoming = record {
    incoming = incoming;
    over = over;
    reader = none;
    count = 0;
    writer = none;
  }

  -- What is handed out behind the handshake; `Err` of the handshake ends the task at once.
  unfoldable pub serve : Opened A V → List (Turn A) → Live A V × List (Effect V)
  unfolding live
  serve o ts =
      let first : V.Event = elim o.ready [ some r ↦ V.ready r | none ↦ V.resumed ] in
      let (s, out) = turns ts (live true o.incoming) in (s, Effect.event first ∷ out)

  unfoldable pub run :
      Credentials → Bool → Wire A V → List (Turn A) → List (Effect V) × Option (Outcome A)
  unfolding serve joined
  run cred resume w ts = elim (Handshake.connect A V cred resume w) [
    | err e ↦ ([], some (err e))
    | ok o ↦ let (s, out) = serve o ts in (out, joined s)
  ]
