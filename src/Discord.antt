-- ===== src/Discord.antt =====
-- discord.rs: the task that keeps the bot connected. The reader and the writer of a connection run
-- at once: a connection is a sequence of turns, each of one of them, in an order from outside.
-- Whether a send succeeds and what the callback answers come with the turn.
pub mod Attempts
pub mod Sequence
pub mod Socket
pub mod Guilds
pub mod Builder
mod Tests
pub mod Drains
pub mod Resume
pub mod Drained
pub mod Told
use discord_async_rs.Prelude.{
  ℕ, Bool, true, false, Option, none, some, String, List, [], ◌∷◌, ◌++◌, map, Result, ok, err,
  if◌then◌else◌, is_none,
}
use discord_async_rs.Gateway.{
  GatewayApi, Ready, Error, is_shutdown, Payload, Command, Connector, connector_new,
  connector_resume, is_new, GatewayEvent,
}
use discord_async_rs.Gateway.Handshake.{Item, Opened, Wire}
use discord_async_rs.Gateway.Handshake

-- What the task hands to the outside: an event (or the final `None`) to the callback, the
-- application and the user to the builder, a command to the socket, a closing frame.
pub data Effect (A : GatewayApi) : Type 0 where
  callback : Option (GatewayEvent A) → Effect A
  init : A.Application → A.User → Effect A
  send : Command A → Effect A
  shutdown_frame : Effect A

abbrev pub Failure : GatewayApi → Type 0
Failure A = Option (Error A)

-- One completed wait of the reader or of the writer: the reader's next item and then the
-- callback's answer, a heartbeat with the answer of the socket, what the channel of the commands
-- gives while it is open and the answer to it, the shutdown signal with what is queued in the channel
-- that it closes.
pub data Turn (A : GatewayApi) : Type 0 where
  read : Failure A → Turn A
  heartbeat : Failure A → Turn A
  command : Option A.ClientCommand → Failure A → Turn A
  shutdown : List A.ClientCommand → Turn A

-- A live connection: the shared `sequence`, the writer's `shutdown`, what a closed channel of the
-- commands still holds, and the unread items.
pub record Live (A : GatewayApi) : Type 0 where
  pub sequence : ℕ
  pub shutdown : Bool
  pub closed : Option (List A.ClientCommand)
  pub incoming : List (Item A)

-- What outlives a connection: `session_id`, `sequence`, and whether `init_send` is still there.
pub record Session : Type 0 where
  pub session_id : Option String
  pub sequence : ℕ
  pub init_send : Bool

-- The outside of one attempt: the wire, the callback's answers, and the turns.
pub record Attempt (A : GatewayApi) : Type 0 where
  pub wire : Wire A
  pub on_online : Failure A
  pub on_first : Failure A
  pub on_invalidated : Failure A
  pub on_offline : Failure A
  pub turns : List (Turn A)
  -- `check_shutdown!` before the attempt and after it. It also breaks off behind a signal that the
  -- writer has taken.
  pub asked_before : Bool
  pub asked_after : Bool

-- `sequence.store`, if the payload has a number.
unfoldable pub store : Option ℕ → ℕ → ℕ
store none sequence = sequence
store (some seq) sequence = seq

module _ {A : GatewayApi} where
  -- The body of `read`'s loop.
  pub read_item : List (Item A) → Live A → Failure A → Live A × List (Effect A) × Failure A
  unfolding store
  read_item [] s answer = (s, [], some (Error.close none))
  read_item (ok p ∷ rest) s answer = (
    record s { sequence = store p.sequence s.sequence; incoming = rest },
    callback (some (GatewayEvent.event p.event)) ∷ [],
    answer,
  )
  read_item (err (Error.close frame) ∷ rest) s answer =
      (record s { incoming = rest }, [], some (Error.close frame))
  read_item (err e ∷ rest) s answer = (record s { incoming = rest }, [], none)

  -- The next command of the channel. A closed one gives what was queued, and then its end.
  pub recv : Option A.ClientCommand → Live A → Option A.ClientCommand × Live A
  recv given s = elim s.closed [
    | none ↦ (given, s)
    | some [] ↦ (none, s)
    | some (c ∷ cs) ↦ (some c, record s { closed = some cs })
  ]

  -- `command_recv.close()`
  pub close : List A.ClientCommand → Live A → Live A
  close queue s = elim s.closed [ none ↦ record s { closed = some queue } | some cs ↦ s ]

  pub turn : Turn A → Live A → Live A × List (Effect A) × Failure A
  unfolding read_item recv close
  turn (Turn.read answer) s = read_item s.incoming s answer
  turn (Turn.heartbeat answer) s = (s, send (Command.heartbeat s.sequence) ∷ [], answer)
  turn (Turn.command given answer) s =
      let (c, s') = recv given s in
      elim c [
        | none ↦ (s', [], some (if s'.shutdown then Error.shutdown else Error.close none))
        | some c ↦ (s', send (Command.client c) ∷ [], answer)
      ]
  turn (Turn.shutdown queue) s = (record (close queue s) { shutdown = true }, [], none)

  -- Until a turn fails. `none` at the end: both still run.
  pub turns : List (Turn A) → Live A → Live A × List (Effect A) × Failure A
  turns [] s = (s, [], none)
  turns (t ∷ ts) s =
      let (s', out, failure) = turn t s in
      elim failure [
        | some e ↦ (s', out, some e)
        | none ↦ let (s'', later, end) = turns ts s' in (s'', out ++ later, end)
      ]

  -- Behind the `select!` of `connect`.
  pub hang_up : Error A → Failure A → List (Effect A) × Error A
  unfolding is_shutdown
  hang_up e on_offline =
      if is_shutdown e
      then (shutdown_frame ∷ [], e)
      else (callback (some GatewayEvent.offline) ∷ [], elim on_offline [ none ↦ e | some e' ↦ e' ])

  -- The reader and the writer of an open connection, and the end.
  pub serve : Attempt A → Session → Opened A → Session × List (Effect A) × Failure A
  unfolding turns hang_up
  serve a s o =
      let live : Live A = record {
        sequence = s.sequence;
        shutdown = false;
        closed = none;
        incoming = o.incoming;
      } in
      let (end, out, failure) = turns a.turns live in
      let s' = record s { sequence = end.sequence } in
      elim failure [
        | none ↦ (s', out, none)
        | some e ↦ let (last, e') = hang_up e a.on_offline in (s', out ++ last, some e')
      ]
