-- ===== src/Voice/System.antt =====
-- voice/connection.rs with the task of voice/socket.rs that it spawns, and the channels between
-- them. A run is a list of moves, each of one of the two, in an order from outside: what Discord's
-- gateway and server give, and the frames of the player, come with the move.
pub mod Invariant
pub mod Deliveries
pub mod Steps
pub mod Turns
pub mod Outputs
pub mod Moves
pub mod Sealed
pub mod Up
pub mod Played
mod Tests
use discord_async_rs.Prelude.{
  ℕ, Bool, true, false, not, ◌&&◌, ◌||◌, Option, none, some, is_some, is_none, List, [], ◌∷◌, ◌++◌,
  map, Result, ok, err, if◌then◌else◌,
}
use discord_async_rs.Voice.Messages.{Credentials}
use discord_async_rs.Voice.Connection.{
  ConnectionApi, GatewayEvent, SocketEvent, Connection, Input, round, new, start,
}
use discord_async_rs.Voice.Connection as Link
use discord_async_rs.Voice.Socket.{SocketApi, Error, resolve}
use discord_async_rs.Voice.Socket.Session.{Live, Turn, Outside, Outcome, turn, discover}
use discord_async_rs.Voice.Socket.Session

-- The events of the voice gateway that the connection does not read, and `is_ready_kind`.
pub record Others : Type 1 where
  pub Other : Type 0
  pub is_ready_kind : Other → Bool
  pub ready_is_ready_kind : Bool
  pub description_is_ready_kind : Bool

-- The connection and the socket share keys and addresses. The frame sender is that of the one
-- socket.
abbrev pub api : SocketApi → Others → ConnectionApi
api S E = record {
  Key = S.Key;
  Addr = S.Addr;
  FrameSender = Unit {0};
  Other = E.Other;
  is_ready_kind = E.is_ready_kind;
  ready_is_ready_kind = E.ready_is_ready_kind;
  description_is_ready_kind = E.description_is_ready_kind;
}

-- The task of the socket: not spawned, before the discovery, in its loops, ended.
pub data Task (S : SocketApi) : Type 0 where
  absent : Task S
  asking : S.Addr → ℕ → Task S
  live : ℕ → Live S → Task S
  over : Task S

-- The connection and whether its task goes on; the socket; the channel of the key, that of the
-- socket's events, and whether the frame sender was passed on.
pub record System (S : SocketApi) (E : Others) : Type 0 where
  pub connection : Connection (api S E)
  pub goes_on : Bool
  pub task : Task S
  pub key : Option S.Key
  pub events : List (SocketEvent (api S E))
  pub forwarded : Bool

-- The connection takes an event of the gateway, with what the host of a socket that it opens
-- resolves to, or the next event of the socket; the socket asks for its address, takes the next
-- packet, the key, a frame or the end of the frames.
pub data Move (S : SocketApi) (E : Others) : Type 0 where
  gateway : Option (GatewayEvent (api S E)) → Result (List S.Addr) Error → Move S E
  event : Move S E
  ask : Outside S → Move S E
  read : Result ℕ Error → Move S E
  key : Move S E
  frame : List ℕ → Bool → Move S E
  frames_end : Move S E

-- What both hand to the outside: the commands and reports of the connection, and packets.
pub data Output (S : SocketApi) (E : Others) : Type 0 where
  effect : Link.Effect (api S E) → Output S E
  packet : List ℕ → Output S E

module _ {S : SocketApi} where
  -- Whether the socket still waits for its key.
  abbrev pub takes_key : Task S → Bool
  takes_key (Task.asking server ssrc) = true
  takes_key (Task.live ssrc l) = is_none l.key
  takes_key _ = false

  abbrev pub is_live : Task S → Bool
  is_live (Task.live ssrc l) = true
  is_live _ = false

  abbrev pub is_over : Task S → Bool
  is_over Task.over = true
  is_over _ = false

module _ (S : SocketApi) where
  -- Where a socket is opened to, if it is.
  abbrev pub opens : Result (List S.Addr) Error → Option S.Addr
  opens answer = elim (resolve S answer) [ ok addr ↦ some addr | err e ↦ none ]

module _ {S : SocketApi} {E : Others} where
  -- What an effect of the connection does to the socket.
  unfoldable pub deliver : Option S.Addr → Link.Effect (api S E) → System S E → System S E
  deliver server (Link.Effect.bind_socket ip port ssrc) s = elim server [
    | none ↦ s
    | some addr ↦ record s { task = Task.asking addr ssrc }
  ]
  deliver server (Link.Effect.send_key k) s =
      if takes_key s.task then record s { key = some k } else s
  deliver server (Link.Effect.forward_sender t) s = record s { forwarded = true }
  deliver server _ s = s

  unfoldable pub deliver_all :
      Option S.Addr → List (Link.Effect (api S E)) → System S E → System S E
  deliver_all server [] s = s
  deliver_all server (e ∷ out) s = deliver_all server out (deliver server e s)

  -- A round of the connection.
  unfoldable pub hear :
      Input (api S E) → Option S.Addr → System S E → System S E × List (Output S E)
  unfolding deliver_all
  hear i server s =
      let (go, c, out) =
        round (record { input = i; key_taken = takes_key s.task; socket_opens = is_some server })
          s.connection in
      if s.goes_on
      then (
        deliver_all server out (record s { connection = c; goes_on = go }),
        map Output.effect out,
      )
      else (s, [])

  -- What the socket puts into the channel of its events, and what it sends.
  abbrev pub events_of : List (Session.Effect S) → List (SocketEvent (api S E))
  events_of [] = []
  events_of (Session.Effect.addr_discovery addr ∷ out) =
      SocketEvent.addr_discovery addr ∷ events_of out
  events_of (Session.Effect.voice_frame_sender ∷ out) =
      SocketEvent.voice_frame_sender tt ∷ events_of out
  events_of (Session.Effect.voice_frame len ∷ out) = SocketEvent.voice_frame len ∷ events_of out
  events_of (Session.Effect.packet p ∷ out) = events_of out

  abbrev pub packets_of : List (Session.Effect S) → List (Output S E)
  packets_of [] = []
  packets_of (Session.Effect.packet p ∷ out) = Output.packet p ∷ packets_of out
  packets_of (_ ∷ out) = packets_of out

  -- A turn of the socket's loops. A connection that has ended takes no events.
  unfoldable pub act : Turn S → System S E → System S E × List (Output S E)
  act t s = elim s.task [
    | Task.live ssrc l ↦
        let (l', out, end) = turn S ssrc t l in
        (
          record s {
            task = elim end [ none ↦ Task.live ssrc l' | some _ ↦ Task.over ];
            events = if s.goes_on then s.events ++ events_of out else s.events;
          },
          packets_of out,
        )
    | _ ↦ (s, [])
  ]

  -- The address is found, or not.
  unfoldable pub report : ℕ → Result S.Addr Error → System S E → System S E × List (Output S E)
  report ssrc (err e) s = (record s { task = Task.over }, [])
  report ssrc (ok addr) s =
      if s.goes_on
      then (
        record s {
          task = Task.live ssrc (Session.start S);
          events = s.events ++ SocketEvent.addr_discovery addr ∷ [];
        },
        [],
      )
      else (record s { task = Task.over }, [])

  unfoldable pub step : Move S E → System S E → System S E × List (Output S E)
  unfolding hear act report
  step (Move.gateway e answer) s = hear (Input.gateway e) (opens S answer) s
  step Move.event s = elim s.events [
    | [] ↦ if is_over s.task then hear (Input.socket none) none s else (s, [])
    | e ∷ rest ↦ hear (Input.socket (some e)) none (record s { events = rest })
  ]
  step (Move.ask o) s = elim s.task [
    | Task.asking server ssrc ↦ report ssrc (discover S ssrc server o) s
    | _ ↦ (s, [])
  ]
  step (Move.read r) s = act (Turn.read r s.goes_on) s
  step Move.key s = elim s.key [
    | none ↦ if s.goes_on then (s, []) else act (Turn.key none false) s
    | some k ↦
        if takes_key s.task && is_live s.task
        then act (Turn.key (some k) s.goes_on) (record s { key = none })
        else (s, [])
  ]
  step (Move.frame f is_sent) s = if s.forwarded then act (Turn.frame f is_sent) s else (s, [])
  step Move.frames_end s = if s.forwarded || not s.goes_on then act Turn.frames_end s else (s, [])

  unfoldable pub runs : List (Move S E) → System S E → System S E × List (Output S E)
  unfolding step
  runs [] s = (s, [])
  runs (m ∷ ms) s = let (s', out) = step m s in let (s'', later) = runs ms s' in (s'', out ++ later)

  -- A connection whose `run` has begun.
  unfoldable pub begin : Credentials → System S E
  begin cred = record {
    connection = start (new cred);
    goes_on = true;
    task = Task.absent;
    key = none;
    events = [];
    forwarded = false;
  }
