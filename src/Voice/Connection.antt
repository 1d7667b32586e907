-- ===== src/Voice/Connection.antt =====
-- voice/connection.rs: a voice connection, between the voice gateway and the socket. The answers of
-- the outside, whether the socket takes the key and whether a socket can be opened, are given with
-- each round.
pub mod Once
pub mod Handshake
mod Tests
use text.Mathlib.Text.{◌==◌}
use discord_async_rs.Prelude.{
  ℕ, Bool, true, false, not, ◌&&◌, ◌||◌, Option, none, some, is_some, is_none, String, List, [],
  ◌∷◌, ◌++◌, if◌then◌else◌,
}
use discord_async_rs.Voice.Messages.{Credentials}

-- discord_types::voice, the fields that the code names.
pub record Ready : Type 0 where
  pub ssrc : ℕ
  pub ip : String
  pub port : ℕ
  pub modes : List String

pub record SessionDescription (Key : Type 0) : Type 0 where
  pub mode : String
  pub secret_key : Key

pub record ConnectionApi : Type 1 where
  pub Key : Type 0
  pub Addr : Type 0
  pub FrameSender : Type 0
  -- The other events of the gateway, and `is_ready_kind` of them.
  pub Other : Type 0
  pub is_ready_kind : Other → Bool
  pub ready_is_ready_kind : Bool
  pub description_is_ready_kind : Bool

pub data GatewayEvent (A : ConnectionApi) : Type 0 where
  ready : Ready → GatewayEvent A
  session_description : SessionDescription A.Key → GatewayEvent A
  other : A.Other → GatewayEvent A

pub data SocketEvent (A : ConnectionApi) : Type 0 where
  addr_discovery : A.Addr → SocketEvent A
  voice_frame_sender : A.FrameSender → SocketEvent A
  voice_frame : ℕ → SocketEvent A

pub data State : Type 0 where
  idle connecting connected : State

unfoldable pub is_connecting : State → Bool
is_connecting State.connecting = true
is_connecting _ = false

unfoldable pub is_connected : State → Bool
is_connected State.connected = true
is_connected _ = false

pub record Connection (A : ConnectionApi) : Type 0 where
  pub state : State
  pub cred : Credentials
  pub ready : Option Ready
  pub external_addr : Option A.Addr
  -- Whether there is a gateway controller, a key sender, and a listener of a socket.
  pub gw_controller : Bool
  pub key_send : Bool
  pub sock_event_recv : Bool

pub data Effect (A : ConnectionApi) : Type 0 where
  spawn_gateway : Credentials → Bool → Effect A
  connected : Effect A
  forward_sender : A.FrameSender → Effect A
  send_key : A.Key → Effect A
  select_protocol : A.Addr → String → Effect A
  speaking : ℕ → Bool → Effect A
  bind_socket : String → ℕ → ℕ → Effect A

abbrev pub encryption_mode : String
encryption_mode = "xsalsa20_poly1305"

-- `modes.iter().any(|x| x == ENCRYPTION_MODE)`
unfoldable pub is_supported : List String → Bool
is_supported [] = false
is_supported (m ∷ ms) = let rest = is_supported ms in if m == encryption_mode then true else rest

-- One completed branch of the `select!`, `none` for the end of its stream.
pub data Input (A : ConnectionApi) : Type 0 where
  gateway : Option (GatewayEvent A) → Input A
  socket : Option (SocketEvent A) → Input A

pub record Round (A : ConnectionApi) : Type 0 where
  pub input : Input A
  pub key_taken : Bool
  pub socket_opens : Bool

module _ {A : ConnectionApi} where
  unfoldable pub new : Credentials → Connection A
  new cred = record {
    state = State.idle;
    cred = cred;
    ready = none;
    external_addr = none;
    gw_controller = false;
    key_send = false;
    sock_event_recv = false;
  }

  unfoldable pub ssrc : Connection A → ℕ
  ssrc c = elim c.ready [ none ↦ 0 | some r ↦ r.ssrc ]

  unfoldable pub ready_kind : GatewayEvent A → Bool
  ready_kind (GatewayEvent.ready r) = A.ready_is_ready_kind
  ready_kind (GatewayEvent.session_description d) = A.description_is_ready_kind
  ready_kind (GatewayEvent.other o) = A.is_ready_kind o

  -- The match of `event`: whether to go on.
  unfoldable pub on_event :
      Bool → GatewayEvent A → Connection A → Bool × Connection A × List (Effect A)
  on_event key_taken (GatewayEvent.ready r) c =
      if is_supported r.modes then (true, record c { ready = some r }, []) else (false, c, [])
  on_event key_taken (GatewayEvent.session_description d) c =
      if c.key_send
      then (if d.mode == encryption_mode
          then (key_taken, record c { key_send = false }, Effect.send_key d.secret_key ∷ [])
          else (false, record c { key_send = false }, []))
      else (true, c, [])
  on_event key_taken (GatewayEvent.other o) c = (true, c, [])

  unfoldable pub when_ready : Bool → Connection A → Connection A × List (Effect A)
  when_ready kind c =
      if is_connecting c.state && (kind && is_some c.ready)
      then (record c { state = State.connected }, Effect.connected ∷ [])
      else (c, [])

  unfoldable pub event :
      Bool → GatewayEvent A → Connection A → Bool × Connection A × List (Effect A)
  event key_taken e c =
      let (go, c', out) = on_event key_taken e c in
      let (c'', out') = when_ready (ready_kind e) c' in
      if go then (true, c'', out ++ out') else (false, c', out)

  unfoldable pub socket_event : SocketEvent A → Connection A → Connection A × List (Effect A)
  socket_event (SocketEvent.addr_discovery addr) c =
      if is_none c.external_addr
      then (
        record c { external_addr = some addr },
        if c.gw_controller
            then Effect.select_protocol addr encryption_mode ∷ Effect.speaking (ssrc c) false ∷ []
            else [],
      )
      else (c, [])
  socket_event (SocketEvent.voice_frame_sender s) c = (c, Effect.forward_sender s ∷ [])
  socket_event (SocketEvent.voice_frame n) c = (c, [])

  -- Behind the `select!`.
  unfoldable pub open_socket : Bool → Connection A → Bool × Connection A × List (Effect A)
  open_socket opens c =
      if is_connected c.state && not c.sock_event_recv
      then elim c.ready [
        | none ↦ (false, c, [])
        | some r ↦
            if opens
            then (
              true,
              record c { key_send = true; sock_event_recv = true },
              Effect.bind_socket r.ip r.port r.ssrc ∷ [],
            )
            else (false, c, [])
      ]
      else (true, c, [])

  unfoldable pub select : Input A → Bool → Connection A → Bool × Connection A × List (Effect A)
  select (Input.gateway none) key_taken c = (false, c, [])
  select (Input.gateway (some e)) key_taken c = event key_taken e c
  select (Input.socket none) key_taken c = (false, c, [])
  select (Input.socket (some e)) key_taken c = let (c', out) = socket_event e c in (true, c', out)

  unfoldable pub round : Round A → Connection A → Bool × Connection A × List (Effect A)
  round r c =
      let (go, c', out) = select r.input r.key_taken c in
      let (go', c'', out') = open_socket r.socket_opens c' in
      if go then (go', c'', out ++ out') else (false, c', out)

  unfoldable pub rounds : List (Round A) → Connection A → Connection A × List (Effect A)
  rounds [] c = (c, [])
  rounds (r ∷ rs) c =
      let (go, c', out) = round r c in
      let (c'', later) = rounds rs c' in if go then (c'', out ++ later) else (c', out)

  -- The connection when `run` has spawned its gateway.
  unfoldable pub start : Connection A → Connection A
  start c = record c { state = State.connecting; gw_controller = true }

  -- `run`, over these rounds.
  unfoldable pub run : List (Round A) → Connection A → Connection A × List (Effect A)
  unfolding start
  run rs c =
      let (c', out) = rounds rs (start c) in
      (c', Effect.spawn_gateway c.cred (is_some c.ready) ∷ out)
