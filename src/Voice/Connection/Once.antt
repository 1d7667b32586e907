-- ===== src/Voice/Connection/Once.antt =====
-- voice/connection.rs: what a connection does at most once.
use discord_async_rs.Prelude.{
  ℕ, Bool, true, not, none, some, is_none, List, [], ◌∷◌, ◌++◌, ◌≡◌, ◌≤◌, ◌+◌, arith, if◌then◌else◌,
  Bool-cases, inl, inr,
}
use discord_async_rs.Voice.Messages.{Credentials}
use discord_async_rs.Voice.Connection.{
  ConnectionApi, GatewayEvent, SocketEvent, State, Connection, Effect, Input, Round, new,
  is_connecting, is_connected, ready_kind, on_event, when_ready, event, socket_event, open_socket,
  select, round, rounds, run,
}

abbrev one : Bool → ℕ
one b = if b then 1 else 0

module _ {A : ConnectionApi} where
  abbrev pub is_bind : Effect A → ℕ
  is_bind (Effect.bind_socket ip port ssrc) = 1
  is_bind _ = 0

  abbrev pub is_select : Effect A → ℕ
  is_select (Effect.select_protocol addr mode) = 1
  is_select _ = 0

  abbrev pub is_key : Effect A → ℕ
  is_key (Effect.send_key key) = 1
  is_key _ = 0

  abbrev pub is_up : Effect A → ℕ
  is_up Effect.connected = 1
  is_up _ = 0

  abbrev pub count : (Effect A → ℕ) → List (Effect A) → ℕ
  count f [] = 0
  count f (e ∷ es) = f e + count f es

  count-append :
      (f : Effect A → ℕ) (xs ys : List (Effect A)) → count f (xs ++ ys) ≡ count f xs + count f ys
  count-append f [] ys = omega arith
  count-append f (x ∷ xs) ys = omega (arith, count-append f xs ys)

  -- How often each of these can still happen.
  abbrev binds : Connection A → ℕ
  binds c = one (not c.sock_event_recv)

  abbrev selects : Connection A → ℕ
  selects c = one (is_none c.external_addr)

  abbrev keys : Connection A → ℕ
  keys c = one c.key_send + one (not c.sock_event_recv)

  abbrev ups : Connection A → ℕ
  ups c = one (not (is_connected c.state))

  -- What happens is paid for by the connection.
  abbrev Pays : Connection A → Connection A → List (Effect A) → Type 0
  Pays c d out =
      (count is_bind out + binds d ≤ binds c)
      × (count is_select out + selects d ≤ selects c)
      × (count is_key out + keys d ≤ keys c)
      × (count is_up out + ups d ≤ ups c)

  on_event-Pays :
      (k : Bool) (e : GatewayEvent A) (c : Connection A)
      → Pays c (on_event k e c).1 (on_event k e c).2
  unfolding on_event
  on_event-Pays k (GatewayEvent.ready r) c = ground arith
  on_event-Pays k (GatewayEvent.session_description d) c = ground arith
  on_event-Pays k (GatewayEvent.other o) c = ground arith

  when_ready-Pays : (k : Bool) (c : Connection A) → Pays c (when_ready k c).0 (when_ready k c).1
  unfolding when_ready is_connecting is_connected
  when_ready-Pays k c = ground arith

  socket_event-Pays :
      (e : SocketEvent A) (c : Connection A) → Pays c (socket_event e c).0 (socket_event e c).1
  unfolding socket_event
  socket_event-Pays (SocketEvent.addr_discovery a) c = ground arith
  socket_event-Pays (SocketEvent.voice_frame_sender s) c = ground arith
  socket_event-Pays (SocketEvent.voice_frame n) c = ground arith

  open_socket-Pays : (o : Bool) (c : Connection A) → Pays c (open_socket o c).1 (open_socket o c).2
  unfolding open_socket
  open_socket-Pays o c = ground arith

  Pays-append :
      (c d e : Connection A) (xs ys : List (Effect A))
      → Pays c d xs
      → Pays d e ys
      → Pays c e (xs ++ ys)
  Pays-append c d e xs ys (a0, a1, a2, a3) (b0, b1, b2, b3) = (
    omega (arith, count-append is_bind xs ys),
    omega (arith, count-append is_select xs ys),
    omega (arith, count-append is_key xs ys),
    omega (arith, count-append is_up xs ys),
  )

  event-Pays :
      (k : Bool) (e : GatewayEvent A) (c : Connection A) → Pays c (event k e c).1 (event k e c).2
  unfolding event
  event-Pays k e c = elim (Bool-cases (on_event k e c).0) [
    | inl t ↦
        rw (t, event)
          (Pays-append c (on_event k e c).1 (when_ready (ready_kind e) (on_event k e c).1).0
            (on_event k e c).2 (when_ready (ready_kind e) (on_event k e c).1).1
            (on_event-Pays k e c) (when_ready-Pays (ready_kind e) (on_event k e c).1))
    | inr f ↦ rw (f, event) (on_event-Pays k e c)
  ]

  select-Pays :
      (i : Input A) (k : Bool) (c : Connection A) → Pays c (select i k c).1 (select i k c).2
  unfolding select
  select-Pays (Input.gateway none) k c = (omega arith, omega arith, omega arith, omega arith)
  select-Pays (Input.gateway (some e)) k c = event-Pays k e c
  select-Pays (Input.socket none) k c = (omega arith, omega arith, omega arith, omega arith)
  select-Pays (Input.socket (some e)) k c = socket_event-Pays e c

  round-Pays : (r : Round A) (c : Connection A) → Pays c (round r c).1 (round r c).2
  unfolding round
  round-Pays r c =
      let s = select r.input r.key_taken c in
      elim (Bool-cases s.0) [
        | inl t ↦
            rw (t, round)
              (Pays-append c s.1 (open_socket r.socket_opens s.1).1 s.2
                (open_socket r.socket_opens s.1).2 (select-Pays r.input r.key_taken c)
                (open_socket-Pays r.socket_opens s.1))
        | inr f ↦ rw (f, round) (select-Pays r.input r.key_taken c)
      ]

  rounds-Pays : (rs : List (Round A)) (c : Connection A) → Pays c (rounds rs c).0 (rounds rs c).1
  unfolding rounds
  rounds-Pays [] c = (omega arith, omega arith, omega arith, omega arith)
  rounds-Pays (r ∷ rs) c = elim (Bool-cases (round r c).0) [
    | inl t ↦
        rw (t, rounds)
          (Pays-append c (round r c).1 (rounds rs (round r c).1).0 (round r c).2
            (rounds rs (round r c).1).1 (round-Pays r c) (rounds-Pays rs (round r c).1))
    | inr f ↦ rw (f, rounds) (round-Pays r c)
  ]

  -- Over all rounds, a new connection opens at most one socket, selects the protocol at most once,
  -- gives the socket at most one key and reports that it is connected at most once.
  pub run-once :
      (cred : Credentials) (rs : List (Round A))
      → let out = (run rs (new cred)).1 in
        (count is_bind out ≤ 1)
        × (count is_select out ≤ 1)
        × (count is_key out ≤ 1)
        × (count is_up out ≤ 1)
  unfolding run new is_connected
  run-once cred rs =
      let start = record (new cred) { state = State.connecting; gw_controller = true } in
      let (a, b, c, d) = rounds-Pays rs start in
      (omega arith, omega arith, omega arith, omega arith)
