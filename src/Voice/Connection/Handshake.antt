-- ===== src/Voice/Connection/Handshake.antt =====
-- voice/connection.rs: how a connection comes up.
use discord_async_rs.Prelude.{
  true, false, some, List, [], ◌∷◌, ◌++◌, ◌≡◌, refl, arith, ap, if◌then◌else◌,
}
use text.Mathlib.Text.{◌==◌}
use discord_async_rs.Voice.Messages.{Credentials}
use discord_async_rs.Voice.Connection.{
  ConnectionApi, State, Ready, SessionDescription, GatewayEvent, SocketEvent, Effect, Input, Round,
  Connection, encryption_mode, is_supported, is_connecting, is_connected, new, ssrc, ready_kind,
  on_event, when_ready, event, socket_event, open_socket, select, round, rounds, run,
}

module _ {A : ConnectionApi} where
  abbrev pub heard : Input A → Round A
  heard i = record { input = i; key_taken = true; socket_opens = true }

  abbrev pub handshake : Ready → A.Addr → SessionDescription A.Key → A.FrameSender → List (Round A)
  handshake r addr d s =
      heard (Input.gateway (some (GatewayEvent.ready r)))
      ∷ heard (Input.socket (some (SocketEvent.addr_discovery addr)))
      ∷ heard (Input.gateway (some (GatewayEvent.session_description d)))
      ∷ heard (Input.socket (some (SocketEvent.voice_frame_sender s)))
      ∷ []

  abbrev start : Credentials → Connection A
  start cred = record (new cred) { state = State.connecting; gw_controller = true }

  abbrev pub up : Credentials → Ready → Connection A
  up cred r = record (start cred) {
    ready = some r;
    state = State.connected;
    key_send = true;
    sock_event_recv = true;
  }

  abbrev pub placed : Credentials → Ready → A.Addr → Connection A
  placed cred r addr = record (up cred r) { external_addr = some addr }

  abbrev pub keyed : Credentials → Ready → A.Addr → Connection A
  keyed cred r addr = record (placed cred r addr) { key_send = false }

  rounds-cons :
      (x : Round A) (xs : List (Round A)) (c d : Connection A) (out : List (Effect A))
      → round x c ≡ (true, d, out)
      → rounds (x ∷ xs) c ≡ ((rounds xs d).0, out ++ (rounds xs d).1)
  unfolding rounds
  rounds-cons x xs c d out e =
      ap (λ r. if r.0 then ((rounds xs r.1).0, r.2 ++ (rounds xs r.1).1) else (r.1, r.2)) e

  rounds-nil : (c : Connection A) → rounds [] c ≡ (c, [])
  unfolding rounds
  rounds-nil c = refl

  round-ready :
      (cred : Credentials) (r : Ready)
      → A.ready_is_ready_kind ≡ true
      → is_supported r.modes ≡ true
      → round (heard (Input.gateway (some (GatewayEvent.ready r)))) (start cred)
        ≡ (true, up cred r, Effect.connected ∷ Effect.bind_socket r.ip r.port r.ssrc ∷ [])
  unfolding round select event on_event when_ready ready_kind open_socket is_connecting is_connected
      new
  round-ready cred r k m = ground arith

  round-addr :
      (cred : Credentials) (r : Ready) (addr : A.Addr)
      → round (heard (Input.socket (some (SocketEvent.addr_discovery addr)))) (up cred r) ≡ (
        true,
        placed cred r addr,
        Effect.select_protocol addr encryption_mode ∷ Effect.speaking r.ssrc false ∷ [],
      )
  unfolding round select socket_event open_socket is_connected new ssrc
  round-addr cred r addr = refl

  round-key :
      (cred : Credentials) (r : Ready) (addr : A.Addr) (d : SessionDescription A.Key)
      → (d.mode == encryption_mode) ≡ true
      → round
          (heard (Input.gateway (some (GatewayEvent.session_description d))))
          (placed cred r addr)
        ≡ (true, keyed cred r addr, Effect.send_key d.secret_key ∷ [])
  unfolding round select event on_event when_ready open_socket is_connecting is_connected new
  round-key cred r addr d e = ground arith

  round-sender :
      (cred : Credentials) (r : Ready) (addr : A.Addr) (s : A.FrameSender)
      → round (heard (Input.socket (some (SocketEvent.voice_frame_sender s)))) (keyed cred r addr)
        ≡ (true, keyed cred r addr, Effect.forward_sender s ∷ [])
  unfolding round select socket_event open_socket is_connected new
  round-sender cred r addr s = refl

  rounds-handshake :
      (cred : Credentials) (r : Ready) (addr : A.Addr) (d : SessionDescription A.Key)
      (s : A.FrameSender)
      → A.ready_is_ready_kind ≡ true
      → is_supported r.modes ≡ true
      → (d.mode == encryption_mode) ≡ true
      → (rounds (handshake r addr d s) (start cred)).1
        ≡ Effect.connected
          ∷ Effect.bind_socket r.ip r.port r.ssrc
          ∷ Effect.select_protocol addr encryption_mode
          ∷ Effect.speaking r.ssrc false
          ∷ Effect.send_key d.secret_key
          ∷ Effect.forward_sender s
          ∷ []
  rounds-handshake cred r addr d s k m e =
      rw
        (
          rounds-cons _ _ _ _ _ (round-ready cred r k m),
          rounds-cons _ _ _ _ _ (round-addr cred r addr),
          rounds-cons _ _ _ _ _ (round-key cred r addr d e),
          rounds-cons _ _ _ _ _ (round-sender cred r addr s),
          rounds-nil (keyed cred r addr),
        )
        refl

  -- If the gateway is ready and knows the encryption mode, the socket is opened to the announced
  -- address; the protocol is selected with the address that it discovers, it gets the key of the
  -- session, and its frame sender is passed on. Nothing else is done, and in this order.
  pub run-handshake :
      (cred : Credentials) (r : Ready) (addr : A.Addr) (d : SessionDescription A.Key)
      (s : A.FrameSender)
      → A.ready_is_ready_kind ≡ true
      → is_supported r.modes ≡ true
      → (d.mode == encryption_mode) ≡ true
      → (run (handshake r addr d s) (new cred)).1
        ≡ Effect.spawn_gateway cred false
          ∷ Effect.connected
          ∷ Effect.bind_socket r.ip r.port r.ssrc
          ∷ Effect.select_protocol addr encryption_mode
          ∷ Effect.speaking r.ssrc false
          ∷ Effect.send_key d.secret_key
          ∷ Effect.forward_sender s
          ∷ []
  unfolding run new
  run-handshake cred r addr d s k m e =
      ap (λ out. Effect.spawn_gateway cred false ∷ out) (rounds-handshake cred r addr d s k m e)
