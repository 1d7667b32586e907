-- ===== src/Voice/System/Up/Stages.antt =====
-- voice/connection.rs and voice/socket.rs: what a connection and its socket go through as they come
-- up, and the move from each stage to the next.
use text.Mathlib.Text.{◌==◌}
use discord_async_rs.Prelude.{
  ℕ, suc, true, false, none, some, List, [], ◌∷◌, ◌++◌, length, ok, ◌≡◌, ◌≤◌, refl, arith,
}
use discord_async_rs.Voice.Messages.{Credentials}
use discord_async_rs.Voice.Connection.{
  Ready, SessionDescription, GatewayEvent, SocketEvent, Connection, Input, encryption_mode,
  is_supported, is_connecting, is_connected, ready_kind, on_event, when_ready, event, socket_event,
  open_socket, select, round, new, start, ssrc,
}
use discord_async_rs.Voice.Connection as Link
use discord_async_rs.Voice.Connection.Handshake.{up, placed, keyed}
use discord_async_rs.Voice.Socket.{SocketApi, header, seal_packet, resolve}
use discord_async_rs.Voice.Socket.Nonces.{sequence_at, timestamp_at, nonce_at}
use discord_async_rs.Voice.Socket.Packets.{Seals}
use discord_async_rs.Voice.Socket.Session.{Live, Outside, send_frame, turn, discover}
use discord_async_rs.Voice.Socket.Session as Session
use discord_async_rs.Voice.System.{
  Others, Task, System, Move, Output, deliver, deliver_all, hear, act, report, step, begin,
}

module _ {S : SocketApi} where
  abbrev nth : S.Key → ℕ → Live S
  nth k i = record { key = some k; sequence = sequence_at i; timestamp = timestamp_at i }

module _ {S : SocketApi} {E : Others} where
  abbrev pub asking : Credentials → Ready → S.Addr → System S E
  asking cred r server = record {
    connection = up cred r;
    goes_on = true;
    task = Task.asking server r.ssrc;
    key = none;
    events = [];
    forwarded = false;
  }

  abbrev pub found : Credentials → Ready → S.Addr → S.Addr → System S E
  found cred r server addr = record (asking cred r server) {
    task = Task.live r.ssrc (Session.start S);
    events = SocketEvent.addr_discovery addr ∷ [];
  }

  abbrev pub selected : Credentials → Ready → S.Addr → S.Addr → System S E
  selected cred r server addr = record (found cred r server addr) {
    connection = placed cred r addr;
    events = [];
  }

  abbrev pub told : Credentials → Ready → S.Addr → S.Addr → SessionDescription S.Key → System S E
  told cred r server addr d = record (selected cred r server addr) {
    connection = keyed cred r addr;
    key = some d.secret_key;
  }

  abbrev pub opened : Credentials → Ready → S.Addr → S.Addr → SessionDescription S.Key → System S E
  opened cred r server addr d = record (told cred r server addr d) {
    task = Task.live r.ssrc (nth d.secret_key 0);
    key = none;
    events = SocketEvent.voice_frame_sender tt ∷ [];
  }

  abbrev pub playing :
      Credentials → Ready → S.Addr → S.Addr → SessionDescription S.Key → ℕ → System S E
  playing cred r server addr d i = record (opened cred r server addr d) {
    task = Task.live r.ssrc (nth d.secret_key i);
    events = [];
    forwarded = true;
  }

  pub step-ready :
      (cred : Credentials) (r : Ready) (server : S.Addr)
      → E.ready_is_ready_kind ≡ true
      → is_supported r.modes ≡ true
      → step (Move.gateway (some (GatewayEvent.ready r)) (ok (server ∷ []))) (begin cred) ≡ (
        asking cred r server,
        Output.effect Link.Effect.connected
            ∷ Output.effect (Link.Effect.bind_socket r.ip r.port r.ssrc)
            ∷ [],
      )
  unfolding step resolve hear deliver deliver_all round select event on_event when_ready ready_kind
      open_socket is_connecting is_connected new start begin
  step-ready cred r server k m = ground arith

  pub step-ask :
      (cred : Credentials) (r : Ready) (server addr : S.Addr) (o : Outside S)
      → discover S r.ssrc server o ≡ ok addr
      → step (Move.ask o) (asking cred r server) ≡ (found cred r server addr, [])
  unfolding step report
  step-ask cred r server addr o e = ground arith

  pub step-addr :
      (cred : Credentials) (r : Ready) (server addr : S.Addr)
      → step Move.event (found cred r server addr) ≡ (
        selected cred r server addr,
        Output.effect (Link.Effect.select_protocol addr encryption_mode)
            ∷ Output.effect (Link.Effect.speaking r.ssrc false)
            ∷ [],
      )
  unfolding step resolve hear deliver deliver_all round select socket_event open_socket is_connected
      ssrc new
  step-addr cred r server addr = refl

  pub step-description :
      (cred : Credentials) (r : Ready) (server addr : S.Addr) (d : SessionDescription S.Key)
      → (d.mode == encryption_mode) ≡ true
      → step
          (Move.gateway (some (GatewayEvent.session_description d)) (ok []))
          (selected cred r server addr)
        ≡ (told cred r server addr d, Output.effect (Link.Effect.send_key d.secret_key) ∷ [])
  unfolding step resolve hear deliver deliver_all round select event on_event when_ready open_socket
      is_connecting is_connected new
  step-description cred r server addr d m = ground arith

  pub step-key :
      (cred : Credentials) (r : Ready) (server addr : S.Addr) (d : SessionDescription S.Key)
      → step Move.key (told cred r server addr d) ≡ (opened cred r server addr d, [])
  unfolding step act turn
  step-key cred r server addr d = refl

  pub step-sender :
      (cred : Credentials) (r : Ready) (server addr : S.Addr) (d : SessionDescription S.Key)
      → step Move.event (opened cred r server addr d)
        ≡ (playing cred r server addr d 0, Output.effect (Link.Effect.forward_sender tt) ∷ [])
  unfolding step resolve hear deliver deliver_all round select socket_event open_socket is_connected
      new
  step-sender cred r server addr d = refl

  pub step-frame :
      (seal : S.Key → List ℕ → List ℕ → List ℕ) (law : (k : S.Key) → Seals S k (seal k))
      (cred : Credentials) (r : Ready) (server addr : S.Addr) (d : SessionDescription S.Key) (i : ℕ)
      (f : List ℕ)
      → length f ≤ 2020
      → step (Move.frame f true) (playing cred r server addr d i) ≡ (
        playing cred r server addr d (suc i),
        Output.packet (
              header r.ssrc (sequence_at i) (timestamp_at i)
              ++ seal d.secret_key (nonce_at r.ssrc i) f)
            ∷ [],
      )
  unfolding step act turn send_frame seal_packet
  step-frame seal law cred r server addr d i f h =
      ground (arith, law d.secret_key (nonce_at r.ssrc i) f, h)
