-- ===== src/Voice/System/Up.antt =====
-- voice/connection.rs and voice/socket.rs: a connection that comes up and plays.
mod Stages
use text.Mathlib.Text.{◌==◌}
use discord_async_rs.Prelude.{
  ℕ, suc, true, false, none, some, List, [], ◌∷◌, ◌++◌, map, length, All, ok, ◌≡◌, ◌≤◌, refl, ap,
  ◌∙◌, arith,
}
use discord_async_rs.Voice.Messages.{Credentials}
use discord_async_rs.Voice.Connection.{
  Ready, SessionDescription, GatewayEvent, SocketEvent, Connection, Input, encryption_mode,
  is_supported, is_connecting, is_connected, ready_kind, on_event, when_ready, event, socket_event,
  open_socket, select, round, new, start, ssrc,
}
use discord_async_rs.Voice.Connection as Link
use discord_async_rs.Voice.Connection.Handshake.{up, placed, keyed}
use discord_async_rs.Voice.Socket.{SocketApi, header, seal_packet, resolve}
use discord_async_rs.Voice.Socket.Nonces.{sequence_at, timestamp_at, nonce_at}
use discord_async_rs.Voice.Socket.Packets.{Seals, packets}
use discord_async_rs.Voice.Socket.Session.{Live, Outside, send_frame, turn, discover}
use discord_async_rs.Voice.Socket.Session as Session
use discord_async_rs.Voice.System.{
  Others, Task, System, Move, Output, deliver, deliver_all, hear, act, report, step, runs, begin,
}
use discord_async_rs.Voice.System.Up.Stages.{
  asking, found, selected, told, opened, playing, step-ready, step-ask, step-addr, step-description,
  step-key, step-sender, step-frame,
}

module _ {S : SocketApi} {E : Others} where
  -- The gateway is ready, the address is found, the key comes and the sender; then the frames.
  abbrev pub coming_up : Ready → S.Addr → Outside S → SessionDescription S.Key → List (Move S E)
  coming_up r server o d =
      Move.gateway (some (GatewayEvent.ready r)) (ok (server ∷ []))
      ∷ Move.ask o
      ∷ Move.event
      ∷ Move.gateway (some (GatewayEvent.session_description d)) (ok [])
      ∷ Move.key
      ∷ Move.event
      ∷ []

  -- What the connection does meanwhile.
  abbrev pub brought_up : Ready → S.Addr → SessionDescription S.Key → List (Output S E)
  brought_up r addr d =
      Output.effect Link.Effect.connected
      ∷ Output.effect (Link.Effect.bind_socket r.ip r.port r.ssrc)
      ∷ Output.effect (Link.Effect.select_protocol addr encryption_mode)
      ∷ Output.effect (Link.Effect.speaking r.ssrc false)
      ∷ Output.effect (Link.Effect.send_key d.secret_key)
      ∷ Output.effect (Link.Effect.forward_sender tt)
      ∷ []

  abbrev pub plays : List (List ℕ) → List (Move S E)
  plays fs = map (λ f. Move.frame f true) fs

  runs-cons :
      (m : Move S E) (ms : List (Move S E)) (s t : System S E) (out later : List (Output S E))
      → step m s ≡ (t, out)
      → (runs ms t).1 ≡ later
      → (runs (m ∷ ms) s).1 ≡ out ++ later
  unfolding runs
  runs-cons m ms s t out later e h =
      ap (λ r. r.1 ++ (runs ms r.0).1) e ∙ ap (λ later. out ++ later) h

  runs-plays :
      (seal : S.Key → List ℕ → List ℕ → List ℕ) (law : (k : S.Key) → Seals S k (seal k))
      (cred : Credentials) (r : Ready) (server addr : S.Addr) (d : SessionDescription S.Key) (i : ℕ)
      (fs : List (List ℕ))
      → All (λ f. length f ≤ 2020) fs
      → (runs (plays fs) (playing cred r server addr d i)).1
        ≡ map Output.packet (packets (seal d.secret_key) r.ssrc i fs)
  unfolding runs
  runs-plays seal law cred r server addr d i [] h = refl
  runs-plays seal law cred r server addr d i (f ∷ fs) h =
      runs-cons (Move.frame f true) (plays fs) (playing cred r server addr d i)
        (playing cred r server addr d (suc i)) _ _
        (step-frame seal law cred r server addr d i f h.0)
        (runs-plays seal law cred r server addr d (suc i) fs h.1)

  runs-coming_up :
      (cred : Credentials) (r : Ready) (server addr : S.Addr) (o : Outside S)
      (d : SessionDescription S.Key) (ms : List (Move S E)) (later : List (Output S E))
      → E.ready_is_ready_kind ≡ true
      → is_supported r.modes ≡ true
      → discover S r.ssrc server o ≡ ok addr
      → (d.mode == encryption_mode) ≡ true
      → (runs ms (playing cred r server addr d 0)).1 ≡ later
      → (runs (coming_up r server o d ++ ms) (begin cred)).1 ≡ brought_up r addr d ++ later
  runs-coming_up cred r server addr o d ms later k m e mode h =
      runs-cons _
        (Move.ask o
          ∷ Move.event
          ∷ Move.gateway (some (GatewayEvent.session_description d)) (ok [])
          ∷ Move.key
          ∷ Move.event
          ∷ ms)
        (begin cred) (asking cred r server) _ _ (step-ready cred r server k m)
        (runs-cons _
          (Move.event
            ∷ Move.gateway (some (GatewayEvent.session_description d)) (ok [])
            ∷ Move.key
            ∷ Move.event
            ∷ ms)
          (asking cred r server) (found cred r server addr) _ _ (step-ask cred r server addr o e)
          (runs-cons _
            (Move.gateway (some (GatewayEvent.session_description d)) (ok [])
              ∷ Move.key
              ∷ Move.event
              ∷ ms)
            (found cred r server addr) (selected cred r server addr) _ _
            (step-addr cred r server addr)
            (runs-cons _ (Move.key ∷ Move.event ∷ ms) (selected cred r server addr)
              (told cred r server addr d) _ _ (step-description cred r server addr d mode)
              (runs-cons _ (Move.event ∷ ms) (told cred r server addr d)
                (opened cred r server addr d) _ _ (step-key cred r server addr d)
                (runs-cons _ ms (opened cred r server addr d) (playing cred r server addr d 0) _ _
                  (step-sender cred r server addr d) h)))))

-- If the gateway is ready and knows the encryption mode, the server tells the address, the session
-- is described in the mode, and the cipher under each key always gives the text and a tag of 16
-- bytes, then a new connection and its socket come up on their own events: the connection opens the
-- socket to the announced address, selects the protocol with the address that the socket found,
-- gives it the key and passes its frame sender on, and frames of up to 2020 bytes are all sent,
-- numbered from 0 and each sealed with the key of the session.
pub runs-up :
    (S : SocketApi) (E : Others) (seal : S.Key → List ℕ → List ℕ → List ℕ)
    → ((k : S.Key) → Seals S k (seal k))
    → (cred : Credentials) (r : Ready) (server addr : S.Addr) (o : Outside S)
      (d : SessionDescription S.Key) (fs : List (List ℕ))
    → E.ready_is_ready_kind ≡ true
    → is_supported r.modes ≡ true
    → discover S r.ssrc server o ≡ ok addr
    → (d.mode == encryption_mode) ≡ true
    → All (λ f. length f ≤ 2020) fs
    → (runs {S = S} {E = E} (coming_up r server o d ++ plays fs) (begin cred)).1
      ≡ brought_up r addr d ++ map Output.packet (packets (seal d.secret_key) r.ssrc 0 fs)
runs-up S E seal law cred r server addr o d fs k m e mode h =
    runs-coming_up cred r server addr o d (plays fs) _ k m e mode
      (runs-plays seal law cred r server addr d 0 fs h)
