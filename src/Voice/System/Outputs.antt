-- ===== src/Voice/System/Outputs.antt =====
-- voice/connection.rs and voice/socket.rs: what a run sends, and what it is given.
use discord_async_rs.Prelude.{
  ℕ, Bool, true, false, if◌then◌else◌, Option, some, List, [], ◌∷◌, ◌++◌, map, ◌≡◌, refl, ap,
  is_some,
}
use discord_async_rs.Voice.Connection.{
  Ready, SessionDescription, GatewayEvent, SocketEvent, Connection, Input, encryption_mode,
  is_supported, round, new, start,
}
use discord_async_rs.Voice.Connection as Link
use discord_async_rs.Voice.Socket.{SocketApi}
use discord_async_rs.Voice.Socket.Session.{Live, Turn, Effect, Outside, Outcome, turn, discover}
use discord_async_rs.Voice.Socket.Session.Sealed.{frames}
use discord_async_rs.Voice.Socket.Session as Session
use discord_async_rs.Voice.System.{
  Others, api, System, Move, Output, packets_of, takes_key, hear, deliver_all,
}

module _ {S : SocketApi} {E : Others} where
  -- The packets of a run; the frames that are offered to it; what it hears of the gateway.
  abbrev pub sent : List (Output S E) → List (List ℕ)
  sent [] = []
  sent (Output.packet p ∷ out) = p ∷ sent out
  sent (Output.effect e ∷ out) = sent out

  abbrev pub offered : List (Move S E) → List (List ℕ)
  offered [] = []
  offered (Move.frame f is_sent ∷ ms) = f ∷ offered ms
  offered (_ ∷ ms) = offered ms

  abbrev pub heard : List (Move S E) → List (GatewayEvent (api S E))
  heard [] = []
  heard (Move.gateway (some e) server ∷ ms) = e ∷ heard ms
  heard (_ ∷ ms) = heard ms

  pub sent-append : (xs ys : List (Output S E)) → sent (xs ++ ys) ≡ sent xs ++ sent ys
  sent-append [] ys = refl
  sent-append (Output.packet p ∷ xs) ys = ap (λ ps. p ∷ ps) (sent-append xs ys)
  sent-append (Output.effect e ∷ xs) ys = sent-append xs ys

abbrev effects : (S : SocketApi) (E : Others) → List (Link.Effect (api S E)) → List (Output S E)
effects S E out = map Output.effect out

sent-effects :
    (S : SocketApi) (E : Others) (out : List (Link.Effect (api S E))) → sent (effects S E out) ≡ []
sent-effects S E [] = refl
sent-effects S E (e ∷ out) = sent-effects S E out

sent-if :
    {S : SocketApi} {E : Others} (b : Bool) (x y : System S E × List (Output S E))
    → sent x.1 ≡ []
    → sent y.1 ≡ []
    → sent (if b then x else y).1 ≡ []
sent-if true x y hx hy = hx
sent-if false x y hx hy = hy

pub sent-hear :
    {S : SocketApi} {E : Others} (i : Input (api S E)) (server : Option S.Addr) (s : System S E)
    → sent (hear i server s).1 ≡ []
unfolding hear
sent-hear {S} {E} i server s =
    let (go, c, out) =
      round (record { input = i; key_taken = takes_key s.task; socket_opens = is_some server })
        s.connection in
    sent-if s.goes_on
      (deliver_all server out (record s { connection = c; goes_on = go }), effects S E out) (s, [])
      (sent-effects S E out) refl

pub sent-packets_of :
    (S : SocketApi) (E : Others) (out : List (Effect S))
    → sent {S = S} {E = E} (packets_of out) ≡ Session.Sealed.packets_of out
sent-packets_of S E [] = refl
sent-packets_of S E (Effect.packet p ∷ out) = ap (λ ps. p ∷ ps) (sent-packets_of S E out)
sent-packets_of S E (Effect.addr_discovery a ∷ out) = sent-packets_of S E out
sent-packets_of S E (Effect.voice_frame_sender ∷ out) = sent-packets_of S E out
sent-packets_of S E (Effect.voice_frame n ∷ out) = sent-packets_of S E out
