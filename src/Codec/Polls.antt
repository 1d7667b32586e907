-- ===== src/Codec/Polls.antt =====
-- codec/mod.rs under gateway.rs: the fused stream over a websocket.
use discord_async_rs.Prelude.{
  ℕ, zero, suc, Bool, true, false, none, some, List, [], ◌∷◌, map, Result, ok, err, ◌≡◌, refl,
  arith, ap, ◌∙◌, Bool-cases, inl, inr,
}
use discord_async_rs.Gateway.{GatewayApi, Error}
use discord_async_rs.Gateway.Stream.{
  ready, pending, Inner, Polled, ends, polls, conn_polls, cut, polls-cut,
}
use discord_async_rs.Codec.{Message, CodecApi, JsonCodec, Connection, decode, received, poll_next}

abbrev pub is_ws : {A : GatewayApi} → Error A → Bool
is_ws (Error.ws e) = true
is_ws _ = false

module _ {A : GatewayApi} (C : CodecApi A) where
  -- The connection, and the socket below it, as streams.
  abbrev pub connection : Inner
  connection = record {
    Conn = Connection C;
    Item = C.D;
    Failure = Error A;
    is_ws = is_ws;
    poll_next = poll_next C;
  }

  abbrev pub socket : Inner
  socket = record {
    Conn = C.Socket;
    Item = Message A C.Other;
    Failure = A.WsError;
    is_ws = λ _. true;
    poll_next = C.poll_next;
  }

  -- What the codec makes of a message, whatever its journal.
  abbrev pub read_message : Message A C.Other → Result C.D (Error A)
  read_message (Message.text s) = elim (C.from_str s) [ ok d ↦ ok d | err e ↦ err (Error.serde e) ]
  read_message (Message.close frame) = err (Error.close frame)
  read_message (Message.other m) = err Error.decode

  abbrev pub understood : Polled socket → Polled connection
  understood (ready (some (ok m))) = ready (some (read_message m))
  understood (ready (some (err e))) = ready (some (err (Error.ws e)))
  understood (ready none) = ready none
  understood pending = pending

  received-understood :
      (r : Polled socket) (codec : JsonCodec) → (received C r codec).0 ≡ understood r
  unfolding received decode
  received-understood (ready (some (ok (Message.text s)))) codec = ground arith
  received-understood (ready (some (ok (Message.close f)))) codec = refl
  received-understood (ready (some (ok (Message.other m)))) codec = refl
  received-understood (ready (some (err e))) codec = refl
  received-understood (ready none) codec = refl
  received-understood pending codec = refl

  ends-understood : (r : Polled socket) → ends connection (understood r) ≡ ends socket r
  unfolding ends
  ends-understood (ready (some (ok (Message.text s)))) = ground arith
  ends-understood (ready (some (ok (Message.close f)))) = refl
  ends-understood (ready (some (ok (Message.other m)))) = refl
  ends-understood (ready (some (err e))) = refl
  ends-understood (ready none) = refl
  ends-understood pending = refl

  conn_polls-understood :
      (n : ℕ) (c : Connection C)
      → conn_polls connection n c ≡ map understood (conn_polls socket n c.conn)
  unfolding conn_polls poll_next
  conn_polls-understood zero c = refl
  conn_polls-understood (suc n) c = ground (
    arith,
    received-understood (C.poll_next c.conn).0 c.codec,
    conn_polls-understood n (poll_next C c).1,
  )

  map-over :
      (rs : List (Polled socket))
      → map (λ _. ready none) (map understood rs) ≡ map understood (map (λ _. ready none) rs)
  map-over [] = refl
  map-over (r ∷ rs) = ap (◌∷◌ (ready none)) (map-over rs)

  cut-understood :
      (rs : List (Polled socket))
      → cut connection (map understood rs) ≡ map understood (cut socket rs)
  unfolding cut
  cut-understood [] = refl
  cut-understood (r ∷ rs) = elim (Bool-cases (ends socket r)) [
    | inl t ↦ rw (ends-understood r, t, cut) (ap (◌∷◌ (understood r)) (map-over rs))
    | inr f ↦ rw (ends-understood r, f, cut) (ap (◌∷◌ (understood r)) (cut-understood rs))
  ]

  -- Polled through the codec, a gateway gives for every message of the socket what it reads as.
  -- Only an error of the socket or its end finishes the stream, which gives `None` from then on: a
  -- text that serde refuses, a closing message and one of another kind are errors that the stream
  -- goes on behind.
  pub polls-understood :
      (n : ℕ) (c : Connection C)
      → polls {I = connection} n (record { conn = c; finished = false })
        ≡ map understood (cut socket (conn_polls socket n c.conn))
  polls-understood n c =
      polls-cut {I = connection} n (record { conn = c; finished = false }) refl
      ∙ (ap (cut connection) (conn_polls-understood n c)
          ∙ cut-understood (conn_polls socket n c.conn))
