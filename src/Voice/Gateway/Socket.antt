-- ===== src/Voice/Gateway/Socket.antt =====
-- voice/gateway.rs: the fused stream and the sink of the voice gateway, over the connection of
-- codec/mod.rs.
use discord_async_rs.Prelude.{
  ℕ, zero, suc, Bool, true, false, none, some, List, [], ◌∷◌, Result, ok, err, ◌≡◌, refl, arith,
  if◌then◌else◌,
}
use discord_async_rs.Gateway.{GatewayApi, Error}
use discord_async_rs.Gateway.Stream.{Poll, ready, pending, Polled, ends}
use discord_async_rs.Gateway.Stream
use discord_async_rs.Codec.{CodecApi, Connection}
use discord_async_rs.Codec
use discord_async_rs.Codec.Polls.{connection}

pub record Gateway {A : GatewayApi} (C : CodecApi A) : Type 0 where
  pub conn : Connection C
  pub finished : Bool

module _ {A : GatewayApi} (C : CodecApi A) where
  -- The arms of the `match`: what finishes the stream.
  unfoldable pub finishes : Polled (connection C) → Bool
  finishes (ready none) = true
  finishes (ready (some (err (Error.ws e)))) = true
  finishes _ = false

  unfoldable pub poll_next : Gateway C → Polled (connection C) × Gateway C
  poll_next g =
      if g.finished
      then (ready none, g)
      else (let (res, conn) = Codec.poll_next C g.conn in
          (res, record { conn = conn; finished = finishes res }))

  unfoldable pub is_terminated : Gateway C → Bool
  is_terminated g = g.finished

  unfoldable pub poll_ready : Gateway C → Poll (Result (Unit {0}) (Error A)) × Gateway C
  poll_ready g = let (res, conn) = Codec.poll_ready C g.conn in (res, record g { conn = conn })

  unfoldable pub start_send : C.S → Gateway C → Result (Unit {0}) (Error A) × Gateway C
  start_send item g =
      let (res, conn) = Codec.start_send C item g.conn in (res, record g { conn = conn })

  unfoldable pub poll_flush : Gateway C → Poll (Result (Unit {0}) (Error A)) × Gateway C
  poll_flush g = let (res, conn) = Codec.poll_flush C g.conn in (res, record g { conn = conn })

  unfoldable pub poll_close : Gateway C → Poll (Result (Unit {0}) (Error A)) × Gateway C
  poll_close g = let (res, conn) = Codec.poll_close C g.conn in (res, record g { conn = conn })

  -- The results of polling so many times.
  unfoldable pub polls : ℕ → Gateway C → List (Polled (connection C))
  unfolding poll_next
  polls zero g = []
  polls (suc n) g = (poll_next g).0 ∷ polls n (poll_next g).1

  finishes-ends : (r : Polled (connection C)) → finishes r ≡ ends (connection C) r
  unfolding finishes ends
  finishes-ends (ready none) = refl
  finishes-ends (ready (some (ok d))) = refl
  finishes-ends (ready (some (err e))) = ground arith
  finishes-ends pending = refl

  -- The stream of the voice gateway is that of the main gateway.
  pub polls-same :
      (n : ℕ) (g : Gateway C)
      → polls n g
        ≡ Stream.polls {I = connection C} n (record { conn = g.conn; finished = g.finished })
  unfolding polls poll_next Stream.polls Stream.poll_next
  polls-same zero g = refl
  polls-same (suc n) g =
      ground (arith, polls-same n (poll_next g).1, finishes-ends (Codec.poll_next C g.conn).0)
