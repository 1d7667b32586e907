-- ===== src/Gateway/Sink.antt =====
-- gateway.rs: the closing and the sink of the gateway, over the connection of codec/mod.rs.
use discord_async_rs.Prelude.{Result}
use discord_async_rs.Gateway.{GatewayApi, Error}
use discord_async_rs.Gateway.Stream.{Poll, Gateway}
use discord_async_rs.Codec.{CodecApi}
use discord_async_rs.Codec
use discord_async_rs.Codec.Polls.{connection}

module _ {A : GatewayApi} (C : CodecApi A) where
  unfoldable pub shutdown :
      Gateway (connection C) → Result (Unit {0}) (Error A) × Gateway (connection C)
  shutdown g = let (res, conn) = Codec.shutdown C g.conn in (res, record g { conn = conn })

  unfoldable pub poll_ready :
      Gateway (connection C) → Poll (Result (Unit {0}) (Error A)) × Gateway (connection C)
  poll_ready g = let (res, conn) = Codec.poll_ready C g.conn in (res, record g { conn = conn })

  unfoldable pub start_send :
      C.S → Gateway (connection C) → Result (Unit {0}) (Error A) × Gateway (connection C)
  start_send item g =
      let (res, conn) = Codec.start_send C item g.conn in (res, record g { conn = conn })

  unfoldable pub poll_flush :
      Gateway (connection C) → Poll (Result (Unit {0}) (Error A)) × Gateway (connection C)
  poll_flush g = let (res, conn) = Codec.poll_flush C g.conn in (res, record g { conn = conn })

  unfoldable pub poll_close :
      Gateway (connection C) → Poll (Result (Unit {0}) (Error A)) × Gateway (connection C)
  poll_close g = let (res, conn) = Codec.poll_close C g.conn in (res, record g { conn = conn })
