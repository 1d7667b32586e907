-- ===== src/Codec/Items.antt =====
-- codec/mod.rs under gateway.rs: the items that a gateway gives, by the messages of its websocket.
use discord_async_rs.Prelude.{
  ℕ, false, none, some, List, [], ◌∷◌, map, Result, ok, err, ◌≡◌, refl, ap, ◌∙◌,
}
use discord_async_rs.Gateway.{GatewayApi, Error}
use discord_async_rs.Gateway.Stream.{Gateway, ready, pending, Polled, ends, polls, conn_polls, cut}
use discord_async_rs.Codec.{CodecApi, JsonCodec}
use discord_async_rs.Codec.Polls.{connection, socket, read_message, understood, polls-understood}

module _ {A : GatewayApi} (C : CodecApi A) where
  -- What `next` gives over these polls.
  abbrev pub items : List (Polled (connection C)) → List (Result C.D (Error A))
  items [] = []
  items (ready (some r) ∷ rs) = r ∷ items rs
  items (ready none ∷ rs) = []
  items (pending ∷ rs) = items rs

  -- What the messages read as, until the end of the socket or its first error.
  abbrev pub understands : List (Polled (socket C)) → List (Result C.D (Error A))
  understands [] = []
  understands (ready (some (ok m)) ∷ rs) = read_message C m ∷ understands rs
  understands (ready (some (err e)) ∷ rs) = err (Error.ws e) ∷ []
  understands (ready none ∷ rs) = []
  understands (pending ∷ rs) = understands rs

  ended-items :
      (rs : List (Polled (socket C))) → items (map (understood C) (map (λ _. ready none) rs)) ≡ []
  ended-items [] = refl
  ended-items (r ∷ rs) = refl

  cut-understands :
      (rs : List (Polled (socket C)))
      → items (map (understood C) (cut (socket C) rs)) ≡ understands rs
  unfolding cut ends
  cut-understands [] = refl
  cut-understands (ready (some (ok m)) ∷ rs) = ap (◌∷◌ (read_message C m)) (cut-understands rs)
  cut-understands (ready (some (err e)) ∷ rs) = ap (◌∷◌ (err (Error.ws e))) (ended-items rs)
  cut-understands (ready none ∷ rs) = refl
  cut-understands (pending ∷ rs) = cut-understands rs

  abbrev pub opened : C.Socket → JsonCodec → Gateway (connection C)
  opened conn codec = record { conn = record { conn = conn; codec = codec }; finished = false }

  pub polls-understands :
      (polled : ℕ) (conn : C.Socket) (codec : JsonCodec)
      → items (polls polled (opened conn codec)) ≡ understands (conn_polls (socket C) polled conn)
  polls-understands polled conn codec =
      ap items (polls-understood C polled (record { conn = conn; codec = codec }))
      ∙ cut-understands (conn_polls (socket C) polled conn)
