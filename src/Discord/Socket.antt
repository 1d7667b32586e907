-- ===== src/Discord/Socket.antt =====
-- discord.rs over gateway.rs and codec/mod.rs: from the messages of the websocket to the callback.
mod Tests
use discord_async_rs.Prelude.{
  ℕ, zero, suc, false, none, some, String, List, [], ◌∷◌, ◌++◌, map, Result, ok, err, ◌≡◌, refl,
  sym, ap, ◌∙◌, arith, if◌then◌else◌, Bool-cases, inl, inr,
}
use discord_async_rs.Gateway.{GatewayApi, Error, Payload, Command, GatewayEvent}
use discord_async_rs.Gateway.Handshake.{Item}
use discord_async_rs.Gateway.Stream.{Gateway, ready, pending, Polled, ends, polls, conn_polls, cut}
use discord_async_rs.Codec.{Message, CodecApi, JsonCodec}
use discord_async_rs.Codec.Polls.{socket}
use discord_async_rs.Codec.Items.{items, understands, opened, polls-understands}
use discord_async_rs.Discord.{Live, Turn, turns}
use discord_async_rs.Discord.Sequence.{newest, Reads, heard, events, last_sequence, turns-Reads}

-- The payloads among the items.
abbrev pub payloads : {A : GatewayApi} → List (Item A) → List (Payload A)
payloads [] = []
payloads (ok p ∷ is) = p ∷ payloads is
payloads (err e ∷ is) = payloads is

-- The last number among them.
abbrev pub last_number : {A : GatewayApi} → ℕ → List (Payload A) → ℕ
last_number sequence [] = sequence
last_number sequence (p ∷ ps) = last_number (newest p.sequence sequence) ps

module _ {A : GatewayApi} where
  payloads-append : (xs ys : List (Item A)) → payloads (xs ++ ys) ≡ payloads xs ++ payloads ys
  payloads-append [] ys = refl
  payloads-append (ok p ∷ xs) ys = ap (◌∷◌ p) (payloads-append xs ys)
  payloads-append (err e ∷ xs) ys = payloads-append xs ys

  events-payloads :
      (is : List (Item A)) → events is ≡ map (λ p. GatewayEvent.event p.event) (payloads is)
  unfolding events
  events-payloads [] = refl
  events-payloads (ok p ∷ is) = ap (◌∷◌ (GatewayEvent.event p.event)) (events-payloads is)
  events-payloads (err e ∷ is) = events-payloads is

  last_sequence-payloads :
      (n : ℕ) (is : List (Item A)) → last_sequence n is ≡ last_number n (payloads is)
  unfolding last_sequence
  last_sequence-payloads n [] = refl
  last_sequence-payloads n (ok p ∷ is) = last_sequence-payloads (newest p.sequence n) is
  last_sequence-payloads n (err e ∷ is) = last_sequence-payloads n is

module _ {A : GatewayApi} (W : CodecApi A) (to_string : Command A → Result String A.SerdeError)
    (from_str : String → Result (Payload A) A.SerdeError) where
  -- The codec of the gateway: it sends commands and receives payloads.
  abbrev pub codec : CodecApi A
  codec = record W { S = Command A; D = Payload A; to_string = to_string; from_str = from_str }

  -- The payloads that the texts of the websocket hold, until its end or its first error.
  abbrev pub carried : List (Polled (socket codec)) → List (Payload A)
  carried [] = []
  carried (ready (some (ok (Message.text s))) ∷ rs) = elim (from_str s) [
    | ok p ↦ p ∷ carried rs
    | err e ↦ carried rs
  ]
  carried (ready (some (ok m)) ∷ rs) = carried rs
  carried (ready (some (err e)) ∷ rs) = []
  carried (ready none ∷ rs) = []
  carried (pending ∷ rs) = carried rs

  understands-carried :
      (rs : List (Polled (socket codec))) → payloads (understands codec rs) ≡ carried rs
  understands-carried [] = refl
  understands-carried (ready (some (ok (Message.text s))) ∷ rs) =
      ground (arith, understands-carried rs)
  understands-carried (ready (some (ok (Message.close f))) ∷ rs) = understands-carried rs
  understands-carried (ready (some (ok (Message.other m))) ∷ rs) = understands-carried rs
  understands-carried (ready (some (err e)) ∷ rs) = refl
  understands-carried (ready none ∷ rs) = refl
  understands-carried (pending ∷ rs) = understands-carried rs

  -- Over any polls of the websocket and any interleaving of the reader, the writer and the shutdown
  -- signal: the payloads that the texts of the websocket hold, until its end or its first error, are
  -- those that were read, of which the callback was given the event of each, once and in order, and
  -- those that are not read yet; and `sequence` is the last number among the ones read.
  pub turns-carried :
      (polled : ℕ) (conn : W.Socket) (journal : JsonCodec) (ts : List (Turn A)) (sequence : ℕ)
      → let incoming = items codec (polls polled (opened codec conn journal)) in
        let (s, out, end) =
          turns ts (record {
            sequence = sequence;
            shutdown = false;
            closed = none;
            incoming = incoming;
          }) in
        (read : List (Payload A)) × (carried (conn_polls (socket codec) polled conn)
          ≡ read ++ payloads s.incoming)
        × (heard out ≡ map (λ p. GatewayEvent.event p.event) read)
        × (s.sequence ≡ last_number sequence read)
  turns-carried polled conn journal ts sequence =
      let incoming = items codec (polls polled (opened codec conn journal)) in
      let s : Live A = record {
        sequence = sequence;
        shutdown = false;
        closed = none;
        incoming = incoming;
      } in
      let rs = conn_polls (socket codec) polled conn in
      let (read, (split, number, told)) = turns-Reads ts s in
      (
        payloads read,
        sym (understands-carried rs)
            ∙ ap payloads (sym (polls-understands codec polled conn journal))
            ∙ ap payloads split
            ∙ payloads-append read (turns ts s).0.incoming,
        told ∙ events-payloads read,
        number ∙ last_sequence-payloads sequence read,
      )
