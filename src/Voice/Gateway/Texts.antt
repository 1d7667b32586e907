-- ===== src/Voice/Gateway/Texts.antt =====
-- voice/gateway.rs over codec/mod.rs: from the messages of the websocket to the voice connection.
use discord_async_rs.Prelude.{
  ℕ, zero, suc, false, none, some, String, List, [], ◌∷◌, length, All, Result, ok, err, ◌≡◌, ◌≤◌,
  refl, ap, ◌∙◌, arith, if◌then◌else◌, is_some, Bool, true, map, ◌||◌, ◌&&◌,
}
use discord_async_rs.Gateway.{GatewayApi}
use discord_async_rs.Gateway.Stream.{ready, pending, Polled, conn_polls, cut, ends}
use discord_async_rs.Codec.{Message, CodecApi, JsonCodec}
use discord_async_rs.Codec.Polls.{connection, socket, understood, polls-understood}
use discord_async_rs.Codec.Items.{items, understands, polls-understands}
use discord_async_rs.Voice.Gateway.{VoiceApi, Command}
use discord_async_rs.Voice.Gateway.Socket.{Gateway, poll_next, polls, polls-same}
use discord_async_rs.Voice.Gateway.Turns.{Turn, turns, joined, live}
use discord_async_rs.Voice.Gateway.Carries.{carried, events}
use discord_async_rs.Voice.Gateway.Whole.{
  reads, IsTaken, ends_writer, turns-whole, closes, joined-both, turns-ends_writer,
}

module _ {A : GatewayApi} (W : CodecApi A) (V : VoiceApi)
    (to_string : Command → Result String A.SerdeError)
    (from_str : String → Result V.Event A.SerdeError) where
  -- The codec of the voice gateway: it sends commands and receives events.
  abbrev pub codec : CodecApi A
  codec = record W { S = Command; D = V.Event; to_string = to_string; from_str = from_str }

  -- The events that the texts of the websocket hold, until a closing message, its end or its first
  -- error, without the acknowledgements of heartbeats.
  abbrev pub told : List (Polled (socket codec)) → List V.Event
  told [] = []
  told (ready (some (ok (Message.text s))) ∷ rs) = elim (from_str s) [
    | ok e ↦ if V.is_heartbeat_ack e then told rs else e ∷ told rs
    | err e ↦ told rs
  ]
  told (ready (some (ok (Message.close frame))) ∷ rs) = []
  told (ready (some (ok (Message.other m))) ∷ rs) = told rs
  told (ready (some (err e)) ∷ rs) = []
  told (ready none ∷ rs) = []
  told (pending ∷ rs) = told rs

  understands-told :
      (rs : List (Polled (socket codec))) → events A V (understands codec rs) ≡ told rs
  understands-told [] = refl
  understands-told (ready (some (ok (Message.text s))) ∷ rs) = ground (arith, understands-told rs)
  understands-told (ready (some (ok (Message.close f))) ∷ rs) = refl
  understands-told (ready (some (ok (Message.other m))) ∷ rs) = understands-told rs
  understands-told (ready (some (err e)) ∷ rs) = refl
  understands-told (ready none ∷ rs) = refl
  understands-told (pending ∷ rs) = understands-told rs

  abbrev pub opened : W.Socket → JsonCodec → Gateway codec
  opened conn journal = record { conn = record { conn = conn; codec = journal }; finished = false }

  length-items : (rs : List (Polled (connection codec))) → length (items codec rs) ≤ length rs
  length-items [] = omega arith
  length-items (ready (some r) ∷ rs) = omega (arith, length-items rs)
  length-items (ready none ∷ rs) = omega arith
  length-items (pending ∷ rs) = omega (arith, length-items rs)

  length-polls : (n : ℕ) (g : Gateway codec) → length (polls codec n g) ≡ n
  unfolding polls
  length-polls zero g = refl
  length-polls (suc n) g = ap suc (length-polls n (poll_next codec g).1)

  -- Whether the stream gives its end.
  abbrev pub stops : List (Polled (connection codec)) → Bool
  stops [] = false
  stops (ready (some r) ∷ rs) = stops rs
  stops (ready none ∷ rs) = true
  stops (pending ∷ rs) = stops rs

  -- Whether the websocket ends, is polled again behind its first error, or has a closing message.
  abbrev pub is_over : List (Polled (socket codec)) → Bool
  is_over [] = false
  is_over (ready (some (ok (Message.text s))) ∷ rs) = is_over rs
  is_over (ready (some (ok (Message.close frame))) ∷ rs) = true
  is_over (ready (some (ok (Message.other m))) ∷ rs) = is_over rs
  is_over (ready (some (err e)) ∷ []) = false
  is_over (ready (some (err e)) ∷ r ∷ rs) = true
  is_over (ready none ∷ rs) = true
  is_over (pending ∷ rs) = is_over rs

  cut-is_over :
      (rs : List (Polled (socket codec)))
      → let given = map (understood codec) (cut (socket codec) rs) in
        (stops given || closes A V (items codec given)) ≡ is_over rs
  unfolding cut ends
  cut-is_over [] = refl
  cut-is_over (ready (some (ok (Message.text s))) ∷ rs) = ground (arith, cut-is_over rs)
  cut-is_over (ready (some (ok (Message.close f))) ∷ rs) = ground arith
  cut-is_over (ready (some (ok (Message.other m))) ∷ rs) = cut-is_over rs
  cut-is_over (ready (some (err e)) ∷ []) = refl
  cut-is_over (ready (some (err e)) ∷ r ∷ rs) = refl
  cut-is_over (ready none ∷ rs) = refl
  cut-is_over (pending ∷ rs) = cut-is_over rs

  polls-is_over :
      (polled : ℕ) (conn : W.Socket) (journal : JsonCodec)
      → let given = polls codec polled (opened conn journal) in
        (stops given || closes A V (items codec given))
        ≡ is_over (conn_polls (socket codec) polled conn)
  polls-is_over polled conn journal =
      ap (λ given. stops given || closes A V (items codec given))
        (polls-same codec polled (opened conn journal)
          ∙ polls-understood codec polled (record { conn = conn; codec = journal }))
      ∙ cut-is_over (conn_polls (socket codec) polled conn)

  -- If the receiver of the events is there, and the reader has one turn more than the websocket is
  -- polled, then whatever the writer does in between, the events that are handed out are those that
  -- the texts of the websocket hold, until a closing message, its end or its first error, once and
  -- in order, without the acknowledgements of heartbeats. The reader has ended exactly if the
  -- websocket gave its end or a closing message, or was polled again behind its first error; the
  -- task has ended exactly if besides the commands had an end or one could not be sent.
  pub turns-told :
      (polled : ℕ) (conn : W.Socket) (journal : JsonCodec) (ts : List (Turn A))
      → All IsTaken ts
      → suc polled ≤ reads ts
      → let given = polls codec polled (opened conn journal) in
        let r = turns ts (live {V = V} (stops given) (items codec given)) in
        let rs = conn_polls (socket codec) polled conn in
        (carried r.1 ≡ told rs)
        × (is_some r.0.reader ≡ is_over rs)
        × (is_some (joined r.0) ≡ (is_over rs && ends_writer ts))
  turns-told polled conn journal ts taken enough =
      let given = polls codec polled (opened conn journal) in
      let r = turns ts (live {V = V} (stops given) (items codec given)) in
      let (all, reader) =
        turns-whole A V (stops given) (items codec given) ts taken
          (omega (arith, length-items given, length-polls polled (opened conn journal))) in
      let ended = reader ∙ polls-is_over polled conn journal in
      (
        all
            ∙ ap (λ rs. events A V (items codec rs)) (polls-same codec polled (opened conn journal))
            ∙ ap (events A V) (polls-understands codec polled conn journal)
            ∙ understands-told (conn_polls (socket codec) polled conn),
        ended,
        joined-both A V r.0
            ∙ ap (λ b. b && is_some r.0.writer) ended
            ∙ ap (λ b. is_over (conn_polls (socket codec) polled conn) && b)
                (turns-ends_writer A V (stops given) (items codec given) ts),
      )
