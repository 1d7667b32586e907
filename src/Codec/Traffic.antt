-- ===== src/Codec/Traffic.antt =====
-- codec/mod.rs with codec/json.rs: the journal of a connection.
use Prim.Native.String.{◌++◌}
use text.Mathlib.TextLemmas.{append-nil, append_assoc}
use discord_async_rs.Prelude.{
  Option, none, some, String, List, [], ◌∷◌, Result, ok, err, ◌≡◌, refl, sym, ap, ◌∙◌, Result-cases,
  inl, inr, arith,
}
use mathlib.Core.Option
use discord_async_rs.Gateway.{GatewayApi}
use discord_async_rs.Gateway.Stream.{Poll}
use discord_async_rs.Codec.{
  Message, CodecApi, JsonCodec, Connection, write, encode, decode, received, poll_next, poll_ready,
  start_send, poll_flush, poll_close,
}

-- The calls of a connection's stream and of its sink.
pub data Call {A : GatewayApi} (C : CodecApi A) : Type 0 where
  next ready flush close : Call C
  send : C.S → Call C

module _ {A : GatewayApi} (C : CodecApi A) where
  pub call : Call C → Connection C → Connection C
  call Call.next c = (poll_next C c).1
  call Call.ready c = (poll_ready C c).1
  call Call.flush c = (poll_flush C c).1
  call Call.close c = (poll_close C c).1
  call (Call.send s) c = (start_send C s c).1

  pub calls : List (Call C) → Connection C → Connection C
  unfolding call
  calls [] c = c
  calls (x ∷ xs) c = calls xs (call x c)

  -- The line for a text.
  abbrev pub line : String → String → String
  line tag s = tag ++ (s ++ "\n")

  abbrev pub line_in : Poll (Option (Result (Message A C.Other) A.WsError)) → String
  line_in (Poll.ready (some (ok (Message.text s)))) = line "IN: " s
  line_in _ = ""

  -- The texts that the websocket gave and that serde made, each behind its mark and in a line.
  unfoldable pub traffic : List (Call C) → C.Socket → String
  traffic [] conn = ""
  traffic (Call.next ∷ xs) conn = line_in (C.poll_next conn).0 ++ traffic xs (C.poll_next conn).1
  traffic (Call.ready ∷ xs) conn = traffic xs (C.poll_ready conn).1
  traffic (Call.flush ∷ xs) conn = traffic xs (C.poll_flush conn).1
  traffic (Call.close ∷ xs) conn = traffic xs (C.poll_close conn).1
  traffic (Call.send s ∷ xs) conn = elim (C.to_string s) [
    | err e ↦ traffic xs conn
    | ok t ↦ line "OUT: " t ++ traffic xs (C.start_send (Message.text t) conn).1
  ]

  -- A journal with this text added.
  abbrev pub grown : String → JsonCodec → JsonCodec
  grown more codec = record { file = Option.map (λ written. written ++ more) codec.file }

  grown-grown : (s t : String) (codec : JsonCodec) → grown t (grown s codec) ≡ grown (s ++ t) codec
  grown-grown s t codec = by_file codec.file
    where
      by_file :
          (file : Option String)
          → grown t (grown s (record { file = file })) ≡ grown (s ++ t) (record { file = file })
      by_file none = refl
      by_file (some w) = ap (λ w. record { file = some w }) (append_assoc w s t)

  grown-nil : (codec : JsonCodec) → codec ≡ grown "" codec
  grown-nil codec = by_file codec.file
    where
      by_file : (file : Option String) → record { file = file } ≡ grown "" (record { file = file })
      by_file none = refl
      by_file (some w) = ap (λ w. record { file = some w }) (sym (append-nil w))

  write-grown : (tag s : String) (codec : JsonCodec) → write tag s codec ≡ grown (line tag s) codec
  write-grown tag s codec = by_file codec.file
    where
      by_file :
          (file : Option String)
          → write tag s (record { file = file }) ≡ grown (line tag s) (record { file = file })
      by_file none = refl
      by_file (some w) = refl

  received-grown :
      (r : Poll (Option (Result (Message A C.Other) A.WsError))) (codec : JsonCodec)
      → (received C r codec).1 ≡ grown (line_in r) codec
  unfolding received decode
  received-grown (Poll.ready (some (ok (Message.text s)))) codec = write-grown "IN: " s codec
  received-grown (Poll.ready (some (ok (Message.close f)))) codec = grown-nil codec
  received-grown (Poll.ready (some (ok (Message.other m)))) codec = grown-nil codec
  received-grown (Poll.ready (some (err e))) codec = grown-nil codec
  received-grown (Poll.ready none) codec = grown-nil codec
  received-grown Poll.pending codec = grown-nil codec

  -- Over any calls of its stream and of its sink, the journal of a connection is what it held, with
  -- a line behind it for every text that the websocket gave and for every one that serde made of
  -- what was to be sent, in the order of the calls; without a journal nothing is written.
  pub calls-traffic :
      (xs : List (Call C)) (c : Connection C)
      → (calls xs c).codec ≡ grown (traffic xs c.conn) c.codec
  unfolding calls call traffic poll_next poll_ready poll_flush poll_close start_send encode
  calls-traffic [] c = grown-nil c.codec
  calls-traffic (Call.next ∷ xs) c =
      calls-traffic xs (poll_next C c).1
      ∙ ap (grown (traffic xs (C.poll_next c.conn).1))
          (received-grown (C.poll_next c.conn).0 c.codec)
      ∙ grown-grown (line_in (C.poll_next c.conn).0) (traffic xs (C.poll_next c.conn).1) c.codec
  calls-traffic (Call.ready ∷ xs) c = calls-traffic xs (poll_ready C c).1
  calls-traffic (Call.flush ∷ xs) c = calls-traffic xs (poll_flush C c).1
  calls-traffic (Call.close ∷ xs) c = calls-traffic xs (poll_close C c).1
  calls-traffic (Call.send s ∷ xs) c = elim (Result-cases (C.to_string s)) [
    | inr (e, refused) ↦
        let kept : (start_send C s c).1 ≡ c = ground arith in
        rw (refused, traffic) (ap (λ d. (calls xs d).codec) kept ∙ calls-traffic xs c)
    | inl (t, made) ↦
        let after : Connection C = record {
          conn = (C.start_send (Message.text t) c.conn).1;
          codec = write "OUT: " t c.codec;
        } in
        let sends : (start_send C s c).1 ≡ after = ground arith in
        rw (made, traffic)
          (ap (λ d. (calls xs d).codec) sends
            ∙ calls-traffic xs after
            ∙ ap (grown (traffic xs after.conn)) (write-grown "OUT: " t c.codec)
            ∙ grown-grown (line "OUT: " t) (traffic xs after.conn) c.codec)
  ]
