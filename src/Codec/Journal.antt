-- ===== src/Codec/Journal.antt =====
-- codec/json.rs: what one end writes, the other reads, and both keep in their journals.
use discord_async_rs.Prelude.{String, ok, ◌≡◌, arith, Result-cases, inl, inr}
use discord_async_rs.Gateway.{GatewayApi}
use discord_async_rs.Codec.{Message, CodecApi, JsonCodec, write, encode, decode}

-- serde reads back, as `read s`, what it writes of `s`.
abbrev pub ReadsBack : {A : GatewayApi} (C : CodecApi A) → (C.S → C.D) → Type 0
ReadsBack C read = (s : C.S) (t : String) → C.to_string s ≡ ok t → C.from_str t ≡ ok (read s)

module _ {A : GatewayApi} (C : CodecApi A) (read : C.S → C.D) (law : ReadsBack C read) where
  -- Where serde reads back what it writes: a message that one codec encodes is decoded by another
  -- as the same command, and the journals of both grow by the same text, marked as sent and as
  -- received.
  pub decode-encode :
      (s : C.S) (sender sender' receiver : JsonCodec) (m : Message A C.Other)
      → encode C s sender ≡ (ok m, sender')
      → (t : String) × (sender' ≡ write "OUT: " t sender)
        × (decode C m receiver ≡ (ok (read s), write "IN: " t receiver))
  unfolding encode decode
  decode-encode s sender sender' receiver m h = elim (Result-cases (C.to_string s)) [
    | inl (t, e) ↦
        let is_text : m ≡ Message.text t = ground arith in
        (t, ground arith, rw is_text (ground (arith, law s t e)))
    | inr (x, e) ↦ ground arith
  ]
