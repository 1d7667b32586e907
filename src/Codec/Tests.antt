-- ===== src/Codec/Tests.antt =====
-- codec: the theorems at a concrete websocket and serde.
use Prim.Native.String.{len}
use discord_async_rs.Prelude.{
  ℕ, ◌+◌, Bool, true, false, Option, none, some, String, [], ◌∷◌, Result, ok, err, ◌≡◌, ap, sym,
  refl, if◌then◌else◌, ◌==◌,
}
use discord_async_rs.Gateway.Tests.{api}
use discord_async_rs.Gateway.Stream.{Poll, ready, pending}
use discord_async_rs.Codec.{Message, CodecApi}
use discord_async_rs.Codec.Traffic.{Call, calls, traffic, grown, calls-traffic}
use discord_async_rs.Codec.Journal.{ReadsBack}

-- A socket gives, in turn, a text, a text that serde refuses, a closing message, nothing yet, and an
-- error; it has given `n` of them.
abbrev given : ℕ → Poll (Option (Result (Message api ℕ) ℕ))
given n =
    if n == 0
    then ready (some (ok (Message.text "a")))
    else if n == 1
    then ready (some (ok (Message.text "")))
    else if n == 2
    then ready (some (ok (Message.close none)))
    else if n == 3
    then pending
    else ready (some (err 7))

abbrev pub codec : CodecApi api
codec = record {
  S = Bool;
  D = ℕ;
  to_string = λ b. ok (if b then "yes" else "no");
  from_str = λ s. if len s == 0 then err 3 else ok (len s);
  Other = ℕ;
  Socket = ℕ;
  poll_next = λ n. (given n, n + 1);
  poll_ready = λ n. (ready (ok tt), n);
  start_send = λ m n. (ok tt, n);
  poll_flush = λ n. (ready (ok tt), n);
  poll_close = λ n. (ready (ok tt), n);
  close_normal = λ r n. (ok tt, n);
  connect_async = λ url. some (ok 0);
}

ok-injective : {s t : String} → ◌≡◌ {A = Result String ℕ} (ok s) (ok t) → s ≡ t
ok-injective {s} e =
    ap (λ (r : Result String ℕ). elim r as (λ _. String) [ ok x ↦ x | err _ ↦ s ]) e

read : Bool → ℕ
read b = if b then 3 else 2

read-ReadsBack : ReadsBack codec read
unfolding read
read-ReadsBack true t e = let f : t ≡ "yes" = sym (ok-injective e) in rw f refl
read-ReadsBack false t e = let f : t ≡ "no" = sym (ok-injective e) in rw f refl

calls-traffic_example :
    (calls codec
      (Call.next ∷ Call.send true ∷ Call.flush ∷ Call.next ∷ [])
      (record { conn = 0; codec = record { file = some "" } })).codec
    ≡ grown codec
        (traffic codec (Call.next ∷ Call.send true ∷ Call.flush ∷ Call.next ∷ []) 0)
        (record { file = some "" })
calls-traffic_example =
    calls-traffic codec (Call.next ∷ Call.send true ∷ Call.flush ∷ Call.next ∷ [])
      (record { conn = 0; codec = record { file = some "" } })

-- The socket of these tests stays where it is when something is sent.
traffic_told :
    traffic codec (Call.next ∷ Call.send true ∷ Call.flush ∷ Call.next ∷ []) 0
    ≡ "IN: a\nOUT: yes\nIN: \n"
unfolding traffic
traffic_told = refl
