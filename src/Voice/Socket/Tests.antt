-- ===== src/Voice/Socket/Tests.antt =====
-- voice/socket.rs: the theorems at concrete inputs.
use discord_async_rs.Prelude.{
  ℕ, true, some, List, [], ◌∷◌, ◌++◌, replicate, ◌≡◌, ◌↔◌, ◌%◌, ◌^◌, refl, arith, ok_or, ◌>>=◌,
  length-append, length-replicate,
}
use discord_async_rs.Voice.Socket.{SocketApi, Error, external_addr}
use discord_async_rs.Voice.Socket.Discovery.{reply, external_addr-reply}
use discord_async_rs.Voice.Socket.Nonces.{nonce_at, nonce_at_exact}
use discord_async_rs.Voice.Socket.Packets.{Seals}

-- A cipher that puts 16 zeros behind the text.
abbrev pub seal : List ℕ → List ℕ → List ℕ
seal n text = text ++ replicate 16 0

abbrev pub api : SocketApi
api = record {
  Addr = ℕ;
  addr_eq = λ a b. true;
  Text = List ℕ;
  from_utf8 = λ bs. some bs;
  parse = λ text port. some port;
  Key = Unit;
  encrypt = λ key n text. some (seal n text);
}

pub seal-Seals : Seals api tt seal
seal-Seals n text =
    (refl, omega (arith, length-append text (replicate 16 0), length-replicate {A = ℕ} 16 0))

external_addr-reply_example : external_addr api 1 1 74 (reply 9 (49 ∷ 46 ∷ 49 ∷ []) 4000 []) ≡ (
    ok_or (api.from_utf8 (49 ∷ 46 ∷ 49 ∷ [])) Error.invalid_ip
    >>= (λ text. ok_or (api.parse text 4000) Error.invalid_ip))
external_addr-reply_example =
    external_addr-reply api 1 9 4000 74 (49 ∷ 46 ∷ 49 ∷ []) [] refl (omega arith) (omega arith)
      (omega arith, (omega arith, (omega arith, tt))) (omega arith)

nonce_at_exact_example : (nonce_at 7 3 ≡ nonce_at 7 5) ↔ (3 % 2 ^ 26 ≡ 5 % 2 ^ 26)
nonce_at_exact_example = nonce_at_exact 7 3 5
