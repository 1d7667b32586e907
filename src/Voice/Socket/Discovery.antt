-- ===== src/Voice/Socket/Discovery.antt =====
-- voice/socket.rs: the answer to the discovery, as the server writes it and as `run` reads it.
use discord_async_rs.Prelude.{
  ℕ, zero, suc, true, List, [], ◌∷◌, ◌++◌, length, take, drop, replicate, All, ◌≡◌, ◌≤◌, ◌<◌, ◌-◌,
  ◌^◌, refl, arith, Option-cases, inl, inr, ap, ◌∙◌, some, ok_or, ◌>>=◌, length-append,
  length-replicate,
}
use discord_async_rs.Voice.Socket.{
  SocketApi, Error, u16_be, u32_be, read_u16, range, until_zero, external_addr,
}
use discord_async_rs.Voice.Socket.Bytes.{read_u16-u16_be}

-- The address in 64 bytes, with zeros behind it.
abbrev pub padded : List ℕ → List ℕ
padded ip = ip ++ replicate (64 - length ip) 0

-- The answer, and what else is in the buffer.
abbrev pub reply : ℕ → List ℕ → ℕ → List ℕ → List ℕ
reply ssrc ip port rest =
    u16_be 2 ++ (u16_be 70 ++ (u32_be ssrc ++ (padded ip ++ (u16_be port ++ rest))))

until_zero-replicate : (k : ℕ) → until_zero (replicate k 0) ≡ []
unfolding until_zero
until_zero-replicate zero = refl
until_zero-replicate (suc k) = refl

until_zero-pad : (ip : List ℕ) (k : ℕ) → All (λ b. 1 ≤ b) ip → until_zero (ip ++ replicate k 0) ≡ ip
unfolding until_zero
until_zero-pad [] k h = until_zero-replicate k
until_zero-pad (b ∷ bs) k h = ground (arith, until_zero-pad bs k h.1, h.0)

take-append_length : (n : ℕ) (xs ys : List ℕ) → length xs ≡ n → take n (xs ++ ys) ≡ xs
take-append_length zero [] ys e = refl
take-append_length zero (x ∷ xs) ys e = absurd (omega arith)
take-append_length (suc n) [] ys e = absurd (omega arith)
take-append_length (suc n) (x ∷ xs) ys e = ap (◌∷◌ x) (take-append_length n xs ys (omega arith))

drop-append_length : (n : ℕ) (xs ys : List ℕ) → length xs ≡ n → drop n (xs ++ ys) ≡ ys
drop-append_length zero [] ys e = refl
drop-append_length zero (x ∷ xs) ys e = absurd (omega arith)
drop-append_length (suc n) [] ys e = absurd (omega arith)
drop-append_length (suc n) (x ∷ xs) ys e = drop-append_length n xs ys (omega arith)

length-padded : (ip : List ℕ) → length ip ≤ 64 → length (padded ip) ≡ 64
length-padded ip h = omega (
  arith,
  length-append ip (replicate (64 - length ip) 0),
  length-replicate {A = ℕ} (64 - length ip) 0,
)

-- The fields of an answer.
ip_of_reply :
    (ssrc port : ℕ) (ip rest : List ℕ)
    → length ip ≤ 64
    → All (λ b. 1 ≤ b) ip
    → until_zero (range 8 64 (reply ssrc ip port rest)) ≡ ip
unfolding u16_be u32_be
ip_of_reply ssrc port ip rest h z =
    ap until_zero (take-append_length 64 (padded ip) (u16_be port ++ rest) (length-padded ip h))
    ∙ until_zero-pad ip (64 - length ip) z

port_of_reply :
    (ssrc port : ℕ) (ip rest : List ℕ)
    → length ip ≤ 64
    → port < 2 ^ 16
    → read_u16 (range 72 2 (reply ssrc ip port rest)) ≡ some port
unfolding u16_be u32_be
port_of_reply ssrc port ip rest h p =
    ap (λ x. read_u16 (take 2 x))
      (drop-append_length 64 (padded ip) (u16_be port ++ rest) (length-padded ip h))
    ∙ read_u16-u16_be port [] p

type_of_reply :
    (ssrc port : ℕ) (ip rest : List ℕ) → read_u16 (take 2 (reply ssrc ip port rest)) ≡ some 2
unfolding u16_be read_u16
type_of_reply ssrc port ip rest = refl

module _ (A : SocketApi) where
  -- From the answer of the server, with an address of up to 64 bytes none of which is zero, the
  -- socket reads that address and that port.
  pub external_addr-reply :
      (server : A.Addr) (ssrc port len : ℕ) (ip rest : List ℕ)
      → A.addr_eq server server ≡ true
      → 74 ≤ len
      → length ip ≤ 64
      → All (λ b. 1 ≤ b) ip
      → port < 2 ^ 16
      → external_addr A server server len (reply ssrc ip port rest) ≡ (
          ok_or (A.from_utf8 ip) Error.invalid_ip
          >>= (λ text. ok_or (A.parse text port) Error.invalid_ip))
  unfolding external_addr
  external_addr-reply server ssrc port len ip rest e l h z p =
      rw
        (
          e,
          external_addr,
          type_of_reply ssrc port ip rest,
          ip_of_reply ssrc port ip rest h z,
          port_of_reply ssrc port ip rest h p,
        )
        (elim (Option-cases (A.from_utf8 ip)) [ inl n ↦ ground arith | inr (t, n) ↦ ground arith ])
