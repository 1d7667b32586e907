-- ===== src/Voice/Socket/Bytes.antt =====
-- voice/socket.rs: the bytes of numbers.
use discord_async_rs.Prelude.{
  ℕ, zero, suc, List, [], ◌∷◌, ◌++◌, ◌≡◌, ◌<◌, ◌^◌, ◌/◌, ◌%◌, some, arith, ap,
}
use discord_async_rs.Voice.Socket.{u16_be, u32_be, read_u16, header, nonce}

-- The byte at a position, 0 beyond the end.
abbrev byte : ℕ → List ℕ → ℕ
byte k [] = 0
byte zero (b ∷ bs) = b
byte (suc k) (b ∷ bs) = byte k bs

-- Equal nonces have equal timestamps in them.
pub nonce-timestamp :
    (ssrc s s' t t' : ℕ)
    → t < 2 ^ 32
    → t' < 2 ^ 32
    → nonce (header ssrc s t) ≡ nonce (header ssrc s' t')
    → t ≡ t'
unfolding nonce header u16_be u32_be
nonce-timestamp ssrc s s' t t' h h' e =
    let a : t / 16777216 % 256 ≡ t' / 16777216 % 256 = ap (byte 4) e in
    let b : t / 65536 % 256 ≡ t' / 65536 % 256 = ap (byte 5) e in
    let c : t / 256 % 256 ≡ t' / 256 % 256 = ap (byte 6) e in
    let d : t % 256 ≡ t' % 256 = ap (byte 7) e in omega arith

pub read_u16-u16_be : (n : ℕ) (bs : List ℕ) → n < 2 ^ 16 → read_u16 (u16_be n ++ bs) ≡ some n
unfolding read_u16 u16_be
read_u16-u16_be n bs h = ap some (omega arith)
