-- ===== src/Voice/Socket.antt =====
-- voice/socket.rs: the bytes of the discovery of the own address and of the packets of voice
-- frames; the run of a socket is in Session. A byte is a number below 256. What the network gives
-- comes as an argument. The crates xsalsa20poly1305 and the parsers of the standard library are
-- parameters.
pub mod Bytes
pub mod Discovery
pub mod Nonces
pub mod Packets
pub mod Session
pub mod Tests
use discord_async_rs.Prelude.{
  ℕ, Bool, true, false, Option, none, some, List, [], ◌∷◌, ◌++◌, length, take, drop, replicate, ltb,
  ◌==◌, if◌then◌else◌, Result, ok, err, ok_or, ◌>>=◌, ◌+◌, ◌*◌, ◌/◌, ◌%◌, ◌^◌,
}

-- `write_u16` and `write_u32` of byteorder, big endian.
unfoldable pub u16_be : ℕ → List ℕ
u16_be n = n / 256 % 256 ∷ n % 256 ∷ []

unfoldable pub u32_be : ℕ → List ℕ
u32_be n = n / 16777216 % 256 ∷ n / 65536 % 256 ∷ n / 256 % 256 ∷ n % 256 ∷ []

-- `read_u16`, which fails on fewer than two bytes.
unfoldable pub read_u16 : List ℕ → Option ℕ
read_u16 (a ∷ b ∷ bs) = some (256 * a + b)
read_u16 _ = none

-- `buf[a..b]`
abbrev pub range : ℕ → ℕ → List ℕ → List ℕ
range a n bs = take n (drop a bs)

-- The first part of `split(|&v| v == 0)`.
unfoldable pub until_zero : List ℕ → List ℕ
until_zero [] = []
until_zero (b ∷ bs) = let rest = until_zero bs in if b == 0 then [] else b ∷ rest

pub data Error : Type 0 where
  unknown_peer unexpected_type unexpected_packet invalid_ip io encryption out_of_range timeout
        canceled send :
      Error

pub record SocketApi : Type 1 where
  pub Addr : Type 0
  pub addr_eq : Addr → Addr → Bool
  -- `str::from_utf8`, and `parse` of the address with the port.
  pub Text : Type 0
  pub from_utf8 : List ℕ → Option Text
  pub parse : Text → ℕ → Option Addr
  -- `encrypt_in_place` under a key: nonce, text, cipher text with its tag.
  pub Key : Type 0
  pub encrypt : Key → List ℕ → List ℕ → Option (List ℕ)

-- The first 74 bytes of the buffer.
unfoldable pub discovery_request : ℕ → List ℕ
discovery_request ssrc = u16_be 1 ++ (u16_be 70 ++ (u32_be ssrc ++ replicate 66 0))

module _ (A : SocketApi) where
  -- The address of `Socket::new`, by the answer of `to_socket_addrs`.
  unfoldable pub resolve : Result (List A.Addr) Error → Result A.Addr Error
  resolve (err e) = err e
  resolve (ok []) = err Error.io
  resolve (ok (addr ∷ more)) = ok addr

  -- What `run` makes of the answer: the buffer of 128 bytes, whose first `len` were received.
  unfoldable pub external_addr : A.Addr → A.Addr → ℕ → List ℕ → Result A.Addr Error
  external_addr server peer len buf =
      if A.addr_eq peer server
      then (ok_or (read_u16 (take 2 buf)) Error.io >>= (λ ty.
          if ty == 2
          then (if ltb len 74
              then err Error.unexpected_packet
              else (ok_or (A.from_utf8 (until_zero (range 8 64 buf))) Error.invalid_ip >>= (λ ip.
                  ok_or (read_u16 (range 72 2 buf)) Error.io
                  >>= (λ port. ok_or (A.parse ip port) Error.invalid_ip))))
          else err Error.unexpected_type))
      else err Error.unknown_peer

-- The first 12 bytes of a packet.
unfoldable pub header : ℕ → ℕ → ℕ → List ℕ
header ssrc sequence timestamp = 128 ∷ 120 ∷ (u16_be sequence ++ (u32_be timestamp ++ u32_be ssrc))

-- The nonce is the header with zeros behind it.
unfoldable pub nonce : List ℕ → List ℕ
nonce head = head ++ replicate 12 0

abbrev pub next_sequence : ℕ → ℕ
next_sequence n = (n + 1) % 2 ^ 16

abbrev pub next_timestamp : ℕ → ℕ
next_timestamp t = (t + 960) % 2 ^ 32

module _ (A : SocketApi) where
  -- A frame in a packet. The slice of the packet's buffer, which has 2048 bytes, panics on a longer
  -- packet.
  unfoldable pub seal_packet : A.Key → ℕ → ℕ → ℕ → List ℕ → Result (List ℕ) Error
  seal_packet key ssrc sequence timestamp frame =
      elim (A.encrypt key (nonce (header ssrc sequence timestamp)) frame) [
        | none ↦ err Error.encryption
        | some c ↦
            if ltb 2048 (length c + 12)
            then err Error.out_of_range
            else ok (header ssrc sequence timestamp ++ c)
      ]

  -- The loop of `write`, if the socket sends every packet: the packets, and how it ends.
  unfoldable pub write : A.Key → ℕ → ℕ → ℕ → List (List ℕ) → List (List ℕ) × Option Error
  unfolding seal_packet
  write key ssrc sequence timestamp [] = ([], none)
  write key ssrc sequence timestamp (frame ∷ frames) =
      let rest = write key ssrc (next_sequence sequence) (next_timestamp timestamp) frames in
      elim (seal_packet key ssrc sequence timestamp frame) [
        | err e ↦ ([], some e)
        | ok packet ↦ (packet ∷ rest.0, rest.1)
      ]
