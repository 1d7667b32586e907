-- ===== src/Voice/Socket/Nonces.antt =====
-- voice/socket.rs: when two packets share a nonce.
use discord_async_rs.Prelude.{ℕ, zero, suc, List, ◌≡◌, ◌↔◌, ◌<◌, ◌*◌, ◌^◌, ◌%◌, arith, sym, ◌∙◌}
use discord_async_rs.Voice.Socket.{header, nonce, next_sequence, next_timestamp}
use discord_async_rs.Voice.Socket.Bytes.{nonce-timestamp}

-- The sequence and the timestamp of the packet behind `i` others.
abbrev pub sequence_at : ℕ → ℕ
sequence_at zero = 0
sequence_at (suc i) = next_sequence (sequence_at i)

abbrev pub timestamp_at : ℕ → ℕ
timestamp_at zero = 0
timestamp_at (suc i) = next_timestamp (timestamp_at i)

pub sequence_at_mod : (i : ℕ) → sequence_at i ≡ i % 2 ^ 16
sequence_at_mod zero = omega arith
sequence_at_mod (suc i) = omega (arith, sequence_at_mod i)

pub timestamp_at_mod : (i : ℕ) → timestamp_at i ≡ 960 * i % 2 ^ 32
timestamp_at_mod zero = omega arith
timestamp_at_mod (suc i) = omega (arith, timestamp_at_mod i)

abbrev pub nonce_at : ℕ → ℕ → List ℕ
nonce_at ssrc i = nonce (header ssrc (sequence_at i) (timestamp_at i))

wrap_exact : (i j : ℕ) → (960 * i % 2 ^ 32 ≡ 960 * j % 2 ^ 32) ↔ (i % 2 ^ 26 ≡ j % 2 ^ 26)
wrap_exact i j = (λ e. omega arith, λ e. omega arith)

wrap16 : (i j : ℕ) → i % 2 ^ 26 ≡ j % 2 ^ 26 → i % 2 ^ 16 ≡ j % 2 ^ 16
wrap16 i j e = omega arith

timestamps : (i j : ℕ) → timestamp_at i ≡ timestamp_at j → i % 2 ^ 26 ≡ j % 2 ^ 26
timestamps i j e = (wrap_exact i j).0 (sym (timestamp_at_mod i) ∙ e ∙ timestamp_at_mod j)

bounded : (i : ℕ) → timestamp_at i < 2 ^ 32
bounded i = omega (arith, timestamp_at_mod i)

-- Under one key, the packets i and j have the same nonce exactly if i and j leave the same rest
-- modulo 2 ^ 26: 67,108,864 packets are sent before a nonce comes again.
pub nonce_at_exact :
    (ssrc i j : ℕ) → (nonce_at ssrc i ≡ nonce_at ssrc j) ↔ (i % 2 ^ 26 ≡ j % 2 ^ 26)
nonce_at_exact ssrc i j = (
  λ e. timestamps i j (
      nonce-timestamp ssrc (sequence_at i) (sequence_at j) (timestamp_at i) (timestamp_at j)
        (bounded i) (bounded j) e),
  λ e.
      let s : sequence_at i ≡ sequence_at j =
        sequence_at_mod i ∙ wrap16 i j e ∙ sym (sequence_at_mod j) in
      let t : timestamp_at i ≡ timestamp_at j =
        timestamp_at_mod i ∙ (wrap_exact i j).1 e ∙ sym (timestamp_at_mod j) in
      cc,
)
