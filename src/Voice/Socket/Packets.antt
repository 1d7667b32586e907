-- ===== src/Voice/Socket/Packets.antt =====
-- voice/socket.rs: the packets of a run of frames.
use discord_async_rs.Prelude.{
  ℕ, suc, none, some, List, [], ◌∷◌, ◌++◌, length, All, ◌≡◌, ◌≤◌, ◌+◌, refl, arith,
}
use discord_async_rs.Voice.Socket.{SocketApi, header, write}
use discord_async_rs.Voice.Socket.Nonces.{sequence_at, timestamp_at, nonce_at}

-- The cipher under the key always gives the text and a tag of 16 bytes.
abbrev pub Seals : (A : SocketApi) → A.Key → (List ℕ → List ℕ → List ℕ) → Type 0
Seals A key seal =
    (n text : List ℕ)
    → (A.encrypt key n text ≡ some (seal n text)) × (length (seal n text) ≡ length text + 16)

-- The packets from number `i` on.
abbrev pub packets : (List ℕ → List ℕ → List ℕ) → ℕ → ℕ → List (List ℕ) → List (List ℕ)
packets seal ssrc i [] = []
packets seal ssrc i (frame ∷ frames) =
    (header ssrc (sequence_at i) (timestamp_at i) ++ seal (nonce_at ssrc i) frame)
    ∷ packets seal ssrc (suc i) frames

module _ (A : SocketApi) (key : A.Key) (seal : List ℕ → List ℕ → List ℕ)
    (law : Seals A key seal) where
  -- From number `i` on, frames of up to 2020 bytes are all sent, each sealed behind its header.
  pub write-packets :
      (ssrc i : ℕ) (frames : List (List ℕ))
      → All (λ f. length f ≤ 2020) frames
      → write A key ssrc (sequence_at i) (timestamp_at i) frames
        ≡ (packets seal ssrc i frames, none)
  unfolding write
  write-packets ssrc i [] h = refl
  write-packets ssrc i (frame ∷ frames) h =
      ground (arith, law (nonce_at ssrc i) frame, write-packets ssrc (suc i) frames h.1, h.0)
