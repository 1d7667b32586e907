-- ===== src/Voice/Pcm.antt =====
-- voice/pcm.rs: the frames of samples. A byte is a number below 256.
pub mod Frames
pub mod Chunks
mod Tests
use discord_async_rs.Prelude.{
  ℕ, Bool, true, false, Option, none, some, List, [], ◌∷◌, length, take, drop, leb, if◌then◌else◌,
  ◌*◌, ◌/◌,
}

-- voice.rs.
abbrev pub sample_rate : ℕ
sample_rate = 48000

abbrev pub frame_length_ms : ℕ
frame_length_ms = 20

unfoldable pub frame_sample_size : Bool → ℕ
frame_sample_size stereo =
    let size = sample_rate * frame_length_ms / 1000 in if stereo then 2 * size else size

-- `PcmCodec::decode`, for a codec of this frame size: the frame, and the bytes that are left.
unfoldable pub decode : ℕ → List ℕ → Option (List ℕ) × List ℕ
decode size src =
    if leb (2 * size) (length src)
    then (some (take (2 * size) src), drop (2 * size) src)
    else (none, src)

-- `decode_eof`.
unfoldable pub decode_eof : ℕ → List ℕ → Option (List ℕ) × List ℕ
decode_eof size src = elim (decode size src).0 [
  | some frame ↦ (some frame, (decode size src).1)
  | none ↦ (none, (decode size src).1)
]
