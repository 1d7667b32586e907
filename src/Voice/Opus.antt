-- ===== src/Voice/Opus.antt =====
-- voice/opus.rs: the encoder and the paced stream of frames. The crate opus, the source of samples
-- and the clock are parameters; times are in microseconds.
pub mod Encoder
pub mod Sized
pub mod Coded
pub mod Given
pub mod Paced
pub mod Whole
mod Tests
use discord_async_rs.Prelude.{
  ℕ, Bool, true, false, Option, none, some, List, [], ◌∷◌, min, max, not, ◌&&◌, ◌==◌, if◌then◌else◌,
  Result, ok, err, ◌+◌, ◌-◌, ◌*◌, ◌/◌,
}
use discord_async_rs.Voice.Pcm.{frame_length_ms}

pub data Poll (T : Type 0) : Type 0 where
  pending : Poll T
  ready : T → Poll T

-- voice.rs.
pub data EncodeError (I E : Type 0) : Type 0 where
  io : I → EncodeError I E
  opus : E → EncodeError I E
  frame_size : EncodeError I E

abbrev pub clamp : ℕ → ℕ → ℕ → ℕ
clamp low high n = max low (min n high)

-- `OpusEncoder::new`: the bytes of a frame.
unfoldable pub encoder_frame_size : ℕ → ℕ
encoder_frame_size bitrate = clamp 6000 510000 bitrate * frame_length_ms / 8 / 1000

-- The end of `OpusEncoder::poll_next`: `encode` fills the frame and tells how much it wrote.
unfoldable pub encoded :
    {I E : Type 0} → ℕ → Result ℕ E → List ℕ → Result (List ℕ) (EncodeError I E)
encoded size (err e) frame = err (EncodeError.opus e)
encoded size (ok s) frame = if s == size then ok frame else err EncodeError.frame_size

-- What an encoder gives for a poll.
abbrev pub Item : Type 0 → Type 0
Item E = Result (List ℕ) E

pub record OpusStream (E : Type 0) : Type 0 where
  pub deadline : ℕ
  pub has_delayed : Bool
  -- The polls of the encoder that are yet to come; without one it is pending.
  pub encoder : List (Poll (Option (Item E)))
  pub silence_frames : ℕ
  pub done : Bool

-- A poll: whether the delay has elapsed, and the time.
pub record Tick : Type 0 where
  pub elapsed : Bool
  pub now : ℕ

abbrev pub silence_frame : List ℕ
silence_frame = 248 ∷ 255 ∷ 254 ∷ []

module _ {E : Type 0} where
  unfoldable pub new : ℕ → List (Poll (Option (Item E))) → OpusStream E
  new now encoder = record {
    deadline = now;
    has_delayed = false;
    encoder = encoder;
    silence_frames = 5;
    done = false;
  }

  -- The end of `poll_next`, which sets the next deadline.
  abbrev pub give : Tick → Item E → OpusStream E → Poll (Option (Item E)) × OpusStream E
  give t val s = (
    Poll.ready (some val),
    record s { has_delayed = false; deadline = t.now + (20000 - (t.now - s.deadline)) },
  )

  abbrev pub poll_encoder :
      Tick → List (Poll (Option (Item E))) → OpusStream E → Poll (Option (Item E)) × OpusStream E
  poll_encoder t [] s = (Poll.pending, s)
  poll_encoder t (Poll.pending ∷ rest) s = (Poll.pending, record s { encoder = rest })
  poll_encoder t (Poll.ready none ∷ rest) s =
      (Poll.ready none, record s { encoder = rest; done = true })
  poll_encoder t (Poll.ready (some val) ∷ rest) s = give t val (record s { encoder = rest })

  unfoldable pub poll_next : Tick → OpusStream E → Poll (Option (Item E)) × OpusStream E
  poll_next t s =
      if s.done
      then (Poll.ready none, s)
      else if not s.has_delayed && not t.elapsed
      then (Poll.pending, s)
      else (let s1 = record s { has_delayed = true } in
          if s.silence_frames == 0
          then poll_encoder t s.encoder s1
          else give t (ok silence_frame) (record s1 { silence_frames = s.silence_frames - 1 }))
