-- ===== src/Voice/Opus/Encoder.antt =====
-- voice/opus.rs: `OpusEncoder`. The encoder of the crate opus is a parameter, with its state; a
-- sample is the number of its 16 bits.
use discord_async_rs.Prelude.{
  zero, suc, false, ℕ, Bool, Option, none, some, List, [], ◌∷◌, Result, ok, err, ◌>>=◌, map_err,
  ◌+◌, ◌*◌,
}
use discord_async_rs.Voice.Pcm.{sample_rate, frame_sample_size}
use discord_async_rs.Voice.Opus.{Poll, Item, EncodeError, clamp, encoder_frame_size, encoded}

pub record OpusApi : Type 1 where
  pub IoError : Type 0
  -- `read_exact` on too few bytes.
  pub unexpected_eof : IoError
  pub OpusError : Type 0
  pub Encoder : Type 0
  -- From the rate of samples, and whether there are two channels.
  pub new : ℕ → Bool → Result Encoder OpusError
  pub set_vbr : Bool → Encoder → Result Encoder OpusError
  pub set_bitrate : ℕ → Encoder → Result Encoder OpusError
  -- From the samples and the length of the output: how much was written, the output, the encoder.
  pub encode : List ℕ → ℕ → Encoder → Result ℕ OpusError × List ℕ × Encoder

-- A source of samples: the polls that are yet to come; without one it is pending.
pub record PcmStream (O : OpusApi) : Type 0 where
  pub is_stereo : Bool
  pub polls : List (Poll (Option (Result (List ℕ) (EncodeError O.IoError O.OpusError))))

pub record OpusEncoder (O : OpusApi) : Type 0 where
  pub source : PcmStream O
  pub encoder : O.Encoder
  -- The length of `buf`, which every frame overwrites.
  pub buf : ℕ
  pub frame_size : ℕ

-- `read_i16_into::<LittleEndian>` for a buffer of `n` samples.
unfoldable pub read_i16_into : ℕ → List ℕ → Option (List ℕ)
read_i16_into zero bs = some []
read_i16_into (suc n) (low ∷ high ∷ bs) = elim (read_i16_into n bs) [
  | none ↦ none
  | some samples ↦ some ((low + 256 * high) ∷ samples)
]
read_i16_into (suc n) _ = none

module _ (O : OpusApi) where
  abbrev pub Failure : Type 0
  Failure = EncodeError O.IoError O.OpusError

  -- The encoder of `new`: a rate that does not vary, and the bitrate.
  unfoldable pub set_up : Bool → ℕ → Result O.Encoder O.OpusError
  set_up is_stereo bitrate = do
    e ← O.new sample_rate is_stereo
    e' ← O.set_vbr false e
    O.set_bitrate (clamp 6000 510000 bitrate) e'

  unfoldable pub new : PcmStream O → ℕ → Result (OpusEncoder O) Failure
  new source bitrate = map_err EncodeError.opus (set_up source.is_stereo bitrate) >>= λ encoder.
      ok (record {
        source = source;
        encoder = encoder;
        buf = frame_sample_size source.is_stereo;
        frame_size = encoder_frame_size bitrate;
      })

  -- What `poll_next` makes of a frame.
  unfoldable pub encode_frame : List ℕ → OpusEncoder O → Item Failure × OpusEncoder O
  unfolding read_i16_into encoded
  encode_frame frame o = elim (read_i16_into o.buf frame) [
    | none ↦ (err (EncodeError.io O.unexpected_eof), o)
    | some samples ↦
        let (written, output, encoder) = O.encode samples o.frame_size o.encoder in
        (encoded o.frame_size written output, record o { encoder = encoder })
  ]

  abbrev pub to_source :
      List (Poll (Option (Result (List ℕ) Failure))) → OpusEncoder O → OpusEncoder O
  to_source rest o = record o { source = record o.source { polls = rest } }

  unfoldable pub poll_next : OpusEncoder O → Poll (Option (Item Failure)) × OpusEncoder O
  unfolding encode_frame
  poll_next o = elim o.source.polls [
    | [] ↦ (Poll.pending, o)
    | Poll.pending ∷ rest ↦ (Poll.pending, to_source rest o)
    | Poll.ready none ∷ rest ↦ (Poll.ready none, to_source rest o)
    | Poll.ready (some (err e)) ∷ rest ↦ (Poll.ready (some (err e)), to_source rest o)
    | Poll.ready (some (ok frame)) ∷ rest ↦
        let (item, o') = encode_frame frame (to_source rest o) in (Poll.ready (some item), o')
  ]

  -- What the encoder gives to so many polls.
  unfoldable pub polls : ℕ → OpusEncoder O → List (Poll (Option (Item Failure)))
  unfolding poll_next
  polls zero o = []
  polls (suc n) o = let (polled, o') = poll_next o in polled ∷ polls n o'
