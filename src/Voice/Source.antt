-- ===== src/Voice/Source.antt =====
-- voice/source: samples from a file and from the program ffmpeg, behind the encoder and the pacing
-- of voice/opus.rs. Files, processes and tokio's `FramedRead` are parameters.
pub mod Played
pub mod Tests
use discord_async_rs.Prelude.{
  ℕ, Bool, Option, none, some, String, List, [], ◌∷◌, map, Result, ok, err, ◌>>=◌, map_err,
}
use discord_async_rs.Voice.Pcm.{frame_sample_size, decode, decode_eof}
use discord_async_rs.Voice.Pcm.Chunks.{Decoder}
use discord_async_rs.Voice.Opus.{Poll, Item, EncodeError, OpusStream}
use discord_async_rs.Voice.Opus
use discord_async_rs.Voice.Opus.Encoder.{OpusApi, PcmStream, Failure, new, polls}

pub record SourceApi (O : OpusApi) : Type 1 where
  pub Reader : Type 0
  pub open_file : String → Result Reader O.IoError
  -- `spawn` of a program with arguments, and its standard output.
  pub spawn : String → List String → Result Reader O.IoError
  -- `FramedRead` with `decode` and `decode_eof`: the polls that are yet to come.
  pub framed_read : Decoder → Decoder → Reader → List (Poll (Option (Result (List ℕ) O.IoError)))

-- The errors of the framing, as those of the encoder.
abbrev pub io_polled :
    {I E : Type 0} → Poll (Option (Result (List ℕ) I)) → Poll (Option (Item (EncodeError I E)))
io_polled Poll.pending = Poll.pending
io_polled (Poll.ready none) = Poll.ready none
io_polled (Poll.ready (some res)) = Poll.ready (some (map_err EncodeError.io res))

module _ (O : OpusApi) where
  -- `OpusStream::new`, at a time, when the encoder will be polled `n` times.
  unfoldable pub opus_stream : ℕ → ℕ → PcmStream O → ℕ → Result (OpusStream (Failure O)) (Failure O)
  unfolding Opus.new
  opus_stream n now source bitrate = do
    encoder ← new O source bitrate
    ok (Opus.new now (polls O n encoder))

module _ {O : OpusApi} (S : SourceApi O) where
  -- A reader with the codec of this frame size, as a source.
  abbrev pub pcm_stream : Bool → S.Reader → PcmStream O
  pcm_stream stereo reader =
      let size = frame_sample_size stereo in
      record {
        is_stereo = stereo;
        polls = map io_polled (S.framed_read (decode size) (decode_eof size) reader);
      }

  -- `PcmFile::new`.
  unfoldable pub pcm_file_new : String → Bool → Result (PcmStream O) O.IoError
  pcm_file_new path stereo = do reader ← S.open_file path; ok (pcm_stream stereo reader)

  -- `FfmpegStream::new`.
  unfoldable pub ffmpeg_stream_new : String → Bool → Result (PcmStream O) O.IoError
  ffmpeg_stream_new url stereo = do
    reader ← S.spawn "ffmpeg" (
        "-i" ∷ url ∷ "-f" ∷ "s16le" ∷ "-ac" ∷ "2" ∷ "-ar" ∷ "48000" ∷ "-acodec" ∷ "pcm_s16le" ∷ "-"
        ∷ [])
    ok (pcm_stream stereo reader)

  unfoldable pub pcm_file : ℕ → ℕ → String → Bool → ℕ → Result (OpusStream (Failure O)) (Failure O)
  unfolding pcm_file_new opus_stream
  pcm_file n now path stereo bitrate = do
    file ← map_err EncodeError.io (pcm_file_new path stereo)
    opus_stream O n now file bitrate

  unfoldable pub ffmpeg_stream :
      ℕ → ℕ → String → Bool → ℕ → Result (OpusStream (Failure O)) (Failure O)
  unfolding ffmpeg_stream_new opus_stream
  ffmpeg_stream n now url stereo bitrate = do
    stream ← map_err EncodeError.io (ffmpeg_stream_new url stereo)
    opus_stream O n now stream bitrate
