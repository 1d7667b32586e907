-- ===== src/Voice/Source/Tests.antt =====
-- voice/source and voice/opus.rs: the theorems at a concrete file and encoder.
use discord_async_rs.Prelude.{
  All, length, ◌≤◌, ℕ, true, false, none, some, List, [], ◌∷◌, ◌++◌, map, replicate, Option, Result,
  ok, err, length, length-replicate, ◌≡◌, ◌≤◌, ◌+◌, refl, arith, ap,
}
use discord_async_rs.Voice.Pcm.{decode, decode_eof, frame_sample_size}
use discord_async_rs.Voice.Pcm.Frames.{flat}
use discord_async_rs.Voice.Pcm.Chunks
use discord_async_rs.Voice.Pcm.Chunks.{Decoder}
use discord_async_rs.Voice.Opus.{Poll, Item, OpusStream, Tick, encoder_frame_size, silence_frame}
use discord_async_rs.Voice.Opus
use discord_async_rs.Voice.Opus.Given
use discord_async_rs.Voice.Opus.Given.{items}
use discord_async_rs.Voice.Opus.Coded.{encode_items}
use discord_async_rs.Voice.Opus.Sized.{KeepsLength, frames, write-stream}
use discord_async_rs.Voice.Opus.Encoder.{OpusApi, OpusEncoder, Failure, new, set_up, polls}
use discord_async_rs.Voice.Socket.{write}
use discord_async_rs.Voice.Socket.Nonces.{sequence_at, timestamp_at}
use discord_async_rs.Voice.Socket.Packets.{packets}
use discord_async_rs.Voice.Socket.Tests.{api as socket, seal, seal-Seals}
use discord_async_rs.Voice.Source.{SourceApi, pcm_stream, pcm_file, opus_stream, pcm_file_new}
use discord_async_rs.Voice.Source.Played.{Gives, cut, pcm_file-played}

-- The encoder counts its frames, and fills a frame with its count.
abbrev pub opus : OpusApi
opus = record {
  IoError = ℕ;
  unexpected_eof = 0;
  OpusError = ℕ;
  Encoder = ℕ;
  new = λ rate stereo. ok 0;
  set_vbr = λ vbr e. ok e;
  set_bitrate = λ bitrate e. ok e;
  encode = λ samples n e. (ok n, replicate n e, e + 1);
}

pub readied : List (List ℕ) → List (Poll (Option (Result (List ℕ) ℕ)))
readied [] = Poll.ready none ∷ []
readied (f ∷ fs) = Poll.ready (some (ok f)) ∷ readied fs

-- A reader is its chunks.
abbrev pub files : SourceApi opus
files = record {
  Reader = List (List ℕ);
  open_file = λ path. ok (replicate 1000 3 ∷ replicate 1000 4 ∷ []);
  spawn = λ program args. err 2;
  framed_read = λ d eof chunks. readied (Chunks.framed_read d eof chunks []).0;
}

items-readied : (fs : List (List ℕ)) → items (readied fs) ≡ map ok fs
unfolding readied
items-readied [] = refl
items-readied (f ∷ fs) = ap (◌∷◌ (ok f)) (items-readied fs)

pub files-Gives : (chunks : List (List ℕ)) → Gives files chunks chunks
files-Gives chunks size h =
    items-readied (Chunks.framed_read (decode size) (decode_eof size) chunks []).0

abbrev pub chunks : List (List ℕ)
chunks = replicate 1000 3 ∷ replicate 1000 4 ∷ []

abbrev pub encoder : OpusEncoder opus
encoder = record {
  source = pcm_stream files false chunks;
  encoder = 0;
  buf = frame_sample_size false;
  frame_size = encoder_frame_size 96000;
}

abbrev pub stream : OpusStream (Failure opus)
stream = Opus.new 0 (polls opus 2 encoder)

abbrev pub ticks : List Tick
ticks = replicate 7 (record { elapsed = true; now = 0 })

pub short_file : length (pcm_stream files false chunks).polls ≤ 2
unfolding readied Chunks.framed_read Chunks.drain decode decode_eof frame_sample_size
short_file = omega arith

pcm_file-played_example :
    (e : ℕ) × (set_up opus false 96000 ≡ ok e)
    × ((Given.polls ticks stream).0
        ≡ replicate 5 (ok silence_frame)
          ++ encode_items opus
              (encoder_frame_size 96000)
              e
              (map ok (cut files false (flat chunks))))
unfolding pcm_file pcm_file_new opus_stream new set_up
pcm_file-played_example =
    pcm_file-played files "ma.pcm" false 96000 2 0 chunks chunks stream ticks refl
      (files-Gives chunks) refl short_file
      (refl, (refl, (refl, (refl, (refl, (refl, (refl, tt))))))) (omega arith)

pub opus-KeepsLength : KeepsLength opus
opus-KeepsLength samples n e = length-replicate n e

write-stream_example :
    let given = frames (Given.polls ticks stream).0 in
    All (λ f. length f ≤ 1275) given
    × (write socket tt 7 (sequence_at 1) (timestamp_at 1) given ≡ (packets seal 7 1 given, none))
unfolding new set_up
write-stream_example =
    write-stream opus opus-KeepsLength socket tt seal seal-Seals (pcm_stream files false chunks)
      96000 encoder refl 2 0 ticks 7 1
