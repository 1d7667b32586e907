-- ===== src/Voice/System/Played.antt =====
-- voice/source, voice/opus.rs, voice/connection.rs and voice/socket.rs: from the bytes of a file to
-- the packets of a connection.
use text.Mathlib.Text.{◌==◌}
use discord_async_rs.Prelude.{
  ℕ, Bool, true, String, List, ◌++◌, map, length, All, replicate, ok, ◌≡◌, ◌≤◌, ◌+◌, ap, sym, subst,
  ◌∙◌, arith,
}
use discord_async_rs.Voice.Messages.{Credentials}
use discord_async_rs.Voice.Connection.{Ready, SessionDescription, encryption_mode, is_supported}
use discord_async_rs.Voice.Socket.{SocketApi}
use discord_async_rs.Voice.Socket.Packets.{Seals, packets}
use discord_async_rs.Voice.Socket.Session.{Outside, discover}
use discord_async_rs.Voice.Opus.{OpusStream, Tick, silence_frame, encoder_frame_size}
use discord_async_rs.Voice.Opus.Given
use discord_async_rs.Voice.Opus.Coded.{encode_items}
use discord_async_rs.Voice.Opus.Encoder.{OpusApi, Failure, set_up}
use discord_async_rs.Voice.Opus.Sized.{KeepsLength, frames, given-short}
use discord_async_rs.Voice.Pcm.Frames.{flat}
use discord_async_rs.Voice.Source.{SourceApi, pcm_stream, pcm_file, pcm_file_new, opus_stream}
use discord_async_rs.Voice.Source.Played.{Gives, cut, opus_stream-new, pcm_file-played}
use discord_async_rs.Voice.System.{Others, Output, runs, begin}
use discord_async_rs.Voice.System.Up.{coming_up, brought_up, plays, runs-up}

module _ (O : OpusApi) (law : KeepsLength O) (F : SourceApi O) where
  pcm_file-short :
      (path : String) (stereo : Bool) (bitrate n now : ℕ) (reader : F.Reader)
      (st : OpusStream (Failure O)) (ts : List Tick)
      → F.open_file path ≡ ok reader
      → pcm_file F n now path stereo bitrate ≡ ok st
      → All (λ f. length f ≤ 2020) (frames (Given.polls ts st).0)
  unfolding pcm_file pcm_file_new
  pcm_file-short path stereo bitrate n now reader st ts opened h =
      let source = pcm_stream F stereo reader in
      let is_stream : opus_stream O n now source bitrate ≡ ok st = ground arith in
      let (o, made, is_new) = opus_stream-new O source bitrate n now st is_stream in
      subst (λ st. All (λ f. length f ≤ 2020) (frames (Given.polls ts st).0)) (sym is_new)
        (given-short O law source bitrate o made n now ts)

-- From a file whose bytes can be read, however they arrive in chunks, and whose stream is polled in
-- time and often enough: if the gateway is ready and knows the encryption mode, the server tells
-- the address, the session is described in the mode, the encoder fills what it is given, and the
-- cipher always gives the text and a tag of 16 bytes, then a new connection and its socket come up,
-- and the packets that are sent are, numbered from 0 and each sealed with the key of the session,
-- five frames of silence and then what the encoder for the bitrate makes of the samples of every 20
-- milliseconds of the bytes, in order, each with the encoder that the one before has left.
pub pcm_file-sent :
    (O : OpusApi)
    → KeepsLength O
    → (F : SourceApi O) (S : SocketApi) (E : Others) (seal : S.Key → List ℕ → List ℕ → List ℕ)
    → ((k : S.Key) → Seals S k (seal k))
    → (path : String) (stereo : Bool) (bitrate n now : ℕ) (reader : F.Reader)
      (chunks : List (List ℕ)) (st : OpusStream (Failure O)) (ts : List Tick) (cred : Credentials)
      (r : Ready) (server addr : S.Addr) (o : Outside S) (d : SessionDescription S.Key)
    → F.open_file path ≡ ok reader
    → Gives F reader chunks
    → pcm_file F n now path stereo bitrate ≡ ok st
    → length (pcm_stream F stereo reader).polls ≤ n
    → All (λ t. t.elapsed ≡ true) ts
    → 5 + n ≤ length ts
    → E.ready_is_ready_kind ≡ true
    → is_supported r.modes ≡ true
    → discover S r.ssrc server o ≡ ok addr
    → (d.mode == encryption_mode) ≡ true
    → let given = frames (Given.polls ts st).0 in
      (e : O.Encoder) × (set_up O stereo bitrate ≡ ok e)
      × ((runs {S = S} {E = E} (coming_up r server o d ++ plays given) (begin cred)).1
          ≡ brought_up r addr d
            ++ map Output.packet (
                packets (seal d.secret_key) r.ssrc 0 (
                  frames (
                    replicate 5 (ok silence_frame)
                    ++ encode_items O
                        (encoder_frame_size bitrate)
                        e
                        (map ok (cut F stereo (flat chunks)))))))
pcm_file-sent O law F S E seal seals path stereo bitrate n now reader chunks st ts cred r server
      addr o d opened gives h l elapsed long ready supported found mode =
    let (e, made, played) =
      pcm_file-played F path stereo bitrate n now reader chunks st ts opened gives h l elapsed
        long in
    (
      e,
      made,
      runs-up S E seal seals cred r server addr o d (frames (Given.polls ts st).0) ready supported
            found mode (pcm_file-short O law F path stereo bitrate n now reader st ts opened h)
          ∙ ap
              (λ is.
                brought_up r addr d
                ++ map Output.packet (packets (seal d.secret_key) r.ssrc 0 (frames is)))
              played,
    )
