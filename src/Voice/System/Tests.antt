-- ===== src/Voice/System/Tests.antt =====
-- voice/connection.rs and voice/socket.rs: the theorems at a concrete run.
use mathlib.Core.List.{Memᴰ}
use text.Mathlib.Text.{◌==◌}
use discord_async_rs.Prelude.{
  ℕ, true, false, some, List, [], ◌∷◌, ◌++◌, map, replicate, ok, ◌≡◌, ◌⊎◌, refl, arith,
}
use discord_async_rs.Voice.Messages.{Credentials}
use discord_async_rs.Voice.Connection.{
  Ready, SessionDescription, GatewayEvent, encryption_mode, is_supported,
}
use discord_async_rs.Voice.Socket.{external_addr, read_u16, until_zero, u16_be, u32_be}
use discord_async_rs.Voice.Socket.Packets.{packets}
use discord_async_rs.Voice.Socket.Tests.{api, seal, seal-Seals}
use discord_async_rs.Voice.Socket.Session.{Outside, discover}
use discord_async_rs.Voice.Socket.Discovery.{reply}
use discord_async_rs.Voice.System.{Others, Move, Output, runs, begin}
use discord_async_rs.Voice.System.Outputs.{sent, offered, heard}
use discord_async_rs.Voice.System.Sealed.{runs-sealed}
use discord_async_rs.Voice.System.Played.{pcm_file-sent}
use discord_async_rs.Voice.Source.Tests.{
  opus, files, chunks, stream, ticks, files-Gives, short_file, opus-KeepsLength,
}
use discord_async_rs.Voice.Source.{pcm_file, pcm_file_new, opus_stream}
use discord_async_rs.Voice.Source.Played.{cut}
use discord_async_rs.Voice.Pcm.Frames.{flat}
use discord_async_rs.Voice.Opus.{silence_frame, encoder_frame_size}
use discord_async_rs.Voice.Opus.Given
use discord_async_rs.Voice.Opus.Coded.{encode_items}
use discord_async_rs.Voice.Opus.Sized.{frames}
use discord_async_rs.Voice.Opus.Encoder.{set_up, new}
use discord_async_rs.Voice.System.Up.{coming_up, brought_up, plays, runs-up}

abbrev others : Others
others = record {
  Other = ℕ;
  is_ready_kind = λ n. true;
  ready_is_ready_kind = true;
  description_is_ready_kind = true;
}

abbrev cred : Credentials
cred = record { guild_id = 1; user_id = 2; session_id = "s"; token = "t"; endpoint = "e" }

abbrev announced : Ready
announced = record {
  ssrc = 9;
  ip = "10.0.0.1";
  port = 4000;
  modes = "plain" ∷ encryption_mode ∷ [];
}

abbrev session : SessionDescription Unit
session = record { mode = encryption_mode; secret_key = tt }

abbrev outside : Outside api
outside = record {
  bind = ok tt;
  send_to = ok tt;
  recv_from = some (ok (1, 74, reply 9 (49 ∷ 46 ∷ 49 ∷ []) 4000 []));
  listener = true;
}

supported : is_supported announced.modes ≡ true
unfolding is_supported
supported = refl

found : discover api 9 1 outside ≡ ok 4000
unfolding discover external_addr read_u16 until_zero u16_be u32_be
found = refl

-- A frame that comes before the key is lost, and so is one behind the end of the frames.
abbrev moves : List (Move api others)
moves =
    Move.frame (7 ∷ []) true
    ∷ (coming_up announced 1 outside session
        ++ Move.read (ok 8)
          ∷ Move.frame (1 ∷ 2 ∷ []) true
          ∷ Move.event
          ∷ Move.frame (3 ∷ []) true
          ∷ Move.frames_end
          ∷ Move.frame (4 ∷ []) true
          ∷ [])

runs-sealed_example :
    let out = sent (runs moves (begin cred)).1 in
    (out ≡ [])
    ⊎ ((r : Ready) × (d : SessionDescription Unit) × (before : List (List ℕ)) × (done : List
          (List ℕ))
        × (after : List (List ℕ)) × Memᴰ (GatewayEvent.ready r) (heard moves)
        × (is_supported r.modes ≡ true)
        × Memᴰ (GatewayEvent.session_description d) (heard moves)
        × ((d.mode == encryption_mode) ≡ true)
        × (offered moves ≡ before ++ (done ++ after))
        × (out ≡ packets seal r.ssrc 0 done))
runs-sealed_example = runs-sealed api others (λ _. seal) (λ _. seal-Seals) cred moves

runs-up_example :
    (runs {S = api} {E = others}
      (coming_up announced 1 outside session ++ plays ((1 ∷ 2 ∷ []) ∷ (3 ∷ []) ∷ []))
      (begin cred)).1
    ≡ brought_up announced 4000 session
      ++ map Output.packet (packets seal 9 0 ((1 ∷ 2 ∷ []) ∷ (3 ∷ []) ∷ []))
runs-up_example =
    runs-up api others (λ _. seal) (λ _. seal-Seals) cred announced 1 4000 outside session
      ((1 ∷ 2 ∷ []) ∷ (3 ∷ []) ∷ []) refl supported found refl (omega arith, (omega arith, tt))

pcm_file-sent_example :
    let given = frames (Given.polls ticks stream).0 in
    (e : ℕ) × (set_up opus false 96000 ≡ ok e)
    × ((runs {S = api} {E = others}
          (coming_up announced 1 outside session ++ plays given)
          (begin cred)).1
        ≡ brought_up announced 4000 session
          ++ map Output.packet (
              packets seal 9 0 (
                frames (
                  replicate 5 (ok silence_frame)
                  ++ encode_items opus
                      (encoder_frame_size 96000)
                      e
                      (map ok (cut files false (flat chunks)))))))
unfolding pcm_file pcm_file_new opus_stream new set_up
pcm_file-sent_example =
    pcm_file-sent opus opus-KeepsLength files api others (λ _. seal) (λ _. seal-Seals) "ma.pcm"
      false 96000 2 0 chunks chunks stream ticks cred announced 1 4000 outside session refl
      (files-Gives chunks) refl short_file
      (refl, (refl, (refl, (refl, (refl, (refl, (refl, tt))))))) (omega arith) refl supported found
      refl
