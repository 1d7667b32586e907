-- ===== src/Voice/Pcm/Tests.antt =====
-- voice/pcm.rs: the theorems at concrete inputs.
use discord_async_rs.Prelude.{ℕ, suc, false, List, length, replicate}
use discord_async_rs.Voice.Pcm.{frame_sample_size}
use discord_async_rs.Voice.Pcm.Frames.{decode_all, Splits, decode_all-Splits}

abbrev bytes : List ℕ
bytes = replicate 5000 3

decode_all-Splits_example :
    Splits 960 bytes (decode_all (suc (length bytes)) (frame_sample_size false) bytes)
decode_all-Splits_example = decode_all-Splits false bytes
