-- ===== src/Voice/Source/Played.antt =====
-- voice/source, voice/pcm.rs and voice/opus.rs: from the bytes of a file to the frames of a stream.
use discord_async_rs.Prelude.{
  ℕ, zero, suc, Bool, true, false, none, some, Option, String, List, [], ◌∷◌, ◌++◌, map, length,
  All, replicate, Result, ok, map_err, ◌≡◌, ◌≤◌, ◌+◌, ◌*◌, refl, arith, ap, sym, subst, ◌∙◌,
  Result-cases, inl, inr,
}
use discord_async_rs.Voice.Pcm.{frame_sample_size, decode, decode_eof}
use discord_async_rs.Voice.Pcm.Frames.{decode_all, decode_all_lem, flat}
use discord_async_rs.Voice.Pcm.Chunks
use discord_async_rs.Voice.Pcm.Chunks.{framed_read-decode_all}
use discord_async_rs.Voice.Opus.{
  Poll, Item, EncodeError, OpusStream, Tick, silence_frame, encoder_frame_size,
}
use discord_async_rs.Voice.Opus
use discord_async_rs.Voice.Opus.Given
use discord_async_rs.Voice.Opus.Encoder
use discord_async_rs.Voice.Opus.Given.{items, ahead}
use discord_async_rs.Voice.Opus.Whole.{left, polls-whole}
use discord_async_rs.Voice.Opus.Coded.{encode_items, Fits, polls-encode_items}
use discord_async_rs.Voice.Opus.Encoder.{
  OpusApi, PcmStream, OpusEncoder, Failure, set_up, new, polls,
}
use discord_async_rs.Voice.Source.{
  SourceApi, io_polled, pcm_stream, pcm_file_new, opus_stream, pcm_file,
}

module _ (O : OpusApi) where
  -- What `new` makes of a source.
  abbrev IsNew : PcmStream O → ℕ → OpusEncoder O → Type 0
  IsNew source bitrate o =
      (set_up O source.is_stereo bitrate ≡ ok o.encoder)
      × (o.frame_size ≡ encoder_frame_size bitrate)
      × (o.buf ≡ frame_sample_size source.is_stereo)
      × (o.source ≡ source)

  new-IsNew :
      (source : PcmStream O) (bitrate : ℕ) (o : OpusEncoder O)
      → new O source bitrate ≡ ok o
      → IsNew source bitrate o
  unfolding new
  new-IsNew source bitrate o h = elim (Result-cases (set_up O source.is_stereo bitrate)) [
    | inl (e, made) ↦ ground arith
    | inr (x, failed) ↦ ground arith
  ]

  length-polls : (n : ℕ) (o : OpusEncoder O) → length (polls O n o) ≡ n
  unfolding polls
  length-polls zero o = refl
  length-polls (suc n) o = omega (arith, length-polls n (Encoder.poll_next O o).1)

  pub opus_stream-new :
      (source : PcmStream O) (bitrate n now : ℕ) (st : OpusStream (Failure O))
      → opus_stream O n now source bitrate ≡ ok st
      → (o : OpusEncoder O) × (new O source bitrate ≡ ok o) × (st ≡ Opus.new now (polls O n o))
  unfolding opus_stream
  opus_stream-new source bitrate n now st h = elim (Result-cases (new O source bitrate)) [
    | inl (o, made) ↦ (o, made, ground arith)
    | inr (x, failed) ↦ ground arith
  ]

  -- A new stream of a source, polled in time and often enough.
  opus_stream-played :
      (source : PcmStream O) (bitrate n now : ℕ) (st : OpusStream (Failure O)) (ts : List Tick)
      → opus_stream O n now source bitrate ≡ ok st
      → All (Fits O (frame_sample_size source.is_stereo)) (items source.polls)
      → length source.polls ≤ n
      → All (λ t. t.elapsed ≡ true) ts
      → 5 + n ≤ length ts
      → (e : O.Encoder) × (set_up O source.is_stereo bitrate ≡ ok e)
        × ((Given.polls ts st).0
            ≡ replicate 5 (ok silence_frame)
              ++ encode_items O (encoder_frame_size bitrate) e (items source.polls))
  unfolding opus_stream Opus.new
  opus_stream-played source bitrate n now st ts h fits l elapsed long =
      elim (Result-cases (new O source bitrate)) [
        | inl (o, made) ↦
            let (is_new, size, buf, same) = new-IsNew source bitrate o made in
            let st' : OpusStream (Failure O) = Opus.new now (polls O n o) in
            let is_st' : st ≡ st' = ground arith in
            let enough : left st' ≤ length ts = omega (arith, length-polls n o, long) in
            let fits' : All (Fits O o.buf) (items source.polls) =
              subst (λ b. All (Fits O b) (items source.polls)) (sym buf) fits in
            let from_source : o.source.polls ≡ source.polls = ap (λ s. s.polls) same in
            let coded = polls-encode_items O n source.polls o from_source l fits' in
            (
              o.encoder,
              is_new,
              ap (λ s. (Given.polls ts s).0) is_st'
                  ∙ (polls-whole ts st' elapsed enough
                      ∙ ap (λ is. replicate 5 (ok silence_frame) ++ is)
                          (coded ∙ ap (λ k. encode_items O k o.encoder (items source.polls)) size)),
            )
        | inr (x, failed) ↦ ground arith
      ]

items-io :
    {I E : Type 0} (ps : List (Poll (Option (Result (List ℕ) I))))
    → items (map (io_polled {E = E}) ps) ≡ map (map_err EncodeError.io) (items ps)
items-io [] = refl
items-io (Poll.pending ∷ ps) = items-io ps
items-io (Poll.ready none ∷ ps) = refl
items-io (Poll.ready (some res) ∷ ps) = ap (◌∷◌ (map_err EncodeError.io res)) (items-io ps)

map-ok : {I E : Type 0} (f : I → E) (fs : List (List ℕ)) → map (map_err f) (map ok fs) ≡ map ok fs
map-ok f [] = refl
map-ok f (x ∷ fs) = ap (◌∷◌ (ok x)) (map-ok f fs)

module _ {O : OpusApi} (S : SourceApi O) where
  -- The reader gives these bytes, in chunks and without an error, and `FramedRead` does what is
  -- documented.
  abbrev pub Gives : S.Reader → List (List ℕ) → Type 0
  Gives reader chunks =
      (size : ℕ)
      → 1 ≤ size
      → items (S.framed_read (decode size) (decode_eof size) reader)
        ≡ map ok (Chunks.framed_read (decode size) (decode_eof size) chunks []).0

  -- The frames of bytes.
  abbrev pub cut : Bool → List ℕ → List (List ℕ)
  cut stereo bytes = (decode_all (suc (length bytes)) (frame_sample_size stereo) bytes).0

  frame_sample_size-least : (stereo : Bool) → 1 ≤ frame_sample_size stereo
  unfolding frame_sample_size
  frame_sample_size-least true = omega arith
  frame_sample_size-least false = omega arith

  items-pcm_stream :
      (stereo : Bool) (reader : S.Reader) (chunks : List (List ℕ))
      → Gives reader chunks
      → items (pcm_stream S stereo reader).polls ≡ map ok (cut stereo (flat chunks))
  items-pcm_stream stereo reader chunks gives =
      let size = frame_sample_size stereo in
      let least = frame_sample_size-least stereo in
      let framed = S.framed_read (decode size) (decode_eof size) reader in
      items-io framed
      ∙ (ap (map (map_err EncodeError.io)) (gives size least)
          ∙ (ap (λ fs. map (map_err EncodeError.io) (map ok fs))
                (framed_read-decode_all size chunks least)
              ∙ map-ok EncodeError.io (cut stereo (flat chunks))))

  Fits-All :
      (size : ℕ) (fs : List (List ℕ))
      → All (λ f. length f ≡ 2 * size) fs
      → All (Fits O size) (map ok fs)
  Fits-All size [] h = tt
  Fits-All size (f ∷ fs) h = (h.0, Fits-All size fs h.1)

  -- From a file whose bytes can be read, however they arrive in chunks, the stream, polled in time
  -- and often enough, plays five frames of silence, and then what the encoder for the bitrate makes
  -- of the samples of every 20 milliseconds of the bytes, in order, each with the encoder that the
  -- one before has left.
  pub pcm_file-played :
      (path : String) (stereo : Bool) (bitrate n now : ℕ) (reader : S.Reader)
      (chunks : List (List ℕ)) (st : OpusStream (Failure O)) (ts : List Tick)
      → S.open_file path ≡ ok reader
      → Gives reader chunks
      → pcm_file S n now path stereo bitrate ≡ ok st
      → length (pcm_stream S stereo reader).polls ≤ n
      → All (λ t. t.elapsed ≡ true) ts
      → 5 + n ≤ length ts
      → (e : O.Encoder) × (set_up O stereo bitrate ≡ ok e)
        × ((Given.polls ts st).0
            ≡ replicate 5 (ok silence_frame)
              ++ encode_items O (encoder_frame_size bitrate) e (map ok (cut stereo (flat chunks))))
  unfolding pcm_file pcm_file_new
  pcm_file-played path stereo bitrate n now reader chunks st ts opened gives h l elapsed long =
      let source = pcm_stream S stereo reader in
      let size = frame_sample_size stereo in
      let is_stream : opus_stream O n now source bitrate ≡ ok st = ground arith in
      let (whole, sizes, less) =
        decode_all_lem (suc (length (flat chunks))) size (flat chunks)
          (frame_sample_size-least stereo) (omega arith) in
      let heard = items-pcm_stream stereo reader chunks gives in
      let fits =
        subst (All (Fits O size)) (sym heard) (Fits-All size (cut stereo (flat chunks)) sizes) in
      let (e, made, played) =
        opus_stream-played O source bitrate n now st ts is_stream fits l elapsed long in
      (
        e,
        made,
        played
            ∙ ap
                (λ is.
                  replicate 5 (ok silence_frame)
                  ++ encode_items O (encoder_frame_size bitrate) e is)
                heard,
      )
