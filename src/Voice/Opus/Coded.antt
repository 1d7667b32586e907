-- ===== src/Voice/Opus/Coded.antt =====
-- voice/opus.rs: what the encoder makes of a whole source.
use discord_async_rs.Prelude.{
  ℕ, zero, suc, none, some, Option, List, [], ◌∷◌, length, All, ok, err, ◌≡◌, ◌≤◌, ◌+◌, ◌*◌, refl,
  arith,
}
use discord_async_rs.Voice.Opus.{Poll, Item, encoded}
use discord_async_rs.Voice.Opus.Given.{items}
use discord_async_rs.Voice.Opus.Encoder.{
  OpusApi, OpusEncoder, Failure, read_i16_into, encode_frame, poll_next, polls, to_source,
}

-- The samples of a frame, of two bytes each, the low one first.
abbrev pub samples : List ℕ → List ℕ
samples [] = []
samples (b ∷ []) = []
samples (low ∷ high ∷ bs) = (low + 256 * high) ∷ samples bs

read_i16_into-samples :
    (n : ℕ) (frame : List ℕ) → length frame ≡ 2 * n → read_i16_into n frame ≡ some (samples frame)
unfolding read_i16_into
read_i16_into-samples zero [] h = refl
read_i16_into-samples zero (b ∷ bs) h = absurd (omega (arith, h))
read_i16_into-samples (suc n) [] h = absurd (omega (arith, h))
read_i16_into-samples (suc n) (b ∷ []) h = absurd (omega (arith, h))
read_i16_into-samples (suc n) (low ∷ high ∷ bs) h =
    let rest : read_i16_into n bs ≡ some (samples bs) =
      read_i16_into-samples n bs (omega (arith, h)) in
    rw (rest) refl

module _ (O : OpusApi) where
  -- Frames encoded one behind the other; an error of the source is passed on.
  abbrev pub encode_items : ℕ → O.Encoder → List (Item (Failure O)) → List (Item (Failure O))
  encode_items size e [] = []
  encode_items size e (err x ∷ is) = err x ∷ encode_items size e is
  encode_items size e (ok frame ∷ is) =
      let (written, output, e') = O.encode (samples frame) size e in
      encoded size written output ∷ encode_items size e' is

  -- Every frame has the size that the encoder expects.
  abbrev pub Fits : ℕ → Item (Failure O) → Type 0
  Fits buf (ok frame) = length frame ≡ 2 * buf
  Fits buf (err e) = Unit

  encode_frame-samples :
      (frame : List ℕ) (o : OpusEncoder O)
      → length frame ≡ 2 * o.buf
      → let r = O.encode (samples frame) o.frame_size o.encoder in
        encode_frame O frame o ≡ (encoded o.frame_size r.0 r.1, record o { encoder = r.2 })
  unfolding encode_frame
  encode_frame-samples frame o h = ground (arith, read_i16_into-samples o.buf frame h)

  -- Polled as often as its source is, the encoder gives the errors of the source and, for every
  -- frame, what comes of encoding its samples, in order, each with the encoder that the one before
  -- has left.
  pub polls-encode_items :
      (n : ℕ) (ps : List (Poll (Option (Item (Failure O))))) (o : OpusEncoder O)
      → o.source.polls ≡ ps
      → length ps ≤ n
      → All (Fits o.buf) (items ps)
      → items (polls O n o) ≡ encode_items o.frame_size o.encoder (items ps)
  unfolding polls poll_next
  polls-encode_items zero [] o e l h = refl
  polls-encode_items zero (p ∷ ps) o e l h = absurd (omega arith)
  polls-encode_items (suc n) [] o e l h =
      ground (arith, polls-encode_items n [] o e (omega arith) tt)
  polls-encode_items (suc n) (Poll.pending ∷ rest) o e l h =
      ground (arith, polls-encode_items n rest (to_source O rest o) refl (omega (arith, l)) h)
  polls-encode_items (suc n) (Poll.ready none ∷ rest) o e l h = ground arith
  polls-encode_items (suc n) (Poll.ready (some (err x)) ∷ rest) o e l h =
      ground (arith, polls-encode_items n rest (to_source O rest o) refl (omega (arith, l)) h.1)
  polls-encode_items (suc n) (Poll.ready (some (ok frame)) ∷ rest) o e l h =
      let s = to_source O rest o in
      let (written, output, e') = O.encode (samples frame) o.frame_size o.encoder in
      let s' = record s { encoder = e' } in
      ground (
        arith,
        encode_frame-samples frame s h.0,
        polls-encode_items n rest s' refl (omega (arith, l)) h.1,
      )
