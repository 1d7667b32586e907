-- ===== src/Voice/Opus/Sized.antt =====
-- voice/opus.rs and voice/socket.rs: the size of the frames that are encoded.
use discord_async_rs.Prelude.{
  ℕ, zero, suc, none, some, Option, List, [], ◌∷◌, ◌++◌, length, All, Result, ok, err, ◌≡◌, ◌≤◌,
  refl, arith, Option-cases, inl, inr, subst, sym,
}
use discord_async_rs.Voice.Opus.{Poll, Item, OpusStream, Tick, encoder_frame_size, encoded}
use discord_async_rs.Voice.Opus
use discord_async_rs.Voice.Opus.Given.{items, ahead, polls-ahead}
use discord_async_rs.Voice.Opus.Given
use discord_async_rs.Voice.Opus.Paced.{encoder_frame_size-bounds}
use discord_async_rs.Voice.Opus.Encoder.{
  OpusApi, PcmStream, OpusEncoder, Failure, read_i16_into, new, encode_frame, poll_next, polls,
  to_source,
}
use discord_async_rs.Voice.Socket.{SocketApi, write}
use discord_async_rs.Voice.Socket.Nonces.{sequence_at, timestamp_at}
use discord_async_rs.Voice.Socket.Packets.{Seals, packets, write-packets}

-- The output is a slice: encoding keeps its length.
abbrev pub KeepsLength : OpusApi → Type 0
KeepsLength O = (samples : List ℕ) (n : ℕ) (e : O.Encoder) → length (O.encode samples n e).1 ≡ n

abbrev pub HasSize : {E : Type 0} → ℕ → Item E → Type 0
HasSize n (ok frame) = length frame ≡ n
HasSize n (err e) = Unit

-- The frames among the items.
abbrev pub frames : {E : Type 0} → List (Item E) → List (List ℕ)
frames [] = []
frames (ok frame ∷ is) = frame ∷ frames is
frames (err e ∷ is) = frames is

module _ {E : Type 0} (P : Item E → Type 0) where
  All-items :
      (p : Poll (Option (Item E))) (rest : List (Poll (Option (Item E))))
      → All P (Given.given p)
      → All P (items rest)
      → All P (items (p ∷ rest))
  All-items Poll.pending rest h hs = hs
  All-items (Poll.ready none) rest h hs = tt
  All-items (Poll.ready (some val)) rest h hs = (h.0, hs)

module _ (O : OpusApi) (law : KeepsLength O) where
  encode_frame-HasSize :
      (frame : List ℕ) (o : OpusEncoder O)
      → HasSize o.frame_size (encode_frame O frame o).0
        × ((encode_frame O frame o).1.frame_size ≡ o.frame_size)
  unfolding encode_frame encoded
  encode_frame-HasSize frame o = elim (Option-cases (read_i16_into o.buf frame)) [
    | inl n ↦ ground arith
    | inr (samples, e) ↦ ground (arith, law samples o.frame_size o.encoder)
  ]

  poll_next-HasSize :
      (o : OpusEncoder O) (ps : List (Poll (Option (Result (List ℕ) (Failure O)))))
      → o.source.polls ≡ ps
      → All (HasSize o.frame_size) (Given.given (poll_next O o).0)
        × ((poll_next O o).1.frame_size ≡ o.frame_size)
  unfolding poll_next
  poll_next-HasSize o [] e = ground arith
  poll_next-HasSize o (Poll.pending ∷ rest) e = ground arith
  poll_next-HasSize o (Poll.ready none ∷ rest) e = ground arith
  poll_next-HasSize o (Poll.ready (some (err x)) ∷ rest) e = ground arith
  poll_next-HasSize o (Poll.ready (some (ok frame)) ∷ rest) e =
      ground (arith, encode_frame-HasSize frame (to_source O rest o))

  items-HasSize : (n : ℕ) (o : OpusEncoder O) → All (HasSize o.frame_size) (items (polls O n o))
  unfolding polls
  items-HasSize zero o = tt
  items-HasSize (suc n) o =
      let (sized, same) = poll_next-HasSize o o.source.polls refl in
      let o' = (poll_next O o).1 in
      All-items (HasSize o.frame_size) (poll_next O o).0 (polls O n o') sized
        (subst (λ k. All (HasSize k) (items (polls O n o'))) same (items-HasSize n o'))

  new-frame_size :
      (source : PcmStream O) (bitrate : ℕ) (o : OpusEncoder O)
      → new O source bitrate ≡ ok o
      → o.frame_size ≡ encoder_frame_size bitrate
  unfolding new
  new-frame_size source bitrate o h = ground arith

All-front : {T : Type 0} (P : T → Type 0) (xs ys : List T) → All P (xs ++ ys) → All P xs
All-front P [] ys h = tt
All-front P (x ∷ xs) ys h = (h.0, All-front P xs ys h.1)

abbrev IsShort : {E : Type 0} → Item E → Type 0
IsShort (ok frame) = length frame ≤ 1275
IsShort (err e) = Unit

module _ {E : Type 0} where
  IsShort-HasSize : (n : ℕ) → n ≤ 1275 → (is : List (Item E)) → All (HasSize n) is → All IsShort is
  IsShort-HasSize n l [] h = tt
  IsShort-HasSize n l (ok f ∷ is) h = (omega (arith, h.0), IsShort-HasSize n l is h.1)
  IsShort-HasSize n l (err e ∷ is) h = (tt, IsShort-HasSize n l is h.1)

  frames-IsShort : (is : List (Item E)) → All IsShort is → All (λ f. length f ≤ 1275) (frames is)
  frames-IsShort [] h = tt
  frames-IsShort (ok f ∷ is) h = (h.0, frames-IsShort is h.1)
  frames-IsShort (err e ∷ is) h = frames-IsShort is h.1

All-fits : (fs : List (List ℕ)) → All (λ f. length f ≤ 1275) fs → All (λ f. length f ≤ 2020) fs
All-fits [] h = tt
All-fits (f ∷ fs) h = (omega (arith, h.0), All-fits fs h.1)

module _ (O : OpusApi) (law : KeepsLength O) where
  -- No frame that a new stream gives has more than 1275 bytes.
  pub given-small :
      (source : PcmStream O) (bitrate : ℕ) (o : OpusEncoder O)
      → new O source bitrate ≡ ok o
      → (n now : ℕ) (ts : List Tick)
      → All (λ f. length f ≤ 1275) (frames (Given.polls ts (Opus.new now (polls O n o))).0)
  unfolding Opus.new
  given-small source bitrate o h n now ts =
      let s : OpusStream (Failure O) = Opus.new now (polls O n o) in
      let r = Given.polls ts s in
      let least : o.frame_size ≤ 1275 =
        omega
          (arith, new-frame_size O law source bitrate o h, (encoder_frame_size-bounds bitrate).1) in
      let coded =
        IsShort-HasSize o.frame_size least (items (polls O n o)) (items-HasSize O law n o) in
      let three : 3 ≤ 1275 = omega arith in
      let short : All IsShort (ahead s) = (three, (three, (three, (three, (three, coded))))) in
      frames-IsShort r.0
        (All-front IsShort r.0 (ahead r.1) (subst (All IsShort) (sym (polls-ahead ts s)) short))

  -- So each has room in a packet.
  pub given-short :
      (source : PcmStream O) (bitrate : ℕ) (o : OpusEncoder O)
      → new O source bitrate ≡ ok o
      → (n now : ℕ) (ts : List Tick)
      → All (λ f. length f ≤ 2020) (frames (Given.polls ts (Opus.new now (polls O n o))).0)
  given-short source bitrate o h n now ts =
      All-fits (frames (Given.polls ts (Opus.new now (polls O n o))).0)
        (given-small source bitrate o h n now ts)

module _ (O : OpusApi) (law : KeepsLength O) (A : SocketApi) (key : A.Key)
    (seal : List ℕ → List ℕ → List ℕ) (seals : Seals A key seal) where
  -- Whatever the source gives, the bitrate and the times of the polls, if the encoder fills the slice
  -- that it is given and the cipher adds a tag of 16 bytes: no frame that a new stream gives has more
  -- than 1275 bytes, and the socket sends every one, sealed and in order.
  pub write-stream :
      (source : PcmStream O) (bitrate : ℕ) (o : OpusEncoder O)
      → new O source bitrate ≡ ok o
      → (n now : ℕ) (ts : List Tick) (ssrc i : ℕ)
      → let given = frames (Given.polls ts (Opus.new now (polls O n o))).0 in
        All (λ f. length f ≤ 1275) given
        × (write A key ssrc (sequence_at i) (timestamp_at i) given
            ≡ (packets seal ssrc i given, none))
  write-stream source bitrate o h n now ts ssrc i = (
    given-small O law source bitrate o h n now ts,
    write-packets A key seal seals ssrc i (frames (Given.polls ts (Opus.new now (polls O n o))).0)
        (given-short O law source bitrate o h n now ts),
  )
