-- ===== src/Voice/Opus/Paced.antt =====
-- voice/opus.rs: how fast the paced stream gives its frames, and their size.
use discord_async_rs.Prelude.{
  ℕ, true, Option, none, some, List, [], ◌∷◌, length, ◌≡◌, ◌≤◌, ◌+◌, ◌*◌, arith, subst, sym,
  length-append, inl, inr,
}
use discord_async_rs.Voice.Opus.{
  Poll, Item, OpusStream, Tick, encoder_frame_size, poll_encoder, poll_next,
}
use discord_async_rs.Voice.Opus.Given.{given, polls, delayed, poll_next-cases}

-- For every bitrate a frame has between 15 and 1275 bytes, the most that Opus allows and less than
-- a packet of the socket has room for.
pub encoder_frame_size-bounds :
    (bitrate : ℕ) → (15 ≤ encoder_frame_size bitrate) × (encoder_frame_size bitrate ≤ 1275)
unfolding encoder_frame_size
encoder_frame_size-bounds bitrate = (omega arith, omega arith)

module _ {E : Type 0} where
  -- The clock does not go back, and the delay elapses only after its deadline.
  abbrev pub Timely : ℕ → List Tick → OpusStream E → Type 0
  Timely last [] s = Unit
  Timely last (t ∷ ts) s =
      (last ≤ t.now) × (t.elapsed ≡ true → s.deadline ≤ t.now) × Timely t.now ts (poll_next t s).1

  -- The frames that a poll gave move the deadline on, and a delay that has passed lies behind.
  abbrev Moves : ℕ → OpusStream E → Poll (Option (Item E)) × OpusStream E → Type 0
  Moves now s r =
      (s.deadline + 20000 * length (given r.0) ≤ r.1.deadline)
      × (r.1.has_delayed ≡ true → r.1.deadline ≤ now)

  poll_encoder-Moves :
      (t : Tick) (e : List (Poll (Option (Item E)))) (s : OpusStream E)
      → s.deadline ≤ t.now
      → Moves t.now s (poll_encoder t e s)
  poll_encoder-Moves t [] s d = (omega arith, λ _. d)
  poll_encoder-Moves t (Poll.pending ∷ rest) s d = (omega arith, λ _. d)
  poll_encoder-Moves t (Poll.ready none ∷ rest) s d = (omega arith, λ _. d)
  poll_encoder-Moves t (Poll.ready (some val) ∷ rest) s d = (omega arith, λ h. cc)

  poll_next-Moves :
      (t : Tick) (s : OpusStream E)
      → (s.has_delayed ≡ true → s.deadline ≤ t.now)
      → (t.elapsed ≡ true → s.deadline ≤ t.now)
      → Moves t.now s (poll_next t s)
  poll_next-Moves t s h e = elim (poll_next-cases t s) [
    | inl q ↦ subst (Moves t.now s) (sym q) (omega arith, h)
    | inr (inl q) ↦ subst (Moves t.now s) (sym q) (omega arith, h)
    | inr (inr ((d, w), inl (z, q))) ↦
        subst (Moves t.now s) (sym q)
          (poll_encoder-Moves t s.encoder (delayed s) (elim w [ inl a ↦ h a | inr a ↦ e a ]))
    | inr (inr ((d, w), inr (z, q))) ↦
        let past : s.deadline ≤ t.now = elim w [ inl a ↦ h a | inr a ↦ e a ] in
        subst (Moves t.now s) (sym q) (omega arith, λ a. cc)
  ]

  -- Over any polls in time, the deadline moves on by at least 20 milliseconds for every frame that
  -- is given: frames are never sent faster than they are played.
  pub polls-paced :
      (last : ℕ) (ts : List Tick) (s : OpusStream E)
      → (s.has_delayed ≡ true → s.deadline ≤ last)
      → Timely last ts s
      → s.deadline + 20000 * length (polls ts s).0 ≤ (polls ts s).1.deadline
  polls-paced last [] s h t = omega arith
  polls-paced last (t ∷ ts) s h (m, e, rest) =
      let s' = (poll_next t s).1 in
      let (moved, past) = poll_next-Moves t s (λ a. omega (arith, h a)) e in
      omega (
        arith,
        moved,
        polls-paced t.now ts s' past rest,
        length-append (given (poll_next t s).0) (polls ts s').0,
      )
