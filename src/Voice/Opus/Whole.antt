-- ===== src/Voice/Opus/Whole.antt =====
-- voice/opus.rs: polled long enough, the paced stream gives everything.
use discord_async_rs.Prelude.{
  ℕ, zero, suc, true, false, Option, none, some, List, [], ◌∷◌, ◌++◌, length, All, replicate, ◌≡◌,
  ◌≤◌, ◌+◌, ◌-◌, ok, refl, arith, sym, ap, ◌∙◌, if◌then◌else◌,
}
use mathlib.Core.List.{append-nil}
use discord_async_rs.Voice.Opus.{
  Poll, Item, OpusStream, Tick, silence_frame, poll_encoder, poll_next,
}
use discord_async_rs.Voice.Opus.Given.{items, ahead, polls, polls-ahead, delayed}

module _ {E : Type 0} where
  -- A bound on the polls that give something, or that read from the encoder.
  abbrev pub left : OpusStream E → ℕ
  left s = if s.done then 0 else s.silence_frames + length s.encoder

  abbrev Spends : OpusStream E → Poll (Option (Item E)) × OpusStream E → Type 0
  Spends s r = left r.1 ≤ left s - 1

  poll_encoder-Spends :
      (t : Tick) (e : List (Poll (Option (Item E)))) (s : OpusStream E)
      → s.done ≡ false
      → s.silence_frames ≡ 0
      → s.encoder ≡ e
      → Spends s (poll_encoder t e s)
  poll_encoder-Spends t [] s d z h = ground arith
  poll_encoder-Spends t (Poll.pending ∷ rest) s d z h = ground arith
  poll_encoder-Spends t (Poll.ready none ∷ rest) s d z h = ground arith
  poll_encoder-Spends t (Poll.ready (some val) ∷ rest) s d z h = ground arith

  poll_next-Spends : (t : Tick) (s : OpusStream E) → t.elapsed ≡ true → Spends s (poll_next t s)
  unfolding poll_next
  poll_next-Spends t s e = ground (arith, poll_encoder-Spends t s.encoder (delayed s))

  left-polls :
      (ts : List Tick) (s : OpusStream E)
      → All (λ t. t.elapsed ≡ true) ts
      → left (polls ts s).1 ≤ left s - length ts
  left-polls [] s h = omega arith
  left-polls (t ∷ ts) s h =
      omega (arith, left-polls ts (poll_next t s).1 h.1, poll_next-Spends t s h.0)

  replicate-items :
      (n : ℕ) (e : List (Poll (Option (Item E))))
      → n + length e ≡ 0
      → replicate n (ok silence_frame) ++ items e ≡ []
  replicate-items zero [] h = refl
  replicate-items zero (x ∷ e) h = absurd (omega arith)
  replicate-items (suc n) e h = absurd (omega arith)

  left-ahead : (s : OpusStream E) → left s ≡ 0 → ahead s ≡ []
  left-ahead s h = ground (arith, replicate-items s.silence_frames s.encoder)

  -- Polled in time, as often as there are silence frames and polls of the encoder, the stream gives
  -- exactly the silence and then the encoder's items up to its end.
  pub polls-whole :
      (ts : List Tick) (s : OpusStream E)
      → All (λ t. t.elapsed ≡ true) ts
      → left s ≤ length ts
      → (polls ts s).0 ≡ ahead s
  polls-whole ts s h l =
      let e : ahead (polls ts s).1 ≡ [] =
        left-ahead (polls ts s).1 (omega (arith, left-polls ts s h)) in
      sym (append-nil (polls ts s).0) ∙ (ap (λ x. (polls ts s).0 ++ x) (sym e) ∙ polls-ahead ts s)
