-- ===== src/Voice/Opus/Given.antt =====
-- voice/opus.rs: what the paced stream gives, over any sequence of polls.
use discord_async_rs.Prelude.{
  ℕ, zero, suc, true, false, Option, none, some, List, [], ◌∷◌, ◌++◌, replicate, ok, ◌≡◌, ◌≤◌,
  subst, refl, arith, ap, sym, ◌∙◌, inl, inr, ◌⊎◌, if◌then◌else◌, ◌-◌,
}
use mathlib.Core.List.{append_assoc}
use discord_async_rs.Voice.Opus.{
  Poll, Item, OpusStream, Tick, silence_frame, give, poll_encoder, poll_next,
}

module _ {E : Type 0} where
  -- What the encoder gives up to its end.
  abbrev pub items : List (Poll (Option (Item E))) → List (Item E)
  items [] = []
  items (Poll.pending ∷ rest) = items rest
  items (Poll.ready none ∷ rest) = []
  items (Poll.ready (some val) ∷ rest) = val ∷ items rest

  -- What a stream has yet to give: the silence, then the encoder's items.
  abbrev pub ahead : OpusStream E → List (Item E)
  ahead s = if s.done then [] else replicate s.silence_frames (ok silence_frame) ++ items s.encoder

  abbrev pub given : Poll (Option (Item E)) → List (Item E)
  given (Poll.ready (some val)) = val ∷ []
  given (Poll.ready none) = []
  given Poll.pending = []

  -- What the polls gave, and the stream behind them.
  abbrev pub polls : List Tick → OpusStream E → List (Item E) × OpusStream E
  polls [] s = ([], s)
  polls (t ∷ ts) s = let r = polls ts (poll_next t s).1 in (given (poll_next t s).0 ++ r.0, r.1)

  poll_encoder-ahead :
      (t : Tick) (e : List (Poll (Option (Item E)))) (s : OpusStream E)
      → s.done ≡ false
      → s.silence_frames ≡ 0
      → s.encoder ≡ e
      → given (poll_encoder t e s).0 ++ ahead (poll_encoder t e s).1 ≡ items e
  poll_encoder-ahead t [] s d z h = ground arith
  poll_encoder-ahead t (Poll.pending ∷ rest) s d z h = ground arith
  poll_encoder-ahead t (Poll.ready none ∷ rest) s d z h = refl
  poll_encoder-ahead t (Poll.ready (some val) ∷ rest) s d z h = ground arith

  abbrev pub delayed : OpusStream E → OpusStream E
  delayed s = record s { has_delayed = true }

  abbrev pub quieter : OpusStream E → OpusStream E
  quieter s = record (delayed s) { silence_frames = s.silence_frames - 1 }

  -- A poll at the end, one too early, one that gives silence, and one of the encoder.
  pub poll_next-cases :
      (t : Tick) (s : OpusStream E)
      → (poll_next t s ≡ (Poll.ready none, s))
        ⊎ ((poll_next t s ≡ (Poll.pending, s))
            ⊎ (((s.done ≡ false) × ((s.has_delayed ≡ true) ⊎ (t.elapsed ≡ true)))
                × (((s.silence_frames ≡ 0) × (poll_next t s ≡ poll_encoder t s.encoder (delayed s)))
                    ⊎ ((1 ≤ s.silence_frames)
                        × (poll_next t s ≡ give t (ok silence_frame) (quieter s))))))
  unfolding poll_next
  poll_next-cases t s = ground arith

  silence-ahead :
      (n : ℕ) (xs : List (Item E))
      → 1 ≤ n
      → ok silence_frame ∷ (replicate (n - 1) (ok silence_frame) ++ xs)
        ≡ replicate n (ok silence_frame) ++ xs
  silence-ahead zero xs h = absurd (omega arith)
  silence-ahead (suc n) xs h =
      let e : suc n - 1 ≡ n = omega arith in
      ap (λ k. ok silence_frame ∷ (replicate k (ok silence_frame) ++ xs)) e

  abbrev Gives : OpusStream E → Poll (Option (Item E)) × OpusStream E → Type 0
  Gives s r = given r.0 ++ ahead r.1 ≡ ahead s

  poll_next-ahead : (t : Tick) (s : OpusStream E) → Gives s (poll_next t s)
  poll_next-ahead t s = elim (poll_next-cases t s) [
    | inl e ↦ subst (Gives s) (sym e) refl
    | inr (inl e) ↦ subst (Gives s) (sym e) refl
    | inr (inr ((d, w), inl (z, e))) ↦
        subst (Gives s) (sym e) (poll_encoder-ahead t s.encoder (delayed s) d z refl ∙ ground arith)
    | inr (inr ((d, w), inr (z, e))) ↦
        subst (Gives s) (sym e) (ground (arith, silence-ahead s.silence_frames (items s.encoder) z))
  ]

  -- Over any polls, the stream gives the silence and then the encoder's items up to its end, in
  -- order: what was given, followed by what lies ahead, is always the same.
  pub polls-ahead :
      (ts : List Tick) (s : OpusStream E) → (polls ts s).0 ++ ahead (polls ts s).1 ≡ ahead s
  polls-ahead [] s = refl
  polls-ahead (t ∷ ts) s =
      let r = polls ts (poll_next t s).1 in
      append_assoc (given (poll_next t s).0) r.0 (ahead r.1)
      ∙ (ap (λ x. given (poll_next t s).0 ++ x) (polls-ahead ts (poll_next t s).1)
          ∙ poll_next-ahead t s)
