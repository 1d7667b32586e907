-- ===== src/Discord/Sequence.antt =====
-- discord.rs: what the reader and the writer of one connection do over any interleaving.
use discord_async_rs.Prelude.{
  Option, none, ℕ, some, List, [], ◌∷◌, ◌++◌, ok, err, ◌≡◌, refl, sym, ap, ◌∙◌, inl, inr,
  Option-cases, arith,
}
use discord_async_rs.Gateway.{Command, GatewayApi, Error, GatewayEvent}
use mathlib.Core.List.{append_assoc}
use discord_async_rs.Gateway.Handshake.{Item}
use discord_async_rs.Discord.{Effect, Failure, Turn, Live, store, read_item, turn, turns}

-- A number, if there is one, in place of another.
abbrev pub newest : Option ℕ → ℕ → ℕ
newest none n = n
newest (some k) n = k

-- The number of the last payload that has one.
unfoldable pub last_sequence : {A : GatewayApi} → ℕ → List (Item A) → ℕ
last_sequence sequence [] = sequence
last_sequence sequence (ok p ∷ is) = last_sequence (newest p.sequence sequence) is
last_sequence sequence (err e ∷ is) = last_sequence sequence is

-- The events of the payloads.
unfoldable pub events : {A : GatewayApi} → List (Item A) → List (GatewayEvent A)
events [] = []
events (ok p ∷ is) = GatewayEvent.event p.event ∷ events is
events (err e ∷ is) = events is

-- The events that the callback was given.
pub heard : {A : GatewayApi} → List (Effect A) → List (GatewayEvent A)
heard [] = []
heard (Effect.callback (some e) ∷ out) = e ∷ heard out
heard (_ ∷ out) = heard out

module _ {A : GatewayApi} where
  heard-append : (xs ys : List (Effect A)) → heard (xs ++ ys) ≡ heard xs ++ heard ys
  unfolding heard
  heard-append [] ys = refl
  heard-append (Effect.callback (some e) ∷ out) ys = ground (arith, heard-append out ys)
  heard-append (_ ∷ out) ys = heard-append out ys

  -- The items between two states of the connection were read: their events were given to the
  -- callback in order, each once, and their last number is the sequence.
  abbrev pub Reads : Live A → Live A → List (Effect A) → List (Item A) → Type 0
  Reads s s' out read =
      (s.incoming ≡ read ++ s'.incoming)
      × (s'.sequence ≡ last_sequence s.sequence read)
      × (heard out ≡ events read)

  read_item-Reads :
      (is : List (Item A)) (s : Live A) (answer : Failure A)
      → s.incoming ≡ is
      → (read : List (Item A)) × Reads s (read_item is s answer).0 (read_item is s answer).1 read
  unfolding read_item store heard events last_sequence
  read_item-Reads [] s answer e = ([], ground arith)
  read_item-Reads (ok p ∷ is) s answer e = (ok p ∷ [], ground arith)
  read_item-Reads (err (Error.close f) ∷ is) s answer e = (err (Error.close f) ∷ [], ground arith)
  read_item-Reads (err x ∷ is) s answer e = (err x ∷ [], ground arith)

  turn-Reads :
      (t : Turn A) (s : Live A) → (read : List (Item A)) × Reads s (turn t s).0 (turn t s).1 read
  unfolding turn heard events last_sequence
  turn-Reads (Turn.read answer) s = read_item-Reads s.incoming s answer refl
  turn-Reads t s = ([], ground arith)

  last_sequence-append :
      (n : ℕ) (xs ys : List (Item A))
      → last_sequence n (xs ++ ys) ≡ last_sequence (last_sequence n xs) ys
  unfolding last_sequence
  last_sequence-append n [] ys = refl
  last_sequence-append n (ok p ∷ xs) ys = last_sequence-append (newest p.sequence n) xs ys
  last_sequence-append n (err e ∷ xs) ys = last_sequence-append n xs ys

  events-append : (xs ys : List (Item A)) → events (xs ++ ys) ≡ events xs ++ events ys
  unfolding events
  events-append [] ys = refl
  events-append (ok p ∷ xs) ys = ap (◌∷◌ (GatewayEvent.event p.event)) (events-append xs ys)
  events-append (err e ∷ xs) ys = events-append xs ys

  Reads-refl : (s : Live A) → Reads s s [] []
  unfolding heard events last_sequence
  Reads-refl s = (refl, refl, refl)

  Reads-trans :
      (s s' s'' : Live A) (out later : List (Effect A)) (xs ys : List (Item A))
      → Reads s s' out xs
      → Reads s' s'' later ys
      → Reads s s'' (out ++ later) (xs ++ ys)
  Reads-trans s s' s'' out later xs ys (i, n, h) (i', n', h') = (
    i ∙ ap (◌++◌ xs) i' ∙ sym (append_assoc xs ys s''.incoming),
    n' ∙ ap (λ k. last_sequence k ys) n ∙ sym (last_sequence-append s.sequence xs ys),
    rw (heard-append out later, h, h', events-append xs ys),
  )

  -- Over any interleaving of the reader, the writer and the shutdown signal, whether it failed or
  -- not: the items read are the first of the incoming ones, the callback was given the event of
  -- each payload among them, once and in order, and `sequence` is the last number among them.
  pub turns-Reads :
      (ts : List (Turn A)) (s : Live A)
      → (read : List (Item A)) × Reads s (turns ts s).0 (turns ts s).1 read
  unfolding turns
  turns-Reads [] s = ([], Reads-refl s)
  turns-Reads (t ∷ ts) s =
      let now_at = (turn t s).0 in
      let end_at = (turns ts now_at).0 in
      let (xs, now) = turn-Reads t s in
      let (ys, later) = turns-Reads ts now_at in
      elim (Option-cases (turn t s).2) [
        | inl e ↦ (
          xs ++ ys,
          rw (e, turns)
              (Reads-trans s now_at end_at (turn t s).1 (turns ts now_at).1 xs ys now later),
        )
        | inr (x, e) ↦ (xs, rw (e, turns) now)
      ]

  -- A heartbeat that follows any turns that did not fail carries the last number among the items
  -- that they read.
  pub heartbeat_acknowledges :
      (ts : List (Turn A)) (s : Live A) (answer : Failure A)
      → (turns ts s).2 ≡ none
      → (read : List (Item A)) × (s.incoming ≡ read ++ (turns ts s).0.incoming)
        × ((turn (Turn.heartbeat answer) (turns ts s).0).1
            ≡ Effect.send (Command.heartbeat (last_sequence s.sequence read)) ∷ [])
  unfolding turn
  heartbeat_acknowledges ts s answer h =
      let (read, reads) = turns-Reads ts s in (read, reads.0, rw reads.1)
