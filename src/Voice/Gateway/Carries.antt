-- ===== src/Voice/Gateway/Carries.antt =====
-- voice/gateway.rs: what the reader and the writer hand out, in any order of their turns.
use discord_async_rs.Prelude.{
  true, ℕ, zero, suc, Bool, none, some, List, [], ◌∷◌, ◌++◌, ok, err, ◌≡◌, ◌+◌, if◌then◌else◌, refl,
  arith, ap, sym, ◌∙◌,
}
use mathlib.Core.List.{append-nil, append_assoc}
use discord_async_rs.Gateway.{GatewayApi, Error}
use discord_async_rs.Voice.Gateway.{VoiceApi}
use discord_async_rs.Voice.Gateway.Handshake.{Item, Opened}
use discord_async_rs.Voice.Gateway.Turns.{Effect, Turn, Live, read_item, turn, turns, live, serve}

abbrev pub carried : {V : VoiceApi} → List (Effect V) → List V.Event
carried [] = []
carried (Effect.event e ∷ out) = e ∷ carried out
carried (_ ∷ out) = carried out

abbrev pub beats : {V : VoiceApi} → List (Effect V) → List ℕ
beats [] = []
beats (Effect.beat n ∷ out) = n ∷ beats out
beats (_ ∷ out) = beats out

-- 1, 2, … up to a number.
abbrev pub upto : ℕ → List ℕ
upto zero = []
upto (suc n) = upto n ++ (suc n ∷ [])

upto-add : (n : ℕ) → upto (n + 1) ≡ upto n ++ ((n + 1) ∷ [])
upto-add n = let e : n + 1 ≡ suc n = omega arith in rw e refl

module _ {V : VoiceApi} where
  carried-append : (xs ys : List (Effect V)) → carried (xs ++ ys) ≡ carried xs ++ carried ys
  carried-append [] ys = refl
  carried-append (Effect.event e ∷ xs) ys = ap (◌∷◌ e) (carried-append xs ys)
  carried-append (Effect.beat n ∷ xs) ys = carried-append xs ys
  carried-append (Effect.send c ∷ xs) ys = carried-append xs ys

  beats-append : (xs ys : List (Effect V)) → beats (xs ++ ys) ≡ beats xs ++ beats ys
  beats-append [] ys = refl
  beats-append (Effect.event e ∷ xs) ys = beats-append xs ys
  beats-append (Effect.beat n ∷ xs) ys = ap (◌∷◌ n) (beats-append xs ys)
  beats-append (Effect.send c ∷ xs) ys = beats-append xs ys

module _ (A : GatewayApi) (V : VoiceApi) where
  -- The events before a closing frame but for the acknowledgements of heartbeats; errors of other
  -- kinds are passed over.
  abbrev pub events : List (Item A V) → List V.Event
  events [] = []
  events (ok e ∷ rest) = if V.is_heartbeat_ack e then events rest else e ∷ events rest
  events (err (Error.close frame) ∷ rest) = []
  events (err _ ∷ rest) = events rest

  read_item-carried :
      (taken : Bool) (is : List (Item A V)) (s : Live A V)
      → s.incoming ≡ is
      → carried (read_item taken is s).1 ++ events (read_item taken is s).0.incoming ≡ events is
  unfolding read_item
  read_item-carried taken [] s e = ground arith
  read_item-carried taken (ok event ∷ rest) s e = ground arith
  read_item-carried taken (err (Error.close frame) ∷ rest) s e = ground arith
  read_item-carried taken (err Error.shutdown ∷ rest) s e = refl
  read_item-carried taken (err (Error.ws x) ∷ rest) s e = refl
  read_item-carried taken (err Error.unexpected_event ∷ rest) s e = refl
  read_item-carried taken (err Error.timeout ∷ rest) s e = refl
  read_item-carried taken (err Error.decode ∷ rest) s e = refl
  read_item-carried taken (err (Error.serde x) ∷ rest) s e = refl

  -- What was handed out, and what is ahead, are what was ahead; the beats go on from the count.
  abbrev Carries : Live A V → Live A V × List (Effect V) → Type 0
  Carries s r =
      (carried r.1 ++ events r.0.incoming ≡ events s.incoming)
      × (upto s.count ++ beats r.1 ≡ upto r.0.count)

  read_item-beats :
      (taken : Bool) (is : List (Item A V)) (s : Live A V)
      → (beats (read_item taken is s).1 ≡ []) × ((read_item taken is s).0.count ≡ s.count)
  unfolding read_item
  read_item-beats taken [] s = ground arith
  read_item-beats taken (ok e ∷ rest) s = ground arith
  read_item-beats taken (err (Error.close frame) ∷ rest) s = (refl, refl)
  read_item-beats taken (err Error.shutdown ∷ rest) s = (refl, refl)
  read_item-beats taken (err (Error.ws x) ∷ rest) s = (refl, refl)
  read_item-beats taken (err Error.unexpected_event ∷ rest) s = (refl, refl)
  read_item-beats taken (err Error.timeout ∷ rest) s = (refl, refl)
  read_item-beats taken (err Error.decode ∷ rest) s = (refl, refl)
  read_item-beats taken (err (Error.serde x) ∷ rest) s = (refl, refl)

  turn-Carries : (t : Turn A) (s : Live A V) → Carries s (turn t s)
  unfolding turn
  turn-Carries (Turn.read taken) s = ground (
    arith,
    read_item-carried taken s.incoming s refl,
    read_item-beats taken s.incoming s,
    append-nil (upto s.count),
  )
  turn-Carries (Turn.heartbeat a) s = ground (arith, append-nil (upto s.count), upto-add s.count)
  turn-Carries (Turn.command c a) s = ground (arith, append-nil (upto s.count))
  turn-Carries (Turn.commands_end a) s = ground (arith, append-nil (upto s.count))

  pub turns-Carries : (ts : List (Turn A)) (s : Live A V) → Carries s (turns ts s)
  unfolding turns
  turns-Carries [] s = (refl, append-nil (upto s.count))
  turns-Carries (t ∷ ts) s =
      let (s', out) = turn t s in
      let (s'', later) = turns ts s' in
      let (c, b) = turn-Carries t s in
      let (c', b') = turns-Carries ts s' in
      (
        ap (λ x. x ++ events s''.incoming) (carried-append out later)
            ∙ (append_assoc (carried out) (carried later) (events s''.incoming)
                ∙ (ap (λ x. carried out ++ x) c' ∙ c)),
        ap (λ x. upto s.count ++ x) (beats-append out later)
            ∙ (sym (append_assoc (upto s.count) (beats out) (beats later))
                ∙ (ap (λ x. x ++ beats later) b ∙ b')),
      )

  -- Over any order of the turns of reader and writer: the events that are handed out, the first one
  -- that answers the handshake left aside, are, with those yet unread, the events that the
  -- connection gives before a closing frame, without the acknowledgements of heartbeats, once and
  -- in order. The heartbeats that are sent are numbered 1, 2, 3 and so on.
  pub serve-Carries :
      (o : Opened A V) (ts : List (Turn A))
      → let (s, out) = serve o ts in
        (out' : List (Effect V)) × (out
          ≡ Effect.event (elim o.ready as (λ _. V.Event) [ some r ↦ V.ready r | none ↦ V.resumed ])
            ∷ out')
        × (carried out' ++ events s.incoming ≡ events o.incoming)
        × (beats out' ≡ upto s.count)
  unfolding serve live
  serve-Carries o ts =
      let (c, b) = turns-Carries ts (live true o.incoming) in
      ((turns ts (live true o.incoming)).1, refl, c, b)
