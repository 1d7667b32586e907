-- ===== src/Voice/Gateway/Whole.antt =====
-- voice/gateway.rs: read long enough, the connection is handed on whole, and the task ends.
use discord_async_rs.Prelude.{
  ℕ, suc, true, none, some, List, [], ◌∷◌, ◌++◌, ok, err, ◌≡◌, ◌≤◌, ◌+◌, ◌-◌, refl, arith, ap, sym,
  ◌∙◌, length, All, Option-cases, inl, inr, ◌⊎◌, Bool, false, is_some, ◌||◌, ◌&&◌, if◌then◌else◌,
}
use mathlib.Core.List.{append-nil}
use discord_async_rs.Gateway.{GatewayApi, Error}
use discord_async_rs.Voice.Gateway.{VoiceApi}
use discord_async_rs.Voice.Gateway.Handshake.{Item}
use discord_async_rs.Voice.Gateway.Turns.{Turn, Live, read_item, turn, turns, joined, live}
use discord_async_rs.Voice.Gateway.Carries.{carried, events, turns-Carries}

abbrev pub reads : {A : GatewayApi} → List (Turn A) → ℕ
reads [] = 0
reads (Turn.read taken ∷ ts) = suc (reads ts)
reads (_ ∷ ts) = reads ts

-- Whether the commands end or one cannot be sent.
abbrev pub ends_writer : {A : GatewayApi} → List (Turn A) → Bool
ends_writer [] = false
ends_writer (Turn.read taken ∷ ts) = ends_writer ts
ends_writer (Turn.heartbeat answer ∷ ts) = is_some answer || ends_writer ts
ends_writer (Turn.command c answer ∷ ts) = is_some answer || ends_writer ts
ends_writer (Turn.commands_end answer ∷ ts) = true

-- The receiver of the events is there.
abbrev pub IsTaken : {A : GatewayApi} → Turn A → Type 0
IsTaken (Turn.read taken) = taken ≡ true
IsTaken _ = Unit

reads-cons :
    {A : GatewayApi} (t : Turn A) (ts : List (Turn A)) → reads (t ∷ ts) ≡ reads (t ∷ []) + reads ts
reads-cons (Turn.read b) ts = omega arith
reads-cons (Turn.heartbeat a) ts = omega arith
reads-cons (Turn.command c a) ts = omega arith
reads-cons (Turn.commands_end a) ts = omega arith

module _ (A : GatewayApi) (V : VoiceApi) where
  -- Whether a closing frame is among the items.
  abbrev pub closes : List (Item A V) → Bool
  closes [] = false
  closes (ok e ∷ is) = closes is
  closes (err (Error.close frame) ∷ is) = true
  closes (err _ ∷ is) = closes is

  -- The reader has not failed to hand an event on; if it has ended, nothing is ahead.
  abbrev IsSound : Live A V → Type 0
  IsSound s = (s.reader ≡ none) ⊎ (events A V s.incoming ≡ [])

  -- A bound on the turns that the reader still has.
  abbrev left : Live A V → ℕ
  left s = elim s.reader [ none ↦ length s.incoming + (if s.over then 1 else 0) | some _ ↦ 0 ]

  abbrev Reads : Live A V → Live A V → Type 0
  Reads s s' = IsSound s' × (left s' ≤ left s - 1)

  read_item-Reads :
      (is : List (Item A V)) (s : Live A V)
      → s.incoming ≡ is
      → s.reader ≡ none
      → Reads s (read_item true is s).0
  unfolding read_item
  read_item-Reads [] s e n = (inr (ground arith), ground arith)
  read_item-Reads (ok x ∷ rest) s e n = (inl (ground arith), ground arith)
  read_item-Reads (err (Error.close frame) ∷ rest) s e n = (inr (ground arith), ground arith)
  read_item-Reads (err Error.shutdown ∷ rest) s e n = (inl n, ground arith)
  read_item-Reads (err (Error.ws x) ∷ rest) s e n = (inl n, ground arith)
  read_item-Reads (err Error.unexpected_event ∷ rest) s e n = (inl n, ground arith)
  read_item-Reads (err Error.timeout ∷ rest) s e n = (inl n, ground arith)
  read_item-Reads (err Error.decode ∷ rest) s e n = (inl n, ground arith)
  read_item-Reads (err (Error.serde x) ∷ rest) s e n = (inl n, ground arith)

  turn-Reads :
      (t : Turn A) (s : Live A V)
      → IsTaken t
      → IsSound s
      → IsSound (turn t s).0 × (left (turn t s).0 ≤ left s - reads (t ∷ []))
  unfolding turn
  turn-Reads (Turn.read taken) s h i = ground (arith, read_item-Reads s.incoming s refl)
  turn-Reads (Turn.heartbeat a) s h i = ground arith
  turn-Reads (Turn.command c a) s h i = ground arith
  turn-Reads (Turn.commands_end a) s h i = ground arith

  turns-Reads :
      (ts : List (Turn A)) (s : Live A V)
      → All IsTaken ts
      → IsSound s
      → IsSound (turns ts s).0 × (left (turns ts s).0 ≤ left s - reads ts)
  unfolding turns
  turns-Reads [] s h i = (i, omega arith)
  turns-Reads (t ∷ ts) s h i =
      let (j, l) = turn-Reads t s h.0 i in
      let (k, m) = turns-Reads ts (turn t s).0 h.1 j in (k, omega (arith, reads-cons t ts))

  events-none : (is : List (Item A V)) → length is ≡ 0 → events A V is ≡ []
  events-none [] e = refl
  events-none (i ∷ is) e = ground arith

  left-IsSound : (s : Live A V) → IsSound s → left s ≡ 0 → events A V s.incoming ≡ []
  left-IsSound s (inl n) l = ground (arith, events-none s.incoming)
  left-IsSound s (inr e) l = e

  closes-none : (is : List (Item A V)) → length is ≡ 0 → closes is ≡ false
  closes-none [] e = refl
  closes-none (i ∷ is) e = ground arith

  -- Whether the reader ends, now or behind what is ahead of it.
  abbrev settles : Live A V → Bool
  settles s = is_some s.reader || (s.over || closes s.incoming)

  read_item-settles :
      (is : List (Item A V)) (s : Live A V)
      → s.incoming ≡ is
      → s.reader ≡ none
      → settles (read_item true is s).0 ≡ settles s
  unfolding read_item
  read_item-settles [] s e n = ground arith
  read_item-settles (ok x ∷ rest) s e n = ground arith
  read_item-settles (err (Error.close frame) ∷ rest) s e n = ground arith
  read_item-settles (err Error.shutdown ∷ rest) s e n = ground arith
  read_item-settles (err (Error.ws x) ∷ rest) s e n = ground arith
  read_item-settles (err Error.unexpected_event ∷ rest) s e n = ground arith
  read_item-settles (err Error.timeout ∷ rest) s e n = ground arith
  read_item-settles (err Error.decode ∷ rest) s e n = ground arith
  read_item-settles (err (Error.serde x) ∷ rest) s e n = ground arith

  turn-settles : (t : Turn A) (s : Live A V) → IsTaken t → settles (turn t s).0 ≡ settles s
  unfolding turn
  turn-settles (Turn.read taken) s h = ground (arith, read_item-settles s.incoming s refl)
  turn-settles (Turn.heartbeat a) s h = ground arith
  turn-settles (Turn.command c a) s h = ground arith
  turn-settles (Turn.commands_end a) s h = ground arith

  turns-settles :
      (ts : List (Turn A)) (s : Live A V) → All IsTaken ts → settles (turns ts s).0 ≡ settles s
  unfolding turns
  turns-settles [] s h = refl
  turns-settles (t ∷ ts) s h = turns-settles ts (turn t s).0 h.1 ∙ turn-settles t s h.0

  left-settles : (s : Live A V) → left s ≡ 0 → is_some s.reader ≡ settles s
  left-settles s l = elim (Option-cases s.reader) [
    | inl n ↦ ground (arith, closes-none s.incoming)
    | inr (o, e) ↦ ground arith
  ]

  read_item-writer :
      (taken : Bool) (is : List (Item A V)) (s : Live A V)
      → (read_item taken is s).0.writer ≡ s.writer
  unfolding read_item
  read_item-writer taken [] s = ground arith
  read_item-writer taken (ok x ∷ rest) s = ground arith
  read_item-writer taken (err (Error.close frame) ∷ rest) s = refl
  read_item-writer taken (err Error.shutdown ∷ rest) s = refl
  read_item-writer taken (err (Error.ws x) ∷ rest) s = refl
  read_item-writer taken (err Error.unexpected_event ∷ rest) s = refl
  read_item-writer taken (err Error.timeout ∷ rest) s = refl
  read_item-writer taken (err Error.decode ∷ rest) s = refl
  read_item-writer taken (err (Error.serde x) ∷ rest) s = refl

  turn-writer :
      (t : Turn A) (ts : List (Turn A)) (s : Live A V)
      → (is_some (turn t s).0.writer || ends_writer ts) ≡ (is_some s.writer || ends_writer (t ∷ ts))
  unfolding turn
  turn-writer (Turn.read taken) ts s = ground (arith, read_item-writer taken s.incoming s)
  turn-writer (Turn.heartbeat a) ts s = ground arith
  turn-writer (Turn.command c a) ts s = ground arith
  turn-writer (Turn.commands_end a) ts s = ground arith

  turns-writer :
      (ts : List (Turn A)) (s : Live A V)
      → is_some (turns ts s).0.writer ≡ (is_some s.writer || ends_writer ts)
  unfolding turns
  turns-writer [] s = ground arith
  turns-writer (t ∷ ts) s = turns-writer ts (turn t s).0 ∙ turn-writer t ts s

  -- The task ends with both.
  pub joined-both : (s : Live A V) → is_some (joined s) ≡ (is_some s.reader && is_some s.writer)
  unfolding joined
  joined-both s = ground arith

  -- The writer ends exactly if the commands have an end or one cannot be sent.
  pub turns-ends_writer :
      (over : Bool) (is : List (Item A V)) (ts : List (Turn A))
      → is_some (turns ts (live {V = V} over is)).0.writer ≡ ends_writer ts
  unfolding live
  turns-ends_writer over is ts = turns-writer ts (live {V = V} over is)

  -- If the receiver of the events is there, and the reader has a turn for every item and one more,
  -- then whatever the writer does in between, all events before a closing frame are handed out but
  -- for the acknowledgements of heartbeats, and the reader has ended exactly if the stream ends
  -- behind the items or a closing frame is among them.
  pub turns-whole :
      (over : Bool) (is : List (Item A V)) (ts : List (Turn A))
      → All IsTaken ts
      → suc (length is) ≤ reads ts
      → let r = turns ts (live {V = V} over is) in
        (carried r.1 ≡ events A V is) × (is_some r.0.reader ≡ (over || closes is))
  unfolding live
  turns-whole over is ts h l =
      let (i, m) = turns-Reads ts (live {V = V} over is) h (inl refl) in
      let s' = (turns ts (live {V = V} over is)).0 in
      let bound : left (live {V = V} over is) ≤ suc (length is) = ground arith in
      let none_left : left s' ≡ 0 = omega (arith, m, bound) in
      (
        sym (append-nil (carried (turns ts (live {V = V} over is)).1))
            ∙ (ap (λ x. carried (turns ts (live {V = V} over is)).1 ++ x)
                  (sym (left-IsSound s' i none_left))
                ∙ (turns-Carries A V ts (live {V = V} over is)).0),
        left-settles s' none_left ∙ turns-settles ts (live {V = V} over is) h,
      )
