-- ===== src/Discord/Drains.antt =====
-- discord.rs: the reader and the writer of a connection after the shutdown signal.
use discord_async_rs.Prelude.{
  ℕ, suc, true, none, some, inl, inr, List, [], ◌∷◌, ◌++◌, length, err, ok, ◌≡◌, ◌≤◌, refl, ap,
  arith, Option-cases, sym, ◌∙◌,
}
use mathlib.Core.List.{append_assoc}
use discord_async_rs.Gateway.{GatewayApi, Error, Command}
use discord_async_rs.Gateway.Handshake.{Item}
use discord_async_rs.Discord.{Effect, Failure, Turn, Live, read_item, recv, close, turn, turns}

-- The commands that were sent on.
abbrev pub sent : {A : GatewayApi} → List (Effect A) → List A.ClientCommand
sent [] = []
sent (Effect.send (Command.client c) ∷ out) = c ∷ sent out
sent (_ ∷ out) = sent out

-- How often the writer turns to the channel of the commands.
abbrev pub receives : {A : GatewayApi} → List (Turn A) → ℕ
receives [] = 0
receives (Turn.command given answer ∷ ts) = suc (receives ts)
receives (_ ∷ ts) = receives ts

module _ {A : GatewayApi} where
  -- No read and no send fails.
  abbrev pub Succeeds : List (Turn A) → Live A → Type 0
  Succeeds [] s = Unit
  Succeeds (Turn.read answer ∷ ts) s =
      ((turn (Turn.read answer) s).2 ≡ none) × Succeeds ts (turn (Turn.read answer) s).0
  Succeeds (Turn.heartbeat answer ∷ ts) s = (answer ≡ none) × Succeeds ts s
  Succeeds (Turn.command given answer ∷ ts) s =
      (answer ≡ none) × Succeeds ts (turn (Turn.command given answer) s).0
  Succeeds (Turn.shutdown queue ∷ ts) s = Succeeds ts (turn (Turn.shutdown queue) s).0

  pub sent-append : (xs ys : List (Effect A)) → sent (xs ++ ys) ≡ sent xs ++ sent ys
  sent-append [] ys = refl
  sent-append (Effect.send (Command.client c) ∷ xs) ys = ap (◌∷◌ c) (sent-append xs ys)
  sent-append (Effect.send c ∷ xs) ys = ground (arith, sent-append xs ys)
  sent-append (Effect.callback e ∷ xs) ys = sent-append xs ys
  sent-append (Effect.init a u ∷ xs) ys = sent-append xs ys
  sent-append (Effect.shutdown_frame ∷ xs) ys = sent-append xs ys

  read_item-sent :
      (is : List (Item A)) (s : Live A) (answer : Failure A)
      → let r = read_item is s answer in
        (sent r.1 ≡ []) × (r.0.closed ≡ s.closed) × (r.0.shutdown ≡ s.shutdown)
  unfolding read_item
  read_item-sent [] s answer = (refl, refl, refl)
  read_item-sent (ok p ∷ is) s answer = (refl, refl, refl)
  read_item-sent (err (Error.close f) ∷ is) s answer = (refl, refl, refl)
  read_item-sent (err x ∷ is) s answer = ground arith

  -- After the signal, while no read and no send fails, turns enough to the channel send what was
  -- queued and end the writer with the shutdown.
  pub turns-drains :
      (ts : List (Turn A)) (cs : List A.ClientCommand) (s : Live A)
      → s.shutdown ≡ true
      → s.closed ≡ some cs
      → Succeeds ts s
      → suc (length cs) ≤ receives ts
      → ((turns ts s).2 ≡ some Error.shutdown) × (sent (turns ts s).1 ≡ cs)
  unfolding turns turn recv close
  turns-drains [] cs s d c h l = ground arith
  turns-drains (Turn.read answer ∷ ts) cs s d c (e, h) l =
      let r = read_item s.incoming s answer in
      let (quiet, closed, shut) = read_item-sent s.incoming s answer in
      ground (arith, turns-drains ts cs r.0, sent-append r.1 (turns ts r.0).1)
  turns-drains (Turn.heartbeat answer ∷ ts) cs s d c (e, h) l =
      ground (arith, turns-drains ts cs s d c h l)
  turns-drains (Turn.command given answer ∷ ts) [] s d c (e, h) l = ground arith
  turns-drains (Turn.command given answer ∷ ts) (x ∷ xs) s d c (e, h) l =
      ground (arith, turns-drains ts xs (record s { closed = some xs }))
  turns-drains (Turn.shutdown queue ∷ ts) cs s d c h l =
      ground (arith, turns-drains ts cs (turn (Turn.shutdown queue) s).0)

  turns-cons :
      (t : Turn A) (ts : List (Turn A)) (s : Live A)
      → (turn t s).2 ≡ none
      → let r = turns ts (turn t s).0 in turns (t ∷ ts) s ≡ (r.0, (turn t s).1 ++ r.1, r.2)
  unfolding turns
  turns-cons t ts s e = rw (e, turns)

  turns-failed :
      (t : Turn A) (ts : List (Turn A)) (s : Live A) (x : Error A)
      → (turn t s).2 ≡ some x
      → (turns (t ∷ ts) s).2 ≡ some x
  unfolding turns
  turns-failed t ts s x e = ground arith

  pub turns-append :
      (before ts : List (Turn A)) (s : Live A)
      → (turns before s).2 ≡ none
      → let t = (turns before s).0 in
        turns (before ++ ts) s
        ≡ ((turns ts t).0, (turns before s).1 ++ (turns ts t).1, (turns ts t).2)
  unfolding turns
  turns-append [] ts s h = refl
  turns-append (t ∷ before) ts s h = elim (Option-cases (turn t s).2) [
    | inl e ↦
        let one = turns-cons t before s e in
        let later = turns-append before ts (turn t s).0 (sym (ap (λ r. r.2) one) ∙ h) in
        turns-cons t (before ++ ts) s e
        ∙ rw (
          one,
          later,
          append_assoc (turn t s).1 (turns before (turn t s).0).1
              (turns ts (turns before (turn t s).0).0).1,
        )
    | inr (x, e) ↦ ground (arith, turns-failed t before s x e)
  ]

  -- The state behind the signal, with what the channel held.
  abbrev pub signalled : List A.ClientCommand → Live A → Live A
  signalled cs s = record s { shutdown = true; closed = some cs }

  pub drained :
      (before after : List (Turn A)) (cs : List A.ClientCommand) (s : Live A)
      → (turns before s).2 ≡ none
      → (turns before s).0.closed ≡ none
      → Succeeds after (signalled cs (turns before s).0)
      → suc (length cs) ≤ receives after
      → let w = turns (before ++ Turn.shutdown cs ∷ after) s in
        (w.2 ≡ some Error.shutdown) × (sent w.1 ≡ sent (turns before s).1 ++ cs)
  unfolding turns turn close
  drained before after cs s h c succeeds l =
      let u = turns before s in
      let t = signalled cs u.0 in
      let ends = turns-drains after cs t refl refl succeeds l in
      ground (
        arith,
        ends,
        turns-append before (Turn.shutdown cs ∷ after) s h,
        sent-append u.1 (turns after t).1,
      )
