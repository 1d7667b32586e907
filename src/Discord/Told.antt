-- ===== src/Discord/Told.antt =====
-- discord.rs: what the callback is told over all the attempts of `start_discord`.
use discord_async_rs.Prelude.{
  true, false, Option, none, some, is_some, String, List, [], ◌∷◌, ◌++◌, map, ◌≡◌, ◌⊎◌, inl, inr,
  refl, arith, All, Option-cases, Result-cases,
}
use mathlib.Core.List.{append-nil}
use discord_async_rs.Gateway.{GatewayApi, Error, Command, GatewayEvent}
use discord_async_rs.Gateway.Handshake.{Item, Opened}
use discord_async_rs.Gateway.Handshake
use discord_async_rs.Discord.{Effect, Failure, Turn, Live, Session, Attempt, turn, turns, serve}
use discord_async_rs.Discord.Attempts.{connector, started, resumed, connect, start_discord}

-- Whether the bot is online after what the callback is told, if it may be told: `offline` and
-- events while the bot is online only, `online` and `session_invalidated` while it is not, and
-- nothing behind the final `None`.
pub data Status : Type 0 where
  offline online ended : Status

abbrev pub tells : {A : GatewayApi} → Status → Effect A → Option Status
tells Status.offline (Effect.callback (some GatewayEvent.online)) = some Status.online
tells Status.offline (Effect.callback (some GatewayEvent.session_invalidated)) = some Status.offline
tells Status.online (Effect.callback (some (GatewayEvent.event e))) = some Status.online
tells Status.online (Effect.callback (some GatewayEvent.offline)) = some Status.offline
tells Status.offline (Effect.callback none) = some Status.ended
tells Status.online (Effect.callback none) = some Status.ended
tells st (Effect.callback e) = none
tells st (Effect.init a u) = some st
tells st (Effect.send c) = some st
tells st Effect.shutdown_frame = some st

abbrev pub tells_all : {A : GatewayApi} → Status → List (Effect A) → Option Status
tells_all st [] = some st
tells_all st (e ∷ out) = elim (tells st e) [ none ↦ none | some st' ↦ tells_all st' out ]

module _ {A : GatewayApi} where
  tells_all-append :
      (st st' : Status) (xs ys : List (Effect A))
      → tells_all st xs ≡ some st'
      → tells_all st (xs ++ ys) ≡ tells_all st' ys
  tells_all-append st st' [] ys e = ground arith
  tells_all-append st st' (x ∷ xs) ys e = elim (Option-cases (tells st x)) [
    | inl e' ↦ ground (arith)
    | inr (st'', e') ↦ ground (arith, tells_all-append st'' st' xs ys)
  ]

  turn-online :
      (t : Turn A) (s : Live A) → tells_all Status.online (turn t s).1 ≡ some Status.online
  unfolding turn
  turn-online t s = ground arith

  turns-online :
      (ts : List (Turn A)) (s : Live A)
      → tells_all Status.online (turns ts s).1 ≡ some Status.online
  unfolding turns
  turns-online [] s = refl
  turns-online (t ∷ ts) s = ground (
    arith,
    turn-online t s,
    turns-online ts (turn t s).0,
    tells_all-append Status.online Status.online (turn t s).1 (turns ts (turn t s).0).1,
  )

  -- A connection that is gone leaves the bot offline, unless it was shut down.
  abbrev Ends : List (Effect A) → Failure A → Type 0
  Ends out failure =
      (tells_all Status.offline out ≡ some Status.offline)
      ⊎ ((tells_all Status.offline out ≡ some Status.online)
          × ((failure ≡ none) ⊎ (failure ≡ some Error.shutdown)))

  serve-Ends :
      (a : Attempt A) (s : Session) (o : Opened A)
      → (tells_all Status.online (serve a s o).1 ≡ some Status.offline)
        ⊎ ((tells_all Status.online (serve a s o).1 ≡ some Status.online)
            × (((serve a s o).2 ≡ none) ⊎ ((serve a s o).2 ≡ some Error.shutdown)))
  unfolding serve
  serve-Ends a s o =
      let live : Live A = record {
        sequence = s.sequence;
        shutdown = false;
        closed = none;
        incoming = o.incoming;
      } in
      let r = turns a.turns live in
      ground (
        arith,
        turns-online a.turns live,
        tells_all-append Status.online Status.online r.1 (Effect.shutdown_frame ∷ []),
        tells_all-append Status.online Status.online r.1
            (Effect.callback (some GatewayEvent.offline) ∷ []),
      )

  -- The callback takes `online`, and the first event after it.
  abbrev pub TakesOnline : Attempt A → Type 0
  TakesOnline a = (a.on_online ≡ none) × (a.on_first ≡ none)

  started-Ends :
      (a : Attempt A) (s : Session) (o : Opened A)
      → TakesOnline a
      → Ends (started a s o).1 (started a s o).2
  unfolding started
  started-Ends a s o h = elim (Option-cases (A.expect_ready o.event)) [
    | inl e ↦ ground arith
    | inr (r, e) ↦
        ground
          (arith, serve-Ends a (record s { session_id = some r.session_id; init_send = false }) o)
  ]

  resumed-Ends :
      (a : Attempt A) (s : Session) (o : Opened A)
      → TakesOnline a
      → Ends (resumed a s o).1 (resumed a s o).2
  unfolding resumed
  resumed-Ends a s o h = ground (arith, serve-Ends a s o)

  sends-offline :
      (cs : List (Command A)) (out : List (Effect A))
      → tells_all Status.offline (map Effect.send cs ++ out) ≡ tells_all Status.offline out
  sends-offline [] out = refl
  sends-offline (c ∷ cs) out = sends-offline cs out

  connect-Ends :
      (token : String) (intents : A.Intents) (a : Attempt A) (s : Session)
      → TakesOnline a
      → Ends (connect token intents a s).1 (connect token intents a s).2
  unfolding connect
  connect-Ends token intents a s h =
      let c = connector token intents s in
      let sent = (Handshake.connect c a.wire).0 in
      elim (Result-cases (Handshake.connect c a.wire).1) [
        | inr (x, e) ↦ ground (arith, sends-offline sent [], append-nil (map Effect.send sent))
        | inl (o, e) ↦ ground (
          arith,
          started-Ends a s o h,
          resumed-Ends a s o h,
          sends-offline sent (started a s o).1,
          sends-offline sent (resumed a s o).1,
        )
      ]

  -- Over all the attempts of the task, provided that the callback takes each `online` and the event
  -- that comes with it: the bot goes online before it hears events and goes offline, is offline
  -- again before the next attempt goes online, and hears nothing behind the final `None`.
  pub start_discord-tells :
      (token : String) (intents : A.Intents) (as' : List (Attempt A)) (s : Session)
      → All TakesOnline as'
      → is_some (tells_all Status.offline (start_discord token intents as' s).1) ≡ true
  unfolding start_discord
  start_discord-tells token intents [] s h = refl
  start_discord-tells token intents (a ∷ rest) s (h, hs) =
      let (s', out, failure) = connect token intents a s in
      ground (
        arith,
        connect-Ends token intents a s h,
        start_discord-tells token intents rest s' hs,
        tells_all-append Status.offline Status.offline out (Effect.callback none ∷ []),
        tells_all-append Status.offline Status.online out (Effect.callback none ∷ []),
        tells_all-append Status.offline Status.offline out (start_discord token intents rest s').1,
      )
