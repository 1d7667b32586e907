-- ===== src/Discord/Drained.antt =====
-- discord.rs: how the shutdown signal ends the task.
use discord_async_rs.Prelude.{
  suc, length, is_some, not, ap, ◌∙◌, ◌≤◌, Bool-cases, Option-cases, inl, inr, true, false, none,
  some, String, List, [], ◌∷◌, ◌++◌, ◌≡◌, refl, arith,
}
use mathlib.Core.List.{append_assoc, append-nil}
use discord_async_rs.Gateway.{
  GatewayApi, Error, is_shutdown, Ready, connector_new, connector_resume, GatewayEvent, is_new,
  opening,
}
use discord_async_rs.Gateway.Handshake.{Opened, Answers}
use discord_async_rs.Discord.{Effect, Failure, hang_up, Turn, Session, Attempt, turns, serve}
use discord_async_rs.Discord.Attempts.{connector, started, resumed, connect, start_discord}
use discord_async_rs.Discord.Drains.{sent, receives, Succeeds, sent-append, signalled, drained}
use discord_async_rs.Discord.Resume.{live, connect_opened}

module _ {A : GatewayApi} (token : String) (intents : A.Intents) where
  -- The session is started or resumed, and the callback takes what it is told.
  abbrev pub IsUp : Attempt A → Session → Opened A → Type 0
  IsUp a s o =
      (elim s.session_id [
        | none ↦ is_some (A.expect_ready o.event)
        | some id ↦ not (A.is_invalid_session o.event)
      ]
        ≡ true)
      × (a.on_online ≡ none)
      × (a.on_first ≡ none)

  -- A connection that is up and is shut down.
  abbrev Shut : Attempt A → Session → Opened A → List (Effect A) × Failure A → Type 0
  Shut a s o r =
      (r.1 ≡ some Error.shutdown)
      × (pre : List (Effect A)) × (sent pre ≡ [])
      × (r.0 ≡ pre ++ ((turns a.turns (live s o)).1 ++ Effect.shutdown_frame ∷ []))

  serve-Shut :
      (a : Attempt A) (s : Session) (o : Opened A)
      → (turns a.turns (live s o)).2 ≡ some Error.shutdown
      → ((serve a s o).1 ≡ (turns a.turns (live s o)).1 ++ Effect.shutdown_frame ∷ [])
        × ((serve a s o).2 ≡ some Error.shutdown)
  unfolding serve hang_up is_shutdown
  serve-Shut a s o h = ground arith

  started-Shut :
      (a : Attempt A) (s : Session) (o : Opened A) (r : Ready A.Application A.User)
      → A.expect_ready o.event ≡ some r
      → a.on_online ≡ none
      → (turns a.turns (live s o)).2 ≡ some Error.shutdown
      → Shut a s o ((started a s o).1, (started a s o).2)
  unfolding started
  started-Shut a s o r e on h =
      let s' : Session = record s { session_id = some r.session_id; init_send = false } in
      let (out, failure) = serve-Shut a s' o h in
      elim (Bool-cases s.init_send) [
        | inl t ↦ (
          ground arith,
          Effect.init r.application r.user ∷ Effect.callback (some GatewayEvent.online) ∷ [],
          refl,
          ground arith,
        )
        | inr f ↦
            (ground arith, Effect.callback (some GatewayEvent.online) ∷ [], refl, ground arith)
      ]

  resumed-Shut :
      (a : Attempt A) (s : Session) (o : Opened A)
      → A.is_invalid_session o.event ≡ false
      → a.on_online ≡ none
      → a.on_first ≡ none
      → (turns a.turns (live s o)).2 ≡ some Error.shutdown
      → Shut a s o ((resumed a s o).1, (resumed a s o).2)
  unfolding resumed
  resumed-Shut a s o v on f h =
      let (out, failure) = serve-Shut a s o h in
      (
        ground arith,
        Effect.callback (some GatewayEvent.online)
            ∷ Effect.callback (some (GatewayEvent.event o.event))
            ∷ [],
        refl,
        ground arith,
      )

  connect-Shut :
      (a : Attempt A) (s : Session) (o : Opened A)
      → Answers (connector token intents s) a.wire o
      → IsUp a s o
      → (turns a.turns (live s o)).2 ≡ some Error.shutdown
      → Shut a s o ((connect token intents a s).1, (connect token intents a s).2)
  unfolding connect connector connector_new connector_resume is_new opening
  connect-Shut a s o answers (up, on, f) h =
      let c = connector token intents s in
      let opens = connect_opened token intents a s c o answers in
      elim (Option-cases s.session_id) [
        | inl e ↦ elim (Option-cases (A.expect_ready o.event)) [
          | inl n ↦ ground arith
          | inr (r, e') ↦
              let (ends, pre, quiet, out) = started-Shut a s o r e' on h in
              (ground arith, Effect.send (opening c) ∷ pre, ground arith, ground arith)
        ]
        | inr (id, e) ↦
            let v : A.is_invalid_session o.event ≡ false = ground arith in
            let (ends, pre, quiet, out) = resumed-Shut a s o v on f h in
            (ground arith, Effect.send (opening c) ∷ pre, ground arith, ground arith)
      ]

  -- The shutdown signal comes behind any turns of a connection that is up, of a new session or a
  -- resumed one, and closes the channel of the commands. If no read and no send fails from then on,
  -- and the writer turns to the channel once more than commands are queued, then they are all sent,
  -- in order and none else, whatever the channel would give, the connection is closed in order and
  -- the task ends: the callback hears the final `None` right behind, and no `Offline`.
  pub shutdown_drains :
      (a : Attempt A) (as' : List (Attempt A)) (s : Session) (o : Opened A)
      (before after : List (Turn A)) (cs : List A.ClientCommand)
      → a.asked_before ≡ false
      → Answers (connector token intents s) a.wire o
      → IsUp a s o
      → a.turns ≡ before ++ Turn.shutdown cs ∷ after
      → (turns before (live s o)).2 ≡ none
      → (turns before (live s o)).0.closed ≡ none
      → Succeeds after (signalled cs (turns before (live s o)).0)
      → suc (length cs) ≤ receives after
      → let r = start_discord token intents (a ∷ as') s in
        (r.2 ≡ true)
        × (sent r.1 ≡ sent (turns before (live s o)).1 ++ cs)
        × (out : List (Effect A)) × (r.1
            ≡ out
              ++ ((turns a.turns (live s o)).1
                  ++ Effect.shutdown_frame ∷ Effect.callback none ∷ []))
  unfolding start_discord is_shutdown
  shutdown_drains a as' s o before after cs asked answers up t h c succeeds l =
      let (ends, gives) = drained before after cs (live s o) h c succeeds l in
      let same = ap (λ ts. turns ts (live s o)) t in
      let (over, pre, quiet, out) = connect-Shut a s o answers up (ap (λ r. r.2) same ∙ ends) in
      let w = (turns a.turns (live s o)).1 in
      let last : List (Effect A) = Effect.callback none ∷ [] in
      let whole : (start_discord token intents (a ∷ as') s).1
          ≡ (pre ++ (w ++ Effect.shutdown_frame ∷ [])) ++ last =
        ground arith in
      let flat : (pre ++ (w ++ Effect.shutdown_frame ∷ [])) ++ last
          ≡ pre ++ (w ++ Effect.shutdown_frame ∷ last) =
        rw (
          append_assoc pre (w ++ Effect.shutdown_frame ∷ []) last,
          append_assoc w (Effect.shutdown_frame ∷ []) last,
        ) in
      (
        ground arith,
        ap sent (whole ∙ flat)
            ∙ sent-append pre (w ++ Effect.shutdown_frame ∷ last)
            ∙ ap (λ x. x ++ sent (w ++ Effect.shutdown_frame ∷ last)) quiet
            ∙ sent-append w (Effect.shutdown_frame ∷ last)
            ∙ append-nil (sent w)
            ∙ ap (λ r. sent r.1) same
            ∙ gives,
        pre,
        whole ∙ flat,
      )
