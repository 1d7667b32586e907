-- ===== src/Discord/Attempts.antt =====
-- discord.rs: `connect` and the loop of `start_discord`.
use discord_async_rs.Prelude.{
  Bool, true, false, ◌||◌, none, some, String, List, [], ◌∷◌, ◌++◌, map, ok, err, if◌then◌else◌,
}
use discord_async_rs.Gateway.{
  GatewayApi, Error, is_shutdown, Connector, connector_new, connector_resume, is_new, GatewayEvent,
}
use discord_async_rs.Gateway.Handshake.{Opened}
use discord_async_rs.Gateway.Handshake
use discord_async_rs.Discord.{Effect, Failure, Session, Attempt, serve}

module _ {A : GatewayApi} where
  unfoldable pub connector : String → A.Intents → Session → Connector A
  unfolding connector_new connector_resume
  connector token intents s = elim s.session_id [
    | some id ↦ connector_resume token id s.sequence intents
    | none ↦ connector_new token intents
  ]

  -- After the answer to `Identify`.
  unfoldable pub started : Attempt A → Session → Opened A → Session × List (Effect A) × Failure A
  started a s o = elim (A.expect_ready o.event) [
    | none ↦ (s, [], some Error.unexpected_event)
    | some ready ↦
        let s' = record s { session_id = some ready.session_id; init_send = false } in
        let out =
          (if s.init_send then Effect.init ready.application ready.user ∷ [] else [])
          ++ Effect.callback (some GatewayEvent.online) ∷ [] in
        let served = serve a s' o in
        elim a.on_online [
          | some e ↦ (s', out, some e)
          | none ↦ (served.0, out ++ served.1, served.2)
        ]
  ]

  -- After the answer to `Resume`.
  unfoldable pub resumed : Attempt A → Session → Opened A → Session × List (Effect A) × Failure A
  resumed a s o =
      let online = Effect.callback (some GatewayEvent.online) in
      let first = Effect.callback (some (GatewayEvent.event o.event)) in
      let served = serve a s o in
      if A.is_invalid_session o.event
      then (
        record s { session_id = none },
        Effect.callback (some GatewayEvent.session_invalidated) ∷ [],
        some (elim a.on_invalidated [ none ↦ Error.close none | some e ↦ e ]),
      )
      else elim a.on_online [
        | some e ↦ (s, online ∷ [], some e)
        | none ↦ elim a.on_first [
          | some e ↦ (s, online ∷ first ∷ [], some e)
          | none ↦ (served.0, online ∷ first ∷ served.1, served.2)
        ]
      ]

  -- `connect`, behind the choice of the connector.
  unfoldable pub connect_with :
      Connector A → Attempt A → Session → Session × List (Effect A) × Failure A
  unfolding started resumed
  connect_with c a s =
      let (sent, res) = Handshake.connect c a.wire in
      let sends = map Effect.send sent in
      elim res [
        | err e ↦ (s, sends, some e)
        | ok o ↦
            let (s', out, failure) = if is_new c then started a s o else resumed a s o in
            (s', sends ++ out, failure)
      ]

  -- `none` in the end: the connection is still up.
  unfoldable pub connect :
      String → A.Intents → Attempt A → Session → Session × List (Effect A) × Failure A
  unfolding connect_with
  connect token intents a s = connect_with (connector token intents s) a s

  -- The attempts so far. `true`: the task has ended.
  unfoldable pub start_discord :
      String → A.Intents → List (Attempt A) → Session → Session × List (Effect A) × Bool
  unfolding is_shutdown connect
  start_discord token intents [] s = (s, [], false)
  start_discord token intents (a ∷ rest) s =
      let (s', out, failure) = connect token intents a s in
      if a.asked_before then (s, Effect.callback none ∷ [], true) else elim failure [
        | none ↦ (s', out, false)
        | some e ↦
            if is_shutdown e || a.asked_after
            then (s', out ++ Effect.callback none ∷ [], true)
            else (let (s'', later, ended) = start_discord token intents rest s' in
                (s'', out ++ later, ended))
      ]
