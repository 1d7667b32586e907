-- ===== src/Discord/Resume.antt =====
-- discord.rs: which session the next attempt asks for.
use discord_async_rs.Prelude.{
  ℕ, true, false, none, some, String, List, [], ◌∷◌, ◌++◌, ok, ◌≡◌, refl, arith, if◌then◌else◌,
}
use discord_async_rs.Gateway.{
  GatewayApi, Ready, Payload, Command, Connector, connector_new, connector_resume, GatewayEvent,
  is_new, opening,
}
use discord_async_rs.Gateway.Handshake.{Item, Opened, Answers, connect_exact}
use discord_async_rs.Discord.{Effect, Turn, Live, Session, Attempt, turn, turns, serve}
use discord_async_rs.Discord.Attempts.{connector, started, resumed, connect, connect_with}
use discord_async_rs.Discord.Sequence.{last_sequence, turns-Reads}

-- The reader and the writer at the start.
abbrev pub live : {A : GatewayApi} → Session → Opened A → Live A
live s o = record { sequence = s.sequence; shutdown = false; closed = none; incoming = o.incoming }

module _ {A : GatewayApi} (token : String) (intents : A.Intents) where
  -- `serve` keeps the session, and counts what its reader read.
  serve-Session :
      (a : Attempt A) (s : Session) (o : Opened A)
      → (read : List (Item A)) × (o.incoming ≡ read ++ (turns a.turns (live s o)).0.incoming)
        × ((serve a s o).0 ≡ record s { sequence = last_sequence s.sequence read })
  unfolding serve
  serve-Session a s o =
      let (read, reads) = turns-Reads a.turns (live s o) in (read, reads.0, ground (arith, reads))

  pub connect_opened :
      (a : Attempt A) (s : Session) (c : Connector A) (o : Opened A)
      → Answers c a.wire o
      → let r = if is_new c then started a s o else resumed a s o in
        connect_with c a s ≡ (r.0, Effect.send (opening c) ∷ r.1, r.2)
  unfolding connect_with
  connect_opened a s c o answers = ground (arith, (connect_exact c a.wire o).1 answers)

  connect_starts :
      (a : Attempt A) (s : Session) (o : Opened A)
      → s.session_id ≡ none
      → Answers (connector_new token intents) a.wire o
      → (connect token intents a s).0 ≡ (started a s o).0
  unfolding connect connector is_new
  connect_starts a s o e answers =
      ground (arith, connect_opened a s (connector_new token intents) o answers)

  connect_resumes :
      (a : Attempt A) (s : Session) (id : String) (o : Opened A)
      → s.session_id ≡ some id
      → Answers (connector_resume token id s.sequence intents) a.wire o
      → connect token intents a s ≡ (
        (resumed a s o).0,
        Effect.send (Command.resume token id s.sequence) ∷ (resumed a s o).1,
        (resumed a s o).2,
      )
  unfolding connect connector is_new opening
  connect_resumes a s id o e answers =
      ground (arith, connect_opened a s (connector_resume token id s.sequence intents) o answers)

  -- A session that was started is resumed by the next attempt, at the number of the last payload
  -- that was read since: of the incoming items, those that the turns have left no longer unread. The number of the `Ready` payload itself is not kept.
  pub resume_after_ready :
      (a : Attempt A) (s : Session) (o : Opened A) (ready : Ready A.Application A.User)
      → s.session_id ≡ none
      → Answers (connector_new token intents) a.wire o
      → A.expect_ready o.event ≡ some ready
      → a.on_online ≡ none
      → let s' = (connect token intents a s).0 in
        (read : List (Item A)) × (o.incoming ≡ read ++ (turns a.turns (live s o)).0.incoming)
        × (opening (connector {A = A} token intents s')
            ≡ Command.resume token ready.session_id (last_sequence s.sequence read))
  unfolding started opening connector connector_resume
  resume_after_ready a s o ready new answers r online =
      let s' : Session = record s { session_id = some ready.session_id; init_send = false } in
      let (read, i, e) = serve-Session a s' o in
      (read, i, ground (arith, connect_starts a s o new answers))

  -- A resumed connection that ends before its reader reads anything: the first event was given to
  -- the callback, and yet the next attempt resumes at the old number, whatever number the first
  -- payload had, so that the event is sent again.
  pub resume_forgets_first :
      (a : Attempt A) (s : Session) (id : String) (hello first : Payload A) (interval : ℕ)
      → s.session_id ≡ some id
      → a.wire.dial ≡ ok tt
      → a.wire.incoming ≡ ok hello ∷ ok first ∷ []
      → A.expect_hello hello.event ≡ some interval
      → a.wire.send (Command.resume token id s.sequence) ≡ ok tt
      → A.is_invalid_session first.event ≡ false
      → a.on_online ≡ none
      → a.on_first ≡ none
      → a.turns ≡ Turn.read none ∷ []
      → ((connect token intents a s).1
          ≡ Effect.send (Command.resume token id s.sequence)
            ∷ Effect.callback (some GatewayEvent.online)
            ∷ Effect.callback (some (GatewayEvent.event first.event))
            ∷ Effect.callback (some GatewayEvent.offline)
            ∷ [])
        × (opening (connector {A = A} token intents (connect token intents a s).0)
            ≡ Command.resume token id s.sequence)
  unfolding resumed opening connector connector_resume serve turn
  resume_forgets_first a s id hello first interval e d w h x v on f t =
      let o : Opened A = record {
        heartbeat_interval = interval;
        event = first.event;
        incoming = [];
      } in
      ground (arith, connect_resumes a s id o e (hello, first, d, w, h, x, refl))

  -- An invalidated session is reported and given up: the next attempt identifies anew.
  pub resume_invalidated :
      (a : Attempt A) (s : Session) (id : String) (o : Opened A)
      → s.session_id ≡ some id
      → Answers (connector_resume token id s.sequence intents) a.wire o
      → A.is_invalid_session o.event ≡ true
      → let r = connect token intents a s in
        (r.0 ≡ record s { session_id = none })
        × (r.1
            ≡ Effect.send (Command.resume token id s.sequence)
              ∷ Effect.callback (some GatewayEvent.session_invalidated)
              ∷ [])
        × (is_new (connector {A = A} token intents r.0) ≡ true)
  unfolding resumed connector is_new connector_new
  resume_invalidated a s id o e answers v = ground (arith, connect_resumes a s id o e answers)
