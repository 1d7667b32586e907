-- ===== src/Discord/Tests.antt =====
-- discord.rs: the theorems at concrete attempts.
use discord_async_rs.Prelude.{
  true, false, none, some, is_some, List, [], ◌∷◌, ◌++◌, ok, err, ◌≡◌, refl, arith,
}
use discord_async_rs.Gateway.{Error, Command, GatewayEvent, is_new, opening}
use discord_async_rs.Gateway.Tests.{api, payload, wire}
use discord_async_rs.Gateway.Handshake.{Item, Opened}
use discord_async_rs.Discord.{Effect, Turn, Live, Session, Attempt, turn, turns, recv, close}
use discord_async_rs.Discord.Attempts
use discord_async_rs.Discord.Attempts.{connector, start_discord}
use discord_async_rs.Discord.Sequence.{last_sequence, heartbeat_acknowledges}
use discord_async_rs.Discord.Drains.{sent}
use discord_async_rs.Discord.Told.{Status, tells_all, start_discord-tells}
use discord_async_rs.Discord.Drained.{shutdown_drains}
use discord_async_rs.Discord.Resume.{
  live as start, resume_after_ready, resume_forgets_first, resume_invalidated,
}

abbrev nobody : Session
nobody = record { session_id = none; sequence = 0; init_send = true }

abbrev known : Session
known = record { session_id = some "s"; sequence = 7; init_send = false }

abbrev attempt : List (Item api) → List (Turn api) → Attempt api
attempt items ts = record {
  wire = wire items;
  on_online = none;
  on_first = none;
  on_invalidated = none;
  on_offline = none;
  turns = ts;
  asked_before = false;
  asked_after = false;
}

abbrev live : Live api
live = record {
  sequence = 7;
  shutdown = false;
  closed = none;
  incoming = ok (payload (some 8) 4) ∷ err Error.decode ∷ ok (payload none 5) ∷ [];
}

abbrev three_reads : List (Turn api)
three_reads = Turn.read none ∷ Turn.heartbeat none ∷ Turn.read none ∷ Turn.read none ∷ []

heartbeat_acknowledges_example :
    (read : List (Item api)) × (live.incoming ≡ read ++ (turns three_reads live).0.incoming)
    × ((turn (Turn.heartbeat none) (turns three_reads live).0).1
        ≡ Effect.send (Command.heartbeat (last_sequence 7 read)) ∷ [])
unfolding turns turn
heartbeat_acknowledges_example = heartbeat_acknowledges three_reads live none refl

-- A session is started and lost, and then resumed.
abbrev first : Attempt api
first =
    attempt (ok (payload none 0) ∷ ok (payload (some 1) 1) ∷ ok (payload (some 2) 9) ∷ [])
      (Turn.read none ∷ Turn.read none ∷ [])

abbrev second : Attempt api
second = attempt (ok (payload none 0) ∷ ok (payload (some 3) 9) ∷ []) (Turn.read none ∷ [])

start_discord-tells_example :
    is_some (tells_all Status.offline (start_discord "t" 3 (first ∷ second ∷ []) nobody).1) ≡ true
start_discord-tells_example =
    start_discord-tells "t" 3 (first ∷ second ∷ []) nobody ((refl, refl), ((refl, refl), tt))

abbrev after_ready : Opened api
after_ready = record {
  heartbeat_interval = 41250;
  event = 1;
  incoming = ok (payload (some 2) 9) ∷ [];
}

resume_after_ready_example :
    (read : List (Item api)) × (after_ready.incoming
      ≡ read ++ (turns first.turns (start nobody after_ready)).0.incoming)
    × (opening (connector {A = api} "t" 3 (Attempts.connect "t" 3 first nobody).0)
        ≡ Command.resume "t" "s" (last_sequence 0 read))
resume_after_ready_example =
    resume_after_ready "t" 3 first nobody after_ready
      (record { session_id = "s"; application = 5; user = 6 }) refl
      (payload none 0, payload (some 1) 1, refl, refl, refl, refl, refl) refl refl

resume_forgets_first_example :
    ((Attempts.connect "t" 3 second known).1
      ≡ Effect.send (Command.resume "t" "s" 7)
        ∷ Effect.callback (some GatewayEvent.online)
        ∷ Effect.callback (some (GatewayEvent.event 9))
        ∷ Effect.callback (some GatewayEvent.offline)
        ∷ [])
    × (opening (connector {A = api} "t" 3 (Attempts.connect "t" 3 second known).0)
        ≡ Command.resume "t" "s" 7)
resume_forgets_first_example =
    resume_forgets_first "t" 3 second known "s" (payload none 0) (payload (some 3) 9) 41250 refl
      refl refl refl refl refl refl refl refl

abbrev invalidated : Attempt api
invalidated = attempt (ok (payload none 0) ∷ ok (payload none 2) ∷ []) []

resume_invalidated_example :
    ((Attempts.connect "t" 3 invalidated known).0 ≡ record known { session_id = none })
    × ((Attempts.connect "t" 3 invalidated known).1
        ≡ Effect.send (Command.resume "t" "s" 7)
          ∷ Effect.callback (some GatewayEvent.session_invalidated)
          ∷ [])
    × (is_new (connector {A = api} "t" 3 (Attempts.connect "t" 3 invalidated known).0) ≡ true)
resume_invalidated_example =
    resume_invalidated "t" 3 invalidated known "s"
      (record { heartbeat_interval = 41250; event = 2; incoming = [] }) refl
      (payload none 0, payload none 2, refl, refl, refl, refl, refl) refl

abbrev stopping : Attempt api
stopping = attempt (ok (payload none 0) ∷ ok (payload (some 8) 9) ∷ ok (payload none 5) ∷ []) (
    Turn.command (some 10) none
    ∷ Turn.shutdown (11 ∷ 12 ∷ [])
    ∷ Turn.command (some 13) none
    ∷ Turn.read none
    ∷ Turn.heartbeat none
    ∷ Turn.command none none
    ∷ Turn.command (some 14) none
    ∷ [])

abbrev stopped_at : Opened api
stopped_at = record { heartbeat_interval = 41250; event = 9; incoming = ok (payload none 5) ∷ [] }

shutdown_drains_example :
    let r = start_discord "t" 3 (stopping ∷ first ∷ []) known in
    (r.2 ≡ true)
    × (sent r.1 ≡ 10 ∷ 11 ∷ 12 ∷ [])
    × (out : List (Effect api)) × (r.1
        ≡ out
          ++ ((turns stopping.turns (start known stopped_at)).1
              ++ Effect.shutdown_frame ∷ Effect.callback none ∷ []))
unfolding turns turn recv close
shutdown_drains_example =
    shutdown_drains "t" 3 stopping (first ∷ []) known stopped_at (Turn.command (some 10) none ∷ [])
      (Turn.command (some 13) none
        ∷ Turn.read none
        ∷ Turn.heartbeat none
        ∷ Turn.command none none
        ∷ Turn.command (some 14) none
        ∷ [])
      (11 ∷ 12 ∷ []) refl (payload none 0, payload (some 8) 9, refl, refl, refl, refl, refl)
      (refl, refl, refl) refl refl refl (refl, (refl, (refl, (refl, (refl, tt))))) (omega arith)
