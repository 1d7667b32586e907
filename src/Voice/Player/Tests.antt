-- ===== src/Voice/Player/Tests.antt =====
-- voice/player.rs: runs of the player over concrete slots, and the theorems at concrete players.
use discord_async_rs.Prelude.{ℕ, Option, none, some, ◌≡◌, ◌⊎◌, true, refl, arith, [], ◌∷◌, inr}
use discord_async_rs.Fuse.{option_fuse}
use discord_async_rs.Voice.Messages.{
  Credentials, VoiceState, State, Control, Update, Event, is_connected, is_shutdown,
}
use discord_async_rs.Voice.Player.Run.{on_encoded, on_conn_event, step, run}
use discord_async_rs.Voice.Player.Invariant.{Inv, Reach, here, next, Reach-new-Inv}
use discord_async_rs.Voice.Player.Connect.{
  Joins, credentials_of, go_to, state_update, server_update, sender, connect-Joins,
}
use discord_async_rs.Voice.Player.Leave.{
  IsCleared, offline, online, moved_or_kicked, outage_rejoins, run-shutdown,
}
use discord_async_rs.Voice.Player.Streams.{Keeps, told_all, step-told, step-Keeps}
use discord_async_rs.Voice.Player.{
  PlayerApi, Player, Effect, Input, Encoded, new, on_update, on_control,
}

-- Streams, frames and frame senders are numbers.
abbrev pub api : PlayerApi
api = record { fuse = option_fuse; OpusStream = ℕ; Frame = ℕ; FrameSender = ℕ }

abbrev voice_state : Option ℕ → VoiceState
voice_state c = record { guild_id = some 1; channel_id = c; user_id = 2; session_id = "session" }

abbrev cred : Credentials
cred = record {
  guild_id = 1;
  user_id = 2;
  session_id = "session";
  token = "token";
  endpoint = "host";
}

abbrev pub start : Player api
start = record {
  guild_id = 1;
  user_id = 2;
  state = State.idle;
  channel_id = none;
  session_id = none;
  token = none;
  endpoint = none;
  conn_event_recv = none;
  connect_timeout = none;
  voice_send = none;
  encoder = none;
}

-- In channel 7, playing stream 5 through sender 3.
abbrev pub playing : Player api
playing = record start {
  state = State.connected;
  channel_id = some 7;
  session_id = some "session";
  token = some "token";
  endpoint = some "host";
  conn_event_recv = some (record { cred = cred });
  voice_send = some 3;
  encoder = some 5;
}

abbrev waiting : Player api
waiting = record start {
  state = State.connecting;
  channel_id = some 7;
  session_id = some "session";
  token = some "token";
  endpoint = some "host";
  connect_timeout = some (record { secs = 5 });
}

run-playing :
    (run
      (Input.encoder (Encoded.frame 9)
        ∷ Input.control (some Control.stop)
        ∷ Input.control (some (Control.connect 7))
        ∷ Input.conn_event none
        ∷ Input.update none
        ∷ [])
      playing).1
    ≡ Effect.forward 3 9
      ∷ Effect.emit (Event.stopped 5)
      ∷ Effect.emit (Event.connected 7)
      ∷ Effect.emit (Event.disconnected none)
      ∷ []
unfolding run step on_control on_encoded on_conn_event
run-playing = refl

reached : Reach (new api 1 2) (on_control (Control.connect 7) (new api 1 2)).0
unfolding new step is_shutdown
reached = next (Input.control (some (Control.connect 7))) here refl tt refl

Reach-new-Inv_example : Inv (on_control (Control.connect 7) (new api 1 2)).0
Reach-new-Inv_example = Reach-new-Inv api 1 2 _ reached

connect-Joins_example :
    let connect = Input.control (some (Control.connect 8)) in
    let answer = state_update (voice_state (some 8)) in
    let before = (on_control (Control.connect 8) playing).1 in
    (before ≡ Effect.emit (Event.reconnecting (some 5)) ∷ go_to playing (some 8) ∷ [])
    × Joins playing
        (connect ∷ answer ∷ server_update "token" "host" ∷ sender 4 ∷ [])
        8
        (credentials_of playing (voice_state (some 8)) "token" "host")
        4
        before
    × Joins playing
        (connect ∷ server_update "token" "host" ∷ answer ∷ sender 4 ∷ [])
        8
        (credentials_of playing (voice_state (some 8)) "token" "host")
        4
        before
unfolding is_connected
connect-Joins_example =
    connect-Joins playing (voice_state (some 8)) 8 4 "token" "host" (ground arith)
      (inr (ground arith)) (refl, refl) refl

moved_or_kicked_example :
    let r = on_update (Update.voice_state_update (voice_state none)) playing in
    IsCleared r.0
    × (r.0.channel_id ≡ none)
    × (r.0.session_id ≡ some "session")
    × (((c : ℕ) × (◌≡◌ {A = Option ℕ} none (some c))
          × (r.0.state ≡ State.connecting)
          × (r.0.connect_timeout ≡ some (record { secs = 5 }))
          × (r.1 ≡ Effect.emit (Event.reconnecting (some 5)) ∷ []))
        ⊎ ((◌≡◌ {A = Option ℕ} none none)
            × (r.0.state ≡ State.idle)
            × (r.1 ≡ Effect.emit (Event.disconnected (some 5)) ∷ [])))
moved_or_kicked_example = moved_or_kicked playing (voice_state none) refl (refl, refl)

outage_rejoins_example :
    let r = run (offline ∷ online ∷ []) playing in
    IsCleared r.0
    × (r.0.state ≡ State.connecting)
    × (r.0.channel_id ≡ some 7)
    × (r.1 ≡ Effect.emit (Event.reconnecting (some 5)) ∷ go_to playing (some 7) ∷ [])
    × (let late = run (offline ∷ Input.timeout ∷ online ∷ []) playing in
        (late.0.state ≡ State.idle) × (late.0.channel_id ≡ none))
unfolding is_connected
outage_rejoins_example = outage_rejoins playing 7 (ground arith) refl

run-shutdown_example :
    let r = run (Input.control (some Control.shutdown) ∷ online ∷ []) playing in
    (r.2 ≡ online ∷ [])
    × (r.0.state ≡ State.shutdown)
    × IsCleared r.0
    × (r.1 ≡ Effect.emit (Event.disconnected (some 5)) ∷ go_to playing none ∷ [])
unfolding is_connected
run-shutdown_example = run-shutdown playing (online ∷ []) (ground arith)

step-told_example :
    told_all true (on_update Update.guild_offline playing).1
    ≡ some (is_connected (on_update Update.guild_offline playing).0.state)
unfolding is_connected step
step-told_example = step-told offline playing _ _ (refl, refl, refl) tt tt refl

abbrev stopping : Input ℕ ℕ ℕ
stopping = Input.control (some Control.stop)

step-Keeps_example :
    Keeps 5 (on_control Control.stop playing)
    ⊎ (stopping ≡ Input.encoder Encoded.finished)
    ⊎ ((t : ℕ) × (stopping ≡ Input.control (some (Control.play t))))
unfolding step
step-Keeps_example = step-Keeps 5 playing (refl, refl, refl) refl stopping _ _ refl
