-- ===== src/Voice/Connection/Tests.antt =====
-- voice/connection.rs: the theorems at concrete inputs.
use discord_async_rs.Prelude.{ℕ, true, [], ◌∷◌, ◌≡◌, ◌≤◌, refl}
use discord_async_rs.Voice.Messages.{Credentials}
use discord_async_rs.Voice.Connection.{
  ConnectionApi, Ready, SessionDescription, encryption_mode, is_supported, new, run,
}
use discord_async_rs.Voice.Connection.Once.{count, is_bind, is_select, is_key, is_up, run-once}
use discord_async_rs.Voice.Connection.Handshake.{handshake}

abbrev api : ConnectionApi
api = record {
  Key = ℕ;
  Addr = ℕ;
  FrameSender = ℕ;
  Other = ℕ;
  is_ready_kind = λ n. true;
  ready_is_ready_kind = true;
  description_is_ready_kind = true;
}

abbrev cred : Credentials
cred = record { guild_id = 1; user_id = 2; session_id = "s"; token = "t"; endpoint = "e" }

abbrev announced : Ready
announced = record {
  ssrc = 9;
  ip = "10.0.0.1";
  port = 4000;
  modes = "plain" ∷ encryption_mode ∷ [];
}

abbrev session : SessionDescription ℕ
session = record { mode = encryption_mode; secret_key = 77 }

supported : is_supported announced.modes ≡ true
unfolding is_supported
supported = refl

run-once_example :
    let out = (run {A = api} (handshake {A = api} announced 5 session 6) (new cred)).1 in
    (count is_bind out ≤ 1)
    × (count is_select out ≤ 1)
    × (count is_key out ≤ 1)
    × (count is_up out ≤ 1)
run-once_example = run-once {A = api} cred (handshake {A = api} announced 5 session 6)
