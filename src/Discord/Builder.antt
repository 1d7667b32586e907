-- ===== src/Discord/Builder.antt =====
-- discord.rs: `Builder`, and the handles of the bot. The intents are a set of bits of the crate
-- discord_types. The channels are the runtime's: `build` gets the outside of the task's attempts.
pub mod Bits
pub mod Built
pub mod Tests
use discord_async_rs.Prelude.{
  ℕ, Bool, true, Option, none, some, String, List, [], ◌∷◌, Result, ok, err, ◌>>=◌, ok_or, map_err,
  if◌then◌else◌, false,
}
use discord_async_rs.Gateway.{GatewayApi}
use discord_async_rs.Gateway
use discord_async_rs.Client.{ClientApi}
use discord_async_rs.Client
use discord_async_rs.Client.Connect.{HttpApi}
use discord_async_rs.Errors.{Error}
use discord_async_rs.Discord.{Effect, Session, Attempt}
use discord_async_rs.Discord.Attempts.{start_discord}

-- `Intents`: union, symmetric difference, and whether a bit is in.
pub record IntentsApi (A : GatewayApi) : Type 1 where
  pub Bit : Type 0
  pub has : Bit → A.Intents → Bool
  pub union : A.Intents → A.Intents → A.Intents
  pub xor : A.Intents → A.Intents → A.Intents
  pub guild_all : A.Intents
  pub guild_webhooks : A.Intents
  pub guild_presences : A.Intents
  pub guild_message_typing : A.Intents
  pub message_content : A.Intents

-- `Builder`, but for its callback.
pub record Builder (A : GatewayApi) : Type 0 where
  pub token : String
  pub intents : A.Intents

module _ {A : GatewayApi} (I : IntentsApi A) where
  unfoldable pub with_webhooks : Builder A → Builder A
  with_webhooks b = record b { intents = I.union b.intents I.guild_webhooks }

  unfoldable pub without_presences : Builder A → Builder A
  without_presences b = record b { intents = I.xor b.intents I.guild_presences }

  unfoldable pub with_typing : Builder A → Builder A
  with_typing b = record b { intents = I.union b.intents I.guild_message_typing }

  unfoldable pub with_intents : A.Intents → Builder A → Builder A
  with_intents intents b = record b { intents = I.union b.intents intents }

  unfoldable pub without : A.Intents → Builder A → Builder A
  without intents b = record b { intents = I.xor b.intents intents }

  unfoldable pub new : String → Builder A
  new token = record {
    token = token;
    intents =
        I.union (I.xor (I.xor I.guild_all I.guild_webhooks) I.guild_message_typing)
          I.message_content;
  }

-- `Discord`, but for the handle of the task. `shutdown`: the signal's sender is still there.
pub record Bot (A : GatewayApi) {K : ClientApi} (H : HttpApi K) : Type 0 where
  pub application : A.Application
  pub user : A.User
  pub client : H.Http
  pub shutdown : Bool

-- What comes out of the channel of `init_send`.
abbrev pub received : {A : GatewayApi} → List (Effect A) → Option (A.Application × A.User)
received [] = none
received (Effect.init a u ∷ out) = some (a, u)
received (_ ∷ out) = received out

-- The session of a new task.
abbrev pub fresh : Session
fresh = record { session_id = none; sequence = 0; init_send = true }

module _ {A : GatewayApi} {K : ClientApi} (H : HttpApi K) where
  -- `build`, when the task has made these attempts. `none`: it goes on waiting.
  unfoldable pub build : Builder A → List (Attempt A) → Option (Result (Bot A H) (Error A K))
  unfolding start_discord
  build b attempts = elim (Client.Connect.new H b.token) [
    | err e ↦ some (err (Error.client e))
    | ok client ↦
        let (s, out, ended) = start_discord b.token b.intents attempts fresh in
        elim (received out) [
          | some (application, user) ↦ some (
              ok (record {
                application = application;
                user = user;
                client = client;
                shutdown = true;
              }))
          | none ↦ if ended then some (err (Error.gateway (Gateway.Error.close none))) else none
        ]
  ]

  -- `Discord::shutdown`: the sender is given away once.
  unfoldable pub shutdown : Bot A H → Bool × Bot A H
  shutdown bot = (bot.shutdown, record bot { shutdown = false })
