-- ===== src/Discord/Guilds.antt =====
-- discord.rs: `Discord`, and the guilds that it makes (guild.rs) with the calls of its client
-- (client.rs).
pub mod Loaded
mod Tests
use Prim.Native.String.{◌++◌}
use discord_async_rs.Prelude.{
  ℕ, Bool, none, some, String, List, Result, ok, err, map_err, ◌≡◌, refl, sym, ap, ◌∙◌, arith,
}
use discord_async_rs.Prelude.Maps.{nat_eq, string_eq, get, keyed, latest, get-extend_nil}
use discord_async_rs.Gateway.{GatewayApi, Ready}
use discord_async_rs.Client.{ClientApi}
use discord_async_rs.Client.Connect.{HttpApi}
use discord_async_rs.Client.Requests.{Request, Call}
use discord_async_rs.Client.Calls.{commands}
use discord_async_rs.Errors
use discord_async_rs.Discord.{Attempt}
use discord_async_rs.Discord.Builder.{Builder, Bot, build}
use discord_async_rs.Guild.{GuildApi, GuildData, Guild, by_user, update, blank, load_commands}
use discord_async_rs.Guild

-- What the code reads of discord_types' `Application` and `User`, and of the answer to a request
-- for commands.
pub record GuildsApi (A : GatewayApi) (K : ClientApi) (G : GuildApi) : Type 0 where
  pub application_id : A.Application → ℕ
  pub user_id : A.User → ℕ
  pub read_commands : List ℕ → Result (List G.ApplicationCommand) K.JsonError

module _ {A : GatewayApi} {K : ClientApi} {H : HttpApi K} {G : GuildApi} (I : GuildsApi A K G) where
  unfoldable pub client : Bot A H → H.Http
  client bot = bot.client

  unfoldable pub user_id : Bot A H → ℕ
  user_id bot = I.user_id bot.user

  unfoldable pub application_id : Bot A H → ℕ
  application_id bot = I.application_id bot.application

  -- The call of `load_commands`.
  unfoldable pub commands_call : Bot A H → GuildData G → Call K (List G.ApplicationCommand)
  commands_call bot d = commands K I.read_commands (I.application_id bot.application) d.id

  -- `Discord::guild`, where `http` answers the client's requests.
  unfoldable pub guild :
      Bot A H
      → GuildData G
      → (Request K → Result K.Response K.HttpError)
      → Result (Guild G × Bool) (Errors.Error A K)
  guild bot d http =
      let call = commands_call bot d in
      Guild.new d (I.user_id bot.user) (I.application_id bot.application)
        (map_err Errors.Error.client (call.finish (http call.request)))
