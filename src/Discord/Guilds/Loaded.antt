-- ===== src/Discord/Guilds/Loaded.antt =====
-- discord.rs with client.rs and guild.rs: the guilds of a bot that was built.
use discord_async_rs.Prelude.{◌≡◌}
use discord_async_rs.Prelude.Maps.{nat_eq}
use discord_async_rs.Gateway.{GatewayApi, Ready}
use discord_async_rs.Client.{ClientApi}
use discord_async_rs.Client
use discord_async_rs.Client.Connect.{HttpApi}
use discord_async_rs.Client.Connect
use discord_async_rs.Errors
use discord_async_rs.Discord.Builder.{Builder, Bot}
use discord_async_rs.Guild.{Guild}
use discord_async_rs.Guild

module _ {A : GatewayApi} {K : ClientApi} (H : HttpApi K) where
  -- A bot that was built has the application and the user of the first session.
  abbrev IsOf : Bot A H → Ready A.Application A.User → Type 0
  IsOf bot r = (bot.application ≡ r.application) × (bot.user ≡ r.user)
