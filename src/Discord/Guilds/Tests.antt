-- ===== src/Discord/Guilds/Tests.antt =====
-- discord.rs with client.rs and guild.rs: the theorem at a concrete bot and guild.
use discord_async_rs.Prelude.{ℕ, true, List, [], ◌∷◌, Result, ok}
use discord_async_rs.Prelude.Maps.{nat_eq}
use discord_async_rs.Gateway.Tests.{api as wire_api}
use discord_async_rs.Client.Requests.{Request, Call}
use discord_async_rs.Client.Requests
use discord_async_rs.Client.Tests.{api as client_api}
use discord_async_rs.Discord.Builder.{Bot}
use discord_async_rs.Discord.Builder.Tests.{http}
use discord_async_rs.Guild.{Guild}
use discord_async_rs.Guild.Tests.{api}
use discord_async_rs.Discord.Guilds.{GuildsApi}

abbrev ids : GuildsApi wire_api client_api api
ids = record {
  application_id = λ a. a;
  user_id = λ u. u;
  read_commands = λ bytes. ok ("play" ∷ "stop" ∷ []);
}

abbrev bot : Bot wire_api http
bot = record { application = 5; user = 6; client = 10; shutdown = true }

-- Every request is answered with status 200.
abbrev answers : Request client_api → Result (ℕ × List ℕ) ℕ
answers request = ok (200, [])
