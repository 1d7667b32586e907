-- ===== src/Guild/Access.antt =====
-- guild.rs: what a guild is asked for, and the player that it makes.
use discord_async_rs.Prelude.{ℕ, Option, String}
use discord_async_rs.Prelude.Maps.{get, nat_eq, string_eq}
use discord_async_rs.Guild.{GuildApi, Guild, Member}
use discord_async_rs.Voice.Player.{PlayerApi, Player, new}

module _ {A : GuildApi} where
  unfoldable pub channel : ℕ → Guild A → Option A.Channel
  channel id g = get id g.channels

  unfoldable pub member : ℕ → Guild A → Option (Member A)
  member id g = get id g.members

  unfoldable pub command : String → Guild A → Option A.ApplicationCommand
  command name g = get name g.commands

  -- The player that `create_player` spawns.
  unfoldable pub create_player : (P : PlayerApi) → Guild A → Player P
  create_player P g = new P g.id g.user_id
