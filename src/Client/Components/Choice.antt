-- ===== src/Client/Components/Choice.antt =====
-- client.rs: `SelectOption`.
use discord_async_rs.Prelude.{true, false, none, some, String}
use discord_async_rs.Client.{ClientApi}
use discord_async_rs.Client.Components.{SelectOption}

module _ {A : ClientApi} where
  unfoldable pub new : String → String → SelectOption A
  new l v = record { label = l; value = v; description = none; emoji = none; default = false }

  unfoldable pub with_description : String → SelectOption A → SelectOption A
  with_description d o = record o { description = some d }

  unfoldable pub with_emoji : A.Emoji → SelectOption A → SelectOption A
  with_emoji e o = record o { emoji = some e }

  unfoldable pub as_default : SelectOption A → SelectOption A
  as_default o = record o { default = true }
