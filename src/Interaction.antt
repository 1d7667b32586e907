-- ===== src/Interaction.antt =====
-- interaction.rs: the builder of a response to an interaction.
pub mod Same
mod Tests
use discord_async_rs.Prelude.{
  ℕ, Bool, true, false, Option, none, some, String, List, [], ◌∷◌, ◌++◌, if◌then◌else◌,
}
use discord_async_rs.Client.{ClientApi}
use discord_async_rs.Client.Components.{RowComponent}
use discord_async_rs.Client.Requests.{Call}
use discord_async_rs.Client.Builders.{push_onto}
use discord_async_rs.Client.Responses.{InteractionResponse, Setting}
use discord_async_rs.Client.Responses

-- discord_types::Interaction, as far as the builder reads it.
pub record Interaction : Type 0 where
  pub id : ℕ
  pub token : String
  pub is_component_interaction : Bool

pub record ResponseBuilder (A : ClientApi) : Type 0 where
  pub interaction_id : ℕ
  pub token : String
  pub component : Bool
  pub content : Option String
  pub embeds : Option (List A.Embed)
  pub rows : Option (List (RowComponent A))
  pub ephemeral : Bool
  pub allowed_mentions : Option A.AllowedMentions

module _ {A : ClientApi} where
  unfoldable pub new : Interaction → ResponseBuilder A
  new interaction = record {
    interaction_id = interaction.id;
    token = interaction.token;
    component = interaction.is_component_interaction;
    content = none;
    embeds = none;
    rows = none;
    ephemeral = false;
    allowed_mentions = none;
  }

  -- The methods of the builder.
  unfoldable pub set : Setting A → ResponseBuilder A → ResponseBuilder A
  set (Setting.content c) b = record b { content = some c }
  set Setting.clear_embeds b = record b { embeds = some [] }
  set (Setting.embed e) b = record b { embeds = some (push_onto e b.embeds) }
  set Setting.clear_component_rows b = record b { rows = some [] }
  set (Setting.component_rows ws) b = record b { rows = some ws }
  set (Setting.component_row w) b = record b { rows = some (push_onto w b.rows) }
  set Setting.ephemeral b = record b { ephemeral = true }
  set (Setting.allowed_mentions m) b = record b { allowed_mentions = some m }

  -- `if let Some(x) = o { res = f(x) }`
  abbrev pub when_some :
      {T : Type 0}
      → Option T
      → (T → InteractionResponse A → InteractionResponse A)
      → InteractionResponse A
      → InteractionResponse A
  when_some none f r = r
  when_some (some x) f r = f x r

  -- The response that `send` sends.
  unfoldable pub response : ResponseBuilder A → InteractionResponse A
  response b =
      let r0 = Responses.new b.interaction_id b.token b.component in
      let r1 = when_some b.content (λ c. Responses.set (Setting.content c)) r0 in
      let r2 = when_some b.embeds Responses.embeds r1 in
      let r3 = when_some b.rows (λ ws. Responses.set (Setting.component_rows ws)) r2 in
      let r4 = if b.ephemeral then Responses.set Setting.ephemeral r3 else r3 in
      when_some b.allowed_mentions (λ m. Responses.set (Setting.allowed_mentions m)) r4

  unfoldable pub send : ResponseBuilder A → Call A Unit
  send b = Responses.send (response b)
