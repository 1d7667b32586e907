-- ===== src/Client/Components/Button.antt =====
-- client.rs: `ButtonComponent`.
use discord_async_rs.Prelude.{true, some, String}
use discord_async_rs.Client.{ClientApi}
use discord_async_rs.Client.Components.{
  Component, Components, ButtonComponent, ComponentType, ButtonStyle, blank, change,
}

module _ {A : ClientApi} where
  abbrev pub new : ButtonStyle → ButtonComponent A
  new s = record {
    component =
        Component.component (record (blank ComponentType.button) { style = some s }) Components.nil;
  }

  abbrev pub with_id : String → ButtonComponent A → ButtonComponent A
  with_id i b = record { component = change (λ c. record c { custom_id = some i }) b.component }

  unfoldable pub primary : String → ButtonComponent A
  primary i = with_id i (new ButtonStyle.primary)

  unfoldable pub secondary : String → ButtonComponent A
  secondary i = with_id i (new ButtonStyle.secondary)

  unfoldable pub success : String → ButtonComponent A
  success i = with_id i (new ButtonStyle.success)

  unfoldable pub danger : String → ButtonComponent A
  danger i = with_id i (new ButtonStyle.danger)

  unfoldable pub link : String → ButtonComponent A
  link u = record {
    component = change (λ c. record c { url = some u }) (new ButtonStyle.link).component;
  }

  unfoldable pub set_label : String → ButtonComponent A → ButtonComponent A
  set_label l b = record { component = change (λ c. record c { label = some l }) b.component }

  unfoldable pub set_disabled : ButtonComponent A → ButtonComponent A
  set_disabled b = record {
    component = change (λ c. record c { disabled = some true }) b.component;
  }

  unfoldable pub set_emoji : A.Emoji → ButtonComponent A → ButtonComponent A
  set_emoji e b = record { component = change (λ c. record c { emoji = some e }) b.component }
