-- ===== src/Client/Components/SelectMenu.antt =====
-- client.rs: `SelectMenuComponent`.
use discord_async_rs.Prelude.{true, some, String, List, [], ◌∷◌, ◌++◌}
use discord_async_rs.Client.{ClientApi}
use discord_async_rs.Client.Components.{
  Component, Components, SelectMenuComponent, SelectOption, ComponentType, blank, change,
}

module _ {A : ClientApi} where
  unfoldable pub new : String → SelectMenuComponent A
  new i = record {
    component =
        Component.component (record (blank ComponentType.string_select) { custom_id = some i })
          Components.nil;
  }

  unfoldable pub disable : SelectMenuComponent A → SelectMenuComponent A
  disable m = record { component = change (λ c. record c { disabled = some true }) m.component }

  unfoldable pub set_placeholder : String → SelectMenuComponent A → SelectMenuComponent A
  set_placeholder p m = record {
    component = change (λ c. record c { placeholder = some p }) m.component;
  }

  unfoldable pub option : SelectOption A → SelectMenuComponent A → SelectMenuComponent A
  option o m = record {
    component = change (λ c. record c { options = c.options ++ (o ∷ []) }) m.component;
  }

  unfoldable pub options : List (SelectOption A) → SelectMenuComponent A → SelectMenuComponent A
  options os m = record { component = change (λ c. record c { options = os }) m.component }
