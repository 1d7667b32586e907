-- ===== src/Client/Components/Row.antt =====
-- client.rs: `RowComponent`.
use discord_async_rs.Client.{ClientApi}
use discord_async_rs.Client.Components.{
  Component, Components, RowComponent, ButtonComponent, SelectMenuComponent, ComponentType, blank,
  add_component,
}

module _ {A : ClientApi} where
  abbrev pub new : RowComponent A
  new = record { component = Component.component (blank ComponentType.action_row) Components.nil }

  abbrev pub button : ButtonComponent A → RowComponent A → RowComponent A
  button b r = record { component = add_component b.component r.component }

  abbrev pub select_menu : SelectMenuComponent A → RowComponent A → RowComponent A
  select_menu m r = record { component = add_component m.component r.component }

  -- `From<ButtonComponent>` and `From<SelectMenuComponent>`.
  abbrev pub of_button : ButtonComponent A → RowComponent A
  of_button b = button b new

  abbrev pub of_select_menu : SelectMenuComponent A → RowComponent A
  of_select_menu m = select_menu m new
