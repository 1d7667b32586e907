-- ===== src/Client/Components.antt =====
-- client.rs: `RowComponent`, `ButtonComponent`, `SelectMenuComponent` and `SelectOption`.
pub mod Row
pub mod Button
pub mod SelectMenu
pub mod Choice
use discord_async_rs.Prelude.{
  Bool, true, false, Option, none, some, String, List, [], ◌∷◌, ◌++◌, map,
}
use discord_async_rs.Client.{ClientApi}

pub data ComponentType : Type 0 where
  action_row button string_select : ComponentType

pub data ButtonStyle : Type 0 where
  primary secondary success danger link : ButtonStyle

-- discord_types::SelectOption.
pub record SelectOption (A : ClientApi) : Type 0 where
  pub label : String
  pub value : String
  pub description : Option String
  pub emoji : Option A.Emoji
  pub default : Bool

-- discord_types::Component: a control, and a component, which is a control or a row that holds
-- components.
pub record Control (A : ClientApi) : Type 0 where
  pub component_type : ComponentType
  pub style : Option ButtonStyle
  pub label : Option String
  pub emoji : Option A.Emoji
  pub custom_id : Option String
  pub url : Option String
  pub disabled : Option Bool
  pub default : Option Bool
  pub options : List (SelectOption A)
  pub placeholder : Option String

mutual
  pub data Component (A : ClientApi) : Type 0 where
    component : Control A → Components A → Component A

  pub data Components (A : ClientApi) : Type 0 where
    nil : Components A
    cons : Component A → Components A → Components A

module _ {A : ClientApi} where
  abbrev pub blank : ComponentType → Control A
  blank t = record {
    component_type = t;
    style = none;
    label = none;
    emoji = none;
    custom_id = none;
    url = none;
    disabled = none;
    default = none;
    options = [];
    placeholder = none;
  }

  unfoldable pub push : Component A → Components A → Components A
  push c Components.nil = Components.cons c Components.nil
  push c (Components.cons d ds) = Components.cons d (push c ds)

  abbrev pub add_component : Component A → Component A → Component A
  add_component c (Component.component f cs) = Component.component f (push c cs)

  abbrev pub change : (Control A → Control A) → Component A → Component A
  change h (Component.component f cs) = Component.component (h f) cs

pub record RowComponent (A : ClientApi) : Type 0 where
  pub component : Component A

pub record ButtonComponent (A : ClientApi) : Type 0 where
  pub component : Component A

pub record SelectMenuComponent (A : ClientApi) : Type 0 where
  pub component : Component A
