-- ===== src/Client/Buttons.antt =====
-- client.rs: the buttons that the methods of `ButtonComponent` make.
use discord_async_rs.Prelude.{String, true, none, some, ◌≡◌, ◌⊎◌, ◌≢◌, refl, inl, inr}
use discord_async_rs.Client.{ClientApi}
use discord_async_rs.Client.Components.{
  ComponentType, ButtonStyle, Control, Component, Components, ButtonComponent, change,
}
use discord_async_rs.Client.Components.Button.{
  primary, secondary, success, danger, link, set_label, set_disabled, set_emoji,
}

-- The buttons that can be made.
pub data Made {A : ClientApi} : ButtonComponent A → Type 0 where
  of_primary : (i : String) → Made (primary i)
  of_secondary : (i : String) → Made (secondary i)
  of_success : (i : String) → Made (success i)
  of_danger : (i : String) → Made (danger i)
  of_link : (u : String) → Made (link u)
  of_label : (l : String) (b : ButtonComponent A) → Made b → Made (set_label l b)
  of_disabled : (b : ButtonComponent A) → Made b → Made (set_disabled b)
  of_emoji : (e : A.Emoji) (b : ButtonComponent A) → Made b → Made (set_emoji e b)

-- A link has a URL and no id of its own; a button of another style has an id and no URL.
abbrev pub IsTargeted : {A : ClientApi} → Control A → Type 0
IsTargeted c =
    (c.component_type ≡ ComponentType.button)
    × (((c.style ≡ some ButtonStyle.link)
          × (c.custom_id ≡ none)
          × ((u : String) × (c.url ≡ some u)))
        ⊎ (((s : ButtonStyle) × (c.style ≡ some s) × (s ≢ ButtonStyle.link))
            × (c.url ≡ none)
            × ((i : String) × (c.custom_id ≡ some i))))

abbrev pub IsButton : {A : ClientApi} → Component A → Type 0
IsButton (Component.component c cs) = IsTargeted c × (cs ≡ Components.nil)

module _ {A : ClientApi} where
  change-IsButton :
      (h : Control A → Control A)
      → ((c : Control A) → IsTargeted c → IsTargeted (h c))
      → (c : Component A) → IsButton c
      → IsButton (change h c)
  change-IsButton h keep (Component.component c cs) (t, e) = (keep c t, e)

  -- Every button that can be made holds no components, and is a link with a URL and no id, or
  -- another button with an id and no URL, as Discord requires.
  pub Made-IsButton : (b : ButtonComponent A) → Made b → IsButton b.component
  unfolding primary secondary success danger link set_label set_disabled set_emoji
  Made-IsButton b (of_primary i) =
      ((refl, inr ((ButtonStyle.primary, refl, cc), refl, (i, refl))), refl)
  Made-IsButton b (of_secondary i) =
      ((refl, inr ((ButtonStyle.secondary, refl, cc), refl, (i, refl))), refl)
  Made-IsButton b (of_success i) =
      ((refl, inr ((ButtonStyle.success, refl, cc), refl, (i, refl))), refl)
  Made-IsButton b (of_danger i) =
      ((refl, inr ((ButtonStyle.danger, refl, cc), refl, (i, refl))), refl)
  Made-IsButton b (of_link u) = ((refl, inl (refl, refl, (u, refl))), refl)
  Made-IsButton b (of_label l a m) =
      change-IsButton (λ c. record c { label = some l }) (λ c t. t) a.component (Made-IsButton a m)
  Made-IsButton b (of_disabled a m) =
      change-IsButton (λ c. record c { disabled = some true }) (λ c t. t) a.component
        (Made-IsButton a m)
  Made-IsButton b (of_emoji e a m) =
      change-IsButton (λ c. record c { emoji = some e }) (λ c t. t) a.component (Made-IsButton a m)
