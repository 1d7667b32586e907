-- ===== src/Interaction/Tests.antt =====
-- interaction.rs: the theorems at concrete inputs.
use discord_async_rs.Prelude.{true, List, [], ◌∷◌, ◌≡◌}
use discord_async_rs.Client.Tests.{api}
use discord_async_rs.Client.Responses
use discord_async_rs.Client.Responses.{Setting}
use discord_async_rs.Interaction.{Interaction, new, send}
use discord_async_rs.Interaction.Same.{set_all, send-set_all}

abbrev pressed : Interaction
pressed = record { id = 5; token = "t"; is_component_interaction = true }

abbrev settings : List (Setting api)
settings = Setting.embed 1 ∷ Setting.ephemeral ∷ Setting.content "c" ∷ Setting.embed 2 ∷ []

send-set_all_example :
    send (set_all settings (new pressed))
    ≡ Responses.send (Responses.set_all settings (Responses.new 5 "t" true))
send-set_all_example = send-set_all pressed settings
