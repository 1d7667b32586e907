-- ===== src/Interaction/Same.antt =====
-- interaction.rs: the builder, which collects first, against the response of client.rs.
use discord_async_rs.Prelude.{List, [], ◌∷◌, ◌++◌, ◌≡◌, refl, arith, Option-cases, inl, inr}
use discord_async_rs.Client.{ClientApi}
use discord_async_rs.Client.Components.{RowComponent}
use discord_async_rs.Client.Builders.{row_components}
use discord_async_rs.Client.Responses.{InteractionResponse, Setting}
use discord_async_rs.Client.Responses
use discord_async_rs.Interaction.{Interaction, ResponseBuilder, new, set, response, send}

module _ {A : ClientApi} where
  abbrev pub set_all : List (Setting A) → ResponseBuilder A → ResponseBuilder A
  set_all [] b = b
  set_all (s ∷ ss) b = set_all ss (set s b)

  row_components-push :
      (w : RowComponent A) (ws : List (RowComponent A))
      → row_components (ws ++ (w ∷ [])) ≡ row_components ws ++ (w.component ∷ [])
  row_components-push w [] = refl
  row_components-push w (v ∷ ws) = rw (row_components-push w ws)

  response-set :
      (s : Setting A) (b : ResponseBuilder A) → response (set s b) ≡ Responses.set s (response b)
  unfolding response set Responses.set Responses.new Responses.embeds
  response-set (Setting.content c) b = ground arith
  response-set Setting.clear_embeds b = ground arith
  response-set (Setting.embed e) b = ground arith
  response-set Setting.clear_component_rows b = ground arith
  response-set (Setting.component_rows ws) b = ground arith
  response-set (Setting.component_row w) b = elim (Option-cases b.rows) [
    | inl e ↦ ground arith
    | inr (ws, e) ↦ ground (arith, row_components-push w ws)
  ]
  response-set Setting.ephemeral b = ground arith
  response-set (Setting.allowed_mentions m) b = ground arith

  response-set_all :
      (ss : List (Setting A)) (b : ResponseBuilder A)
      → response (set_all ss b) ≡ Responses.set_all ss (response b)
  response-set_all [] b = refl
  response-set_all (s ∷ ss) b = rw (response-set_all ss (set s b), response-set s b)

  -- A response that the builder collects is sent as the same methods, called in the same order on
  -- the response of the client, send it.
  pub send-set_all :
      (i : Interaction) (ss : List (Setting A))
      → send (set_all ss (new i))
        ≡ Responses.send
            (Responses.set_all ss (Responses.new i.id i.token i.is_component_interaction))
  unfolding send new response
  send-set_all i ss = rw (response-set_all ss (new i))
