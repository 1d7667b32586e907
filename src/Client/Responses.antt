-- ===== src/Client/Responses.antt =====
-- client.rs: `InteractionResponse`.
use Prim.Native.String.{◌++◌ as ◌<>◌}
use discord_async_rs.Prelude.{
  ℕ, Bool, Option, none, some, is_none, String, List, [], ◌∷◌, ◌&&◌, if◌then◌else◌,
}
use discord_async_rs.Client.{ClientApi}
use discord_async_rs.Client.Components.{RowComponent}
use discord_async_rs.Client.Requests.{
  Body, Call, CallbackData, ResponseType, InteractionResponse as ResponseBody, post_discard,
}
use discord_async_rs.Client.Builders.{row_components, push_onto}

pub record InteractionResponse (A : ClientApi) : Type 0 where
  pub interaction_id : ℕ
  pub token : String
  pub ir : ResponseBody A

-- The methods that the response and the builder of interaction.rs share.
pub data Setting (A : ClientApi) : Type 0 where
  content : String → Setting A
  clear_embeds clear_component_rows ephemeral : Setting A
  embed : A.Embed → Setting A
  component_rows : List (RowComponent A) → Setting A
  component_row : RowComponent A → Setting A
  allowed_mentions : A.AllowedMentions → Setting A

module _ {A : ClientApi} where
  unfoldable pub new : ℕ → String → Bool → InteractionResponse A
  new interaction_id token component = record {
    interaction_id = interaction_id;
    token = token;
    ir = record {
      response_type =
          if component then ResponseType.update_message else ResponseType.channel_message;
      data_ = none;
    };
  }

  abbrev pub no_data : CallbackData A
  no_data = record {
    content = none;
    embeds = none;
    components = none;
    flags = none;
    allowed_mentions = none;
  }

  abbrev pub data_or_default : Option (CallbackData A) → CallbackData A
  data_or_default none = no_data
  data_or_default (some d) = d

  -- A change of the data, which `data` makes first where there is none.
  abbrev pub with_data :
      (CallbackData A → CallbackData A) → InteractionResponse A → InteractionResponse A
  with_data f r = record r { ir = record r.ir { data_ = some (f (data_or_default r.ir.data_)) } }

  unfoldable pub embeds : List A.Embed → InteractionResponse A → InteractionResponse A
  embeds es = with_data λ d. record d { embeds = some es }

  unfoldable pub set : Setting A → InteractionResponse A → InteractionResponse A
  set (Setting.content c) r = with_data (λ d. record d { content = some c }) r
  set Setting.clear_embeds r = with_data (λ d. record d { embeds = some [] }) r
  set (Setting.embed e) r = with_data (λ d. record d { embeds = some (push_onto e d.embeds) }) r
  set Setting.clear_component_rows r = with_data (λ d. record d { components = some [] }) r
  set (Setting.component_row w) r =
      with_data (λ d. record d { components = some (push_onto w.component d.components) }) r
  set (Setting.component_rows ws) r =
      with_data (λ d. record d { components = some (row_components ws) }) r
  set Setting.ephemeral r = with_data (λ d. record d { flags = some 64 }) r
  set (Setting.allowed_mentions m) r = with_data (λ d. record d { allowed_mentions = some m }) r

  abbrev pub set_all : List (Setting A) → InteractionResponse A → InteractionResponse A
  set_all [] r = r
  set_all (s ∷ ss) r = set_all ss (set s r)

  unfoldable pub deferred : InteractionResponse A → InteractionResponse A
  deferred r = record r {
    ir = record r.ir { response_type = ResponseType.deferred_channel_message };
  }

  -- `send` drops data without content, embeds and components.
  abbrev pub kept : Option (CallbackData A) → Option (CallbackData A)
  kept none = none
  kept (some d) =
      if is_none d.content && (is_none d.embeds && is_none d.components) then none else some d

  unfoldable pub send : InteractionResponse A → Call A Unit
  send r =
      post_discard ("interactions/" <> A.display r.interaction_id <> "/" <> r.token <> "/callback")
        (Body.interaction_response (record r.ir { data_ = kept r.ir.data_ }))
