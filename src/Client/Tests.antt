-- ===== src/Client/Tests.antt =====
-- client.rs: the theorems at concrete inputs.
use discord_async_rs.Prelude.{
  ℕ, false, none, some, String, List, [], ◌∷◌, ◌≡◌, ◌↔◌, refl, Result, ok, err, ltb, if◌then◌else◌,
}
use discord_async_rs.Client.{ClientApi, optional}
use discord_async_rs.Client.Components.{ButtonComponent}
use discord_async_rs.Client.Components.Button.{link, set_label}
use discord_async_rs.Client.Components.Row.{of_button}
use discord_async_rs.Client.Requests.{get}
use discord_async_rs.Client.Builders
use discord_async_rs.Client.Builders.{CreateMessage, Start, begin}
use discord_async_rs.Client.Responses
use discord_async_rs.Client.Responses.{Setting}
use discord_async_rs.Client.Optional.{optional_404}
use discord_async_rs.Client.Sent.{set_all, collected, set_all-collects}
use discord_async_rs.Client.Quiet.{send-quiet}

-- An error object is one byte long.
abbrev one_byte : List ℕ → Result {0} ℕ Unit
one_byte (c ∷ []) = ok c
one_byte _ = err tt

-- An error is its status; a response is a status and a body.
abbrev pub api : ClientApi
api = record {
  HttpError = ℕ;
  is_builder = λ e. false;
  is_redirect = λ e. false;
  is_timeout = λ e. false;
  status = λ e. some e;
  Response = ℕ × List ℕ;
  error_for_status = λ r. if ltb r.0 400 then none else some r.0;
  bytes = λ r. ok r.1;
  JsonError = Unit;
  ApiError = ℕ;
  api_error = one_byte;
  display = λ n. "7";
  encode = λ s. s;
  Embed = ℕ;
  Emoji = String;
  emoji_id = λ e. none;
  emoji_name = λ e. some e;
  AllowedMentions = ℕ;
  CommandOption = Unit;
  Attachment = ℕ;
}

optional_404_example :
    (optional ((get {A = api} one_byte "users").finish (ok (404, 9 ∷ []))) ≡ ok none)
    ↔ ((j : Unit) × (one_byte (9 ∷ []) ≡ err j))
optional_404_example =
    optional_404 api one_byte "users" (404, 9 ∷ []) 404 (9 ∷ []) refl (refl, refl, refl, refl) refl

abbrev home : ButtonComponent api
home = set_label "Home" (link "https://example.org")

abbrev settings : List (Builders.Setting api)
settings =
    Builders.Setting.embed 4
    ∷ Builders.Setting.component_row (of_button home)
    ∷ Builders.Setting.content "b"
    ∷ Builders.Setting.component_rows []
    ∷ Builders.Setting.component_row (of_button home)
    ∷ []

set_all-collects_example :
    set_all settings (begin (Start.start_content "a") 3)
    ≡ collected settings (begin (Start.start_content "a") 3)
set_all-collects_example = set_all-collects settings (begin (Start.start_content "a") 3)

send-quiet_example :
    (Responses.send (
      Responses.deferred
        (Responses.set_all (Setting.ephemeral ∷ []) (Responses.new {A = api} 1 "t" false)))).request
    ≡ (Responses.send (Responses.deferred (Responses.new {A = api} 1 "t" false))).request
send-quiet_example = send-quiet {A = api} 1 "t" false (Setting.ephemeral ∷ []) (tt, tt)
