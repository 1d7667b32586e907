-- ===== src/Client.antt =====
-- client.rs: the errors of the HTTP client. reqwest, serde_json, urlencoding and the types of the
-- crate discord_types are parameters; ids are numbers.
pub mod Components
pub mod Requests
pub mod Connect
pub mod Calls
pub mod Builders
pub mod Responses
pub mod Optional
pub mod Buttons
pub mod Sent
pub mod Quiet
pub mod Tests
use discord_async_rs.Prelude.{
  ℕ, Bool, true, false, Option, none, some, String, List, Result, ok, err, if◌then◌else◌, ◌==◌,
}

pub record ClientApi : Type 1 where
  -- `reqwest::Error`.
  pub HttpError : Type 0
  pub is_builder : HttpError → Bool
  pub is_redirect : HttpError → Bool
  pub is_timeout : HttpError → Bool
  pub status : HttpError → Option ℕ
  pub Response : Type 0
  -- `error_for_status_ref`: the error of a response whose status tells of one.
  pub error_for_status : Response → Option HttpError
  pub bytes : Response → Result (List ℕ) HttpError
  pub JsonError : Type 0
  -- `ApiError` and its `from_slice`.
  pub ApiError : Type 0
  pub api_error : List ℕ → Result ApiError JsonError
  pub display : ℕ → String
  pub encode : String → String
  pub Embed : Type 0
  pub Emoji : Type 0
  pub emoji_id : Emoji → Option ℕ
  pub emoji_name : Emoji → Option String
  pub AllowedMentions : Type 0
  pub CommandOption : Type 0
  pub Attachment : Type 0

pub data Error (A : ClientApi) : Type 0 where
  builder redirect timed_out bad_request invalid_token not_permitted not_found rate_limited
        gateway_unavailable :
      Error A
  response : ℕ → Error A
  api : A.ApiError → Error A
  decode : A.JsonError → Error A
  other : A.HttpError → Error A

module _ {A : ClientApi} where
  unfoldable pub is_not_found : Error A → Bool
  is_not_found Error.not_found = true
  is_not_found _ = false

  unfoldable pub of_status : ℕ → Error A
  of_status c =
      if c == 400
      then Error.bad_request
      else if c == 401
      then Error.invalid_token
      else if c == 403
      then Error.not_permitted
      else if c == 404
      then Error.not_found
      else if c == 429
      then Error.rate_limited
      else if c == 502
      then Error.gateway_unavailable
      else Error.response c

  -- `From<reqwest::Error>`.
  unfoldable pub from_http : A.HttpError → Error A
  from_http e =
      if A.is_builder e
      then Error.builder
      else if A.is_redirect e
      then Error.redirect
      else if A.is_timeout e
      then Error.timed_out
      else elim (A.status e) [ some c ↦ of_status c | none ↦ Error.other e ]

  unfoldable pub optional : {T : Type 0} → Result T (Error A) → Result (Option T) (Error A)
  optional (ok v) = ok (some v)
  optional (err e) = if is_not_found e then ok none else err e
