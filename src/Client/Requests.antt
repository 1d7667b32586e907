-- ===== src/Client/Requests.antt =====
-- client.rs: the bodies of requests, and how an answer is read.
use Prim.Native.String.{◌++◌}
use discord_async_rs.Prelude.{ℕ, Option, none, some, String, List, Result, ok, err, ◌>>=◌, map_err}
use discord_async_rs.Client.{ClientApi, Error, from_http}
use discord_async_rs.Client.Components.{Component}

-- discord_types::request, the fields that the code names.
pub record CreateMessage (A : ClientApi) : Type 0 where
  pub content : Option String
  pub embeds : List A.Embed
  pub components : List (Component A)

pub record EditMessage (A : ClientApi) : Type 0 where
  pub content : Option String
  pub embeds : Option (List A.Embed)
  pub components : Option (List (Component A))

pub record CreateGuildBan : Type 0 where
  pub delete_message_days : Option ℕ
  pub reason : Option String

pub record CreateCommand (A : ClientApi) : Type 0 where
  pub name : String
  pub description : String
  pub options : List A.CommandOption

pub record CallbackData (A : ClientApi) : Type 0 where
  pub content : Option String
  pub embeds : Option (List A.Embed)
  pub components : Option (List (Component A))
  pub flags : Option ℕ
  pub allowed_mentions : Option A.AllowedMentions

pub data ResponseType : Type 0 where
  update_message channel_message deferred_channel_message : ResponseType

pub record InteractionResponse (A : ClientApi) : Type 0 where
  pub response_type : ResponseType
  pub data_ : Option (CallbackData A)

pub data Body (A : ClientApi) : Type 0 where
  empty unit : Body A
  create_message : CreateMessage A → Body A
  -- A multipart body with the attachment and the message.
  multipart : A.Attachment → CreateMessage A → Body A
  edit_message : EditMessage A → Body A
  create_guild_ban : CreateGuildBan → Body A
  create_command : CreateCommand A → Body A
  interaction_response : InteractionResponse A → Body A

pub data Method : Type 0 where
  by_get by_post by_put by_patch by_delete : Method

pub record Request (A : ClientApi) : Type 0 where
  pub method : Method
  pub url : String
  pub body : Body A

-- A request, and what the caller returns for the answer to it.
pub record Call (A : ClientApi) (D : Type 0) : Type 0 where
  pub request : Request A
  pub finish : Result A.Response A.HttpError → Result D (Error A)

abbrev pub url_prefix : String
url_prefix = "https://discord.com/api/v8/"

module _ {A : ClientApi} where
  unfoldable pub check_response_code : A.Response → Result A.Response (Error A)
  check_response_code res = elim (A.error_for_status res) [
    | none ↦ ok res
    | some e ↦ elim (A.bytes res) [
      | err _ ↦ err (from_http e)
      | ok full ↦ elim (A.api_error full) [ ok x ↦ err (Error.api x) | err _ ↦ err (from_http e) ]
    ]
  ]

  unfoldable pub decode :
      {D : Type 0} → (List ℕ → Result D A.JsonError) → A.Response → Result D (Error A)
  decode from_slice res =
      check_response_code res
      >>= (λ r. map_err from_http (A.bytes r))
      >>= (λ full. map_err Error.decode (from_slice full))

  abbrev decoded :
      {D : Type 0}
      → (List ℕ → Result D A.JsonError)
      → Result A.Response A.HttpError
      → Result D (Error A)
  decoded from_slice answer = map_err from_http answer >>= decode from_slice

  abbrev checked : Result A.Response A.HttpError → Result Unit (Error A)
  checked answer = map_err from_http answer >>= check_response_code >>= (λ _. ok tt)

  abbrev request : Method → String → Body A → Request A
  request m url body = record { method = m; url = url_prefix ++ url; body = body }

  unfoldable pub get : {D : Type 0} → (List ℕ → Result D A.JsonError) → String → Call A D
  get from_slice url = record {
    request = request Method.by_get url Body.empty;
    finish = decoded from_slice;
  }

  unfoldable pub post : {D : Type 0} → (List ℕ → Result D A.JsonError) → String → Body A → Call A D
  post from_slice url body = record {
    request = request Method.by_post url body;
    finish = decoded from_slice;
  }

  unfoldable pub post_discard : String → Body A → Call A Unit
  post_discard url body = record { request = request Method.by_post url body; finish = checked }

  unfoldable pub post_multipart :
      {D : Type 0}
      → (List ℕ → Result D A.JsonError)
      → String
      → A.Attachment
      → CreateMessage A
      → Call A D
  post_multipart from_slice url attachment message = record {
    request = request Method.by_post url (Body.multipart attachment message);
    finish = decoded from_slice;
  }

  unfoldable pub put : String → Body A → Call A Unit
  put url body = record { request = request Method.by_put url body; finish = checked }

  unfoldable pub patch : {D : Type 0} → (List ℕ → Result D A.JsonError) → String → Body A → Call A D
  patch from_slice url body = record {
    request = request Method.by_patch url body;
    finish = decoded from_slice;
  }

  unfoldable pub delete : String → Call A Unit
  delete url = record { request = request Method.by_delete url Body.empty; finish = checked }
