-- ===== src/Client/Calls.antt =====
-- client.rs: the calls of `Client`. What serde reads an answer as is a parameter of each.
use Prim.Native.String.{◌++◌}
use discord_async_rs.Prelude.{
  ℕ, Bool, true, false, Option, none, some, String, List, [], Result, ok, err, ◌>>=◌, ok_or, min,
}
use discord_async_rs.Voice.Messages.{UpdateVoiceState}
use discord_async_rs.Client.{ClientApi, Error}
use discord_async_rs.Client.Requests.{Body, Call, get, post, put, delete}

-- discord_types::command.
pub record RequestGuildMembers : Type 0 where
  pub guild_id : ℕ
  pub query : String
  pub limit : ℕ
  pub presences : Option Bool
  pub user_ids : List ℕ
  pub nonce : Option String

pub data Command : Type 0 where
  request_guild_members : RequestGuildMembers → Command
  update_voice_state : UpdateVoiceState → Command

-- The sender of a bounded channel; `try_send` answers whether there was room.
pub record SenderApi : Type 1 where
  pub Sender : Type 0
  pub try_send : Command → Sender → Bool × Sender

module _ (S : SenderApi) where
  unfoldable pub try_command : Command → Option S.Sender → Result {0} Unit Unit × Option S.Sender
  try_command c none = (err tt, none)
  try_command c (some s) = elim (S.try_send c s).0 [
    | true ↦ (ok tt, some (S.try_send c s).1)
    | false ↦ (err tt, some (S.try_send c s).1)
  ]

  unfoldable pub request_members : ℕ → Option S.Sender → Result {0} Unit Unit × Option S.Sender
  request_members guild_id = try_command (
      Command.request_guild_members (record {
        guild_id = guild_id;
        query = "";
        limit = 0;
        presences = none;
        user_ids = [];
        nonce = none;
      }))

  unfoldable pub send_voice_state :
      ℕ → Option ℕ → Bool → Bool → Option S.Sender → Result {0} Unit Unit × Option S.Sender
  send_voice_state guild_id channel_id self_mute self_deaf = try_command (
      Command.update_voice_state (record {
        guild_id = guild_id;
        channel_id = channel_id;
        self_mute = self_mute;
        self_deaf = self_deaf;
      }))

-- `limit.unwrap_or(top).min(top)`
abbrev pub capped : ℕ → Option ℕ → ℕ
capped top none = top
capped top (some n) = min n top

module _ (A : ClientApi) where
  abbrev after_param : Option ℕ → String
  after_param none = ""
  after_param (some user_id) = "&after=" ++ A.display user_id

  abbrev message_path : ℕ → ℕ → String
  message_path channel_id message_id =
      "channels/" ++ A.display channel_id ++ "/messages/" ++ A.display message_id

  unfoldable pub get_message : {D : Type 0} → (List ℕ → Result D A.JsonError) → ℕ → ℕ → Call A D
  get_message read channel_id message_id = get read (message_path channel_id message_id)

  unfoldable pub emoji_path : A.Emoji → Result String (Error A)
  emoji_path emoji = ok_or (A.emoji_name emoji) Error.bad_request >>= (λ name.
      ok (
        A.encode (elim (A.emoji_id emoji) [ some id ↦ name ++ ":" ++ A.display id | none ↦ name ])))

  unfoldable pub get_reactions :
      {D : Type 0}
      → (List ℕ → Result D A.JsonError)
      → ℕ
      → ℕ
      → A.Emoji
      → Option ℕ
      → Option ℕ
      → Result (Call A D) (Error A)
  get_reactions read channel_id message_id emoji after limit = emoji_path emoji >>= (λ name. ok (
      get read (
        message_path channel_id message_id
        ++ "/reactions/"
        ++ name
        ++ "?limit="
        ++ A.display (capped 100 limit)
        ++ after_param after)))

  unfoldable pub delete_message : ℕ → ℕ → Call A Unit
  delete_message channel_id message_id = delete (message_path channel_id message_id)

  abbrev commands_path : ℕ → ℕ → String
  commands_path application_id guild_id =
      "applications/" ++ A.display application_id ++ "/guilds/" ++ A.display guild_id ++ "/commands"

  unfoldable pub commands : {D : Type 0} → (List ℕ → Result D A.JsonError) → ℕ → ℕ → Call A D
  commands read application_id guild_id = get read (commands_path application_id guild_id)

  unfoldable pub create_command :
      {D : Type 0}
      → (List ℕ → Result D A.JsonError)
      → ℕ
      → ℕ
      → String
      → String
      → List A.CommandOption
      → Call A D
  create_command read application_id guild_id name description options =
      post read (commands_path application_id guild_id)
        (Body.create_command (record { name = name; description = description; options = options }))

  unfoldable pub get_guild_members :
      {D : Type 0} → (List ℕ → Result D A.JsonError) → ℕ → Option ℕ → Option ℕ → Call A D
  get_guild_members read guild_id after limit = get read (
      "guilds/"
      ++ A.display guild_id
      ++ "/members?limit="
      ++ A.display (capped 1000 limit)
      ++ after_param after)

  abbrev member_path : ℕ → ℕ → String
  member_path guild_id user_id = "guilds/" ++ A.display guild_id ++ "/members/" ++ A.display user_id

  unfoldable pub get_guild_member :
      {D : Type 0} → (List ℕ → Result D A.JsonError) → ℕ → ℕ → Call A D
  get_guild_member read guild_id user_id = get read (member_path guild_id user_id)

  unfoldable pub add_guild_member_role : ℕ → ℕ → ℕ → Call A Unit
  add_guild_member_role guild_id user_id role_id =
      put (member_path guild_id user_id ++ "/roles/" ++ A.display role_id) Body.unit

  unfoldable pub remove_guild_member_role : ℕ → ℕ → ℕ → Call A Unit
  remove_guild_member_role guild_id user_id role_id =
      delete (member_path guild_id user_id ++ "/roles/" ++ A.display role_id)
