-- ===== src/Client/Builders.antt =====
-- client.rs: `CreateMessageBuilder`, `CreateMessage`, `EditMessage` and `CreateGuildBan`. A
-- builder is the state it has collected; each setting of it is a constructor, whose function is
-- the method of that name.
use Prim.Native.String.{◌++◌ as ◌<>◌}
use discord_async_rs.Prelude.{ℕ, Option, none, some, String, List, [], ◌∷◌, ◌++◌, map, Result}
use discord_async_rs.Client.{ClientApi}
use discord_async_rs.Client.Components.{Component, RowComponent}
use discord_async_rs.Client.Requests.{
  Body, Call, CreateMessage as MessageBody, EditMessage as EditBody, CreateGuildBan as BanBody,
  post, post_multipart, patch, put,
}

pub record CreateMessage (A : ClientApi) : Type 0 where
  pub channel_id : ℕ
  pub attachment : Option A.Attachment
  pub cm : MessageBody A

-- The methods that begin a message, and those that go on with it.
pub data Start (A : ClientApi) : Type 0 where
  start_content : String → Start A
  start_embed : A.Embed → Start A
  start_embeds : List A.Embed → Start A

pub data Setting (A : ClientApi) : Type 0 where
  content : String → Setting A
  embed : A.Embed → Setting A
  attachment : A.Attachment → Setting A
  component_rows : List (RowComponent A) → Setting A
  component_row : RowComponent A → Setting A

pub record EditMessage (A : ClientApi) : Type 0 where
  pub channel_id : ℕ
  pub message_id : ℕ
  pub em : EditBody A

pub data EditSetting (A : ClientApi) : Type 0 where
  edit_content : String → EditSetting A
  edit_embed : A.Embed → EditSetting A
  edit_rows : List (RowComponent A) → EditSetting A
  edit_row : RowComponent A → EditSetting A

pub record CreateGuildBan : Type 0 where
  pub guild_id : ℕ
  pub user_id : ℕ
  pub cgb : BanBody

abbrev pub row_components : {A : ClientApi} → List (RowComponent A) → List (Component A)
row_components = map λ r. r.component

-- `get_or_insert_with(|| Vec::new()).push(x)`
abbrev pub push_onto : {T : Type 0} → T → Option (List T) → List T
push_onto x none = x ∷ []
push_onto x (some xs) = xs ++ (x ∷ [])

unfoldable pub ban : ℕ → ℕ → CreateGuildBan
ban guild_id user_id = record {
  guild_id = guild_id;
  user_id = user_id;
  cgb = record { delete_message_days = none; reason = none };
}

unfoldable pub ban_days : ℕ → CreateGuildBan → CreateGuildBan
ban_days d b = record b { cgb = record b.cgb { delete_message_days = some d } }

unfoldable pub ban_reason : String → CreateGuildBan → CreateGuildBan
ban_reason r b = record b { cgb = record b.cgb { reason = some r } }

module _ {A : ClientApi} where
  unfoldable pub into : ℕ → CreateMessage A
  into channel_id = record {
    channel_id = channel_id;
    attachment = none;
    cm = record { content = none; embeds = []; components = [] };
  }

  unfoldable pub begin : Start A → ℕ → CreateMessage A
  unfolding into
  begin (Start.start_content c) ch = record (into ch) {
    cm = record (into ch).cm { content = some c };
  }
  begin (Start.start_embed e) ch = record (into ch) { cm = record (into ch).cm { embeds = e ∷ [] } }
  begin (Start.start_embeds es) ch = record (into ch) { cm = record (into ch).cm { embeds = es } }

  unfoldable pub set : Setting A → CreateMessage A → CreateMessage A
  set (Setting.content c) m = record m { cm = record m.cm { content = some c } }
  set (Setting.embed e) m = record m { cm = record m.cm { embeds = m.cm.embeds ++ (e ∷ []) } }
  set (Setting.attachment a) m = record m { attachment = some a }
  set (Setting.component_rows rs) m = record m {
    cm = record m.cm { components = row_components rs };
  }
  set (Setting.component_row r) m = record m {
    cm = record m.cm { components = m.cm.components ++ (r.component ∷ []) };
  }

  unfoldable pub send : {D : Type 0} → (List ℕ → Result D A.JsonError) → CreateMessage A → Call A D
  send read m =
      let url = "channels/" <> A.display m.channel_id <> "/messages" in
      elim m.attachment [
        | some a ↦ post_multipart read url a m.cm
        | none ↦ post read url (Body.create_message m.cm)
      ]

  unfoldable pub edit : ℕ → ℕ → EditMessage A
  edit channel_id message_id = record {
    channel_id = channel_id;
    message_id = message_id;
    em = record { content = none; embeds = none; components = none };
  }

  unfoldable pub set_edit : EditSetting A → EditMessage A → EditMessage A
  set_edit (EditSetting.edit_content c) m = record m { em = record m.em { content = some c } }
  set_edit (EditSetting.edit_embed e) m = record m {
    em = record m.em { embeds = some (push_onto e m.em.embeds) };
  }
  set_edit (EditSetting.edit_rows rs) m = record m {
    em = record m.em { components = some (row_components rs) };
  }
  set_edit (EditSetting.edit_row r) m = record m {
    em = record m.em { components = some (push_onto r.component m.em.components) };
  }

  unfoldable pub send_edit :
      {D : Type 0} → (List ℕ → Result D A.JsonError) → EditMessage A → Call A D
  send_edit read m =
      patch read ("channels/" <> A.display m.channel_id <> "/messages/" <> A.display m.message_id)
        (Body.edit_message m.em)

  unfoldable pub send_ban : CreateGuildBan → Call A Unit
  send_ban b =
      put ("guilds/" <> A.display b.guild_id <> "/bans/" <> A.display b.user_id)
        (Body.create_guild_ban b.cgb)
