-- ===== src/Guild.antt =====
-- guild.rs: the cached state of a guild, and the events that change it. Ids are numbers. Of the
-- types of the crate discord_types only what the code names is used; it is a parameter.
pub mod Members
pub mod View
pub mod Keys
pub mod Drain
pub mod Tests
pub mod Position
pub mod Access
use discord_async_rs.Prelude.{
  ℕ, Bool, true, false, Option, none, some, String, List, [], ◌∷◌, map, length, ltb, ◌==◌, not,
  Result, ok, err, ◌>>=◌, if◌then◌else◌,
}
use discord_async_rs.Prelude.Maps.{
  HashMap, nat_eq, string_eq, get, insert, remove, modify, extend, keyed,
}

pub record GuildApi : Type 1 where
  pub Channel : Type 0
  pub channel_id : Channel → ℕ
  pub Role : Type 0
  pub role_id : Role → ℕ
  pub role_position : Role → ℕ
  pub User : Type 0
  pub user_id : User → ℕ
  pub Time : Type 0
  pub ApplicationCommand : Type 0
  pub command_name : ApplicationCommand → String
  -- What comes with the events that only pass through.
  pub Other : Type 0

pub record Member (A : GuildApi) : Type 0 where
  pub user : Option A.User
  pub roles : List ℕ
  pub nick : Option String
  pub premium_since : Option A.Time

-- discord_types::Guild.
pub record GuildData (A : GuildApi) : Type 0 where
  pub id : ℕ
  pub name : String
  pub channels : List A.Channel
  pub roles : List A.Role
  pub members : List (Member A)
  pub member_count : Option ℕ

pub record MemberUpdate (A : GuildApi) : Type 0 where
  pub roles : List ℕ
  pub user : A.User
  pub nick : Option String
  pub premium_since : Option A.Time

pub data Event (A : GuildApi) : Type 0 where
  guild_create guild_update : GuildData A → Event A
  guild_member_add : Member A → Event A
  guild_member_update : MemberUpdate A → Event A
  guild_member_remove : A.User → Event A
  guild_members_chunk : List (Member A) → Event A
  guild_role_create guild_role_update : A.Role → Event A
  guild_role_delete : ℕ → Event A
  channel_create channel_update channel_delete : A.Channel → Event A
  application_command_create application_command_update application_command_delete :
      A.ApplicationCommand → Event A
  other : A.Other → Event A

-- gateway.rs: `GatewayEvent`.
pub data GatewayEvent (A : GuildApi) : Type 0 where
  offline online session_invalidated : GatewayEvent A
  event : Event A → GatewayEvent A

pub record Guild (A : GuildApi) : Type 0 where
  pub id : ℕ
  pub user_id : ℕ
  pub application_id : ℕ
  pub name : String
  pub available : Bool
  pub channels : HashMap ℕ A.Channel
  pub roles : HashMap ℕ A.Role
  pub member_count : ℕ
  pub members : HashMap ℕ (Member A)
  pub commands : HashMap String A.ApplicationCommand

-- `HashSet::remove`, of a set of role ids.
pub remove_role : ℕ → List ℕ → List ℕ
remove_role r [] = []
remove_role r (x ∷ xs) = if x == r then remove_role r xs else x ∷ remove_role r xs

module _ {A : GuildApi} where
  abbrev pub forget_role : ℕ → Member A → Member A
  forget_role r m = record m { roles = remove_role r m.roles }

  -- `iter_mut` over the members.
  pub forget_roles : ℕ → HashMap ℕ (Member A) → HashMap ℕ (Member A)
  forget_roles r [] = []
  forget_roles r ((k, m) ∷ ms) = (k, forget_role r m) ∷ forget_roles r ms

  -- `filter_map(|m| Some((m.user.as_ref()?.id, m)))`
  unfoldable pub by_user : List (Member A) → List (ℕ × Member A)
  by_user [] = []
  by_user (m ∷ ms) = elim m.user [ none ↦ by_user ms | some u ↦ (A.user_id u, m) ∷ by_user ms ]

  abbrev member_count_of : GuildData A → ℕ
  member_count_of d = elim d.member_count [ none ↦ 0 | some n ↦ n ]

  -- The new state, and whether all members are requested.
  unfoldable pub update : GuildData A → Guild A → Guild A × Bool
  unfolding by_user
  update d g =
      let members = extend (by_user d.members) g.members in
      (
        record g {
          name = d.name;
          channels = extend (keyed A.channel_id d.channels) [];
          roles = extend (keyed A.role_id d.roles) [];
          members = members;
        },
        ltb (length members) (member_count_of d),
      )

  pub apply_member_update : MemberUpdate A → Member A → Member A
  apply_member_update mu m = record m {
    roles = mu.roles;
    user = some mu.user;
    nick = mu.nick;
    premium_since = mu.premium_since;
  }

  pub add_member : Member A → Guild A → Guild A
  add_member m g = elim m.user [
    | none ↦ g
    | some u ↦ record g { members = insert (A.user_id u) m g.members }
  ]

  -- The match of `next`.
  pub on_event : Event A → Guild A → Guild A × Bool
  unfolding update apply_member_update add_member forget_roles by_user
  on_event (Event.guild_create d) g = update d g
  on_event (Event.guild_update d) g = update d g
  on_event (Event.guild_member_add m) g = (add_member m g, false)
  on_event (Event.guild_member_update mu) g =
      (record g { members = modify (A.user_id mu.user) (apply_member_update mu) g.members }, false)
  on_event (Event.guild_member_remove u) g =
      (record g { members = remove (A.user_id u) g.members }, false)
  on_event (Event.guild_members_chunk ms) g =
      (record g { members = extend (by_user ms) g.members }, false)
  on_event (Event.guild_role_create r) g =
      (record g { roles = insert (A.role_id r) r g.roles }, false)
  on_event (Event.guild_role_update r) g =
      (record g { roles = insert (A.role_id r) r g.roles }, false)
  on_event (Event.guild_role_delete r) g =
      (record g { roles = remove r g.roles; members = forget_roles r g.members }, false)
  on_event (Event.channel_create c) g =
      (record g { channels = insert (A.channel_id c) c g.channels }, false)
  on_event (Event.channel_update c) g =
      (record g { channels = insert (A.channel_id c) c g.channels }, false)
  on_event (Event.channel_delete c) g =
      (record g { channels = remove (A.channel_id c) g.channels }, false)
  on_event (Event.application_command_create c) g =
      (record g { commands = insert (A.command_name c) c g.commands }, false)
  on_event (Event.application_command_update c) g =
      (record g { commands = insert (A.command_name c) c g.commands }, false)
  on_event (Event.application_command_delete c) g =
      (record g { commands = remove (A.command_name c) g.commands }, false)
  on_event (Event.other o) g = (g, false)

  -- The events that the stream has yet to give; `none` is its end.
  pub next :
      List (GatewayEvent A)
      → Guild A
      → Option (GatewayEvent A) × List (GatewayEvent A) × Guild A × Bool
  unfolding on_event
  next [] g = (none, [], g, false)
  next (GatewayEvent.event e ∷ rest) g =
      (some (GatewayEvent.event e), rest, (on_event e g).0, (on_event e g).1)
  next (x ∷ rest) g = (some x, rest, g, false)

  -- The guild that `new` begins with.
  unfoldable pub blank : GuildData A → ℕ → ℕ → Guild A
  blank d user_id application_id = record {
    id = d.id;
    user_id = user_id;
    application_id = application_id;
    name = d.name;
    available = false;
    channels = [];
    roles = [];
    member_count = 0;
    members = [];
    commands = [];
  }

  -- With the answer to the request for the commands.
  unfoldable pub load_commands :
      {E : Type 0} → Result (List A.ApplicationCommand) E → Guild A → Result (Guild A) E
  load_commands (err e) g = err e
  load_commands (ok commands) g =
      ok (record g { commands = extend (keyed A.command_name commands) [] })

  unfoldable pub new :
      {E : Type 0}
      → GuildData A
      → ℕ
      → ℕ
      → Result (List A.ApplicationCommand) E
      → Result (Guild A × Bool) E
  unfolding update blank load_commands
  new d user_id application_id answer =
      load_commands answer (blank d user_id application_id) >>= λ g. ok (update d g)
