-- ===== src/Guild/Tests.antt =====
-- guild.rs: the theorems at concrete inputs.
use discord_async_rs.Prelude.{
  ℕ, Bool, true, false, Option, none, some, String, List, [], ◌∷◌, ◌≡◌, ◌≤◌, ◌⊎◌, refl, Result, ok,
}
use discord_async_rs.Prelude.Maps.{nat_eq, string_eq, get, latest}
use discord_async_rs.Guild.{GuildApi, Member, GuildData, Event, GatewayEvent, Guild, on_event, new}
use discord_async_rs.Guild.View.{view, apply, on_event-view}
use discord_async_rs.Guild.Drain.{drain, new-stale}
use discord_async_rs.Guild.Position.{HasPosition, member_role_position, member_role_position_lem}

-- A role is its id and its position.
abbrev pub api : GuildApi
api = record {
  Channel = ℕ;
  channel_id = λ c. c;
  Role = ℕ × ℕ;
  role_id = λ r. r.0;
  role_position = λ r. r.1;
  User = ℕ;
  user_id = λ u. u;
  Time = ℕ;
  ApplicationCommand = String;
  command_name = λ c. c;
  Other = Unit;
}

abbrev pub ann : Member api
ann = record { user = some 7; roles = 1 ∷ 2 ∷ []; nick = none; premium_since = none }

abbrev pub data_ : GuildData api
data_ = record {
  id = 100;
  name = "den";
  channels = 5 ∷ 6 ∷ [];
  roles = (1, 3) ∷ (2, 9) ∷ [];
  members = ann ∷ [];
  member_count = some 40;
}

abbrev den : Guild api
den = record {
  id = 100;
  user_id = 1;
  application_id = 2;
  name = "den";
  available = false;
  channels = (5, 5) ∷ (6, 6) ∷ [];
  roles = (1, (1, 3)) ∷ (2, (2, 9)) ∷ [];
  member_count = 0;
  members = (7, ann) ∷ [];
  commands = ("play", "play") ∷ [];
}

abbrev events : List (GatewayEvent api)
events =
    GatewayEvent.online
    ∷ GatewayEvent.event (Event.guild_role_delete 2)
    ∷ GatewayEvent.event (Event.guild_member_remove 7)
    ∷ []

on_event-view_example :
    view (on_event (Event.guild_role_delete 2) den).0 ≡ apply (Event.guild_role_delete 2) (view den)
on_event-view_example = on_event-view (Event.guild_role_delete 2) den

-- The guild of the tests is the one that `new` gives.
new-den : new {E = Unit} data_ 1 2 (ok ("play" ∷ [])) ≡ ok (den, true)
unfolding new get discord_async_rs.Prelude.Maps.extend discord_async_rs.Prelude.Maps.insert
new-den = refl

new-stale_example :
    ((drain events den).1.available ≡ false) × ((drain events den).1.member_count ≡ 0)
new-stale_example = new-stale {E = Unit} data_ 1 2 (ok ("play" ∷ [])) den true events new-den

member_role_position_lem_example :
    (HasPosition ann.roles den (member_role_position ann den)
      × ((p : ℕ) → HasPosition ann.roles den p → p ≤ member_role_position ann den))
    ⊎ ((member_role_position ann den ≡ 0) × ((p : ℕ) → ¬ HasPosition ann.roles den p))
member_role_position_lem_example = member_role_position_lem ann den
