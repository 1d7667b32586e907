-- ===== src/Guild/View.antt =====
-- guild.rs: the cached state as functions from ids, which forget the order of the maps.
use discord_async_rs.Prelude.{
  ℕ, List, false, ap, ◌∙◌, Option, none, some, String, [], ◌∷◌, ◌==◌, if◌then◌else◌, ◌≡◌, refl,
  arith, Option-cases, inl, inr,
}
use mathlib.Core.Option
use discord_async_rs.Prelude.Maps.{
  HashMap, Eq, nat_eq, string_eq, get, extend, keyed, or_else, get-insert, get-remove, get-modify,
  get-extend, get-extend_nil,
}
use discord_async_rs.Guild.{
  GuildApi, Member, MemberUpdate, GuildData, Event, Guild, forget_role, forget_roles, by_user,
  apply_member_update, add_member, on_event,
}
use discord_async_rs.Guild.Members.{
  MemberView, member_view, names, has, last_such, latest-keyed, latest-by_user, forget_role-view,
  apply_member_update-view,
}

pub record View (A : GuildApi) : Type 0 where
  pub name : String
  pub channel : ℕ → Option A.Channel
  pub role : ℕ → Option A.Role
  pub member : ℕ → Option (MemberView A)
  pub command : String → Option A.ApplicationCommand

abbrev pub view : {A : GuildApi} → Guild A → View A
view g = record {
  name = g.name;
  channel = λ k. get k g.channels;
  role = λ k. get k g.roles;
  member = λ k. Option.map member_view (get k g.members);
  command = λ k. get k g.commands;
}

module _ {K V : Type 0} ⦃e : Eq K⦄ where
  abbrev pub put : K → V → (K → Option V) → K → Option V
  put k v f j = if e.beq k j then some v else f j

  abbrev pub delete : K → (K → Option V) → K → Option V
  delete k f j = if e.beq k j then none else f j

module _ {A : GuildApi} where
  abbrev pub see : GuildData A → View A → View A
  see d v = record v {
    name = d.name;
    channel = λ k. last_such (λ c. A.channel_id c == k) d.channels;
    role = λ k. last_such (λ r. A.role_id r == k) d.roles;
    member = λ k. or_else (Option.map member_view (last_such (names k) d.members)) (v.member k);
  }

  -- A member that is updated, and one without a role.
  abbrev replaced : MemberUpdate A → MemberView A
  replaced mu = record {
    user = some mu.user;
    has_role = λ r. has r mu.roles;
    nick = mu.nick;
    premium_since = mu.premium_since;
  }

  abbrev robbed : ℕ → MemberView A → MemberView A
  robbed r m = record m { has_role = λ j. if j == r then false else m.has_role j }

  -- What an event means for the view.
  abbrev pub apply : Event A → View A → View A
  apply (Event.guild_create d) v = see d v
  apply (Event.guild_update d) v = see d v
  apply (Event.guild_member_add m) v = record v {
    member = λ k. if names k m then some (member_view m) else v.member k;
  }
  apply (Event.guild_member_update mu) v = record v {
    member = λ k.
        if A.user_id mu.user == k then Option.map (λ m. replaced mu) (v.member k) else v.member k;
  }
  apply (Event.guild_member_remove u) v = record v { member = delete (A.user_id u) v.member }
  apply (Event.guild_members_chunk ms) v = record v {
    member = λ k. or_else (Option.map member_view (last_such (names k) ms)) (v.member k);
  }
  apply (Event.guild_role_create r) v = record v { role = put (A.role_id r) r v.role }
  apply (Event.guild_role_update r) v = record v { role = put (A.role_id r) r v.role }
  apply (Event.guild_role_delete r) v = record v {
    role = delete r v.role;
    member = λ k. Option.map (robbed r) (v.member k);
  }
  apply (Event.channel_create c) v = record v { channel = put (A.channel_id c) c v.channel }
  apply (Event.channel_update c) v = record v { channel = put (A.channel_id c) c v.channel }
  apply (Event.channel_delete c) v = record v { channel = delete (A.channel_id c) v.channel }
  apply (Event.application_command_create c) v = record v {
    command = put (A.command_name c) c v.command;
  }
  apply (Event.application_command_update c) v = record v {
    command = put (A.command_name c) c v.command;
  }
  apply (Event.application_command_delete c) v = record v {
    command = delete (A.command_name c) v.command;
  }
  apply (Event.other o) v = v

  View-eq :
      (v w : View A)
      → v.name ≡ w.name
      → ((k : ℕ) → v.channel k ≡ w.channel k)
      → ((k : ℕ) → v.role k ≡ w.role k)
      → ((k : ℕ) → v.member k ≡ w.member k)
      → ((k : String) → v.command k ≡ w.command k)
      → v ≡ w
  View-eq v w n c r m d = λ i. record {
    name = n i;
    channel = λ k. c k i;
    role = λ k. r k i;
    member = λ k. m k i;
    command = λ k. d k i;
  }

  get-forget_roles :
      (r j : ℕ) (m : HashMap ℕ (Member A))
      → get j (forget_roles r m) ≡ Option.map (forget_role r) (get j m)
  unfolding get forget_roles
  get-forget_roles r j [] = refl
  get-forget_roles r j ((k, m) ∷ ms) = ground (arith, get-forget_roles r j ms)

  on_event-channel :
      (e : Event A) (g : Guild A) (k : ℕ)
      → (view (on_event e g).0).channel k ≡ (apply e (view g)).channel k
  unfolding on_event
  on_event-channel (Event.guild_create d) g k =
      get-extend_nil (keyed A.channel_id d.channels) k ∙ latest-keyed A.channel_id d.channels k
  on_event-channel (Event.guild_update d) g k =
      get-extend_nil (keyed A.channel_id d.channels) k ∙ latest-keyed A.channel_id d.channels k
  on_event-channel (Event.channel_create c) g k = get-insert (A.channel_id c) k c g.channels
  on_event-channel (Event.channel_update c) g k = get-insert (A.channel_id c) k c g.channels
  on_event-channel (Event.channel_delete c) g k = get-remove (A.channel_id c) k g.channels
  on_event-channel (Event.guild_member_add m) g k = ground arith
  on_event-channel e g k = refl

  on_event-role :
      (e : Event A) (g : Guild A) (k : ℕ)
      → (view (on_event e g).0).role k ≡ (apply e (view g)).role k
  unfolding on_event
  on_event-role (Event.guild_create d) g k =
      get-extend_nil (keyed A.role_id d.roles) k ∙ latest-keyed A.role_id d.roles k
  on_event-role (Event.guild_update d) g k =
      get-extend_nil (keyed A.role_id d.roles) k ∙ latest-keyed A.role_id d.roles k
  on_event-role (Event.guild_role_create r) g k = get-insert (A.role_id r) k r g.roles
  on_event-role (Event.guild_role_update r) g k = get-insert (A.role_id r) k r g.roles
  on_event-role (Event.guild_role_delete r) g k = get-remove r k g.roles
  on_event-role (Event.guild_member_add m) g k = ground arith
  on_event-role e g k = refl

  add_member-member :
      (m : Member A) (g : Guild A) (k : ℕ)
      → Option.map member_view (get k (add_member m g).members)
        ≡ (if names k m then some (member_view m) else Option.map member_view (get k g.members))
  unfolding add_member
  add_member-member m g k = elim (Option-cases m.user) [
    | inl e ↦ ground arith
    | inr (u, e) ↦ ground (arith, get-insert (A.user_id u) k m g.members)
  ]

  -- Members that are added from a list.
  get-by_user :
      (ms : List (Member A)) (g : Guild A) (k : ℕ)
      → Option.map member_view (get k (extend (by_user ms) g.members))
        ≡ or_else
            (Option.map member_view (last_such (names k) ms))
            (Option.map member_view (get k g.members))
  get-by_user ms g k = ground (arith, get-extend (by_user ms) k g.members, latest-by_user ms k)

  get-updated :
      (mu : MemberUpdate A) (g : Guild A) (k : ℕ)
      → (view (on_event (Event.guild_member_update mu) g).0).member k
        ≡ (apply (Event.guild_member_update mu) (view g)).member k
  unfolding on_event
  get-updated mu g k = elim (Option-cases (get k g.members)) [
    | inl e ↦ ground (arith, get-modify (A.user_id mu.user) k (apply_member_update mu) g.members)
    | inr (m, e) ↦ ground (
      arith,
      get-modify (A.user_id mu.user) k (apply_member_update mu) g.members,
      apply_member_update-view mu m,
    )
  ]

  get-forgotten :
      (r : ℕ) (g : Guild A) (k : ℕ)
      → (view (on_event (Event.guild_role_delete r) g).0).member k
        ≡ (apply (Event.guild_role_delete r) (view g)).member k
  unfolding on_event
  get-forgotten r g k =
      ap (Option.map member_view) (get-forget_roles r k g.members) ∙ map_forgotten (get k g.members)
    where
      map_forgotten :
          (o : Option (Member A))
          → Option.map member_view (Option.map (forget_role r) o)
            ≡ Option.map (robbed r) (Option.map member_view o)
      map_forgotten none = refl
      map_forgotten (some m) = ap some (forget_role-view r m)

  on_event-member :
      (e : Event A) (g : Guild A) (k : ℕ)
      → (view (on_event e g).0).member k ≡ (apply e (view g)).member k
  unfolding on_event
  on_event-member (Event.guild_create d) g k = get-by_user d.members g k
  on_event-member (Event.guild_update d) g k = get-by_user d.members g k
  on_event-member (Event.guild_member_add m) g k = add_member-member m g k
  on_event-member (Event.guild_member_update mu) g k = get-updated mu g k
  on_event-member (Event.guild_member_remove u) g k =
      ground (arith, get-remove (A.user_id u) k g.members)
  on_event-member (Event.guild_members_chunk ms) g k = get-by_user ms g k
  on_event-member (Event.guild_role_delete r) g k = get-forgotten r g k
  on_event-member e g k = refl

  on_event-command :
      (e : Event A) (g : Guild A) (k : String)
      → (view (on_event e g).0).command k ≡ (apply e (view g)).command k
  unfolding on_event
  on_event-command (Event.application_command_create c) g k =
      get-insert (A.command_name c) k c g.commands
  on_event-command (Event.application_command_update c) g k =
      get-insert (A.command_name c) k c g.commands
  on_event-command (Event.application_command_delete c) g k =
      get-remove (A.command_name c) k g.commands
  on_event-command (Event.guild_member_add m) g k = ground arith
  on_event-command e g k = refl

  on_event-name : (e : Event A) (g : Guild A) → (on_event e g).0.name ≡ (apply e (view g)).name
  unfolding on_event
  on_event-name (Event.guild_create d) g = refl
  on_event-name (Event.guild_member_add m) g = ground arith
  on_event-name e g = refl

  -- The maps after an event hold, under every id, what the event means: of a list the last entry
  -- with the id, where members without a user count for none; members that a guild's data do not
  -- name are kept while channels and roles are replaced; an update of a member that is known gives
  -- its user, roles, nick and boost; and a deleted role is taken from every member and no other is.
  pub on_event-view : (e : Event A) (g : Guild A) → view (on_event e g).0 ≡ apply e (view g)
  on_event-view e g =
      View-eq (view (on_event e g).0) (apply e (view g)) (on_event-name e g) (on_event-channel e g)
        (on_event-role e g) (on_event-member e g) (on_event-command e g)
