-- ===== src/Guild/Keys.antt =====
-- guild.rs: entries stand under their own ids, over any sequence of events.
use discord_async_rs.Prelude.{
  ℕ, Bool, false, some, List, [], ◌∷◌, ◌≡◌, refl, Result, ok, err, ok_injective, Option-cases, inl,
  inr, subst,
}
use mathlib.Core.Option
use discord_async_rs.Prelude.Maps.{HashMap, nat_eq, string_eq, extend, keyed}
use discord_async_rs.Prelude.Entries.{
  Entries, insert-Entries, remove-Entries, modify-Entries, extend-Entries, keyed-Entries,
}
use discord_async_rs.Guild.{
  GuildApi, Member, GuildData, MemberUpdate, Event, Guild, forget_roles, by_user, update,
  apply_member_update, add_member, on_event, new, blank, load_commands,
}

module _ {A : GuildApi} where
  abbrev HasUser : ℕ → Member A → Type 0
  HasUser k m = Option.map A.user_id m.user ≡ some k

  -- Channels, roles, members and commands stand under their own id or name.
  abbrev pub IsKeyed : Guild A → Type 0
  IsKeyed g =
      Entries (λ k c. A.channel_id c ≡ k) g.channels
      × Entries (λ k r. A.role_id r ≡ k) g.roles
      × Entries HasUser g.members
      × Entries (λ k c. A.command_name c ≡ k) g.commands

  by_user-Entries : (ms : List (Member A)) → Entries HasUser (by_user ms)
  unfolding by_user
  by_user-Entries [] = tt
  by_user-Entries (m ∷ ms) = elim (Option-cases m.user) [
    | inl e ↦ rw (e, by_user) (by_user-Entries ms)
    | inr (u, e) ↦ rw (e, by_user) (rw e, by_user-Entries ms)
  ]

  forget_roles-Entries :
      (r : ℕ) (m : HashMap ℕ (Member A)) → Entries HasUser m → Entries HasUser (forget_roles r m)
  unfolding forget_roles
  forget_roles-Entries r [] h = tt
  forget_roles-Entries r ((k, m) ∷ ms) h = (h.0, forget_roles-Entries r ms h.1)

  pub update-IsKeyed : (d : GuildData A) (g : Guild A) → IsKeyed g → IsKeyed (update d g).0
  unfolding update
  update-IsKeyed d g (c, r, m, n) = (
    extend-Entries _ (keyed A.channel_id d.channels) [] (keyed-Entries A.channel_id d.channels) tt,
    extend-Entries _ (keyed A.role_id d.roles) [] (keyed-Entries A.role_id d.roles) tt,
    extend-Entries HasUser (by_user d.members) g.members (by_user-Entries d.members) m,
    n,
  )

  add_member-IsKeyed : (m : Member A) (g : Guild A) → IsKeyed g → IsKeyed (add_member m g)
  unfolding add_member
  add_member-IsKeyed m g (c, r, ms, n) = elim (Option-cases m.user) [
    | inl e ↦ rw (e, add_member) (c, r, ms, n)
    | inr (u, e) ↦
        rw (e, add_member) (c, r, insert-Entries HasUser (A.user_id u) m g.members (rw e) ms, n)
  ]

  updated :
      (mu : MemberUpdate A) (m : Member A) → HasUser (A.user_id mu.user) (apply_member_update mu m)
  unfolding apply_member_update
  updated mu m = refl

  pub on_event-IsKeyed : (e : Event A) (g : Guild A) → IsKeyed g → IsKeyed (on_event e g).0
  unfolding on_event
  on_event-IsKeyed (Event.guild_create d) g h = update-IsKeyed d g h
  on_event-IsKeyed (Event.guild_update d) g h = update-IsKeyed d g h
  on_event-IsKeyed (Event.guild_member_add m) g (c, r, ms, n) = add_member-IsKeyed m g (c, r, ms, n)
  on_event-IsKeyed (Event.guild_member_update mu) g (c, r, ms, n) = (
    c,
    r,
    modify-Entries HasUser (A.user_id mu.user) (apply_member_update mu) g.members
        (λ m. updated mu m) ms,
    n,
  )
  on_event-IsKeyed (Event.guild_member_remove u) g (c, r, ms, n) =
      (c, r, remove-Entries HasUser (A.user_id u) g.members ms, n)
  on_event-IsKeyed (Event.guild_members_chunk ds) g (c, r, ms, n) =
      (c, r, extend-Entries HasUser (by_user ds) g.members (by_user-Entries ds) ms, n)
  on_event-IsKeyed (Event.guild_role_create x) g (c, r, ms, n) =
      (c, insert-Entries _ (A.role_id x) x g.roles refl r, ms, n)
  on_event-IsKeyed (Event.guild_role_update x) g (c, r, ms, n) =
      (c, insert-Entries _ (A.role_id x) x g.roles refl r, ms, n)
  on_event-IsKeyed (Event.guild_role_delete x) g (c, r, ms, n) =
      (c, remove-Entries _ x g.roles r, forget_roles-Entries x g.members ms, n)
  on_event-IsKeyed (Event.channel_create x) g (c, r, ms, n) =
      (insert-Entries _ (A.channel_id x) x g.channels refl c, r, ms, n)
  on_event-IsKeyed (Event.channel_update x) g (c, r, ms, n) =
      (insert-Entries _ (A.channel_id x) x g.channels refl c, r, ms, n)
  on_event-IsKeyed (Event.channel_delete x) g (c, r, ms, n) =
      (remove-Entries _ (A.channel_id x) g.channels c, r, ms, n)
  on_event-IsKeyed (Event.application_command_create x) g (c, r, ms, n) =
      (c, r, ms, insert-Entries _ (A.command_name x) x g.commands refl n)
  on_event-IsKeyed (Event.application_command_update x) g (c, r, ms, n) =
      (c, r, ms, insert-Entries _ (A.command_name x) x g.commands refl n)
  on_event-IsKeyed (Event.application_command_delete x) g (c, r, ms, n) =
      (c, r, ms, remove-Entries _ (A.command_name x) g.commands n)
  on_event-IsKeyed (Event.other o) g h = h

  pub new_lem :
      {E : Type 0} (d : GuildData A) (user application : ℕ)
      (answer : Result (List A.ApplicationCommand) E) (g : Guild A) (ask : Bool)
      → new d user application answer ≡ ok (g, ask)
      → IsKeyed g × (g.available ≡ false) × (g.member_count ≡ 0)
  unfolding new blank load_commands
  new_lem d user application (err x) g ask e = cc
  new_lem d user application (ok cs) g ask e =
      subst (λ r. IsKeyed r.0 × (r.0.available ≡ false) × (r.0.member_count ≡ 0)) (ok_injective e)
        (
          update-IsKeyed d
              (record (blank d user application) { commands = extend (keyed A.command_name cs) [] })
              (
                tt,
                tt,
                tt,
                extend-Entries _ (keyed A.command_name cs) [] (keyed-Entries A.command_name cs) tt,
              ),
          refl,
          refl,
        )
