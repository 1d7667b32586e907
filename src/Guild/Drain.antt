-- ===== src/Guild/Drain.antt =====
-- guild.rs: a guild over the whole sequence of events that its stream gives.
use discord_async_rs.Prelude.{
  ℕ, Bool, false, none, some, List, [], ◌∷◌, ◌≡◌, refl, arith, Result, ok, ap,
}
use discord_async_rs.Prelude.Maps.{nat_eq, string_eq}
use discord_async_rs.Guild.{GuildApi, GuildData, Event, GatewayEvent, Guild, on_event, next, new}
use discord_async_rs.Guild.Keys.{IsKeyed, on_event-IsKeyed, new_lem}

module _ {A : GuildApi} where
  next-IsKeyed :
      (x : GatewayEvent A) (rest : List (GatewayEvent A)) (g : Guild A)
      → IsKeyed g
      → IsKeyed (next (x ∷ rest) g).2
  unfolding next
  next-IsKeyed (GatewayEvent.event e) rest g h = on_event-IsKeyed e g h
  next-IsKeyed x rest g h = h

  -- `next`, until the stream ends.
  pub drain : List (GatewayEvent A) → Guild A → List (GatewayEvent A) × Guild A
  drain [] g = ([], g)
  drain (x ∷ rest) g = elim (next (x ∷ rest) g).0 [
    | none ↦ ([], (next (x ∷ rest) g).2)
    | some e ↦ (e ∷ (drain rest (next (x ∷ rest) g).2).0, (drain rest (next (x ∷ rest) g).2).1)
  ]

  drain-cons :
      (x : GatewayEvent A) (rest : List (GatewayEvent A)) (g : Guild A)
      → let g' = (next (x ∷ rest) g).2 in
        drain (x ∷ rest) g ≡ (x ∷ (drain rest g').0, (drain rest g').1)
  unfolding drain next
  drain-cons (GatewayEvent.event e) rest g = refl
  drain-cons x rest g = refl

  drain-IsKeyed : (xs : List (GatewayEvent A)) (g : Guild A) → IsKeyed g → IsKeyed (drain xs g).1
  unfolding drain
  drain-IsKeyed [] g h = h
  drain-IsKeyed (x ∷ rest) g h =
      rw (drain-cons x rest g) (drain-IsKeyed rest (next (x ∷ rest) g).2 (next-IsKeyed x rest g h))

  -- A new guild, over any events: each channel, role, member and command stands under its own id.
  pub new-IsKeyed :
      {E : Type 0} (d : GuildData A) (user application : ℕ)
      (answer : Result (List A.ApplicationCommand) E) (g : Guild A) (ask : Bool)
      (xs : List (GatewayEvent A))
      → new d user application answer ≡ ok (g, ask)
      → IsKeyed (drain xs g).1
  new-IsKeyed d user application answer g ask xs e =
      drain-IsKeyed xs g (new_lem d user application answer g ask e).0

  -- Every event of the stream is passed on, unchanged and in order.
  pub drain-events : (xs : List (GatewayEvent A)) (g : Guild A) → (drain xs g).0 ≡ xs
  unfolding drain
  drain-events [] g = refl
  drain-events (x ∷ rest) g =
      rw (drain-cons x rest g) (ap (◌∷◌ x) (drain-events rest (next (x ∷ rest) g).2))

  -- Nothing but the name, the channels, the roles, the members and the commands ever changes.
  abbrev pub SameHead : Guild A → Guild A → Type 0
  SameHead g h =
      (h.id ≡ g.id)
      × (h.user_id ≡ g.user_id)
      × (h.application_id ≡ g.application_id)
      × (h.available ≡ g.available)
      × (h.member_count ≡ g.member_count)

  on_event-SameHead : (e : Event A) (g : Guild A) → SameHead g (on_event e g).0
  unfolding on_event
  on_event-SameHead (Event.guild_create d) g = (refl, refl, refl, refl, refl)
  on_event-SameHead (Event.guild_member_add m) g = ground arith
  on_event-SameHead e g = (refl, refl, refl, refl, refl)

  next-SameHead :
      (x : GatewayEvent A) (rest : List (GatewayEvent A)) (g : Guild A)
      → SameHead g (next (x ∷ rest) g).2
  unfolding next
  next-SameHead (GatewayEvent.event e) rest g = on_event-SameHead e g
  next-SameHead x rest g = (refl, refl, refl, refl, refl)

  drain-SameHead : (xs : List (GatewayEvent A)) (g : Guild A) → SameHead g (drain xs g).1
  unfolding drain
  drain-SameHead [] g = (refl, refl, refl, refl, refl)
  drain-SameHead (x ∷ rest) g =
      let g' = (next (x ∷ rest) g).2 in
      ground (arith, drain-cons x rest g, next-SameHead x rest g, drain-SameHead rest g')

  -- A new guild is never reported available and has 0 for its member count, whatever members its
  -- data and the events bring.
  pub new-stale :
      {E : Type 0} (d : GuildData A) (user application : ℕ)
      (answer : Result (List A.ApplicationCommand) E) (g : Guild A) (ask : Bool)
      (xs : List (GatewayEvent A))
      → new d user application answer ≡ ok (g, ask)
      → ((drain xs g).1.available ≡ false) × ((drain xs g).1.member_count ≡ 0)
  new-stale d user application answer g ask xs e =
      ground (arith, new_lem d user application answer g ask e, drain-SameHead xs g)
