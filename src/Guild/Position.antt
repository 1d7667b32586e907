-- ===== src/Guild/Position.antt =====
-- guild.rs: `member_role_position`.
use discord_async_rs.Prelude.{
  ℕ, Option, none, some, List, [], ◌∷◌, ◌≤◌, ◌≡◌, ◌⊎◌, max, arith, inl, inr, Option-cases,
}
use discord_async_rs.Prelude.Maps.{nat_eq, get}
use discord_async_rs.Guild.{GuildApi, Member, Guild}

max_cases : (a b : ℕ) → (max a b ≡ a) ⊎ (max a b ≡ b)
max_cases a b = omega arith

module _ {A : GuildApi} where
  pub role : ℕ → Guild A → Option A.Role
  role id g = get id g.roles

  -- `filter_map`, `map` and `max` over the roles; `max` of nothing is `None`.
  max_position : List ℕ → Guild A → Option ℕ
  max_position [] g = none
  max_position (id ∷ ids) g = elim (role id g) [
    | none ↦ max_position ids g
    | some r ↦ elim (max_position ids g) [
      | none ↦ some (A.role_position r)
      | some p ↦ some (max (A.role_position r) p)
    ]
  ]

  pub member_role_position : Member A → Guild A → ℕ
  unfolding max_position
  member_role_position m g = elim (max_position m.roles g) [ none ↦ 0 | some p ↦ p ]

  -- The id is in the list, names a role of the guild, and this is its position.
  abbrev pub HasPosition : List ℕ → Guild A → ℕ → Type 0
  HasPosition [] g p = ⊥
  HasPosition (id ∷ ids) g p =
      ((r : A.Role) × (role id g ≡ some r) × (A.role_position r ≡ p)) ⊎ HasPosition ids g p

  max_position-upper :
      (ids : List ℕ) (g : Guild A) (p : ℕ)
      → HasPosition ids g p
      → (q : ℕ) × (max_position ids g ≡ some q) × (p ≤ q)
  unfolding max_position
  max_position-upper [] g p h = absurd h
  max_position-upper (id ∷ ids) g p (inl (r, e, f)) = elim (Option-cases (max_position ids g)) [
    | inl n ↦ (A.role_position r, ground arith, omega arith)
    | inr (q, n) ↦ (max (A.role_position r) q, ground arith, omega arith)
  ]
  max_position-upper (id ∷ ids) g p (inr h) =
      let (q, e, le) = max_position-upper ids g p h in
      elim (Option-cases (role id g)) [
        | inl n ↦ (q, ground arith, le)
        | inr (r, n) ↦ (max (A.role_position r) q, ground arith, omega arith)
      ]

  max_position-reached :
      (ids : List ℕ) (g : Guild A) (q : ℕ) → max_position ids g ≡ some q → HasPosition ids g q
  unfolding max_position
  max_position-reached [] g q e = cc
  max_position-reached (id ∷ ids) g q e = elim (Option-cases (role id g)) [
    | inl n ↦ inr (max_position-reached ids g q (ground arith))
    | inr (r, n) ↦ elim (Option-cases (max_position ids g)) [
      | inl m ↦ inl (r, n, ground arith)
      | inr (p, m) ↦ elim (max_cases (A.role_position r) p) [
        | inl l ↦ inl (r, n, ground arith)
        | inr l ↦ inr (max_position-reached ids g q (ground arith))
      ]
    ]
  ]

  -- The position of a member is that of its highest role among those of the guild, and 0 if it
  -- has none of them.
  pub member_role_position_lem :
      (m : Member A) (g : Guild A)
      → (HasPosition m.roles g (member_role_position m g)
          × ((p : ℕ) → HasPosition m.roles g p → p ≤ member_role_position m g))
        ⊎ ((member_role_position m g ≡ 0) × ((p : ℕ) → ¬ HasPosition m.roles g p))
  unfolding member_role_position
  member_role_position_lem m g = elim (Option-cases (max_position m.roles g)) [
    | inl n ↦ inr (
      rw (n, member_role_position),
      λ p h. let (q, e, le) = max_position-upper m.roles g p h in ground arith,
    )
    | inr (q, n) ↦ inl (
      rw (n, member_role_position) (max_position-reached m.roles g q n),
      λ p h. let (q', e, le) = max_position-upper m.roles g p h in ground arith,
    )
  ]
