-- ===== src/Guild/Members.antt =====
-- guild.rs: what a list of entries or of members says, read without the maps.
use discord_async_rs.Prelude.{
  ℕ, Bool, false, Option, none, some, List, [], ◌∷◌, ◌==◌, ◌||◌, if◌then◌else◌, ◌≡◌, refl, arith,
  Option-cases, inl, inr, String,
}
use discord_async_rs.Prelude.Maps.{Eq, keyed, latest, nat_eq}
use discord_async_rs.Guild.{
  GuildApi, Member, MemberUpdate, by_user, remove_role, forget_role, apply_member_update,
}

-- The last of the values that pass a test.
pub last_such : {V : Type 0} → (V → Bool) → List V → Option V
last_such p [] = none
last_such p (v ∷ vs) = elim (last_such p vs) [
  | some w ↦ some w
  | none ↦ if p v then some v else none
]

pub latest-keyed :
    {K V : Type 0} ⦃e : Eq K⦄ (key : V → K) (vs : List V) (k : K)
    → latest k (keyed key vs) ≡ last_such (λ v. e.beq (key v) k) vs
unfolding latest last_such
latest-keyed key [] k = refl
latest-keyed key (v ∷ vs) k = ground (arith, latest-keyed key vs k)

-- Whether a role is among these.
abbrev pub has : ℕ → List ℕ → Bool
has r [] = false
has r (x ∷ xs) = x == r || has r xs

has-remove_role :
    (r j : ℕ) (xs : List ℕ) → has j (remove_role r xs) ≡ (if j == r then false else has j xs)
unfolding remove_role
has-remove_role r j [] = ground arith
has-remove_role r j (x ∷ xs) = ground (arith, has-remove_role r j xs)

-- What is known of a member, its roles as a set.
pub record MemberView (A : GuildApi) : Type 0 where
  pub user : Option A.User
  pub has_role : ℕ → Bool
  pub nick : Option String
  pub premium_since : Option A.Time

module _ {A : GuildApi} where
  abbrev pub member_view : Member A → MemberView A
  member_view m = record {
    user = m.user;
    has_role = λ r. has r m.roles;
    nick = m.nick;
    premium_since = m.premium_since;
  }

  -- Whether a member has a user, with this id.
  abbrev pub names : ℕ → Member A → Bool
  names k m = elim m.user [ none ↦ false | some u ↦ A.user_id u == k ]

  pub latest-by_user :
      (ms : List (Member A)) (k : ℕ) → latest k (by_user ms) ≡ last_such (names k) ms
  unfolding latest last_such by_user
  latest-by_user [] k = refl
  latest-by_user (m ∷ ms) k = elim (Option-cases m.user) [
    | inl e ↦ ground (arith, latest-by_user ms k)
    | inr (u, e) ↦ ground (arith, latest-by_user ms k)
  ]

  pub forget_role-view :
      (r : ℕ) (m : Member A)
      → member_view (forget_role r m)
        ≡ record (member_view m) { has_role = λ j. if j == r then false else has j m.roles }
  forget_role-view r m =
      λ i. record (member_view m) { has_role = λ j. has-remove_role r j m.roles i }

  pub apply_member_update-view :
      (mu : MemberUpdate A) (m : Member A)
      → member_view (apply_member_update mu m) ≡ record {
        user = some mu.user;
        has_role = λ r. has r mu.roles;
        nick = mu.nick;
        premium_since = mu.premium_since;
      }
  unfolding apply_member_update
  apply_member_update-view mu m = refl
