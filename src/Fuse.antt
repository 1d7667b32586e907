-- ===== src/Fuse.antt =====
-- The `Fuse` of the crate async-fuse, which voice/player.rs and voice/connection.rs keep their
-- optional timers and streams in. The crate is not part of the repository: it is a parameter, a
-- slot with the operations that the code calls and the laws that its documentation gives.
use discord_async_rs.Prelude.{◌≡◌, refl, Bool, Option, none, some, is_none}

pub record FuseApi : Type 1 where
  pub Fuse : Type 0 → Type 0
  pub empty : (A : Type 0) → Fuse A
  pub set : (A : Type 0) → Fuse A → A → Fuse A
  pub clear : (A : Type 0) → Fuse A → Fuse A
  pub take : (A : Type 0) → Fuse A → Option A × Fuse A
  pub is_empty : (A : Type 0) → Fuse A → Bool
  -- The slot after the future in it was polled to completion.
  pub completed : (A : Type 0) → Fuse A → Fuse A
  pub take-empty : (A : Type 0) → (take A (empty A)).0 ≡ none
  pub take-set : (A : Type 0) (f : Fuse A) (a : A) → (take A (set A f a)).0 ≡ some a
  pub take-clear : (A : Type 0) (f : Fuse A) → (take A (clear A f)).0 ≡ none
  pub take-take : (A : Type 0) (f : Fuse A) → (take A (take A f).1).0 ≡ none
  pub is_empty-take : (A : Type 0) (f : Fuse A) → is_empty A f ≡ is_none (take A f).0

-- The slot as an optional value meets the laws.
abbrev pub option_fuse : FuseApi
option_fuse = record {
  Fuse = Option;
  empty = λ A. none;
  set = λ A f a. some a;
  clear = λ A f. none;
  take = λ A f. (f, none);
  is_empty = λ A f. is_none f;
  completed = λ A f. none;
  take-empty = λ A. refl;
  take-set = λ A f a. refl;
  take-clear = λ A f. refl;
  take-take = λ A f. refl;
  is_empty-take = λ A f. refl;
}
