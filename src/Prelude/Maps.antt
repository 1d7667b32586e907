-- ===== src/Prelude/Maps.antt =====
-- Maps as association lists with at most one entry for a key: `HashMap`, whose order the code
-- does not use. The keys come with a Boolean equality.
use Prim.Native.Nat.{ℕ}
use Prim.Native.String.{String}
use mathlib.Core.Path.{◌≡◌, refl}
use mathlib.Core.Logic.{◌↔◌}
use mathlib.Core.Bool.{Bool, true}
use mathlib.Core.Option
use mathlib.Core.Option.{Option, none, some}
use mathlib.Core.List.{List, [], ◌∷◌, map}
use native.Mathlib.Omega.{arith}
use text.Mathlib.Text.{◌==◌ as str_eq}
use text.Mathlib.TextEquality.{eq_iff}
use discord_async_rs.Prelude.Tests.{◌==◌, ==_iff, if◌then◌else◌}

pub record Eq (K : Type 0) : Type 0 where
  pub beq : K → K → Bool
  pub beq_iff : (a b : K) → (beq a b ≡ true) ↔ (a ≡ b)

instance abbrev pub nat_eq : Eq ℕ
nat_eq = record { beq = λ a b. a == b; beq_iff = ==_iff }

instance abbrev pub string_eq : Eq String
string_eq = record { beq = str_eq; beq_iff = eq_iff }

abbrev pub HashMap : Type 0 → Type 0 → Type 0
HashMap K V = List (K × V)

-- The pairs that are collected into a map, each value under its own key.
abbrev pub keyed : {K V : Type 0} → (V → K) → List V → List (K × V)
keyed key = map λ v. (key v, v)

-- The last value of a key among these pairs.
unfoldable pub latest : {K V : Type 0} ⦃e : Eq K⦄ → K → List (K × V) → Option V
latest j [] = none
latest ⦃e⦄ j ((k, v) ∷ kvs) = elim (latest j kvs) [
  | some w ↦ some w
  | none ↦ if e.beq k j then some v else none
]

abbrev pub or_else : {V : Type 0} → Option V → Option V → Option V
or_else (some v) o = some v
or_else none o = o

module _ {K V : Type 0} ⦃e : Eq K⦄ where
  unfoldable pub get : K → HashMap K V → Option V
  get k [] = none
  get k ((j, v) ∷ m) = if e.beq j k then some v else get k m

  unfoldable pub insert : K → V → HashMap K V → HashMap K V
  insert k v [] = (k, v) ∷ []
  insert k v ((j, w) ∷ m) = if e.beq j k then (j, v) ∷ m else (j, w) ∷ insert k v m

  unfoldable pub remove : K → HashMap K V → HashMap K V
  remove k [] = []
  remove k ((j, w) ∷ m) = if e.beq j k then remove k m else (j, w) ∷ remove k m

  -- `get_mut`, followed by an assignment.
  unfoldable pub modify : K → (V → V) → HashMap K V → HashMap K V
  modify k f [] = []
  modify k f ((j, w) ∷ m) = (j, if e.beq j k then f w else w) ∷ modify k f m

  -- A run of insertions, the first one first.
  unfoldable pub extend : List (K × V) → HashMap K V → HashMap K V
  extend [] m = m
  extend ((k, v) ∷ kvs) m = extend kvs (insert k v m)

  pub get-insert :
      (k j : K) (v : V) (m : HashMap K V)
      → get j (insert k v m) ≡ (if e.beq k j then some v else get j m)
  unfolding get insert
  get-insert k j v [] = refl
  get-insert k j v ((i, w) ∷ m) =
      ground (arith, e.beq_iff k j, e.beq_iff i k, e.beq_iff i j, get-insert k j v m)

  pub get-remove :
      (k j : K) (m : HashMap K V) → get j (remove k m) ≡ (if e.beq k j then none else get j m)
  unfolding get remove
  get-remove k j [] = ground (arith)
  get-remove k j ((i, w) ∷ m) =
      ground (arith, e.beq_iff k j, e.beq_iff i k, e.beq_iff i j, get-remove k j m)

  pub get-modify :
      (k j : K) (f : V → V) (m : HashMap K V)
      → get j (modify k f m) ≡ (if e.beq k j then Option.map f (get j m) else get j m)
  unfolding get modify
  get-modify k j f [] = ground arith
  get-modify k j f ((i, w) ∷ m) =
      ground (arith, e.beq_iff k j, e.beq_iff i k, e.beq_iff i j, get-modify k j f m)

  pub get-extend :
      (kvs : List (K × V)) (j : K) (m : HashMap K V)
      → get j (extend kvs m) ≡ or_else (latest j kvs) (get j m)
  unfolding extend latest
  get-extend [] j m = refl
  get-extend ((k, v) ∷ kvs) j m =
      ground (arith, get-extend kvs j (insert k v m), get-insert k j v m)

  pub get-extend_nil : (kvs : List (K × V)) (j : K) → get j (extend kvs []) ≡ latest j kvs
  unfolding get
  get-extend_nil kvs j = ground (arith, get-extend kvs j [])
