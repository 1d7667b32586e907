-- ===== src/Prelude/Entries.antt =====
-- What holds of every entry of a map.
use mathlib.Core.Path.{◌≡◌, refl, sym, subst}
use mathlib.Core.Logic.{inl, inr}
use mathlib.Core.List.{List, [], ◌∷◌}
use discord_async_rs.Prelude.Tests.{Bool-cases}
use discord_async_rs.Prelude.Maps.{HashMap, Eq, insert, remove, modify, extend, keyed}

-- Every entry satisfies `P`, which may speak of its key.
abbrev pub Entries : {K V : Type 0} → (K → V → Type 0) → HashMap K V → Type 0
Entries P [] = Unit
Entries P ((k, v) ∷ m) = P k v × Entries P m

module _ {K V : Type 0} ⦃e : Eq K⦄ (P : K → V → Type 0) where
  pub insert-Entries :
      (k : K) (v : V) (m : HashMap K V) → P k v → Entries P m → Entries P (insert k v m)
  unfolding insert
  insert-Entries k v [] p h = (p, tt)
  insert-Entries k v ((j, w) ∷ m) p h = elim (Bool-cases (e.beq j k)) [
    | inl t ↦ rw t (subst (λ x. P x v) (sym ((e.beq_iff j k).0 t)) p, h.1)
    | inr f ↦ rw f (h.0, insert-Entries k v m p h.1)
  ]

  pub remove-Entries : (k : K) (m : HashMap K V) → Entries P m → Entries P (remove k m)
  unfolding remove
  remove-Entries k [] h = tt
  remove-Entries k ((j, w) ∷ m) h = elim (Bool-cases (e.beq j k)) [
    | inl t ↦ rw t (remove-Entries k m h.1)
    | inr f ↦ rw f (h.0, remove-Entries k m h.1)
  ]

  pub modify-Entries :
      (k : K) (f : V → V) (m : HashMap K V)
      → ((v : V) → P k (f v))
      → Entries P m
      → Entries P (modify k f m)
  unfolding modify
  modify-Entries k f [] p h = tt
  modify-Entries k f ((j, w) ∷ m) p h = elim (Bool-cases (e.beq j k)) [
    | inl t ↦
        rw t (subst (λ x. P x (f w)) (sym ((e.beq_iff j k).0 t)) (p w), modify-Entries k f m p h.1)
    | inr n ↦ rw n (h.0, modify-Entries k f m p h.1)
  ]

  pub extend-Entries :
      (kvs : List (K × V)) (m : HashMap K V)
      → Entries P kvs
      → Entries P m
      → Entries P (extend kvs m)
  unfolding extend
  extend-Entries [] m p h = h
  extend-Entries ((k, v) ∷ kvs) m (p, ps) h =
      extend-Entries kvs (insert k v m) ps (insert-Entries k v m p h)

pub keyed-Entries :
    {K V : Type 0} (key : V → K) (vs : List V) → Entries (λ k v. key v ≡ k) (keyed key vs)
keyed-Entries key [] = tt
keyed-Entries key (v ∷ vs) = (refl, keyed-Entries key vs)
