-- ===== src/Voice/Pcm/Frames.antt =====
-- voice/pcm.rs: the frames of all the bytes of a source.
use discord_async_rs.Prelude.{
  ℕ, zero, suc, Bool, true, false, none, some, List, [], ◌∷◌, ◌++◌, length, take, drop, All,
  if◌then◌else◌, ◌*◌, ◌≡◌, ◌<◌, ◌≤◌, refl, arith, ap, sym, subst, ◌∙◌, inl, inr, ◌⊎◌,
  take-append-drop, length-take, length-drop,
}
use mathlib.Core.List.{append_assoc}
use discord_async_rs.Voice.Pcm.{decode, frame_sample_size}

-- `decode`, until it gives no frame; each frame takes at least a byte, so that the fuel of one
-- more than the bytes is enough.
unfoldable pub decode_all : ℕ → ℕ → List ℕ → List (List ℕ) × List ℕ
unfolding decode
decode_all zero size src = ([], src)
decode_all (suc fuel) size src =
    let rest = decode_all fuel size (decode size src).1 in
    elim (decode size src).0 [ none ↦ ([], src) | some f ↦ (f ∷ rest.0, rest.1) ]

abbrev pub flat : List (List ℕ) → List ℕ
flat [] = []
flat (f ∷ fs) = f ++ flat fs

-- The frames and the rest are the bytes, the frames have the size of a frame, and the rest is
-- shorter.
abbrev pub Splits : ℕ → List ℕ → List (List ℕ) × List ℕ → Type 0
Splits size src r =
    (flat r.0 ++ r.1 ≡ src) × All (λ f. length f ≡ 2 * size) r.0 × (length r.1 < 2 * size)

enough : (size : ℕ) (src : List ℕ) → (length src < 2 * size) ⊎ (2 * size ≤ length src)
enough size src = omega arith

decode_short : (size : ℕ) (src : List ℕ) → length src < 2 * size → decode size src ≡ (none, src)
unfolding decode
decode_short size src h = ground arith

decode_long :
    (size : ℕ) (src : List ℕ)
    → 2 * size ≤ length src
    → decode size src ≡ (some (take (2 * size) src), drop (2 * size) src)
unfolding decode
decode_long size src h = ground arith

decode_all_short :
    (fuel size : ℕ) (src : List ℕ)
    → length src < 2 * size
    → decode_all (suc fuel) size src ≡ ([], src)
unfolding decode_all
decode_all_short fuel size src h =
    ap
      (λ d. elim d.0 [
        | none ↦ ([], src)
        | some f ↦ (f ∷ (decode_all fuel size d.1).0, (decode_all fuel size d.1).1)
      ])
      (decode_short size src h)

decode_all_long :
    (fuel size : ℕ) (src : List ℕ)
    → 2 * size ≤ length src
    → let r = decode_all fuel size (drop (2 * size) src) in
      decode_all (suc fuel) size src ≡ (take (2 * size) src ∷ r.0, r.1)
unfolding decode_all
decode_all_long fuel size src h =
    ap
      (λ d. elim d.0 [
        | none ↦ ([], src)
        | some f ↦ (f ∷ (decode_all fuel size d.1).0, (decode_all fuel size d.1).1)
      ])
      (decode_long size src h)

pub decode_all_lem :
    (fuel size : ℕ) (src : List ℕ)
    → 1 ≤ size
    → length src < fuel
    → Splits size src (decode_all fuel size src)
decode_all_lem zero size src h l = absurd (omega arith)
decode_all_lem (suc fuel) size src h l = elim (enough size src) [
  | inl k ↦ subst (Splits size src) (sym (decode_all_short fuel size src k)) (refl, tt, k)
  | inr k ↦
      let rest = drop (2 * size) src in
      let r = decode_all fuel size rest in
      let (whole, sizes, less) =
        decode_all_lem fuel size rest h (omega (arith, length-drop (2 * size) src)) in
      subst (Splits size src) (sym (decode_all_long fuel size src k)) (
        append_assoc (take (2 * size) src) (flat r.0) r.1
            ∙ (ap (λ x. take (2 * size) src ++ x) whole ∙ take-append-drop (2 * size) src),
        (omega (arith, length-take (2 * size) src), sizes),
        less,
      )
]

-- Decoded until no frame is left, the bytes of a mono or stereo source are cut into frames of 20
-- milliseconds, 960 samples of two bytes for a channel, with less than a frame left; nothing is
-- lost or reordered, and one step more than the number of bytes is enough.
pub decode_all-Splits :
    (stereo : Bool) (src : List ℕ)
    → Splits
        (if stereo then 1920 else 960)
        src
        (decode_all (suc (length src)) (frame_sample_size stereo) src)
unfolding frame_sample_size
decode_all-Splits true src = decode_all_lem (suc (length src)) 1920 src (omega arith) (omega arith)
decode_all-Splits false src = decode_all_lem (suc (length src)) 960 src (omega arith) (omega arith)
