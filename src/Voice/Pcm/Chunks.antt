-- ===== src/Voice/Pcm/Chunks.antt =====
-- voice/pcm.rs under tokio's `FramedRead`: the frames do not depend on how the bytes arrive.
use discord_async_rs.Prelude.{
  ℕ, zero, suc, none, some, Option, List, [], ◌∷◌, ◌++◌, length, All, All-append, ◌*◌, ◌≡◌, ◌<◌,
  ◌≤◌, refl, arith, ap, sym, subst, ◌∙◌, length-append,
}
use mathlib.Core.List.{append_assoc, append-nil}
use discord_async_rs.Voice.Pcm.{decode, decode_eof}
use discord_async_rs.Voice.Pcm.Frames.{decode_all, decode_all_lem, flat, Splits}

-- A decoder of the crate tokio_util: the frame, if the bytes hold one, and the bytes that are left.
abbrev pub Decoder : Type 0
Decoder = List ℕ → Option (List ℕ) × List ℕ

-- A decoder, until it gives nothing.
unfoldable pub drain : Decoder → ℕ → List ℕ → List (List ℕ) × List ℕ
drain d zero buf = ([], buf)
drain d (suc fuel) buf =
    let rest = drain d fuel (d buf).1 in
    elim (d buf).0 [ none ↦ ([], (d buf).1) | some f ↦ (f ∷ rest.0, rest.1) ]

-- As `FramedRead` is documented: each chunk goes behind the bytes that are left, and is decoded
-- until nothing comes; at the end of the chunks the same with `decode_eof`.
unfoldable pub framed_read : Decoder → Decoder → List (List ℕ) → List ℕ → List (List ℕ) × List ℕ
framed_read d eof [] buf = drain eof (suc (length buf)) buf
framed_read d eof (chunk ∷ chunks) buf =
    let (frames, left) = drain d (suc (length (buf ++ chunk))) (buf ++ chunk) in
    let (later, end) = framed_read d eof chunks left in (frames ++ later, end)

decode_eof-decode : (size : ℕ) (buf : List ℕ) → decode_eof size buf ≡ decode size buf
unfolding decode_eof
decode_eof-decode size buf = ground arith

decode-none : (size : ℕ) (buf : List ℕ) → (decode size buf).0 ≡ none → (decode size buf).1 ≡ buf
unfolding decode
decode-none size buf e = ground arith

drain-decode_all :
    (fuel size : ℕ) (buf : List ℕ) → drain (decode size) fuel buf ≡ decode_all fuel size buf
unfolding drain decode_all
drain-decode_all zero size buf = refl
drain-decode_all (suc fuel) size buf =
    ground (arith, decode-none size buf, drain-decode_all fuel size (decode size buf).1)

drain-decode_eof :
    (fuel size : ℕ) (buf : List ℕ) → drain (decode_eof size) fuel buf ≡ drain (decode size) fuel buf
unfolding drain
drain-decode_eof zero size buf = refl
drain-decode_eof (suc fuel) size buf =
    ground (arith, decode_eof-decode size buf, drain-decode_eof fuel size (decode size buf).1)

drain-Splits :
    (size : ℕ) (buf : List ℕ)
    → 1 ≤ size
    → Splits size buf (drain (decode size) (suc (length buf)) buf)
drain-Splits size buf h =
    subst (Splits size buf) (sym (drain-decode_all (suc (length buf)) size buf))
      (decode_all_lem (suc (length buf)) size buf h (omega arith))

flat-append : (xs ys : List (List ℕ)) → flat (xs ++ ys) ≡ flat xs ++ flat ys
flat-append [] ys = refl
flat-append (x ∷ xs) ys =
    ap (λ z. x ++ z) (flat-append xs ys) ∙ sym (append_assoc x (flat xs) (flat ys))

framed_read-Splits :
    (size : ℕ) (chunks : List (List ℕ)) (buf : List ℕ)
    → 1 ≤ size
    → Splits size (buf ++ flat chunks) (framed_read (decode size) (decode_eof size) chunks buf)
unfolding framed_read
framed_read-Splits size [] buf h =
    let (whole, sizes, less) =
      subst (Splits size buf) (sym (drain-decode_eof (suc (length buf)) size buf))
        (drain-Splits size buf h) in
    (whole ∙ sym (append-nil buf), sizes, less)
framed_read-Splits size (c ∷ cs) buf h =
    let r = drain (decode size) (suc (length (buf ++ c))) (buf ++ c) in
    let (whole, sizes, less) = drain-Splits size (buf ++ c) h in
    let later = framed_read (decode size) (decode_eof size) cs r.1 in
    let (whole', sizes', less') = framed_read-Splits size cs r.1 h in
    (
      ap (λ z. z ++ later.1) (flat-append r.0 later.0)
          ∙ (append_assoc (flat r.0) (flat later.0) later.1
              ∙ (ap (λ z. flat r.0 ++ z) whole'
                  ∙ (sym (append_assoc (flat r.0) r.1 (flat cs))
                      ∙ (ap (λ z. z ++ flat cs) whole ∙ append_assoc buf c (flat cs))))),
      All-append (λ f. length f ≡ 2 * size) r.0 later.0 sizes sizes',
      less',
    )

-- Two lists that go on behind parts of one length.
append-injective :
    (xs ys as' bs : List ℕ) → length xs ≡ length ys → xs ++ as' ≡ ys ++ bs → (xs ≡ ys) × (as' ≡ bs)
append-injective [] [] as' bs l e = (refl, e)
append-injective [] (y ∷ ys) as' bs l e = absurd (omega (arith, l))
append-injective (x ∷ xs) [] as' bs l e = absurd (omega (arith, l))
append-injective (x ∷ xs) (y ∷ ys) as' bs l e = ground (arith, append-injective xs ys as' bs)

flat-long : (f : List ℕ) (fs : List (List ℕ)) (r : List ℕ) → length f ≤ length (flat (f ∷ fs) ++ r)
flat-long f fs r = omega (arith, length-append (f ++ flat fs) r, length-append f (flat fs))

Splits-unique :
    (size : ℕ) (fs gs : List (List ℕ)) (r s : List ℕ)
    → flat fs ++ r ≡ flat gs ++ s
    → All (λ f. length f ≡ 2 * size) fs
    → All (λ f. length f ≡ 2 * size) gs
    → length r < 2 * size
    → length s < 2 * size
    → fs ≡ gs
Splits-unique size [] [] r s e hf hg lr ls = refl
Splits-unique size [] (g ∷ gs) r s e hf hg lr ls =
    absurd (omega (arith, ap length e, flat-long g gs s, hg.0))
Splits-unique size (f ∷ fs) [] r s e hf hg lr ls =
    absurd (omega (arith, ap length e, flat-long f fs r, hf.0))
Splits-unique size (f ∷ fs) (g ∷ gs) r s e hf hg lr ls =
    let e' : f ++ (flat fs ++ r) ≡ g ++ (flat gs ++ s) =
      sym (append_assoc f (flat fs) r) ∙ (e ∙ append_assoc g (flat gs) s) in
    let (same, rest) =
      append-injective f g (flat fs ++ r) (flat gs ++ s) (omega (arith, hf.0, hg.0)) e' in
    let later = Splits-unique size fs gs r s rest hf.1 hg.1 lr ls in cc

-- However the bytes of a source arrive in chunks, its frames are those of all its bytes: cut into
-- frames of the size of the codec, without what is left in the end.
pub framed_read-decode_all :
    (size : ℕ) (chunks : List (List ℕ))
    → 1 ≤ size
    → (framed_read (decode size) (decode_eof size) chunks []).0
      ≡ (decode_all (suc (length (flat chunks))) size (flat chunks)).0
framed_read-decode_all size chunks h =
    let r = framed_read (decode size) (decode_eof size) chunks [] in
    let s = decode_all (suc (length (flat chunks))) size (flat chunks) in
    let (whole, sizes, less) = framed_read-Splits size chunks [] h in
    let (whole', sizes', less') =
      decode_all_lem (suc (length (flat chunks))) size (flat chunks) h (omega arith) in
    Splits-unique size r.0 s.0 r.1 s.1 (whole ∙ sym whole') sizes sizes' less less'
