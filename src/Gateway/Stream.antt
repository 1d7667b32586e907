-- ===== src/Gateway/Stream.antt =====
-- gateway.rs: the fused stream `Gateway`, over any connection; voice/gateway.rs has the same code.
use discord_async_rs.Prelude.{
  ℕ, zero, suc, Bool, true, false, Option, none, some, List, [], ◌∷◌, map, Result, ok, err, ◌≡◌,
  refl, arith, if◌then◌else◌, Bool-cases, inl, inr,
}

pub data Poll {ℓ} (A : Type ℓ) : Type ℓ where
  ready : A → Poll A
  pending : Poll A

-- The inner connection, polled, and which of its errors come from the socket.
pub record Inner : Type 1 where
  pub Conn : Type 0
  pub Item : Type 0
  pub Failure : Type 0
  pub is_ws : Failure → Bool
  pub poll_next : Conn → Poll (Option (Result Item Failure)) × Conn

abbrev pub Polled : Inner → Type 0
Polled I = Poll (Option (Result I.Item I.Failure))

pub record Gateway (I : Inner) : Type 0 where
  pub conn : I.Conn
  pub finished : Bool

-- `None`, or an error of the socket, ends the stream.
unfoldable pub ends : (I : Inner) → Polled I → Bool
ends I (ready none) = true
ends I (ready (some (err e))) = I.is_ws e
ends I (ready (some (ok a))) = false
ends I pending = false

module _ {I : Inner} where
  unfoldable pub poll_next : Gateway I → Polled I × Gateway I
  poll_next g =
      if g.finished
      then (ready none, g)
      else (let (res, conn) = I.poll_next g.conn in
          (res, record { conn = conn; finished = ends I res }))

  pub is_terminated : Gateway I → Bool
  is_terminated g = g.finished

  -- The results of polling so many times.
  unfoldable pub polls : ℕ → Gateway I → List (Polled I)
  unfolding poll_next
  polls zero g = []
  polls (suc n) g = (poll_next g).0 ∷ polls n (poll_next g).1

-- The results of polling the connection itself, cut behind the first that ends the stream and
-- continued by `None`.
unfoldable pub conn_polls : (I : Inner) → ℕ → I.Conn → List (Polled I)
conn_polls I zero conn = []
conn_polls I (suc n) conn = (I.poll_next conn).0 ∷ conn_polls I n (I.poll_next conn).1

unfoldable pub cut : (I : Inner) → List (Polled I) → List (Polled I)
cut I [] = []
cut I (r ∷ rs) = r ∷ (if ends I r then map (λ _. ready none) rs else cut I rs)

module _ {I : Inner} where
  polls-finished :
      (n : ℕ) (g : Gateway I) (conn : I.Conn)
      → g.finished ≡ true
      → polls n g ≡ map (λ _. ready none) (conn_polls I n conn)
  unfolding polls conn_polls
  polls-finished zero g conn e = refl
  polls-finished (suc n) g conn e = ground (arith, polls-finished n g (I.poll_next conn).1 e)

  -- Polling the gateway gives what polling its connection gives, up to and with the first `None`
  -- or error of the socket; from then on it gives `None`, and the connection is not polled.
  pub polls-cut :
      (n : ℕ) (g : Gateway I) → g.finished ≡ false → polls n g ≡ cut I (conn_polls I n g.conn)
  unfolding polls conn_polls cut
  polls-cut zero g e = refl
  polls-cut (suc n) g e =
      let res = (I.poll_next g.conn).0 in
      let conn = (I.poll_next g.conn).1 in
      elim (Bool-cases (ends I res)) [
        | inl over ↦
            ground (arith, polls-finished n (record { conn = conn; finished = true }) conn refl)
        | inr more ↦ ground (arith, polls-cut n (record { conn = conn; finished = false }) refl)
      ]
