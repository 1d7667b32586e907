-- ===== src/Voice/Gateway/Handshake.antt =====
-- voice/gateway.rs: `Gateway::connect`.
use discord_async_rs.Prelude.{
  ℕ, Bool, true, false, Option, none, some, String, List, [], ◌∷◌, Result, ok, err, ◌>>=◌, ok_or,
  map_err, ◌≡◌, ◌↔◌, inl, inr, refl, arith, Option-cases,
}
use discord_async_rs.Gateway.{GatewayApi, Error}
use discord_async_rs.Voice.Messages.{Credentials}
use discord_async_rs.Voice.Gateway.{VoiceApi, Command, Failure, url, opening}

abbrev pub Item : GatewayApi → VoiceApi → Type 0
Item A V = Result V.Event (Error A)

-- The outside of the connection.
pub record Wire (A : GatewayApi) (V : VoiceApi) : Type 0 where
  pub dial : String → Result (Unit {0}) (Error A)
  pub incoming : List (Item A V)
  pub send : Command → Result (Unit {0}) (Error A)

pub record Opened (A : GatewayApi) (V : VoiceApi) : Type 0 where
  pub heartbeat_interval : ℕ
  pub ready : Option V.Ready
  pub incoming : List (Item A V)

-- The event answers the first command: `Resumed`, or a `Ready`, which is kept.
abbrev pub IsAnswer : (V : VoiceApi) → Bool → V.Event → Option V.Ready → Type 0
IsAnswer V true e r = (V.expect_resumed e ≡ some tt) × (r ≡ none)
IsAnswer V false e r = (ready : V.Ready) × (V.expect_ready e ≡ some ready) × (r ≡ some ready)

module _ (A : GatewayApi) (V : VoiceApi) where
  -- The macro `read_command!`.
  unfoldable pub read_command :
      {T : Type 0}
      → (V.Event → Option T)
      → List (Item A V)
      → Result (T × List (Item A V)) (Failure A)
  read_command expect [] = err (Failure.gateway (Error.ws A.connection_closed))
  read_command expect (err e ∷ incoming) = err (Failure.gateway e)
  read_command expect (ok event ∷ incoming) =
      ok_or (expect event) Failure.unexpected_event >>= λ value. ok (value, incoming)

  -- The answer to `Resume`, or to `Identify`.
  unfoldable pub read_answer :
      Bool → List (Item A V) → Result (Option V.Ready × List (Item A V)) (Failure A)
  unfolding read_command
  read_answer true incoming =
      read_command V.expect_resumed incoming >>= λ (value, rest). ok (none, rest)
  read_answer false incoming =
      read_command V.expect_ready incoming >>= λ (value, rest). ok (some value, rest)

  unfoldable pub connect : Credentials → Bool → Wire A V → Result (Opened A V) (Failure A)
  unfolding read_command read_answer
  connect cred resume w = do
    _ ← map_err Failure.gateway (w.dial (url V cred.endpoint))
    (interval, rest) ← read_command V.expect_hello w.incoming
    _ ← map_err Failure.gateway (w.send (opening cred resume))
    (ready, rest') ← read_answer resume rest
    ok (record { heartbeat_interval = interval; ready = ready; incoming = rest' })

  -- The socket connects to the endpoint, takes the first command, and gives a `Hello` and an answer.
  abbrev pub Answers : Credentials → Bool → Wire A V → Opened A V → Type 0
  Answers cred resume w o =
      (hello : V.Event) × (answer : V.Event) × (w.dial (url V cred.endpoint) ≡ ok tt)
      × (w.incoming ≡ ok hello ∷ ok answer ∷ o.incoming)
      × (V.expect_hello hello ≡ some o.heartbeat_interval)
      × (w.send (opening cred resume) ≡ ok tt)
      × IsAnswer V resume answer o.ready

  connect_sound :
      (cred : Credentials) (resume : Bool) (w : Wire A V) (o : Opened A V) (is : List (Item A V))
      → w.incoming ≡ is
      → connect cred resume w ≡ ok o
      → Answers cred resume w o
  unfolding connect
  connect_sound cred r w o [] e h = ground arith
  connect_sound cred r w o (err x ∷ is) e h = ground arith
  connect_sound cred true w o (ok hello ∷ []) e h = ground arith
  connect_sound cred false w o (ok hello ∷ []) e h = ground arith
  connect_sound cred true w o (ok hello ∷ err x ∷ is) e h = ground arith
  connect_sound cred false w o (ok hello ∷ err x ∷ is) e h = ground arith
  connect_sound cred true w o (ok hello ∷ ok answer ∷ is) e h =
      (hello, answer, ground arith, ground arith, ground arith, ground arith, ground arith)
  connect_sound cred false w o (ok hello ∷ ok answer ∷ is) e h =
      elim (Option-cases (V.expect_ready answer)) [
        | inl n ↦ ground arith
        | inr (ready, n) ↦ (
          hello,
          answer,
          ground arith,
          ground arith,
          ground arith,
          ground arith,
          (ready, ground arith, ground arith),
        )
      ]

  connect_complete :
      (cred : Credentials) (resume : Bool) (w : Wire A V) (o : Opened A V)
      → Answers cred resume w o
      → connect cred resume w ≡ ok o
  unfolding connect
  connect_complete cred true w o (hello, answer, d, i, x, s, a) = ground arith
  connect_complete cred false w o (hello, answer, d, i, x, s, a) = ground arith

  -- The handshake succeeds exactly when the socket connects to the endpoint, the first item is a
  -- `Hello`, the first command is sent, and the next item is `Resumed` after `Resume` and a `Ready`
  -- after `Identify`. It then returns the interval, that `Ready` if there is one, and the unread
  -- items.
  pub voice_connect_exact :
      (cred : Credentials) (resume : Bool) (w : Wire A V) (o : Opened A V)
      → (connect cred resume w ≡ ok o) ↔ Answers cred resume w o
  voice_connect_exact cred resume w o =
      (connect_sound cred resume w o w.incoming refl, connect_complete cred resume w o)
