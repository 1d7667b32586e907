-- ===== src/Voice/System/Turns.antt =====
-- voice/socket.rs: what a turn of the socket keeps.
use mathlib.Core.List.{append_assoc, append-nil}
use discord_async_rs.Prelude.{
  ℕ, suc, Bool, true, false, Option, none, some, List, [], ◌∷◌, ◌++◌, length, length-append, ◌+◌,
  ok, err, Result, ok_injective, if◌then◌else◌, ◌≡◌, ◌⊎◌, refl, sym, ap, ◌∙◌, inl, inr, arith,
}
use discord_async_rs.Voice.Connection.{GatewayEvent}
use discord_async_rs.Voice.Socket.{
  SocketApi, Error, header, seal_packet, next_sequence, next_timestamp,
}
use discord_async_rs.Voice.Socket.Nonces.{sequence_at, timestamp_at, nonce_at}
use discord_async_rs.Voice.Socket.Packets.{Seals, packets}
use discord_async_rs.Voice.Socket.Session.{Live, Turn, Effect, Outcome, send_frame, turn}
use discord_async_rs.Voice.Socket.Session.Sealed.{packets_of, frames, seal_packet-cases}
use discord_async_rs.Voice.System.{Others, api, Task}
use discord_async_rs.Voice.System.Invariant.{Announced, Agreed, Sent, Holds, live-Sent}

packets-append :
    (seal : List ℕ → List ℕ → List ℕ) (ssrc i j : ℕ) (fs : List (List ℕ)) (f : List ℕ)
    → j ≡ length fs + i
    → packets seal ssrc i (fs ++ f ∷ []) ≡ packets seal ssrc i fs ++ packets seal ssrc j (f ∷ [])
packets-append seal ssrc i j [] f e =
    ap (λ n. packets seal ssrc n (f ∷ [])) (let h : i ≡ j = omega arith in h)
packets-append seal ssrc i j (g ∷ fs) f e =
    ap (λ ps. (header ssrc (sequence_at i) (timestamp_at i) ++ seal (nonce_at ssrc i) g) ∷ ps)
      (packets-append seal ssrc (suc i) j fs f (omega arith))

module _ (S : SocketApi) (E : Others) (seal : S.Key → List ℕ → List ℕ → List ℕ)
    (P : GatewayEvent (api S E) → Type 0) where
  -- What a turn leaves of the task.
  abbrev pub after : ℕ → Live S × List (Effect S) × Outcome → Task S
  after ssrc r = elim r.2 [ none ↦ Task.live ssrc r.0 | some _ ↦ Task.over ]

  -- What a turn needs: a key that is agreed, a frame that comes through the sender.
  abbrev pub Fits : Bool → Turn S → Type 0
  Fits forwarded (Turn.key (some k) taken) = Agreed S E seal P k
  Fits forwarded (Turn.frame f is_sent) = forwarded ≡ true
  Fits forwarded t = Unit

  -- Without new frames and packets.
  idle-Holds :
      (ssrc : ℕ) (l : Live S) (fw : Bool) (fs ps : List (List ℕ))
      → Holds S E seal P fw fs ps (Task.live ssrc l)
      → Holds S E seal P fw (fs ++ []) (ps ++ []) (Task.live ssrc l)
  idle-Holds ssrc l fw fs ps h = rw (append-nil fs, append-nil ps) h

  over-Holds :
      (ssrc : ℕ) (l : Live S) (fw : Bool) (fs more ps : List (List ℕ))
      → Holds S E seal P fw fs ps (Task.live ssrc l)
      → Sent S E seal P (fs ++ more) (ps ++ [])
  over-Holds ssrc l fw fs more ps h =
      rw (append-nil ps) (live-Sent S E seal P ssrc l fw fs more ps h)

  abbrev at : Option S.Key → ℕ → ℕ → Live S
  at key sequence timestamp = record { key = key; sequence = sequence; timestamp = timestamp }

  longer : (done : List (List ℕ)) (f : List ℕ) → suc (length done) ≡ length (done ++ f ∷ [])
  longer done f = omega (arith, length-append done (f ∷ []))

  -- What holds behind a turn.
  abbrev Next : ℕ → List (List ℕ) → List (List ℕ) → Live S × List (Effect S) × Outcome → Type 0
  Next ssrc fs ps r = Holds S E seal P true fs (ps ++ packets_of r.1) (after ssrc r)

  abbrev nth : S.Key → ℕ → Live S
  nth k i = at (some k) (sequence_at i) (timestamp_at i)

  -- What `send_frame` makes of the packet.
  abbrev by_seal : Bool → Live S → Result (List ℕ) Error → Live S × List (Effect S) × Outcome
  by_seal is_sent l r = elim r [
    | err e ↦ (l, [], some (err e))
    | ok p ↦
        if is_sent
        then (
          record l { sequence = next_sequence l.sequence; timestamp = next_timestamp l.timestamp },
          Effect.packet p ∷ [],
          none,
        )
        else (l, [], some (err Error.io))
  ]

  nth-Sent :
      (ssrc : ℕ) (k : S.Key) (before done : List (List ℕ)) (f : List ℕ)
      → Announced S E seal P ssrc
      → Agreed S E seal P k
      → Sent S E seal P ((before ++ done) ++ f ∷ []) (packets (seal k) ssrc 0 done ++ [])
  nth-Sent ssrc k before done f known agreed =
      over-Holds ssrc (nth k (length done)) true (before ++ done) (f ∷ [])
        (packets (seal k) ssrc 0 done)
        (known, (agreed, (before, done, refl, refl, refl, refl, λ e. ground arith)))

  -- The next frame, under a key.
  by_seal-Next :
      (ssrc : ℕ) (k : S.Key) (before done : List (List ℕ)) (f : List ℕ)
      → Announced S E seal P ssrc
      → Agreed S E seal P k
      → (is_sent : Bool) (r : Result (List ℕ) Error)
      → (r
          ≡ ok (
              header ssrc (sequence_at (length done)) (timestamp_at (length done))
              ++ seal k (nonce_at ssrc (length done)) f))
        ⊎ ((e : Error) × (r ≡ err e))
      → Next ssrc
          ((before ++ done) ++ f ∷ [])
          (packets (seal k) ssrc 0 done)
          (by_seal is_sent (nth k (length done)) r)
  by_seal-Next ssrc k before done f known agreed is_sent (err e) cases =
      nth-Sent ssrc k before done f known agreed
  by_seal-Next ssrc k before done f known agreed false (ok p) cases =
      nth-Sent ssrc k before done f known agreed
  by_seal-Next ssrc k before done f known agreed true (ok p) (inr (e, refused)) = ground arith
  by_seal-Next ssrc k before done f known agreed true (ok p) (inl sealed) = (
    known,
    (
      agreed,
      (
        before,
        done ++ f ∷ [],
        append_assoc before done (f ∷ []),
        ap (λ q. packets (seal k) ssrc 0 done ++ q ∷ []) (ok_injective sealed)
            ∙ sym (packets-append (seal k) ssrc 0 (length done) done f (omega arith)),
        ap sequence_at (longer done f),
        ap timestamp_at (longer done f),
        λ e. ground arith,
      ),
    ),
  )

  frame-Holds :
      (law : (k : S.Key) → Seals S k (seal k)) (f : List ℕ) (is_sent : Bool) (ssrc : ℕ)
      (key : Option S.Key) (q t : ℕ) (fs ps : List (List ℕ))
      → Holds S E seal P true fs ps (Task.live ssrc (at key q t))
      → Holds S E seal P true
          (fs ++ f ∷ [])
          (ps ++ packets_of (turn S ssrc (Turn.frame f is_sent) (at key q t)).1)
          (after ssrc (turn S ssrc (Turn.frame f is_sent) (at key q t)))
  unfolding turn send_frame
  frame-Holds law f is_sent ssrc none q t fs ps h = rw (append-nil ps) h
  frame-Holds law f is_sent ssrc (some k) q t fs ps
        (known, (agreed, (before, done, offered, sent, eq, et, fresh))) =
      rw (offered, sent, eq, et)
        (by_seal-Next ssrc k before done f known agreed is_sent
          (seal_packet S k ssrc (sequence_at (length done)) (timestamp_at (length done)) f)
          (seal_packet-cases S ssrc seal law k (length done) f))

  key-Holds :
      (given : Option S.Key) (taken : Bool) (ssrc : ℕ) (key : Option S.Key) (q t : ℕ) (fw : Bool)
      (fs ps : List (List ℕ))
      → Fits fw (Turn.key given taken)
      → Holds S E seal P fw fs ps (Task.live ssrc (at key q t))
      → Holds S E seal P fw
          (fs ++ [])
          (ps ++ packets_of (turn S ssrc (Turn.key given taken) (at key q t)).1)
          (after ssrc (turn S ssrc (Turn.key given taken) (at key q t)))
  unfolding turn
  key-Holds given taken ssrc (some k) q t fw fs ps fits h = rw (append-nil fs, append-nil ps) h
  key-Holds none taken ssrc none q t fw fs ps fits h = over-Holds ssrc (at none q t) fw fs [] ps h
  key-Holds (some k) true ssrc none q t fw fs ps fits
        (known, (no_packets, no_sequence, no_timestamp)) =
      (
        known,
        (fits, (fs, [], refl, rw (append-nil ps) no_packets, no_sequence, no_timestamp, λ e. refl)),
      )
  key-Holds (some k) false ssrc none q t fw fs ps fits h =
      over-Holds ssrc (at none q t) fw fs [] ps h

  end-Holds :
      (ssrc : ℕ) (key : Option S.Key) (q t : ℕ) (fw : Bool) (fs ps : List (List ℕ))
      → Holds S E seal P fw fs ps (Task.live ssrc (at key q t))
      → Holds S E seal P fw
          (fs ++ [])
          (ps ++ packets_of (turn S ssrc Turn.frames_end (at key q t)).1)
          (after ssrc (turn S ssrc Turn.frames_end (at key q t)))
  unfolding turn
  end-Holds ssrc none q t fw fs ps h = idle-Holds ssrc (at none q t) fw fs ps h
  end-Holds ssrc (some k) q t fw fs ps h = over-Holds ssrc (at (some k) q t) fw fs [] ps h

  pub turn-Holds :
      (law : (k : S.Key) → Seals S k (seal k)) (t : Turn S) (ssrc : ℕ) (l : Live S) (fw : Bool)
      (fs ps : List (List ℕ))
      → Fits fw t
      → Holds S E seal P fw fs ps (Task.live ssrc l)
      → Holds S E seal P fw
          (fs ++ frames (t ∷ []))
          (ps ++ packets_of (turn S ssrc t l).1)
          (after ssrc (turn S ssrc t l))
  unfolding turn send_frame
  turn-Holds law (Turn.read (err e) taken) ssrc l fw fs ps fits h = over-Holds ssrc l fw fs [] ps h
  turn-Holds law (Turn.read (ok len) true) ssrc l fw fs ps fits h = idle-Holds ssrc l fw fs ps h
  turn-Holds law (Turn.read (ok len) false) ssrc l fw fs ps fits h = over-Holds ssrc l fw fs [] ps h
  turn-Holds law (Turn.key given taken) ssrc l fw fs ps fits h =
      key-Holds given taken ssrc l.key l.sequence l.timestamp fw fs ps fits h
  turn-Holds law (Turn.frame f is_sent) ssrc l true fs ps fits h =
      frame-Holds law f is_sent ssrc l.key l.sequence l.timestamp fs ps h
  turn-Holds law (Turn.frame f is_sent) ssrc l false fs ps fits h = ground arith
  turn-Holds law Turn.frames_end ssrc l fw fs ps fits h =
      end-Holds ssrc l.key l.sequence l.timestamp fw fs ps h
