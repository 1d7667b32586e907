-- ===== src/Voice/System/Sealed.antt =====
-- voice/connection.rs and voice/socket.rs: what packets a connection and its socket send.
use mathlib.Core.List.{append_assoc, append-nil}
use mathlib.Core.List.{Memᴰ}
use text.Mathlib.Text.{◌==◌}
use discord_async_rs.Prelude.{
  ℕ, Bool, true, none, some, List, [], ◌∷◌, ◌++◌, All, ◌≡◌, ◌⊎◌, refl, sym, ap, ◌∙◌, subst, inl,
  inr,
}
use discord_async_rs.Voice.Messages.{Credentials}
use discord_async_rs.Voice.Connection.{
  Ready, SessionDescription, GatewayEvent, encryption_mode, is_supported, new, start,
}
use discord_async_rs.Voice.Socket.{SocketApi}
use discord_async_rs.Voice.Socket.Packets.{Seals, packets}
use discord_async_rs.Voice.System.{Others, api, Task, System, Move, step, runs, begin}
use discord_async_rs.Voice.System.Invariant.{Holds, Sent, live-Sent}
use discord_async_rs.Voice.System.Turns.{after}
use discord_async_rs.Voice.System.Deliveries.{Safe}
use discord_async_rs.Voice.System.Outputs.{sent, offered, heard, sent-append}
use discord_async_rs.Voice.System.Moves.{still-Quiet, step-Behind}

module _ (S : SocketApi) (E : Others) (seal : S.Key → List ℕ → List ℕ → List ℕ)
    (law : (k : S.Key) → Seals S k (seal k)) (P : GatewayEvent (api S E) → Type 0) where
  offered-cons :
      (m : Move S E) (ms : List (Move S E)) → offered (m ∷ ms) ≡ offered (m ∷ []) ++ offered ms
  offered-cons (Move.gateway e server) ms = refl
  offered-cons Move.event ms = refl
  offered-cons (Move.ask o) ms = refl
  offered-cons (Move.read r) ms = refl
  offered-cons Move.key ms = refl
  offered-cons (Move.frame f is_sent) ms = refl
  offered-cons Move.frames_end ms = refl

  told-cons :
      (m : Move S E) (ms : List (Move S E))
      → All P (heard (m ∷ ms))
      → All P (heard (m ∷ [])) × All P (heard ms)
  told-cons (Move.gateway none server) ms h = (tt, h)
  told-cons (Move.gateway (some e) server) ms h = ((h.0, tt), h.1)
  told-cons Move.event ms h = (tt, h)
  told-cons (Move.ask o) ms h = (tt, h)
  told-cons (Move.read r) ms h = (tt, h)
  told-cons Move.key ms h = (tt, h)
  told-cons (Move.frame f is_sent) ms h = (tt, h)
  told-cons Move.frames_end ms h = (tt, h)

  runs-Safe :
      (ms : List (Move S E)) (s : System S E) (fs ps : List (List ℕ))
      → All P (heard ms)
      → Safe S E seal P fs ps s
      → Safe S E seal P (fs ++ offered ms) (ps ++ sent (runs ms s).1) (runs ms s).0
  unfolding runs
  runs-Safe [] s fs ps told safe = still-Quiet S E seal law P s fs ps safe
  runs-Safe (m ∷ ms) s fs ps told safe =
      let (one, rest) = told-cons m ms told in
      let (s', out) = step m s in
      let (s'', later) = runs ms s' in
      subst (λ fs. Safe S E seal P fs (ps ++ sent (out ++ later)) s'')
        (append_assoc fs (offered (m ∷ [])) (offered ms)
          ∙ ap (λ xs. fs ++ xs) (sym (offered-cons m ms)))
        (subst (λ ps. Safe S E seal P ((fs ++ offered (m ∷ [])) ++ offered ms) ps s'')
          (append_assoc ps (sent out) (sent later)
            ∙ ap (λ xs. ps ++ xs) (sym (sent-append out later)))
          (runs-Safe ms s' (fs ++ offered (m ∷ [])) (ps ++ sent out) rest
            (step-Behind S E seal law P m s fs ps one safe)))

  end-Sent :
      (task : Task S) (fw : Bool) (fs ps : List (List ℕ))
      → Holds S E seal P fw fs ps task
      → Sent S E seal P fs ps
  end-Sent Task.absent fw fs ps h = inl h
  end-Sent (Task.asking server ssrc) fw fs ps h = inl h.1
  end-Sent (Task.live ssrc l) fw fs ps h =
      subst (λ fs. Sent S E seal P fs ps) (append-nil fs)
        (live-Sent S E seal P ssrc l fw fs [] ps h)
  end-Sent Task.over fw fs ps h = h

  begin-Sent :
      (cred : Credentials) (ms : List (Move S E))
      → All P (heard ms)
      → Sent S E seal P (offered ms) (sent (runs ms (begin cred)).1)
  unfolding begin new start
  begin-Sent cred ms told =
      let s : System S E = (runs ms (begin cred)).0 in
      end-Sent s.task s.forwarded (offered ms) (sent (runs ms (begin cred)).1)
        (runs-Safe ms (begin cred) [] [] told ((tt, refl), tt, λ h. refl)).0.1

self-Memᴰ :
    {A : Type 0} (xs ys : List A) → ((x : A) → Memᴰ x xs → Memᴰ x ys) → All (λ x. Memᴰ x ys) xs
self-Memᴰ [] ys h = tt
self-Memᴰ (x ∷ xs) ys h = (h x (Memᴰ.head refl), self-Memᴰ xs ys (λ y m. h y (Memᴰ.tail m)))

-- If the cipher under each key always gives the text and a tag of 16 bytes: whatever the gateway,
-- the server and the player give, and in any order of the moves of a new connection and its socket,
-- no packet is sent, or there are a `Ready` of the gateway with the encryption mode and a
-- description of the session in it, and the packets are frames that were offered one after the
-- other, numbered from 0, each sealed with the key of the description behind a header with the
-- identifier of the `Ready`.
pub runs-sealed :
    (S : SocketApi) (E : Others) (seal : S.Key → List ℕ → List ℕ → List ℕ)
    → ((k : S.Key) → Seals S k (seal k))
    → (cred : Credentials) (ms : List (Move S E))
    → let out = sent (runs ms (begin cred)).1 in
      (out ≡ [])
      ⊎ ((r : Ready) × (d : SessionDescription S.Key) × (before : List (List ℕ)) × (done : List
            (List ℕ))
          × (after : List (List ℕ)) × Memᴰ (GatewayEvent.ready r) (heard ms)
          × (is_supported r.modes ≡ true)
          × Memᴰ (GatewayEvent.session_description d) (heard ms)
          × ((d.mode == encryption_mode) ≡ true)
          × (offered ms ≡ before ++ (done ++ after))
          × (out ≡ packets (seal d.secret_key) r.ssrc 0 done))
runs-sealed S E seal law cred ms =
    elim (begin-Sent S E seal law (λ e. Memᴰ e (heard ms)) cred ms
      (self-Memᴰ (heard ms) (heard ms) (λ e m. m))) [
        | inl nothing ↦ inl nothing
        | inr
              (
                ssrc,
                k,
                before,
                done,
                after,
                (r, heard, supported, eq),
                (d, told, mode, ek),
                offers,
                sends,
              ) ↦
            inr (
              r,
              d,
              before,
              done,
              after,
              heard,
              supported,
              told,
              mode,
              offers,
              sends
                  ∙ ap (λ k. packets (seal k) ssrc 0 done) ek
                  ∙ ap (λ n. packets (seal d.secret_key) n 0 done) eq,
            )
      ]
