-- ===== src/Voice/System/Invariant.antt =====
-- voice/connection.rs and voice/socket.rs: what holds between the moves of a connection and its
-- socket.
use mathlib.Core.List.{append_assoc, append-nil}
use text.Mathlib.Text.{◌==◌}
use discord_async_rs.Prelude.{
  ℕ, Bool, true, false, Option, none, some, List, [], ◌++◌, length, ◌≡◌, ◌⊎◌, refl, sym, ap, ◌∙◌,
  inl, inr,
}
use discord_async_rs.Voice.Connection.{
  Ready, SessionDescription, GatewayEvent, encryption_mode, is_supported,
}
use discord_async_rs.Voice.Socket.{SocketApi}
use discord_async_rs.Voice.Socket.Nonces.{sequence_at, timestamp_at}
use discord_async_rs.Voice.Socket.Packets.{packets}
use discord_async_rs.Voice.Socket.Session.{Live}
use discord_async_rs.Voice.System.{Others, api, Task}

module _ (S : SocketApi) (E : Others) (seal : S.Key → List ℕ → List ℕ → List ℕ)
    (P : GatewayEvent (api S E) → Type 0) where
  -- An identifier from a `Ready` of the gateway with the encryption mode; a key from a description
  -- in it.
  abbrev pub Announced : ℕ → Type 0
  Announced ssrc =
      (r : Ready) × P (GatewayEvent.ready r) × (is_supported r.modes ≡ true) × (ssrc ≡ r.ssrc)

  abbrev pub Agreed : S.Key → Type 0
  Agreed k =
      (d : SessionDescription S.Key) × P (GatewayEvent.session_description d)
      × ((d.mode == encryption_mode) ≡ true)
      × (k ≡ d.secret_key)

  -- The packets are those of frames that were offered one after the other.
  abbrev pub Sent : List (List ℕ) → List (List ℕ) → Type 0
  Sent fs ps =
      (ps ≡ [])
      ⊎ ((ssrc : ℕ) × (k : S.Key) × (before : List (List ℕ)) × (done : List (List ℕ))
          × (after : List (List ℕ)) × Announced ssrc
          × Agreed k
          × (fs ≡ before ++ (done ++ after))
          × (ps ≡ packets (seal k) ssrc 0 done))

  -- The same of a socket in its loops, by its key.
  abbrev pub Runs : ℕ → Live S → Bool → List (List ℕ) → List (List ℕ) → Option S.Key → Type 0
  Runs ssrc l forwarded fs ps none = (ps ≡ []) × (l.sequence ≡ 0) × (l.timestamp ≡ 0)
  Runs ssrc l forwarded fs ps (some k) =
      Agreed k
      × ((before : List (List ℕ)) × (done : List (List ℕ)) × (fs ≡ before ++ done)
          × (ps ≡ packets (seal k) ssrc 0 done)
          × (l.sequence ≡ sequence_at (length done))
          × (l.timestamp ≡ timestamp_at (length done))
          × (forwarded ≡ false → done ≡ []))

  abbrev pub Holds : Bool → List (List ℕ) → List (List ℕ) → Task S → Type 0
  Holds forwarded fs ps Task.absent = ps ≡ []
  Holds forwarded fs ps (Task.asking server ssrc) = Announced ssrc × (ps ≡ [])
  Holds forwarded fs ps (Task.live ssrc l) = Announced ssrc × Runs ssrc l forwarded fs ps l.key
  Holds forwarded fs ps Task.over = Sent fs ps

  -- With frames that come to no socket under a key.
  pub grown-Sent : (fs more ps : List (List ℕ)) → Sent fs ps → Sent (fs ++ more) ps
  grown-Sent fs more ps (inl nothing) = inl nothing
  grown-Sent fs more ps (inr (ssrc, k, before, done, after, known, agreed, offered, sent)) = inr (
    ssrc,
    k,
    before,
    done,
    after ++ more,
    known,
    agreed,
    ap (λ xs. xs ++ more) offered
        ∙ append_assoc before (done ++ after) more
        ∙ ap (λ xs. before ++ xs) (append_assoc done after more),
    sent,
  )

  grown-Runs :
      (ssrc : ℕ) (l : Live S) (fs more ps : List (List ℕ)) (key : Option S.Key)
      → Runs ssrc l false fs ps key
      → Runs ssrc l false (fs ++ more) ps key
  grown-Runs ssrc l fs more ps none h = h
  grown-Runs ssrc l fs more ps (some k) (agreed, (before, done, offered, sent, eq, et, fresh)) =
      let none_yet : done ≡ [] = fresh refl in
      (
        agreed,
        (
          fs ++ more,
          [],
          sym (append-nil (fs ++ more)),
          sent ∙ ap (packets (seal k) ssrc 0) none_yet,
          eq ∙ ap (λ (d : List (List ℕ)). sequence_at (length d)) none_yet,
          et ∙ ap (λ (d : List (List ℕ)). timestamp_at (length d)) none_yet,
          λ e. refl,
        ),
      )

  pub grown-Holds :
      (fs more ps : List (List ℕ)) (t : Task S)
      → Holds false fs ps t
      → Holds false (fs ++ more) ps t
  grown-Holds fs more ps Task.absent h = h
  grown-Holds fs more ps (Task.asking server ssrc) h = h
  grown-Holds fs more ps (Task.live ssrc l) h = (h.0, grown-Runs ssrc l fs more ps l.key h.1)
  grown-Holds fs more ps Task.over h = grown-Sent fs more ps h

  pub live-Sent :
      (ssrc : ℕ) (l : Live S) (fw : Bool) (fs more ps : List (List ℕ))
      → Holds fw fs ps (Task.live ssrc l)
      → Sent (fs ++ more) ps
  live-Sent ssrc l fw fs more ps h = by_key l.key h.0 h.1
    where
      by_key :
          (key : Option S.Key) → Announced ssrc → Runs ssrc l fw fs ps key → Sent (fs ++ more) ps
      by_key none known h = inl h.0
      by_key (some k) known (agreed, (before, done, offered, sent, eq, et, fresh)) = inr (
        ssrc,
        k,
        before,
        done,
        more,
        known,
        agreed,
        ap (λ xs. xs ++ more) offered ∙ append_assoc before done more,
        sent,
      )
