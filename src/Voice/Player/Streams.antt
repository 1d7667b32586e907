-- ===== src/Voice/Player/Streams.antt =====
-- voice/player.rs: the events fit what the listener was told before, and no stream is lost.
use discord_async_rs.Prelude.{
  Bool, true, false, Option, none, some, is_some, ◌≡◌, ◌⊎◌, refl, subst, arith, List, [], ◌∷◌, inl,
  inr,
}
use mathlib.Core.Option.{some-injective}
use discord_async_rs.Voice.Messages.{Control, Update, Event, ConnectionEvent, is_connected}
use discord_async_rs.Voice.Player.Run.{on_conn_event, on_encoded, on_timeout, step, IsEnabled}
use discord_async_rs.Voice.Player.Invariant.{Inv, slots}
use discord_async_rs.Voice.Player.{
  PlayerApi, Player, Effect, Effects, Input, Encoded, on_update, on_control,
}

-- What the listener may be told next, and whether it then takes the player to be connected.
abbrev pub told : {S : Type 0} → Bool → Event S → Option Bool
told up (Event.connected c) = some true
told true Event.playing = some true
told true Event.finished = some true
told up (Event.stopped s) = some up
told true (Event.disconnected s) = some false
told true (Event.reconnecting s) = some false
told false Event.connect_error = some false
told _ _ = none

abbrev pub told_all : {O F S : Type 0} → Bool → List (Effect O F S) → Option Bool
told_all up [] = some up
told_all up (Effect.emit e ∷ out) = elim (told up e) [ none ↦ none | some up' ↦ told_all up' out ]
told_all up (Effect.command c ∷ out) = told_all up out
told_all up (Effect.spawn c ∷ out) = told_all up out
told_all up (Effect.forward c f ∷ out) = told_all up out

-- The effects hand the stream back to the listener.
abbrev pub Returns : {O F S : Type 0} → O → List (Effect O F S) → Type 0
Returns s [] = ⊥
Returns s (Effect.emit (Event.stopped t) ∷ out) = t ≡ s
Returns s (Effect.emit (Event.disconnected t) ∷ out) = t ≡ some s
Returns s (Effect.emit (Event.reconnecting t) ∷ out) = t ≡ some s
Returns s (_ ∷ out) = Returns s out

module _ {A : PlayerApi} where
  -- The encoder still holds the stream, or the effects hand it back.
  abbrev pub Keeps : A.OpusStream → Player A × Effects A → Type 0
  Keeps s r = ((A.take A.OpusStream r.0.encoder).0 ≡ some s) ⊎ Returns s r.1

  on_update-Keeps :
      (s : A.OpusStream) (u : Update) (p : Player A)
      → Inv p
      → (A.take A.OpusStream p.encoder).0 ≡ some s
      → Keeps s (on_update u p)
  unfolding on_update
  on_update-Keeps s (Update.voice_state_update u) p v h = ground (arith, slots p)
  on_update-Keeps s u p v h = ground (arith, slots p)

  on_update-told :
      (u : Update) (p : Player A)
      → Inv p
      → told_all (is_connected p.state) (on_update u p).1
        ≡ some (is_connected (on_update u p).0.state)
  unfolding on_update
  on_update-told (Update.voice_state_update u) p v = ground (arith, slots p)
  on_update-told u p v = ground (arith, slots p)

  on_control-told :
      (c : Control A.OpusStream) (p : Player A)
      → Inv p
      → told_all (is_connected p.state) (on_control c p).1
        ≡ some (is_connected (on_control c p).0.state)
  unfolding on_control
  on_control-told (Control.connect c) p v = ground (arith, slots p)
  on_control-told c p v = ground (arith, slots p)

  on_timeout-told :
      (p : Player A)
      → Inv p
      → told_all (is_connected p.state) (on_timeout p).1
        ≡ some (is_connected (on_timeout p).0.state)
  unfolding on_timeout
  on_timeout-told p v = ground (arith, slots p)

  on_close-told :
      (p : Player A)
      → Inv p
      → told_all (is_connected p.state) (on_conn_event none p).1
        ≡ some (is_connected (on_conn_event none p).0.state)
  unfolding on_conn_event
  on_close-told p v = ground (arith, slots p)

  on_conn_event-told :
      (e : ConnectionEvent A.FrameSender) (p : Player A)
      → Inv p
      → is_some p.channel_id ≡ true
      → told_all (is_connected p.state) (on_conn_event (some e) p).1
        ≡ some (is_connected (on_conn_event (some e) p).0.state)
  unfolding on_conn_event
  on_conn_event-told ConnectionEvent.connected p v k = refl
  on_conn_event-told e p v k = ground (arith, slots p)

  on_encoded-told :
      (f : Encoded A.Frame) (p : Player A)
      → Inv p
      → is_some (A.take A.OpusStream p.encoder).0 ≡ true
      → told_all (is_connected p.state) (on_encoded f p).1
        ≡ some (is_connected (on_encoded f p).0.state)
  unfolding on_encoded is_connected
  on_encoded-told Encoded.failed p v h = refl
  on_encoded-told f p v h = ground (arith, slots p)

  -- A connection that hands over its frame sender finds the channel known.
  abbrev pub KnowsChannel : Player A → Input A.OpusStream A.Frame A.FrameSender → Type 0
  KnowsChannel p (Input.conn_event (some e)) = is_some p.channel_id ≡ true
  KnowsChannel p _ = Unit

  -- In each round, the events fit what the listener was told so far, and tell it whether the
  -- player is then connected, provided that the channel is known when a connection reports: no
  -- disconnection, playing or end of a stream is told while it takes the player to be
  -- disconnected, and no connect error while it takes it to be connected.
  pub step-told :
      (i : Input A.OpusStream A.Frame A.FrameSender) (p q : Player A) (out : Effects A)
      → Inv p
      → IsEnabled p i
      → KnowsChannel p i
      → step i p ≡ some (q, out)
      → told_all (is_connected p.state) out ≡ some (is_connected q.state)
  unfolding step
  step-told (Input.update none) p q out v h k e = cc
  step-told (Input.update (some u)) p q out v h k e = ground (arith, on_update-told u p v)
  step-told (Input.control none) p q out v h k e = cc
  step-told (Input.control (some c)) p q out v h k e = ground (arith, on_control-told c p v)
  step-told (Input.conn_event none) p q out v h k e = ground (arith, on_close-told p v)
  step-told (Input.conn_event (some c)) p q out v h k e = ground (arith, on_conn_event-told c p v k)
  step-told (Input.encoder f) p q out v h k e = ground (arith, on_encoded-told f p v h)
  step-told Input.timeout p q out v h k e = ground (arith, on_timeout-told p v)

  module _ (s : A.OpusStream) (p : Player A) (v : Inv p)
      (h : (A.take A.OpusStream p.encoder).0 ≡ some s) where
    on_control-Keeps :
        (c : Control A.OpusStream)
        → Keeps s (on_control c p) ⊎ ((t : A.OpusStream) × (c ≡ Control.play t))
    unfolding on_control
    on_control-Keeps (Control.play t) = inr (t, refl)
    on_control-Keeps c = inl (ground (arith, slots p))

    on_conn_event-Keeps : (e : Option (ConnectionEvent A.FrameSender)) → Keeps s (on_conn_event e p)
    unfolding on_conn_event
    on_conn_event-Keeps (some ConnectionEvent.connected) = inl h
    on_conn_event-Keeps e = ground (arith, slots p)

    on_timeout-Keeps : Keeps s (on_timeout p)
    unfolding on_timeout
    on_timeout-Keeps = ground (arith, slots p)

    -- The stream that is being played stays in the encoder or is handed back in the round's
    -- events, unless the stream itself ended or another one was given to play.
    pub step-Keeps :
        (i : Input A.OpusStream A.Frame A.FrameSender) (q : Player A) (out : Effects A)
        → step i p ≡ some (q, out)
        → Keeps s (q, out)
          ⊎ (i ≡ Input.encoder Encoded.finished)
          ⊎ ((t : A.OpusStream) × (i ≡ Input.control (some (Control.play t))))
    unfolding step on_encoded
    step-Keeps (Input.update none) q out e = cc
    step-Keeps (Input.update (some u)) q out e =
        inl (subst (Keeps s) (some-injective _ _ e) (on_update-Keeps s u p v h))
    step-Keeps (Input.control none) q out e = cc
    step-Keeps (Input.control (some c)) q out e = elim (on_control-Keeps c) [
      | inl k ↦ inl (subst (Keeps s) (some-injective _ _ e) k)
      | inr (t, e') ↦ inr (inr (t, rw e'))
    ]
    step-Keeps (Input.conn_event c) q out e =
        inl (subst (Keeps s) (some-injective _ _ e) (on_conn_event-Keeps c))
    step-Keeps (Input.encoder (Encoded.frame f)) q out e =
        inl (subst (Keeps s) (some-injective _ _ e) (inl h))
    step-Keeps (Input.encoder Encoded.failed) q out e =
        inl (subst (Keeps s) (some-injective _ _ e) (inl h))
    step-Keeps (Input.encoder Encoded.finished) q out e = inr (inl refl)
    step-Keeps Input.timeout q out e = inl (subst (Keeps s) (some-injective _ _ e) on_timeout-Keeps)
