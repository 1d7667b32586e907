-- ===== src/Voice/Player/Connect.antt =====
-- voice/player.rs: when a connection is opened, and how connecting, moving, being kicked, outages
-- of the guild and shutting down go.
use discord_async_rs.Prelude.{
  ℕ, false, ◌&&◌, Option, none, some, if◌then◌else◌, String, ◌≡◌, ◌≢◌, ◌⊎◌, refl, sym, ap, ◌∙◌,
  arith, List, [], ◌∷◌, ◌++◌, Bool-cases, inl, inr,
}
use discord_async_rs.Voice.Messages.{
  Credentials, VoiceState, State, Control, Update, Event, ConnectionEvent, Listener, is_connecting,
  is_connected,
}
use discord_async_rs.Voice.Player.Run.{on_conn_event, step, run}
use discord_async_rs.Voice.Player.{
  PlayerApi, Player, Effect, Effects, Input, on_update, on_control, open_connection,
  server_credentials,
}

abbrev pub Inputs : PlayerApi → Type 0
Inputs A = List (Input A.OpusStream A.Frame A.FrameSender)

module _ {O F S : Type 0} where
  abbrev pub state_update : VoiceState → Input O F S
  state_update u = Input.update (some (Update.voice_state_update u))

  abbrev pub server_update : String → String → Input O F S
  server_update token endpoint =
      Input.update
        (some (Update.voice_server_update (record { token = token; endpoint = some endpoint })))

  abbrev pub sender : S → Input O F S
  sender s = Input.conn_event (some (ConnectionEvent.voice_frame_sender s))

module _ {A : PlayerApi} where
  -- The command to join a channel of the player's guild, or to leave.
  abbrev pub go_to : Player A → Option ℕ → Effect A.OpusStream A.Frame A.FrameSender
  go_to p c =
      Effect.command
        (record { guild_id = p.guild_id; channel_id = c; self_mute = false; self_deaf = false })

  abbrev pub IsOurs : Player A → VoiceState → Type 0
  IsOurs p u = (u.user_id ≡ p.user_id) × (u.guild_id ≡ some p.guild_id)

  -- What the listener is told when the connection is given up.
  abbrev pub parting : Player A → (Option A.OpusStream → Event A.OpusStream) → Effects A
  parting p e =
      if is_connected p.state then Effect.emit (e (A.take A.OpusStream p.encoder).0) ∷ [] else []

  -- A voice state of another user, or of another guild or of none, changes nothing.
  pub on_update-foreign :
      (u : VoiceState) (p : Player A)
      → (u.user_id ≢ p.user_id) ⊎ (u.guild_id ≢ some p.guild_id)
      → on_update (Update.voice_state_update u) p ≡ (p, [])
  unfolding on_update
  on_update-foreign u p h = ground arith

  abbrev pub Has : Player A → Credentials → Type 0
  Has p c =
      (c.guild_id ≡ p.guild_id)
      × (c.user_id ≡ p.user_id)
      × (p.session_id ≡ some c.session_id)
      × (p.token ≡ some c.token)
      × (p.endpoint ≡ some c.endpoint)

  abbrev pub Opens : Player A → Credentials → Type 0
  Opens p c =
      (p.state ≡ State.connecting) × ((A.take Listener p.conn_event_recv).0 ≡ none) × Has p c

  credentials_cases :
      (p : Player A) (sid token endpoint : Option String)
      → p.session_id ≡ sid
      → p.token ≡ token
      → p.endpoint ≡ endpoint
      → ((c : Credentials) × (server_credentials p ≡ some c) × Has p c)
        ⊎ ((server_credentials p ≡ none) × ((c : Credentials) → ¬ Has p c))
  unfolding server_credentials
  credentials_cases p (some a) (some b) (some d) e f g = inl (
    record { guild_id = p.guild_id; user_id = p.user_id; session_id = a; token = b; endpoint = d },
    ground arith,
    (refl, refl, e, f, g),
  )
  credentials_cases p none b d e f g = inr (ground arith, λ c h. cc (h.2))
  credentials_cases p (some a) none d e f g = inr (ground arith, λ c h. cc (h.3))
  credentials_cases p (some a) (some b) none e f g = inr (ground arith, λ c h. cc (h.4))

  -- A connection is opened exactly when the player is connecting, has none, and knows the session,
  -- the token and the endpoint; it gets these, and nothing else of the player changes.
  pub open_connection_exact :
      (p : Player A)
      → ((c : Credentials) × Opens p c
          × (open_connection p ≡ (
            record p { conn_event_recv = A.set Listener p.conn_event_recv (record { cred = c }) },
            Effect.spawn c ∷ [],
          )))
        ⊎ (((c : Credentials) → ¬ Opens p c) × (open_connection p ≡ (p, [])))
  unfolding open_connection
  open_connection_exact p =
      elim (credentials_cases p p.session_id p.token p.endpoint refl refl refl) [
        | inr (e, miss) ↦ inr (λ c h. miss c h.2, ground arith)
        | inl (c, e, has) ↦
            elim (Bool-cases (is_connecting p.state && A.is_empty Listener p.conn_event_recv)) [
              | inl t ↦
                  inl (c, ground (arith, A.is_empty-take Listener p.conn_event_recv), ground arith)
              | inr t ↦
                  inr (
                    λ c h. ground (arith, A.is_empty-take Listener p.conn_event_recv),
                    ground arith,
                  )
            ]
      ]

  -- Nothing of a previous connection is left.
  abbrev pub Fresh : Player A → Type 0
  Fresh p =
      (p.state ≡ State.connecting)
      × ((A.take Listener p.conn_event_recv).0 ≡ none)
      × (p.session_id ≡ none)
      × (p.token ≡ none)
      × (p.endpoint ≡ none)

  pub credentials_of : Player A → VoiceState → String → String → Credentials
  credentials_of p u token endpoint = record {
    guild_id = p.guild_id;
    user_id = p.user_id;
    session_id = u.session_id;
    token = token;
    endpoint = endpoint;
  }

  -- Over these branches the player comes to be connected to the channel, having opened one
  -- connection, told its listener, and handed out nothing else but `before`.
  pub Joins : Player A → Inputs A → ℕ → Credentials → A.FrameSender → Effects A → Type 0
  Joins p is c cred s before =
      let r = run is p in
      (r.0.state ≡ State.connected)
      × (r.0.channel_id ≡ some c)
      × (r.0.voice_send ≡ some s)
      × ((A.take Listener r.0.conn_event_recv).0 ≡ some (record { cred = cred }))
      × (r.1 ≡ before ++ Effect.spawn cred ∷ Effect.emit (Event.connected c) ∷ [])

  module _ (p : Player A) (u : VoiceState) (c : ℕ) (s : A.FrameSender) (token endpoint : String)
      (cred : Credentials) (mine : cred ≡ credentials_of p u token endpoint) where
    join_from_Fresh :
        Fresh p
        → IsOurs p u
        → u.channel_id ≡ some c
        → Joins p (state_update u ∷ server_update token endpoint ∷ sender s ∷ []) c cred s []
          × Joins p (server_update token endpoint ∷ state_update u ∷ sender s ∷ []) c cred s []
    unfolding Joins run step on_update on_conn_event credentials_of
    join_from_Fresh f o e = (
      ground (
        arith,
        A.is_empty-take Listener p.conn_event_recv,
        A.take-set Listener p.conn_event_recv (record { cred = cred }),
      ),
      ground (
        arith,
        A.is_empty-take Listener p.conn_event_recv,
        A.take-set Listener p.conn_event_recv (record { cred = cred }),
      ),
    )

  Joins-cons :
      (p q : Player A) (i : Input A.OpusStream A.Frame A.FrameSender) (is : Inputs A) (c : ℕ)
      (cred : Credentials) (s : A.FrameSender) (out : Effects A)
      → p.state ≢ State.shutdown
      → step i p ≡ some (q, out)
      → Joins q is c cred s []
      → Joins p (i ∷ is) c cred s out
  unfolding Joins run
  Joins-cons p q i is c cred s out live e j = ground arith

  connect-Fresh :
      (p : Player A) (c : ℕ)
      → (p.state ≢ State.connected) ⊎ (p.channel_id ≢ some c)
      → let q = (on_control (Control.connect c) p).0 in
        Fresh q × (q.guild_id ≡ p.guild_id) × (q.user_id ≡ p.user_id)
  unfolding on_control
  connect-Fresh p c h = ground (arith, A.take-clear Listener p.conn_event_recv)

  connect-before :
      (p : Player A) (c : ℕ)
      → (p.state ≢ State.connected) ⊎ (p.channel_id ≢ some c)
      → (on_control (Control.connect c) p).1 ≡ parting p Event.reconnecting ++ go_to p (some c) ∷ []
  unfolding on_control
  connect-before p c h = ground arith

  -- From any player that is not yet connected to the channel, `connect` parts with the
  -- previous connection, telling the listener if there was one, and asks for the channel; after the
  -- voice state and the voice server that answer, in either order, and the connection's frame
  -- sender, the player is connected to it, through one connection with their credentials.
  pub connect-Joins :
      (p : Player A) (u : VoiceState) (c : ℕ) (s : A.FrameSender) (token endpoint : String)
      → p.state ≢ State.shutdown
      → (p.state ≢ State.connected) ⊎ (p.channel_id ≢ some c)
      → IsOurs p u
      → u.channel_id ≡ some c
      → let before = (on_control (Control.connect c) p).1 in
        let cred = credentials_of p u token endpoint in
        let connect = Input.control (some (Control.connect c)) in
        let answers = state_update u ∷ server_update token endpoint ∷ sender s ∷ [] in
        let swapped = server_update token endpoint ∷ state_update u ∷ sender s ∷ [] in
        (before ≡ parting p Event.reconnecting ++ go_to p (some c) ∷ [])
        × Joins p (connect ∷ answers) c cred s before
        × Joins p (connect ∷ swapped) c cred s before
  unfolding credentials_of step
  connect-Joins p u c s token endpoint live far (user, guild) e =
      let q = (on_control (Control.connect c) p).0 in
      let before = (on_control (Control.connect c) p).1 in
      let cred = credentials_of p u token endpoint in
      let (fresh, same, me) = connect-Fresh p c far in
      let (one, two) =
        join_from_Fresh q u c s token endpoint cred (cc (same, me)) fresh
          (user ∙ sym me, guild ∙ ap some (sym same)) e in
      (
        connect-before p c far,
        Joins-cons p q _ _ c cred s before live refl one,
        Joins-cons p q _ _ c cred s before live refl two,
      )
