-- ===== src/Voice/System/Deliveries.antt =====
-- voice/connection.rs: what the rounds of a connection give to its socket.
use text.Mathlib.Text.{◌==◌}
use discord_async_rs.Prelude.{
  ℕ, Bool, true, false, Option, none, some, List, [], ◌∷◌, ◌++◌, All, All-append, ◌≡◌, refl, sym,
  ◌∙◌, subst, inl, inr, arith, Bool-cases,
}
use discord_async_rs.Voice.Connection.{
  Ready, SessionDescription, GatewayEvent, SocketEvent, Connection, Input, Round, encryption_mode,
  is_supported, is_connected, ready_kind, on_event, when_ready, event, socket_event, open_socket,
  select, round,
}
use discord_async_rs.Voice.Connection as Link
use discord_async_rs.Voice.Socket.{SocketApi}
use discord_async_rs.Voice.Socket.Session.{Live}
use discord_async_rs.Voice.System.{Others, api, Task, System, takes_key, deliver, deliver_all}
use discord_async_rs.Voice.System.Invariant.{Agreed, Runs, Holds}

module _ (S : SocketApi) (E : Others) (seal : S.Key → List ℕ → List ℕ → List ℕ)
    (P : GatewayEvent (api S E) → Type 0) where
  -- A `Ready` that was heard; a key that is agreed.
  abbrev pub Backed : Option Ready → Type 0
  Backed none = Unit
  Backed (some r) = P (GatewayEvent.ready r) × (is_supported r.modes ≡ true)

  abbrev pub Kept : Option S.Key → Type 0
  Kept none = Unit
  Kept (some k) = Agreed S E seal P k

  abbrev pub Given : Input (api S E) → Type 0
  Given (Input.gateway (some e)) = P e
  Given _ = Unit

  -- What can be given to a socket that is there.
  abbrev Fine : Link.Effect (api S E) → Type 0
  Fine (Link.Effect.bind_socket ip port ssrc) = true ≡ false
  Fine (Link.Effect.send_key k) = Agreed S E seal P k
  Fine _ = Unit

  abbrev Body : List (List ℕ) → List (List ℕ) → System S E → Type 0
  Body fs ps s = Kept s.key × Holds S E seal P s.forwarded fs ps s.task

  abbrev Same : System S E → System S E → Type 0
  Same s t = (t.connection ≡ s.connection) × (t.task ≡ s.task)

  when_ready-Fine :
      (kind : Bool) (c : Connection (api S E))
      → All Fine (when_ready kind c).1
        × ((when_ready kind c).0.ready ≡ c.ready)
        × ((when_ready kind c).0.sock_event_recv ≡ c.sock_event_recv)
  unfolding when_ready
  when_ready-Fine kind c = ground arith

  on_event-Fine :
      (k : Bool) (e : GatewayEvent (api S E)) (c : Connection (api S E))
      → P e
      → Backed c.ready
      → All Fine (on_event k e c).2
        × Backed (on_event k e c).1.ready
        × ((on_event k e c).1.sock_event_recv ≡ c.sock_event_recv)
  unfolding on_event
  on_event-Fine k (GatewayEvent.ready r) c h b = ground arith
  on_event-Fine k (GatewayEvent.session_description d) c h b = elim (Bool-cases c.key_send) [
    | inr no_sender ↦ rw (no_sender, on_event) (tt, b, refl)
    | inl sender ↦ elim (Bool-cases (d.mode == encryption_mode)) [
      | inr m ↦ rw (sender, m, on_event) (tt, b, refl)
      | inl m ↦ rw (sender, m, on_event) (((d, h, m, refl), tt), b, refl)
    ]
  ]
  on_event-Fine k (GatewayEvent.other o) c h b = ground arith

  event-Fine :
      (k : Bool) (e : GatewayEvent (api S E)) (c : Connection (api S E))
      → P e
      → Backed c.ready
      → All Fine (event k e c).2
        × Backed (event k e c).1.ready
        × ((event k e c).1.sock_event_recv ≡ c.sock_event_recv)
  unfolding event
  event-Fine k e c h b = elim (Bool-cases (on_event k e c).0) [
    | inr stops ↦ rw (stops, event) (on_event-Fine k e c h b)
    | inl goes ↦
        let (fine, backed, kept) = on_event-Fine k e c h b in
        let (fine', ready, kept') = when_ready-Fine (ready_kind e) (on_event k e c).1 in
        rw (goes, event)
          (
            All-append Fine (on_event k e c).2 (when_ready (ready_kind e) (on_event k e c).1).1 fine
                fine',
            subst Backed (sym ready) backed,
            kept' ∙ kept,
          )
  ]

  select-Fine :
      (i : Input (api S E)) (k : Bool) (c : Connection (api S E))
      → Given i
      → Backed c.ready
      → All Fine (select i k c).2
        × Backed (select i k c).1.ready
        × ((select i k c).1.sock_event_recv ≡ c.sock_event_recv)
  unfolding select socket_event
  select-Fine (Input.gateway none) k c h b = (tt, b, refl)
  select-Fine (Input.gateway (some e)) k c h b = event-Fine k e c h b
  select-Fine (Input.socket none) k c h b = (tt, b, refl)
  select-Fine (Input.socket (some (SocketEvent.addr_discovery addr))) k c h b = ground arith
  select-Fine (Input.socket (some (SocketEvent.voice_frame_sender t))) k c h b = ((tt, tt), b, refl)
  select-Fine (Input.socket (some (SocketEvent.voice_frame n))) k c h b = (tt, b, refl)

  forward-Runs :
      (ssrc : ℕ) (l : Live S) (fw : Bool) (fs ps : List (List ℕ)) (key : Option S.Key)
      → Runs S E seal P ssrc l fw fs ps key
      → Runs S E seal P ssrc l true fs ps key
  forward-Runs ssrc l fw fs ps none h = h
  forward-Runs ssrc l fw fs ps (some k) (agreed, (before, done, offered, sent, eq, et, fresh)) =
      (agreed, (before, done, offered, sent, eq, et, λ e. ground arith))

  forward-Holds :
      (fw : Bool) (fs ps : List (List ℕ)) (t : Task S)
      → Holds S E seal P fw fs ps t
      → Holds S E seal P true fs ps t
  forward-Holds fw fs ps Task.absent h = h
  forward-Holds fw fs ps (Task.asking server ssrc) h = h
  forward-Holds fw fs ps (Task.live ssrc l) h = (h.0, forward-Runs ssrc l fw fs ps l.key h.1)
  forward-Holds fw fs ps Task.over h = h

  deliver-Body :
      (server : Option S.Addr) (e : Link.Effect (api S E)) (s : System S E) (fs ps : List (List ℕ))
      → Fine e
      → Body fs ps s
      → Body fs ps (deliver server e s) × Same s (deliver server e s)
  unfolding deliver
  deliver-Body server (Link.Effect.spawn_gateway cred b) s fs ps f h = (h, (refl, refl))
  deliver-Body server Link.Effect.connected s fs ps f h = (h, (refl, refl))
  deliver-Body server (Link.Effect.forward_sender t) s fs ps f h =
      ((h.0, forward-Holds s.forwarded fs ps s.task h.1), (refl, refl))
  deliver-Body server (Link.Effect.send_key k) s fs ps f h = elim (Bool-cases (takes_key s.task)) [
    | inl t ↦ rw (t, deliver) ((f, h.1), (refl, refl))
    | inr n ↦ rw (n, deliver) (h, (refl, refl))
  ]
  deliver-Body server (Link.Effect.select_protocol a m) s fs ps f h = (h, (refl, refl))
  deliver-Body server (Link.Effect.speaking n b) s fs ps f h = (h, (refl, refl))
  deliver-Body server (Link.Effect.bind_socket ip port ssrc) s fs ps f h = ground arith

  deliver_all-Body :
      (server : Option S.Addr) (out : List (Link.Effect (api S E))) (s : System S E)
      (fs ps : List (List ℕ))
      → All Fine out
      → Body fs ps s
      → Body fs ps (deliver_all server out s) × Same s (deliver_all server out s)
  unfolding deliver_all
  deliver_all-Body server [] s fs ps f h = (h, (refl, refl))
  deliver_all-Body server (e ∷ out) s fs ps f h =
      let (body, (same, task)) = deliver-Body server e s fs ps f.0 h in
      let (body', (same', task')) =
        deliver_all-Body server out (deliver server e s) fs ps f.1 body in
      (body', (same' ∙ same, task' ∙ task))

  pub deliver_all-append :
      (server : Option S.Addr) (xs ys : List (Link.Effect (api S E))) (s : System S E)
      → deliver_all server (xs ++ ys) s ≡ deliver_all server ys (deliver_all server xs s)
  unfolding deliver_all
  deliver_all-append server [] ys s = refl
  deliver_all-append server (e ∷ xs) ys s = deliver_all-append server xs ys (deliver server e s)

  -- What holds between two moves, with the frames that were offered and the packets that were sent.
  abbrev pub Safe : List (List ℕ) → List (List ℕ) → System S E → Type 0
  Safe fs ps s =
      Body fs ps s
      × Backed s.connection.ready
      × (s.connection.sock_event_recv ≡ false → s.task ≡ Task.absent)

  -- The same of a system whose connection is to be this one.
  abbrev pub SafeFor : Connection (api S E) → List (List ℕ) → List (List ℕ) → System S E → Type 0
  SafeFor c fs ps s =
      Body fs ps s × Backed c.ready × (c.sock_event_recv ≡ false → s.task ≡ Task.absent)

  pub select-SafeFor :
      (i : Input (api S E)) (k : Bool) (server : Option S.Addr) (s t : System S E)
      (fs ps : List (List ℕ))
      → Given i
      → SafeFor t.connection fs ps s
      → let (_, c, out) = select i k t.connection in
        SafeFor c fs ps (deliver_all server out s)
        × ((deliver_all server out s).connection ≡ s.connection)
  select-SafeFor i k server s t fs ps given (body, backed, bound) =
      let (fine, backed', kept) = select-Fine i k t.connection given backed in
      let (body', (same, task)) =
        deliver_all-Body server (select i k t.connection).2 s fs ps fine body in
      ((body', backed', λ h. task ∙ bound (sym kept ∙ h)), same)
