-- ===== src/Voice/System/Steps.antt =====
-- voice/connection.rs and voice/socket.rs: each move of a connection and its socket is safe.
use discord_async_rs.Prelude.{
  ℕ, true, false, not, ◌&&◌, Option, none, some, is_some, List, [], ◌∷◌, ◌≡◌, ◌⊎◌, refl, sym, ap,
  ◌∙◌, subst, inl, inr, arith, Option-cases, Bool-cases,
}
use discord_async_rs.Voice.Connection.{
  Ready, GatewayEvent, Connection, Input, is_connected, open_socket, select, round,
}
use discord_async_rs.Voice.Connection as Link
use discord_async_rs.Voice.Socket.{SocketApi}
use discord_async_rs.Voice.System.{Others, api, Task, System, takes_key, deliver, deliver_all, hear}
use discord_async_rs.Voice.System.Invariant.{Holds}
use discord_async_rs.Voice.System.Deliveries.{
  Given, Backed, Safe, SafeFor, select-SafeFor, deliver_all-append,
}

module _ (S : SocketApi) (E : Others) (seal : S.Key → List ℕ → List ℕ → List ℕ)
    (P : GatewayEvent (api S E) → Type 0) where
  abbrev opened : Connection (api S E) → Connection (api S E)
  opened c = record c { key_send = true; sock_event_recv = true }

  -- The socket is not opened, or as announced.
  open_socket-cases :
      (server : Option S.Addr) (c : Connection (api S E))
      → let (_, d, out) = open_socket (is_some server) c in
        ((d ≡ c) × (out ≡ []))
        ⊎ ((addr : S.Addr) × (r : Ready) × (server ≡ some addr)
            × (c.ready ≡ some r)
            × (c.sock_event_recv ≡ false)
            × (d ≡ opened c)
            × (out ≡ Link.Effect.bind_socket r.ip r.port r.ssrc ∷ []))
  unfolding open_socket
  open_socket-cases none c = ground arith
  open_socket-cases (some addr) c =
      elim (Bool-cases (is_connected c.state && not c.sock_event_recv)) [
        | inr n ↦ rw (n, open_socket) (inl (refl, refl))
        | inl t ↦ elim (Option-cases c.ready) [
          | inl no_ready ↦ inl (ground arith)
          | inr (r, ready) ↦ inr (addr, r, refl, ready, ground arith, ground arith, ground arith)
        ]
      ]

  asking-Safe :
      (addr : S.Addr) (r : Ready) (c : Connection (api S E)) (s : System S E)
      (fs ps : List (List ℕ))
      → SafeFor S E seal P c fs ps s
      → c.ready ≡ some r
      → c.sock_event_recv ≡ false
      → s.connection ≡ opened c
      → Safe S E seal P fs ps (record s { task = Task.asking addr r.ssrc })
  asking-Safe addr r c s fs ps ((kept, holds), backed, bound) ready unbound e =
      let (heard, supported) = subst (Backed S E seal P) ready backed in
      (
        (
          kept,
          (
            (r, heard, supported, refl),
            subst (Holds S E seal P s.forwarded fs ps) (bound unbound) holds,
          ),
        ),
        subst (λ (d : Connection (api S E)). Backed S E seal P d.ready) (sym e) backed,
        λ h.
            let never : true ≡ false =
              sym (ap (λ (d : Connection (api S E)). d.sock_event_recv) e) ∙ h in
            ground arith,
      )

  open_socket-Safe :
      (server : Option S.Addr) (c : Connection (api S E)) (s : System S E) (fs ps : List (List ℕ))
      → SafeFor S E seal P c fs ps s
      → s.connection ≡ (open_socket (is_some server) c).1
      → Safe S E seal P fs ps (deliver_all server (open_socket (is_some server) c).2 s)
  unfolding deliver_all deliver
  open_socket-Safe server c s fs ps (body, backed, bound) e =
      let shape : List (Link.Effect (api S E)) → Type 0 =
        λ out. Safe S E seal P fs ps (deliver_all server out s) in
      elim (open_socket-cases server c) [
        | inl (same, nothing) ↦
            subst shape (sym nothing)
              (subst (λ d. SafeFor S E seal P d fs ps s) (sym (e ∙ same)) (body, backed, bound))
        | inr (addr, r, there, ready, unbound, now, binds) ↦ subst shape (sym binds) (
            subst
              (λ server.
                Safe S E seal P fs ps
                  (deliver_all server (Link.Effect.bind_socket r.ip r.port r.ssrc ∷ []) s))
              (sym there)
              (asking-Safe addr r c s fs ps (body, backed, bound) ready unbound (e ∙ now)))
      ]

  pub hear-Safe :
      (i : Input (api S E)) (server : Option S.Addr) (s : System S E) (fs ps : List (List ℕ))
      → Given S E seal P i
      → Safe S E seal P fs ps s
      → Safe S E seal P fs ps (hear i server s).0
  unfolding hear round
  hear-Safe i server s fs ps given safe =
      let (_, c, out) = select i (takes_key s.task) s.connection in
      let (go, d, out') = open_socket (is_some server) c in
      let stopped : System S E = record s { connection = c; goes_on = false } in
      let goes : System S E = record s { connection = d; goes_on = go } in
      elim (Bool-cases s.goes_on) [
        | inr over ↦ rw (over, hear) safe
        | inl up ↦ elim (Bool-cases (select i (takes_key s.task) s.connection).0) [
          | inr stops ↦
              let (safe', same) =
                select-SafeFor S E seal P i (takes_key s.task) server stopped s fs ps given safe in
              rw (up, stops, hear, round)
                (subst (λ d. SafeFor S E seal P d fs ps (deliver_all server out stopped)) (sym same)
                  safe')
          | inl on ↦
              let (safe', same) =
                select-SafeFor S E seal P i (takes_key s.task) server goes s fs ps given safe in
              rw (up, on, hear, round)
                (subst (Safe S E seal P fs ps)
                  (sym (deliver_all-append S E seal P server out out' goes))
                  (open_socket-Safe server c (deliver_all server out goes) fs ps safe' same))
        ]
      ]
