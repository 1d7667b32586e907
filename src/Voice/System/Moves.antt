-- ===== src/Voice/System/Moves.antt =====
-- voice/connection.rs and voice/socket.rs: each move keeps what holds.
use mathlib.Core.List.{append-nil}
use discord_async_rs.Prelude.{
  ℕ, Bool, true, false, not, ◌&&◌, ◌||◌, if◌then◌else◌, Option, none, some, List, [], ◌∷◌, ◌++◌,
  All, Result, ok, err, ◌≡◌, refl, sym, ◌∙◌, subst, inl, arith,
}
use discord_async_rs.Voice.Connection.{GatewayEvent, SocketEvent, Input}
use discord_async_rs.Voice.Socket.{SocketApi, Error}
use discord_async_rs.Voice.Socket.Packets.{Seals}
use discord_async_rs.Voice.Socket.Session.{Live, Turn, Effect, Outside, Outcome, turn, discover}
use discord_async_rs.Voice.Socket.Session.Sealed.{frames}
use discord_async_rs.Voice.Socket.Session as Session
use discord_async_rs.Voice.System.{
  Others, api, Task, System, Move, Output, takes_key, is_live, is_over, opens, hear, act, report,
  step,
}
use discord_async_rs.Voice.System.Invariant.{Announced, Holds, grown-Sent, grown-Holds}
use discord_async_rs.Voice.System.Turns.{Fits, after, turn-Holds}
use discord_async_rs.Voice.System.Deliveries.{Backed, Kept, Given, Safe}
use discord_async_rs.Voice.System.Steps.{hear-Safe}
use discord_async_rs.Voice.System.Outputs.{sent, offered, heard, sent-hear, sent-packets_of}

module _ (S : SocketApi) (E : Others) (seal : S.Key → List ℕ → List ℕ → List ℕ)
    (law : (k : S.Key) → Seals S k (seal k)) (P : GatewayEvent (api S E) → Type 0) where
  -- A turn with what was offered and sent before.
  act-Safe :
      (t : Turn S) (task : Task S) (s : System S E) (fs ps : List (List ℕ))
      → Fits S E seal P s.forwarded t
      → Safe S E seal P fs ps (record s { task = task })
      → let r = act t (record s { task = task }) in
        Safe S E seal P (fs ++ frames (t ∷ [])) (ps ++ sent r.1) r.0
  unfolding act
  act-Safe t Task.absent s fs ps fits ((kept, holds), backed, bound) =
      ((kept, append-nil ps ∙ holds), backed, bound)
  act-Safe t (Task.asking server ssrc) s fs ps fits ((kept, (known, holds)), backed, bound) =
      ((kept, (known, append-nil ps ∙ holds)), backed, bound)
  act-Safe t (Task.live ssrc l) s fs ps fits ((kept, holds), backed, bound) = (
    (
      kept,
      subst
          (λ out.
            Holds S E seal P s.forwarded (fs ++ frames (t ∷ [])) (ps ++ out)
              (after S E seal P ssrc (turn S ssrc t l)))
          (sym (sent-packets_of S E (turn S ssrc t l).1))
          (turn-Holds S E seal P law t ssrc l s.forwarded fs ps fits holds),
    ),
    backed,
    λ h. let never : Task.live ssrc l ≡ Task.absent = bound h in ground arith,
  )
  act-Safe t Task.over s fs ps fits ((kept, holds), backed, bound) = (
    (kept, rw (append-nil ps) (grown-Sent S E seal P fs (frames (t ∷ [])) ps holds)),
    backed,
    bound,
  )

  -- What holds behind a move that offers no frame.
  abbrev Quiet : List (List ℕ) → List (List ℕ) → System S E × List (Output S E) → Type 0
  Quiet fs ps r = Safe S E seal P (fs ++ []) (ps ++ sent r.1) r.0

  pub still-Quiet :
      (s : System S E) (fs ps : List (List ℕ)) → Safe S E seal P fs ps s → Quiet fs ps (s, [])
  still-Quiet s fs ps safe = rw (append-nil fs, append-nil ps) safe

  hear-Quiet :
      (i : Input (api S E)) (server : Option S.Addr) (s : System S E) (fs ps : List (List ℕ))
      → Given S E seal P i
      → Safe S E seal P fs ps s
      → Quiet fs ps (hear i server s)
  hear-Quiet i server s fs ps given safe =
      rw (sent-hear i server s, append-nil fs, append-nil ps)
        (hear-Safe S E seal P i server s fs ps given safe)

  if-Quiet :
      (b : Bool) (x y : System S E × List (Output S E)) (fs ps : List (List ℕ))
      → Quiet fs ps x
      → Quiet fs ps y
      → Quiet fs ps (if b then x else y)
  if-Quiet true x y fs ps hx hy = hx
  if-Quiet false x y fs ps hx hy = hy

  event-Quiet :
      (events : List (SocketEvent (api S E))) (s : System S E) (fs ps : List (List ℕ))
      → Safe S E seal P fs ps s
      → Quiet fs ps (step Move.event (record s { events = events }))
  unfolding step
  event-Quiet [] s fs ps safe =
      let idle : System S E = record s { events = [] } in
      if-Quiet (is_over s.task) (hear (Input.socket none) none idle) (idle, []) fs ps
        (hear-Quiet (Input.socket none) none idle fs ps tt safe) (still-Quiet idle fs ps safe)
  event-Quiet (e ∷ rest) s fs ps safe =
      hear-Quiet (Input.socket (some e)) none (record s { events = rest }) fs ps tt safe

  over-Quiet :
      (s : System S E) (fs ps : List (List ℕ))
      → ps ≡ []
      → Kept S E seal P s.key
      → Backed S E seal P s.connection.ready
      → (s.connection.sock_event_recv ≡ false → true ≡ false)
      → Quiet fs ps (record s { task = Task.over }, [])
  over-Quiet s fs ps nothing kept backed asked =
      still-Quiet (record s { task = Task.over }) fs ps
        ((kept, inl nothing), backed, λ h. let never = asked h in ground arith)

  report-Quiet :
      (ssrc : ℕ) (r : Result S.Addr Error) (s : System S E) (fs ps : List (List ℕ))
      → Announced S E seal P ssrc
      → ps ≡ []
      → Safe S E seal P fs ps s
      → (s.connection.sock_event_recv ≡ false → true ≡ false)
      → Quiet fs ps (report ssrc r s)
  unfolding report
  report-Quiet ssrc (err e) s fs ps known nothing ((kept, holds), backed, bound) asked =
      over-Quiet s fs ps nothing kept backed asked
  report-Quiet ssrc (ok addr) s fs ps known nothing ((kept, holds), backed, bound) asked =
      let found : System S E = record s {
        task = Task.live ssrc (Session.start S);
        events = s.events ++ SocketEvent.addr_discovery addr ∷ [];
      } in
      if-Quiet s.goes_on (found, []) (record s { task = Task.over }, []) fs ps
        (still-Quiet found fs ps (
          (kept, (known, (nothing, refl, refl))),
          backed,
          λ h. let never = asked h in ground arith,
        ))
        (over-Quiet s fs ps nothing kept backed asked)

  ask-Quiet :
      (o : Outside S) (task : Task S) (s : System S E) (fs ps : List (List ℕ))
      → Safe S E seal P fs ps (record s { task = task })
      → Quiet fs ps (step (Move.ask o) (record s { task = task }))
  unfolding step
  ask-Quiet o Task.absent s fs ps safe = still-Quiet (record s { task = Task.absent }) fs ps safe
  ask-Quiet o (Task.asking server ssrc) s fs ps ((kept, (known, nothing)), backed, bound) =
      report-Quiet ssrc (discover S ssrc server o) (record s { task = Task.asking server ssrc }) fs
        ps known nothing ((kept, (known, nothing)), backed, bound)
        (λ h. let never : Task.asking server ssrc ≡ Task.absent = bound h in ground arith)
  ask-Quiet o (Task.live ssrc l) s fs ps safe =
      still-Quiet (record s { task = Task.live ssrc l }) fs ps safe
  ask-Quiet o Task.over s fs ps safe = still-Quiet (record s { task = Task.over }) fs ps safe

  key-Quiet :
      (key : Option S.Key) (s : System S E) (fs ps : List (List ℕ))
      → Safe S E seal P fs ps (record s { key = key })
      → Quiet fs ps (step Move.key (record s { key = key }))
  unfolding step
  key-Quiet none s fs ps safe =
      let s' : System S E = record s { key = none } in
      if-Quiet s.goes_on (s', []) (act (Turn.key none false) s') fs ps (still-Quiet s' fs ps safe)
        (act-Safe (Turn.key none false) s.task s' fs ps tt safe)
  key-Quiet (some k) s fs ps ((agreed, holds), backed, bound) =
      let s' : System S E = record s { key = some k } in
      let taken : System S E = record s { key = none } in
      if-Quiet (takes_key s.task && is_live s.task) (act (Turn.key (some k) s.goes_on) taken)
        (s', []) fs ps
        (act-Safe (Turn.key (some k) s.goes_on) s.task taken fs ps agreed
          ((tt, holds), backed, bound))
        (still-Quiet s' fs ps ((agreed, holds), backed, bound))

  abbrev Behind : Move S E → System S E → List (List ℕ) → List (List ℕ) → Type 0
  Behind m s fs ps = Safe S E seal P (fs ++ offered (m ∷ [])) (ps ++ sent (step m s).1) (step m s).0

  frame-Behind :
      (f : List ℕ) (is_sent forwarded : Bool) (s : System S E) (fs ps : List (List ℕ))
      → Safe S E seal P fs ps (record s { forwarded = forwarded })
      → Behind (Move.frame f is_sent) (record s { forwarded = forwarded }) fs ps
  unfolding step
  frame-Behind f is_sent true s fs ps safe =
      act-Safe (Turn.frame f is_sent) s.task (record s { forwarded = true }) fs ps refl safe
  frame-Behind f is_sent false s fs ps ((kept, holds), backed, bound) =
      rw (append-nil ps) ((kept, grown-Holds S E seal P fs (f ∷ []) ps s.task holds), backed, bound)

  read-Behind :
      (r : Result ℕ Error) (s : System S E) (fs ps : List (List ℕ))
      → Safe S E seal P fs ps s
      → Behind (Move.read r) s fs ps
  unfolding step
  read-Behind (ok n) s fs ps safe = act-Safe (Turn.read (ok n) s.goes_on) s.task s fs ps tt safe
  read-Behind (err e) s fs ps safe = act-Safe (Turn.read (err e) s.goes_on) s.task s fs ps tt safe

  pub step-Behind :
      (m : Move S E) (s : System S E) (fs ps : List (List ℕ))
      → All P (heard (m ∷ []))
      → Safe S E seal P fs ps s
      → Behind m s fs ps
  unfolding step
  step-Behind (Move.gateway none server) s fs ps told safe =
      hear-Quiet (Input.gateway none) (opens S server) s fs ps tt safe
  step-Behind (Move.gateway (some e) server) s fs ps told safe =
      hear-Quiet (Input.gateway (some e)) (opens S server) s fs ps told.0 safe
  step-Behind Move.event s fs ps told safe = event-Quiet s.events s fs ps safe
  step-Behind (Move.ask o) s fs ps told safe = ask-Quiet o s.task s fs ps safe
  step-Behind (Move.read r) s fs ps told safe = read-Behind r s fs ps safe
  step-Behind Move.key s fs ps told safe = key-Quiet s.key s fs ps safe
  step-Behind (Move.frame f is_sent) s fs ps told safe =
      frame-Behind f is_sent s.forwarded s fs ps safe
  step-Behind Move.frames_end s fs ps told safe =
      if-Quiet (s.forwarded || not s.goes_on) (act Turn.frames_end s) (s, []) fs ps
        (act-Safe Turn.frames_end s.task s fs ps tt safe) (still-Quiet s fs ps safe)
