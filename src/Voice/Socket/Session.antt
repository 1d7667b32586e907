-- ===== src/Voice/Socket/Session.antt =====
-- voice/socket.rs: `run`, with its `read` and `write` at once. A run is a list of turns, each of
-- the reader or of the writer; what the sockets and the channels answer comes with the turn.
pub mod Sealed
mod Tests
use discord_async_rs.Prelude.{
  ℕ, zero, Bool, true, false, Option, none, some, List, [], ◌∷◌, ◌++◌, Result, ok, err, ok_or,
  ◌>>=◌, if◌then◌else◌,
}
use discord_async_rs.Voice.Socket.{
  SocketApi, Error, external_addr, seal_packet, next_sequence, next_timestamp,
}

-- `Event`, and the packets for the server.
pub data Effect (A : SocketApi) : Type 0 where
  addr_discovery : A.Addr → Effect A
  voice_frame_sender : Effect A
  voice_frame : ℕ → Effect A
  packet : List ℕ → Effect A

-- `is_voice_frame`.
unfoldable pub is_voice_frame : {A : SocketApi} → Effect A → Bool
is_voice_frame (Effect.voice_frame len) = true
is_voice_frame _ = false

-- A packet for the reader, with whether the listener is there; for the writer the key, or none if
-- its sender is gone, with the same; a frame, with whether the socket sends its packet; the end of
-- the frames.
pub data Turn (A : SocketApi) : Type 0 where
  read : Result ℕ Error → Bool → Turn A
  key : Option A.Key → Bool → Turn A
  frame : List ℕ → Bool → Turn A
  frames_end : Turn A

pub record Live (A : SocketApi) : Type 0 where
  pub key : Option A.Key
  pub sequence : ℕ
  pub timestamp : ℕ

abbrev pub Outcome : Type 0
Outcome = Option (Result (Unit {0}) Error)

-- How `send(...).await?` goes on.
abbrev pub sent : Bool → Error → Outcome
sent true e = none
sent false e = some (err e)

-- What the outside answers before the turns: whether the socket is bound and sends the request,
-- and the answer of the server, a sender with the length and the buffer; none if the time has
-- passed.
pub record Outside (A : SocketApi) : Type 0 where
  pub bind : Result (Unit {0}) Error
  pub send_to : Result (Unit {0}) Error
  pub recv_from : Option (Result (A.Addr × ℕ × List ℕ) Error)
  pub listener : Bool

abbrev pub start : (A : SocketApi) → Live A
start A = record { key = none; sequence = 0; timestamp = 0 }

module _ (A : SocketApi) (ssrc : ℕ) where
  -- The body of `write`'s loop.
  unfoldable pub send_frame : A.Key → List ℕ → Bool → Live A → Live A × List (Effect A) × Outcome
  send_frame k f is_sent s = elim (seal_packet A k ssrc s.sequence s.timestamp f) [
    | err e ↦ (s, [], some (err e))
    | ok p ↦
        if is_sent
        then (
          record s { sequence = next_sequence s.sequence; timestamp = next_timestamp s.timestamp },
          Effect.packet p ∷ [],
          none,
        )
        else (s, [], some (err Error.io))
  ]

  -- The writer waits for the key first, then for frames.
  unfoldable pub turn : Turn A → Live A → Live A × List (Effect A) × Outcome
  unfolding send_frame
  turn (Turn.read (err e) taken) s = (s, [], some (err e))
  turn (Turn.read (ok len) taken) s = (s, Effect.voice_frame len ∷ [], sent taken Error.send)
  turn (Turn.key k taken) s = elim s.key [
    | some _ ↦ (s, [], none)
    | none ↦ elim k [
      | none ↦ (s, [], some (err Error.canceled))
      | some k' ↦
          (record s { key = some k' }, Effect.voice_frame_sender ∷ [], sent taken Error.send)
    ]
  ]
  turn (Turn.frame f is_sent) s = elim s.key [
    | none ↦ (s, [], none)
    | some k ↦ send_frame k f is_sent s
  ]
  turn Turn.frames_end s = elim s.key [ none ↦ (s, [], none) | some _ ↦ (s, [], some (ok tt)) ]

  -- `select`: the first that ends ends both.
  unfoldable pub turns : List (Turn A) → Live A → List (Effect A) × Outcome
  unfolding turn
  turns [] s = ([], none)
  turns (t ∷ ts) s =
      let (s', out, end) = turn t s in
      let (later, end') = turns ts s' in
      elim end [ some res ↦ (out, some res) | none ↦ (out ++ later, end') ]

  -- The beginning of `run`: the own address, as the server sees it.
  unfoldable pub discover : A.Addr → Outside A → Result A.Addr Error
  discover server o = do
    _ ← o.bind
    _ ← o.send_to
    answer ← ok_or o.recv_from Error.timeout
    (peer, len, buf) ← answer
    external_addr A server peer len buf

  unfoldable pub run : A.Addr → Outside A → List (Turn A) → List (Effect A) × Outcome
  unfolding turns discover
  run server o ts = elim (discover server o) [
    | err e ↦ ([], some (err e))
    | ok addr ↦
        if o.listener
        then (let (out, end) = turns ts (start A) in (Effect.addr_discovery addr ∷ out, end))
        else (Effect.addr_discovery addr ∷ [], some (err Error.send))
  ]
