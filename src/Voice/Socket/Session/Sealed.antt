-- ===== src/Voice/Socket/Session/Sealed.antt =====
-- voice/socket.rs: the packets that a run sends.
use discord_async_rs.Prelude.{
  ℕ, suc, true, false, Option, none, some, List, [], ◌∷◌, ◌++◌, ok, err, ◌≡◌, ◌⊎◌, subst, refl,
  arith, ap, inl, inr, Option-cases, Result-cases, Bool-cases,
}
use discord_async_rs.Voice.Socket.{SocketApi, Error, external_addr, seal_packet, header}
use discord_async_rs.Voice.Socket.Nonces.{sequence_at, timestamp_at, nonce_at}
use discord_async_rs.Voice.Socket.Packets.{Seals, packets}
use discord_async_rs.Voice.Socket.Session.{
  Effect, Turn, Live, Outcome, Outside, send_frame, turn, turns, start, discover, run,
}

abbrev pub packets_of : {A : SocketApi} → List (Effect A) → List (List ℕ)
packets_of [] = []
packets_of (Effect.packet p ∷ out) = p ∷ packets_of out
packets_of (_ ∷ out) = packets_of out

-- The frames that are handed in.
abbrev pub frames : {A : SocketApi} → List (Turn A) → List (List ℕ)
frames [] = []
frames (Turn.frame f is_sent ∷ ts) = f ∷ frames ts
frames (_ ∷ ts) = frames ts

-- The first key, with the frames behind it.
abbrev pub keyed : {A : SocketApi} → List (Turn A) → Option (A.Key × List (List ℕ))
keyed [] = none
keyed (Turn.key (some k) taken ∷ ts) = some (k, frames ts)
keyed (_ ∷ ts) = keyed ts

module _ (A : SocketApi) (ssrc : ℕ) (seal : A.Key → List ℕ → List ℕ → List ℕ)
    (law : (k : A.Key) → Seals A k (seal k)) where
  -- The packets are those of the first of these frames, from number `i` on; of all, if the run
  -- goes on.
  abbrev pub Sends : A.Key → ℕ → List (List ℕ) → List (Effect A) × Outcome → Type 0
  Sends k i fs r =
      (done : List (List ℕ)) × (ahead : List (List ℕ)) × (fs ≡ done ++ ahead)
      × (packets_of r.0 ≡ packets (seal k) ssrc i done)
      × (r.1 ≡ none → ahead ≡ [])

  pub seal_packet-cases :
      (k : A.Key) (i : ℕ) (f : List ℕ)
      → (seal_packet A k ssrc (sequence_at i) (timestamp_at i) f
          ≡ ok (header ssrc (sequence_at i) (timestamp_at i) ++ seal k (nonce_at ssrc i) f))
        ⊎ ((e : Error) × (seal_packet A k ssrc (sequence_at i) (timestamp_at i) f ≡ err e))
  unfolding seal_packet
  seal_packet-cases k i f = ground (arith, law k (nonce_at ssrc i) f)

  live : A.Key → ℕ → Live A
  live k i = record { key = some k; sequence = sequence_at i; timestamp = timestamp_at i }

  turns-Sends :
      (ts : List (Turn A)) (k : A.Key) (i : ℕ) → Sends k i (frames ts) (turns A ssrc ts (live k i))
  unfolding turns turn send_frame live
  turns-Sends [] k i = ([], [], refl, refl, λ _. refl)
  turns-Sends (Turn.read (err e) taken ∷ ts) k i = ([], frames ts, refl, refl, λ h. ground arith)
  turns-Sends (Turn.read (ok len) true ∷ ts) k i = turns-Sends ts k i
  turns-Sends (Turn.read (ok len) false ∷ ts) k i = ([], frames ts, refl, refl, λ h. ground arith)
  turns-Sends (Turn.key k' taken ∷ ts) k i = turns-Sends ts k i
  turns-Sends (Turn.frames_end ∷ ts) k i = ([], frames ts, refl, refl, λ h. ground arith)
  turns-Sends (Turn.frame f false ∷ ts) k i = elim (seal_packet-cases k i f) [
    | inl sealed ↦ ([], f ∷ frames ts, refl, ground arith, ground arith)
    | inr (e, refused) ↦ ([], f ∷ frames ts, refl, ground arith, ground arith)
  ]
  turns-Sends (Turn.frame f true ∷ ts) k i = elim (seal_packet-cases k i f) [
    | inl sealed ↦
        let (done, ahead, all, sent_all, over) = turns-Sends ts k (suc i) in
        (f ∷ done, ahead, ap (◌∷◌ f) all, ground arith, ground arith)
    | inr (e, refused) ↦ ([], f ∷ frames ts, refl, ground arith, ground arith)
  ]

  -- The same when there was no key yet; without a key nothing is sent.
  abbrev pub SendsKeyed : Option (A.Key × List (List ℕ)) → List (Effect A) × Outcome → Type 0
  SendsKeyed none r = packets_of r.0 ≡ []
  SendsKeyed (some (k, fs)) r = Sends k 0 fs r

  ended-SendsKeyed :
      (q : Option (A.Key × List (List ℕ))) (out : List (Effect A)) (e : Error)
      → packets_of out ≡ []
      → SendsKeyed q (out, some (err e))
  ended-SendsKeyed none out e h = h
  ended-SendsKeyed (some (k, fs)) out e h = ([], fs, refl, h, λ h. ground arith)

  heard-SendsKeyed :
      (q : Option (A.Key × List (List ℕ))) (len : ℕ) (r : List (Effect A) × Outcome)
      → SendsKeyed q r
      → SendsKeyed q (Effect.voice_frame len ∷ r.0, r.1)
  heard-SendsKeyed none len r h = h
  heard-SendsKeyed (some (k, fs)) len r h = h

  turns-SendsKeyed : (ts : List (Turn A)) → SendsKeyed (keyed ts) (turns A ssrc ts (start A))
  unfolding turns turn send_frame live
  turns-SendsKeyed [] = refl
  turns-SendsKeyed (Turn.read (err e) taken ∷ ts) = ended-SendsKeyed (keyed ts) [] e refl
  turns-SendsKeyed (Turn.read (ok len) true ∷ ts) =
      heard-SendsKeyed (keyed ts) len (turns A ssrc ts (start A)) (turns-SendsKeyed ts)
  turns-SendsKeyed (Turn.read (ok len) false ∷ ts) =
      ended-SendsKeyed (keyed ts) (Effect.voice_frame len ∷ []) Error.send refl
  turns-SendsKeyed (Turn.key none taken ∷ ts) = ended-SendsKeyed (keyed ts) [] Error.canceled refl
  turns-SendsKeyed (Turn.key (some k) true ∷ ts) = turns-Sends ts k 0
  turns-SendsKeyed (Turn.key (some k) false ∷ ts) = ([], frames ts, refl, refl, λ h. ground arith)
  turns-SendsKeyed (Turn.frame f is_sent ∷ ts) = turns-SendsKeyed ts
  turns-SendsKeyed (Turn.frames_end ∷ ts) = turns-SendsKeyed ts

  discover-answer :
      (server : A.Addr) (o : Outside A) (addr : A.Addr)
      → discover A ssrc server o ≡ ok addr
      → (peer : A.Addr) × (len : ℕ) × (buf : List ℕ) × (o.recv_from ≡ some (ok (peer, len, buf)))
        × (external_addr A server peer len buf ≡ ok addr)
  unfolding discover
  discover-answer server o addr h = elim (Option-cases o.recv_from) [
    | inl late ↦ ground arith
    | inr (err e, failed) ↦ ground arith
    | inr (ok (peer, len, buf), answered) ↦ (peer, len, buf, answered, ground arith)
  ]

  -- Whatever the outside answers and in any order of the turns of reader and writer: a run that
  -- hears the address from the server reports it first. Before a key it sends no packet, and behind
  -- it the frames that are handed in, numbered from 0, each sealed behind its header: the first of
  -- them, and all while the run goes on.
  pub run-Sends :
      (server : A.Addr) (o : Outside A) (ts : List (Turn A))
      → let (out, end) = run A ssrc server o ts in
        ((packets_of out ≡ []) × ((e : Error) × (end ≡ some (err e))))
        ⊎ ((addr : A.Addr) × (peer : A.Addr) × (len : ℕ) × (buf : List ℕ) × (later : List
              (Effect A))
            × (o.recv_from ≡ some (ok (peer, len, buf)))
            × (external_addr A server peer len buf ≡ ok addr)
            × (out ≡ Effect.addr_discovery addr ∷ later)
            × SendsKeyed (keyed ts) (later, end))
  unfolding run
  run-Sends server o ts = elim (Result-cases (discover A ssrc server o)) [
    | inr (e, failed) ↦ inl (ground arith, (e, ground arith))
    | inl (addr, found) ↦
        let (peer, len, buf, answered, understood) = discover-answer server o addr found in
        elim (Bool-cases o.listener) [
          | inr gone ↦ inr (
            addr,
            peer,
            len,
            buf,
            [],
            answered,
            understood,
            ground arith,
            subst (λ end. SendsKeyed (keyed ts) ([], end)) (ground arith)
                (ended-SendsKeyed (keyed ts) [] Error.send refl),
          )
          | inl there ↦ inr (
            addr,
            peer,
            len,
            buf,
            (turns A ssrc ts (start A)).0,
            answered,
            understood,
            ground arith,
            subst (λ end. SendsKeyed (keyed ts) ((turns A ssrc ts (start A)).0, end)) (ground arith)
                (turns-SendsKeyed ts),
          )
        ]
  ]
