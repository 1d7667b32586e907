-- ===== src/Voice/Socket/Session/Tests.antt =====
-- voice/socket.rs: the theorem at a concrete run.
use discord_async_rs.Prelude.{ℕ, true, some, List, [], ◌∷◌, ok, err, ◌≡◌, ◌⊎◌}
use discord_async_rs.Voice.Socket.{Error, external_addr}
use discord_async_rs.Voice.Socket.Discovery.{reply}
use discord_async_rs.Voice.Socket.Tests.{api, seal, seal-Seals}
use discord_async_rs.Voice.Socket.Session.{Effect, Turn, Outside, run}
use discord_async_rs.Voice.Socket.Session.Sealed.{packets_of, keyed, SendsKeyed, run-Sends}

abbrev outside : Outside api
outside = record {
  bind = ok tt;
  send_to = ok tt;
  recv_from = some (ok (1, 74, reply 9 (49 ∷ 46 ∷ 49 ∷ []) 4000 []));
  listener = true;
}

abbrev order : List (Turn api)
order =
    Turn.read (ok 8) true
    ∷ Turn.key (some tt) true
    ∷ Turn.frame (1 ∷ 2 ∷ []) true
    ∷ Turn.read (ok 8) true
    ∷ Turn.frame (3 ∷ []) true
    ∷ Turn.frames_end
    ∷ []

run-Sends_example :
    let (out, end) = run api 9 1 outside order in
    ((packets_of out ≡ []) × ((e : Error) × (end ≡ some (err e))))
    ⊎ ((addr : ℕ) × (peer : ℕ) × (len : ℕ) × (buf : List ℕ) × (later : List (Effect api))
        × (outside.recv_from ≡ some (ok (peer, len, buf)))
        × (external_addr api 1 peer len buf ≡ ok addr)
        × (out ≡ Effect.addr_discovery addr ∷ later)
        × SendsKeyed api 9 (λ _. seal) (λ _. seal-Seals) (keyed order) (later, end))
run-Sends_example = run-Sends api 9 (λ _. seal) (λ _. seal-Seals) 1 outside order
