-- ===== src/Discord/Builder/Built.antt =====
-- discord.rs: what `build` waits for.
use discord_async_rs.Prelude.{
  Bool, true, false, ◌||◌, Option, none, some, if◌then◌else◌, String, List, [], ◌∷◌, ◌++◌, map,
  Result, ok, err, ◌>>=◌, ok_or, ◌≡◌, refl, sym, subst, arith, Option-cases, Result-cases, inl, inr,
}
use discord_async_rs.Gateway.{GatewayApi, Ready, Error, Command, connector_new, is_shutdown, is_new}
use discord_async_rs.Gateway.Handshake
use discord_async_rs.Client.{ClientApi}
use discord_async_rs.Client
use discord_async_rs.Client.Connect.{HttpApi}
use discord_async_rs.Errors
use discord_async_rs.Discord.{Failure, Effect, Session, Attempt}
use discord_async_rs.Discord.Attempts.{connector, started, connect_with, connect, start_discord}
use discord_async_rs.Discord.Builder.{Builder, Bot, received, fresh, build}

module _ {A : GatewayApi} where
  received-behind :
      (cs : List (Command A)) (out : List (Effect A))
      → received (map Effect.send cs ++ out) ≡ received out
  received-behind [] out = refl
  received-behind (c ∷ cs) out = received-behind cs out

  received-append :
      (xs ys : List (Effect A)) → received xs ≡ none → received (xs ++ ys) ≡ received ys
  received-append [] ys e = refl
  received-append (Effect.callback c ∷ xs) ys e = received-append xs ys e
  received-append (Effect.init a u ∷ xs) ys e = ground arith
  received-append (Effect.send c ∷ xs) ys e = received-append xs ys e
  received-append (Effect.shutdown_frame ∷ xs) ys e = received-append xs ys e

  received-first :
      (xs ys : List (Effect A)) (r : A.Application × A.User)
      → received xs ≡ some r
      → received (xs ++ ys) ≡ some r
  received-first [] ys r e = ground arith
  received-first (Effect.callback c ∷ xs) ys r e = received-first xs ys r e
  received-first (Effect.init a u ∷ xs) ys r e = e
  received-first (Effect.send c ∷ xs) ys r e = received-first xs ys r e
  received-first (Effect.shutdown_frame ∷ xs) ys r e = received-first xs ys r e

  received-sends : (cs : List (Command A)) → received (map Effect.send cs) ≡ none
  received-sends [] = refl
  received-sends (c ∷ cs) = received-sends cs

abbrev IsFresh : Session → Type 0
IsFresh s = (s.session_id ≡ none) × (s.init_send ≡ true)

-- What has come out of the channel, and whether the task has ended.
abbrev Says :
    {A : GatewayApi}
    → Option (Option (Ready A.Application A.User))
    → List (Effect A)
    → Bool
    → Type 0
Says none out ended = (received out ≡ none) × (ended ≡ false)
Says (some none) out ended = (received out ≡ none) × (ended ≡ true)
Says (some (some r)) out ended = received out ≡ some (r.application, r.user)

module _ {A : GatewayApi} where
  abbrev pub next :
      Attempt A
      → Result (Ready A.Application A.User) (Error A)
      → Option (Option (Ready A.Application A.User))
      → Option (Option (Ready A.Application A.User))
  next a (ok ready) later = if a.asked_before then some none else some (some ready)
  next a (err e) later =
      if a.asked_before
      then some none
      else if is_shutdown e || a.asked_after
      then some none
      else later

  -- A round of the loop.
  abbrev around :
      Attempt A
      → Session
      → Session × List (Effect A) × Failure A
      → Session × List (Effect A) × Bool
      → Session × List (Effect A) × Bool
  around a s (s', out, failure) (s'', later, ended) =
      if a.asked_before then (s, Effect.callback none ∷ [], true) else elim failure [
        | none ↦ (s', out, false)
        | some e ↦
            if is_shutdown e || a.asked_after
            then (s', out ++ Effect.callback none ∷ [], true)
            else (s'', out ++ later, ended)
      ]

  around-ready :
      (a : Attempt A) (s : Session) (x : Session × List (Effect A) × Failure A)
      (y : Session × List (Effect A) × Bool) (r : Ready A.Application A.User)
      (later : Option (Option (Ready A.Application A.User)))
      → received x.1 ≡ some (r.application, r.user)
      → Says (next a (ok r) later) (around a s x y).1 (around a s x y).2
  around-ready a s (s', out, failure) (s'', rest, ended) r later h = ground (
    arith,
    received-first out (Effect.callback none ∷ []) (r.application, r.user) h,
    received-first out rest (r.application, r.user) h,
  )

  around-fails :
      (a : Attempt A) (s : Session) (x : Session × List (Effect A) × Failure A)
      (y : Session × List (Effect A) × Bool) (e : Error A)
      (later : Option (Option (Ready A.Application A.User)))
      → received x.1 ≡ none
      → x.2 ≡ some e
      → Says later y.1 y.2
      → Says (next a (err e) later) (around a s x y).1 (around a s x y).2
  around-fails a s (s', out, failure) (s'', rest, ended) e later h f says =
      ground (arith, received-append out (Effect.callback none ∷ []) h, received-append out rest h)

module _ {A : GatewayApi} (token : String) (intents : A.Intents) where
  -- What an attempt to identify comes to.
  abbrev pub answer : Attempt A → Result (Ready A.Application A.User) (Error A)
  answer a = (Handshake.connect (connector_new token intents) a.wire).1 >>= λ o.
      ok_or (A.expect_ready o.event) Error.unexpected_event

  -- The first `Ready`, unless the task is asked to end, or ends, before it. `none`: neither yet.
  abbrev pub first_ready : List (Attempt A) → Option (Option (Ready A.Application A.User))
  first_ready [] = none
  first_ready (a ∷ rest) = next a (answer a) (first_ready rest)

  connect-ready :
      (a : Attempt A) (s : Session) (r : Ready A.Application A.User)
      → IsFresh s
      → answer a ≡ ok r
      → received (connect token intents a s).1 ≡ some (r.application, r.user)
  unfolding connect connect_with connector started is_new
  connect-ready a s r f h =
      let c = connector_new token intents in
      let sent = (Handshake.connect c a.wire).0 in
      elim (Result-cases (Handshake.connect c a.wire).1) [
        | inl (o, e) ↦ elim (Option-cases (A.expect_ready o.event)) [
          | inl n ↦ ground arith
          | inr (r', e') ↦ ground (arith, received-behind sent (started a s o).1)
        ]
        | inr (x, e) ↦ ground arith
      ]

  connect-fails :
      (a : Attempt A) (s : Session) (e : Error A)
      → IsFresh s
      → answer a ≡ err e
      → ((connect token intents a s).0 ≡ s)
        × (received (connect token intents a s).1 ≡ none)
        × ((connect token intents a s).2 ≡ some e)
  unfolding connect connect_with connector started is_new
  connect-fails a s e f h =
      let c = connector_new token intents in
      let sent = (Handshake.connect c a.wire).0 in
      elim (Result-cases (Handshake.connect c a.wire).1) [
        | inl (o, e) ↦ elim (Option-cases (A.expect_ready o.event)) [
          | inl n ↦ ground (arith, received-behind sent [])
          | inr (r', e') ↦ ground arith
        ]
        | inr (x, e') ↦ ground (arith, received-sends sent)
      ]

  start_discord-ready :
      (attempts : List (Attempt A)) (s : Session)
      → IsFresh s
      → let (s', out, ended) = start_discord token intents attempts s in
        Says (first_ready attempts) out ended
  unfolding start_discord
  start_discord-ready [] s f = (refl, refl)
  start_discord-ready (a ∷ rest) s f =
      let x = connect token intents a s in
      let y = start_discord token intents rest x.0 in
      let P : Result (Ready A.Application A.User) (Error A) → Type 0 =
        λ r. Says (next a r (first_ready rest)) (around a s x y).1 (around a s x y).2 in
      elim (Result-cases (answer a)) [
        | inl (r, h) ↦
            subst P (sym h) (around-ready a s x y r (first_ready rest) (connect-ready a s r f h))
        | inr (e, h) ↦
            let (same, quiet, failed) = connect-fails a s e f h in
            subst P (sym h) (
              around-fails a s x y e (first_ready rest) quiet failed
                (start_discord-ready rest x.0 (subst IsFresh (sym same) f)))
      ]

module _ {A : GatewayApi} {K : ClientApi} (H : HttpApi K) where
  -- What the builder is to give.
  abbrev pub built :
      H.Http
      → Option (Option (Ready A.Application A.User))
      → Option (Result (Bot A H) (Errors.Error A K))
  built client none = none
  built client (some none) = some (err (Errors.Error.gateway (Error.close none)))
  built client (some (some r)) =
      some (
        ok
          (record { application = r.application; user = r.user; client = client; shutdown = true }))

  abbrev awaited : H.Http → List (Effect A) → Bool → Option (Result (Bot A H) (Errors.Error A K))
  awaited client out ended = elim (received out) [
    | some (application, user) ↦
        some
          (ok (record { application = application; user = user; client = client; shutdown = true }))
    | none ↦ if ended then some (err (Errors.Error.gateway (Error.close none))) else none
  ]

  awaited-built :
      (client : H.Http) (q : Option (Option (Ready A.Application A.User))) (out : List (Effect A))
      (ended : Bool)
      → Says q out ended
      → awaited client out ended ≡ built client q
  awaited-built client none out ended says = ground arith
  awaited-built client (some none) out ended says = ground arith
  awaited-built client (some (some r)) out ended says = ground arith

  made-built :
      (b : Builder A) (attempts : List (Attempt A)) (made : Result H.Http (Client.Error K))
      → let (s, out, ended) = start_discord b.token b.intents attempts fresh in
        (elim made as (λ _. Option (Result (Bot A H) (Errors.Error A K))) [
          | err e ↦ some (err (Errors.Error.client e))
          | ok client ↦ awaited client out ended
        ])
        ≡ (elim made as (λ _. Option (Result (Bot A H) (Errors.Error A K))) [
          | err e ↦ some (err (Errors.Error.client e))
          | ok client ↦ built client (first_ready b.token b.intents attempts)
        ])
  made-built b attempts (err e) = refl
  made-built b attempts (ok client) =
      let (s, out, ended) = start_discord b.token b.intents attempts fresh in
      awaited-built client (first_ready b.token b.intents attempts) out ended
        (start_discord-ready b.token b.intents attempts fresh (refl, refl))

  -- `build` waits until the first session is started, and gives its application and its user with
  -- the new client; if the task ends before, the error of a closed gateway. A client that cannot be
  -- made is the error at once.
  pub build_exact :
      (b : Builder A) (attempts : List (Attempt A))
      → build H b attempts ≡ elim (Client.Connect.new H b.token) [
        | err e ↦ some (err (Errors.Error.client e))
        | ok client ↦ built client (first_ready b.token b.intents attempts)
      ]
  unfolding build
  build_exact b attempts = made-built b attempts (Client.Connect.new H b.token)
