-- ===== src/Client/Connect.antt =====
-- client.rs: `Client::new`. The headers and the connection pool of reqwest are parameters.
use Prim.Native.String.{◌++◌}
use discord_async_rs.Prelude.{ℕ, Option, String, Result, ◌>>=◌, ok_or, map_err}
use discord_async_rs.Client.{ClientApi, Error, from_http}

pub record HttpApi (A : ClientApi) : Type 1 where
  pub HeaderValue : Type 0
  pub from_str : String → Option HeaderValue
  pub Http : Type 0
  -- From the user agent, the authorization and the seconds of the timeout.
  pub build : HeaderValue → HeaderValue → ℕ → Result Http A.HttpError
  pub version : String

unfoldable pub new : {A : ClientApi} (H : HttpApi A) → String → Result H.Http (Error A)
new H token = do
  agent ←
      ok_or
        (H.from_str
          ("discord-async-rs (github.com/kebabtent/discord-async-rs, v" ++ (H.version ++ ")")))
        Error.builder
  authorization ← ok_or (H.from_str ("Bot " ++ token)) Error.builder
  map_err from_http (H.build agent authorization 10)
