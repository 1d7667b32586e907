-- ===== src/Client/Optional.antt =====
-- client.rs: when an answer is read as a value, and when `optional` makes it `None`.
use discord_async_rs.Prelude.{ℕ, false, none, some, String, List, ◌≡◌, ◌↔◌, arith, Result, ok, err}
use discord_async_rs.Client.{ClientApi, is_not_found, of_status, from_http, optional}
use discord_async_rs.Client.Requests.{check_response_code, decode, get}

module _ (A : ClientApi) where
  -- A value is decoded exactly from a response whose status tells of no error and whose body can
  -- be read and is that value.
  pub decode_exact :
      {D : Type 0} (read : List ℕ → Result D A.JsonError) (res : A.Response) (d : D)
      → (decode {A = A} read res ≡ ok d) ↔ (
          (A.error_for_status res ≡ none)
          × ((full : List ℕ) × (A.bytes res ≡ ok full) × (read full ≡ ok d)))
  unfolding decode check_response_code
  decode_exact read res d = ground arith

  -- The error of a response that tells of a status, neither of a builder, a redirect nor a timeout.
  abbrev pub HasStatus : A.HttpError → ℕ → Type 0
  HasStatus e c =
      (A.is_builder e ≡ false)
      × (A.is_redirect e ≡ false)
      × (A.is_timeout e ≡ false)
      × (A.status e ≡ some c)

  -- For a response with status 404 whose body can be read, `optional` makes the failure of a `get`
  -- `None` exactly when the body is not an error object of Discord.
  pub optional_404 :
      {D : Type 0} (read : List ℕ → Result D A.JsonError) (url : String) (res : A.Response)
      (e : A.HttpError) (full : List ℕ)
      → A.error_for_status res ≡ some e
      → HasStatus e 404
      → A.bytes res ≡ ok full
      → (optional ((get {A = A} read url).finish (ok res)) ≡ ok none)
        ↔ ((j : A.JsonError) × (A.api_error full ≡ err j))
  unfolding decode check_response_code get optional from_http of_status is_not_found
  optional_404 read url res e full s h b = ground arith
