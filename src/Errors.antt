-- ===== src/Errors.antt =====
-- lib.rs and voice.rs: the errors of the crate; with gateway.rs and client.rs, the texts of errors. The texts of
-- other crates' errors are parameters.
use Prim.Native.String.{◌++◌}
use discord_async_rs.Prelude.{ℕ, none, some, String}
use discord_async_rs.Gateway
use discord_async_rs.Gateway.{GatewayApi, Encoding}
use discord_async_rs.Client
use discord_async_rs.Client.{ClientApi}
use discord_async_rs.Voice.Opus.{EncodeError}

pub data ProtocolError : Type 0 where
  invalid_field : String → ProtocolError
  missing_field : String → ProtocolError

pub record ApiError : Type 0 where
  pub code : ℕ
  pub message : String

pub data Error (A : GatewayApi) (K : ClientApi) : Type 0 where
  gateway : Gateway.Error A → Error A K
  protocol : ProtocolError → Error A K
  client : Client.Error K → Error A K
  api : ApiError → Error A K

-- `Error` of voice.rs.
pub data VoiceError (A : GatewayApi) (I E : Type 0) : Type 0 where
  missing_endpoint unexpected_event : VoiceError A I E
  gateway : Gateway.Error A → VoiceError A I E
  encode : EncodeError I E → VoiceError A I E

-- `Display` of what other crates give.
pub record Texts (A : GatewayApi) (K : ClientApi) : Type 1 where
  pub number : ℕ → String
  pub ws : A.WsError → String
  pub frame : A.CloseFrame → String
  pub serde : A.SerdeError → String
  pub api : K.ApiError → String
  pub json : K.JsonError → String
  pub http : K.HttpError → String

unfoldable pub protocol_text : ProtocolError → String
protocol_text (ProtocolError.invalid_field e) = "Invalid field '" ++ (e ++ "'")
protocol_text (ProtocolError.missing_field e) = "Missing field '" ++ (e ++ "'")

unfoldable pub encoding_text : Encoding → String
encoding_text Encoding.json = "json"

module _ {A : GatewayApi} {K : ClientApi} (T : Texts A K) where
  unfoldable pub api_text : ApiError → String
  api_text e = "API error " ++ (T.number e.code ++ (": " ++ e.message))

  unfoldable pub gateway_text : Gateway.Error A → String
  gateway_text Gateway.Error.shutdown = "Shutdown"
  gateway_text (Gateway.Error.ws e) = T.ws e
  gateway_text Gateway.Error.unexpected_event = "Unexpected event"
  gateway_text Gateway.Error.timeout = "Connection timed out"
  gateway_text (Gateway.Error.close (some frame)) = "Connection closed: " ++ T.frame frame
  gateway_text (Gateway.Error.close none) = "Connection closed"
  gateway_text Gateway.Error.decode = "Decode error"
  gateway_text (Gateway.Error.serde e) = "Serde error: " ++ T.serde e

  unfoldable pub client_text : Client.Error K → String
  client_text Client.Error.builder = "Builder error"
  client_text Client.Error.redirect = "Reached redirect limit"
  client_text Client.Error.timed_out = "Request timed out"
  client_text Client.Error.bad_request = "Bad request"
  client_text Client.Error.invalid_token = "Invalid token"
  client_text Client.Error.not_permitted = "Not permitted"
  client_text Client.Error.not_found = "Not found"
  client_text Client.Error.rate_limited = "Rate limited"
  client_text Client.Error.gateway_unavailable = "Gateway unavailable"
  client_text (Client.Error.response c) = "Response code " ++ T.number c
  client_text (Client.Error.api e) = T.api e
  client_text (Client.Error.decode e) = T.json e
  client_text (Client.Error.other e) = T.http e

  unfoldable pub error_text : Error A K → String
  unfolding protocol_text api_text gateway_text client_text
  error_text (Error.gateway e) = "Gateway error: " ++ gateway_text e
  error_text (Error.protocol e) = "Protocol error: " ++ protocol_text e
  error_text (Error.client e) = "Client error: " ++ client_text e
  error_text (Error.api e) = "API error: " ++ api_text e

module _ {A : GatewayApi} {K : ClientApi} (T : Texts A K) {I E : Type 0} (io_text : I → String)
    (opus_text : E → String) where
  unfoldable pub encode_text : EncodeError I E → String
  encode_text (EncodeError.io e) = io_text e
  encode_text (EncodeError.opus e) = opus_text e
  encode_text EncodeError.frame_size = "Invalid frame size"

  unfoldable pub voice_text : VoiceError A I E → String
  unfolding gateway_text encode_text
  voice_text VoiceError.missing_endpoint = "Missing endpoint"
  voice_text VoiceError.unexpected_event = "Unexpected event"
  voice_text (VoiceError.gateway e) = gateway_text T e
  voice_text (VoiceError.encode e) = encode_text e
