-- ===== src/Discord/Builder/Tests.antt =====
-- discord.rs: the theorems on builders at concrete intents and attempts.
use discord_async_rs.Prelude.{
  ℕ, Bool, true, false, ◌||◌, none, some, String, List, [], ◌∷◌, ok, ◌≡◌, ◌==◌, refl, arith, ltb,
}
use discord_async_rs.Gateway.{GatewayApi, is_shutdown}
use discord_async_rs.Gateway.Tests.{api as wire_api, payload, wire}
use discord_async_rs.Gateway.Handshake.{Item, read_hello, read_event, open_session, connect}
use discord_async_rs.Client.Tests.{api as client_api}
use discord_async_rs.Client.Connect.{HttpApi, new}
use discord_async_rs.Discord.{Attempt}
use discord_async_rs.Discord.Builder.{IntentsApi, Builder, build}
use discord_async_rs.Discord.Builder
use discord_async_rs.Discord.Builder.Bits.{
  Setting, Laws, set_all, added, taken, standard, odd, differ, settings-has,
}
use discord_async_rs.Discord.Builder.Built.{build_exact}

-- Intents as sets of numbers of bits.
abbrev api : GatewayApi
api = record wire_api { Intents = ℕ → Bool }

abbrev intents : IntentsApi api
intents = record {
  Bit = ℕ;
  has = λ b x. x b;
  union = λ x y b. x b || y b;
  xor = λ x y b. differ (x b) (y b);
  guild_all = λ b. ltb b 12;
  guild_webhooks = λ b. b == 5;
  guild_presences = λ b. b == 8;
  guild_message_typing = λ b. b == 11;
  message_content = λ b. b == 15;
}

intents-Laws : Laws intents
intents-Laws = record {
  has-union = λ b x y. refl;
  has-xor = λ b x y. refl;
  all-webhooks = λ b e. ground arith;
  all-typing = λ b e. ground arith;
  webhooks-typing = λ b e. ground arith;
}

abbrev twice : List (Setting api)
twice = Setting.presences ∷ Setting.minus (λ b. b == 8) ∷ []

settings-has_example :
    (set_all intents twice (Builder.new intents "t")).intents 8
    ≡ differ (added intents 8 twice || standard intents 8) (odd (taken intents 8 twice))
settings-has_example = settings-has intents intents-Laws 8 "t" twice

abbrev pub http : HttpApi client_api
http = record {
  HeaderValue = String;
  from_str = λ s. some s;
  Http = ℕ;
  build = λ a b n. ok n;
  version = "0.1.0";
}

-- The first attempt finds no gateway, the second one is answered.
abbrev pub attempt : List (Item wire_api) → Attempt wire_api
attempt items = record {
  wire = wire items;
  on_online = none;
  on_first = none;
  on_invalidated = none;
  on_offline = none;
  turns = [];
  asked_before = false;
  asked_after = false;
}

abbrev pub attempts : List (Attempt wire_api)
attempts = attempt [] ∷ attempt (ok (payload none 0) ∷ ok (payload (some 1) 1) ∷ []) ∷ []

abbrev pub asked : Builder wire_api
asked = record { token = "t"; intents = 3 }

pub built_bot :
    build http asked attempts
    ≡ some (ok (record { application = 5; user = 6; client = 10; shutdown = true }))
unfolding new read_hello read_event open_session connect is_shutdown
built_bot = build_exact http asked attempts

build_exact_example :
    build http asked attempts
    ≡ some (ok (record { application = 5; user = 6; client = 10; shutdown = true }))
unfolding new read_hello read_event open_session connect is_shutdown
build_exact_example = build_exact http asked attempts
