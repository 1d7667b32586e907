-- ===== src/Discord/Builder/Bits.antt =====
-- discord.rs: which intents a builder asks for after its settings.
use discord_async_rs.Prelude.{
  ℕ, zero, suc, Bool, true, false, not, ◌&&◌, ◌||◌, if◌then◌else◌, String, List, [], ◌∷◌, ◌≡◌,
  arith,
}
use discord_async_rs.Gateway.{GatewayApi}
use discord_async_rs.Discord.Builder.{
  IntentsApi, Builder, with_webhooks, without_presences, with_typing, with_intents, without, new,
}

-- A call on a builder.
pub data Setting (A : GatewayApi) : Type 0 where
  webhooks presences typing : Setting A
  plus minus : A.Intents → Setting A

abbrev pub differ : Bool → Bool → Bool
differ true b = not b
differ false b = b

abbrev pub odd : ℕ → Bool
odd zero = false
odd (suc n) = not (odd n)

-- Intents are sets of bits.
pub record Laws {A : GatewayApi} (I : IntentsApi A) : Type 0 where
  pub has-union : (b : I.Bit) (x y : A.Intents) → I.has b (I.union x y) ≡ I.has b x || I.has b y
  pub has-xor : (b : I.Bit) (x y : A.Intents) → I.has b (I.xor x y) ≡ differ (I.has b x) (I.has b y)
  pub all-webhooks : (b : I.Bit) → I.has b I.guild_webhooks ≡ true → I.has b I.guild_all ≡ true
  pub all-typing : (b : I.Bit) → I.has b I.guild_message_typing ≡ true → I.has b I.guild_all ≡ true
  pub webhooks-typing :
      (b : I.Bit) → I.has b I.guild_webhooks ≡ true → I.has b I.guild_message_typing ≡ false

module _ {A : GatewayApi} (I : IntentsApi A) where
  unfoldable pub set : Setting A → Builder A → Builder A
  unfolding with_webhooks without_presences with_typing with_intents without
  set Setting.webhooks = with_webhooks I
  set Setting.presences = without_presences I
  set Setting.typing = with_typing I
  set (Setting.plus intents) = with_intents I intents
  set (Setting.minus intents) = without I intents

  unfoldable pub set_all : List (Setting A) → Builder A → Builder A
  set_all [] b = b
  set_all (s ∷ ss) b = set_all ss (set s b)

  -- Whether a call adds a bit, or takes it away.
  abbrev pub adds : I.Bit → Setting A → Bool
  adds bit Setting.webhooks = I.has bit I.guild_webhooks
  adds bit Setting.typing = I.has bit I.guild_message_typing
  adds bit (Setting.plus intents) = I.has bit intents
  adds bit _ = false

  abbrev pub takes : I.Bit → Setting A → Bool
  takes bit Setting.presences = I.has bit I.guild_presences
  takes bit (Setting.minus intents) = I.has bit intents
  takes bit _ = false

  abbrev pub added : I.Bit → List (Setting A) → Bool
  added bit [] = false
  added bit (s ∷ ss) = adds bit s || added bit ss

  -- How often a bit is taken away behind the last call that adds it.
  abbrev pub taken : I.Bit → List (Setting A) → ℕ
  taken bit [] = 0
  taken bit (s ∷ ss) =
      let rest = taken bit ss in
      if added bit ss then rest else if takes bit s then suc rest else rest

  -- What a new builder asks for: all but webhooks and typing, and the contents of messages.
  abbrev pub standard : I.Bit → Bool
  standard bit =
      (I.has bit I.guild_all
        && (not (I.has bit I.guild_webhooks) && not (I.has bit I.guild_message_typing)))
      || I.has bit I.message_content

  module _ (laws : Laws I) where
    set-has :
        (bit : I.Bit) (s : Setting A) (b : Builder A)
        → I.has bit (set s b).intents ≡ differ (adds bit s || I.has bit b.intents) (takes bit s)
    unfolding set with_webhooks without_presences with_typing with_intents without
    set-has bit Setting.webhooks b = ground (arith, laws.has-union bit b.intents I.guild_webhooks)
    set-has bit Setting.presences b = ground (arith, laws.has-xor bit b.intents I.guild_presences)
    set-has bit Setting.typing b =
        ground (arith, laws.has-union bit b.intents I.guild_message_typing)
    set-has bit (Setting.plus x) b = ground (arith, laws.has-union bit b.intents x)
    set-has bit (Setting.minus x) b = ground (arith, laws.has-xor bit b.intents x)

    set_all-has :
        (bit : I.Bit) (ss : List (Setting A)) (b : Builder A)
        → I.has bit (set_all ss b).intents
          ≡ differ (added bit ss || I.has bit b.intents) (odd (taken bit ss))
    unfolding set_all
    set_all-has bit [] b = ground arith
    set_all-has bit (s ∷ ss) b = ground (arith, set-has bit s b, set_all-has bit ss (set s b))

    new-has : (bit : I.Bit) (token : String) → I.has bit (new I token).intents ≡ standard bit
    unfolding new
    new-has bit token = ground (
      arith,
      laws.has-union bit (I.xor (I.xor I.guild_all I.guild_webhooks) I.guild_message_typing)
          I.message_content,
      laws.has-xor bit (I.xor I.guild_all I.guild_webhooks) I.guild_message_typing,
      laws.has-xor bit I.guild_all I.guild_webhooks,
      laws.all-webhooks bit,
      laws.all-typing bit,
      laws.webhooks-typing bit,
    )

    -- A builder asks for an intent exactly if the intent is a standard one or was added, and was
    -- taken away an even number of times since: to take away what is not there adds it.
    pub settings-has :
        (bit : I.Bit) (token : String) (ss : List (Setting A))
        → I.has bit (set_all ss (new I token)).intents
          ≡ differ (added bit ss || standard bit) (odd (taken bit ss))
    settings-has bit token ss = ground (arith, set_all-has bit ss (new I token), new-has bit token)
