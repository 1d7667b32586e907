-- ===== src/Client/Sent.antt =====
-- client.rs: what a message that was built sends.
use discord_async_rs.Prelude.{
  Bool, true, false, Option, none, some, String, List, [], ◌∷◌, ◌++◌, ◌≡◌, arith, if◌then◌else◌,
}
use mathlib.Core.List.{append-nil, append_assoc}
use discord_async_rs.Prelude.Maps.{or_else}
use discord_async_rs.Client.{ClientApi}
use discord_async_rs.Client.Components.{Component}
use discord_async_rs.Client.Builders.{CreateMessage, Setting, row_components, set}

module _ {A : ClientApi} where
  abbrev pub set_all : List (Setting A) → CreateMessage A → CreateMessage A
  set_all [] m = m
  set_all (s ∷ ss) m = set_all ss (set s m)

  -- The last content among the settings, all embeds, and the last attachment.
  abbrev pub content_of : List (Setting A) → Option String
  content_of [] = none
  content_of (Setting.content c ∷ ss) = or_else (content_of ss) (some c)
  content_of (s ∷ ss) = content_of ss

  abbrev pub embeds_of : List (Setting A) → List A.Embed
  embeds_of [] = []
  embeds_of (Setting.embed e ∷ ss) = e ∷ embeds_of ss
  embeds_of (s ∷ ss) = embeds_of ss

  abbrev pub attachment_of : List (Setting A) → Option A.Attachment
  attachment_of [] = none
  attachment_of (Setting.attachment a ∷ ss) = or_else (attachment_of ss) (some a)
  attachment_of (s ∷ ss) = attachment_of ss

  -- Whether the rows are replaced, and those from then on.
  abbrev pub rows_of : List (Setting A) → Bool × List (Component A)
  rows_of [] = (false, [])
  rows_of (Setting.component_rows rs ∷ ss) =
      (true, if (rows_of ss).0 then (rows_of ss).1 else row_components rs ++ (rows_of ss).1)
  rows_of (Setting.component_row r ∷ ss) =
      ((rows_of ss).0, if (rows_of ss).0 then (rows_of ss).1 else r.component ∷ (rows_of ss).1)
  rows_of (s ∷ ss) = rows_of ss

  abbrev pub collected : List (Setting A) → CreateMessage A → CreateMessage A
  collected ss m = record {
    channel_id = m.channel_id;
    attachment = or_else (attachment_of ss) m.attachment;
    cm = record {
      content = or_else (content_of ss) m.cm.content;
      embeds = m.cm.embeds ++ embeds_of ss;
      components = if (rows_of ss).0 then (rows_of ss).1 else m.cm.components ++ (rows_of ss).1;
    };
  }

  collected-set :
      (s : Setting A) (ss : List (Setting A)) (m : CreateMessage A)
      → collected ss (set s m) ≡ collected (s ∷ ss) m
  unfolding set
  collected-set (Setting.content c) ss m = ground arith
  collected-set (Setting.embed e) ss m =
      ground (arith, append_assoc m.cm.embeds (e ∷ []) (embeds_of ss))
  collected-set (Setting.attachment a) ss m = ground arith
  collected-set (Setting.component_rows rs) ss m = ground arith
  collected-set (Setting.component_row r) ss m =
      ground (arith, append_assoc m.cm.components (r.component ∷ []) (rows_of ss).1)

  -- A message holds the last content and attachment that were given, every embed in order, and the
  -- rows from the last time that they were replaced on.
  pub set_all-collects :
      (ss : List (Setting A)) (m : CreateMessage A) → set_all ss m ≡ collected ss m
  unfolding set
  set_all-collects [] m = ground (arith, append-nil m.cm.embeds, append-nil m.cm.components)
  set_all-collects (s ∷ ss) m = rw (set_all-collects ss (set s m)) (collected-set s ss m)
