-- ===== src/Client/Quiet.antt =====
-- client.rs: responses to an interaction without content, embeds and rows.
use discord_async_rs.Prelude.{ℕ, Bool, none, String, List, [], ◌∷◌, ◌≡◌, refl, arith, All}
use discord_async_rs.Client.{ClientApi}
use discord_async_rs.Client.Requests.{post_discard}
use discord_async_rs.Client.Responses.{
  InteractionResponse, Setting, new, set, set_all, deferred, kept, send,
}

-- A setting of the flags or the mentions.
abbrev pub IsQuiet : {A : ClientApi} → Setting A → Type 0
IsQuiet Setting.ephemeral = Unit
IsQuiet (Setting.allowed_mentions m) = Unit
IsQuiet _ = ⊥

module _ {A : ClientApi} where
  -- The same response but for the data, which neither sends.
  abbrev Silent : InteractionResponse A → InteractionResponse A → Type 0
  Silent r s =
      (r.interaction_id ≡ s.interaction_id)
      × (r.token ≡ s.token)
      × (r.ir.response_type ≡ s.ir.response_type)
      × (kept r.ir.data_ ≡ none)
      × (kept s.ir.data_ ≡ none)

  set-Silent :
      (x : Setting A) (r s : InteractionResponse A) → IsQuiet x → Silent r s → Silent (set x r) s
  unfolding set
  set-Silent (Setting.ephemeral) r s q h = ground arith
  set-Silent (Setting.allowed_mentions m) r s q h = ground arith
  set-Silent (Setting.content _) r s q h = absurd q
  set-Silent Setting.clear_embeds r s q h = absurd q
  set-Silent (Setting.embed _) r s q h = absurd q
  set-Silent Setting.clear_component_rows r s q h = absurd q
  set-Silent (Setting.component_rows _) r s q h = absurd q
  set-Silent (Setting.component_row _) r s q h = absurd q

  set_all-Silent :
      (xs : List (Setting A)) (r s : InteractionResponse A)
      → All IsQuiet xs
      → Silent r s
      → Silent (set_all xs r) s
  set_all-Silent [] r s q h = h
  set_all-Silent (x ∷ xs) r s q h = set_all-Silent xs (set x r) s q.1 (set-Silent x r s q.0 h)

  send-Silent :
      (r s : InteractionResponse A)
      → Silent r s
      → (send (deferred r)).request ≡ (send (deferred s)).request
  unfolding send deferred post_discard
  send-Silent r s h = cc

  -- On a deferred response `ephemeral` and `allowed_mentions` change nothing of the request,
  -- unless content, embeds or rows are set as well.
  pub send-quiet :
      (id : ℕ) (token : String) (component : Bool) (xs : List (Setting A))
      → All IsQuiet xs
      → (send (deferred (set_all xs (new id token component)))).request
        ≡ (send (deferred (new id token component))).request
  unfolding new
  send-quiet id token component xs q =
      send-Silent (set_all xs (new id token component)) (new id token component) (
        set_all-Silent xs (new id token component) (new id token component) q
          (refl, refl, refl, refl, refl))
