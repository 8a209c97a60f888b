-- ===== src/SemanticCache/Index.antt =====
-- The index of a team: what `store` makes of it, and its bound.
use cortex_gateway.Prelude.{
  take, ℕ, zero, suc, ◌≤◌, ◌<◌, ◌≡◌, refl, ◌∙◌, ◌≢◌, ◌⊎◌, inl, inr, not, ◌||◌, some, List, [], ◌∷◌,
  ◌++◌, arith, Bool-cases, Option-cases, length, is_empty, Dict, Text, codes,
}
use cortex_gateway.Auth.{RequestContext}
use cortex_gateway.Chat.{ChatCompletionRequest, ChatCompletionResponse}
use cortex_gateway.Floats.{Floats}
use cortex_gateway.SemanticCache.{
  Redis, Codec, Settings, store, index_key, entry_key, team_key, write_entry, last_index, entry_of,
  is_team_disabled, is_eligible,
}
use cortex_gateway.SemanticCache.Similarity.{extract_embedding_text}

append-cancel : (xs : Text) {ys zs : Text} → xs ++ ys ≡ xs ++ zs → ys ≡ zs
append-cancel [] h = h
append-cancel (x ∷ xs) h = append-cancel xs (ground (arith, h))

take-length-le : {A : Type 0} (n : ℕ) (xs : List A) → length (take n xs) ≤ n
take-length-le zero xs = omega arith
take-length-le (suc n) [] = omega arith
take-length-le (suc n) (x ∷ xs) = omega (arith, take-length-le n xs)

team_key-injective :
    (version team_id : Text) {a b : Text}
    → team_key version team_id a ≡ team_key version team_id b
    → a ≡ b
unfolding team_key
team_key-injective version team_id h = append-cancel (codes ":") (
    append-cancel team_id (
      append-cancel (codes ":team:")
        (append-cancel version (append-cancel (codes "semantic_cache:") h))))

index_key-entry_key :
    (version team_id entry_id : Text)
    → index_key version team_id ≢ entry_key version team_id entry_id
unfolding index_key entry_key
index_key-entry_key version team_id entry_id h =
    let e : codes "index" ≡ codes "entry:" ++ entry_id = team_key-injective version team_id h in
    ground (arith, e)

module _ (fl : Floats) (redis : Redis) (codec : Codec fl.F) (cfg : Settings fl.F) where
  open fl use {F}

  ltrim-last :
      (n : ℕ) (k : Text) (xs : List Text) (s : redis.Store)
      → 0 < n
      → redis.lrange k s ≡ some xs
      → redis.lrange k (redis.ltrim k (last_index n) s) ≡ some (take n xs)
  unfolding last_index
  ltrim-last zero k xs s h e = ground arith
  ltrim-last (suc n) k xs s h e = redis.lrange-ltrim k n xs s e

  write_entry-index :
      (team_id entry_id : Text) (fields : Dict Text) (s : redis.Store) {ids : List Text}
      → 0 < cfg.max_entries
      → redis.lrange (index_key cfg.version team_id) s ≡ some ids
      → redis.lrange
          (index_key cfg.version team_id)
          (write_entry fl redis codec cfg team_id entry_id fields s)
        ≡ some (take cfg.max_entries (entry_id ∷ ids))
  unfolding write_entry
  write_entry-index team_id entry_id fields s h index =
      let apart = index_key-entry_key cfg.version team_id entry_id in
      ltrim-last cfg.max_entries _ _ _ h (
        redis.lrange-lpush _ _ _ _
          (redis.lrange-expire _ _ _ _ apart ∙ (redis.lrange-hset _ _ _ _ apart ∙ index)))

  -- `store` does nothing, or runs the pipeline.
  store-cases :
      (request : ChatCompletionRequest F) (context : RequestContext)
      (response : ChatCompletionResponse F) (entry_id created_at : Text) (s : redis.Store)
      → let s' = store fl redis codec cfg request context response entry_id created_at s in
        (s' ≡ s)
        ⊎ ((fields : Dict Text) × (s'
              ≡ write_entry fl redis codec cfg context.team_id entry_id fields s))
  unfolding store
  store-cases request context response entry_id created_at s =
      let excluded = not cfg.enabled || not (is_eligible fl request) || is_empty context.team_id in
      let stopped = is_team_disabled fl redis codec cfg context.team_id s || not cfg.connected in
      elim (Bool-cases excluded) [
        | inl off ↦ inl (rw (off, store) refl)
        | inr on ↦ elim (Bool-cases stopped) [
          | inl off ↦ inl (rw (on, off, store) refl)
          | inr on' ↦ elim (Option-cases (codec.embed (extract_embedding_text fl request))) [
            | inl e ↦ inl (rw (on, on', e, store) refl)
            | inr (embedding, e) ↦ elim (Bool-cases (redis.executes s)) [
              | inl up ↦ inr (
                entry_of fl redis codec cfg request response embedding created_at,
                rw (on, on', e, up, store) refl,
              )
              | inr down ↦ inl (rw (on, on', e, down, store) refl)
            ]
          ]
        ]
      ]

  -- An index with no more entries than the limit keeps to the limit: `store` leaves it as it is, or
  -- puts the new entry first and drops the oldest entries past the limit.
  pub store-index :
      (request : ChatCompletionRequest F) (context : RequestContext)
      (response : ChatCompletionResponse F) (entry_id created_at : Text) (s : redis.Store)
      {ids : List Text}
      → 0 < cfg.max_entries
      → redis.lrange (index_key cfg.version context.team_id) s ≡ some ids
      → length ids ≤ cfg.max_entries
      → (ids' : List Text) × (redis.lrange
            (index_key cfg.version context.team_id)
            (store fl redis codec cfg request context response entry_id created_at s)
          ≡ some ids')
        × (length ids' ≤ cfg.max_entries)
        × ((ids' ≡ ids) ⊎ (ids' ≡ take cfg.max_entries (entry_id ∷ ids)))
  store-index request context response entry_id created_at s h index bound =
      elim (store-cases request context response entry_id created_at s) [
        | inl same ↦ rw same (_, index, bound, inl refl)
        | inr (fields, new) ↦ rw new (
          _,
          write_entry-index context.team_id entry_id fields s h index,
          take-length-le cfg.max_entries _,
          inr refl,
        )
      ]
