-- ===== src/SemanticCache/Laws.antt =====
-- What `SemanticCache` promises: what a hit is, the bound of an index, the flag of a team.
use cortex_gateway.Prelude.{
  some-injective, ◌≡◌, refl, sym, ap, ◌∙◌, inl, inr, Bool, true, false, not, ◌||◌, Option, none,
  some, List, arith, if◌then◌else◌, Bool-cases, Option-cases, is_empty, All, In, Dict, lookup, Text,
  codes, text_eq, text_eq_iff,
}
use cortex_gateway.Auth.{RequestContext, attribute}
use cortex_gateway.Chat.{ChatCompletionRequest, ChatCompletionResponse}
use cortex_gateway.Floats.{Floats}
use cortex_gateway.SemanticCache.{
  has_config, Redis, Codec, Settings, Scan, similarity_of, cache_lookup, store, best_match,
  read_entries, reconstruct, index_key, is_team_disabled, disable_for_team, enable_for_team,
}
use cortex_gateway.SemanticCache.Similarity.{
  cosine_similarity, minus_one, build_config_hash, extract_embedding_text,
}
use cortex_gateway.SemanticCache.Payload.{◌>>=◌}
use cortex_gateway.SemanticCache.Best.{IsBelow, scan_entries-IsBest, scan_entries-IsBelow}
use cortex_gateway.SemanticCache.{cosine_similarity}

bind-some :
    {A B : Type 0} (o : Option A) (f : A → Option B) {b : B}
    → (o >>= f) ≡ some b
    → (a : A) × (o ≡ some a) × (f a ≡ some b)
bind-some none f h = ground (arith, h)
bind-some (some a) f h = (a, refl, h)

guard-some :
    {A : Type 0} (b : Bool) {o : Option A} {a : A} → (if b then none else o) ≡ some a → o ≡ some a
guard-some true h = ground (arith, h)
guard-some false h = h

-- The second guard holds.
guard-stops :
    {A : Type 0} (b c : Bool) {x : A} (y : A) → c ≡ true → (if b then x else if c then x else y) ≡ x
guard-stops true c y h = refl
guard-stops false c y h = rw h refl

module _ (fl : Floats) (redis : Redis) (codec : Codec fl.F) (cfg : Settings fl.F) where
  open fl use {F, le}

  -- An entry has a similarity only with the very hash and an embedding that can be read.
  similarity_of-some :
      (hash : Text) (query : List F) (raw : Dict Text) {best : F}
      → similarity_of fl redis codec cfg hash query (some raw) ≡ some best
      → (lookup (codes "config_hash") raw ≡ some hash)
        × ((stored : List F) × (numbers : Text) × (lookup (codes "embedding") raw ≡ some numbers)
            × (codec.load_embedding numbers ≡ some stored)
            × (best ≡ cosine_similarity fl codec.sqrt query stored))
  unfolding similarity_of has_config
  similarity_of-some hash query raw {best} h = elim (Bool-cases (is_empty raw)) [
    | inl e ↦ absurd (ground (arith, rw (e, similarity_of) at h))
    | inr e ↦ elim (Option-cases (lookup (codes "config_hash") raw)) [
      | inl q ↦ absurd (ground (arith, rw (e, q, similarity_of, has_config) at h))
      | inr (found, q) ↦ elim (Bool-cases (text_eq found hash)) [
        | inr d ↦ absurd (ground (arith, rw (e, q, d, similarity_of, has_config) at h))
        | inl d ↦
            let numbers_of : Option (List F) =
              lookup (codes "embedding") raw >>= codec.load_embedding in
            let h1 : (numbers_of >>= λ stored. some (cosine_similarity fl codec.sqrt query stored))
                ≡ some best =
              rw (e, q, d, similarity_of, has_config) at h in
            let (stored, loaded, h2) = bind-some numbers_of _ h1 in
            let (numbers, held, read) =
              bind-some (lookup (codes "embedding") raw) codec.load_embedding loaded in
            (
              q ∙ ap some ((text_eq_iff found hash).0 d),
              (stored, numbers, held, read, sym (some-injective _ _ h2)),
            )
      ]
    ]
  ]

  -- The scan of `best_match`.
  best_match-IsBest :
      (request : ChatCompletionRequest F) (team_id : Text) (query : List F) (ids : List Text)
      (s : redis.Store) {raw : Dict Text}
      → best_match fl redis codec cfg request team_id query ids s ≡ some raw
      → let hash = build_config_hash fl codec.digest request in
        let entries = read_entries fl redis codec cfg team_id ids s in
        (best : F) × In (some raw) entries
        × (similarity_of fl redis codec cfg hash query (some raw) ≡ some best)
        × (le cfg.threshold best ≡ true)
        × All (IsBelow fl redis codec cfg hash query best) entries
  unfolding best_match
  best_match-IsBest request team_id query ids s {raw} h =
      let hash = build_config_hash fl codec.digest request in
      let entries = read_entries fl redis codec cfg team_id ids s in
      let start : Scan F = record { best_similarity = minus_one fl; best_entry_data = none } in
      let (m, e, reaches) =
        scan_entries-IsBest fl redis codec cfg hash query entries entries start (λ e m. m)
          (λ raw e. ground (arith, e)) raw (guard-some _ h) in
      let (grows, below) = scan_entries-IsBelow fl redis codec cfg hash query entries start in
      (_, m, e, reaches, below)

  -- What stands behind a response from the cache: the embedding of the request and an entry of the
  -- team's index.
  pub record Hit (request : ChatCompletionRequest F) (context : RequestContext)
      (request_id : Option Text) (uuid : Text) (s : redis.Store)
      (response : ChatCompletionResponse F) : Type 0 where
    pub query : List F
    pub ids : List Text
    pub raw : Dict Text
    pub best : F
    pub embedded : codec.embed (extract_embedding_text fl request) ≡ some query
    pub indexed : redis.lrange (index_key cfg.version context.team_id) s ≡ some ids
    pub entry : In (some raw) (read_entries fl redis codec cfg context.team_id ids s)
    pub similar :
        similarity_of fl redis codec cfg
          (build_config_hash fl codec.digest request)
          query
          (some raw)
        ≡ some best
    pub configured :
        lookup (codes "config_hash") raw ≡ some (build_config_hash fl codec.digest request)
    pub compared :
        (stored : List F) × (numbers : Text) × (lookup (codes "embedding") raw ≡ some numbers)
        × (codec.load_embedding numbers ≡ some stored)
        × (best ≡ cosine_similarity fl codec.sqrt query stored)
    pub reaches : le cfg.threshold best ≡ true
    pub maximal :
        All
          (IsBelow fl redis codec cfg (build_config_hash fl codec.digest request) query best)
          (read_entries fl redis codec cfg context.team_id ids s)
    pub rebuilt : reconstruct fl redis codec cfg request_id uuid raw ≡ some response

  -- A response comes from the cache only if the request's embedding exists and an entry of the
  -- team's index has the hash of the request's configuration and an embedding whose cosine
  -- similarity to the request's reaches the threshold, no other entry that the loop compares is
  -- more similar, and the response is that entry's.
  pub cache_lookup-Hit :
      (request : ChatCompletionRequest F) (context : RequestContext) (request_id : Option Text)
      (uuid : Text) (s : redis.Store) {response : ChatCompletionResponse F}
      → cache_lookup fl redis codec cfg request context request_id uuid s ≡ some response
      → Hit request context request_id uuid s response
  unfolding cache_lookup
  cache_lookup-Hit request context request_id uuid s h =
      let (query, embedded, h1) = bind-some _ _ (guard-some _ (guard-some _ h)) in
      let (ids, index, h2) = bind-some _ _ h1 in
      let (raw, found, h3) = bind-some _ _ h2 in
      let (best, m, e, reaches, below) =
        best_match-IsBest request context.team_id query ids s found in
      let compared = similarity_of-some (build_config_hash fl codec.digest request) query raw e in
      record {
        query = query;
        ids = ids;
        raw = raw;
        best = best;
        embedded = embedded;
        indexed = index;
        entry = m;
        similar = e;
        configured = compared.0;
        compared = compared.1;
        reaches = reaches;
        maximal = below;
        rebuilt = h3;
      }

  -- The context of a request has no attribute `request_id`: whatever the cache holds, no request
  -- that is answered in such a context is answered from it.
  pub cache_lookup-RequestContext :
      (request : ChatCompletionRequest F) (context : RequestContext) (uuid : Text) (s : redis.Store)
      → cache_lookup fl redis codec cfg request context
          (attribute (codes "request_id") context)
          uuid
          s
        ≡ none
  unfolding cache_lookup reconstruct attribute
  cache_lookup-RequestContext request context uuid s =
      let raised = attribute (codes "request_id") context in
      elim (Option-cases (cache_lookup fl redis codec cfg request context raised uuid s)) [
        | inl e ↦ e
        | inr (response, e) ↦
            let hit = cache_lookup-Hit request context raised uuid s e in
            let h = hit.rebuilt in ground (arith, h)
      ]

  disabled-stops :
      (team_id : Text) (s : redis.Store)
      → redis.executes s ≡ true
      → (is_team_disabled fl redis codec cfg team_id (disable_for_team fl redis codec cfg team_id s)
          || not cfg.connected)
        ≡ true
  unfolding is_team_disabled disable_for_team
  disabled-stops team_id s up = elim (Bool-cases cfg.connected) [
    | inl on ↦ rw (on, up, redis.exists-set) refl
    | inr off ↦ rw off refl
  ]

  enabled-again :
      (team_id : Text) (s : redis.Store)
      → redis.executes s ≡ true
      → is_team_disabled fl redis codec cfg team_id (enable_for_team fl redis codec cfg team_id s)
        ≡ false
  unfolding is_team_disabled enable_for_team
  enabled-again team_id s up = elim (Bool-cases cfg.connected) [
    | inl on ↦ rw (on, up, redis.exists-delete) refl
    | inr off ↦ rw off refl
  ]

  -- Behind `disable_for_team` nothing is looked up and nothing is stored for the team until
  -- `enable_for_team`.
  pub disable-lookup_store :
      (request : ChatCompletionRequest F) (context : RequestContext) (request_id : Option Text)
      (response : ChatCompletionResponse F) (uuid entry_id created_at : Text) (s : redis.Store)
      → redis.executes s ≡ true
      → let off = disable_for_team fl redis codec cfg context.team_id s in
        (cache_lookup fl redis codec cfg request context request_id uuid off ≡ none)
        × (store fl redis codec cfg request context response entry_id created_at off ≡ off)
        × (redis.executes off ≡ true
            → is_team_disabled fl redis codec cfg context.team_id
                (enable_for_team fl redis codec cfg context.team_id off)
              ≡ false)
  unfolding cache_lookup store is_team_disabled disable_for_team enable_for_team
  disable-lookup_store request context request_id response uuid entry_id created_at s up =
      let off = disabled-stops context.team_id s up in
      (guard-stops _ _ _ off, guard-stops _ _ _ off, λ up'. enabled-again context.team_id _ up')
