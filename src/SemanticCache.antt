-- ===== src/SemanticCache.antt =====
-- The semantic cache: `SemanticCache` of backend/app/semantic_cache/cache.py. What lies outside is
-- the record `Redis`, its commands with what its documentation says of them, and the record
-- `Codec`: the embedding client, JSON, the digest and the square root. A team's index is a list of
-- entry ids, newest first; an entry is a dictionary of texts. What is parsed as an embedding is a
-- list of numbers, since `store` writes nothing else. Log lines are left out.
pub mod Similarity
pub mod Payload
pub mod Best
pub mod Laws
pub mod Index
pub mod Tests
use cortex_gateway.Prelude.{
  take, ℕ, zero, suc, ◌+◌, ◌-◌, ◌≡◌, ◌≢◌, Bool, true, false, not, ◌&&◌, ◌||◌, Option, none, some,
  List, [], ◌∷◌, ◌++◌, map, if◌then◌else◌, any, is_empty, Dict, lookup, Text, codes, text_eq,
}
use cortex_gateway.Auth.{RequestContext}
use cortex_gateway.Chat.{ChatCompletionRequest, ChatCompletionResponse}
use cortex_gateway.Floats.{Floats, lt}
use Similarity.{
  CacheConfig, minus_one, cosine_similarity, is_user, extract_embedding_text, build_config_hash,
}
use Payload.{Json, serialize_response, deserialize_response, ◌>>=◌}

-- A read is none where the command raises; `executes` is false where a write raises, which then
-- changes nothing. `hgetall` of a key that is missing is empty. `ltrim k stop` keeps the elements
-- 0 to `stop`; none stands for the stop -1, the last element.
pub record Redis : Type 1 where
  pub Store : Type 0
  pub exists : Text → Store → Option Bool
  pub lrange : Text → Store → Option (List Text)
  pub hgetall : Text → Store → Option (Dict Text)
  pub executes : Store → Bool
  pub hset : Text → Dict Text → Store → Store
  pub expire : Text → ℕ → Store → Store
  pub lpush : Text → Text → Store → Store
  pub ltrim : Text → Option ℕ → Store → Store
  pub set : Text → Text → Store → Store
  pub delete : Text → Store → Store
  pub lrange-lpush :
      (k x : Text) (xs : List Text) (s : Store)
      → lrange k s ≡ some xs
      → lrange k (lpush k x s) ≡ some (x ∷ xs)
  pub lrange-ltrim :
      (k : Text) (n : ℕ) (xs : List Text) (s : Store)
      → lrange k s ≡ some xs
      → lrange k (ltrim k (some n) s) ≡ some (take (suc n) xs)
  pub lrange-expire :
      (k j : Text) (n : ℕ) (s : Store) → k ≢ j → lrange k (expire j n s) ≡ lrange k s
  pub lrange-hset :
      (k j : Text) (m : Dict Text) (s : Store) → k ≢ j → lrange k (hset j m s) ≡ lrange k s
  pub exists-set : (k v : Text) (s : Store) → exists k (set k v s) ≡ some true
  pub exists-delete : (k : Text) (s : Store) → exists k (delete k s) ≡ some false

-- `embed` is none where the client is missing or raises; `load_embedding` and `loads` are none where
-- the text does not parse.
pub record Codec (F : Type 0) : Type 0 where
  pub embed : Text → Option (List F)
  pub dump_embedding : List F → Text
  pub load_embedding : Text → Option (List F)
  pub dumps : Json → Text
  pub loads : Text → Option Json
  pub digest : CacheConfig F → Text
  pub sqrt : F → F

-- The settings; `connected` is false where there is no Redis client.
pub record Settings (F : Type 0) : Type 0 where
  pub connected : Bool
  pub enabled : Bool
  pub version : Text
  pub ttl : ℕ
  pub threshold : F
  pub max_entries : ℕ

-- `semantic_cache:<version>:team:<team_id>:<what>`.
unfoldable pub team_key : Text → Text → Text → Text
team_key version team_id what =
    codes "semantic_cache:" ++ (version ++ (codes ":team:" ++ (team_id ++ (codes ":" ++ what))))

unfoldable pub index_key : Text → Text → Text
unfolding team_key
index_key version team_id = team_key version team_id (codes "index")

unfoldable pub entry_key : Text → Text → Text → Text
unfolding team_key
entry_key version team_id entry_id = team_key version team_id (codes "entry:" ++ entry_id)

unfoldable pub disabled_key : Text → Text → Text
unfolding team_key
disabled_key version team_id = team_key version team_id (codes "disabled")

-- The stop `max_entries - 1`.
unfoldable pub last_index : ℕ → Option ℕ
last_index zero = none
last_index (suc n) = some n

-- `raw.get("config_hash") == config_hash`.
unfoldable pub has_config : Text → Dict Text → Bool
has_config hash raw = elim (lookup (codes "config_hash") raw) [
  | none ↦ false
  | some c ↦ text_eq c hash
]

-- The best similarity so far, and the entry of the last one that reached the threshold.
pub record Scan (F : Type 0) : Type 0 where
  pub best_similarity : F
  pub best_entry_data : Option (Dict Text)

module _ (fl : Floats) where
  open fl use {F, le}

  -- `_is_eligible`.
  unfoldable pub is_eligible : ChatCompletionRequest F → Bool
  unfolding is_user
  is_eligible request = elim request.stream [
    | some true ↦ false
    | some false ↦ any (λ m. is_user m.role) request.messages
    | none ↦ any (λ m. is_user m.role) request.messages
  ]

  module _ (redis : Redis) (codec : Codec F) (cfg : Settings F) where
    open redis use {
      Store, exists, lrange, hgetall, executes, hset, expire, lpush, ltrim, set, delete,
    }
    open codec use {embed, dump_embedding, load_embedding, dumps, loads, digest, sqrt}
    open cfg use {connected, enabled, version, ttl, threshold, max_entries}

    -- `_is_team_disabled`; a command that raises counts as not disabled.
    unfoldable pub is_team_disabled : Text → Store → Bool
    unfolding disabled_key
    is_team_disabled team_id s =
        if connected
        then elim (exists (disabled_key version team_id) s) [ none ↦ false | some b ↦ b ]
        else false

    -- The similarity of an entry to the query, none where the loop skips the entry.
    unfoldable pub similarity_of : Text → List F → Option (Dict Text) → Option F
    unfolding has_config cosine_similarity
    similarity_of hash query none = none
    similarity_of hash query (some raw) =
        if is_empty raw
        then none
        else if has_config hash raw
        then (lookup (codes "embedding") raw >>= load_embedding >>= λ stored.
            some (cosine_similarity fl sqrt query stored))
        else none

    -- One entry of the loop.
    unfoldable pub consider : Text → List F → Scan F → Option (Dict Text) → Scan F
    unfolding similarity_of
    consider hash query scan raw = elim (similarity_of hash query raw) [
      | none ↦ scan
      | some sim ↦
          if lt fl scan.best_similarity sim
          then record {
            best_similarity = sim;
            best_entry_data = if le threshold sim then raw else scan.best_entry_data;
          }
          else scan
    ]

    unfoldable pub scan_entries : Text → List F → Scan F → List (Option (Dict Text)) → Scan F
    unfolding consider
    scan_entries hash query scan [] = scan
    scan_entries hash query scan (raw ∷ raws) =
        scan_entries hash query (consider hash query scan raw) raws

    unfoldable pub read_entries : Text → List Text → Store → List (Option (Dict Text))
    unfolding entry_key
    read_entries team_id ids s = map (λ i. hgetall (entry_key version team_id i) s) ids

    -- The entry that answers a request.
    unfoldable pub best_match :
        ChatCompletionRequest F → Text → List F → List Text → Store → Option (Dict Text)
    unfolding scan_entries read_entries build_config_hash
    best_match request team_id query ids s =
        let scan =
          scan_entries (build_config_hash fl digest request) query
            (record { best_similarity = minus_one fl; best_entry_data = none })
            (read_entries team_id ids s) in
        if lt fl scan.best_similarity threshold then none else scan.best_entry_data

    -- `_deserialize_response` of an entry, with the id `context.request_id or str(uuid.uuid4())`;
    -- the attribute is none where reading it raises.
    unfoldable pub reconstruct : Option Text → Text → Dict Text → Option (ChatCompletionResponse F)
    unfolding deserialize_response
    reconstruct request_id uuid raw = request_id >>= λ given.
        lookup (codes "response_json") raw >>= loads >>= λ data'.
        deserialize_response fl data' (if is_empty given then uuid else given)

    -- `lookup`; `request_id` is what reading `context.request_id` gives.
    unfoldable pub cache_lookup :
        ChatCompletionRequest F
        → RequestContext
        → Option Text
        → Text
        → Store
        → Option (ChatCompletionResponse F)
    unfolding is_eligible is_team_disabled extract_embedding_text index_key best_match reconstruct
    cache_lookup request context request_id uuid s =
        let team_id = context.team_id in
        if not enabled || not (is_eligible request) || is_empty team_id
        then none
        else if is_team_disabled team_id s || not connected
        then none
        else (embed (extract_embedding_text fl request) >>= λ query.
            lrange (index_key version team_id) s >>= λ ids.
            best_match request team_id query ids s >>= reconstruct request_id uuid)

    -- The fields of an entry.
    unfoldable pub entry_of :
        ChatCompletionRequest F → ChatCompletionResponse F → List F → Text → Dict Text
    unfolding serialize_response build_config_hash
    entry_of request response embedding created_at =
        (codes "embedding", dump_embedding embedding)
        ∷ (codes "response_json", dumps (serialize_response fl response))
        ∷ (codes "provider", response.provider)
        ∷ (codes "model", response.model)
        ∷ (codes "config_hash", build_config_hash fl digest request)
        ∷ (codes "created_at", created_at)
        ∷ []

    -- The commands of the pipeline.
    unfoldable pub write_entry : Text → Text → Dict Text → Store → Store
    unfolding index_key entry_key last_index
    write_entry team_id entry_id fields s =
        let key = entry_key version team_id entry_id in
        let index = index_key version team_id in
        ltrim index (last_index max_entries)
          (lpush index entry_id (expire key ttl (hset key fields s)))

    -- `store`.
    unfoldable pub store :
        ChatCompletionRequest F
        → RequestContext
        → ChatCompletionResponse F
        → Text
        → Text
        → Store
        → Store
    unfolding is_eligible is_team_disabled extract_embedding_text entry_of write_entry
    store request context response entry_id created_at s =
        let team_id = context.team_id in
        if not enabled || not (is_eligible request) || is_empty team_id
        then s
        else if is_team_disabled team_id s || not connected
        then s
        else elim (embed (extract_embedding_text fl request)) [
          | none ↦ s
          | some embedding ↦
              if executes s
              then write_entry team_id entry_id (entry_of request response embedding created_at) s
              else s
        ]

    unfoldable pub disable_for_team : Text → Store → Store
    unfolding disabled_key
    disable_for_team team_id s =
        if connected && executes s then set (disabled_key version team_id) (codes "1") s else s

    unfoldable pub enable_for_team : Text → Store → Store
    unfolding disabled_key
    enable_for_team team_id s =
        if connected && executes s then delete (disabled_key version team_id) s else s
