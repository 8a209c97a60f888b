-- ===== src/SemanticCache/Tests.antt =====
-- A cache over dictionaries: lists and hashes by key.
use cortex_gateway.Prelude.{
  remove, lookup-remove_self, take, ℕ, suc, ◌≤◌, ◌≡◌, refl, ◌⊎◌, true, false, Option, none, some,
  List, [], ◌∷◌, arith, is_some, length, Dict, lookup, insert, lookup-insert_self, Text, codes,
}
use cortex_gateway.Auth.{RequestContext, attribute}
use cortex_gateway.Chat.{ChatCompletionRequest, ChatCompletionResponse, user}
use cortex_gateway.Floats.Scaled.{scaled}
use cortex_gateway.SemanticCache.{Redis, Codec, Settings, index_key, store, cache_lookup}
use cortex_gateway.SemanticCache.Payload.{
  serialize_response, deserialize_response, cached_metadata, deserialize-serialize_response,
}
use cortex_gateway.SemanticCache.Laws.{Hit, cache_lookup-Hit, cache_lookup-RequestContext}
use cortex_gateway.SemanticCache.Index.{store-index}

-- The lists, the hashes and the flags.
pub record Data : Type 0 where
  lists : Dict (List Text)
  hashes : Dict (Dict Text)
  flags : Dict Text

abbrev pub or_empty {ℓ} : {A : Type ℓ} → Option (List A) → List A
or_empty none = []
or_empty (some xs) = xs

abbrev pub trim : Option ℕ → List Text → List Text
trim none xs = xs
trim (some n) xs = take (suc n) xs

abbrev pub values : Text → Data → List Text
values k s = or_empty (lookup k s.lists)

pub push_first :
    (k x : Text) (xs : List Text) (s : Data)
    → some (values k s) ≡ some xs
    → some (or_empty (lookup k (insert k (x ∷ values k s) s.lists))) ≡ some (x ∷ xs)
push_first k x xs s h = rw (lookup-insert_self k (x ∷ values k s) s.lists) (ground (arith, h))

pub trim_first :
    (k : Text) (n : ℕ) (xs : List Text) (s : Data)
    → some (values k s) ≡ some xs
    → some (or_empty (lookup k (insert k (trim (some n) (values k s)) s.lists)))
      ≡ some (take (suc n) xs)
trim_first k n xs s h =
    let same : values k s ≡ xs = ground (arith, h) in
    rw (lookup-insert_self k (trim (some n) (values k s)) s.lists, same) refl

abbrev pub redis : Redis
redis = record {
  Store = Data;
  exists = λ k s. some (is_some (lookup k s.flags));
  lrange = λ k s. some (values k s);
  hgetall = λ k s. some (or_empty (lookup k s.hashes));
  executes = λ s. true;
  hset = λ k m s. record s { hashes = insert k m s.hashes };
  expire = λ k n s. s;
  lpush = λ k x s. record s { lists = insert k (x ∷ values k s) s.lists };
  ltrim = λ k n s. record s { lists = insert k (trim n (values k s)) s.lists };
  set = λ k v s. record s { flags = insert k v s.flags };
  delete = λ k s. record s { flags = remove k s.flags };
  lrange-lpush = push_first;
  lrange-ltrim = trim_first;
  lrange-expire = λ k j n s apart. refl;
  lrange-hset = λ k j m s apart. refl;
  exists-set = λ k v s. rw (lookup-insert_self k v s.flags) refl;
  exists-delete = λ k s. rw (lookup-remove_self k s.flags) refl;
}

abbrev pub request : ChatCompletionRequest ℕ
request = record {
  provider = none;
  model = codes "auto";
  messages = record { role = user; content = codes "hello" } ∷ [];
  routing_mode = none;
  required_capabilities = none;
  temperature = some 7000;
  max_tokens = none;
  top_p = none;
  stop = none;
  failover_enabled = none;
  stream = some false;
}

abbrev response : ChatCompletionResponse ℕ
response = record {
  provider = codes "openai";
  model = codes "gpt-4o";
  choices = record { index = 0; content = codes "hi"; finish_reason = some (codes "stop") } ∷ [];
  usage = record { prompt_tokens = some 3; completion_tokens = some 5; total_tokens = none };
  metadata = cached_metadata scaled (codes "r1") (codes "openai") (codes "gpt-4o");
}

-- Every text has the embedding [1.0], and the digest of every configuration is the same.
abbrev pub codec : Codec ℕ
codec = record {
  embed = λ text. some (10000 ∷ []);
  dump_embedding = λ xs. xs;
  load_embedding = λ text. some text;
  dumps = λ j. codes "json";
  loads = λ text. some (serialize_response scaled response);
  digest = λ config. codes "0123456789abcdef";
  sqrt = λ x. x;
}

abbrev pub cfg : Settings ℕ
cfg = record {
  connected = true;
  enabled = true;
  version = codes "v1";
  ttl = 3600;
  threshold = 9200;
  max_entries = 2;
}

abbrev pub context : RequestContext
context = record {
  organization_id = codes "o";
  team_id = codes "t";
  api_key_id = codes "k";
  role = codes "member";
}

abbrev pub nothing : Data
nothing = record { lists = []; hashes = []; flags = [] }

abbrev stored : Data
stored = store scaled redis codec cfg request context response (codes "e1") (codes "now") nothing

abbrev served : ChatCompletionResponse ℕ
served = record response {
  metadata = cached_metadata scaled (codes "r2") (codes "openai") (codes "gpt-4o");
}

hit :
    cache_lookup scaled redis codec cfg request context (some (codes "r2")) (codes "u") stored
    ≡ some served
unfolding store cache_lookup lookup insert
hit = refl

cache_lookup-Hit_example :
    Hit scaled redis codec cfg request context (some (codes "r2")) (codes "u") stored served
cache_lookup-Hit_example =
    cache_lookup-Hit scaled redis codec cfg request context (some (codes "r2")) (codes "u") stored
      hit

cache_lookup-RequestContext_example :
    cache_lookup scaled redis codec cfg request context
      (attribute (codes "request_id") context)
      (codes "u")
      stored
    ≡ none
cache_lookup-RequestContext_example =
    cache_lookup-RequestContext scaled redis codec cfg request context (codes "u") stored

deserialize-serialize_response_example :
    deserialize_response scaled (serialize_response scaled response) (codes "r2") ≡ some served
deserialize-serialize_response_example = deserialize-serialize_response scaled response (codes "r2")

store-index_example :
    let k = index_key cfg.version context.team_id in
    (ids' : List Text) × (redis.lrange k
        (store scaled redis codec cfg request context response (codes "e1") (codes "now") nothing)
      ≡ some ids')
    × (length ids' ≤ 2)
    × ((ids' ≡ []) ⊎ (ids' ≡ take 2 (codes "e1" ∷ [])))
unfolding lookup
store-index_example =
    store-index scaled redis codec cfg request context response (codes "e1") (codes "now") nothing
      (omega arith) refl (omega arith)
