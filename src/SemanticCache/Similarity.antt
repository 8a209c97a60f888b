-- ===== src/SemanticCache/Similarity.antt =====
-- What a cached entry is found by: backend/app/semantic_cache/similarity.py. The square root and the
-- digest, the first 16 digits of the SHA-256 of the configuration's JSON, are parameters.
use cortex_gateway.Prelude.{
  ℕ, Bool, true, false, not, ◌||◌, Option, none, some, List, [], ◌∷◌, ◌++◌, map, ◌==◌,
  if◌then◌else◌, length, keep, is_empty, last_or, head, Text, codes, strip,
}
use cortex_gateway.Chat.{ChatMessage, ChatCompletionRequest, Role, user, system, assistant}
use cortex_gateway.Providers.{sort_texts}
use cortex_gateway.Floats.{Floats, f0, f1, fmax, fmin, feq}

unfoldable pub is_user : Role → Bool
is_user user = true
is_user system = false
is_user assistant = false

unfoldable pub is_system : Role → Bool
is_system system = true
is_system user = false
is_system assistant = false

-- `" ".join(…)`.
unfoldable pub join_words : List Text → Text
join_words [] = []
join_words (x ∷ []) = x
join_words (x ∷ y ∷ ys) = x ++ (codes " " ++ join_words (y ∷ ys))

abbrev pub content_of : ChatMessage → Text
content_of m = m.content

-- `sorted(x) if x else None`.
unfoldable pub sorted_or_none : Option (List Text) → Option (List Text)
unfolding sort_texts
sorted_or_none none = none
sorted_or_none (some xs) = if is_empty xs then none else some (sort_texts xs)

-- The parameters of a request that its response depends on.
pub record CacheConfig (F : Type 0) : Type 0 where
  pub system_prompt : Option Text
  pub temperature : Option F
  pub max_tokens : Option ℕ
  pub top_p : Option F
  pub stop : Option (List Text)
  pub required_capabilities : Option (List Text)

unfoldable pub system_prompt_of : List ChatMessage → Option Text
unfolding is_system
system_prompt_of messages = head (map content_of (keep (λ m. is_system m.role) messages))

module _ (fl : Floats) where
  open fl use {F, add, sub, mul, div, sum}

  -- `zip(a, b)` with each pair multiplied.
  unfoldable pub products : List F → List F → List F
  products [] bs = []
  products (a ∷ as') [] = []
  products (a ∷ as') (b ∷ bs) = mul a b ∷ products as' bs

  -- `-1.0`.
  abbrev pub minus_one : F
  minus_one = sub (f0 fl) (f1 fl)

  unfoldable pub cosine_similarity : (F → F) → List F → List F → F
  unfolding products fmax fmin
  cosine_similarity sqrt a b =
      let dot = sum (products a b) in
      let norm_a = sqrt (sum (products a a)) in
      let norm_b = sqrt (sum (products b b)) in
      if not (length a == length b)
      then f0 fl
      else if feq fl norm_a (f0 fl) || feq fl norm_b (f0 fl)
      then f0 fl
      else fmax fl minus_one (fmin fl (f1 fl) (div dot (mul norm_a norm_b)))

  unfoldable pub extract_embedding_text : ChatCompletionRequest F → Text
  unfolding is_user is_system join_words
  extract_embedding_text request =
      elim (map content_of (keep (λ m. is_user m.role) request.messages)) [
        | m ∷ ms ↦ last_or m ms
        | [] ↦
            strip
              (join_words (map content_of (keep (λ m. not (is_system m.role)) request.messages)))
      ]

  unfoldable pub config_of : ChatCompletionRequest F → CacheConfig F
  unfolding system_prompt_of sorted_or_none
  config_of request = record {
    system_prompt = system_prompt_of request.messages;
    temperature = request.temperature;
    max_tokens = request.max_tokens;
    top_p = request.top_p;
    stop = sorted_or_none request.stop;
    required_capabilities = sorted_or_none request.required_capabilities;
  }

  unfoldable pub build_config_hash : (CacheConfig F → Text) → ChatCompletionRequest F → Text
  unfolding config_of
  build_config_hash digest request = digest (config_of request)
