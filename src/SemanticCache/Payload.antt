-- ===== src/SemanticCache/Payload.antt =====
-- The response as a cached entry holds it: `_serialize_response` and `_deserialize_response` of
-- backend/app/semantic_cache/cache.py. `json` writes and reads values of `Json`.
use cortex_gateway.Prelude.{
  ℕ, ◌≡◌, refl, true, false, Option, none, some, List, [], ◌∷◌, if◌then◌else◌, Text, codes, text_eq,
}
use cortex_gateway.Chat.{
  UsageMetadata, ResponseMetadata, ChatCompletionChoice, ChatCompletionResponse,
}
use cortex_gateway.Floats.{Floats, f0}

mutual
  pub data Json : Type 0 where
    null : Json
    number : ℕ → Json
    string : Text → Json
    array : Items → Json
    object : Fields → Json

  pub data Items : Type 0 where
    end : Items
    item : Json → Items → Items

  pub data Fields : Type 0 where
    close : Fields
    field : Text → Json → Fields → Fields

infixl 5 ◌>>=◌
abbrev pub ◌>>=◌ : {A B : Type 0} → Option A → (A → Option B) → Option B
none >>= f = none
some a >>= f = f a

-- `x["name"]`, none where it raises.
unfoldable pub member : Text → Fields → Option Json
member name close = none
member name (field n v fs) = let rest = member name fs in if text_eq n name then some v else rest

unfoldable pub get_item : Text → Json → Option Json
unfolding member
get_item name (object fs) = member name fs
get_item name null = none
get_item name (number n) = none
get_item name (string t) = none
get_item name (array xs) = none

-- `x.get("name")`, null where the member is missing.
unfoldable pub get_or_null : Text → Json → Option Json
unfolding member
get_or_null name (object fs) = some (elim (member name fs) [ none ↦ null | some v ↦ v ])
get_or_null name null = none
get_or_null name (number n) = none
get_or_null name (string t) = none
get_or_null name (array xs) = none

-- The checks of the response's fields.
unfoldable pub as_text : Json → Option Text
as_text (string t) = some t
as_text null = none
as_text (number n) = none
as_text (array xs) = none
as_text (object fs) = none

unfoldable pub as_number : Json → Option ℕ
as_number (number n) = some n
as_number null = none
as_number (string t) = none
as_number (array xs) = none
as_number (object fs) = none

unfoldable pub as_items : Json → Option Items
as_items (array xs) = some xs
as_items null = none
as_items (number n) = none
as_items (string t) = none
as_items (object fs) = none

-- `None` is allowed.
unfoldable pub or_null {ℓ} : {A : Type ℓ} → (Json → Option A) → Json → Option (Option A)
or_null check null = some none
or_null check (number n) = elim (check (number n)) [ none ↦ none | some a ↦ some (some a) ]
or_null check (string t) = elim (check (string t)) [ none ↦ none | some a ↦ some (some a) ]
or_null check (array xs) = elim (check (array xs)) [ none ↦ none | some a ↦ some (some a) ]
or_null check (object fs) = elim (check (object fs)) [ none ↦ none | some a ↦ some (some a) ]

unfoldable pub optional_number : Option ℕ → Json
optional_number none = null
optional_number (some n) = number n

unfoldable pub optional_text : Option Text → Json
optional_text none = null
optional_text (some t) = string t

unfoldable pub serialize_choice : ChatCompletionChoice → Json
unfolding optional_text
serialize_choice c = object (
    field (codes "index") (number c.index) (
      field (codes "message")
        (object (
          field (codes "role") (string (codes "assistant"))
            (field (codes "content") (string c.content) close)))
        (field (codes "finish_reason") (optional_text c.finish_reason) close)))

unfoldable pub serialize_choices : List ChatCompletionChoice → Items
unfolding serialize_choice
serialize_choices [] = end
serialize_choices (c ∷ cs) = item (serialize_choice c) (serialize_choices cs)

unfoldable pub serialize_usage : UsageMetadata → Json
unfolding optional_number
serialize_usage u = object (
    field (codes "prompt_tokens") (optional_number u.prompt_tokens) (
      field (codes "completion_tokens") (optional_number u.completion_tokens)
        (field (codes "total_tokens") (optional_number u.total_tokens) close)))

unfoldable pub deserialize_choice : Json → Option ChatCompletionChoice
unfolding get_item get_or_null as_text as_number or_null
deserialize_choice c = get_item (codes "index") c >>= as_number >>= λ index.
    get_item (codes "message") c >>= λ message.
    get_item (codes "role") message >>= as_text >>= λ role.
    get_item (codes "content") message >>= as_text >>= λ content.
    get_or_null (codes "finish_reason") c >>= or_null as_text >>= λ reason.
    if text_eq role (codes "assistant")
    then some (record { index = index; content = content; finish_reason = reason })
    else none

unfoldable pub deserialize_choices : Items → Option (List ChatCompletionChoice)
unfolding deserialize_choice
deserialize_choices end = some []
deserialize_choices (item c cs) =
    let rest = deserialize_choices cs in
    deserialize_choice c >>= λ choice. rest >>= λ choices. some (choice ∷ choices)

-- `data.get("usage", {})`.
unfoldable pub usage_member : Json → Option Json
unfolding member
usage_member (object fs) =
    some (elim (member (codes "usage") fs) [ none ↦ object close | some v ↦ v ])
usage_member null = none
usage_member (number n) = none
usage_member (string t) = none
usage_member (array xs) = none

unfoldable pub deserialize_usage : Json → Option UsageMetadata
unfolding get_or_null as_number or_null
deserialize_usage u = get_or_null (codes "prompt_tokens") u >>= or_null as_number >>= λ prompt.
    get_or_null (codes "completion_tokens") u >>= or_null as_number >>= λ completion.
    get_or_null (codes "total_tokens") u >>= or_null as_number >>= λ total.
    some (record { prompt_tokens = prompt; completion_tokens = completion; total_tokens = total })

or_null-optional_text : (t : Option Text) → or_null as_text (optional_text t) ≡ some t
unfolding or_null as_text optional_text
or_null-optional_text none = refl
or_null-optional_text (some t) = refl

or_null-optional_number : (n : Option ℕ) → or_null as_number (optional_number n) ≡ some n
unfolding or_null as_number optional_number
or_null-optional_number none = refl
or_null-optional_number (some n) = refl

deserialize-serialize_choice :
    (c : ChatCompletionChoice) → deserialize_choice (serialize_choice c) ≡ some c
unfolding deserialize_choice serialize_choice
deserialize-serialize_choice c = rw (or_null-optional_text c.finish_reason) refl

deserialize-serialize_choices :
    (cs : List ChatCompletionChoice) → deserialize_choices (serialize_choices cs) ≡ some cs
unfolding deserialize_choices serialize_choices
deserialize-serialize_choices [] = refl
deserialize-serialize_choices (c ∷ cs) =
    rw (deserialize-serialize_choice c, deserialize-serialize_choices cs) refl

deserialize-serialize_usage : (u : UsageMetadata) → deserialize_usage (serialize_usage u) ≡ some u
unfolding deserialize_usage serialize_usage
deserialize-serialize_usage u =
    rw
      (
        or_null-optional_number u.prompt_tokens,
        or_null-optional_number u.completion_tokens,
        or_null-optional_number u.total_tokens,
      )
      refl

module _ (fl : Floats) where
  open fl use {F}

  unfoldable pub serialize_response : ChatCompletionResponse F → Json
  unfolding serialize_choices serialize_usage
  serialize_response r = object (
      field (codes "provider") (string r.provider) (
        field (codes "model") (string r.model) (
          field (codes "choices") (array (serialize_choices r.choices))
            (field (codes "usage") (serialize_usage r.usage) close))))

  -- The metadata of a response from the cache.
  unfoldable pub cached_metadata : Text → Text → Text → ResponseMetadata F
  cached_metadata request_id provider model = record {
    request_id = request_id;
    latency_ms = f0 fl;
    routing_mode = none;
    selected_provider = some provider;
    selected_model = some model;
    original_provider = none;
    failover_triggered = false;
    retry_count = 0;
    failover_attempts = 0;
    circuit_breaker_state = none;
    estimated_cost = some (f0 fl);
    actual_cost = some (f0 fl);
    remaining_budget = none;
    budget_warning = false;
    budget_downgraded = false;
    rate_limit_remaining = none;
    cache_hit = true;
    experiment_id = none;
    experiment_version = none;
    experiment_arm = none;
  }

  unfoldable pub deserialize_response : Json → Text → Option (ChatCompletionResponse F)
  unfolding get_item as_text as_items deserialize_choices usage_member deserialize_usage
      cached_metadata
  deserialize_response data' request_id =
      get_item (codes "choices") data' >>= as_items >>= deserialize_choices >>= λ choices.
      usage_member data' >>= deserialize_usage >>= λ usage.
      get_item (codes "provider") data' >>= as_text >>= λ provider.
      get_item (codes "model") data' >>= as_text >>= λ model. some (record {
        provider = provider;
        model = model;
        choices = choices;
        usage = usage;
        metadata = cached_metadata request_id provider model;
      })

  -- A response comes back from what it was written as, with the metadata of a cached response.
  pub deserialize-serialize_response :
      (r : ChatCompletionResponse F) (request_id : Text)
      → deserialize_response (serialize_response r) request_id
        ≡ some (record r { metadata = cached_metadata request_id r.provider r.model })
  unfolding deserialize_response serialize_response
  deserialize-serialize_response r request_id =
      rw (deserialize-serialize_choices r.choices, deserialize-serialize_usage r.usage) refl
