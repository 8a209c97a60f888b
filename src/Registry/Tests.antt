-- ===== src/Registry/Tests.antt =====
-- A model that is registered under a padded name and then gets another price.
use cortex_gateway.Prelude.{
  char_lower, ℕ, ◌≡◌, refl, true, none, some, List, [], ◌∷◌, In, here, codes, lower, strip, rstrip,
  lstrip, is_space,
}
use cortex_gateway.Floats.Scaled.{scaled}
use cortex_gateway.Routing.Metadata.{get, load_entries}
use cortex_gateway.Registry
use cortex_gateway.Registry.{
  Entry, Create, Update, apply_update, new_entry, raises, already_exists, create_model,
  get_by_provider_model,
}
use cortex_gateway.Registry.Endpoints.{State, metadata_of, Request, post, patch, run, serve}
use cortex_gateway.Registry.Laws.{IsCurrent, run-get}

abbrev body : Create ℕ
body = record {
  provider = codes " Groq";
  model_name = codes "m ";
  display_name = none;
  input_cost_per_1k = 2;
  output_cost_per_1k = 4;
  capabilities = codes "text" ∷ codes "text" ∷ [];
  context_window = 10;
  baseline_latency_ms = 3;
  enabled = true;
}

abbrev accepted : Create ℕ
accepted = record body {
  provider = codes "groq";
  model_name = codes "m";
  capabilities = codes "text" ∷ [];
}

abbrev empty : State scaled
empty = record { rows = []; catalog = record { catalog = []; ollama_default_cost = 0 } }

padded_body : Registry.validate_create scaled body ≡ some accepted
unfolding Registry.validate_create lower strip rstrip lstrip is_space char_lower
padded_body = refl

-- The price is changed, and the limit of the context is not.
abbrev dearer : Update ℕ
dearer = record {
  display_name = none;
  input_cost_per_1k = some (some 8);
  output_cost_per_1k = none;
  capabilities = none;
  context_window = none;
  baseline_latency_ms = none;
  enabled = none;
}

abbrev history : List (Request scaled)
history = post (codes "1") 5 body ∷ patch (codes "1") dearer ∷ []

abbrev stored : Entry ℕ
stored = record (new_entry (codes "1") 5 accepted) { input_cost_per_1k = 8 }

stored-In : In stored (run scaled history empty).rows
unfolding run serve lower strip rstrip lstrip is_space char_lower
stored-In = here

empty-IsCurrent : IsCurrent scaled empty
unfolding load_entries Registry.get_all_for_catalog
empty-IsCurrent = (((λ a m. elim m [ ]), λ a b m. elim m [ ]), refl)

run-get_example :
    get scaled (run scaled history empty).catalog (codes "groq") (codes "m")
    ≡ metadata_of scaled stored
run-get_example = run-get scaled history empty stored empty-IsCurrent stored-In refl
