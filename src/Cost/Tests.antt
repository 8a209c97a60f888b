-- ===== src/Cost/Tests.antt =====
-- Costs of a model that is not in the catalog, over fixed-point numbers.
use cortex_gateway.Prelude.{
  ℕ, ◌≡◌, refl, true, none, some, [], ◌∷◌, arith, leb, lookup, insert, codes, lower, strip,
  char_lower, is_space, lstrip, rstrip,
}
use cortex_gateway.Routing.Metadata.{get, Catalog}
use cortex_gateway.Chat.{ChatCompletionRequest, UsageMetadata, user}
use cortex_gateway.Floats.Scaled.{scaled}
use cortex_gateway.Cost.{estimated_input_tokens, or_tokens, estimate_cost, calculate_actual_cost}
use cortex_gateway.Cost.Laws.{calculate_actual_cost-le}

-- Ten and twenty units for a thousand tokens.
abbrev catalog : Catalog ℕ
catalog = record {
  catalog =
      insert (codes "groq:m")
        (record {
          provider = codes "groq";
          model = codes "m";
          cost_per_1k_tokens = 150000;
          input_cost_per_1k = 100000;
          output_cost_per_1k = 200000;
          capabilities = [];
          context_window = 8192;
          baseline_latency_ms = 0;
        })
        [];
  ollama_default_cost = 0;
}

abbrev request : ChatCompletionRequest ℕ
request = record {
  provider = some (codes "groq");
  model = codes "m";
  messages = record { role = user; content = codes "what is the time?" } ∷ [];
  routing_mode = none;
  required_capabilities = none;
  temperature = none;
  max_tokens = some 100;
  top_p = none;
  stop = none;
  failover_enabled = none;
  stream = none;
}

abbrev usage : UsageMetadata
usage = record { prompt_tokens = some 4; completion_tokens = some 80; total_tokens = some 84 }

calculate_actual_cost-le_example :
    (leb 0 (estimate_cost scaled catalog (codes "groq") (codes "m") request) ≡ true)
    × (leb
          (calculate_actual_cost scaled catalog
            (codes "groq")
            (codes "m")
            (some usage)
            (estimate_cost scaled catalog (codes "groq") (codes "m") request))
          (estimate_cost scaled catalog (codes "groq") (codes "m") request)
        ≡ true)
unfolding get lookup insert lower char_lower strip rstrip lstrip is_space or_tokens
    estimated_input_tokens
calculate_actual_cost-le_example =
    calculate_actual_cost-le scaled catalog (codes "groq") (codes "m") request usage (refl, refl)
      (omega arith) (omega arith)
