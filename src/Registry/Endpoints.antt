-- ===== src/Registry/Endpoints.antt =====
-- The admin's operations of backend/app/api/v1/endpoints/model_registry.py on the table and on the
-- catalog of backend/app/routing/metadata.py, which each refreshes behind a change. An exception
-- rolls the session back.
use cortex_gateway.Prelude.{ℕ, Bool, true, none, some, List, [], ◌∷◌, map, if◌then◌else◌, Text}
use cortex_gateway.Floats.{Floats}
use cortex_gateway.Routing.Models.{ModelMetadata}
use cortex_gateway.Routing.Metadata.{Catalog, load_from_db}
use cortex_gateway.Registry.{
  Entry, Create, Update, Result, ok, raises, create_model, update_model, delete_model,
  get_all_for_catalog, cost_per_1k_tokens, invalid_body, validate_create, validate_update,
}

module _ (fl : Floats) where
  open fl use {F}

  pub record State : Type 0 where
    pub rows : List (Entry F)
    pub catalog : Catalog F

  -- What the loop of the refresh makes of a row.
  unfoldable pub metadata_of : Entry F → ModelMetadata F
  unfolding cost_per_1k_tokens
  metadata_of e = record {
    provider = e.provider;
    model = e.model_name;
    cost_per_1k_tokens = cost_per_1k_tokens fl e;
    input_cost_per_1k = e.input_cost_per_1k;
    output_cost_per_1k = e.output_cost_per_1k;
    capabilities = e.capabilities;
    context_window = e.context_window;
    baseline_latency_ms = e.baseline_latency_ms;
  }

  -- `_trigger_catalog_refresh`; without an answer of the database the catalog stays.
  unfoldable pub trigger_catalog_refresh : Bool → List (Entry F) → Catalog F → Catalog F
  unfolding get_all_for_catalog metadata_of load_from_db
  trigger_catalog_refresh answers rows c =
      if answers then load_from_db fl c (map metadata_of (get_all_for_catalog rows)) else c

  -- The requests that change the table; a new row gets an identifier and a time.
  pub data Request : Type 0 where
    post : Text → ℕ → Create F → Request
    patch : Text → Update F → Request
    remove_model : Text → Request

  unfoldable pub changed : Request → List (Entry F) → Result (List (Entry F))
  unfolding create_model update_model delete_model validate_create validate_update
  changed (post id now body) rows = elim (validate_create fl body) [
    | none ↦ raises invalid_body
    | some c ↦ elim (create_model id now c rows) [ raises e ↦ raises e | ok (entry, new) ↦ ok new ]
  ]
  changed (patch model_id body) rows = elim (validate_update fl body) [
    | none ↦ raises invalid_body
    | some u ↦ elim (update_model model_id u rows) [
      | raises e ↦ raises e
      | ok (entry, new) ↦ ok new
    ]
  ]
  changed (remove_model model_id) rows = delete_model model_id rows

  unfoldable pub serve : Bool → Request → State → State
  unfolding changed trigger_catalog_refresh
  serve answers r s = elim (changed r s.rows) [
    | raises e ↦ s
    | ok rows ↦ record { rows = rows; catalog = trigger_catalog_refresh answers rows s.catalog }
  ]

  -- A history of requests, whose refreshes the database answers.
  unfoldable pub run : List Request → State → State
  unfolding serve
  run [] s = s
  run (r ∷ rest) s = run rest (serve true r s)
