-- ===== src/Routing/Metadata.antt =====
-- `ModelMetadataCatalog` of backend/app/routing/metadata.py: the metadata by the key
-- "provider:model". The rows of the table `model_registry` come from the database.
use cortex_gateway.Prelude.{
  ◌||◌, none, some, List, [], ◌∷◌, ◌++◌, if◌then◌else◌, Dict, lookup, insert, Text, codes, lower,
  strip, before_colon, starts_with, contains, text_eq,
}
use cortex_gateway.Floats.{Floats, f0}
use cortex_gateway.Routing.Models.{ModelMetadata}

pub record Catalog (F : Type 0) : Type 0 where
  pub catalog : Dict (ModelMetadata F)
  pub ollama_default_cost : F

-- `f"{provider}:{model}"`.
unfoldable pub catalog_key : Text → Text → Text
catalog_key provider model = provider ++ (b':' ∷ model)

module _ (fl : Floats) where
  open fl use {F, lit}

  -- The loop of `load_from_db` over the rows, each as the metadata that it holds.
  unfoldable pub load_entries :
      List (ModelMetadata F) → Dict (ModelMetadata F) → Dict (ModelMetadata F)
  unfolding catalog_key
  load_entries [] new = new
  load_entries (e ∷ es) new = load_entries es (insert (catalog_key e.provider e.model) e new)

  unfoldable pub load_from_db : Catalog F → List (ModelMetadata F) → Catalog F
  unfolding load_entries
  load_from_db c entries = record c { catalog = load_entries entries [] }

  -- The default for a model that the catalog does not have.
  unfoldable pub fallback_metadata : Catalog F → Text → Text → ModelMetadata F
  fallback_metadata c provider model =
      let is_ollama = text_eq (lower provider) (codes "ollama") in
      let sees =
        contains (codes "vision") (lower model) || contains (codes "llava") (lower model) in
      record {
        provider = lower provider;
        model = model;
        cost_per_1k_tokens = if is_ollama then c.ollama_default_cost else lit 5 10000;
        input_cost_per_1k = f0 fl;
        output_cost_per_1k = f0 fl;
        capabilities =
            codes "text" ∷ codes "code" ∷ codes "json" ∷ (if sees then codes "vision" ∷ [] else []);
        context_window = 8192;
        baseline_latency_ms = if is_ollama then lit 300 1 else lit 500 1;
      }

  unfoldable pub get : Catalog F → Text → Text → ModelMetadata F
  unfolding catalog_key fallback_metadata
  get c provider model = elim (lookup (catalog_key (lower provider) (strip model)) c.catalog) [
    | some entry ↦ entry
    | none ↦ elim (lookup (catalog_key (lower provider) (strip (before_colon model))) c.catalog) [
      | some entry ↦ record entry { provider = provider; model = model }
      | none ↦ fallback_metadata c provider model
    ]
  ]

  -- The names among the entries whose key starts with the prefix.
  unfoldable pub names_with : Text → Dict (ModelMetadata F) → List Text
  names_with prefix [] = []
  names_with prefix ((key, m) ∷ rest) =
      let names = names_with prefix rest in
      if starts_with prefix key then m.model ∷ names else names

  unfoldable pub provider_model_names : Catalog F → Text → List Text
  unfolding names_with
  provider_model_names c provider = names_with (lower provider ++ b':' ∷ []) c.catalog
