-- ===== src/Registry.antt =====
-- The model registry: the rows of backend/app/model_registry/models.py, the validators of
-- backend/app/model_registry/schemas.py and `ModelRegistryService` of
-- backend/app/model_registry/service.py. The table is a list in the order of insertion, which orders
-- texts by their code points; its constraints make a query by a unique column find at most one row.
-- `updated_at` and the limits on the lengths of texts are left out. The endpoints are in
-- Registry/Endpoints.
pub mod Endpoints
pub mod Keys
pub mod Valid
pub mod Laws
pub mod Tests
use cortex_gateway.Prelude.{
  ℕ, ◌+◌, Bool, true, false, not, ◌&&◌, ◌||◌, Option, none, some, List, [], ◌∷◌, ◌++◌, map, ltb,
  if◌then◌else◌, keep, any, all, is_empty, head, Text, codes, lower, strip, text_leb, text_eq,
}
use cortex_gateway.Floats.{Floats, f0, lt}

pub record Entry (F : Type 0) : Type 0 where
  pub id : Text
  pub provider : Text
  pub model_name : Text
  pub display_name : Option Text
  pub input_cost_per_1k : F
  pub output_cost_per_1k : F
  pub capabilities : List Text
  pub context_window : ℕ
  pub baseline_latency_ms : F
  pub enabled : Bool
  pub added_at : ℕ

-- `ModelRegistryCreate`, with the defaults of the fields that the body leaves out.
pub record Create (F : Type 0) : Type 0 where
  pub provider : Text
  pub model_name : Text
  pub display_name : Option Text
  pub input_cost_per_1k : F
  pub output_cost_per_1k : F
  pub capabilities : List Text
  pub context_window : ℕ
  pub baseline_latency_ms : F
  pub enabled : Bool

-- `ModelRegistryUpdate`: none for a field that is not set, and `some none` for one that is null.
pub record Update (F : Type 0) : Type 0 where
  pub display_name : Option (Option Text)
  pub input_cost_per_1k : Option (Option F)
  pub output_cost_per_1k : Option (Option F)
  pub capabilities : Option (Option (List Text))
  pub context_window : Option (Option ℕ)
  pub baseline_latency_ms : Option (Option F)
  pub enabled : Option (Option Bool)

unfoldable pub known_capabilities : List Text
known_capabilities =
    codes "text"
    ∷ codes "vision"
    ∷ codes "json"
    ∷ codes "code"
    ∷ codes "tools"
    ∷ codes "function_calling"
    ∷ codes "complex_reasoning"
    ∷ []

unfoldable pub known_providers : List Text
known_providers = codes "gemini" ∷ codes "groq" ∷ codes "ollama" ∷ codes "openai" ∷ []

unfoldable pub is_in : Text → List Text → Bool
is_in t ts = any (text_eq t) ts

-- The loop that keeps the first of equal tokens.
unfoldable pub deduplicate : List Text → List Text → List Text
unfolding is_in
deduplicate seen [] = []
deduplicate seen (cap ∷ rest) =
    let without = deduplicate seen rest in
    let others = deduplicate (cap ∷ seen) rest in if is_in cap seen then without else cap ∷ others

-- None where a validator raises.
unfoldable pub validate_capabilities : List Text → Option (List Text)
unfolding deduplicate is_in known_capabilities
validate_capabilities v =
    if is_empty v || not (all (λ cap. is_in cap known_capabilities) v)
    then none
    else some (deduplicate [] v)

unfoldable pub validate_provider : Text → Option Text
unfolding is_in known_providers
validate_provider v =
    let normalized = lower (strip v) in
    if is_in normalized known_providers then some normalized else none

unfoldable pub validate_model_name : Text → Option Text
validate_model_name v = let stripped = strip v in if is_empty stripped then none else some stripped

module _ (fl : Floats) where
  open fl use {F}

  unfoldable pub in_bounds : Create F → Bool
  in_bounds c =
      fl.le (f0 fl) c.input_cost_per_1k
      && (fl.le (f0 fl) c.output_cost_per_1k
          && (ltb 0 c.context_window && lt fl (f0 fl) c.baseline_latency_ms))

  -- The validators and the bounds of the fields.
  unfoldable pub validate_create : Create F → Option (Create F)
  unfolding validate_provider validate_model_name validate_capabilities in_bounds
  validate_create c = elim (validate_provider c.provider) [
    | none ↦ none
    | some provider ↦ elim (validate_model_name c.model_name) [
      | none ↦ none
      | some name ↦ elim (validate_capabilities c.capabilities) [
        | none ↦ none
        | some caps ↦
            if fl.le (f0 fl) c.input_cost_per_1k
              && (fl.le (f0 fl) c.output_cost_per_1k
                  && (ltb 0 c.context_window && lt fl (f0 fl) c.baseline_latency_ms))
            then some record c { provider = provider; model_name = name; capabilities = caps }
            else none
      ]
    ]
  ]

  -- That a field which is given is within its bound.
  unfoldable pub within {ℓ} : {A : Type ℓ} → (A → Bool) → Option (Option A) → Bool
  within test (some (some a)) = test a
  within test _ = true

  unfoldable pub validate_update : Update F → Option (Update F)
  unfolding within validate_capabilities
  validate_update u =
      if within (fl.le (f0 fl)) u.input_cost_per_1k
        && (within (fl.le (f0 fl)) u.output_cost_per_1k
            && (within (ltb 0) u.context_window && within (lt fl (f0 fl)) u.baseline_latency_ms))
      then elim u.capabilities [
        | none ↦ some u
        | some given ↦ elim given [
          | none ↦ some u
          | some v ↦ elim (validate_capabilities v) [
            | none ↦ none
            | some caps ↦ some record u { capabilities = some (some caps) }
          ]
        ]
      ]
      else none

  -- The blended cost.
  unfoldable pub cost_per_1k_tokens : Entry F → F
  cost_per_1k_tokens e = fl.div (fl.add e.input_cost_per_1k e.output_cost_per_1k) (fl.lit 2 1)

-- What an operation raises: `ModelAlreadyExistsError`, `ModelNotFoundError`, the `IntegrityError` of a
-- null in a column that has none, or the `ValidationError` of a body.
pub data Failure : Type 0 where
  already_exists not_found null_value invalid_body : Failure

pub data Result (A : Type 0) : Type 0 where
  ok : A → Result A
  raises : Failure → Result A

module _ {F : Type 0} where
  abbrev pub same_model : Text → Text → Entry F → Bool
  same_model provider name e = text_eq e.provider provider && text_eq e.model_name name

  unfoldable pub get_by_provider_model : Text → Text → List (Entry F) → Option (Entry F)
  get_by_provider_model provider name rows = head (keep (same_model provider name) rows)

  abbrev pub new_entry : Text → ℕ → Create F → Entry F
  new_entry id now c = record {
    id = id;
    provider = c.provider;
    model_name = c.model_name;
    display_name = c.display_name;
    input_cost_per_1k = c.input_cost_per_1k;
    output_cost_per_1k = c.output_cost_per_1k;
    capabilities = c.capabilities;
    context_window = c.context_window;
    baseline_latency_ms = c.baseline_latency_ms;
    enabled = c.enabled;
    added_at = now;
  }

  -- A flush that the constraints refuse is rolled back and raises the same exception.
  unfoldable pub create_model :
      Text → ℕ → Create F → List (Entry F) → Result (Entry F × List (Entry F))
  unfolding get_by_provider_model
  create_model id now c rows = elim (get_by_provider_model c.provider c.model_name rows) [
    | some e ↦ raises already_exists
    | none ↦
        if any (λ (e : Entry F). text_eq e.id id) rows
        then raises already_exists
        else ok (new_entry id now c, rows ++ new_entry id now c ∷ [])
  ]

  -- `order_by(provider, model_name)`.
  unfoldable pub row_le : Entry F → Entry F → Bool
  row_le a b =
      if text_eq a.provider b.provider
      then text_leb a.model_name b.model_name
      else text_leb a.provider b.provider

  unfoldable pub insert_row : Entry F → List (Entry F) → List (Entry F)
  unfolding row_le
  insert_row a [] = a ∷ []
  insert_row a (b ∷ rest) =
      let later = insert_row a rest in if row_le a b then a ∷ b ∷ rest else b ∷ later

  unfoldable pub order_rows : List (Entry F) → List (Entry F)
  unfolding insert_row
  order_rows [] = []
  order_rows (a ∷ rest) = insert_row a (order_rows rest)

  -- The clause of the filter by a provider, which an empty name leaves out.
  unfoldable pub of_provider : Option Text → Entry F → Bool
  of_provider none e = true
  of_provider (some provider) e = is_empty provider || text_eq e.provider (lower provider)

  unfoldable pub list_models : Option Text → Bool → List (Entry F) → List (Entry F)
  unfolding order_rows of_provider
  list_models provider enabled_only rows =
      order_rows (keep (λ e. (not enabled_only || e.enabled) && of_provider provider e) rows)

  unfoldable pub get_model : Text → List (Entry F) → Result (Entry F)
  get_model model_id rows = elim (head (keep (λ (e : Entry F). text_eq e.id model_id) rows)) [
    | none ↦ raises not_found
    | some e ↦ ok e
  ]

  unfoldable pub get_all_for_catalog : List (Entry F) → List (Entry F)
  unfolding list_models
  get_all_for_catalog rows = list_models none true rows

-- A field behind `setattr`: a null keeps the old value here, since it is refused before.
unfoldable pub set_field {ℓ} : {A : Type ℓ} → Option (Option A) → A → A
set_field (some (some value)) old = value
set_field _ old = old

unfoldable pub is_null {ℓ} : {A : Type ℓ} → Option (Option A) → Bool
is_null (some none) = true
is_null _ = false

module _ {F : Type 0} where
  -- That a column that must not be null is set to null.
  unfoldable pub has_null : Update F → Bool
  unfolding is_null
  has_null u =
      is_null u.input_cost_per_1k
      || (is_null u.output_cost_per_1k
          || (is_null u.capabilities
              || (is_null u.context_window
                  || (is_null u.baseline_latency_ms || is_null u.enabled))))

  unfoldable pub apply_update : Update F → Entry F → Entry F
  unfolding set_field
  apply_update u e = record e {
    display_name = elim u.display_name [ none ↦ e.display_name | some name ↦ name ];
    input_cost_per_1k = set_field u.input_cost_per_1k e.input_cost_per_1k;
    output_cost_per_1k = set_field u.output_cost_per_1k e.output_cost_per_1k;
    capabilities = set_field u.capabilities e.capabilities;
    context_window = set_field u.context_window e.context_window;
    baseline_latency_ms = set_field u.baseline_latency_ms e.baseline_latency_ms;
    enabled = set_field u.enabled e.enabled;
  }

  -- `UPDATE model_registry ... WHERE id = ...` sets the columns of the body.
  unfoldable pub update_model : Text → Update F → List (Entry F) → Result (Entry F × List (Entry F))
  unfolding get_model has_null apply_update
  update_model model_id u rows = elim (get_model model_id rows) [
    | raises e ↦ raises e
    | ok entry ↦
        if has_null u
        then raises null_value
        else ok (
          apply_update u entry,
          map (λ (e : Entry F). if text_eq e.id entry.id then apply_update u e else e) rows,
        )
  ]

  unfoldable pub delete_model : Text → List (Entry F) → Result (List (Entry F))
  unfolding get_model
  delete_model model_id rows = elim (get_model model_id rows) [
    | raises e ↦ raises e
    | ok entry ↦ ok (keep (λ (e : Entry F). not (text_eq e.id entry.id)) rows)
  ]
