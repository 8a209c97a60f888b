-- ===== src/Providers.antt =====
-- `ProviderRegistry` of backend/app/providers/registry.py. What an adapter's `health_check` and
-- `list_models` answer comes over the network: an adapter is its name with these two answers, none
-- for an exception.
use cortex_gateway.Prelude.{
  Bool, Option, List, [], ◌∷◌, if◌then◌else◌, is_some, Dict, lookup, insert, dict_keys, Text, lower,
  strip, text_leb,
}

pub record Adapter : Type 0 where
  pub name : Text
  pub health_check : Option Bool
  pub list_models : Option (List Text)

abbrev pub ProviderRegistry : Type 0
ProviderRegistry = Dict Adapter

unfoldable pub register : ProviderRegistry → Adapter → ProviderRegistry
register reg a = insert (lower a.name) a reg

-- `get`; none stands for `InvalidProviderError`.
unfoldable pub get : ProviderRegistry → Text → Option Adapter
get reg name = lookup (lower (strip name)) reg

unfoldable pub is_registered : ProviderRegistry → Text → Bool
is_registered reg name = is_some (lookup (lower (strip name)) reg)

unfoldable pub insert_text : Text → List Text → List Text
insert_text t [] = t ∷ []
insert_text t (u ∷ us) =
    let rest = insert_text t us in if text_leb t u then t ∷ u ∷ us else u ∷ rest

-- `sorted` of a list of strings.
unfoldable pub sort_texts : List Text → List Text
unfolding insert_text
sort_texts [] = []
sort_texts (t ∷ ts) = insert_text t (sort_texts ts)

-- The names of `list_providers`.
unfoldable pub provider_names : ProviderRegistry → List Text
unfolding sort_texts
provider_names reg = sort_texts (dict_keys reg)
