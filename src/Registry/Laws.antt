-- ===== src/Registry/Laws.antt =====
-- What the catalog answers behind a history of changes of the model registry.
use cortex_gateway.Prelude.{
  map-In, In-map, ◌≡◌, refl, sym, ap, ◌∙◌, ◌⊎◌, inl, inr, true, some, List, [], ◌∷◌, map, In,
  lookup,
}
use cortex_gateway.Floats.{Floats}
use cortex_gateway.Registry.{Entry, Result, ok, raises, get_all_for_catalog, Failure}
use cortex_gateway.Registry.Endpoints.{
  Request, changed, metadata_of, run, serve, State, trigger_catalog_refresh,
}
use cortex_gateway.Routing.Metadata.{catalog_key, load_entries, get, load_from_db}
use cortex_gateway.Registry.Keys.{load_entries-In, lower-known, catalog_key-injective, key_of}
use cortex_gateway.Registry.Valid.{IsValid, In-get_all_for_catalog, changed-IsValid}

module _ (fl : Floats) where
  open fl use {F}

  Result-cases :
      (x : Result (List (Entry F)))
      → ((f : Failure) × (x ≡ raises f)) ⊎ ((rows : List (Entry F)) × (x ≡ ok rows))
  Result-cases (raises f) = inl (f, refl)
  Result-cases (ok rows) = inr (rows, refl)

  -- The rows are valid, and the catalog is what a refresh of them loads.
  abbrev pub IsCurrent : State fl → Type 0
  IsCurrent s =
      IsValid s.rows
      × (s.catalog.catalog ≡ load_entries fl (map (metadata_of fl) (get_all_for_catalog s.rows)) [])

  serve-IsCurrent : (r : Request fl) (s : State fl) → IsCurrent s → IsCurrent (serve fl true r s)
  unfolding serve trigger_catalog_refresh load_from_db
  serve-IsCurrent r s h = elim (Result-cases (changed fl r s.rows)) [
    | inl (f, e) ↦ rw (e, serve) h
    | inr (rows, e) ↦ rw (e, serve) (changed-IsValid fl r s.rows rows h.0 e, refl)
  ]

  run-IsCurrent :
      (requests : List (Request fl)) (s : State fl) → IsCurrent s → IsCurrent (run fl requests s)
  unfolding run
  run-IsCurrent [] s h = h
  run-IsCurrent (r ∷ rest) s h = run-IsCurrent rest (serve fl true r s) (serve-IsCurrent r s h)

  current-lookup :
      (s : State fl) (e : Entry F)
      → IsCurrent s
      → In e s.rows
      → e.enabled ≡ true
      → lookup (catalog_key e.provider e.model_name) s.catalog.catalog ≡ some (metadata_of fl e)
  unfolding metadata_of
  current-lookup s e ((named, unique), loaded) m on =
      ap (lookup (catalog_key e.provider e.model_name)) loaded
      ∙ load_entries-In fl (metadata_of fl e) _ []
          (map-In (metadata_of fl) ((In-get_all_for_catalog s.rows).1 m on))
          (λ x k same.
            let (row, j, q) = In-map (metadata_of fl) (get_all_for_catalog s.rows) k in
            let i = (In-get_all_for_catalog s.rows).0 j in
            sym q
            ∙ ap (metadata_of fl) (
                unique row e i m (
                  catalog_key-injective row.provider e.provider row.model_name e.model_name
                    (named row i).0 (named e m).0 (ap (key_of fl) q ∙ same))))

-- Behind any history of an admin's requests, whose refreshes the database answers, the catalog has
-- for every enabled row the metadata of that very row. At the start the rows have known providers
-- and names without blanks around them, no two have the same names, and the catalog is loaded.
pub run-get :
    (fl : Floats) (requests : List (Request fl)) (s : State fl) (e : Entry fl.F)
    → IsCurrent fl s
    → In e (run fl requests s).rows
    → e.enabled ≡ true
    → get fl (run fl requests s).catalog e.provider e.model_name ≡ metadata_of fl e
unfolding get
run-get fl requests s e h m on =
    let h' = run-IsCurrent fl requests s h in
    let names = h'.0.0 e m in
    rw
      (
        lower-known e.provider names.0,
        names.1,
        current-lookup fl (run fl requests s) e h' m on,
        get,
      )
      refl
