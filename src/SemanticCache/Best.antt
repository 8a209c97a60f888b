-- ===== src/SemanticCache/Best.antt =====
-- The loop of `lookup` over a team's entries: the best entry.
use cortex_gateway.Prelude.{
  ◌≡◌, refl, ◌⊎◌, inl, inr, true, Option, none, some, List, [], ◌∷◌, arith, if◌then◌else◌,
  Bool-cases, Option-cases, All, In, here, there, Dict, Text,
}
use cortex_gateway.Floats.{Floats}
use cortex_gateway.SemanticCache.{
  Redis, Codec, Settings, Scan, similarity_of, consider, scan_entries,
}

module _ (fl : Floats) (redis : Redis) (codec : Codec fl.F) (cfg : Settings fl.F) (hash : Text)
    (query : List fl.F) where
  open fl use {F, le}

  -- The entry of a scan comes from `entries`, has the best similarity and reaches the threshold.
  abbrev pub IsBest : List (Option (Dict Text)) → Scan F → Type 0
  IsBest entries scan =
      (raw : Dict Text)
      → scan.best_entry_data ≡ some raw
      → In (some raw) entries
        × (similarity_of fl redis codec cfg hash query (some raw) ≡ some scan.best_similarity)
        × (le cfg.threshold scan.best_similarity ≡ true)

  -- An entry is skipped, is no better, or is the best so far.
  consider-cases :
      (scan : Scan F) (entry : Option (Dict Text))
      → let next = consider fl redis codec cfg hash query scan entry in
        ((similarity_of fl redis codec cfg hash query entry ≡ none) × (next ≡ scan))
        ⊎ ((sim : F) × (similarity_of fl redis codec cfg hash query entry ≡ some sim)
            × (((le sim scan.best_similarity ≡ true) × (next ≡ scan))
                ⊎ ((le scan.best_similarity sim ≡ true)
                    × (next ≡ record {
                      best_similarity = sim;
                      best_entry_data =
                          if le cfg.threshold sim then entry else scan.best_entry_data;
                    }))))
  unfolding consider
  consider-cases scan entry =
      elim (Option-cases (similarity_of fl redis codec cfg hash query entry)) [
        | inl e ↦ inl (e, rw (e, consider) refl)
        | inr (sim, e) ↦ inr (
          sim,
          e,
          elim (Bool-cases (le sim scan.best_similarity)) [
            | inl w ↦ inl (w, rw (e, w, consider) refl)
            | inr w ↦
                inr (
                  ground (arith, w, fl.le_total sim scan.best_similarity),
                  rw (e, w, consider) refl,
                )
          ],
        )
      ]

  consider-IsBest :
      (entries : List (Option (Dict Text))) (scan : Scan F) (entry : Option (Dict Text))
      → In entry entries
      → IsBest entries scan
      → IsBest entries (consider fl redis codec cfg hash query scan entry)
  consider-IsBest entries scan entry m h = elim (consider-cases scan entry) [
    | inl (e, same) ↦ rw same h
    | inr (sim, e, inl (w, same)) ↦ rw same h
    | inr (sim, e, inr (w, new)) ↦ rw new (elim (Bool-cases (le cfg.threshold sim)) [
      | inl reaches ↦ rw reaches (λ raw e'. (rw (← e') m, rw (← e') e, refl))
      | inr below ↦ rw below (λ raw e'.
          let (m', s, th) = h raw e' in
          ground (arith, below, fl.le_trans cfg.threshold scan.best_similarity sim th w))
    ])
  ]

  pub scan_entries-IsBest :
      (entries raws : List (Option (Dict Text))) (scan : Scan F)
      → ((entry : Option (Dict Text)) → In entry raws → In entry entries)
      → IsBest entries scan
      → IsBest entries (scan_entries fl redis codec cfg hash query scan raws)
  unfolding scan_entries
  scan_entries-IsBest entries [] scan sub h = h
  scan_entries-IsBest entries (raw ∷ raws) scan sub h =
      scan_entries-IsBest entries raws (consider fl redis codec cfg hash query scan raw)
        (λ e m. sub e (there m)) (consider-IsBest entries scan raw (sub raw here) h)

  -- No entry of the list is more similar than the best.
  abbrev pub IsBelow : F → Option (Dict Text) → Type 0
  IsBelow best entry =
      (sim : F) → similarity_of fl redis codec cfg hash query entry ≡ some sim → le sim best ≡ true

  consider-grows :
      (scan : Scan F) (entry : Option (Dict Text))
      → let next = consider fl redis codec cfg hash query scan entry in
        (le scan.best_similarity next.best_similarity ≡ true) × IsBelow next.best_similarity entry
  consider-grows scan entry = elim (consider-cases scan entry) [
    | inl (e, same) ↦ rw same (fl.le_refl _, λ sim e'. ground (arith, e, e'))
    | inr (sim, e, inl (w, same)) ↦ rw same (fl.le_refl _, λ sim' e'. ground (arith, w, e, e'))
    | inr (sim, e, inr (w, new)) ↦ rw new (w, λ sim' e'. ground (arith, e, e', fl.le_refl sim))
  ]

  pub scan_entries-IsBelow :
      (raws : List (Option (Dict Text))) (scan : Scan F)
      → let out = scan_entries fl redis codec cfg hash query scan raws in
        (le scan.best_similarity out.best_similarity ≡ true)
        × All (IsBelow out.best_similarity) raws
  unfolding scan_entries
  scan_entries-IsBelow [] scan = (fl.le_refl _, tt)
  scan_entries-IsBelow (raw ∷ raws) scan =
      let (grows, below) = consider-grows scan raw in
      let (rest, others) =
        scan_entries-IsBelow raws (consider fl redis codec cfg hash query scan raw) in
      (fl.le_trans _ _ _ grows rest, (λ sim e. fl.le_trans _ _ _ (below sim e) rest, others))
