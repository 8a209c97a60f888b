-- ===== src/RateLimit/Binding.antt =====
-- The outcome of the three scopes.
use cortex_gateway.Prelude.{
  ℕ, ◌≡◌, refl, ◌∙◌, ◌⊎◌, Bool, true, false, not, ◌&&◌, ◌||◌, [], ◌∷◌, arith, leb, All,
}
use cortex_gateway.Floats.{Floats}
use cortex_gateway.RateLimit.{
  Counters, Limits, key, team, org, check_scope, check_all, RateLimitResult, pick_max, pick_min,
  combine,
}

-- A request passes exactly if every scope lets it pass. The binding result is one of the three: of
-- those that refuse one that waits longest, or if none refuses one with the fewest requests left.
pub combine-binding_result :
    (k t o : RateLimitResult)
    → let out = combine k t o in
      let b = out.binding_result in
      (out.allowed ≡ (k.allowed && (t.allowed && o.allowed)))
      × ((b ≡ k) ⊎ ((b ≡ t) ⊎ (b ≡ o)))
      × (b.allowed ≡ out.allowed)
      × All
          (λ (r : RateLimitResult).
            (out.allowed || r.allowed || leb r.retry_after_seconds b.retry_after_seconds) ≡ true)
          (k ∷ t ∷ o ∷ [])
      × All
          (λ (r : RateLimitResult). (not out.allowed || leb b.remaining r.remaining) ≡ true)
          (k ∷ t ∷ o ∷ [])
unfolding combine pick_max pick_min
combine-binding_result k t o = ground arith

module _ (fl : Floats) (redis : Counters) where
  open redis use {Store}

  -- The results of the three scopes, each asked in the store that the one before it leaves, and the
  -- store behind them.
  abbrev pub scope_results :
      Bool
      → Limits
      → ℕ
      → ℕ
      → ℕ
      → Store
      → RateLimitResult × RateLimitResult × RateLimitResult × Store
  scope_results connected l now now' now'' s =
      let k =
        check_scope fl redis connected key (l.identifier key) (l.limit key) (l.window key) now s in
      let t =
        check_scope fl redis connected team (l.identifier team) (l.limit team) (l.window team) now'
          k.1 in
      let o =
        check_scope fl redis connected org (l.identifier org) (l.limit org) (l.window org) now''
          t.1 in
      (k.0, t.0, o.0, o.1)

  pub check_all-results :
      (connected : Bool) (l : Limits) (now now' now'' : ℕ) (s : Store)
      → let (k, t, o, s') = scope_results connected l now now' now'' s in
        check_all fl redis connected l now now' now'' s ≡ (combine k t o, s')
  unfolding check_all
  check_all-results connected l now now' now'' s = refl

-- What a refusal binds to: one of the scopes that refuse, with the longest wait among them.
pub record Binds (b k t o : RateLimitResult) : Type 0 where
  pub one_of : (b ≡ k) ⊎ ((b ≡ t) ⊎ (b ≡ o))
  pub refuses : b.allowed ≡ false
  pub longest :
      All
        (λ (r : RateLimitResult).
          (r.allowed || leb r.retry_after_seconds b.retry_after_seconds) ≡ true)
        (k ∷ t ∷ o ∷ [])

pub combine-Binds :
    (k t o : RateLimitResult)
    → (k.allowed && (t.allowed && o.allowed)) ≡ false
    → ((combine k t o).allowed ≡ false) × Binds (combine k t o).binding_result k t o
unfolding combine pick_max pick_min
combine-Binds k t o h =
    let law = combine-binding_result k t o in
    let off : (combine k t o).allowed ≡ false = law.0 ∙ h in
    (off, record { one_of = law.1; refuses = law.2 ∙ off; longest = rw off at law.3 })
