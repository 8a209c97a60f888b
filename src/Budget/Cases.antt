-- ===== src/Budget/Cases.antt =====
-- How one call of `check_and_reserve` ends within a period, under any policy that a budget may have.
use cortex_gateway.Prelude.{
  ℕ, ◌≡◌, refl, ◌⊎◌, inl, inr, Bool, false, ◌||◌, Option, some, Bool-cases, insert, Text, codes,
  upper,
}
use cortex_gateway.Budget.{
  Budget, BudgetError, Table, budget_exceeded, ok, raise, get_enabled, enforce, reserve_within,
  over_threshold, check_and_reserve, apply_rollover, is_period_expired,
}
use cortex_gateway.Budget.Laws.{enforce-strict, IsStrict}
use cortex_gateway.Budget.Calendar.{DateTime}
use cortex_gateway.Floats.{Floats, lt}

-- The policies that a budget may have.
abbrev pub IsKnown : {F : Type 0} → Budget F → Type 0
IsKnown b = IsStrict b ⊎ (upper b.policy ≡ codes "WARN")

module _ (fl : Floats) where
  open fl use {F, add}

  abbrev pub with_reserved : Budget F → F → Budget F
  with_reserved b cost = record b { reserved = add b.reserved cost }

  pub enforce-cases :
      (b : Budget F) (cost : F) (percent : ℕ)
      → IsKnown b
      → ((e : BudgetError) × (enforce fl b cost percent ≡ raise e))
        ⊎ ((warning : Bool) × (enforce fl b cost percent ≡ ok (with_reserved b cost, warning)))
  unfolding enforce reserve_within
  enforce-cases b cost percent (inl strict) =
      rw (enforce-strict fl b cost percent strict)
        (elim (Bool-cases (lt fl b.limit_amount (add (add b.current_usage b.reserved) cost))) [
          | inl over ↦ inl (budget_exceeded, rw over refl)
          | inr fits ↦ inr (false, rw fits refl)
        ])
  enforce-cases b cost percent (inr warns) =
      let after = add b.current_usage cost in
      inr (
        lt fl b.limit_amount after || over_threshold fl after b.limit_amount percent,
        rw warns refl,
      )

  -- Within the period, a reservation fails or adds its cost to the row.
  pub check_and_reserve-cases :
      (db : Table F) (team : Text) (b : Budget F) (cost : F) (percent : ℕ)
      (now later touched : DateTime)
      → get_enabled db team ≡ some b
      → IsKnown b
      → is_period_expired b now ≡ false
      → ((e : BudgetError) × (check_and_reserve fl db team cost percent now later touched
            ≡ raise e))
        ⊎ ((row : Option (Budget F)) × (warning : Bool) × (check_and_reserve fl db team cost percent
                now later touched
              ≡ ok (
                insert team (record (with_reserved b cost) { updated_at = touched }) db,
                row,
                warning,
              )))
  unfolding check_and_reserve apply_rollover
  check_and_reserve-cases db team b cost percent now later touched h known current =
      let b' = record (with_reserved b cost) { updated_at = touched } in
      elim (enforce-cases b cost percent known) [
        | inl (e, r) ↦ inl (e, rw (h, check_and_reserve) (rw (current, r) refl))
        | inr (warning, r) ↦
            inr (some b', warning, rw (h, check_and_reserve) (rw (current, r) refl))
      ]
