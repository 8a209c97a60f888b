-- ===== src/Budget.antt =====
-- Team budgets: `Budget` of backend/app/budget/models.py and `BudgetService` of
-- backend/app/budget/service.py, over the calendar of `Budget.Calendar`.
-- Amounts are floats of the interface `Floats`, added and subtracted in the order of the code. The
-- table `budgets` holds one row for a team at most, so it is a dictionary by `team_id`. A method that
-- commits returns the new table; one that raises leaves the table as it was, since the session rolls
-- back. The row lock makes each method one step. Every reading of the clock is an argument. The
-- column `id` and the message of an exception are left out.
pub mod Calendar
pub mod Periods
pub mod Laws
pub mod Tests
pub mod Runs
pub mod Interleaved
pub mod Cases
use cortex_gateway.Prelude.{
  remove, ℕ, Bool, true, false, ◌||◌, Option, none, some, if◌then◌else◌, Dict, lookup, insert, Text,
  codes, upper, text_eq,
}
use cortex_gateway.Floats.{Floats, f0, lt, fmax}
use Calendar.{DateTime, reached, add_days, replace_day, at_midnight}

pub record Budget (F : Type 0) : Type 0 where
  pub limit_amount : F
  pub current_usage : F
  pub reserved : F
  pub period : Text
  pub period_start : DateTime
  pub period_end : DateTime
  pub policy : Text
  pub enabled : Bool
  pub created_at : DateTime
  pub updated_at : DateTime

pub record BudgetCreate (F : Type 0) : Type 0 where
  pub limit_amount : F
  pub period : Text
  pub policy : Text
  pub enabled : Bool

pub record BudgetUpdate (F : Type 0) : Type 0 where
  pub limit_amount : Option F
  pub policy : Option Text
  pub enabled : Option Bool

pub data BudgetError : Type 0 where
  budget_exceeded budget_configuration_error : BudgetError

pub data Result (A : Type 0) : Type 0 where
  ok : A → Result A
  raise : BudgetError → Result A

infixl 5 ◌>>=◌
abbrev pub ◌>>=◌ : {A B : Type 0} → Result A → (A → Result B) → Result B
ok a >>= f = f a
raise e >>= f = raise e

abbrev pub or_old {ℓ} : {A : Type ℓ} → Option A → A → A
or_old none a = a
or_old (some b) a = b

-- `is_period_expired`.
unfoldable pub is_period_expired : {F : Type 0} → Budget F → DateTime → Bool
is_period_expired b now = reached b.period_end now

-- `_compute_period_end`.
unfoldable pub compute_period_end : Text → DateTime → Result DateTime
compute_period_end period start =
    if text_eq period (codes "daily")
    then ok (add_days 1 start)
    else if text_eq period (codes "weekly")
    then ok (add_days 7 start)
    else if text_eq period (codes "monthly")
    then ok (at_midnight (replace_day 1 (add_days 32 (replace_day 1 start))))
    else raise budget_configuration_error

abbrev pub Table : Type 0 → Type 0
Table F = Dict (Budget F)

unfoldable pub get_budget : {F : Type 0} → Table F → Text → Option (Budget F)
get_budget db team = lookup team db

-- `where(team_id == …, enabled == True)`.
unfoldable pub get_enabled : {F : Type 0} → Table F → Text → Option (Budget F)
get_enabled db team = elim (lookup team db) [
  | none ↦ none
  | some b ↦ if b.enabled then some b else none
]

unfoldable pub update_budget :
    {F : Type 0} → Table F → Text → BudgetUpdate F → DateTime → Result (Table F × Budget F)
update_budget db team new touched = elim (get_budget db team) [
  | none ↦ raise budget_configuration_error
  | some b ↦
      let b' = record b {
        limit_amount = or_old new.limit_amount b.limit_amount;
        policy = or_old new.policy b.policy;
        enabled = or_old new.enabled b.enabled;
        updated_at = touched;
      } in
      ok (insert team b' db, b')
]

unfoldable pub delete_budget : {F : Type 0} → Table F → Text → Table F × Bool
delete_budget db team = elim (get_budget db team) [
  | none ↦ (db, false)
  | some _ ↦ (remove team db, true)
]

module _ (fl : Floats) where
  open fl use {F, lit, add, sub, mul, div, le}

  -- `remaining_amount`.
  unfoldable pub remaining_amount : Budget F → F
  remaining_amount b = fmax fl (f0 fl) (sub (sub b.limit_amount b.current_usage) b.reserved)

  -- The clock is read for the period, and by each of the columns' defaults.
  unfoldable pub create_budget :
      Table F → Text → BudgetCreate F → DateTime → DateTime → DateTime → Result (Table F × Budget F)
  create_budget db team new now created updated = elim (get_budget db team) [
    | some _ ↦ raise budget_configuration_error
    | none ↦ compute_period_end new.period now >>= λ end'.
        let b : Budget F = record {
          limit_amount = new.limit_amount;
          current_usage = f0 fl;
          reserved = f0 fl;
          period = new.period;
          period_start = now;
          period_end = end';
          policy = new.policy;
          enabled = new.enabled;
          created_at = created;
          updated_at = updated;
        } in
        ok (insert team b db, b)
  ]

  -- `_apply_rollover_if_needed`: the period is compared with one reading of the clock, the new one
  -- starts at the next.
  unfoldable pub apply_rollover : Budget F → DateTime → DateTime → Result (Budget F)
  apply_rollover b now later =
      if is_period_expired b now
      then (compute_period_end b.period later >>= λ end'. ok (record b {
        current_usage = f0 fl;
        reserved = f0 fl;
        period_start = later;
        period_end = end';
        updated_at = later;
      }))
      else ok b

  -- The test of the policies BLOCK and DOWNGRADE.
  unfoldable pub reserve_within : Budget F → F → Result (Budget F × Bool)
  reserve_within b cost =
      if lt fl b.limit_amount (add (add b.current_usage b.reserved) cost)
      then raise budget_exceeded
      else ok (record b { reserved = add b.reserved cost }, false)

  -- `usage_pct >= warning_threshold_percent`.
  unfoldable pub over_threshold : F → F → ℕ → Bool
  over_threshold usage limit percent =
      let usage_pct = if lt fl (f0 fl) limit then mul (div usage limit) (lit 100 1) else f0 fl in
      le (lit percent 1) usage_pct

  -- What `check_and_reserve` does to the row under its policy.
  unfoldable pub enforce : Budget F → F → ℕ → Result (Budget F × Bool)
  unfolding over_threshold
  enforce b cost percent =
      let policy = upper b.policy in
      let usage_after = add b.current_usage cost in
      if text_eq policy (codes "BLOCK")
      then reserve_within b cost
      else if text_eq policy (codes "WARN")
      then ok (
        record b { reserved = add b.reserved cost },
        lt fl b.limit_amount usage_after || over_threshold usage_after b.limit_amount percent,
      )
      else if text_eq policy (codes "DOWNGRADE")
      then reserve_within b cost
      else ok (b, false)

  unfoldable pub check_and_reserve :
      Table F
      → Text
      → F
      → ℕ
      → DateTime
      → DateTime
      → DateTime
      → Result (Table F × Option (Budget F) × Bool)
  check_and_reserve db team cost percent now later touched = elim (get_enabled db team) [
    | none ↦ ok (db, none, false)
    | some row ↦ apply_rollover row now later >>= λ b. enforce b cost percent >>= λ r.
        let (b', warning) = r in
        let b'' = record b' { updated_at = touched } in ok (insert team b'' db, some b'', warning)
  ]

  unfoldable pub reconcile : Table F → Text → F → F → DateTime → Table F × Option (Budget F)
  reconcile db team estimated actual touched = elim (get_enabled db team) [
    | none ↦ (db, none)
    | some b ↦
        let b' = record b {
          reserved = fmax fl (f0 fl) (sub b.reserved estimated);
          current_usage = fmax fl (f0 fl) (add b.current_usage actual);
          updated_at = touched;
        } in
        (insert team b' db, some b')
  ]

  unfoldable pub release_reservation : Table F → Text → F → DateTime → Table F
  release_reservation db team estimated touched = elim (get_enabled db team) [
    | none ↦ db
    | some b ↦
        insert team
          (record b { reserved = fmax fl (f0 fl) (sub b.reserved estimated); updated_at = touched })
          db
  ]
