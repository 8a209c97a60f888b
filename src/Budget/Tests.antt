-- ===== src/Budget/Tests.antt =====
-- A team's budget at concrete amounts and times.
use cortex_gateway.Budget.Calendar.{is_leap, DateTime, reached, add_days, next_day, days_in_month}
use cortex_gateway.Prelude.{
  ℕ, ◌+◌, ◌≤◌, ◌≡◌, refl, inl, true, false, some, [], arith, lookup, insert, Text, codes, upper,
}
use cortex_gateway.Budget.{
  Budget, ok, Table, get_enabled, is_period_expired, compute_period_end, apply_rollover,
  reserve_within, enforce, check_and_reserve, reconcile,
}
use cortex_gateway.Budget.Periods.{compute_period_end-monthly}
use cortex_gateway.Budget.Runs.{reconcile-after_rollover}
use cortex_gateway.Budget.Interleaved.{
  Exact, State, Reach, start, next, reserve, settle, Reach-usage,
}
use cortex_gateway.Floats.{fmax, f0}
use cortex_gateway.Floats.Scaled.{scaled}
use cortex_gateway.Prelude.{char_upper}

-- Noon of a day of 2026.
abbrev pub noon : ℕ → ℕ → DateTime
noon month day = record { year = 2026; month = month; day = day; micros = 43200000000 }

abbrev pub team : Text
team = codes "t"

abbrev pub row : Budget ℕ
row = record {
  limit_amount = 100;
  current_usage = 0;
  reserved = 0;
  period = codes "daily";
  period_start = noon 1 31;
  period_end = noon 2 1;
  policy = codes "block";
  enabled = true;
  created_at = noon 1 31;
  updated_at = noon 1 31;
}

abbrev pub table : Table ℕ
table = insert team row []

pub row_found : get_enabled table team ≡ some row
unfolding get_enabled lookup insert
row_found = refl

row_strict : upper row.policy ≡ codes "BLOCK"
unfolding upper char_upper
row_strict = refl

over : is_period_expired row (noon 2 5) ≡ true
unfolding is_period_expired reached
over = refl

compute_period_end-monthly_example :
    compute_period_end (codes "monthly") (noon 1 31)
    ≡ ok (record { year = 2026; month = 2; day = 1; micros = 0 })
compute_period_end-monthly_example = compute_period_end-monthly (noon 1 31)

abbrev fresh : Budget ℕ
fresh = record row { period_start = noon 2 5; period_end = noon 2 6; updated_at = noon 2 5 }

rolls : apply_rollover scaled row (noon 2 5) (noon 2 5) ≡ ok fresh
unfolding apply_rollover is_period_expired reached compute_period_end add_days next_day
    days_in_month is_leap
rolls = refl

reserves_fresh :
    check_and_reserve scaled table team 40 80 (noon 2 5) (noon 2 5) (noon 2 5)
    ≡ ok (
      insert team (record fresh { reserved = 40 }) table,
      some (record fresh { reserved = 40 }),
      false,
    )
unfolding check_and_reserve get_enabled apply_rollover is_period_expired reached compute_period_end
    add_days next_day days_in_month enforce reserve_within upper lookup insert char_upper is_leap
reserves_fresh = refl

reconcile-after_rollover_example :
    (rolled : Budget ℕ) × (lookup team
        (reconcile scaled
          (insert team (record fresh { reserved = 40 }) table)
          team
          60
          45
          (noon 2 5)).0
      ≡ some rolled)
    × (rolled.reserved ≡ fmax scaled (f0 scaled) 0)
reconcile-after_rollover_example =
    reconcile-after_rollover scaled table (insert team (record fresh { reserved = 40 }) table) team
      row fresh 60 45 40 80 (noon 2 5) (noon 2 5) (noon 2 5) (noon 2 5)
      (some (record fresh { reserved = 40 })) false row_found (inl row_strict) over rolls
      reserves_fresh

-- Every tick is exact.
abbrev ticks : Exact scaled
ticks = record {
  of = λ n. n;
  most = 9007199254740992;
  of-zero = refl;
  add-of = λ a b h. refl;
  sub-of = λ a b h k. refl;
  le-of = λ a b h k. refl;
}

abbrev initial : State scaled ticks
initial = record { table = table; in_flight = [] }

abbrev held : Table ℕ
held = insert team (record row { reserved = 60 }) table

reserves :
    check_and_reserve scaled table team 60 80 (noon 1 31) (noon 1 31) (noon 1 31)
    ≡ ok (held, some (record row { reserved = 60 }), false)
unfolding check_and_reserve get_enabled apply_rollover is_period_expired reached enforce
    reserve_within upper lookup insert char_upper
reserves = refl

running : is_period_expired row (noon 1 31) ≡ false
unfolding is_period_expired reached
running = refl

row_stored : lookup team table ≡ some row
unfolding lookup insert
row_stored = refl

-- One request reserves 60 and settles at 45.
abbrev final : State scaled ticks
final = record { table = (reconcile scaled held team 60 45 (noon 1 31)).0; in_flight = [] }

settled : Reach scaled ticks team initial final
settled =
    next
      (next start (
        reserve 60 80 (noon 1 31) (noon 1 31) (noon 1 31) row_stored running reserves
          (omega arith)))
      (settle [] 60 45 [] (noon 1 31) refl (omega arith))

Reach-usage_example :
    (r : Budget ℕ) × (used : ℕ) × (lookup team (reconcile scaled held team 60 45 (noon 1 31)).0
      ≡ some r)
    × (r.current_usage ≡ used)
    × (r.reserved ≡ 0)
    × (used + 0 ≤ 100)
unfolding lookup insert
Reach-usage_example =
    Reach-usage scaled ticks team 100 initial final row (omega arith) row_stored refl
      (inl row_strict) refl refl refl refl settled
