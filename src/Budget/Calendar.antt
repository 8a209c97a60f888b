-- ===== src/Budget/Calendar.antt =====
-- What the budgets use of Python's `datetime`: a UTC date with the microsecond of its day, the sum
-- with a `timedelta` of whole days, `replace`, and the order.
use cortex_gateway.Prelude.{
  ℕ, zero, suc, ◌+◌, ◌%◌, Bool, true, false, not, ◌&&◌, ◌||◌, ltb, leb, ◌==◌, if◌then◌else◌,
}

pub record DateTime : Type 0 where
  pub year : ℕ
  pub month : ℕ
  pub day : ℕ
  pub micros : ℕ

unfoldable pub is_leap : ℕ → Bool
is_leap y = y % 4 == 0 && (not (y % 100 == 0) || y % 400 == 0)

unfoldable pub days_in_month : ℕ → ℕ → ℕ
days_in_month y m =
    if m == 2
    then (if is_leap y then 29 else 28)
    else if m == 4 || m == 6 || m == 9 || m == 11
    then 30
    else 31

unfoldable pub next_day : DateTime → DateTime
next_day t =
    if ltb t.day (days_in_month t.year t.month)
    then record t { day = t.day + 1 }
    else if ltb t.month 12
    then record t { month = t.month + 1; day = 1 }
    else record t { year = t.year + 1; month = 1; day = 1 }

-- `t + timedelta(days=n)`.
unfoldable pub add_days : ℕ → DateTime → DateTime
add_days zero t = t
add_days (suc n) t = add_days n (next_day t)

-- `t.replace(day=d)`.
unfoldable pub replace_day : ℕ → DateTime → DateTime
replace_day d t = record t { day = d }

-- `t.replace(hour=0, minute=0, second=0, microsecond=0)`.
unfoldable pub at_midnight : DateTime → DateTime
at_midnight t = record t { micros = 0 }

-- `now >= end`, field by field.
unfoldable pub reached : DateTime → DateTime → Bool
reached end' now =
    if ltb end'.year now.year
    then true
    else if ltb now.year end'.year
    then false
    else if ltb end'.month now.month
    then true
    else if ltb now.month end'.month
    then false
    else if ltb end'.day now.day
    then true
    else if ltb now.day end'.day
    then false
    else leb end'.micros now.micros
