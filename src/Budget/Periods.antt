-- ===== src/Budget/Periods.antt =====
-- Where a budget's next period ends.
use cortex_gateway.Prelude.{
  ℕ, zero, suc, ◌+◌, ◌-◌, ◌≤◌, ◌≡◌, refl, ap, ◌∙◌, ◌⊎◌, inl, inr, true, false, arith, ltb,
  if◌then◌else◌, Text, codes,
}
use cortex_gateway.Budget.Calendar.{
  DateTime, days_in_month, next_day, add_days, replace_day, at_midnight, reached,
}
use cortex_gateway.Floats.{Floats, f0}
use cortex_gateway.Budget.{Budget, ok, is_period_expired, compute_period_end, apply_rollover}

days_in_month_bounds : (y m : ℕ) → (28 ≤ days_in_month y m) × (days_in_month y m ≤ 31)
unfolding days_in_month
days_in_month_bounds y m = ground arith

add_days-within :
    (n : ℕ) (t : DateTime)
    → t.day + n ≤ days_in_month t.year t.month
    → add_days n t ≡ record t { day = t.day + n }
unfolding add_days next_day
add_days-within zero t h = ground arith
add_days-within (suc n) t h =
    let step : next_day t ≡ record t { day = t.day + 1 } = ground arith in
    rw step (ground (arith, add_days-within n (record t { day = t.day + 1 })))

add_days-add : (m n : ℕ) (t : DateTime) → add_days (m + n) t ≡ add_days n (add_days m t)
unfolding add_days
add_days-add zero n t = ground arith
add_days-add (suc m) n t =
    let e : suc m + n ≡ suc (m + n) = omega arith in rw e (add_days-add m n (next_day t))

-- The first day of the month after.
abbrev pub next_month : DateTime → DateTime
next_month t =
    if ltb t.month 12
    then record t { month = t.month + 1; day = 1; micros = 0 }
    else record t { year = t.year + 1; month = 1; day = 1; micros = 0 }

next_day-last :
    (t : DateTime)
    → t.day ≡ days_in_month t.year t.month
    → next_day t ≡ (
        if ltb t.month 12
        then record t { month = t.month + 1; day = 1 }
        else record t { year = t.year + 1; month = 1; day = 1 })
unfolding next_day
next_day-last t h = ground arith

add_days-suc : (n : ℕ) (t : DateTime) → add_days (suc n) t ≡ add_days n (next_day t)
unfolding add_days
add_days-suc n t = refl

-- The first day of the month after, at the same time of day.
abbrev first_after : DateTime → DateTime
first_after t =
    if ltb t.month 12
    then record t { month = t.month + 1; day = 1 }
    else record t { year = t.year + 1; month = 1; day = 1 }

first_after-day : (t : DateTime) → (first_after t).day ≡ 1
first_after-day t = ground arith

-- 32 days from the first of a month lie in the next month.
add_days-cross :
    (t : DateTime) (d : ℕ)
    → t.day ≡ 1
    → days_in_month t.year t.month ≡ d
    → 28 ≤ d
    → d ≤ 31
    → add_days 32 t ≡ record (first_after t) { day = 33 - d }
add_days-cross t d first h lo hi =
    let split : ◌≡◌ {A = ℕ} 32 (d - 1 + suc (32 - d)) = omega arith in
    let last = record t { day = t.day + (d - 1) } in
    let u = first_after t in
    rw split (
      add_days-add (d - 1) (suc (32 - d)) t
      ∙ ap (add_days (suc (32 - d))) (add_days-within (d - 1) t (omega arith))
      ∙ add_days-suc (32 - d) last
      ∙ ap (add_days (32 - d)) (next_day-last last (omega arith))
      ∙ add_days-within (32 - d) u
          (omega (arith, first_after-day t, days_in_month_bounds u.year u.month))
      ∙ ap (λ n. record u { day = n }) (omega (arith, first_after-day t)))

monthly_lands :
    (t : DateTime) → at_midnight (replace_day 1 (add_days 32 (replace_day 1 t))) ≡ next_month t
unfolding at_midnight replace_day
monthly_lands t =
    let b = days_in_month_bounds t.year t.month in
    rw (add_days-cross (record t { day = 1 }) (days_in_month t.year t.month) refl refl b.0 b.1)
      (ground arith)

-- A monthly period ends at midnight on the first day of the month after its start, in January of
-- the next year for December, wherever in the month it starts.
pub compute_period_end-monthly :
    (t : DateTime) → compute_period_end (codes "monthly") t ≡ ok (next_month t)
unfolding compute_period_end
compute_period_end-monthly t = ap ok (monthly_lands t)

reached-next_day : (e t : DateTime) → reached e t ≡ false → reached (next_day e) t ≡ false
unfolding reached next_day
reached-next_day e t h = ground arith

reached-next_day_self : (t : DateTime) → reached (next_day t) t ≡ false
unfolding reached next_day
reached-next_day_self t = ground arith

reached-add_days : (n : ℕ) (e t : DateTime) → reached e t ≡ false → reached (add_days n e) t ≡ false
unfolding add_days
reached-add_days zero e t h = h
reached-add_days (suc n) e t h = reached-add_days n (next_day e) t (reached-next_day e t h)

reached-next_month : (t : DateTime) → reached (next_month t) t ≡ false
unfolding reached
reached-next_month t = ground arith

compute_period_end_cases :
    (period : Text) (t e : DateTime)
    → compute_period_end period t ≡ ok e
    → (e ≡ add_days 1 t) ⊎ ((e ≡ add_days 7 t) ⊎ (e ≡ next_month t))
unfolding compute_period_end
compute_period_end_cases period t e h = ground (arith, monthly_lands t)

compute_period_end-later :
    (period : Text) (t e : DateTime) → compute_period_end period t ≡ ok e → reached e t ≡ false
compute_period_end-later period t e h = elim (compute_period_end_cases period t e h) [
  | inl p ↦ rw (p, add_days-suc) (reached-add_days 0 _ t (reached-next_day_self t))
  | inr (inl p) ↦ rw (p, add_days-suc) (reached-add_days 6 _ t (reached-next_day_self t))
  | inr (inr p) ↦ rw p (reached-next_month t)
]

-- A row that rolls over starts its new period at the reading of the clock with no usage and no reservation, and
-- the new period is not over at that reading: it does not roll over twice.
pub apply_rollover-fresh :
    (fl : Floats) (b b' : Budget fl.F) (now later : DateTime)
    → is_period_expired b now ≡ true
    → apply_rollover fl b now later ≡ ok b'
    → (b'.current_usage ≡ f0 fl)
      × (b'.reserved ≡ f0 fl)
      × (b'.limit_amount ≡ b.limit_amount)
      × (apply_rollover fl b' later later ≡ ok b')
unfolding apply_rollover is_period_expired
apply_rollover-fresh fl b b' now later x h =
    ground (arith, compute_period_end-later b.period later b'.period_end)
