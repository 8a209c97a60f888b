-- ===== src/ChatService/Reservation.antt =====
-- What the reservation of the chat pipeline leaves of the row of a team's budget.
use cortex_gateway.Prelude.{
  list-cases, ◌≡◌, refl, ◌⊎◌, inl, inr, true, false, some, List, arith, if◌then◌else◌, Bool-cases,
  keep, insert,
}
use cortex_gateway.Auth.{RequestContext}
use cortex_gateway.Budget
use cortex_gateway.Budget.{Budget, Table, get_enabled}
use cortex_gateway.Budget.Cases.{IsKnown, with_reserved, check_and_reserve-cases}
use cortex_gateway.Budget.Calendar.{DateTime}
use cortex_gateway.Budget.Laws.{get_enabled-lookup, get_enabled-insert}
use cortex_gateway.ChatService.Base.{Call, Target, System, World, return, throw, failed}
use cortex_gateway.ChatService.Spending.{
  Plan, Paid, plan_budget, reserve, attempt_budget_downgrade, checks_budget, actual_cost_of,
  is_downgrade, cheaper, default_weights, discover, is_affordable, estimate_plan, free_plan,
  budget_error, is_charged,
}
use cortex_gateway.ChatService.Ends.{Ends-as, Ends-done, Ends-fail, Ends, bind-Ends}
use cortex_gateway.Floats.{f0, lt, fmax}
use cortex_gateway.ChatService.Admission.{policy_of}
use cortex_gateway.Routing.Models.{RoutingCandidate}
use cortex_gateway.Routing.Scorer.{score_candidates}
use cortex_gateway.Cost.{estimate_cost}

module _ (sys : System) (call : Call sys.fl.F) (c : RequestContext) (b : Budget sys.fl.F) where
  open sys use {fl}
  open fl use {F, le, add, sub}

  -- The team has the given row, up to its column `updated_at`.
  abbrev pub HasRow : Budget F → World sys → Type 0
  HasRow row w =
      (t : DateTime) × (get_enabled w.budgets c.team_id ≡ some (record row { updated_at = t }))

  -- What a provider and a model are estimated to cost.
  abbrev pub estimate_of : Target → F
  estimate_of t = estimate_cost fl sys.cfg.catalog t.provider t.model call.request

  -- `reserved` while the request runs, and after it gave an estimate back.
  abbrev pub held : F → F
  held e = if checks_budget sys call then add b.reserved e else b.reserved

  abbrev pub given_back : F → F
  given_back e = fmax fl (f0 fl) (sub (held e) e)

  -- The row after a failure behind the reservation: an estimate above 0 is given back.
  abbrev pub failed_row : F → Budget F
  failed_row e = record b { reserved = if lt fl (f0 fl) e then given_back e else held e }

  -- The row after a success: the estimate is given back, and the actual cost is charged.
  abbrev pub paid_row : Plan F → Paid F → Budget F
  paid_row plan paid =
      let e = plan.estimated_cost in
      let actual = actual_cost_of sys plan paid.response in
      record b {
        reserved = if is_charged sys call plan then given_back e else held e;
        current_usage =
            if is_charged sys call plan
            then fmax fl (f0 fl) (add b.current_usage actual)
            else b.current_usage;
      }

  -- A plan's estimate is that of its target, or nothing where budgets are not checked.
  abbrev pub Priced : Plan F → Type 0
  Priced plan =
      (checks_budget sys call ≡ true → plan.estimated_cost ≡ estimate_of plan.target)
      × (checks_budget sys call ≡ false → plan.estimated_cost ≡ f0 fl)

  -- A failure leaves the row, or gives the estimate of some target back.
  abbrev pub Failed : World sys → Type 0
  Failed w =
      HasRow b w
      ⊎ ((checks_budget sys call ≡ true) × ((t : Target) × HasRow (failed_row (estimate_of t)) w))

  -- The estimate of a plan is reserved.
  abbrev pub Reserved : Plan F → World sys → Type 0
  Reserved plan w = HasRow (record b { reserved = held plan.estimated_cost }) w × Priced plan

  on-Priced :
      (plan : Plan F)
      → checks_budget sys call ≡ true
      → plan.estimated_cost ≡ estimate_of plan.target
      → Priced plan
  on-Priced plan on e = (λ _. e, λ off. ground (arith, on, off))

  reserve-Ends :
      (plan : Plan F) (w : World sys)
      → IsKnown b
      → Budget.is_period_expired b call.times.budget_now ≡ false
      → checks_budget sys call ≡ true
      → HasRow b w
      → plan.estimated_cost ≡ estimate_of plan.target
      → Ends Reserved Failed (reserve sys call c plan w)
  unfolding reserve Budget.is_period_expired
  reserve-Ends plan w known current on (t, h) priced =
      let n = plan.estimated_cost in
      let row = record b { updated_at = t } in
      elim (check_and_reserve-cases fl w.budgets c.team_id row n
        call.settings.budget_warning_threshold_percent call.times.budget_now call.times.budget_later
        call.times.budget_reserved h known current) [
          | inl (e, r) ↦ Ends-fail (failed (budget_error e)) w (rw (r, reserve) refl) (inl (t, h))
          | inr (out, warning, r) ↦
              let row' = record (with_reserved fl row n) {
                updated_at = call.times.budget_reserved;
              } in
              Ends-done (record plan { budget_warning = warning })
                (record w { budgets = insert c.team_id row' w.budgets }) (rw (r, reserve) refl)
                (
                  (
                    call.times.budget_reserved,
                    rw on (
                        get_enabled-insert w.budgets c.team_id row'
                          (get_enabled-lookup w.budgets c.team_id row h).1),
                  ),
                  on-Priced (record plan { budget_warning = warning }) on priced,
                )
        ]

  -- A plan that is not reserved yet.
  abbrev Estimated : Plan F → World sys → Type 0
  Estimated plan w = HasRow b w × (plan.estimated_cost ≡ estimate_of plan.target)

  cheaper-Ends :
      (t : Target) (affordable : List (RoutingCandidate F)) (w : World sys)
      → HasRow b w
      → Ends Estimated Failed (cheaper sys call.request t affordable w)
  unfolding cheaper throw return
  cheaper-Ends t affordable w h =
      elim (list-cases (score_candidates fl affordable (default_weights sys))) [
        | inl e ↦
            Ends-fail (failed (budget_error Budget.budget_exceeded)) w (rw (e, cheaper) refl)
              (inl h)
        | inr (best, others, e) ↦
            let s = best.candidate in
            Ends-done
              (record {
                target = record t { provider = s.provider; model = s.model };
                estimated_cost = estimate_cost fl sys.cfg.catalog s.provider s.model call.request;
                budget_downgraded = true;
                budget_warning = false;
              })
              w (rw (e, cheaper) refl) (h, refl)
      ]

  downgrade-Ends :
      (t : Target) (w : World sys)
      → HasRow b w
      → Ends Estimated Failed (attempt_budget_downgrade sys call.request c t (estimate_of t) w)
  unfolding attempt_budget_downgrade
  downgrade-Ends t w (u, h) =
      let remaining = Budget.remaining_amount fl (record b { updated_at = u }) in
      elim (Bool-cases (le (estimate_of t) remaining)) [
        | inl fits ↦
            Ends-done
              (record {
                target = t;
                estimated_cost = estimate_of t;
                budget_downgraded = false;
                budget_warning = false;
              })
              w (rw (h, fits, attempt_budget_downgrade) refl) ((u, h), refl)
        | inr over ↦
            Ends-as
              (bind-Ends (λ cs. HasRow b) Estimated Failed (discover sys)
                (λ cs.
                  cheaper sys call.request t (keep (is_affordable sys call.request t remaining) cs))
                w (Ends-done _ _ refl (u, h)) (λ cs w' h'. cheaper-Ends t _ w' h'))
              (rw (h, over, attempt_budget_downgrade) refl)
      ]

  estimate_plan-Ends :
      (t : Target) (w : World sys)
      → HasRow b w
      → Ends Estimated Failed (estimate_plan sys call c t w)
  unfolding estimate_plan return
  estimate_plan-Ends t w h = elim (Bool-cases (is_downgrade (policy_of sys call).budget)) [
    | inl down ↦ Ends-as (downgrade-Ends t w h) (rw (down, estimate_plan) refl)
    | inr other ↦
        Ends-done (record (free_plan sys t) { estimated_cost = estimate_of t }) w
          (rw (other, estimate_plan) refl) (h, refl)
  ]

  pub plan_budget-Ends :
      (t : Target) (w : World sys)
      → call.context ≡ some c
      → IsKnown b
      → Budget.is_period_expired b call.times.budget_now ≡ false
      → HasRow b w
      → Ends Reserved Failed (plan_budget sys call t w)
  unfolding plan_budget return
  plan_budget-Ends t w ctx known current h = elim (Bool-cases (checks_budget sys call)) [
    | inl on ↦
        Ends-as
          (bind-Ends Estimated Reserved Failed (estimate_plan sys call c t) (reserve sys call c) w
            (estimate_plan-Ends t w h)
            (λ plan w' h'. reserve-Ends plan w' known current on h'.0 h'.1))
          (rw (ctx, on, plan_budget) refl)
    | inr off ↦
        Ends-done (free_plan sys t) w (rw (ctx, off, plan_budget) refl)
          (rw off h, (λ on. ground (arith, on, off), λ _. refl))
  ]

  -- What a plan leaves behind a failure.
  pub given_up-Failed :
      (plan : Plan F) (w : World sys)
      → Priced plan
      → HasRow (failed_row plan.estimated_cost) w
      → Failed w
  given_up-Failed plan w priced h = elim (Bool-cases (checks_budget sys call)) [
    | inl on ↦ inr (on, (plan.target, rw (priced.0 on) at h))
    | inr off ↦ inl (rw (priced.1 off, fl.le_refl (f0 fl), off) at h)
  ]
