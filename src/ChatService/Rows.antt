-- ===== src/ChatService/Rows.antt =====
-- What the chat pipeline leaves of the row of a team's budget.
use cortex_gateway.Prelude.{◌≡◌, refl, inl, inr, true, false, none, some, arith, Bool-cases, insert}
use cortex_gateway.Auth.{RequestContext}
use cortex_gateway.Budget
use cortex_gateway.Budget.{Budget, Table, get_enabled}
use cortex_gateway.Budget.Cases.{IsKnown}
use cortex_gateway.Budget.Laws.{get_enabled-lookup, get_enabled-insert}
use cortex_gateway.ChatService.Base.{Call, Target, System, World, return, lift}
use cortex_gateway.ChatService.Spending.{
  Plan, Paid, plan_budget, run_provider, settle, checks_budget, release, actual_cost_of,
  exec_request, receipt, is_charged,
}
use cortex_gateway.ChatService.{spend, ChatCompletionResponse}
use cortex_gateway.ChatService.Ends.{Ends-done, Ends, bind-Ends, on_failure-Ends, lift-Ends}
use cortex_gateway.Floats.{f0, lt, fmax}
use cortex_gateway.Executor.Loop.{execute}
use cortex_gateway.Chat.{ChatCompletionResponse}
use cortex_gateway.ChatService.{done}
use cortex_gateway.ChatService.Reservation.{
  HasRow, held, paid_row, Priced, Failed, Reserved, given_up-Failed, plan_budget-Ends,
}

module _ (sys : System) (call : Call sys.fl.F) (c : RequestContext) (b : Budget sys.fl.F) where
  open sys use {fl}
  open fl use {F, add, sub}

  -- Without the service nothing is reserved.
  missing-unchecked : call.services.budget_service ≡ false → checks_budget sys call ≡ false
  unfolding checks_budget
  missing-unchecked off = ground (arith, off)

  missing-free :
      (plan : Plan F)
      → (Priced sys call c b) plan
      → call.services.budget_service ≡ false
      → lt fl (f0 fl) plan.estimated_cost ≡ false
  missing-free plan priced off = rw (priced.1 (missing-unchecked off), fl.le_refl (f0 fl)) refl

  released : (row : Budget F) (plan : Plan F) → Budget F
  released row plan = record row {
    reserved = fmax fl (f0 fl) (sub row.reserved plan.estimated_cost);
    updated_at = call.times.budget_settled;
  }

  release-on :
      (plan : Plan F) (w : World sys) (row : Budget F)
      → call.context ≡ some c
      → get_enabled w.budgets c.team_id ≡ some row
      → call.services.budget_service ≡ true
      → lt fl (f0 fl) plan.estimated_cost ≡ true
      → release sys call plan w
        ≡ record w { budgets = insert c.team_id (released row plan) w.budgets }
  unfolding release released Budget.release_reservation
  release-on plan w row ctx h on positive =
      rw (ctx, on, positive, release) (rw (h, Budget.release_reservation) refl)

  release-off :
      (plan : Plan F) (w : World sys)
      → call.context ≡ some c
      → lt fl (f0 fl) plan.estimated_cost ≡ false
      → release sys call plan w ≡ w
  unfolding release
  release-off plan w ctx none' = rw (ctx, none', release) (ground arith)

  release-Failed :
      (plan : Plan F) (w : World sys)
      → call.context ≡ some c
      → (Reserved sys call c b) plan w
      → (Failed sys call c b) (release sys call plan w)
  unfolding released
  release-Failed plan w ctx ((t, h), priced) =
      let row = record b { reserved = (held sys call c b) plan.estimated_cost; updated_at = t } in
      elim (Bool-cases (lt fl (f0 fl) plan.estimated_cost)) [
        | inl positive ↦ elim (Bool-cases call.services.budget_service) [
          | inl on ↦
              let w' = record w { budgets = insert c.team_id (released row plan) w.budgets } in
              rw (release-on plan w row ctx h on positive) (
                (given_up-Failed sys call c b) plan w' priced (
                  call.times.budget_settled,
                  rw positive (
                      get_enabled-insert w.budgets c.team_id (released row plan)
                        (get_enabled-lookup w.budgets c.team_id row h).1),
                ))
          | inr off ↦ ground (arith, missing-free plan priced off, positive)
        ]
        | inr no_cost ↦
            rw (release-off plan w ctx no_cost)
              ((given_up-Failed sys call c b) plan w priced (t, rw no_cost h))
      ]

  run_provider-Ends :
      (plan : Plan F) (w : World sys)
      → call.context ≡ some c
      → (Reserved sys call c b) plan w
      → Ends
          (λ r. (Reserved sys call c b) plan)
          (Failed sys call c b)
          (run_provider sys call plan w)
  unfolding run_provider
  run_provider-Ends plan w ctx h =
      on_failure-Ends
        (lift sys (
          execute fl sys.out sys.cfg (exec_request sys call) plan.target.provider plan.target.model
            (some plan.target.routing_mode)))
        (release sys call plan) w
        (lift-Ends sys
          (execute fl sys.out sys.cfg (exec_request sys call) plan.target.provider plan.target.model
            (some plan.target.routing_mode))
          w ((Reserved sys call c b) plan) (λ s. h))
        (λ w' h'. release-Failed plan w' ctx h')

  settled : (row : Budget F) (plan : Plan F) (response : ChatCompletionResponse F) → Budget F
  settled row plan response = record (released row plan) {
    current_usage = fmax fl (f0 fl) (add row.current_usage (actual_cost_of sys plan response));
  }

  settle-on :
      (plan : Plan F) (response : ChatCompletionResponse F) (w : World sys) (row : Budget F)
      → call.context ≡ some c
      → get_enabled w.budgets c.team_id ≡ some row
      → is_charged sys call plan ≡ true
      → settle sys call plan response w ≡ (
        done (
            receipt sys call
              (actual_cost_of sys plan response)
              response
              (some (settled row plan response))),
        record w { budgets = insert c.team_id (settled row plan response) w.budgets },
      )
  unfolding settle settled released Budget.reconcile
  settle-on plan response w row ctx h on = rw (ctx, on, settle) (rw (h, Budget.reconcile) refl)

  settle-off :
      (plan : Plan F) (response : ChatCompletionResponse F) (w : World sys)
      → call.context ≡ some c
      → is_charged sys call plan ≡ false
      → settle sys call plan response w ≡ (done (receipt sys call (f0 fl) response none), w)
  unfolding settle
  settle-off plan response w ctx off = rw (ctx, off, settle) refl

  settle-Ends :
      (plan : Plan F) (response : ChatCompletionResponse F) (w : World sys)
      → call.context ≡ some c
      → (Reserved sys call c b) plan w
      → Ends
          (λ paid w'.
            (HasRow sys call c b) ((paid_row sys call c b) plan paid) w'
            × (paid.response ≡ response))
          (Failed sys call c b)
          (settle sys call plan response w)
  unfolding settled released receipt
  settle-Ends plan response w ctx ((t, h), priced) =
      let row = record b { reserved = (held sys call c b) plan.estimated_cost; updated_at = t } in
      let row' = settled row plan response in
      elim (Bool-cases (is_charged sys call plan)) [
        | inl on ↦
            Ends-done (receipt sys call (actual_cost_of sys plan response) response (some row'))
              (record w { budgets = insert c.team_id row' w.budgets })
              (settle-on plan response w row ctx h on)
              (
                (
                  call.times.budget_settled,
                  rw on (
                      get_enabled-insert w.budgets c.team_id row'
                        (get_enabled-lookup w.budgets c.team_id row h).1),
                ),
                refl,
              )
        | inr off ↦
            Ends-done (receipt sys call (f0 fl) response none) w
              (settle-off plan response w ctx off) ((t, rw off h), refl)
      ]

  -- A plan and what was paid under it: the estimate is that of the plan's target, or nothing where
  -- budgets are not checked.
  abbrev pub Settled : Plan F → Paid F → World sys → Type 0
  Settled plan paid w =
      (HasRow sys call c b) ((paid_row sys call c b) plan paid) w × (Priced sys call c b) plan

  -- In the period of an enabled budget with a known policy. A request that fails leaves the row of
  -- its team as it was, or with the estimate of some target reserved and, if it is above 0, given
  -- back (in float arithmetic, the difference kept at 0 or above). One that succeeds has given back
  -- the estimate of its target, where budgets are checked, and adds the actual cost of its response
  -- to the usage, kept at 0 or above; both are left out where the estimate is negative or a service
  -- is missing. Nothing else of the row changes, its `updated_at` aside.
  pub spend-row :
      (t : Target) (w : World sys)
      → call.context ≡ some c
      → IsKnown b
      → Budget.is_period_expired b call.times.budget_now ≡ false
      → (HasRow sys call c b) b w
      → Ends (λ out. Settled out.0 out.1) (Failed sys call c b) (spend sys call t w)
  unfolding spend return
  spend-row t w ctx known current h =
      bind-Ends (Reserved sys call c b) (λ out. Settled out.0 out.1) (Failed sys call c b)
        (plan_budget sys call t) _ w ((plan_budget-Ends sys call c b) t w ctx known current h)
        (λ plan w1 h1.
          bind-Ends (λ r. (Reserved sys call c b) plan) (λ out. Settled out.0 out.1)
            (Failed sys call c b) (run_provider sys call plan) _ w1
            (run_provider-Ends plan w1 ctx h1)
            (λ r w2 h2.
              bind-Ends
                (λ paid w3.
                  (HasRow sys call c b) ((paid_row sys call c b) plan paid) w3
                  × (paid.response ≡ r))
                (λ out. Settled out.0 out.1) (Failed sys call c b) (settle sys call plan r) _ w2
                (settle-Ends plan r w2 ctx h2)
                (λ paid w3 h3. Ends-done (plan, paid) w3 refl (h3.0, h2.1))))
