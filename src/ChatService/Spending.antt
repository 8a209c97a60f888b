-- ===== src/ChatService/Spending.antt =====
-- The steps of `ChatService.complete` that handle money: the downgrade, the reservation, the call of
-- the provider and the settlement.
use cortex_gateway.Prelude.{
  ℕ, Bool, true, false, not, ◌&&◌, Option, none, some, List, [], ◌∷◌, map, if◌then◌else◌, is_some,
  keep, any, all, Text, lower, text_eq,
}
use cortex_gateway.Budget
use cortex_gateway.ChatService.Base.{
  on_failure, Call, Target, System, World, M, done, fail, failed, ◌>>=◌, return, throw, lift,
}
use cortex_gateway.ChatService.Admission.{policy_of, or_value}
use cortex_gateway.Auth.{RequestContext}
use cortex_gateway.Chat.{ChatCompletionRequest, ChatCompletionResponse}
use cortex_gateway.Cost.{estimate_cost, calculate_actual_cost}
use cortex_gateway.Errors.{Error, ErrorClass, budget_configuration}
use cortex_gateway.Errors
use cortex_gateway.Executor.Loop.{execute}
use cortex_gateway.Experiment.{ExperimentAssignment}
use cortex_gateway.Floats.{f0, lt, feq}
use cortex_gateway.Policy.{BudgetAction, downgrade_action, block_action, warn_action}
use cortex_gateway.Routing.Candidates.{build_candidates}
use cortex_gateway.Routing.Models.{RoutingCandidate, PolicyWeights}
use cortex_gateway.Routing.Router.{capabilities_of, given}
use cortex_gateway.Routing.Scorer.{score_candidates}
use cortex_gateway.Budget.{budget_exceeded}

-- The target with its estimate, and whether the budget changed or warned.
pub record Plan (F : Type 0) : Type 0 where
  pub target : Target
  pub estimated_cost : F
  pub budget_downgraded : Bool
  pub budget_warning : Bool

-- A response with its actual cost and what remains of the budget.
pub record Paid (F : Type 0) : Type 0 where
  pub response : ChatCompletionResponse F
  pub actual_cost : F
  pub remaining_budget : Option F

unfoldable pub is_downgrade : BudgetAction → Bool
is_downgrade downgrade_action = true
is_downgrade block_action = false
is_downgrade warn_action = false

-- `all(r.lower() in cap_set for r in required_caps)`.
unfoldable pub has_capabilities : List Text → List Text → Bool
has_capabilities capabilities required =
    all (λ r. any (text_eq (lower r)) (map lower capabilities)) required

abbrev pub budget_error : Budget.BudgetError → Error
budget_error Budget.budget_exceeded = record { class = Errors.budget_exceeded; message = [] }
budget_error Budget.budget_configuration_error = record {
  class = Errors.budget_configuration;
  message = [];
}

module _ (sys : System) where
  open sys use {fl, cfg, out}
  open fl use {F, lit, le, round}

  -- `context and budget_service and cost_calculator and budget_enabled`.
  unfoldable pub checks_budget : Call F → Bool
  checks_budget call =
      is_some call.context
      && call.services.budget_service
      && call.services.cost_calculator
      && call.settings.budget_enabled

  -- The default weights of `score_candidates`.
  abbrev pub default_weights : PolicyWeights F
  default_weights = record {
    health_weight = lit 3 10;
    success_rate_weight = lit 3 10;
    latency_weight = lit 2 10;
    cost_weight = lit 2 10;
  }

  -- What the loop over the candidates keeps.
  unfoldable pub is_affordable : ChatCompletionRequest F → Target → F → RoutingCandidate F → Bool
  unfolding has_capabilities
  is_affordable request original remaining c =
      c.is_healthy
      && not (text_eq c.provider original.provider && text_eq c.model original.model)
      && has_capabilities c.capabilities (capabilities_of request.required_capabilities)
      && le (estimate_cost fl cfg.catalog c.provider c.model request) remaining

  -- The candidates as the providers answer now.
  unfoldable pub discover : M sys (List (RoutingCandidate F))
  discover w =
      let (reg, asked) = out.survey w.executor.world in
      (
        done (build_candidates fl reg cfg.catalog w.executor.tracker),
        record w { executor = record w.executor { world = asked } },
      )

  -- The best of the affordable candidates.
  unfoldable pub cheaper :
      ChatCompletionRequest F → Target → List (RoutingCandidate F) → M sys (Plan F)
  cheaper request original affordable = elim (score_candidates fl affordable default_weights) [
    | [] ↦ throw (failed (budget_error Budget.budget_exceeded))
    | best ∷ others ↦
        let c = best.candidate in
        return (record {
          target = record original { provider = c.provider; model = c.model };
          estimated_cost = estimate_cost fl cfg.catalog c.provider c.model request;
          budget_downgraded = true;
          budget_warning = false;
        })
  ]

  -- `_attempt_budget_downgrade`.
  unfoldable pub attempt_budget_downgrade :
      ChatCompletionRequest F → RequestContext → Target → F → M sys (Plan F)
  unfolding is_affordable discover cheaper
  attempt_budget_downgrade request c original estimated w =
      let same : Plan F = record {
        target = original;
        estimated_cost = estimated;
        budget_downgraded = false;
        budget_warning = false;
      } in
      elim (Budget.get_enabled w.budgets c.team_id) [
        | none ↦ (done same, w)
        | some b ↦
            let remaining = Budget.remaining_amount fl b in
            if le estimated remaining
            then (done same, w)
            else (discover >>= λ candidates.
                  cheaper request original
                    (keep (is_affordable request original remaining) candidates))
                w
      ]

  -- `check_and_reserve` for a plan.
  unfoldable pub reserve : Call F → RequestContext → Plan F → M sys (Plan F)
  reserve call c plan w =
      let t = call.times in
      elim (Budget.check_and_reserve fl w.budgets c.team_id plan.estimated_cost
        call.settings.budget_warning_threshold_percent t.budget_now t.budget_later
        t.budget_reserved) [
          | Budget.ok r ↦
              let (budgets, row, warning) = r in
              (done (record plan { budget_warning = warning }), record w { budgets = budgets })
          | Budget.raise e ↦ (fail (failed (budget_error e)), w)
        ]

  -- A plan without money.
  unfoldable pub free_plan : Target → Plan F
  free_plan t = record {
    target = t;
    estimated_cost = f0 fl;
    budget_downgraded = false;
    budget_warning = false;
  }

  -- The estimate, and the downgrade where the policy asks for it.
  unfoldable pub estimate_plan : Call F → RequestContext → Target → M sys (Plan F)
  unfolding is_downgrade attempt_budget_downgrade free_plan
  estimate_plan call c t =
      let estimate = estimate_cost fl cfg.catalog t.provider t.model call.request in
      if is_downgrade (policy_of sys call).budget
      then attempt_budget_downgrade call.request c t estimate
      else return (record (free_plan t) { estimated_cost = estimate })

  -- The pre-check of the budget.
  unfoldable pub plan_budget : Call F → Target → M sys (Plan F)
  unfolding checks_budget estimate_plan reserve
  plan_budget call t = elim call.context [
    | none ↦ return (free_plan t)
    | some c ↦
        if checks_budget call
        then (estimate_plan call c t >>= λ plan. reserve call c plan)
        else return (free_plan t)
  ]

  -- The request for the executor: the policy may forbid the failover.
  unfoldable pub exec_request : Call F → ChatCompletionRequest F
  exec_request call =
      let disabled : Bool = elim call.request.failover_enabled [ none ↦ false | some b ↦ not b ] in
      if not (policy_of sys call).fallback && not disabled
      then record call.request { failover_enabled = some false }
      else call.request

  -- A failure of the executor gives the reservation back.
  unfoldable pub release : Call F → Plan F → World sys → World sys
  release call plan w = elim call.context [
    | none ↦ w
    | some c ↦
        if call.services.budget_service && lt fl (f0 fl) plan.estimated_cost
        then record w {
          budgets =
              Budget.release_reservation fl w.budgets c.team_id plan.estimated_cost
                call.times.budget_settled;
        }
        else w
  ]

  unfoldable pub run_provider : Call F → Plan F → M sys (ChatCompletionResponse F)
  unfolding lift on_failure exec_request release
  run_provider call plan =
      let t = plan.target in
      on_failure
        (lift sys (execute fl out cfg (exec_request call) t.provider t.model (some t.routing_mode)))
        (release call plan)

  -- The actual cost of a response, by the provider and model that served it.
  unfoldable pub actual_cost_of : Plan F → ChatCompletionResponse F → F
  unfolding calculate_actual_cost
  actual_cost_of plan r =
      calculate_actual_cost fl cfg.catalog
        (or_value (given r.metadata.selected_provider) plan.target.provider)
        (or_value (given r.metadata.selected_model) plan.target.model) (some r.usage)
        plan.estimated_cost

  -- The response with what it cost; what remains of the budget is shown if the settings say so.
  unfoldable pub receipt : Call F → F → ChatCompletionResponse F → Option (Budget.Budget F) → Paid F
  receipt call actual r row = record {
    response = r;
    actual_cost = actual;
    remaining_budget = elim row [
      | none ↦ none
      | some b ↦
          if call.settings.budget_expose_remaining
          then some (Budget.remaining_amount fl b)
          else none
    ];
  }

  -- `context and budget_service and cost_calculator and estimated_cost >= 0`, behind the context.
  unfoldable pub is_charged : Call F → Plan F → Bool
  is_charged call plan =
      call.services.budget_service
      && call.services.cost_calculator
      && le (f0 fl) plan.estimated_cost

  -- The reconciliation; it does not ask whether budgets are enabled.
  unfoldable pub settle : Call F → Plan F → ChatCompletionResponse F → M sys (Paid F)
  unfolding actual_cost_of receipt is_charged
  settle call plan r w = elim call.context [
    | none ↦ (done (receipt call (f0 fl) r none), w)
    | some c ↦
        let actual = actual_cost_of plan r in
        let (budgets, row) =
          Budget.reconcile fl w.budgets c.team_id plan.estimated_cost actual
            call.times.budget_settled in
        if is_charged call plan
        then (done (receipt call actual r row), record w { budgets = budgets })
        else (done (receipt call (f0 fl) r none), w)
  ]

  -- `round(x, 8) if x else None`.
  unfoldable pub shown_cost : F → Option F
  shown_cost x = if feq fl x (f0 fl) then none else some (round 8 x)

  -- The metadata of steps 6 and 9D.
  unfoldable pub attach :
      Plan F → Option ExperimentAssignment → Option ℕ → Paid F → ChatCompletionResponse F
  unfolding shown_cost
  attach plan arm remaining paid =
      let r = paid.response in
      let m = record r.metadata {
        estimated_cost = shown_cost plan.estimated_cost;
        actual_cost = shown_cost paid.actual_cost;
        remaining_budget = paid.remaining_budget;
        budget_warning = plan.budget_warning;
        budget_downgraded = plan.budget_downgraded;
        rate_limit_remaining = remaining;
      } in
      elim arm [
        | none ↦ record r { metadata = m }
        | some a ↦ record r {
          metadata = record m {
            experiment_id = some a.experiment_id;
            experiment_version = some a.experiment_version;
            experiment_arm = some a.arm_name;
          };
        }
      ]

  -- The write of the cache is left to the event loop.
  unfoldable pub schedule : Call F → ChatCompletionResponse F → World sys → World sys
  schedule call r w =
      if call.services.semantic_cache && is_some call.context
      then record w { scheduled = (call.request, r) ∷ w.scheduled }
      else w
