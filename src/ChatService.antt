-- ===== src/ChatService.antt =====
-- The chat pipeline: `ChatService.complete` of backend/app/services/chat_service.py, from its steps
-- in `ChatService.Admission` (rate limits, target, cache) and `ChatService.Spending` (budget,
-- provider). Log lines are left out, and so is `_get_budget_policy`, which nothing calls.
pub mod Base
pub mod Admission
pub mod Spending
pub mod Ends
pub mod Reservation
pub mod Rows
pub mod Laws
pub mod Downgrade
pub mod Tests
use cortex_gateway.Prelude.{ℕ, Option, none, some}
use Base.{Call, Target, System, World, M, Result, done, fail, ◌>>=◌, return}
use Admission.{limit_rate, choose_target, consult_cache, assignment_of, redirect}
use Spending.{Plan, Paid, plan_budget, run_provider, settle, attach, schedule}
use cortex_gateway.Chat.{ChatCompletionResponse}
use cortex_gateway.Experiment.{ExperimentAssignment}

module _ (sys : System) where
  open sys use {fl}
  open fl use {F}

  -- From the reservation to the settlement.
  unfoldable pub spend : Call F → Target → M sys (Plan F × Paid F)
  unfolding plan_budget run_provider settle
  spend call t = plan_budget sys call t >>= λ plan. run_provider sys call plan >>= λ response.
      settle sys call plan response >>= λ paid. return (plan, paid)

  -- What follows a miss of the cache.
  unfoldable pub generate : Call F → Option ℕ → Target → M sys (ChatCompletionResponse F)
  unfolding assignment_of redirect spend attach schedule
  generate call remaining t =
      let arm = assignment_of sys call in
      spend call (redirect sys arm t) >>= λ done_plan w.
      let (plan, paid) = done_plan in
      let response = attach sys plan arm remaining paid in
      (done response, schedule sys call response w)

  -- `complete`.
  unfoldable pub complete : Call F → M sys (ChatCompletionResponse F)
  unfolding limit_rate choose_target consult_cache generate
  complete call = limit_rate sys call >>= λ remaining. choose_target sys call >>= λ t.
      consult_cache sys call remaining >>= λ cached. elim cached [
        | some response ↦ return response
        | none ↦ generate call remaining t
      ]
