-- ===== src/ChatService/Tests.antt =====
-- A request of a team with a budget of 100 ticks, in the surroundings of the other tests: no
-- provider answers.
use cortex_gateway.Prelude.{
  ℕ, ◌≡◌, refl, inl, true, false, ◌&&◌, none, some, [], leb, lookup, insert, codes, upper, show_nat,
}
use cortex_gateway.Budget
use cortex_gateway.Budget.Tests.{row, table, noon, row_found}
use cortex_gateway.Executor.Tests.{world, config, initial}
use cortex_gateway.RateLimit.Tests.{counters}
use cortex_gateway.SemanticCache.Tests.{redis, codec, cfg, context, nothing, request}
use cortex_gateway.Floats.Scaled.{scaled}
use cortex_gateway.ChatService.Base.{System, Call, World, Settings, fail, rate_limited, Target}
use cortex_gateway.ChatService.{complete, spend}
use cortex_gateway.ChatService.Spending.{attempt_budget_downgrade}
use cortex_gateway.ChatService.Downgrade.{Fits, candidates_of, attempt_budget_downgrade-Fits}
use cortex_gateway.ChatService.Ends.{Ends}
use cortex_gateway.ChatService.Admission.{policy_of, limits_of}
use cortex_gateway.ChatService.Rows.{Settled, spend-row}
use cortex_gateway.ChatService.Reservation.{Failed}
use cortex_gateway.ChatService.Laws.{
  Answered, scopes_of, complete-row, complete-rate_limited, complete-strategy,
}
use cortex_gateway.Routing.Models.{lowest_cost}
use cortex_gateway.Budget.Calendar.{reached}
use cortex_gateway.RateLimit.{check_scope, RateLimitResult}
use cortex_gateway.RateLimit.Binding.{Binds}
use cortex_gateway.Budget.{remaining_amount}
use cortex_gateway.Prelude.{char_upper}

abbrev pub sys : System
sys = record {
  fl = scaled;
  counters = counters;
  out = world;
  cfg = config;
  redis = redis;
  codec = codec;
  cache_settings = cfg;
  sha256 = λ text. [];
}

abbrev pub settings : Settings
settings = record {
  rate_limit_enabled = true;
  rate_limit_api_key_requests = 5;
  rate_limit_api_key_window_seconds = 60;
  rate_limit_team_requests = 0;
  rate_limit_team_window_seconds = 60;
  rate_limit_org_requests = 50;
  rate_limit_org_window_seconds = 60;
  budget_enabled = true;
  budget_warning_threshold_percent = 80;
  budget_expose_remaining = true;
}

abbrev call : Call ℕ
call = record {
  request = record request { provider = some (codes "groq"); model = codes "m" };
  request_id = codes "r";
  context = some context;
  settings = settings;
  services = record {
    rate_limiter = true;
    connected = true;
    overrides = none;
    budget_service = true;
    cost_calculator = true;
    semantic_cache = true;
  };
  resolved_policy = none;
  times = record {
    key_ms = 125000;
    team_ms = 125000;
    org_ms = 125000;
    budget_now = noon 1 31;
    budget_later = noon 1 31;
    budget_reserved = noon 1 31;
    budget_settled = noon 1 31;
  };
  uuid = codes "u";
}

-- The team has requests left.
abbrev admitted : Call ℕ
admitted = record call { settings = record settings { rate_limit_team_requests = 20 } }

abbrev pub start : World sys
start = record { counts = []; budgets = table; executor = initial; cache = nothing; scheduled = [] }

abbrev target : Target
target = record { provider = codes "groq"; model = codes "m"; routing_mode = codes "manual" }

current : Budget.is_period_expired row (noon 1 31) ≡ false
unfolding Budget.is_period_expired reached
current = refl

blocks : upper row.policy ≡ codes "BLOCK"
unfolding upper char_upper
blocks = refl

spend-row_example :
    Ends
      (λ out. Settled sys admitted context row out.0 out.1)
      (Failed sys admitted context row)
      (spend sys admitted target start)
spend-row_example =
    spend-row sys admitted context row target start refl (inl (inl blocks)) current
      (row.updated_at, row_found)

complete-row_example :
    Ends
      (Answered sys admitted context row)
      (Failed sys admitted context row)
      (complete sys admitted start)
complete-row_example =
    complete-row sys admitted context row start refl (inl (inl blocks)) current
      (row.updated_at, row_found)

over :
    (scopes_of sys call context start).0.allowed
      && ((scopes_of sys call context start).1.allowed
          && (scopes_of sys call context start).2.allowed)
    ≡ false
unfolding check_scope lookup insert limits_of show_nat
over = refl

complete-rate_limited_example :
    (b : RateLimitResult) × Binds b
      (scopes_of sys call context start).0
      (scopes_of sys call context start).1
      (scopes_of sys call context start).2
    × (complete sys call start ≡ (
      fail (rate_limited b.retry_after_seconds b.scope),
      record start { counts = (scopes_of sys call context start).3 },
    ))
complete-rate_limited_example = complete-rate_limited sys call context start refl refl refl over

complete-strategy_example :
    complete sys
      (record call {
        resolved_policy = some (record (policy_of sys call) { routing = lowest_cost });
      })
      start
    ≡ complete sys call start
complete-strategy_example = complete-strategy sys call lowest_cost start

attempt_budget_downgrade-Fits_example :
    Ends
      (λ plan w'.
        Fits sys request target (remaining_amount scaled row) (candidates_of sys start) 250 plan)
      (λ w'. leb 250 (remaining_amount scaled row) ≡ false)
      (attempt_budget_downgrade sys request context target 250 start)
attempt_budget_downgrade-Fits_example =
    attempt_budget_downgrade-Fits sys request context target 250 start row_found
