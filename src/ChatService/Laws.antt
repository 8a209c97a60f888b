-- ===== src/ChatService/Laws.antt =====
-- What the whole chat pipeline promises: budgets, rejected requests, the policy's strategy.
use cortex_gateway.Prelude.{
  ℕ, ◌≡◌, refl, ap, ◌∙◌, ◌⊎◌, inl, inr, true, false, ◌&&◌, Option, none, some, [], if◌then◌else◌,
  is_some, Bool-cases, Option-cases, Text, codes, lower, text_eq,
}
use cortex_gateway.Auth.{RequestContext, attribute}
use cortex_gateway.SemanticCache.{cache_lookup}
use cortex_gateway.Budget
use cortex_gateway.Budget.{Budget}
use cortex_gateway.Chat.{ChatCompletionResponse}
use cortex_gateway.ChatService.Base.{
  Call, Target, System, World, M, Result, Failure, done, fail, failed, rate_limited, ◌>>=◌, return,
  throw,
}
use cortex_gateway.ChatService.Admission.{
  limit_rate, limits_of, admit, asks_manual, effective_routing_mode, asks_providers, route_request,
  engine_of, choose_target, consult_cache, manual_target, routed_target, identify, policy_of,
  redirect, assignment_of,
}
use cortex_gateway.ChatService.Spending.{schedule, attach, Plan, Paid}
use cortex_gateway.ChatService.{spend, generate, complete}
use cortex_gateway.ChatService.Ends.{
  bind-fail, Ends, Ends-as, Ends-done, Ends-fail, bind-Ends, Ends-weaken,
}
use cortex_gateway.ChatService.Rows.{Settled, spend-row}
use cortex_gateway.ChatService.Reservation.{HasRow, Failed, paid_row}
use cortex_gateway.Budget.Cases.{IsKnown}
use cortex_gateway.RateLimit.Binding.{Binds, combine-Binds, check_all-results, scope_results}
use cortex_gateway.RateLimit.{RateLimitResult, combine, check_all, RateLimitOutcome}
use cortex_gateway.Routing.Models.{RoutingMode}
use cortex_gateway.Routing.Router
use cortex_gateway.Routing.Router.{route, given, resolve_routing_mode}
use cortex_gateway.Errors.{invalid_manual_routing}

-- Whatever a pure result is, the state behind it is the given one.
result-Ends :
    {S A B : Type 0} (x : Router.Result A) (f : A → B) (s : S) (K : S → Type 0)
    → K s
    → Ends {A = B}
        (λ a. K)
        K
        (elim x as (λ z. Result B × S) [
          | Router.ok a ↦ (done (f a), s)
          | Router.raise e ↦ (fail (failed (record { class = e; message = [] })), s)
        ])
result-Ends (Router.ok a) f s K h = Ends-done (f a) s refl h
result-Ends (Router.raise e) f s K h =
    Ends-fail (failed (record { class = e; message = [] })) s refl h

module _ (sys : System) (call : Call sys.fl.F) where
  open sys use {fl}
  open fl use {F}

  -- The outcome of the rate limits.
  abbrev pub outcome_of : RequestContext → World sys → RateLimitOutcome × sys.counters.Store
  outcome_of c w =
      check_all fl sys.counters call.services.connected (limits_of sys call c) call.times.key_ms
        call.times.team_ms call.times.org_ms w.counts

  module _ (c : RequestContext) (b : Budget F) where
    abbrev Row : World sys → Type 0
    Row = HasRow sys call c b b

    admit-Ends :
        (outcome : RateLimitOutcome) (w : World sys)
        → Row w
        → Ends (λ r. Row) Row (admit sys outcome w)
    unfolding admit return throw
    admit-Ends outcome w h = elim (Bool-cases outcome.allowed) [
      | inl is_on ↦ Ends-done (some outcome.binding_result.remaining) w (rw (is_on, admit) refl) h
      | inr is_off ↦
          Ends-fail
            (rate_limited outcome.binding_result.retry_after_seconds outcome.binding_result.scope) w
            (rw (is_off, admit) refl) h
    ]

    limit_rate-Ends :
        (w : World sys)
        → call.context ≡ some c
        → Row w
        → Ends (λ r. Row) Row (limit_rate sys call w)
    unfolding limit_rate
    limit_rate-Ends w ctx h =
        let out = outcome_of c w in
        elim (Bool-cases (call.services.rate_limiter && call.settings.rate_limit_enabled)) [
          | inl on ↦
              Ends-as (admit-Ends out.0 (record w { counts = out.1 }) h)
                (rw (ctx, on, limit_rate) refl)
          | inr off ↦ Ends-done none w (rw (ctx, off, limit_rate) refl) h
        ]

    route_request-Ends :
        (w : World sys) → Row w → Ends (λ d. Row) Row (route_request sys call.request w)
    unfolding route_request
    route_request-Ends w h =
        let (reg, asked) = sys.out.survey w.executor.world in
        let w' = record w { executor = record w.executor { world = asked } } in
        let decision = route fl (engine_of sys reg w) call.request in
        let asks = asks_providers sys (resolve_routing_mode fl sys.cfg.default_mode call.request) in
        result-Ends decision (λ d. d) (if asks then w' else w) Row
          (elim (Bool-cases asks) [ inl is_on ↦ rw is_on h | inr is_off ↦ rw is_off h ])

    routed_target-Ends :
        (w : World sys) → Row w → Ends (λ t. Row) Row (routed_target sys call.request w)
    unfolding routed_target return
    routed_target-Ends w h =
        bind-Ends (λ d. Row) (λ t. Row) Row (route_request sys call.request) _ w
          (route_request-Ends w h) (λ d w' h'. Ends-done _ w' refl h')

    manual_target-Ends :
        (mode : Text) (w : World sys)
        → Row w
        → Ends (λ t. Row) Row (manual_target sys call.request mode w)
    unfolding manual_target throw return
    manual_target-Ends mode w h =
        let r = call.request in
        let invalid : Failure = failed (record { class = invalid_manual_routing; message = [] }) in
        elim (Option-cases (given r.provider)) [
          | inl missing ↦ Ends-fail invalid w (rw (missing, manual_target) refl) h
          | inr (provider, e) ↦ elim (Bool-cases (text_eq (lower r.model) (codes "auto"))) [
            | inl is_auto ↦ Ends-fail invalid w (rw (e, is_auto, manual_target) refl) h
            | inr concrete ↦
                Ends-done (record { provider = provider; model = r.model; routing_mode = mode }) w
                  (rw (e, concrete, manual_target) refl) h
          ]
        ]

    choose_target-Ends : (w : World sys) → Row w → Ends (λ t. Row) Row (choose_target sys call w)
    unfolding choose_target
    choose_target-Ends w h = elim (Bool-cases (asks_manual sys call.request)) [
      | inl by_hand ↦
          Ends-as (manual_target-Ends (effective_routing_mode sys call) w h)
            (rw (by_hand, choose_target) refl)
      | inr routed ↦ Ends-as (routed_target-Ends w h) (rw (routed, choose_target) refl)
    ]

    consult_cache-Ends :
        (remaining : Option ℕ) (w : World sys)
        → call.context ≡ some c
        → Row w
        → Ends (λ r. Row) Row (consult_cache sys call remaining w)
    unfolding consult_cache
    consult_cache-Ends remaining w ctx h =
        elim (Bool-cases (call.services.semantic_cache && (policy_of sys call).cache)) [
          | inl on ↦
              let found =
                cache_lookup fl sys.redis sys.codec sys.cache_settings call.request c
                  (attribute (codes "request_id") c) call.uuid w.cache in
              elim (Option-cases found) [
                | inl miss ↦ Ends-done none w (rw (ctx, on, miss, consult_cache) refl) h
                | inr (response, hit) ↦
                    Ends-done (some (identify sys call remaining response)) w
                      (rw (ctx, on, hit, consult_cache) refl) h
              ]
          | inr off ↦ Ends-done none w (rw (ctx, off, consult_cache) refl) h
        ]

    schedule-row :
        (row : Budget F) (r : ChatCompletionResponse F) (w : World sys)
        → HasRow sys call c b row w
        → HasRow sys call c b row (schedule sys call r w)
    unfolding schedule
    schedule-row row r w h =
        elim (Bool-cases (call.services.semantic_cache && is_some call.context)) [
          | inl is_on ↦ rw is_on h
          | inr is_off ↦ rw is_off h
        ]

    -- A request that is answered leaves the row, which a hit of the cache does, or settles a plan,
    -- whose answer it gives.
    abbrev pub Answered : ChatCompletionResponse F → World sys → Type 0
    Answered r w =
        Row w
        ⊎ ((plan : Plan F) × (paid : Paid F) × (remaining : Option ℕ) × (r
              ≡ attach sys plan (assignment_of sys call) remaining paid)
            × Settled sys call c b plan paid w)

    abbrev Spoiled : World sys → Type 0
    Spoiled = Failed sys call c b

    generate-Ends :
        (remaining : Option ℕ) (t : Target) (w : World sys)
        → call.context ≡ some c
        → IsKnown b
        → Budget.is_period_expired b call.times.budget_now ≡ false
        → Row w
        → Ends Answered Spoiled (generate sys call remaining t w)
    unfolding generate schedule
    generate-Ends remaining t w ctx known current h =
        bind-Ends (λ out. Settled sys call c b out.0 out.1) Answered Spoiled
          (spend sys call (redirect sys (assignment_of sys call) t)) _ w
          (spend-row sys call c b _ w ctx known current h)
          (λ out w' h'.
            Ends-done (attach sys out.0 (assignment_of sys call) remaining out.1)
              (schedule sys call (attach sys out.0 (assignment_of sys call) remaining out.1) w')
              refl
              (inr (
                out.0,
                out.1,
                remaining,
                refl,
                (schedule-row (paid_row sys call c b out.0 out.1) _ w' h'.0, h'.1),
              )))

    answer-Ends :
        (remaining : Option ℕ) (t : Target) (cached : Option (ChatCompletionResponse F))
        (w : World sys)
        → call.context ≡ some c
        → IsKnown b
        → Budget.is_period_expired b call.times.budget_now ≡ false
        → Row w
        → Ends Answered Spoiled (
            (elim cached as (λ z. M sys (ChatCompletionResponse F)) [
              | some response ↦ return response
              | none ↦ generate sys call remaining t
            ])
              w)
    unfolding return
    answer-Ends remaining t none w ctx known current h =
        generate-Ends remaining t w ctx known current h
    answer-Ends remaining t (some r) w ctx known current h = Ends-done r w refl (inl h)

    -- In the period of an enabled budget with a known policy, and up to the column `updated_at`: a
    -- request that fails, at whatever step, leaves the row of its team's budget as it was, or with
    -- the estimate of some target reserved and, if it is above 0, given back. One that is answered
    -- leaves the row as it was, or settles a plan: its estimate is given back, its actual cost is
    -- added to the usage, as `spend-row` says, and the answer is that plan's.
    pub complete-row :
        (w : World sys)
        → call.context ≡ some c
        → IsKnown b
        → Budget.is_period_expired b call.times.budget_now ≡ false
        → HasRow sys call c b b w
        → Ends Answered (Failed sys call c b) (complete sys call w)
    unfolding complete
    complete-row w ctx known current h =
        bind-Ends (λ r. Row) Answered Spoiled (limit_rate sys call) _ w
          (Ends-weaken (λ s. inl) (limit_rate-Ends w ctx h))
          (λ remaining w1 h1.
            bind-Ends (λ t. Row) Answered Spoiled (choose_target sys call) _ w1
              (Ends-weaken (λ s. inl) (choose_target-Ends w1 h1))
              (λ t w2 h2.
                bind-Ends (λ r. Row) Answered Spoiled (consult_cache sys call remaining) _ w2
                  (Ends-weaken (λ s. inl) (consult_cache-Ends remaining w2 ctx h2))
                  (λ cached w3 h3. answer-Ends remaining t cached w3 ctx known current h3)))

  pub complete-refused :
      (c : RequestContext) (w : World sys)
      → call.context ≡ some c
      → call.services.rate_limiter ≡ true
      → call.settings.rate_limit_enabled ≡ true
      → (outcome_of c w).0.allowed ≡ false
      → complete sys call w ≡ (
        fail (
            rate_limited
              (outcome_of c w).0.binding_result.retry_after_seconds
              (outcome_of c w).0.binding_result.scope),
        record w { counts = (outcome_of c w).1 },
      )
  unfolding complete limit_rate admit throw
  complete-refused c w ctx limiter enabled over =
      bind-fail (limit_rate sys call) _ w (rw (ctx, limiter, enabled, over, admit, limit_rate) refl)

  -- The results of the three scopes, and the counters behind them.
  abbrev pub scopes_of :
      RequestContext
      → World sys
      → RateLimitResult × RateLimitResult × RateLimitResult × sys.counters.Store
  scopes_of c w =
      scope_results fl sys.counters call.services.connected (limits_of sys call c) call.times.key_ms
        call.times.team_ms call.times.org_ms w.counts

  -- Where a scope of the limiter, of the key, the team or the organization, refuses: the request is
  -- answered with the scope and the waiting time of one of those that refuse, which waits longest
  -- among them, and nothing changes but the counters.
  pub complete-rate_limited :
      (c : RequestContext) (w : World sys)
      → call.context ≡ some c
      → call.services.rate_limiter ≡ true
      → call.settings.rate_limit_enabled ≡ true
      → (scopes_of c w).0.allowed && ((scopes_of c w).1.allowed && (scopes_of c w).2.allowed)
        ≡ false
      → (b : RateLimitResult) × Binds b (scopes_of c w).0 (scopes_of c w).1 (scopes_of c w).2
        × (complete sys call w ≡ (
          fail (rate_limited b.retry_after_seconds b.scope),
          record w { counts = (scopes_of c w).3 },
        ))
  complete-rate_limited c w ctx limiter enabled over =
      let (k, t, o, counts) = scopes_of c w in
      let same =
        check_all-results fl sys.counters call.services.connected (limits_of sys call c)
          call.times.key_ms call.times.team_ms call.times.org_ms w.counts in
      let (off, binds) = combine-Binds k t o over in
      let refused = complete-refused c w ctx limiter enabled (ap (λ x. x.0.allowed) same ∙ off) in
      ((combine k t o).binding_result, binds, rw same at refused)

  effective_routing_mode-manual :
      (other : Call F)
      → other.request ≡ call.request
      → asks_manual sys call.request ≡ true
      → effective_routing_mode sys other ≡ codes "manual"
  unfolding effective_routing_mode
  effective_routing_mode-manual other same by_hand = rw (same, by_hand, effective_routing_mode) refl

  choose_target-strategy :
      (mode : RoutingMode)
      → choose_target sys
          (record call { resolved_policy = some (record (policy_of sys call) { routing = mode }) })
        ≡ choose_target sys call
  unfolding choose_target
  choose_target-strategy mode =
      let other : Call F = record call {
        resolved_policy = some (record (policy_of sys call) { routing = mode });
      } in
      elim (Bool-cases (asks_manual sys call.request)) [
        | inl by_hand ↦
            rw
              (
                by_hand,
                effective_routing_mode-manual other refl by_hand,
                effective_routing_mode-manual call refl by_hand,
                choose_target,
              )
              refl
        | inr routed ↦ rw (routed, choose_target) refl
      ]

  -- The routing strategy of the policy has no effect: a request ends in the same answer and the
  -- same state under every strategy.
  pub complete-strategy :
      (mode : RoutingMode) (w : World sys)
      → complete sys
          (record call { resolved_policy = some (record (policy_of sys call) { routing = mode }) })
          w
        ≡ complete sys call w
  unfolding complete
  complete-strategy mode w =
      ap
        (λ (m : M sys Target).
          (limit_rate sys call >>= λ remaining. m >>= λ t.
          consult_cache sys call remaining >>= λ cached. elim cached [
            | some response ↦ return response
            | none ↦ generate sys call remaining t
          ])
            w)
        (choose_target-strategy mode)
