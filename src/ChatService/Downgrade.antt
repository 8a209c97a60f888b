-- ===== src/ChatService/Downgrade.antt =====
-- What `_attempt_budget_downgrade` promises.
use cortex_gateway.Prelude.{
  list-cases, ◌≡◌, refl, ◌⊎◌, inl, inr, Bool, false, some, [], ◌∷◌, map, arith, Bool-cases, keep,
  any, In, here, there, In-keep, lower, text_eq, text_eq_iff,
}
use cortex_gateway.Auth.{RequestContext}
use cortex_gateway.Budget
use cortex_gateway.Budget.{Budget, get_enabled, remaining_amount}
use cortex_gateway.Chat.{ChatCompletionRequest}
use cortex_gateway.ChatService.Base.{Target, System, World, failed, throw, return}
use cortex_gateway.ChatService.Spending.{
  Plan, attempt_budget_downgrade, is_affordable, cheaper, discover, default_weights, budget_error,
  has_capabilities,
}
use cortex_gateway.ChatService.Ends.{Ends, Ends-done, Ends-fail, Ends-as, bind-Ends}
use cortex_gateway.Cost.{estimate_cost}
use cortex_gateway.Routing.Candidates.{build_candidates}
use cortex_gateway.Routing.Models.{RoutingCandidate}
use cortex_gateway.Routing.Router.{capabilities_of}
use cortex_gateway.Routing.Router.Laws.{In-score_candidates}
use cortex_gateway.Routing.Scorer.{score_candidates}
use cortex_gateway.Prelude.{Text}
use cortex_gateway.Prelude.{List}
use cortex_gateway.Prelude.{true}
use cortex_gateway.Prelude.{all}

module _ (sys : System) (request : ChatCompletionRequest sys.fl.F) (t : Target)
    (remaining : sys.fl.F) where
  open sys use {fl}
  open fl use {F, le}

  -- A candidate that may replace the target: healthy, of another provider or model, with every
  -- required capability in whatever case, and with an estimate that fits what remains.
  pub record Replaces (c : RoutingCandidate F) : Type 0 where
    pub healthy : c.is_healthy ≡ true
    pub another : ¬ ((c.provider ≡ t.provider) × (c.model ≡ t.model))
    pub able :
        (r : Text)
        → In r (capabilities_of request.required_capabilities)
        → In (lower r) (map lower c.capabilities)
    pub fits : le (estimate_cost fl sys.cfg.catalog c.provider c.model request) remaining ≡ true

  -- The plan for the target itself.
  abbrev pub keeps : F → Plan F
  keeps estimated = record {
    target = t;
    estimated_cost = estimated;
    budget_downgraded = false;
    budget_warning = false;
  }

  -- The plan for a candidate.
  abbrev pub moves_to : RoutingCandidate F → Plan F
  moves_to c = record {
    target = record t { provider = c.provider; model = c.model };
    estimated_cost = estimate_cost fl sys.cfg.catalog c.provider c.model request;
    budget_downgraded = true;
    budget_warning = false;
  }

  -- The original plan where its estimate fits, and otherwise that of a candidate that may replace it.
  abbrev pub Fits : List (RoutingCandidate F) → F → Plan F → Type 0
  Fits candidates estimated plan =
      ((le estimated remaining ≡ true) × (plan ≡ keeps estimated))
      ⊎ ((le estimated remaining ≡ false)
          × ((c : RoutingCandidate F) × In c candidates × Replaces c × (plan ≡ moves_to c)))

  any-In : (x : Text) (xs : List Text) → any (text_eq x) xs ≡ true → In x xs
  any-In x [] h = ground arith
  any-In x (y ∷ ys) h = elim (Bool-cases (text_eq x y)) [
    | inl e ↦ rw ((text_eq_iff x y).0 e) here
    | inr e ↦ there (any-In x ys (ground (arith, h, e)))
  ]

  all-In : (p : Text → Bool) (xs : List Text) → all p xs ≡ true → {x : Text} → In x xs → p x ≡ true
  all-In p [] h m = elim m [ ]
  all-In p (x ∷ xs) h here = ground (arith, h)
  all-In p (x ∷ xs) h (there m) = all-In p xs (ground (arith, h)) m

  is_affordable-Replaces :
      (c : RoutingCandidate F) → is_affordable sys request t remaining c ≡ true → Replaces c
  unfolding is_affordable has_capabilities
  is_affordable-Replaces c h = record {
    healthy = ground (arith, h);
    another = λ same. ground (
      arith,
      h,
      (text_eq_iff c.provider t.provider).1 same.0,
      (text_eq_iff c.model t.model).1 same.1,
    );
    able = λ r m. any-In (lower r) (map lower c.capabilities) (
        all-In (λ r. any (text_eq (lower r)) (map lower c.capabilities))
          (capabilities_of request.required_capabilities) (ground (arith, h)) m);
    fits = ground (arith, h);
  }

  cheaper-Fits :
      (candidates : List (RoutingCandidate F)) (estimated : F) (w : World sys)
      → le estimated remaining ≡ false
      → Ends
          (λ plan w'. Fits candidates estimated plan)
          (λ w'. le estimated remaining ≡ false)
          (cheaper sys request t (keep (is_affordable sys request t remaining) candidates) w)
  unfolding cheaper throw return
  cheaper-Fits candidates estimated w over =
      let affordable = keep (is_affordable sys request t remaining) candidates in
      elim (list-cases (score_candidates fl affordable (default_weights sys))) [
        | inl e ↦
            Ends-fail (failed (budget_error Budget.budget_exceeded)) w (rw (e, cheaper) refl) over
        | inr (best, others, e) ↦
            let s = best.candidate in
            let m = In-score_candidates fl affordable (default_weights sys) best (rw e here) in
            let (k, fits) = In-keep (is_affordable sys request t remaining) candidates m in
            Ends-done (moves_to s) w (rw (e, cheaper) refl)
              (inr (over, (s, k, is_affordable-Replaces s fits, refl)))
      ]

module _ (sys : System) where
  open sys use {fl}
  open fl use {F, le}

  -- The candidates as the providers would answer.
  abbrev pub candidates_of : World sys → List (RoutingCandidate F)
  candidates_of w =
      build_candidates fl (sys.out.survey w.executor.world).0 sys.cfg.catalog w.executor.tracker

  -- With an enabled budget: where the estimate fits what remains of the budget, the plan keeps the
  -- target and its estimate. Where it does not, the plan has the provider, the model and the estimate
  -- of one of the candidates that is healthy, has another provider or model than the target and every
  -- required capability, and whose estimate fits what remains. It fails only where the estimate does not fit.
  pub attempt_budget_downgrade-Fits :
      (request : ChatCompletionRequest F) (c : RequestContext) (t : Target) (estimated : F)
      (w : World sys) {b : Budget F}
      → get_enabled w.budgets c.team_id ≡ some b
      → Ends
          (λ plan w'. Fits sys request t (remaining_amount fl b) (candidates_of w) estimated plan)
          (λ w'. le estimated (remaining_amount fl b) ≡ false)
          (attempt_budget_downgrade sys request c t estimated w)
  unfolding attempt_budget_downgrade discover
  attempt_budget_downgrade-Fits request c t estimated w {b} h =
      let remaining = remaining_amount fl b in
      elim (Bool-cases (le estimated remaining)) [
        | inl fits ↦
            Ends-done (keeps sys request t remaining estimated) w
              (rw (h, fits, attempt_budget_downgrade) refl) (inl (fits, refl))
        | inr over ↦
            Ends-as
              (bind-Ends (λ cs w'. cs ≡ candidates_of w)
                (λ plan w'. Fits sys request t remaining (candidates_of w) estimated plan)
                (λ w'. le estimated remaining ≡ false) (discover sys)
                (λ cs. cheaper sys request t (keep (is_affordable sys request t remaining) cs)) w
                (Ends-done _ _ refl refl)
                (λ cs w' e.
                  rw e (cheaper-Fits sys request t remaining (candidates_of w) estimated w' over)))
              (rw (h, over, attempt_budget_downgrade) refl)
      ]
