-- ===== src/Api/Tests.antt =====
-- A prompt of four characters under a limit of three, and one under no limit.
use cortex_gateway.RateLimit.{check_all}
use cortex_gateway.ChatService.Admission.{limits_of}
use cortex_gateway.Prelude.{
  ℕ, ◌≡◌, refl, Bool, true, false, none, some, [], ◌∷◌, arith, if◌then◌else◌, lookup, insert, Text,
  codes, show_nat,
}
use cortex_gateway.Errors.{ErrorClass, Error}
use cortex_gateway.ChatService.Base.{fail, failed}
use cortex_gateway.ChatService.{complete}
use cortex_gateway.ChatService.Tests.{sys, settings, start}
use cortex_gateway.SemanticCache.Tests.{request, context}
use cortex_gateway.Guardrails.{Pattern, build_prompt}
use cortex_gateway.Guardrails.Laws.{returns}
use cortex_gateway.Guardrails.Run.{stops}
use cortex_gateway.Policy.{RawPolicy}
use cortex_gateway.Api.ChatEndpoint.{
  Incoming, chat_completions, call_of, services_of, get_resolved_policy, guardrail_run, finish,
}
use cortex_gateway.Api.Laws.{
  Logs, status_of, IsHandled, chat_completions-Logs, chat_completions-stops,
}
use cortex_gateway.Budget.Tests.{noon}
use cortex_gateway.Chat.{user}
use cortex_gateway.ChatService.Laws.{outcome_of, complete-refused}

-- The detectors find nothing.
abbrev nothing_found : Pattern → Text → Bool
nothing_found p t = false

abbrev no_name : ErrorClass → Text
no_name c = codes "Exception"

abbrev incoming : Incoming ℕ
incoming = record {
  request = request;
  request_id = codes "r";
  context = context;
  settings = settings;
  request_log_enabled = true;
  redis = true;
  policies = none;
  times = record {
    key_ms = 125000;
    team_ms = 125000;
    org_ms = 125000;
    budget_now = noon 1 31;
    budget_later = noon 1 31;
    budget_reserved = noon 1 31;
    budget_settled = noon 1 31;
  };
  uuid = codes "u";
}

-- The team has no requests left, so the pipeline ends at its rate limit.
limited :
    (e : Error)
    → (complete sys (call_of sys (returns nothing_found) no_name incoming) start).0
      ≡ fail (failed e)
    → IsHandled e.class
unfolding call_of services_of check_all lookup insert limits_of show_nat
limited e q = absurd (
    ground (
      arith,
      rw
          (complete-refused sys (call_of sys (returns nothing_found) no_name incoming) context start
            refl refl refl over')
          at q,
    ))
  where
    over' :
        (outcome_of sys
          (call_of sys (returns nothing_found) no_name incoming)
          context
          start).0.allowed
        ≡ false
    over' = refl

chat_completions-Logs_example :
    Logs sys
      (returns nothing_found)
      no_name
      incoming
      (chat_completions sys (returns nothing_found) no_name incoming start)
chat_completions-Logs_example =
    chat_completions-Logs sys (returns nothing_found) no_name incoming start limited

-- The policy of the team limits a prompt to three characters.
abbrev strict : RawPolicy
strict = record {
  routing = none;
  fallback = none;
  budget = none;
  cache = none;
  experiment = none;
  guardrails =
      some
        (record { max_prompt_length = some 3; pii_detection = none; injection_detection = none });
  extra = [];
}

abbrev long : Incoming ℕ
long = record incoming {
  request = record request { messages = record { role = user; content = codes "four" } ∷ [] };
  policies = some ((context.team_id, record { policy = strict; enabled = true }) ∷ []);
}

chat_completions-stops_example :
    let s = chat_completions sys (returns nothing_found) no_name long start in
    let policy = (get_resolved_policy long.policies long.context).guardrails in
    let stopped = stops nothing_found policy (codes "four") in
    let outcome = complete sys (call_of sys (returns nothing_found) no_name long) start in
    let g = guardrail_run sys (returns nothing_found) no_name long in
    (s.world ≡ (if stopped then start else outcome.1))
    × (status_of s.reply ≡ (
        if stopped
        then 400
        else status_of (finish sys (returns nothing_found) no_name long g outcome).reply))
unfolding build_prompt
chat_completions-stops_example = chat_completions-stops sys nothing_found no_name long start
