-- ===== src/Api/Laws.antt =====
-- The answers of the chat endpoint and the rows that it leaves in the log.
use cortex_gateway.Prelude.{
  ℕ, ◌≡◌, refl, sym, ap, ◌∙◌, ◌≢◌, inl, inr, Bool, true, false, ◌&&◌, Option, arith, if◌then◌else◌,
  Bool-cases, Option-cases, length, All, Text,
}
use cortex_gateway.Errors
use cortex_gateway.Errors.{ErrorClass, Error, tag, mro, status_code, isinstance}
use cortex_gateway.Auth.{RequestContext}
use cortex_gateway.ChatService.Base.{
  System, World, Failure, rate_limited, failed, Result, done, fail,
}
use cortex_gateway.ChatService.{complete}
use cortex_gateway.Chat.{ChatCompletionResponse}
use cortex_gateway.Guardrails.{Pattern, is_blocked, GuardrailRunResult, build_prompt}
use cortex_gateway.Policy.{or_default}
use cortex_gateway.Api.{
  code, handle, handle_failure, first_registered, registered, from_attributes, unhandled, LogRow,
  build_error_log, build_success_log,
}
use cortex_gateway.Api.ChatEndpoint.{
  Incoming, Reply, answered, refused, Served, failure_log, scheduled_rows, guardrail_run, written,
  blocked_by, primary_of, call_of, finish, chat_completions, get_resolved_policy, contents_of,
}
use cortex_gateway.Guardrails.Laws.{returns}
use cortex_gateway.Guardrails.Run.{stops, run-stops}

-- The HTTP status of an answer.
abbrev pub status_of : {F : Type 0} → Reply F → ℕ
status_of (answered response) = 200
status_of (refused e) = e.status

-- The base class of the control exceptions has a status of its own, and no handler: it is not an
-- exception that the program raises.
abbrev pub IsHandled : ErrorClass → Type 0
IsHandled c = tag c ≢ tag Errors.gateway_control

failed-status :
    (F : Type 0) (name : ErrorClass → Text) (id : Text) (c : RequestContext) (k : ErrorClass)
    (m : Text)
    → IsHandled k
    → (failure_log {F = F} name id c (failed (record { class = k; message = m }))).http_status_code
      ≡ (handle_failure (failed (record { class = k; message = m }))).status
unfolding failure_log handle_failure first_registered registered from_attributes unhandled mro tag
    isinstance status_code code or_default build_error_log
failed-status F name id c Errors.provider_exception m h = refl
failed-status F name id c Errors.invalid_provider m h = refl
failed-status F name id c Errors.provider_disabled m h = refl
failed-status F name id c Errors.invalid_model m h = refl
failed-status F name id c Errors.provider_timeout m h = refl
failed-status F name id c Errors.provider_rate_limit m h = refl
failed-status F name id c Errors.provider_unavailable m h = refl
failed-status F name id c Errors.provider_auth m h = refl
failed-status F name id c Errors.provider_error m h = refl
failed-status F name id c Errors.total_deadline_exceeded m h = refl
failed-status F name id c Errors.circuit_open m h = refl
failed-status F name id c Errors.failover_exhausted m h = refl
failed-status F name id c Errors.routing_exception m h = refl
failed-status F name id c Errors.no_routable_provider m h = refl
failed-status F name id c Errors.no_capable_provider m h = refl
failed-status F name id c Errors.invalid_routing_mode m h = refl
failed-status F name id c Errors.invalid_manual_routing m h = refl
failed-status F name id c Errors.gateway_control m h = absurd (h refl)
failed-status F name id c Errors.rate_limit_exceeded m h = refl
failed-status F name id c Errors.budget_exceeded m h = refl
failed-status F name id c Errors.budget_configuration m h = refl
failed-status F name id c Errors.httpx_timeout m h = refl
failed-status F name id c Errors.httpx_network m h = refl
failed-status F name id c Errors.httpx_connect m h = refl
failed-status F name id c Errors.os_error m h = refl
failed-status F name id c Errors.connection_error m h = refl
failed-status F name id c Errors.timeout_error m h = refl
failed-status F name id c Errors.value_error m h = refl
failed-status F name id c Errors.type_error m h = refl
failed-status F name id c Errors.other_exception m h = refl

failure-status :
    (F : Type 0) (name : ErrorClass → Text) (id : Text) (c : RequestContext) (e : Failure)
    → ((x : Error) → e ≡ failed x → IsHandled x.class)
    → (failure_log {F = F} name id c e).http_status_code ≡ (handle_failure e).status
unfolding failure_log handle_failure build_error_log
failure-status F name id c (rate_limited retry_after scope) h = refl
failure-status F name id c (failed x) h = failed-status F name id c x.class x.message (h x refl)

blocked-status : (g : GuardrailRunResult) → 400 ≡ (handle (blocked_by g)).status
unfolding handle blocked_by
blocked-status g = elim (Option-cases (primary_of g)) [
  | inl e ↦ rw (e, handle, blocked_by) refl
  | inr (r, e) ↦ rw (e, handle, blocked_by) refl
]

module _ (sys : System) (search : Pattern → Text → Option Bool) (name : ErrorClass → Text) where
  abbrev pub is_answered : Reply sys.fl.F → Bool
  is_answered (answered response) = true
  is_answered (refused e) = false

  -- One row is scheduled if the log is on, with the status of the answer, the request and the team;
  -- it is written if the request is answered.
  unfoldable pub Logs : Incoming sys.fl.F → Served sys search name → Type 0
  Logs i s =
      (length s.scheduled ≡ (if i.request_log_enabled then 1 else 0))
      × All
          (λ (row : LogRow sys.fl.F).
            (row.http_status_code ≡ status_of s.reply)
            × (row.request_id ≡ i.request_id)
            × (row.team_id ≡ i.context.team_id))
          s.scheduled
      × (length (written sys search name s)
          ≡ (if i.request_log_enabled && is_answered s.reply then 1 else 0))

  scheduled-Logs :
      (i : Incoming sys.fl.F) (row : LogRow sys.fl.F) (reply : Reply sys.fl.F) (w : World sys)
      → (row.http_status_code ≡ status_of reply)
        × (row.request_id ≡ i.request_id)
        × (row.team_id ≡ i.context.team_id)
      → Logs i
          (record { reply = reply; scheduled = scheduled_rows sys search name i row; world = w })
  unfolding Logs scheduled_rows written
  scheduled-Logs i row (answered response) w h = elim (Bool-cases i.request_log_enabled) [
    | inl e ↦ rw e (refl, (h, tt), refl)
    | inr e ↦ rw e (refl, tt, refl)
  ]
  scheduled-Logs i row (refused e) w h = elim (Bool-cases i.request_log_enabled) [
    | inl e ↦ rw e (refl, (h, tt), refl)
    | inr e ↦ rw e (refl, tt, refl)
  ]

  finish-Logs :
      (i : Incoming sys.fl.F) (r : Result (ChatCompletionResponse sys.fl.F) × World sys)
      → ((e : Error) → r.0 ≡ fail (failed e) → IsHandled e.class)
      → Logs i (finish sys search name i (guardrail_run sys search name i) r)
  unfolding finish build_success_log handle failure_log build_error_log
  finish-Logs i (done response, w) h = scheduled-Logs i _ _ w (refl, refl, refl)
  finish-Logs i (fail e, w) h =
      let same = failure-status sys.fl.F name i.request_id i.context e (λ x q. h x (ap fail q)) in
      scheduled-Logs i _ _ w (same, (failure-row e).0, (failure-row e).1)
    where
      failure-row :
          (f : Failure)
          → ((failure_log {F = sys.fl.F} name i.request_id i.context f).request_id ≡ i.request_id)
            × ((failure_log {F = sys.fl.F} name i.request_id i.context f).team_id
                ≡ i.context.team_id)
      failure-row (rate_limited retry_after scope) = (refl, refl)
      failure-row (failed x) = ground arith

  pub finish-world :
      (i : Incoming sys.fl.F) (r : Result (ChatCompletionResponse sys.fl.F) × World sys)
      → (finish sys search name i (guardrail_run sys search name i) r).world ≡ r.1
  unfolding finish
  finish-world i (done response, w) = refl
  finish-world i (fail e, w) = refl

  -- With the log on, a request schedules exactly one row, which names it and its team and has the
  -- status of the answer; with the log off none. The row is written only if the request is
  -- answered: the row of a request that fails or is blocked is never written. The pipeline does not
  -- raise the bare base class of the control exceptions.
  pub chat_completions-Logs :
      (i : Incoming sys.fl.F) (w : World sys)
      → ((e : Error)
          → (complete sys (call_of sys search name i) w).0 ≡ fail (failed e)
          → IsHandled e.class)
      → Logs i (chat_completions sys search name i w)
  unfolding chat_completions
  chat_completions-Logs i w h = elim (Bool-cases (is_blocked (guardrail_run sys search name i))) [
    | inl e ↦
        rw (e, chat_completions)
          (scheduled-Logs i _ _ w (blocked-status (guardrail_run sys search name i), refl, refl))
    | inr e ↦
        rw (e, chat_completions) (finish-Logs i (complete sys (call_of sys search name i) w) h)
  ]

-- With searches that do not raise, a prompt that a guardrail stops is answered by status 400 and
-- changes no state; any other prompt goes through the pipeline, which leaves the state and answers.
pub chat_completions-stops :
    (sys : System) (found : Pattern → Text → Bool) (name : ErrorClass → Text)
    (i : Incoming sys.fl.F) (w : World sys)
    → let s = chat_completions sys (returns found) name i w in
      let policy = (get_resolved_policy i.policies i.context).guardrails in
      let stopped =
        stops found policy (build_prompt (contents_of sys (returns found) name i.request)) in
      let outcome = complete sys (call_of sys (returns found) name i) w in
      let g = guardrail_run sys (returns found) name i in
      (s.world ≡ (if stopped then w else outcome.1))
      × (status_of s.reply ≡ (
          if stopped then 400 else status_of (finish sys (returns found) name i g outcome).reply))
unfolding chat_completions guardrail_run
chat_completions-stops sys found name i w =
    let policy = (get_resolved_policy i.policies i.context).guardrails in
    let contents = contents_of sys (returns found) name i.request in
    let same = run-stops found contents policy in
    elim (Bool-cases (stops found policy (build_prompt contents))) [
      | inl e ↦
          rw (e, same ∙ e, chat_completions)
            (refl, sym (blocked-status (guardrail_run sys (returns found) name i)))
      | inr e ↦ rw (e, same ∙ e, chat_completions) (finish-world sys (returns found) name i _, refl)
    ]
