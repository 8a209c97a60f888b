-- ===== src/Adapters/Laws.antt =====
-- Which HTTP statuses of a provider are tried again, and which count for its circuit.
use cortex_gateway.Prelude.{
  ℕ, ◌≡◌, refl, inl, inr, Bool, false, not, ◌&&◌, ◌||◌, leb, ◌==◌, ==_iff, Bool-cases, Text,
}
use cortex_gateway.Chat.{ChatCompletionRequest}
use cortex_gateway.Errors.{Error, is_transient_error, is_circuit_breaker_failure}
use cortex_gateway.Executor.{fails}
use cortex_gateway.Floats.{Floats}
use cortex_gateway.Adapters.{Vendor, status_error, raise_from_status, chat}
use cortex_gateway.Adapters.Ollama
use cortex_gateway.Adapters.Ollama.{Response, responded, handle_http_error, names_model, error_text}

-- What the reliability layer makes of an error.
abbrev pub Treated : Error → Bool → Bool → Type 0
Treated e retried counted =
    (is_transient_error e ≡ retried) × (is_circuit_breaker_failure e ≡ counted)

abbrev pub final_statuses : ℕ → Bool
final_statuses s = s == 401 || (s == 403 || s == 404)

raise_from_status-Treated :
    (v : Vendor) (s : ℕ) (message : Text)
    → Treated
        (raise_from_status v s message)
        (not (final_statuses s))
        (not (final_statuses s || s == 429))
unfolding raise_from_status is_transient_error is_circuit_breaker_failure
raise_from_status-Treated v s message = elim (Bool-cases (s == 401)) [
  | inl e ↦ rw (e, raise_from_status) (refl, refl)
  | inr a ↦ elim (Bool-cases (s == 403)) [
    | inl e ↦ rw (a, e, raise_from_status) (refl, refl)
    | inr b ↦ elim (Bool-cases (s == 429)) [
      | inl e ↦ rw ((==_iff s 429).0 e) (refl, refl)
      | inr c ↦ elim (Bool-cases (s == 404)) [
        | inl e ↦ rw (a, b, c, e, raise_from_status) (refl, refl)
        | inr d ↦ elim (Bool-cases (leb 500 s)) [
          | inl e ↦ rw (a, b, c, d, e, raise_from_status) (refl, refl)
          | inr e ↦ rw (a, b, c, d, e, raise_from_status) (refl, refl)
        ]
      ]
    ]
  ]
]

handle_http_error-Treated :
    (r : Response) (model : Text)
    → Treated
        (handle_http_error r model)
        (not (r.status_code == 404 && names_model (error_text r)))
        (not (r.status_code == 404 && names_model (error_text r)))
unfolding handle_http_error is_transient_error is_circuit_breaker_failure
handle_http_error-Treated r model = elim (Bool-cases (r.status_code == 404)) [
  | inl e ↦ elim (Bool-cases (names_model (error_text r))) [
    | inl n ↦ rw (e, n, handle_http_error) (refl, refl)
    | inr n ↦ rw (e, n, handle_http_error) (refl, refl)
  ]
  | inr e ↦ elim (Bool-cases (leb 500 r.status_code)) [
    | inl n ↦ rw (e, n, handle_http_error) (refl, refl)
    | inr n ↦ rw (e, n, handle_http_error) (refl, refl)
  ]
]

-- Of the HTTP statuses that OpenAI and Groq answer, all but 401, 403 and 404 are tried again, also
-- those of a bad request, and all but these and 429 count for the circuit breaker. Ollama's are
-- tried again and count alike, unless it answers 404 with a message about a model or about
-- something that was not found.
pub chat-status :
    (fl : Floats) (v : Vendor) (request : ChatCompletionRequest fl.F) (id message : Text)
    (elapsed : fl.F) (s : ℕ) (r : Response)
    → (r.status_code == 200) ≡ false
    → ((e : Error) × (chat fl v (λ p. status_error s message) request id elapsed ≡ fails e)
        × Treated e (not (final_statuses s)) (not (final_statuses s || s == 429)))
      × ((e : Error) × (Ollama.chat fl (λ p. responded r) request id elapsed ≡ fails e)
          × Treated e
              (not (r.status_code == 404 && names_model (error_text r)))
              (not (r.status_code == 404 && names_model (error_text r))))
unfolding chat Ollama.chat
chat-status fl v request id message elapsed s r bad = (
  (raise_from_status v s message, refl, raise_from_status-Treated v s message),
  (handle_http_error r request.model, rw bad refl, handle_http_error-Treated r request.model),
)
