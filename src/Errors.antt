-- ===== src/Errors.antt =====
-- The exceptions of the gateway and how the reliability layer classifies them:
-- backend/app/providers/exceptions.py, backend/app/routing/exceptions.py,
-- backend/app/budget/exceptions.py and backend/app/reliability/errors.py.
-- An exception is its class and its message; a class carries its `code` and `status_code`.
pub mod Laws
pub mod Tests
use cortex_gateway.Prelude.{
  ℕ, ◌+◌, Bool, true, false, Option, none, some, List, [], ◌∷◌, ◌++◌, ◌==◌, if◌then◌else◌, any, All,
  Text, codes,
}

-- The classes of the repository; of `httpx`, of Python and any other come after them.
pub data ErrorClass : Type 0 where
  provider_exception invalid_provider provider_disabled invalid_model provider_timeout : ErrorClass
  provider_rate_limit provider_unavailable provider_auth provider_error : ErrorClass
  total_deadline_exceeded circuit_open failover_exhausted : ErrorClass
  routing_exception no_routable_provider no_capable_provider : ErrorClass
  invalid_routing_mode invalid_manual_routing : ErrorClass
  gateway_control rate_limit_exceeded budget_exceeded budget_configuration : ErrorClass
  httpx_timeout httpx_network httpx_connect : ErrorClass
  os_error connection_error timeout_error value_error type_error other_exception : ErrorClass

pub record Error : Type 0 where
  pub class : ErrorClass
  pub message : Text

-- A number for each class, by which classes are compared.
unfoldable pub tag : ErrorClass → ℕ
tag provider_exception = 0
tag invalid_provider = 1
tag provider_disabled = 2
tag invalid_model = 3
tag provider_timeout = 4
tag provider_rate_limit = 5
tag provider_unavailable = 6
tag provider_auth = 7
tag provider_error = 8
tag total_deadline_exceeded = 9
tag circuit_open = 10
tag failover_exhausted = 11
tag routing_exception = 12
tag no_routable_provider = 13
tag no_capable_provider = 14
tag invalid_routing_mode = 15
tag invalid_manual_routing = 16
tag gateway_control = 17
tag rate_limit_exceeded = 18
tag budget_exceeded = 19
tag budget_configuration = 20
tag httpx_timeout = 21
tag httpx_network = 22
tag httpx_connect = 23
tag os_error = 24
tag connection_error = 25
tag timeout_error = 26
tag value_error = 27
tag type_error = 28
tag other_exception = 29

-- The class and its base classes up to `Exception`, which none of the tests names.
unfoldable pub mro : ErrorClass → List ErrorClass
mro invalid_provider = invalid_provider ∷ provider_exception ∷ []
mro provider_disabled = provider_disabled ∷ provider_exception ∷ []
mro invalid_model = invalid_model ∷ provider_exception ∷ []
mro provider_timeout = provider_timeout ∷ provider_exception ∷ []
mro provider_rate_limit = provider_rate_limit ∷ provider_exception ∷ []
mro provider_unavailable = provider_unavailable ∷ provider_exception ∷ []
mro provider_auth = provider_auth ∷ provider_exception ∷ []
mro provider_error = provider_error ∷ provider_exception ∷ []
mro total_deadline_exceeded = total_deadline_exceeded ∷ provider_timeout ∷ provider_exception ∷ []
mro circuit_open = circuit_open ∷ provider_unavailable ∷ provider_exception ∷ []
mro failover_exhausted = failover_exhausted ∷ provider_unavailable ∷ provider_exception ∷ []
mro routing_exception = routing_exception ∷ provider_exception ∷ []
mro no_routable_provider = no_routable_provider ∷ routing_exception ∷ provider_exception ∷ []
mro no_capable_provider = no_capable_provider ∷ routing_exception ∷ provider_exception ∷ []
mro invalid_routing_mode = invalid_routing_mode ∷ routing_exception ∷ provider_exception ∷ []
mro invalid_manual_routing = invalid_manual_routing ∷ routing_exception ∷ provider_exception ∷ []
mro rate_limit_exceeded = rate_limit_exceeded ∷ gateway_control ∷ []
mro budget_exceeded = budget_exceeded ∷ gateway_control ∷ []
mro budget_configuration = budget_configuration ∷ gateway_control ∷ []
mro httpx_connect = httpx_connect ∷ httpx_network ∷ []
mro connection_error = connection_error ∷ os_error ∷ []
mro timeout_error = timeout_error ∷ os_error ∷ []
mro c = c ∷ []

-- The class attribute `status_code`; none for a class that has no such attribute.
unfoldable pub status_code : ErrorClass → Option ℕ
status_code provider_exception = some 502
status_code invalid_provider = some 404
status_code provider_disabled = some 503
status_code invalid_model = some 400
status_code provider_timeout = some 504
status_code provider_rate_limit = some 429
status_code provider_unavailable = some 503
status_code provider_auth = some 502
status_code provider_error = some 502
status_code total_deadline_exceeded = some 504
status_code circuit_open = some 503
status_code failover_exhausted = some 503
status_code routing_exception = some 400
status_code no_routable_provider = some 503
status_code no_capable_provider = some 400
status_code invalid_routing_mode = some 400
status_code invalid_manual_routing = some 400
status_code gateway_control = some 400
status_code rate_limit_exceeded = some 429
status_code budget_exceeded = some 402
status_code budget_configuration = some 500
status_code _ = none

-- `isinstance(exc, classes)`.
unfoldable pub isinstance : Error → List ErrorClass → Bool
unfolding mro tag
isinstance e classes = any (λ c. any (λ d. tag c == tag d) classes) (mro e.class)

-- `exc.status_code in codes`, where the class has the attribute.
status_in : Option ℕ → List ℕ → Bool
status_in none allowed = false
status_in (some n) allowed = any (λ m. n == m) allowed

unfoldable pub is_transient_error : Error → Bool
unfolding isinstance status_code status_in
is_transient_error e =
    if isinstance e (invalid_model ∷ invalid_provider ∷ provider_disabled ∷ provider_auth ∷ [])
    then false
    else if isinstance e (value_error ∷ type_error ∷ [])
    then false
    else if isinstance e (provider_timeout ∷ provider_unavailable ∷ provider_rate_limit ∷ [])
    then true
    else if isinstance e
        (httpx_timeout ∷ httpx_connect ∷ httpx_network ∷ connection_error ∷ timeout_error ∷ [])
    then true
    else if isinstance e (provider_exception ∷ [])
    then status_in (status_code e.class) (429 ∷ 500 ∷ 502 ∷ 503 ∷ 504 ∷ [])
    else false

unfoldable pub is_circuit_breaker_failure : Error → Bool
unfolding isinstance status_code status_in
is_circuit_breaker_failure e =
    if isinstance e (invalid_model ∷ invalid_provider ∷ provider_disabled ∷ provider_auth ∷ [])
    then false
    else if isinstance e (value_error ∷ type_error ∷ [])
    then false
    else if isinstance e (provider_timeout ∷ provider_unavailable ∷ [])
    then true
    else if isinstance e
        (httpx_timeout ∷ httpx_connect ∷ httpx_network ∷ connection_error ∷ timeout_error ∷ [])
    then true
    else if isinstance e (provider_exception ∷ [])
    then status_in (status_code e.class) (500 ∷ 502 ∷ 503 ∷ 504 ∷ [])
    else false

-- `CircuitOpenError(provider)`.
unfoldable pub circuit_open_error : Text → Error
circuit_open_error provider = record {
  class = circuit_open;
  message =
      codes "Provider '"
      ++ (provider ++ codes "' circuit breaker is OPEN. Requests are temporarily blocked.");
}

-- `TotalDeadlineExceededError()`.
unfoldable pub total_deadline_exceeded_error : Error
total_deadline_exceeded_error = record {
  class = total_deadline_exceeded;
  message = codes "Total request deadline exceeded across provider attempts.";
}

-- `FailoverExhaustedError()`.
unfoldable pub failover_exhausted_error : Error
failover_exhausted_error = record {
  class = failover_exhausted;
  message = codes "All failover candidates failed or were unavailable.";
}
