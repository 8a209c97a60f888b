-- ===== src/Errors/Tests.antt =====
-- The classification at concrete exceptions.
use cortex_gateway.Prelude.{◌≡◌, refl, true, []}
use cortex_gateway.Errors.{
  Error, is_transient_error, is_circuit_breaker_failure, isinstance, status_code,
  provider_rate_limit, provider_unavailable,
}

abbrev limited : Error
limited = record { class = provider_rate_limit; message = [] }

abbrev down : Error
down = record { class = provider_unavailable; message = [] }

retried : is_transient_error limited ≡ true
unfolding is_transient_error
retried = refl

counted : is_circuit_breaker_failure down ≡ true
unfolding is_circuit_breaker_failure isinstance status_code
counted = refl
