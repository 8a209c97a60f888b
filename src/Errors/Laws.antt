-- ===== src/Errors/Laws.antt =====
-- What the classification of backend/app/reliability/errors.py comes to, over every class.
use cortex_gateway.Prelude.{ℕ, ◌≡◌, refl, true, not, ◌&&◌, ◌||◌, some, [], ◌∷◌, arith, leb, Text}
use cortex_gateway.Errors.{
  ErrorClass, Error, status_code, isinstance, is_transient_error, is_circuit_breaker_failure,
  provider_rate_limit, provider_exception, provider_disabled, provider_auth,
}

transient_class :
    (c : ErrorClass) (m : Text)
    → is_transient_error (record { class = c; message = m }) ≡ (
        is_circuit_breaker_failure (record { class = c; message = m })
        || isinstance (record { class = c; message = m }) (provider_rate_limit ∷ []))
unfolding is_transient_error is_circuit_breaker_failure
transient_class ErrorClass.provider_exception m = refl
transient_class _ m = refl

-- An exception is retried exactly when it counts toward the circuit breaker or is a rate limit of
-- the provider.
pub is_transient_error-eq-or :
    (e : Error)
    → is_transient_error e
      ≡ (is_circuit_breaker_failure e || isinstance e (provider_rate_limit ∷ []))
is_transient_error-eq-or e = transient_class e.class e.message

status_class :
    (c : ErrorClass) (m : Text) (s : ℕ)
    → isinstance (record { class = c; message = m }) (provider_exception ∷ []) ≡ true
    → status_code c ≡ some s
    → is_circuit_breaker_failure (record { class = c; message = m }) ≡ (
        leb 500 s
        && not (
            isinstance
              (record { class = c; message = m })
              (provider_disabled ∷ provider_auth ∷ [])))
unfolding is_circuit_breaker_failure
status_class ErrorClass.provider_exception m s p h = ground arith
status_class _ m s p h = ground arith

-- A provider exception counts toward the circuit breaker exactly when its HTTP status is 500 or
-- more and it is neither a disabled provider nor a failed authentication.
pub breaker_failure-status :
    (e : Error) (s : ℕ)
    → isinstance e (provider_exception ∷ []) ≡ true
    → status_code e.class ≡ some s
    → is_circuit_breaker_failure e
      ≡ (leb 500 s && not (isinstance e (provider_disabled ∷ provider_auth ∷ [])))
breaker_failure-status e s p h = status_class e.class e.message s p h
