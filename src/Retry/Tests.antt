-- ===== src/Retry/Tests.antt =====
-- A delay of a policy with a base of 0.05 and a maximum of 0.3 seconds, rounded.
use cortex_gateway.Prelude.{◌≡◌, refl, true}
use cortex_gateway.Retry.{RetryPolicy, compute_delay}

abbrev policy : RetryPolicy
policy = record { max_retries = 2; base_delay = 500000; max_delay = 3000000; jitter = true }

delay_of_first : compute_delay policy 0 40400 ≡ 540000
unfolding compute_delay
delay_of_first = refl
