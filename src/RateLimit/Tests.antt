-- ===== src/RateLimit/Tests.antt =====
-- A limiter over a store that forgets nothing.
use cortex_gateway.Prelude.{
  ℕ, ◌+◌, ◌-◌, ◌≤◌, ◌≡◌, refl, true, some, [], arith, ltb, if◌then◌else◌, Dict, lookup, insert,
  lookup-insert_self, codes,
}
use cortex_gateway.Floats.Scaled.{scaled}
use cortex_gateway.RateLimit.{
  Counters, count_of, Scope, team, RateLimitResult, window_start, check_scope,
}
use cortex_gateway.RateLimit.Window.{Run, begins, checks, Run-limit}

abbrev pub counters : Counters
counters = record {
  Store = Dict ℕ;
  answers = λ s. true;
  incr = λ k s. (count_of (lookup k s) + 1, insert k (count_of (lookup k s) + 1) s);
  expire = λ k n s. s;
  get = lookup;
  ttl = λ k s. some 60;
  incr_count = λ k s. refl;
  get-incr = λ k s. lookup-insert_self k _ s;
  get-expire = λ k j n s p. refl;
}

starts : window_start 60 125000 ≡ 120
unfolding window_start
starts = refl

-- One check of a team with a limit of 2 requests for 60 seconds, at 125 seconds.
one_check :
    Run scaled counters team
      (codes "t")
      2
      60
      120
      []
      (if (check_scope scaled counters true team (codes "t") 2 60 125000 []).0.allowed
        then 0 + 1
        else 0)
      (check_scope scaled counters true team (codes "t") 2 60 125000 []).1
one_check = checks 125000 begins starts refl

Run-limit_example :
    (if (check_scope scaled counters true team (codes "t") 2 60 125000 []).0.allowed
      then 0 + 1
      else 0)
    ≤ 2
Run-limit_example = Run-limit scaled counters one_check (omega arith) (omega arith)

abbrev result : Scope → ℕ → ℕ → RateLimitResult
result scope left wait = record {
  allowed = ltb 0 left;
  scope = scope;
  limit = 10;
  current_count = 10 - left;
  remaining = left;
  retry_after_seconds = wait;
}
