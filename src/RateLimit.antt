-- ===== src/RateLimit.antt =====
-- The rate limiter: `RateLimiter` of backend/app/rate_limit/limiter.py with its Lua script, the
-- results of backend/app/rate_limit/models.py and `TeamRateLimitService` of
-- backend/app/rate_limit/team_limits.py. Redis is the record `Counters`: the commands of the script
-- with what its documentation says of them. The clock is a number of milliseconds, so the elapsed
-- time is exact; Lua's numbers are floats.
pub mod Window
pub mod Binding
pub mod Tests
use cortex_gateway.Prelude.{
  remove, ℕ, ◌+◌, ◌-◌, ◌*◌, ◌/◌, ◌<◌, ◌≡◌, Bool, true, false, not, ◌&&◌, Option, none, some, List,
  [], ◌∷◌, ◌++◌, ltb, leb, ◌==◌, if◌then◌else◌, keep, Dict, lookup, insert, Text, codes, show_nat,
}
use cortex_gateway.Floats.{Floats, f1}

-- The count of a key that may be missing.
abbrev pub count_of : Option ℕ → ℕ
count_of none = 0
count_of (some n) = n

-- The commands INCR, EXPIRE, GET and TTL on counters. `answers` is false where a script raises;
-- TTL is none where Redis answers with a negative number.
pub record Counters : Type 1 where
  pub Store : Type 0
  pub answers : Store → Bool
  pub incr : Text → Store → ℕ × Store
  pub expire : Text → ℕ → Store → Store
  pub get : Text → Store → Option ℕ
  pub ttl : Text → Store → Option ℕ
  pub incr_count : (k : Text) (s : Store) → (incr k s).0 ≡ count_of (get k s) + 1
  pub get-incr : (k : Text) (s : Store) → get k (incr k s).1 ≡ some (incr k s).0
  pub get-expire : (k j : Text) (n : ℕ) (s : Store) → 0 < n → get j (expire k n s) ≡ get j s

pub data Scope : Type 0 where
  key team org : Scope

pub record RateLimitResult : Type 0 where
  pub allowed : Bool
  pub scope : Scope
  pub limit : ℕ
  pub current_count : ℕ
  pub remaining : ℕ
  pub retry_after_seconds : ℕ

pub record RateLimitOutcome : Type 0 where
  pub allowed : Bool
  pub binding_result : RateLimitResult
  pub key_result : RateLimitResult
  pub team_result : RateLimitResult
  pub org_result : RateLimitResult

unfoldable pub scope_text : Scope → Text
scope_text key = codes "key"
scope_text team = codes "team"
scope_text org = codes "org"

-- The start of the window of a time in milliseconds, in seconds.
unfoldable pub window_start : ℕ → ℕ → ℕ
window_start window_seconds now_ms = now_ms / 1000 / window_seconds * window_seconds

-- `f"ratelimit:{scope}:{identifier}:{start}"`.
unfoldable pub window_key : Scope → Text → ℕ → Text
unfolding scope_text
window_key scope identifier start =
    codes "ratelimit:"
    ++ (scope_text scope ++ (codes ":" ++ (identifier ++ (codes ":" ++ show_nat start))))

-- The result where Redis is missing or raises.
unfoldable pub fail_open : Scope → ℕ → RateLimitResult
fail_open scope limit = record {
  allowed = true;
  scope = scope;
  limit = limit;
  current_count = 0;
  remaining = limit;
  retry_after_seconds = 0;
}

-- The limits of a request: an identifier, a limit and a window for each scope.
pub record Limits : Type 0 where
  pub identifier : Scope → Text
  pub limit : Scope → ℕ
  pub window : Scope → ℕ

-- `max(a, b, c, key=…)` and `min(…)` keep the first of equals.
unfoldable pub pick_max : RateLimitResult → List RateLimitResult → RateLimitResult
pick_max r [] = r
pick_max r (x ∷ xs) = pick_max (if ltb r.retry_after_seconds x.retry_after_seconds then x else r) xs

unfoldable pub pick_min : RateLimitResult → List RateLimitResult → RateLimitResult
pick_min r [] = r
pick_min r (x ∷ xs) = pick_min (if ltb x.remaining r.remaining then x else r) xs

-- The outcome of the three results.
unfoldable pub combine : RateLimitResult → RateLimitResult → RateLimitResult → RateLimitOutcome
unfolding pick_max pick_min
combine k t o = elim (keep (λ r. not r.allowed) (k ∷ t ∷ o ∷ [])) [
  | b ∷ bs ↦ record {
    allowed = false;
    binding_result = pick_max b bs;
    key_result = k;
    team_result = t;
    org_result = o;
  }
  | [] ↦ record {
    allowed = true;
    binding_result = pick_min k (t ∷ o ∷ []);
    key_result = k;
    team_result = t;
    org_result = o;
  }
]

module _ (fl : Floats) (redis : Counters) where
  open fl use {F, lit, add, sub, mul, div, ceil}
  open redis use {Store, answers, incr, expire, get, ttl}

  -- `effective` of the script, rounded up.
  unfoldable pub effective_count : ℕ → ℕ → ℕ → ℕ → ℕ
  effective_count prev_count curr_count window elapsed_ms =
      let fraction = div (lit elapsed_ms 1000) (lit window 1) in
      ceil (add (mul (lit prev_count 1) (sub (f1 fl) fraction)) (lit curr_count 1))

  -- The Lua script: the effective count, the time to live and the store it leaves.
  unfoldable pub script : Text → Text → ℕ → ℕ → Store → ℕ × ℕ × Store
  unfolding effective_count
  script curr_key prev_key window elapsed_ms s =
      let (curr_count, counted) = incr curr_key s in
      let s' = if curr_count == 1 then expire curr_key (window * 2) counted else counted in
      let prev_count = count_of (get prev_key s') in
      let left = ttl curr_key s' in
      (
        effective_count prev_count curr_count window elapsed_ms,
        elim left [ none ↦ window | some t ↦ t ],
        s',
      )

  -- What becomes of the script's answer.
  unfoldable pub verdict : Scope → ℕ → ℕ → ℕ → ℕ → RateLimitResult
  verdict scope limit window_seconds count ttl' =
      let allowed = leb count limit in
      record {
        allowed = allowed;
        scope = scope;
        limit = limit;
        current_count = count;
        remaining = limit - count;
        retry_after_seconds = if allowed then 0 else if ltb 0 ttl' then ttl' else window_seconds;
      }

  -- `_check_scope`; `connected` is false where there is no Redis client.
  unfoldable pub check_scope : Bool → Scope → Text → ℕ → ℕ → ℕ → Store → RateLimitResult × Store
  unfolding fail_open window_start window_key script verdict
  check_scope connected scope identifier limit window_seconds now_ms s =
      let start = window_start window_seconds now_ms in
      let (count, ttl', s') =
        script (window_key scope identifier start)
          (window_key scope identifier (start - window_seconds)) window_seconds
          (now_ms - start * 1000) s in
      if connected && answers s
      then (verdict scope limit window_seconds count ttl', s')
      else (fail_open scope limit, s)

  -- `check_all`; each scope reads the clock.
  unfoldable pub check_all : Bool → Limits → ℕ → ℕ → ℕ → Store → RateLimitOutcome × Store
  unfolding check_scope combine
  check_all connected l now now' now'' s =
      let (k, s1) =
        check_scope connected key (l.identifier key) (l.limit key) (l.window key) now s in
      let (t, s2) =
        check_scope connected team (l.identifier team) (l.limit team) (l.window team) now' s1 in
      let (o, s3) =
        check_scope connected org (l.identifier org) (l.limit org) (l.window org) now'' s2 in
      (combine k t o, s3)

-- The overrides of a team; the table holds one row for a team at most.
pub record TeamRateLimit : Type 0 where
  pub requests_per_minute : Option ℕ
  pub requests_per_hour : Option ℕ

unfoldable pub get_limit : Dict TeamRateLimit → Text → Option TeamRateLimit
get_limit db team_id = lookup team_id db

unfoldable pub set_limit :
    Dict TeamRateLimit → Text → Option ℕ → Option ℕ → Dict TeamRateLimit × TeamRateLimit
set_limit db team_id per_minute per_hour =
    let row : TeamRateLimit = record {
      requests_per_minute = per_minute;
      requests_per_hour = per_hour;
    } in
    (insert team_id row db, row)

unfoldable pub delete_limit : Dict TeamRateLimit → Text → Dict TeamRateLimit × Bool
delete_limit db team_id = elim (lookup team_id db) [
  | none ↦ (db, false)
  | some row ↦ (remove team_id db, true)
]
