-- ===== src/Routing/Stats.antt =====
-- `ModelStats` and `ProviderStatsTracker` of backend/app/routing/stats.py. A method returns the new
-- statistics; each runs under the tracker's lock, so it is one step.
use cortex_gateway.Prelude.{
  ℕ, suc, ◌+◌, Bool, true, false, ◌&&◌, Option, none, some, List, [], ◌∷◌, ◌++◌, leb, if◌then◌else◌,
  length, is_empty, Text, strip, normalize, text_eq,
}
use cortex_gateway.Floats.{Floats, f1}

-- `deque(maxlen=50)`.
abbrev pub maxlen : ℕ
maxlen = 50

module _ {ℓ} {A : Type ℓ} where
  unfoldable pub drop_first : List A → List A
  drop_first [] = []
  drop_first (x ∷ xs) = xs

  -- `append` on a full deque drops the oldest.
  unfoldable pub push : List A → A → List A
  unfolding drop_first
  push xs x = if leb maxlen (length xs) then drop_first xs ++ x ∷ [] else xs ++ x ∷ []

pub record ModelStats (F : Type 0) : Type 0 where
  pub provider : Text
  pub model : Text
  pub total_requests : ℕ
  pub successful_requests : ℕ
  pub failed_requests : ℕ
  pub last_latency_ms : Option F
  pub average_latency_ms : Option F
  pub recent_outcomes : List Bool
  pub recent_latencies : List F

unfoldable pub new_stats : {F : Type 0} → Text → Text → ModelStats F
new_stats provider model = record {
  provider = provider;
  model = model;
  total_requests = 0;
  successful_requests = 0;
  failed_requests = 0;
  last_latency_ms = none;
  average_latency_ms = none;
  recent_outcomes = [];
  recent_latencies = [];
}

-- `sum(1 for o in outcomes if o)`.
unfoldable pub count_true : List Bool → ℕ
count_true [] = 0
count_true (true ∷ bs) = suc (count_true bs)
count_true (false ∷ bs) = count_true bs

module _ (fl : Floats) where
  open fl use {F, lit, add, mul, div, sum}

  unfoldable pub success_rate : ModelStats F → F
  unfolding count_true
  success_rate s =
      if is_empty s.recent_outcomes
      then f1 fl
      else div (lit (count_true s.recent_outcomes) 1) (lit (length s.recent_outcomes) 1)

  unfoldable pub latency_ms : ModelStats F → Option F
  latency_ms s =
      if is_empty s.recent_latencies
      then s.last_latency_ms
      else some (div (sum s.recent_latencies) (lit (length s.recent_latencies) 1))

  unfoldable pub record_success : ModelStats F → F → ModelStats F
  unfolding push
  record_success s latency = record s {
    total_requests = s.total_requests + 1;
    successful_requests = s.successful_requests + 1;
    last_latency_ms = some latency;
    recent_outcomes = push s.recent_outcomes true;
    recent_latencies = push s.recent_latencies latency;
    average_latency_ms = elim s.average_latency_ms [
      | none ↦ some latency
      | some avg ↦ some (add (mul (lit 2 10) latency) (mul (lit 8 10) avg))
    ];
  }

  unfoldable pub record_failure : ModelStats F → ModelStats F
  unfolding push
  record_failure s = record s {
    total_requests = s.total_requests + 1;
    failed_requests = s.failed_requests + 1;
    recent_outcomes = push s.recent_outcomes false;
  }

  -- The tracker's dictionary, whose keys are pairs of texts.
  abbrev pub Tracker : Type 0
  Tracker = List ((Text × Text) × ModelStats F)

  -- `_key`.
  unfoldable pub key_of : Text → Text → Text × Text
  key_of provider model = (normalize provider, strip model)

  unfoldable pub find_stats : Text → Text → Tracker → Option (ModelStats F)
  find_stats p m [] = none
  find_stats p m (((q, n), s) ∷ rest) =
      if text_eq q p && text_eq n m then some s else find_stats p m rest

  unfoldable pub put_stats : Text → Text → ModelStats F → Tracker → Tracker
  put_stats p m s [] = ((p, m), s) ∷ []
  put_stats p m s (((q, n), t) ∷ rest) =
      if text_eq q p && text_eq n m then ((q, n), s) ∷ rest else ((q, n), t) ∷ put_stats p m s rest

  -- The statistics that `get_or_create` returns.
  unfoldable pub get_or_create : Tracker → Text → Text → ModelStats F
  unfolding find_stats new_stats
  get_or_create t provider model =
      let p = normalize provider in
      let m = strip model in elim (find_stats p m t) [ none ↦ new_stats p m | some s ↦ s ]

  unfoldable pub track_success : Tracker → Text → Text → F → Tracker
  unfolding get_or_create put_stats
  track_success t provider model latency =
      put_stats (normalize provider) (strip model)
        (record_success (get_or_create t provider model) latency) t

  unfoldable pub track_failure : Tracker → Text → Text → Tracker
  unfolding get_or_create put_stats
  track_failure t provider model =
      put_stats (normalize provider) (strip model) (record_failure (get_or_create t provider model))
        t

  unfoldable pub get_stats : Tracker → Text → Text → Option (ModelStats F)
  unfolding find_stats
  get_stats t provider model = find_stats (normalize provider) (strip model) t
