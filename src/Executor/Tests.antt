-- ===== src/Executor/Tests.antt =====
-- A call of `execute` with a stand-in for the world: a clock that advances with each reading, no
-- registered provider, and a chat that always times out.
use cortex_gateway.Prelude.{ℕ, ◌+◌, ◌*◌, ◌≤◌, ◌≡◌, false, none, some, [], arith, length, codes}
use cortex_gateway.Errors.{provider_timeout}
use cortex_gateway.Breaker.Registry.{new_registry}
use cortex_gateway.Chat.{ChatCompletionRequest}
use cortex_gateway.Floats.Scaled.{scaled}
use cortex_gateway.Routing.Models.{auto}
use cortex_gateway.Executor.{Outside, Config, State, fails}
use cortex_gateway.Executor.Loop.{execute, rounds}
use cortex_gateway.Executor.Fuel.{rounds_enough}
use cortex_gateway.Executor.Effort.{execute-attempts}

abbrev pub world : Outside ℕ
world = record {
  World = ℕ;
  clock = λ w. (w, w + 1);
  sleep = λ delay w. w + delay;
  draw = λ limit w. (0, w);
  survey = λ w. ([], w);
  chat = λ provider request w. (fails (record { class = provider_timeout; message = [] }), w + 5);
}

-- Two retries at a provider, one failover, 100 ticks in all.
abbrev pub config : Config ℕ
config = record {
  retry_policy = record { max_retries = 2; base_delay = 4; max_delay = 10; jitter = false };
  total_request_timeout = 100;
  max_failover_attempts = 1;
  catalog = record { catalog = []; ollama_default_cost = 0 };
  auto_weights = none;
  default_mode = auto;
}

abbrev request : ChatCompletionRequest ℕ
request = record {
  provider = some (codes "groq");
  model = codes "m";
  messages = [];
  routing_mode = none;
  required_capabilities = none;
  temperature = none;
  max_tokens = none;
  top_p = none;
  stop = none;
  failover_enabled = none;
  stream = none;
}

abbrev pub initial : State scaled world config
initial = record {
  circuits = new_registry 5 30 1;
  tracker = [];
  context = record {
    deadline_timestamp = 0;
    original_provider = [];
    original_model = [];
    selected_provider = [];
    selected_model = [];
    attempted_providers = [];
    retry_count = 0;
    failover_attempts = 0;
    failover_triggered = false;
    attempts = [];
    last_error = none;
  };
  world = 0;
}

execute-attempts_example :
    let c =
      (execute scaled world config request (codes "groq") (codes "m") none initial).1.context in
    (length c.attempts ≤ (1 + 1) * (2 + 1))
    × (c.retry_count ≤ (1 + 1) * 2)
    × (c.failover_attempts ≤ 1 + 1)
execute-attempts_example =
    execute-attempts scaled world config request (codes "groq") (codes "m") none initial

rounds_enough_example :
    rounds scaled world config request none 7
      (record { provider = codes "groq"; model = codes "m"; is_failover = false })
      initial
    ≡ rounds scaled world config request none 2
        (record { provider = codes "groq"; model = codes "m"; is_failover = false })
        initial
rounds_enough_example =
    rounds_enough scaled world config request none 2 7
      (record { provider = codes "groq"; model = codes "m"; is_failover = false }) initial
      (omega arith) (omega arith)
