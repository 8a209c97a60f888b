-- ===== src/Lib.antt =====
-- Cortex Gateway: the core of backend/app, a gateway that routes chat completions to LLM providers.
--
-- A caller authenticates with the API key of a team. Its request comes to the chat endpoint as a
-- `ChatCompletionRequest`. The guardrails look at the prompt. Then the chat service takes it
-- through its steps: the rate limits of its key, team and organization; the target, which the
-- request names or the routing engine picks; the semantic cache, which may answer at once; an
-- experiment, which may assign another target; the team's budget, which reserves the estimated
-- cost; the reliability executor; and the settlement with the actual cost. The policy of the team
-- says what applies. The routing engine builds candidates from the registered providers, the
-- catalog and the statistics, filters them and ranks them by a weighted score. The reliability
-- executor calls the provider behind a circuit breaker, with retries and failover to other
-- candidates, and records each outcome in the breaker and in the statistics, which the next routing
-- decision reads.
--
-- Files and code (paths from backend/app, a function has the name of its method):
--   Errors               providers/exceptions.py, routing/exceptions.py, budget/exceptions.py and
--                        reliability/errors.py
--   Breaker, Breaker/Registry
--                        ProviderCircuitBreaker and CircuitBreakerRegistry of
--                        reliability/circuit_breaker.py; Breaker/Laws and Breaker/Runs prove
--   Retry                RetryPolicy of reliability/retry.py
--   Executor             the state of a request and FailoverSelector of reliability/failover.py
--   Executor/Attempt     the inner loop of ReliabilityExecutor.execute of reliability/executor.py
--   Executor/Loop        its outer loop and execute itself; Executor/Bounds, Executor/Effort and
--                        Executor/Fuel prove
--   Experiment           ExperimentConfig of policy/schemas.py and experiment/assigner.py
--   Guardrails           guardrails/, with GuardrailsPolicy of policy/schemas.py
--   Budget, Budget/Calendar
--                        Budget and BudgetService of budget/, and what they use of datetime;
--                        Budget/Interleaved is over amounts that floats hold exactly
--   Chat, Providers      schemas/chat.py and providers/registry.py
--   Routing/Models       routing/models.py and routing/policies.py
--   Routing/Scorer       routing/scorer.py
--   Routing/Stats        routing/stats.py
--   Routing/Metadata     routing/metadata.py
--   Routing/Candidates   routing/candidates.py
--   Routing/Router       routing/router.py
--   Policy               policy/resolver.py, policy/service.py and the sections of policy/schemas.py
--   RateLimit            rate_limit/
--   Cost                 CostCalculator of budget/cost.py
--   SemanticCache        SemanticCache of semantic_cache/cache.py; SemanticCache/Payload is its
--                        serialization, SemanticCache/Similarity is semantic_cache/similarity.py
--   Auth                 the tables of auth/models.py, with auth/schemas.py and auth/security.py
--   Auth/Service         AuthService of auth/service.py
--   Auth/Endpoints       auth/dependencies.py, the endpoints of organizations, teams, keys and the
--                        bootstrap of api/v1/endpoints, and a history of requests; the other
--                        files of Auth prove
--   Adapters             the adapters providers/openai_provider.py and groq_provider.py
--   Adapters/Ollama, Adapters/Gemini
--                        providers/ollama_provider.py and providers/gemini_provider.py
--   Registry             model_registry/; Registry/Endpoints is api/v1/endpoints/model_registry.py with
--                        the refresh of the catalog
--   Api                  exceptions.py and observability/log_writer.py
--   Api/ChatEndpoint     api/v1/endpoints/chat.py
--   ChatService          ChatService.complete of services/chat_service.py; its steps up to the cache
--                        are in ChatService/Admission, those from the budget on in
--                        ChatService/Spending, over the state of ChatService/Base
--   Floats               Python's floats as an interface; Floats/Scaled is an instance of it
--   Prelude              texts as lists of code points, dictionaries, lists and orders
--
-- State is passed explicitly: an operation takes the state it reads and returns the one it leaves.
-- An exception is a value of a result type. Readings of the clock, the hash, the search of regular
-- expressions and the answers of the providers are arguments. Numbers are natural numbers, and
-- times are ticks. The floats of the routing, the costs, the budgets, the rate limiter and the cache
-- are an interface with laws that correctly rounded operations have. Texts are code points, of which only the ASCII letters
-- have two cases.
--
-- Every loop over a list is structural recursion. The two loops of `execute` recurse on the number
-- of passes that are left: `range(1 + max_retries)` for the inner loop, and `max_failover_attempts`
-- + 1 for the outer one, of which each pass ends the loop or adds one to `failover_attempts`, which
-- its condition compares with that maximum.
--
-- Redis is an interface of the commands that the code calls, one for the counters of the rate
-- limiter and one for the cache, with what the documentation of these commands says; the embedding
-- client, JSON and SHA-256 are parameters. The chat service is over one record of all of these.
--
-- The database of authentication is three tables; a flush that a constraint refuses raises, and an
-- exception rolls the request's session back. Requests on it happen one after the other. HMAC, the
-- clock, and the identifiers and keys that are drawn are arguments, as is what a call of a provider's
-- SDK ends in.
--
-- Not modelled: metrics and reports, the migrations, and the rest of the HTTP layer, which are calls
-- of libraries, databases and external services around the logic above. Logging is left out
-- everywhere.
pub mod Prelude
pub mod ChatService
pub mod Errors
pub mod Breaker
pub mod Experiment
pub mod Guardrails
pub mod Budget
pub mod Cost
pub mod Floats
pub mod Routing
pub mod SemanticCache
pub mod Chat
pub mod Providers
pub mod Retry
pub mod Executor
pub mod Policy
pub mod Api
pub mod Auth
pub mod Adapters
pub mod RateLimit
pub mod Registry
