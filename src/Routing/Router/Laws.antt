-- ===== src/Routing/Router/Laws.antt =====
-- What the routing engine's decision rests on.
use cortex_gateway.Prelude.{
  In-map, ◌≡◌, refl, sym, ◌∙◌, ◌⊎◌, inl, inr, Bool, true, false, ◌||◌, none, some, List, [], ◌∷◌,
  arith, if◌then◌else◌, Bool-cases, Option-cases, keep, any, is_empty, In, here, there, In-keep,
  Text, codes, lower, text_eq,
}
use cortex_gateway.Floats.{Floats}
use cortex_gateway.Chat.{ChatCompletionRequest}
use cortex_gateway.Routing.Models.{
  RoutingMode, RoutingCandidate, RoutingDecision, PolicyWeights, get_weights,
}
use cortex_gateway.Routing.Scorer.{
  ScoredCandidate, score_candidates, score_one, normalize_weights, bounds_of,
}
use cortex_gateway.Routing.Scorer.Sort.{In-of_sort}
use cortex_gateway.Routing.Router.{
  ok, Engine, given, capabilities_of, supports, filter_by_capabilities, filter_by_provider,
  filter_required, prefer_healthy, decide, route_among,
}

any-In :
    {A : Type 0} (test : A → Bool) {a : A} {xs : List A}
    → In a xs
    → test a ≡ true
    → any test xs ≡ true
any-In test here e = rw e refl
any-In test (there {x = x} m) e = let rest = any-In test m e in ground (arith, rest)

any-keep_empty :
    {A : Type 0} (test : A → Bool) (xs : List A)
    → is_empty (keep test xs) ≡ true
    → any test xs ≡ false
any-keep_empty test [] e = refl
any-keep_empty test (x ∷ xs) e = elim (Bool-cases (test x)) [
  | inl p ↦ absurd (ground (arith, p, e))
  | inr p ↦ rw p (any-keep_empty test xs (rw p at e))
]

In-unless_keep :
    {A : Type 0} (b : Bool) (test : A → Bool) {a : A} (xs : List A)
    → In a (if b then xs else keep test xs)
    → In a xs × ((b ≡ true) ⊎ (test a ≡ true))
In-unless_keep true test xs m = (m, inl refl)
In-unless_keep false test xs m = let (k, e) = In-keep test xs m in (k, inr e)

module _ (fl : Floats) where
  open fl use {F}

  -- The candidates that the scorer ranks.
  abbrev pub eligible :
      ChatCompletionRequest F → List (RoutingCandidate F) → List (RoutingCandidate F)
  eligible r cs = prefer_healthy fl (filter_required fl r (filter_by_provider fl r cs))

  -- The candidate is of the provider that the request names, if it names one.
  unfoldable pub is_named : ChatCompletionRequest F → RoutingCandidate F → Bool
  is_named r c = elim (given r.provider) [
    | none ↦ true
    | some p ↦ text_eq (lower p) (codes "auto") || text_eq (lower c.provider) (lower p)
  ]

  -- What a candidate is that serves a request: it was discovered, it is of the provider that the
  -- request names, if it names one, it has the capabilities that the request requires, and it is
  -- healthy if any candidate that meets the rest is.
  pub record Serves (r : ChatCompletionRequest F) (cs : List (RoutingCandidate F))
      (c : RoutingCandidate F) : Type 0 where
    pub discovered : In c cs
    pub named : is_named r c ≡ true
    pub capable : supports c.capabilities (capabilities_of r.required_capabilities) ≡ true
    pub healthy :
        c.is_healthy ≡ any (λ d. d.is_healthy) (filter_required fl r (filter_by_provider fl r cs))

  In-filter_by_provider :
      (r : ChatCompletionRequest F) (cs : List (RoutingCandidate F)) (c : RoutingCandidate F)
      → In c (filter_by_provider fl r cs)
      → In c cs × (is_named r c ≡ true)
  unfolding filter_by_provider is_named
  In-filter_by_provider r cs c m = elim (Option-cases (given r.provider)) [
    | inl e ↦ (rw (e, filter_by_provider) at m, rw (e, is_named) refl)
    | inr (p, e) ↦
        let (k, q) = In-unless_keep _ _ cs (rw (e, filter_by_provider) at m) in
        (k, rw (e, is_named) (ground (arith, q)))
  ]

  supports_cases :
      (required : List Text) (cs : List (RoutingCandidate F)) (c : RoutingCandidate F)
      → In c (if is_empty required then cs else filter_by_capabilities fl cs required)
      → In c cs × (supports c.capabilities required ≡ true)
  unfolding filter_by_capabilities supports
  supports_cases [] cs c m = (m, refl)
  supports_cases (x ∷ xs) cs c m =
      In-keep (λ (d : RoutingCandidate F). supports d.capabilities (x ∷ xs)) cs m

  filter_required-supports :
      (r : ChatCompletionRequest F) (cs : List (RoutingCandidate F)) (c : RoutingCandidate F)
      → In c (filter_required fl r cs)
      → In c cs × (supports c.capabilities (capabilities_of r.required_capabilities) ≡ true)
  unfolding filter_required
  filter_required-supports r cs c m =
      supports_cases (capabilities_of r.required_capabilities) cs c m

  prefer_healthy-any :
      (cs : List (RoutingCandidate F)) (c : RoutingCandidate F)
      → In c (prefer_healthy fl cs)
      → In c cs × (c.is_healthy ≡ any (λ d. d.is_healthy) cs)
  unfolding prefer_healthy
  prefer_healthy-any cs c m =
      elim (Bool-cases (is_empty (keep (λ (d : RoutingCandidate F). d.is_healthy) cs))) [
        | inl e ↦
            let none_healthy = any-keep_empty (λ (d : RoutingCandidate F). d.is_healthy) cs e in
            let k : In c cs = rw e at m in
            (
              k,
              elim (Bool-cases c.is_healthy) [
                | inl h ↦ cc (any-In (λ (d : RoutingCandidate F). d.is_healthy) k h)
                | inr h ↦ h ∙ sym none_healthy
              ],
            )
        | inr e ↦
            let (k, h) = In-keep (λ (d : RoutingCandidate F). d.is_healthy) cs (rw e at m) in
            (k, h ∙ sym (any-In (λ (d : RoutingCandidate F). d.is_healthy) k h))
      ]

  eligible-Serves :
      (r : ChatCompletionRequest F) (cs : List (RoutingCandidate F)) (c : RoutingCandidate F)
      → In c (eligible r cs)
      → Serves r cs c
  eligible-Serves r cs c m =
      let (k, h) = prefer_healthy-any _ c m in
      let (l, p) = filter_required-supports r _ c k in
      let (n, q) = In-filter_by_provider r cs c l in
      record { discovered = n; named = q; capable = p; healthy = h }

  pub In-score_candidates :
      (cs : List (RoutingCandidate F)) (w : PolicyWeights F) (s : ScoredCandidate F)
      → In s (score_candidates fl cs w)
      → In s.candidate cs
  unfolding score_candidates
  In-score_candidates [] w s m = elim m [ ]
  In-score_candidates (c ∷ cs) w s m =
      let v = normalize_weights fl w in
      let (d, k, e) = In-map (score_one fl v (bounds_of fl c cs)) (c ∷ cs) (In-of_sort fl _ m) in
      rw (← e) (unfold score_one in k)

  decide-In :
      (mode : RoutingMode) (ss : List (ScoredCandidate F)) (d : RoutingDecision F)
      → decide fl mode ss ≡ ok d
      → (s : ScoredCandidate F) × In s ss
        × (s.candidate ≡ d.candidate)
        × (d.provider ≡ d.candidate.provider)
        × (d.model ≡ d.candidate.model)
  unfolding decide
  decide-In mode [] d h = ground (arith, h)
  decide-In mode (s ∷ ss) d h = (s, here, ground (arith, h), ground (arith, h), ground (arith, h))

  -- A decision of `route` that is not manual is for the provider and model of a candidate that was
  -- discovered, that is of the provider that the request names, if it names one, that has the
  -- capabilities that the request requires, and that is healthy exactly if any candidate is that
  -- meets the request's provider and capabilities.
  pub route_among-Serves :
      (e : Engine fl) (r : ChatCompletionRequest F) (mode : RoutingMode)
      (cs : List (RoutingCandidate F)) (d : RoutingDecision F)
      → route_among fl e r mode cs ≡ ok d
      → Serves r cs d.candidate
        × (d.provider ≡ d.candidate.provider)
        × (d.model ≡ d.candidate.model)
  unfolding route_among
  route_among-Serves e r mode cs d h =
      let ranked = score_candidates fl (eligible r cs) (get_weights fl e.auto_weights mode) in
      let decided : decide fl mode ranked ≡ ok d = ground (arith, h) in
      let (s, m, same, p, q) = decide-In mode ranked d decided in
      let k : In d.candidate (eligible r cs) = rw (← same) (In-score_candidates _ _ s m) in
      (eligible-Serves r cs d.candidate k, p, q)
