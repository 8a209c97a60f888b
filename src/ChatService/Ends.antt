-- ===== src/ChatService/Ends.antt =====
-- How a step of the chat pipeline ends: a condition on its value and state, and one on the state
-- behind an exception.
use cortex_gateway.Prelude.{◌≡◌, refl, ap, ◌∙◌, ◌⊎◌, inl, inr}
use cortex_gateway.Executor
use cortex_gateway.Executor.{State}
use cortex_gateway.ChatService.Base.{
  System, World, lift, on_failure, failed, Result, Failure, done, fail, ◌>>=◌,
}

abbrev pub Ends : {S A : Type 0} → (A → S → Type 0) → (S → Type 0) → Result A × S → Type 0
Ends {S} {A} P Q x =
    ((a : A) × (s : S) × (x ≡ (done a, s)) × P a s)
    ⊎ ((e : Failure) × (s : S) × (x ≡ (fail e, s)) × Q s)

module _ {S A : Type 0} {P : A → S → Type 0} {Q : S → Type 0} {x : Result A × S} where
  pub Ends-done : (a : A) (s : S) → x ≡ (done a, s) → P a s → Ends P Q x
  Ends-done a s e p = inl (a, s, e, p)

  pub Ends-fail : (e : Failure) (s : S) → x ≡ (fail e, s) → Q s → Ends P Q x
  Ends-fail e s r q = inr (e, s, r, q)

  pub Ends-as : {y : Result A × S} → Ends P Q y → x ≡ y → Ends P Q x
  Ends-as (inl (a, s, r, p)) e = inl (a, s, e ∙ r, p)
  Ends-as (inr (f, s, r, q)) e = inr (f, s, e ∙ r, q)

pub Ends-weaken :
    {S A : Type 0} {P : A → S → Type 0} {Q Q' : S → Type 0} {x : Result A × S}
    → ((s : S) → Q s → Q' s)
    → Ends P Q x
    → Ends P Q' x
Ends-weaken h (inl done') = inl done'
Ends-weaken h (inr (e, s, r, q)) = inr (e, s, r, h s q)

-- A step and what follows it.
pub bind-Ends :
    {S A B : Type 0} (P : A → S → Type 0) (P' : B → S → Type 0) (Q : S → Type 0)
    (m : S → Result A × S) (f : A → S → Result B × S) (s : S)
    → Ends P Q (m s)
    → ((a : A) (s' : S) → P a s' → Ends P' Q (f a s'))
    → Ends P' Q ((m >>= f) s)
unfolding ◌>>=◌
bind-Ends {S} {A} {B} P P' Q m f s ends h = elim ends [
  | inl (a, s', e, p) ↦ Ends-as (h a s' p) (ap next e)
  | inr (e, s', r, q) ↦ Ends-fail e s' (ap next r) q
]
  where
    next : Result A × S → Result B × S
    next x = elim x.0 [ done a ↦ f a x.1 | fail e ↦ (fail e, x.1) ]

pub bind-fail :
    {S A B : Type 0} (m : S → Result A × S) (f : A → S → Result B × S) (s : S) {e : Failure}
    {s' : S}
    → m s ≡ (fail e, s')
    → (m >>= f) s ≡ (fail e, s')
unfolding ◌>>=◌
bind-fail {S} {A} {B} m f s r =
    ap
      (λ (x : Result A × S). elim x.0 as (λ z. Result B × S) [
        | done a ↦ f a x.1
        | fail e ↦ (fail e, x.1)
      ])
      r

-- What runs behind an exception.
pub on_failure-Ends :
    {S A : Type 0} {P : A → S → Type 0} {Q Q' : S → Type 0} (m : S → Result A × S) (cleanup : S → S)
    (s : S)
    → Ends P Q (m s)
    → ((s' : S) → Q s' → Q' (cleanup s'))
    → Ends P Q' (on_failure m cleanup s)
unfolding on_failure
on_failure-Ends {S} {A} m cleanup s ends h = elim ends [
  | inl (a, s', e, p) ↦ Ends-done a s' (ap next e) p
  | inr (e, s', r, q) ↦ Ends-fail e (cleanup s') (ap next r) (h s' q)
]
  where
    next : Result A × S → Result A × S
    next x = elim x.0 [ done a ↦ (done a, x.1) | fail e ↦ (fail e, cleanup x.1) ]

-- A step of the executor leaves the budgets alone.
pub lift-Ends :
    (sys : System) {A : Type 0} (m : Executor.M sys.fl sys.out sys.cfg A) (w : World sys)
    (K : World sys → Type 0)
    → ((s : State sys.fl sys.out sys.cfg) → K (record w { executor = s }))
    → Ends (λ a. K) K (lift sys m w)
unfolding lift
lift-Ends sys {A} m w K h = go (m w.executor)
  where
    go :
        (x : Executor.Outcome A × State sys.fl sys.out sys.cfg)
        → Ends
            (λ a. K)
            K
            (elim x.0 as (λ z. Result A × World sys) [
              | Executor.ok a ↦ (done a, record w { executor = x.1 })
              | Executor.raise e ↦ (fail (failed e), record w { executor = x.1 })
            ])
    go (Executor.ok a, s) = Ends-done a _ refl (h s)
    go (Executor.raise e, s) = Ends-fail (failed e) _ refl (h s)
