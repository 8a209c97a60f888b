-- ===== src/Auth.antt =====
-- Organizations, teams and API keys: the rows of backend/app/auth/models.py with the constraints
-- that they declare, `RequestContext` of backend/app/auth/schemas.py and the functions of
-- backend/app/auth/security.py. The operations of `AuthService` are in Auth/Service, the endpoints
-- and a history of requests in Auth/Endpoints. The database is its three tables. A time is a number
-- of ticks; the columns `updated_at` and the limits on the lengths of texts are left out. HMAC-SHA256
-- is an argument, and so are the identifiers and the random texts that are drawn.
pub mod Service
pub mod Endpoints
pub mod Tables
pub mod Changes
pub mod Effects
pub mod Integrity
pub mod Found
pub mod Lifetime
pub mod Revocation
pub mod Issue
pub mod Isolation
pub mod Bootstrapping
pub mod FirstBootstrap
pub mod Tests
use cortex_gateway.Prelude.{
  take, ℕ, ◌+◌, Bool, true, false, Option, none, some, List, [], ◌∷◌, ◌++◌, ltb, if◌then◌else◌,
  Text, codes, text_eq,
}

pub record RequestContext : Type 0 where
  pub organization_id : Text
  pub team_id : Text
  pub api_key_id : Text
  pub role : Text

-- What `context.name` reads, none where it raises `AttributeError`.
unfoldable pub attribute : Text → RequestContext → Option Text
attribute name c =
    if text_eq name (codes "organization_id")
    then some c.organization_id
    else if text_eq name (codes "team_id")
    then some c.team_id
    else if text_eq name (codes "api_key_id")
    then some c.api_key_id
    else if text_eq name (codes "role")
    then some c.role
    else none

pub record Organization : Type 0 where
  pub id : Text
  pub name : Text
  pub slug : Text
  pub created_at : ℕ

pub record Team : Type 0 where
  pub id : Text
  pub organization_id : Text
  pub name : Text
  pub slug : Text
  pub created_at : ℕ

pub record ApiKey : Type 0 where
  pub id : Text
  pub team_id : Text
  pub name : Text
  pub key_prefix : Text
  pub key_hash : Text
  pub role : Text
  pub expires_at : Option ℕ
  pub revoked_at : Option ℕ
  pub created_at : ℕ
  pub last_used_at : Option ℕ

pub record Database : Type 0 where
  pub organizations : List Organization
  pub teams : List Team
  pub api_keys : List ApiKey

-- What an operation raises: `AuthenticationError`, `AuthorizationError`, or SQLAlchemy's
-- `IntegrityError` of a violated constraint and `MultipleResultsFound`.
pub data Failure : Type 0 where
  authentication authorization integrity multiple_results : Failure

pub data Result {ℓ} (A : Type ℓ) : Type ℓ where
  ok : A → Result A
  raises : Failure → Result A

-- An exception ends what runs after it.
infixl 5 ◌>>=◌ ◌>>◌
unfoldable pub ◌>>=◌ {ℓ κ} : {A : Type ℓ} {B : Type κ} → Result A → (A → Result B) → Result B
raises e >>= f = raises e
ok a >>= f = f a

unfoldable pub ◌>>◌ {ℓ} : {B : Type ℓ} → Result (Unit {0}) → Result B → Result B
unfolding ◌>>=◌
m >> next = m >>= λ _. next

-- `if test: raise ...`.
unfoldable pub raise_if : Bool → Failure → Result (Unit {0})
raise_if true e = raises e
raise_if false e = ok tt

-- `is_active` at the time `now`.
unfoldable pub is_active : ℕ → ApiKey → Bool
is_active now k = elim k.revoked_at [
  | some t ↦ false
  | none ↦ elim k.expires_at [ some e ↦ ltb now e | none ↦ true ]
]

-- What the process is set up with: HMAC-SHA256 of a message under a key as hexadecimal digits, and
-- the settings that the endpoints read.
pub record Env : Type 0 where
  pub hmac : Text → Text → Text
  pub api_key_pepper : Text
  pub cortex_bootstrap_enabled : Bool
  pub cortex_bootstrap_token : Text

-- `secrets.token_urlsafe(32)` is the argument.
unfoldable pub generate_api_key : Text → Text
generate_api_key random_part = codes "cxg_" ++ random_part

unfoldable pub extract_key_prefix : Text → Text
extract_key_prefix api_key = take 20 api_key

unfoldable pub hash_api_key : Env → Text → Text
hash_api_key env plaintext_key = env.hmac env.api_key_pepper plaintext_key

unfoldable pub verify_api_key : Env → Text → Text → Bool
unfolding hash_api_key
verify_api_key env plaintext_key stored_hash = text_eq (hash_api_key env plaintext_key) stored_hash

-- `scalar_one_or_none` of the rows of a query.
unfoldable pub scalar_one_or_none {ℓ} : {A : Type ℓ} → List A → Result (Option A)
scalar_one_or_none [] = ok none
scalar_one_or_none (a ∷ []) = ok (some a)
scalar_one_or_none (a ∷ b ∷ rest) = raises multiple_results
