-- ===== src/Auth/Revocation.antt =====
-- The authentication of a key that has been revoked.
use cortex_gateway.Prelude.{
  map-In, ℕ, ◌≡◌, refl, ap, ◌≢◌, inl, inr, Bool, true, ◌&&◌, Option, none, some, List, map, arith,
  if◌then◌else◌, is_some, Option-cases, keep, In, here, In-keep, Text, text_eq, text_eq_refl,
}
use cortex_gateway.Auth.{RequestContext, ApiKey, Database, Result, ok, is_active, Env, hash_api_key}
use cortex_gateway.Auth.Service.{update_key, revoked, revoke_api_key, get_api_key, authenticate}
use cortex_gateway.Auth.Endpoints.{Event, run}
use cortex_gateway.Auth.Changes.{Changes, Anyone, revoke_api_key-Leaves, Leaves, raised, left}
use cortex_gateway.Auth.Integrity.{IsValid, Changes-IsValid}
use mathlib.Core.Path.{subst}
use cortex_gateway.Auth.Found.{ok-injective, one-ok, bind-ok}
use cortex_gateway.Auth.Lifetime.{inactive_forever}

In-update_key :
    (db : Database) (k : ApiKey) (change : ApiKey → ApiKey)
    → In k db.api_keys
    → In (change k) (update_key k.id change db).api_keys
unfolding update_key
In-update_key db k change m =
    subst (λ x. In x (map (λ (x : ApiKey). if text_eq x.id k.id then change x else x) db.api_keys))
      (rw (text_eq_refl k.id) refl)
      (map-In (λ (x : ApiKey). if text_eq x.id k.id then change x else x) m)

-- A revocation that returns the key has set its time in the table.
revoke_api_key-In :
    (at : ℕ) (key_id team_id : Text) (db u : Database) {k : ApiKey}
    → revoke_api_key at key_id team_id db ≡ ok (some k, u)
    → (is_some k.revoked_at ≡ true) × In k u.api_keys
unfolding revoke_api_key get_api_key
revoke_api_key-In at key_id team_id db u {k} e =
    let (found, got, e') = bind-ok (get_api_key key_id team_id db) _ e in returned found got e'
  where
    returned :
        (found : Option ApiKey)
        → get_api_key key_id team_id db ≡ ok found
        → elim found as (λ x. Result (Option ApiKey × Database)) [
          | none ↦ ok (none, db)
          | some key ↦ ok (some (revoked at key), update_key key.id (revoked at) db)
        ]
          ≡ ok (some k, u)
        → (is_some k.revoked_at ≡ true) × In k u.api_keys
    returned none got h = absurd (ground (arith, ok-injective h))
    returned (some key) got h =
        let pair = ok-injective h in
        let same : revoked at key ≡ k =
          ap (λ (x : Option ApiKey × Database). elim x.0 [ some y ↦ y | none ↦ k ]) pair in
        let after_it : update_key key.id (revoked at) db ≡ u =
          ap (λ (x : Option ApiKey × Database). x.1) pair in
        let test : ApiKey → Bool = λ x. text_eq x.id key_id && text_eq x.team_id team_id in
        let m =
          (In-keep test {a = key} db.api_keys (rw (one-ok (keep test db.api_keys) got) here)).0 in
        (rw (← same) refl, rw (← same, ← after_it) (In-update_key db key (revoked at) m))

-- Once `revoke_api_key` has returned a key, its plaintext never authenticates again.
pub revoke_ends_key :
    (env : Env) (db u : Database) (k : ApiKey) (plaintext key_id team_id : Text) (at later : ℕ)
    (events : List Event) (c : RequestContext)
    → IsValid db
    → revoke_api_key at key_id team_id db ≡ ok (some k, u)
    → k.key_hash ≡ hash_api_key env plaintext
    → authenticate env later plaintext (run env events u) ≢ ok c
unfolding is_active
revoke_ends_key env db u k plaintext key_id team_id at later events c v e h =
    let (off, m) = revoke_api_key-In at key_id team_id db u e in
    inactive_forever env u k plaintext 0 later events c
      (revoke-IsValid (revoke_api_key-Leaves Anyone at key_id team_id db tt) e) m h
      (elim (Option-cases k.revoked_at) [
        | inl none_k ↦ absurd (ground (arith, off, none_k))
        | inr (t, r) ↦ rw r
      ])
      (omega arith)
  where
    revoke-IsValid :
        {r : Result (Option ApiKey × Database)}
        → Leaves (Changes Anyone db) r
        → r ≡ ok (some k, u)
        → IsValid u
    revoke-IsValid (raised f) q = absurd (ground arith)
    revoke-IsValid (left changes) q =
        rw (← ap (λ (x : Option ApiKey × Database). x.1) (ok-injective q))
          (Changes-IsValid v changes)
