-- ===== src/Auth/Lifetime.antt =====
-- The row of a key in a history of requests, and whether it is active.
use cortex_gateway.Prelude.{
  In-uncons, map-In, ℕ, ◌≤◌, ◌≡◌, refl, ◌∙◌, ◌≢◌, inl, inr, true, false, Option, none, some, List,
  [], ◌∷◌, arith, ltb, if◌then◌else◌, Option-cases, In, Text, text_eq,
}
use cortex_gateway.Auth.{RequestContext, ApiKey, Database, ok, is_active, Env, hash_api_key}
use cortex_gateway.Auth.Service.{update_key, authenticate}
use cortex_gateway.Auth.Endpoints.{Event, after, run}
use cortex_gateway.Auth.Changes.{
  Change, add_organization, add_team, add_key, change_key, Changes, done, more, Evolves,
}
use cortex_gateway.Auth.Effects.{after-Changes}
use cortex_gateway.Auth.Integrity.{IsValid, run-IsValid, changed-Evolves}
use cortex_gateway.Auth.Tables.{In-append}
use cortex_gateway.Auth.Found.{authenticate-found, keys_by_hash-In}

Evolves-trans : {k l m : ApiKey} → Evolves k l → Evolves l m → Evolves k m
Evolves-trans p q = record {
  id = q.id ∙ p.id;
  team_id = q.team_id ∙ p.team_id;
  key_hash = q.key_hash ∙ p.key_hash;
  role = q.role ∙ p.role;
  expires_at = q.expires_at ∙ p.expires_at;
  revoked = λ r. q.revoked (p.revoked r);
}

Evolves-refl : (k : ApiKey) → Evolves k k
Evolves-refl k = record {
  id = refl;
  team_id = refl;
  key_hash = refl;
  role = refl;
  expires_at = refl;
  revoked = λ r. r;
}

-- A key that is not active is not active later.
Evolves-inactive :
    (now later : ℕ) {k l : ApiKey}
    → Evolves k l
    → now ≤ later
    → is_active now k ≡ false
    → is_active later l ≡ false
unfolding is_active
Evolves-inactive now later {k} {l} p le e = elim (Option-cases l.revoked_at) [
  | inr (t, r) ↦ rw r
  | inl none_l ↦ elim (Option-cases k.revoked_at) [
    | inr (t, r) ↦ absurd (ground (arith, p.revoked (rw r)))
    | inl none_k ↦ rw (none_l, p.expires_at) (expired k.expires_at (rw none_k at e))
  ]
]
  where
    expired :
        (at : Option ℕ)
        → elim at [ some t ↦ ltb now t | none ↦ true ] ≡ false
        → elim at [ some t ↦ ltb later t | none ↦ true ] ≡ false
    expired at h = ground (arith, h)

abbrev Kept : ApiKey → Database → Type 0
Kept k db = (l : ApiKey) × In l db.api_keys × Evolves k l

module _ {P : Text → Type 0} where
  Change-Kept : {db u : Database} {k : ApiKey} → Change P db u → In k db.api_keys → Kept k u
  unfolding update_key
  Change-Kept {k = k} (add_organization o fresh e) m = rw e (k, m, Evolves-refl k)
  Change-Kept {k = k} (add_team t fresh owned e) m = rw e (k, m, Evolves-refl k)
  Change-Kept {k = k} (add_key new fresh owned p e) m =
      rw e (k, In-append (new ∷ []) m, Evolves-refl k)
  Change-Kept {k = k} (change_key old change n p keeps e) m = rw e (
    _,
    map-In (λ (x : ApiKey). if text_eq x.id old.id then change x else x) m,
    changed-Evolves old.id change keeps k,
  )

  Changes-Kept : {db u : Database} {k : ApiKey} → Changes P db u → In k db.api_keys → Kept k u
  Changes-Kept {k = k} done m = (k, m, Evolves-refl k)
  Changes-Kept (more cs c) m =
      let (l, n, p) = Changes-Kept cs m in
      let (l', n', q) = Change-Kept c n in (l', n', Evolves-trans p q)

-- No history removes a key.
pub run-Kept :
    (env : Env) (events : List Event) (db : Database) {k : ApiKey}
    → In k db.api_keys
    → Kept k (run env events db)
unfolding run
run-Kept env [] db {k} m = (k, m, Evolves-refl k)
run-Kept env (e ∷ rest) db m =
    let (l, n, p) = Changes-Kept (after-Changes env e db) m in
    let (l', n', q) = run-Kept env rest (after env e db) n in (l', n', Evolves-trans p q)

-- A key that is revoked or expired at a time never authenticates at that time or later, whatever
-- requests the gateway serves in between.
pub inactive_forever :
    (env : Env) (db : Database) (k : ApiKey) (plaintext : Text) (now later : ℕ)
    (events : List Event) (c : RequestContext)
    → IsValid db
    → In k db.api_keys
    → k.key_hash ≡ hash_api_key env plaintext
    → is_active now k ≡ false
    → now ≤ later
    → authenticate env later plaintext (run env events db) ≢ ok c
inactive_forever env db k plaintext now later events c v m e off le success =
    let (l, n, p) = run-Kept env events db m in
    let (found, rows, active, ctx) =
      authenticate-found env later plaintext (run env events db) success in
    let r =
      keys_by_hash-In env (run env events db) l plaintext (run-IsValid env events db v) n
        (p.key_hash ∙ e) in
    only found l (rw rows at r) (Evolves-inactive now later p le off) active
  where
    only :
        (found l : ApiKey)
        → In l (found ∷ [])
        → is_active later l ≡ false
        → is_active later found ≡ true
        → ⊥
    only found l m off on = elim (In-uncons m) [
      | inl same ↦ ground (arith, same, off, on)
      | inr none_left ↦ elim none_left [ ]
    ]
