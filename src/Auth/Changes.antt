-- ===== src/Auth/Changes.antt =====
-- What the methods of `AuthService` and the endpoints can do to the database, as a relation between
-- the database before and after.
use cortex_gateway.Prelude.{
  any, ℕ, ◌≡◌, refl, ◌⊎◌, inl, inr, Bool, true, false, ◌&&◌, ◌||◌, Option, none, some, List, [],
  ◌∷◌, ◌++◌, arith, if◌then◌else◌, is_some, Bool-cases, and_true, keep, is_empty, In, here, In-keep,
  text_eq, text_eq_iff,
}
use cortex_gateway.Auth.{
  Organization, Team, ApiKey, Database, Failure, Result, ok, raises, Env, scalar_one_or_none, Text,
  multiple_results, raise_if, ◌>>=◌, ◌>>◌,
}
use cortex_gateway.Auth.Service.{
  organization_rows, team_rows, create_organization, create_team, create_api_key, revoke_api_key,
  update_key, revoked, get_api_key, new_key,
}

-- A key keeps its identity, and stays revoked.
pub record Evolves (k l : ApiKey) : Type 0 where
  pub id : l.id ≡ k.id
  pub team_id : l.team_id ≡ k.team_id
  pub key_hash : l.key_hash ≡ k.key_hash
  pub role : l.role ≡ k.role
  pub expires_at : l.expires_at ≡ k.expires_at
  pub revoked : is_some k.revoked_at ≡ true → is_some l.revoked_at ≡ true

-- `P` holds of the teams whose keys change.
pub data Change (P : Text → Type 0) (db after : Database) : Type 0 where
  add_organization :
      (o : Organization)
      → any (λ (x : Organization). text_eq x.id o.id) db.organizations ≡ false
      → after ≡ record db { organizations = db.organizations ++ o ∷ [] }
      → Change P db after
  add_team :
      (t : Team)
      → any (λ (x : Team). text_eq x.id t.id) db.teams ≡ false
      → is_empty (organization_rows t.organization_id db) ≡ false
      → after ≡ record db { teams = db.teams ++ t ∷ [] }
      → Change P db after
  add_key :
      (k : ApiKey)
      → any (λ (x : ApiKey). text_eq x.id k.id) db.api_keys ≡ false
      → is_empty (team_rows k.team_id db) ≡ false
      → P k.team_id
      → after ≡ record db { api_keys = db.api_keys ++ k ∷ [] }
      → Change P db after
  change_key :
      (k : ApiKey) (change : ApiKey → ApiKey)
      → In k db.api_keys
      → P k.team_id
      → ((x : ApiKey) → Evolves x (change x))
      → after ≡ update_key k.id change db
      → Change P db after

pub data Changes (P : Text → Type 0) (db : Database) : Database → Type 0 where
  done : Changes P db db
  more : {u v : Database} → Changes P db u → Change P u v → Changes P db v

-- How a method ends: it raises, or `Q` holds of the database that it leaves.
pub data Leaves {A : Type 0} (Q : Database → Type 0) : Result (A × Database) → Type 0 where
  raised : (e : Failure) → Leaves Q (raises e)
  left : {a : A} {u : Database} → Q u → Leaves Q (ok (a, u))

abbrev pub Anyone : Text → Type 0
Anyone t = Unit

any_or :
    {A : Type 0} (f g : A → Bool) (xs : List A)
    → any (λ x. f x || g x) xs ≡ false
    → any f xs ≡ false
any_or f g [] h = refl
any_or f g (x ∷ xs) h = ground (arith, any_or f g xs)

or_false : (a b : Bool) → (a || b) ≡ false → (a ≡ false) × (b ≡ false)
or_false a b h = ground arith

pub found-cases {ℓ} :
    {A : Type ℓ} (xs : List A)
    → (scalar_one_or_none xs ≡ ok none)
      ⊎ (scalar_one_or_none xs ≡ raises multiple_results)
      ⊎ ((a : A) × (xs ≡ a ∷ []) × (scalar_one_or_none xs ≡ ok (some a)))
unfolding scalar_one_or_none
found-cases [] = inl refl
found-cases (a ∷ []) = inr (inr (a, refl, refl))
found-cases (a ∷ b ∷ rest) = inr (inl refl)

revoked-Evolves : (now : ℕ) (x : ApiKey) → Evolves x (revoked now x)
revoked-Evolves now x = record {
  id = refl;
  team_id = refl;
  key_hash = refl;
  role = refl;
  expires_at = refl;
  revoked = λ e. refl;
}

pub used-Evolves : (now : ℕ) (x : ApiKey) → Evolves x (record x { last_used_at = some now })
used-Evolves now x = record {
  id = refl;
  team_id = refl;
  key_hash = refl;
  role = refl;
  expires_at = refl;
  revoked = λ e. e;
}

module _ (P : Text → Type 0) where
  pub create_organization-Leaves :
      (id : Text) (now : ℕ) (name slug : Text) (db : Database)
      → Leaves (Change P db) (create_organization id now name slug db)
  unfolding create_organization
  create_organization-Leaves id now name slug db =
      elim (Bool-cases
        (any (λ (o : Organization). text_eq o.id id || text_eq o.slug slug) db.organizations)) [
          | inl e ↦ rw e (raised _)
          | inr e ↦ rw e (left (add_organization _ (any_or _ _ db.organizations e) refl))
        ]

  pub create_team-Leaves :
      (id : Text) (now : ℕ) (organization_id name slug : Text) (db : Database)
      → Leaves (Change P db) (create_team id now organization_id name slug db)
  unfolding create_team
  create_team-Leaves id now organization_id name slug db =
      elim (Bool-cases (
        is_empty (organization_rows organization_id db)
        || any
            (λ (t : Team).
              text_eq t.id id || (text_eq t.organization_id organization_id && text_eq t.slug slug))
            db.teams)) [
              | inl e ↦ rw e (raised _)
              | inr e ↦
                  let (owned, fresh) = or_false _ _ e in
                  rw e (left (add_team _ (any_or _ _ db.teams fresh) owned refl))
            ]

  pub create_api_key-Leaves :
      (env : Env) (id : Text) (now : ℕ) (random_part team_id name role : Text)
      (expires_at : Option ℕ) (db : Database)
      → P team_id
      → Leaves (Change P db) (create_api_key env id now random_part team_id name role expires_at db)
  unfolding create_api_key new_key
  create_api_key-Leaves env id now random_part team_id name role expires_at db p =
      elim (Bool-cases
        (is_empty (team_rows team_id db) || any (λ (k : ApiKey). text_eq k.id id) db.api_keys)) [
          | inl e ↦ rw e (raised _)
          | inr e ↦
              let (owned, fresh) = or_false _ _ e in rw e (left (add_key _ fresh owned p refl))
        ]

  pub revoke_api_key-Leaves :
      (now : ℕ) (key_id team_id : Text) (db : Database)
      → P team_id
      → Leaves (Changes P db) (revoke_api_key now key_id team_id db)
  unfolding revoke_api_key get_api_key ◌>>=◌
  revoke_api_key-Leaves now key_id team_id db p =
      elim (found-cases
        (keep (λ (k : ApiKey). text_eq k.id key_id && text_eq k.team_id team_id) db.api_keys)) [
          | inl e ↦ rw (e, revoke_api_key, get_api_key) (left done)
          | inr (inl e) ↦ rw (e, revoke_api_key, get_api_key) (raised _)
          | inr (inr (k, rest, e)) ↦
              let m =
                In-keep (λ (x : ApiKey). text_eq x.id key_id && text_eq x.team_id team_id)
                  db.api_keys (rw rest here) in
              let of_team = (text_eq_iff k.team_id team_id).0 (and_true _ _ m.1).1 in
              let change =
                change_key k (revoked now) m.0 (rw of_team p) (revoked-Evolves now) refl in
              rw (e, revoke_api_key, get_api_key) (left (more done change))
        ]

module _ (Q : Database → Type 0) where
  -- What runs behind a method, a guard or a query.
  pub Leaves-after :
      {A B : Type 0} (R : Database → Type 0) (m : Result (A × Database))
      (f : A × Database → Result (B × Database))
      → Leaves R m
      → ((a : A) (u : Database) → R u → Leaves Q (f (a, u)))
      → Leaves Q (m >>= f)
  unfolding ◌>>=◌
  Leaves-after R m f (raised e) k = raised e
  Leaves-after R m f (left {a} {u} h) k = k a u h

  pub Leaves-guard :
      {A : Type 0} (test : Bool) (e : Failure) (m : Result (A × Database))
      → (test ≡ false → Leaves Q m)
      → Leaves Q (raise_if test e >> m)
  unfolding ◌>>=◌ ◌>>◌ raise_if
  Leaves-guard true e m h = raised e
  Leaves-guard false e m h = h refl

  pub Leaves-query :
      {A B : Type 0} (m : Result A) (f : A → Result (B × Database))
      → ((a : A) → m ≡ ok a → Leaves Q (f a))
      → Leaves Q (m >>= f)
  unfolding ◌>>=◌
  Leaves-query (raises e) f h = raised e
  Leaves-query (ok a) f h = h a refl

  pub Leaves-unit :
      {A : Type 0} (check : Result (Unit {0})) (m : Result (A × Database))
      → Leaves Q m
      → Leaves Q (check >> m)
  unfolding ◌>>◌
  Leaves-unit check m h = Leaves-query check _ λ a e. h

  pub Leaves-if :
      {A : Type 0} (test : Bool) {m n : Result (A × Database)}
      → Leaves Q m
      → (test ≡ false → Leaves Q n)
      → Leaves Q (if test then m else n)
  Leaves-if true h k = h
  Leaves-if false h k = k refl
