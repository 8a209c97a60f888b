-- ===== src/Auth/Service.antt =====
-- `AuthService` of backend/app/auth/service.py. A method takes the database and returns what it
-- returns with the database that its flush leaves; a flush that a constraint refuses raises. The
-- log lines are left out. A new row stands at the end of its table, and rows with one creation time
-- are listed in that order.
use cortex_gateway.Prelude.{
  map, ℕ, Bool, not, ◌&&◌, ◌||◌, Option, none, some, List, [], ◌∷◌, ◌++◌, ltb, leb, if◌then◌else◌,
  length, keep, any, is_empty, Text, codes, starts_with, text_eq,
}
use cortex_gateway.Auth.{
  RequestContext, Organization, Team, ApiKey, Database, authentication, integrity, Result, ok,
  raises, is_active, Env, generate_api_key, extract_key_prefix, ◌>>=◌, ◌>>◌, raise_if, hash_api_key,
  verify_api_key, scalar_one_or_none,
}

-- The rows by which `x.id == y` selects.
unfoldable pub organization_rows : Text → Database → List Organization
organization_rows id db = keep (λ (o : Organization). text_eq o.id id) db.organizations

unfoldable pub team_rows : Text → Database → List Team
team_rows id db = keep (λ (t : Team). text_eq t.id id) db.teams

unfoldable pub organizations_exist : Database → Bool
organizations_exist db = ltb 0 (length db.organizations)

unfoldable pub create_organization :
    Text → ℕ → Text → Text → Database → Result (Organization × Database)
create_organization id now name slug db =
    if any (λ (o : Organization). text_eq o.id id || text_eq o.slug slug) db.organizations
    then raises integrity
    else let org : Organization = record { id = id; name = name; slug = slug; created_at = now } in
      ok (org, record db { organizations = db.organizations ++ org ∷ [] })

unfoldable pub get_organization : Text → Database → Result (Option Organization)
get_organization org_id db = scalar_one_or_none (organization_rows org_id db)

-- The organization of a team has to exist, and its slug is unique there.
unfoldable pub create_team : Text → ℕ → Text → Text → Text → Database → Result (Team × Database)
create_team id now organization_id name slug db =
    if is_empty (organization_rows organization_id db)
      || any
          (λ (t : Team).
            text_eq t.id id || (text_eq t.organization_id organization_id && text_eq t.slug slug))
          db.teams
    then raises integrity
    else let team : Team = record {
      id = id;
      organization_id = organization_id;
      name = name;
      slug = slug;
      created_at = now;
    } in
      ok (team, record db { teams = db.teams ++ team ∷ [] })

unfoldable pub get_team : Text → Database → Result (Option Team)
get_team team_id db = scalar_one_or_none (team_rows team_id db)

-- `order_by(created_at)`.
unfoldable pub insert_ordered {ℓ} : {A : Type ℓ} → (A → ℕ) → A → List A → List A
insert_ordered created a [] = a ∷ []
insert_ordered created a (b ∷ rest) =
    let later = insert_ordered created a rest in
    if leb (created a) (created b) then a ∷ b ∷ rest else b ∷ later

unfoldable pub ordered {ℓ} : {A : Type ℓ} → (A → ℕ) → List A → List A
unfolding insert_ordered
ordered created [] = []
ordered created (a ∷ rest) = insert_ordered created a (ordered created rest)

unfoldable pub list_teams : Text → Database → List Team
unfolding ordered
list_teams organization_id db =
    ordered (λ (t : Team). t.created_at)
      (keep (λ (t : Team). text_eq t.organization_id organization_id) db.teams)

-- The row that `create_api_key` adds.
unfoldable pub new_key : Env → Text → ℕ → Text → Text → Text → Text → Option ℕ → ApiKey
new_key env id now plaintext team_id name role expires_at = record {
  id = id;
  team_id = team_id;
  name = name;
  key_prefix = extract_key_prefix plaintext;
  key_hash = hash_api_key env plaintext;
  role = role;
  expires_at = expires_at;
  revoked_at = none;
  created_at = now;
  last_used_at = none;
}

-- The team of a key has to exist.
unfoldable pub create_api_key :
    Env
    → Text
    → ℕ
    → Text
    → Text
    → Text
    → Text
    → Option ℕ
    → Database
    → Result ((ApiKey × Text) × Database)
create_api_key env id now random_part team_id name role expires_at db =
    let plaintext = generate_api_key random_part in
    let key = new_key env id now plaintext team_id name role expires_at in
    if is_empty (team_rows team_id db) || any (λ (k : ApiKey). text_eq k.id id) db.api_keys
    then raises integrity
    else ok ((key, plaintext), record db { api_keys = db.api_keys ++ key ∷ [] })

unfoldable pub team_keys : Text → Database → List ApiKey
team_keys team_id db = keep (λ (k : ApiKey). text_eq k.team_id team_id) db.api_keys

unfoldable pub list_api_keys : Text → Database → List ApiKey
unfolding ordered team_keys
list_api_keys team_id db = ordered (λ (k : ApiKey). k.created_at) (team_keys team_id db)

unfoldable pub get_api_key : Text → Text → Database → Result (Option ApiKey)
get_api_key key_id team_id db =
    scalar_one_or_none
      (keep (λ (k : ApiKey). text_eq k.id key_id && text_eq k.team_id team_id) db.api_keys)

-- `UPDATE api_keys ... WHERE id = key_id`.
unfoldable pub update_key : Text → (ApiKey → ApiKey) → Database → Database
update_key key_id change db = record db {
  api_keys = map (λ (k : ApiKey). if text_eq k.id key_id then change k else k) db.api_keys;
}

abbrev pub revoked : ℕ → ApiKey → ApiKey
revoked now k = record k { revoked_at = some now }

unfoldable pub revoke_api_key : ℕ → Text → Text → Database → Result (Option ApiKey × Database)
revoke_api_key now key_id team_id db = do
  found ← get_api_key key_id team_id db
  elim found [
    | none ↦ ok (none, db)
    | some key ↦ ok (some (revoked now key), update_key key.id (revoked now) db)
  ]

unfoldable pub flat_map {ℓ κ} : {A : Type ℓ} {B : Type κ} → (A → List B) → List A → List B
flat_map f [] = []
flat_map f (a ∷ rest) = f a ++ flat_map f rest

-- One row for each team and organization that the joins find for the key.
unfoldable pub joined : Database → ApiKey → List ApiKey
joined db k =
    flat_map (λ (t : Team). map (λ (o : Organization). k) (organization_rows t.organization_id db))
      (team_rows k.team_id db)

unfoldable pub keys_by_hash : Text → Database → List ApiKey
keys_by_hash computed_hash db =
    flat_map (joined db) (keep (λ (k : ApiKey). text_eq k.key_hash computed_hash) db.api_keys)

-- `if row is None: raise AuthenticationError(...)`.
unfoldable pub or_refused {ℓ} : {A : Type ℓ} → Option A → Result A
or_refused none = raises authentication
or_refused (some a) = ok a

-- The context of an active key, from its team and that team's organization.
unfoldable pub context_of : ApiKey → Database → Result RequestContext
context_of key db = do
  found_team ← get_team key.team_id db
  team ← or_refused found_team
  found_org ← get_organization team.organization_id db
  org ← or_refused found_org
  ok record { organization_id = org.id; team_id = team.id; api_key_id = key.id; role = key.role }

unfoldable pub authenticate : Env → ℕ → Text → Database → Result RequestContext
authenticate env now plaintext_key db = do
  raise_if (is_empty plaintext_key || not (starts_with (codes "cxg_") plaintext_key)) authentication
  found ← scalar_one_or_none (keys_by_hash (hash_api_key env plaintext_key) db)
  key ← or_refused found
  raise_if (not (verify_api_key env plaintext_key key.key_hash)) authentication
  raise_if (not (is_active now key)) authentication
  context_of key db

-- The task that a successful authentication starts, in a session of its own.
unfoldable pub update_last_used : ℕ → Text → Database → Database
update_last_used now key_id = update_key key_id (λ k. record k { last_used_at = some now })
