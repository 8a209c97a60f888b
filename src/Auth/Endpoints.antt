-- ===== src/Auth/Endpoints.antt =====
-- The endpoints of backend/app/api/v1/endpoints/organizations.py, teams.py, api_keys.py and
-- bootstrap.py, behind the dependencies of backend/app/auth/dependencies.py and in the session of
-- backend/app/database/session.py, and a history of requests. The body of a request is one that its
-- schema accepts. An answer is the value that the endpoint returns, or the exception it raises.
use cortex_gateway.Prelude.{
  ℕ, ◌+◌, Bool, true, false, not, ◌||◌, Option, none, some, List, [], ◌∷◌, map, if◌then◌else◌,
  is_empty, Text, codes, text_eq,
}
use cortex_gateway.Auth.{
  RequestContext, Organization, Team, ApiKey, Database, Failure, authentication, authorization,
  Result, ok, raises, ◌>>=◌, ◌>>◌, raise_if, Env,
}
use cortex_gateway.Auth.Service.{
  organizations_exist, create_organization, get_organization, create_team, list_teams,
  create_api_key, list_api_keys, revoke_api_key, authenticate, update_last_used,
}

pub record ApiKeyResponse : Type 0 where
  pub id : Text
  pub name : Text
  pub key_prefix : Text
  pub role : Text
  pub expires_at : Option ℕ
  pub revoked_at : Option ℕ
  pub created_at : ℕ
  pub last_used_at : Option ℕ

pub record ApiKeyCreatedResponse : Type 0 where
  pub id : Text
  pub name : Text
  pub key : Text
  pub key_prefix : Text
  pub role : Text
  pub expires_at : Option ℕ
  pub created_at : ℕ

-- `ApiKeyResponse.model_validate(k)`: the fields of the schema.
unfoldable pub key_response : ApiKey → ApiKeyResponse
key_response k = record {
  id = k.id;
  name = k.name;
  key_prefix = k.key_prefix;
  role = k.role;
  expires_at = k.expires_at;
  revoked_at = k.revoked_at;
  created_at = k.created_at;
  last_used_at = k.last_used_at;
}

unfoldable pub created_response : ApiKey × Text → ApiKeyCreatedResponse
created_response (k, plaintext) = record {
  id = k.id;
  name = k.name;
  key = plaintext;
  key_prefix = k.key_prefix;
  role = k.role;
  expires_at = k.expires_at;
  created_at = k.created_at;
}

pub data Answer : Type 0 where
  failed : Failure → Answer
  not_found bootstrap_disabled bootstrap_already_completed : Answer
  organization_answer : Organization → Answer
  team_answer : Team → Answer
  teams_answer : List Team → Answer
  created_answer : ApiKeyCreatedResponse → Answer
  key_answer : ApiKeyResponse → Answer
  keys_answer : List ApiKeyResponse → Answer
  bootstrapped : Organization → Team → ApiKeyCreatedResponse → Answer

-- What a request draws: the time, an identifier for each row that it may create, and a random text.
pub record Drawn : Type 0 where
  pub now : ℕ
  pub organization_id : Text
  pub team_id : Text
  pub key_id : Text
  pub random_part : Text

-- The bearer credentials are none without an `Authorization` header.
unfoldable pub get_request_context : Env → ℕ → Option Text → Database → Result RequestContext
get_request_context env now none db = raises authentication
get_request_context env now (some credentials) db = authenticate env now credentials db

unfoldable pub require_admin : RequestContext → Result RequestContext
require_admin c = do raise_if (not (text_eq c.role (codes "admin"))) authorization; ok c

pub record BootstrapRequest : Type 0 where
  pub organization_name : Text
  pub organization_slug : Text
  pub team_name : Text
  pub team_slug : Text
  pub admin_key_name : Text

-- The guard of the token: `credentials is None or not credentials.credentials`, then the comparison
-- with the setting.
unfoldable pub check_token : Env → Option Text → Result (Unit {0})
check_token env none = raises authentication
check_token env (some token) = do
  raise_if (is_empty token) authentication
  raise_if (is_empty env.cortex_bootstrap_token || not (text_eq token env.cortex_bootstrap_token))
      authentication

-- What the endpoint does when no organization is there.
unfoldable pub create_first : Env → Drawn → BootstrapRequest → Database → Result (Answer × Database)
create_first env d body db = do
  (org, db1) ←
      create_organization d.organization_id d.now body.organization_name body.organization_slug db
  (team, db2) ← create_team d.team_id d.now org.id body.team_name body.team_slug db1
  (created, db3) ←
      create_api_key env d.key_id d.now d.random_part team.id body.admin_key_name (codes "admin")
        none db2
  ok (bootstrapped org team (created_response created), db3)

unfoldable pub bootstrap :
    Env → Drawn → Option Text → BootstrapRequest → Database → Result (Answer × Database)
bootstrap env d credentials body db =
    if not env.cortex_bootstrap_enabled then ok (bootstrap_disabled, db) else do
      check_token env credentials
      if organizations_exist db
          then ok (bootstrap_already_completed, db)
          else create_first env d body db

-- What an endpoint does once its dependencies have returned.
abbrev pub Handler : Type 0
Handler = RequestContext → Database → Result (Answer × Database)

unfoldable pub create_organization_endpoint : Drawn → Text → Text → Handler
create_organization_endpoint d name slug c db = do
  (org, db1) ← create_organization d.organization_id d.now name slug db
  ok (organization_answer org, db1)

-- `if org is None: return JSONResponse(404, ...)`, and the same for a key.
unfoldable pub organization_or_404 : Option Organization → Answer
organization_or_404 none = not_found
organization_or_404 (some org) = organization_answer org

unfoldable pub key_or_404 : Option ApiKey → Answer
key_or_404 none = not_found
key_or_404 (some key) = key_answer (key_response key)

unfoldable pub get_organization_endpoint : Text → Handler
get_organization_endpoint org_id c db = do
  raise_if (not (text_eq c.organization_id org_id)) authorization
  found ← get_organization org_id db
  ok (organization_or_404 found, db)

unfoldable pub create_team_endpoint : Drawn → Text → Text → Text → Handler
create_team_endpoint d org_id name slug c db = do
  raise_if (not (text_eq c.organization_id org_id)) authorization
  (team, db1) ← create_team d.team_id d.now org_id name slug db
  ok (team_answer team, db1)

unfoldable pub list_teams_endpoint : Text → Handler
list_teams_endpoint org_id c db = do
  raise_if (not (text_eq c.organization_id org_id)) authorization
  ok (teams_answer (list_teams org_id db), db)

unfoldable pub create_api_key_endpoint : Env → Drawn → Text → Text → Text → Option ℕ → Handler
create_api_key_endpoint env d team_id name role expires_at c db = do
  raise_if (not (text_eq c.team_id team_id)) authorization
  (created, db1) ← create_api_key env d.key_id d.now d.random_part team_id name role expires_at db
  ok (created_answer (created_response created), db1)

unfoldable pub list_api_keys_endpoint : Text → Handler
list_api_keys_endpoint team_id c db = do
  raise_if (not (text_eq c.team_id team_id)) authorization
  ok (keys_answer (map key_response (list_api_keys team_id db)), db)

unfoldable pub revoke_api_key_endpoint : Drawn → Text → Text → Handler
revoke_api_key_endpoint d team_id key_id c db = do
  raise_if (not (text_eq c.team_id team_id)) authorization
  (found, db1) ← revoke_api_key d.now key_id team_id db
  ok (key_or_404 found, db1)

-- The role that a body of `ApiKeyCreate` may name.
pub data Role : Type 0 where
  admin member : Role

unfoldable pub role_text : Role → Text
role_text admin = codes "admin"
role_text member = codes "member"

-- A request that authenticates with an API key, with the values of its path and of its body.
pub data Request : Type 0 where
  post_organization : Text → Text → Request
  read_organization : Text → Request
  post_team : Text → Text → Text → Request
  read_teams : Text → Request
  post_key : Text → Text → Role → Option ℕ → Request
  read_keys : Text → Request
  post_revoke : Text → Text → Request

unfoldable pub as_caller :
    Env → Drawn → Option Text → Handler → Database → Result (Answer × Database)
as_caller env d credentials handler db = do
  c ← get_request_context env d.now credentials db
  handler c db

unfoldable pub behind_admin : Handler → Handler
behind_admin handler c db = do admin_c ← require_admin c; handler admin_c db

unfoldable pub handler_of : Env → Drawn → Request → Handler
handler_of env d (post_organization name slug) =
    behind_admin (create_organization_endpoint d name slug)
handler_of env d (read_organization org_id) = get_organization_endpoint org_id
handler_of env d (post_team org_id name slug) =
    behind_admin (create_team_endpoint d org_id name slug)
handler_of env d (read_teams org_id) = behind_admin (list_teams_endpoint org_id)
handler_of env d (post_key team_id name role expires_at) =
    behind_admin (create_api_key_endpoint env d team_id name (role_text role) expires_at)
handler_of env d (read_keys team_id) = behind_admin (list_api_keys_endpoint team_id)
handler_of env d (post_revoke team_id key_id) =
    behind_admin (revoke_api_key_endpoint d team_id key_id)

-- `get_db_session`: an exception rolls the session back, and is the answer.
unfoldable pub commit : Database → Result (Answer × Database) → Answer × Database
commit db (raises e) = (failed e, db)
commit db (ok (answer, db1)) = (answer, db1)

-- What happens to the database: a request, a call of the bootstrap endpoint, or the task of an
-- authentication, which runs at a time of its own.
pub data Event : Type 0 where
  request : Drawn → Option Text → Request → Event
  boot : Drawn → Option Text → BootstrapRequest → Event
  used : ℕ → Text → Event

unfoldable pub serve : Env → Drawn → Option Text → Request → Database → Answer × Database
unfolding commit
serve env d credentials r db = commit db (as_caller env d credentials (handler_of env d r) db)

unfoldable pub serve_bootstrap :
    Env → Drawn → Option Text → BootstrapRequest → Database → Answer × Database
unfolding commit
serve_bootstrap env d credentials body db = commit db (bootstrap env d credentials body db)

unfoldable pub after : Env → Event → Database → Database
after env (request d credentials r) db = (serve env d credentials r db).1
after env (boot d credentials body) db = (serve_bootstrap env d credentials body db).1
after env (used now key_id) db = update_last_used now key_id db

-- The database after a history, which happens from its head on.
unfoldable pub run : Env → List Event → Database → Database
unfolding after
run env [] db = db
run env (e ∷ rest) db = run env rest (after env e db)

abbrev pub is_bootstrapped : Answer → Bool
is_bootstrapped (bootstrapped org team key) = true
is_bootstrapped answer = false

-- How many calls of the bootstrap endpoint succeed in a history.
unfoldable pub bootstraps : Env → List Event → Database → ℕ
unfolding after
bootstraps env [] db = 0
bootstraps env (boot d credentials body ∷ rest) db =
    (if is_bootstrapped (serve_bootstrap env d credentials body db).0 then 1 else 0)
    + bootstraps env rest (after env (boot d credentials body) db)
bootstraps env (e ∷ rest) db = bootstraps env rest (after env e db)
