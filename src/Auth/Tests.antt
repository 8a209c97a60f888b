-- ===== src/Auth/Tests.antt =====
-- A small database, and the theorems on it. The hash of these examples joins its two arguments.
use cortex_gateway.Auth.Endpoints.{
  bootstrap, check_token, create_first, Drawn, BootstrapRequest, ApiKeyCreatedResponse, Event,
  request, boot, used, post_revoke, post_key, member, run, bootstraps, serve, serve_bootstrap,
  get_request_context, bootstrapped,
}
use cortex_gateway.Auth.{
  ◌>>=◌, verify_api_key, scalar_one_or_none, raise_if, extract_key_prefix, ◌>>◌, is_active,
  RequestContext, Organization, Team, ApiKey, Database, Env, ok, generate_api_key, hash_api_key,
}
use cortex_gateway.Auth.Service.{
  joined, flat_map, create_organization, get_team, context_of, create_team, keys_by_hash,
  get_organization, or_refused, create_api_key, new_key, revoke_api_key, revoked, authenticate,
  team_keys, update_key, get_api_key, organization_rows, team_rows, organizations_exist,
}
use cortex_gateway.Prelude.{
  ◌≤◌, ◌≡◌, refl, ◌≢◌, ◌⊎◌, true, none, some, List, [], ◌∷◌, ◌++◌, arith, here, there, Text, codes,
  starts_with,
}
use cortex_gateway.Auth.Integrity.{IsValid}
use cortex_gateway.Auth.Lifetime.{inactive_forever}
use cortex_gateway.Auth.Revocation.{revoke_ends_key}
use cortex_gateway.Auth.Issue.{created_key_authenticates}
use cortex_gateway.Auth.Isolation.{keys_change_by_own_admin}
use cortex_gateway.Auth.Bootstrapping.{bootstraps-le}
use cortex_gateway.Auth.FirstBootstrap.{first_bootstrap}

abbrev env : Env
env = record {
  hmac = λ key message. key ++ message;
  api_key_pepper = codes "pepper";
  cortex_bootstrap_enabled = true;
  cortex_bootstrap_token = codes "token";
}

abbrev acme : Organization
acme = record { id = codes "o1"; name = codes "Acme"; slug = codes "acme"; created_at = 1 }

abbrev red : Team
red = record {
  id = codes "t1";
  organization_id = codes "o1";
  name = codes "Red";
  slug = codes "red";
  created_at = 1;
}

abbrev blue : Team
blue = record {
  id = codes "t2";
  organization_id = codes "o1";
  name = codes "Blue";
  slug = codes "blue";
  created_at = 2;
}

abbrev secret : Text
secret = codes "cxg_" ++ codes "r1"

abbrev red_key : ApiKey
red_key = record {
  id = codes "k1";
  team_id = codes "t1";
  name = codes "first";
  key_prefix = secret;
  key_hash = codes "pepper" ++ secret;
  role = codes "admin";
  expires_at = none;
  revoked_at = none;
  created_at = 3;
  last_used_at = none;
}

abbrev two_teams : Database
two_teams = record { organizations = acme ∷ []; teams = red ∷ blue ∷ []; api_keys = red_key ∷ [] }

two_teams-IsValid : IsValid two_teams
unfolding organization_rows team_rows
two_teams-IsValid = record {
  organization_ids = (refl, tt);
  team_ids = (refl, (refl, tt));
  key_ids = (refl, tt);
  teams_owned = (refl, (refl, tt));
  keys_owned = (refl, tt);
}

abbrev drawn : Drawn
drawn = record {
  now = 10;
  organization_id = codes "o9";
  team_id = codes "t9";
  key_id = codes "k9";
  random_part = codes "r9";
}

-- The key of the red team, expired at 20.
abbrev dated_key : ApiKey
dated_key = record red_key { expires_at = some 20 }

abbrev dated : Database
dated = record two_teams { api_keys = dated_key ∷ [] }

dated-IsValid : IsValid dated
unfolding organization_rows team_rows
dated-IsValid = record {
  organization_ids = (refl, tt);
  team_ids = (refl, (refl, tt));
  key_ids = (refl, tt);
  teams_owned = (refl, (refl, tt));
  keys_owned = (refl, tt);
}

abbrev history : List Event
history =
    used 21 (codes "k1")
    ∷ request drawn (some secret) (post_key (codes "t1") (codes "next") member none)
    ∷ []

abbrev red_context : RequestContext
red_context = record {
  organization_id = codes "o1";
  team_id = codes "t1";
  api_key_id = codes "k1";
  role = codes "admin";
}

authenticates : authenticate env 15 secret dated ≡ ok red_context
unfolding authenticate ◌>>◌ raise_if starts_with scalar_one_or_none keys_by_hash flat_map
    hash_api_key joined team_rows organization_rows or_refused verify_api_key is_active context_of
    get_team get_organization
authenticates = refl

inactive_forever_example : authenticate env 30 secret (run env history dated) ≢ ok red_context
unfolding hash_api_key is_active
inactive_forever_example =
    inactive_forever env dated dated_key secret 20 30 history red_context dated-IsValid here refl
      refl (omega arith)

revoke_ends_key_example :
    authenticate env 30 secret (run env history (update_key (codes "k1") (revoked 12) two_teams))
    ≢ ok red_context
unfolding hash_api_key revoke_api_key get_api_key update_key ◌>>=◌ scalar_one_or_none
revoke_ends_key_example =
    revoke_ends_key env two_teams (update_key (codes "k1") (revoked 12) two_teams)
      (revoked 12 red_key) secret (codes "k1") (codes "t1") 12 30 history red_context
      two_teams-IsValid refl refl

abbrev blue_key : ApiKey
blue_key = record {
  id = codes "k2";
  team_id = codes "t2";
  name = codes "second";
  key_prefix = codes "cxg_r2";
  key_hash = codes "peppercxg_r2";
  role = codes "member";
  expires_at = some 40;
  revoked_at = none;
  created_at = 11;
  last_used_at = none;
}

created_key_authenticates_example :
    authenticate env 30 (codes "cxg_r2") (record two_teams { api_keys = red_key ∷ blue_key ∷ [] })
    ≡ ok record {
      organization_id = codes "o1";
      team_id = codes "t2";
      api_key_id = codes "k2";
      role = codes "member";
    }
unfolding create_api_key hash_api_key team_rows new_key generate_api_key extract_key_prefix
created_key_authenticates_example =
    created_key_authenticates env two_teams
      (record two_teams { api_keys = red_key ∷ blue_key ∷ [] }) blue blue_key (codes "cxg_r2")
      (codes "k2") (codes "r2") (codes "second") (codes "member") 11 30 (some 40) two_teams-IsValid
      (there here) refl refl

keys_change_by_own_admin_example :
    (team_keys
        (codes "t2")
        (serve env drawn (some secret) (post_revoke (codes "t2") (codes "k2")) two_teams).1
      ≡ team_keys (codes "t2") two_teams)
    ⊎ ((c : RequestContext) × (get_request_context env 10 (some secret) two_teams ≡ ok c)
        × (c.team_id ≡ codes "t2")
        × (c.role ≡ codes "admin"))
keys_change_by_own_admin_example =
    keys_change_by_own_admin env drawn (some secret) (post_revoke (codes "t2") (codes "k2"))
      two_teams (codes "t2") two_teams-IsValid

abbrev body : BootstrapRequest
body = record {
  organization_name = codes "Acme";
  organization_slug = codes "acme";
  team_name = codes "Red";
  team_slug = codes "red";
  admin_key_name = codes "root";
}

abbrev nothing : Database
nothing = record { organizations = []; teams = []; api_keys = [] }

nothing-IsValid : IsValid nothing
nothing-IsValid = record {
  organization_ids = tt;
  team_ids = tt;
  key_ids = tt;
  teams_owned = tt;
  keys_owned = tt;
}

abbrev boots : List Event
boots =
    boot drawn (some (codes "wrong")) body
    ∷ boot drawn (some (codes "token")) body
    ∷ boot drawn (some (codes "token")) body
    ∷ []

boots_once : bootstraps env boots nothing ≡ 1
unfolding bootstraps serve_bootstrap bootstrap ◌>>◌ check_token raise_if organizations_exist
    create_first create_organization create_team organization_rows create_api_key team_rows
boots_once = refl

bootstraps-le_example : bootstraps env boots nothing ≤ 1
bootstraps-le_example = bootstraps-le env boots nothing

first_bootstrap_example :
    let (answer, u) = serve_bootstrap env drawn (some (codes "token")) body nothing in
    (o : Organization) × (t : Team) × (k : ApiKeyCreatedResponse) × (answer ≡ bootstrapped o t k)
    × (authenticate env 99 k.key u
        ≡ ok record {
          organization_id = o.id;
          team_id = t.id;
          api_key_id = k.id;
          role = codes "admin";
        })
unfolding organizations_exist
first_bootstrap_example =
    first_bootstrap env drawn (codes "token") body nothing 99 nothing-IsValid refl refl refl refl
