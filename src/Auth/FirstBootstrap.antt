-- ===== src/Auth/FirstBootstrap.antt =====
-- The first call of the bootstrap endpoint, on a database without organizations.
use cortex_gateway.Prelude.{
  ℕ, ◌≡◌, refl, ap, ◌∙◌, Bool, true, false, not, ◌||◌, none, some, List, [], ◌∷◌, arith,
  if◌then◌else◌, is_empty, Text, codes, text_eq, text_eq_refl,
}
use cortex_gateway.Auth.{
  Organization, Team, ApiKey, Database, Env, authentication, Result, ok, ◌>>=◌, ◌>>◌, raise_if,
  is_active, generate_api_key, hash_api_key, scalar_one_or_none,
}
use cortex_gateway.Auth.Service.{
  organizations_exist, organization_rows, team_rows, create_organization, create_team,
  create_api_key, new_key, authenticate, joined, flat_map, context_of, get_team, get_organization,
  or_refused,
}
use cortex_gateway.Auth.Endpoints.{
  Answer, Drawn, BootstrapRequest, ApiKeyCreatedResponse, created_response, bootstrapped, bootstrap,
  create_first, check_token, commit, serve_bootstrap,
}
use cortex_gateway.Auth.Integrity.{IsValid}
use cortex_gateway.Auth.Issue.{authenticate-one}

abbrev empty : Database
empty = record { organizations = []; teams = []; api_keys = [] }

-- Without organizations a valid database has no rows at all.
no_rows :
    (os : List Organization) (ts : List Team) (ks : List ApiKey)
    → let db : Database = record { organizations = os; teams = ts; api_keys = ks } in
      IsValid db → organizations_exist db ≡ false → db ≡ empty
unfolding organizations_exist organization_rows team_rows
no_rows (o ∷ os) ts ks v e = absurd (ground arith)
no_rows [] (t ∷ ts) ks v e = absurd (ground (arith, v.teams_owned.0))
no_rows [] [] (k ∷ ks) v e = absurd (ground (arith, v.keys_owned.0))
no_rows [] [] [] v e = refl

token_check :
    (token setting : Text)
    → setting ≡ token
    → is_empty token ≡ false
    → (raise_if (is_empty token) authentication
        >> raise_if (is_empty setting || not (text_eq token setting)) authentication)
      ≡ ok tt
unfolding ◌>>◌ ◌>>=◌ raise_if
token_check token setting same nonempty = rw (same, nonempty, text_eq_refl token) refl

-- The guards let the call through.
let_through :
    (env : Env) (d : Drawn) (token : Text) (body : BootstrapRequest)
    → env.cortex_bootstrap_enabled ≡ true
    → is_empty token ≡ false
    → env.cortex_bootstrap_token ≡ token
    → serve_bootstrap env d (some token) body empty ≡ commit empty (create_first env d body empty)
unfolding serve_bootstrap bootstrap check_token organizations_exist commit ◌>>◌ ◌>>=◌
let_through env d token body enabled nonempty same =
    ap
      (λ (b : Bool). commit empty (
        if not b
        then ok (Answer.bootstrap_disabled, empty)
        else check_token env (some token) >> create_first env d body empty))
      enabled
    ∙ ap (λ (r : Result (Unit {0})). commit empty (r >> create_first env d body empty))
        (token_check token env.cortex_bootstrap_token same nonempty)
    ∙ refl

module _ (env : Env) (d : Drawn) (body : BootstrapRequest) where
  abbrev organization : Organization
  organization = record {
    id = d.organization_id;
    name = body.organization_name;
    slug = body.organization_slug;
    created_at = d.now;
  }

  abbrev team : Team
  team = record {
    id = d.team_id;
    organization_id = d.organization_id;
    name = body.team_name;
    slug = body.team_slug;
    created_at = d.now;
  }

  abbrev key : ApiKey
  key =
      new_key env d.key_id d.now (generate_api_key d.random_part) d.team_id body.admin_key_name
        (codes "admin") none

  abbrev first : Database
  first = record { organizations = organization ∷ []; teams = team ∷ []; api_keys = key ∷ [] }

  create_first-empty :
      create_first env d body empty
      ≡ ok (
        bootstrapped organization team (created_response (key, generate_api_key d.random_part)),
        first,
      )
  unfolding create_first create_organization create_team create_api_key organization_rows team_rows
      ◌>>=◌
  create_first-empty = rw (text_eq_refl d.organization_id, text_eq_refl d.team_id) refl

  authenticate-first :
      (later : ℕ)
      → authenticate env later (generate_api_key d.random_part) first
        ≡ ok record {
          organization_id = d.organization_id;
          team_id = d.team_id;
          api_key_id = d.key_id;
          role = codes "admin";
        }
  unfolding joined flat_map organization_rows team_rows new_key context_of get_team get_organization
      or_refused scalar_one_or_none ◌>>=◌ is_active
  authenticate-first later =
      authenticate-one env later d.random_part first key
        (rw (text_eq_refl d.team_id, text_eq_refl d.organization_id) refl)
        (text_eq_refl (hash_api_key env (generate_api_key d.random_part)))
        (rw (text_eq_refl (hash_api_key env (generate_api_key d.random_part))) refl)
      ∙ rw (text_eq_refl d.team_id, text_eq_refl d.organization_id) refl

-- On a valid database without organizations, a call of the enabled endpoint with the configured
-- token, which is not empty, succeeds; and the key that it returns authenticates at any later time
-- as an admin of the new team of the new organization.
pub first_bootstrap :
    (env : Env) (d : Drawn) (token : Text) (body : BootstrapRequest) (db : Database) (later : ℕ)
    → IsValid db
    → organizations_exist db ≡ false
    → env.cortex_bootstrap_enabled ≡ true
    → is_empty token ≡ false
    → env.cortex_bootstrap_token ≡ token
    → let (answer, u) = serve_bootstrap env d (some token) body db in
      (o : Organization) × (t : Team) × (k : ApiKeyCreatedResponse) × (answer ≡ bootstrapped o t k)
      × (authenticate env later k.key u
          ≡ ok record {
            organization_id = o.id;
            team_id = t.id;
            api_key_id = k.id;
            role = codes "admin";
          })
unfolding created_response commit new_key
first_bootstrap env d token body db later v none_yet enabled nonempty same =
    let e = no_rows db.organizations db.teams db.api_keys v none_yet in
    let served : serve_bootstrap env d (some token) body db
        ≡ commit empty (create_first env d body empty) =
      rw e (let_through env d token body enabled nonempty same) in
    rw (served ∙ ap (commit empty) (create_first-empty env d body), commit)
      (
        organization env d body,
        team env d body,
        created_response (key env d body, generate_api_key d.random_part),
        refl,
        authenticate-first env d body later,
      )
