-- ===== src/Auth/Effects.antt =====
-- What the endpoints do to the database, by the changes of the methods that they call.
use cortex_gateway.Prelude.{
  ℕ, ◌≡◌, refl, inl, inr, true, false, not, Option, none, some, arith, Bool-cases, Text, codes,
  text_eq, text_eq_iff,
}
use cortex_gateway.Auth.{RequestContext, ApiKey, Database, Result, ok, Env, ◌>>=◌, ◌>>◌, raise_if}
use cortex_gateway.Auth.Service.{organizations_exist, update_last_used, update_key}
use cortex_gateway.Auth.Endpoints.{
  Answer, Drawn, BootstrapRequest, Request, Handler, bootstrap, create_first, check_token,
  create_organization_endpoint, get_organization_endpoint, create_team_endpoint,
  list_teams_endpoint, create_api_key_endpoint, list_api_keys_endpoint, revoke_api_key_endpoint,
  handler_of, behind_admin, require_admin, as_caller, get_request_context, serve, serve_bootstrap,
  commit, Event, after,
}
use cortex_gateway.Auth.Tables.{any-cases, map-none}
use cortex_gateway.Auth.Changes.{
  Change, Changes, done, more, Leaves, raised, left, Anyone, create_organization-Leaves,
  create_team-Leaves, create_api_key-Leaves, revoke_api_key-Leaves, Leaves-after, Leaves-guard,
  Leaves-query, Leaves-unit, Leaves-if, change_key, used-Evolves,
}

-- Ends by an exception, or has made changes.
abbrev pub Done : (Text → Type 0) → Database → Result (Answer × Database) → Type 0
Done P db = Leaves (Changes P db)

module _ (P : Text → Type 0) (env : Env) (d : Drawn) (db : Database) where
  create_organization_endpoint-Done :
      (name slug : Text) (c : RequestContext)
      → Done P db (create_organization_endpoint d name slug c db)
  unfolding create_organization_endpoint
  create_organization_endpoint-Done name slug c =
      Leaves-after (Changes P db) (Change P db) _ _
        (create_organization-Leaves P d.organization_id d.now name slug db)
        λ org u change. left (more done change)

  get_organization_endpoint-Done :
      (org_id : Text) (c : RequestContext) → Done P db (get_organization_endpoint org_id c db)
  unfolding get_organization_endpoint
  get_organization_endpoint-Done org_id c =
      Leaves-guard (Changes P db) _ _ _ λ own. Leaves-query (Changes P db) _ _ λ found e. left done

  create_team_endpoint-Done :
      (org_id name slug : Text) (c : RequestContext)
      → Done P db (create_team_endpoint d org_id name slug c db)
  unfolding create_team_endpoint
  create_team_endpoint-Done org_id name slug c = Leaves-guard (Changes P db) _ _ _ λ own.
      Leaves-after (Changes P db) (Change P db) _ _
        (create_team-Leaves P d.team_id d.now org_id name slug db)
        λ team u change. left (more done change)

  list_teams_endpoint-Done :
      (org_id : Text) (c : RequestContext) → Done P db (list_teams_endpoint org_id c db)
  unfolding list_teams_endpoint
  list_teams_endpoint-Done org_id c = Leaves-guard (Changes P db) _ _ _ λ own. left done

  same_team :
      (c : RequestContext) (team_id : Text)
      → P c.team_id
      → not (text_eq c.team_id team_id) ≡ false
      → P team_id
  same_team c team_id p e = rw (← (text_eq_iff c.team_id team_id).0 (ground (arith, e))) p

  create_api_key_endpoint-Done :
      (team_id name role : Text) (expires_at : Option ℕ) (c : RequestContext)
      → P c.team_id
      → Done P db (create_api_key_endpoint env d team_id name role expires_at c db)
  unfolding create_api_key_endpoint
  create_api_key_endpoint-Done team_id name role expires_at c p =
      Leaves-guard (Changes P db) _ _ _ λ own.
        Leaves-after (Changes P db) (Change P db) _ _
          (create_api_key-Leaves P env d.key_id d.now d.random_part team_id name role expires_at db
            (same_team c team_id p own))
          λ created u change. left (more done change)

  list_api_keys_endpoint-Done :
      (team_id : Text) (c : RequestContext) → Done P db (list_api_keys_endpoint team_id c db)
  unfolding list_api_keys_endpoint
  list_api_keys_endpoint-Done team_id c = Leaves-guard (Changes P db) _ _ _ λ own. left done

  revoke_api_key_endpoint-Done :
      (team_id key_id : Text) (c : RequestContext)
      → P c.team_id
      → Done P db (revoke_api_key_endpoint d team_id key_id c db)
  unfolding revoke_api_key_endpoint
  revoke_api_key_endpoint-Done team_id key_id c p = Leaves-guard (Changes P db) _ _ _ λ own.
      Leaves-after (Changes P db) (Changes P db) _ _
        (revoke_api_key-Leaves P d.now key_id team_id db (same_team c team_id p own))
        λ found u changes. left changes

  behind_admin-Done :
      (handler : Handler) (c : RequestContext)
      → (text_eq c.role (codes "admin") ≡ true → Done P db (handler c db))
      → Done P db (behind_admin handler c db)
  unfolding behind_admin require_admin ◌>>=◌ ◌>>◌ raise_if
  behind_admin-Done handler c h = elim (Bool-cases (text_eq c.role (codes "admin"))) [
    | inl e ↦ rw (e, behind_admin, require_admin) (h e)
    | inr e ↦ rw (e, behind_admin, require_admin) (raised _)
  ]

  -- An endpoint changes keys of the caller's team at most, and only if the caller is an admin.
  pub handler_of-Done :
      (r : Request) (c : RequestContext)
      → (text_eq c.role (codes "admin") ≡ true → P c.team_id)
      → Done P db (handler_of env d r c db)
  unfolding handler_of
  handler_of-Done (Request.post_organization name slug) c p =
      behind_admin-Done _ c λ e. create_organization_endpoint-Done name slug c
  handler_of-Done (Request.read_organization org_id) c p = get_organization_endpoint-Done org_id c
  handler_of-Done (Request.post_team org_id name slug) c p =
      behind_admin-Done _ c λ e. create_team_endpoint-Done org_id name slug c
  handler_of-Done (Request.read_teams org_id) c p =
      behind_admin-Done _ c λ e. list_teams_endpoint-Done org_id c
  handler_of-Done (Request.post_key team_id name role expires_at) c p =
      behind_admin-Done _ c λ e. create_api_key_endpoint-Done team_id name _ expires_at c (p e)
  handler_of-Done (Request.read_keys team_id) c p =
      behind_admin-Done _ c λ e. list_api_keys_endpoint-Done team_id c
  handler_of-Done (Request.post_revoke team_id key_id) c p =
      behind_admin-Done _ c λ e. revoke_api_key_endpoint-Done team_id key_id c (p e)

  -- A session that is rolled back has changed nothing.
  commit-Done : (r : Result (Answer × Database)) → Done P db r → Changes P db (commit db r).1
  unfolding commit
  commit-Done r (raised e) = done
  commit-Done r (left changes) = changes

  pub serve-Changes :
      (credentials : Option Text) (r : Request)
      → ((c : RequestContext)
          → get_request_context env d.now credentials db ≡ ok c
          → text_eq c.role (codes "admin") ≡ true
          → P c.team_id)
      → Changes P db (serve env d credentials r db).1
  unfolding serve as_caller
  serve-Changes credentials r p =
      commit-Done _ (Leaves-query (Changes P db) _ _ λ c e. handler_of-Done r c (p c e))

  -- The bootstrap endpoint changes nothing once an organization is there.
  bootstrap-Done :
      (credentials : Option Text) (body : BootstrapRequest)
      → (organizations_exist db ≡ false → Done P db (create_first env d body db))
      → Done P db (bootstrap env d credentials body db)
  unfolding bootstrap
  bootstrap-Done credentials body h =
      Leaves-if (Changes P db) (not env.cortex_bootstrap_enabled) (left done) λ enabled.
        Leaves-unit (Changes P db) (check_token env credentials) _
          (Leaves-if (Changes P db) (organizations_exist db) (left done) h)

  pub serve_bootstrap-Changes :
      (credentials : Option Text) (body : BootstrapRequest)
      → (organizations_exist db ≡ false → Done P db (create_first env d body db))
      → Changes P db (serve_bootstrap env d credentials body db).1
  unfolding serve_bootstrap
  serve_bootstrap-Changes credentials body h = commit-Done _ (bootstrap-Done credentials body h)

module _ (env : Env) where
  create_first-Done :
      (d : Drawn) (body : BootstrapRequest) (db : Database)
      → Done Anyone db (create_first env d body db)
  unfolding create_first
  create_first-Done d body db =
      Leaves-after (Changes Anyone db) (Change Anyone db) _ _
        (create_organization-Leaves Anyone d.organization_id d.now body.organization_name
          body.organization_slug db)
        λ org u1 c1.
          Leaves-after (Changes Anyone db) (Change Anyone u1) _ _
            (create_team-Leaves Anyone d.team_id d.now org.id body.team_name body.team_slug u1)
            λ team u2 c2.
              Leaves-after (Changes Anyone db) (Change Anyone u2) _ _
                (create_api_key-Leaves Anyone env d.key_id d.now d.random_part team.id
                  body.admin_key_name (codes "admin") none u2 tt)
                λ created u3 c3. left (more (more (more done c1) c2) c3)

  update_last_used-Changes :
      (now : ℕ) (key_id : Text) (db : Database) → Changes Anyone db (update_last_used now key_id db)
  unfolding update_last_used update_key
  update_last_used-Changes now key_id db =
      elim (any-cases (λ (k : ApiKey). text_eq k.id key_id) db.api_keys) [
        | inl (k, m, e) ↦
            rw (← (text_eq_iff k.id key_id).0 e)
              (more done (change_key k _ m tt (used-Evolves now) refl))
        | inr e ↦
            rw
              (
                map-none (λ (k : ApiKey). text_eq k.id key_id)
                    (λ (k : ApiKey). record k { last_used_at = some now }) db.api_keys e,
                update_last_used,
                update_key,
              )
              done
      ]

  pub after-Changes : (e : Event) (db : Database) → Changes Anyone db (after env e db)
  unfolding after
  after-Changes (Event.request d credentials r) db =
      serve-Changes Anyone env d db credentials r (λ c e admin. tt)
  after-Changes (Event.boot d credentials body) db =
      serve_bootstrap-Changes Anyone env d db credentials body
        λ none_yet. create_first-Done d body db
  after-Changes (Event.used now key_id) db = update_last_used-Changes now key_id db
