-- ===== src/Auth/Bootstrapping.antt =====
-- The bootstrap endpoint in a history of requests.
use cortex_gateway.Prelude.{
  ℕ, ◌≤◌, ◌≡◌, refl, inl, inr, Bool, true, false, not, ◌||◌, Option, none, List, [], ◌∷◌, arith,
  if◌then◌else◌, Bool-cases, any, length-append, Text, codes, text_eq,
}
use cortex_gateway.Auth.{Organization, Database, Env, Result, ok, raises, ◌>>=◌, ◌>>◌}
use cortex_gateway.Auth.Service.{organizations_exist, create_organization, update_key}
use cortex_gateway.Auth.Endpoints.{
  Answer, Drawn, BootstrapRequest, Event, request, boot, used, bootstrap, create_first, check_token,
  commit, serve_bootstrap, after, bootstraps, is_bootstrapped,
}
use cortex_gateway.Auth.Changes.{
  Change, add_organization, add_team, add_key, change_key, Changes, done, more, Anyone, Leaves,
  raised, left, Leaves-after, create_team-Leaves, create_api_key-Leaves,
}
use cortex_gateway.Auth.Effects.{after-Changes}

-- There is an organization, and stays one.
abbrev Founded : Database → Type 0
Founded db = organizations_exist db ≡ true

Change-Founded : {P : Text → Type 0} {db u : Database} → Change P db u → Founded db → Founded u
unfolding organizations_exist update_key
Change-Founded {db = db} (add_organization o fresh e) h =
    rw (e, length-append db.organizations (o ∷ [])) (ground (arith, h))
Change-Founded (add_team t fresh owned e) h = rw e h
Change-Founded (add_key k fresh owned p e) h = rw e h
Change-Founded (change_key k change m p keeps e) h = rw e h

Changes-Founded : {P : Text → Type 0} {db u : Database} → Changes P db u → Founded db → Founded u
Changes-Founded done h = h
Changes-Founded (more cs c) h = Change-Founded c (Changes-Founded cs h)

create_organization-Founded :
    (id : Text) (now : ℕ) (name slug : Text) (db : Database)
    → Leaves Founded (create_organization id now name slug db)
unfolding create_organization organizations_exist
create_organization-Founded id now name slug db =
    elim (Bool-cases
      (any (λ (o : Organization). text_eq o.id id || text_eq o.slug slug) db.organizations)) [
        | inl e ↦ rw e (raised _)
        | inr e ↦ rw e (
            left (
              rw
                (length-append db.organizations
                  (record { id = id; name = name; slug = slug; created_at = now } ∷ []))
                (ground arith)))
      ]

create_first-Founded :
    (env : Env) (d : Drawn) (body : BootstrapRequest) (db : Database)
    → Leaves Founded (create_first env d body db)
unfolding create_first
create_first-Founded env d body db =
    Leaves-after Founded Founded _ _
      (create_organization-Founded d.organization_id d.now body.organization_name
        body.organization_slug db)
      λ org u1 h1.
        Leaves-after Founded (Change Anyone u1) _ _
          (create_team-Leaves Anyone d.team_id d.now org.id body.team_name body.team_slug u1)
          λ team u2 c2.
            Leaves-after Founded (Change Anyone u2) _ _
              (create_api_key-Leaves Anyone env d.key_id d.now d.random_part team.id
                body.admin_key_name (codes "admin") none u2 tt)
              λ created u3 c3. left (Change-Founded c3 (Change-Founded c2 h1))

-- What an answer to the bootstrap endpoint says, by each of its guards.
commit-Founded :
    (db : Database) {r : Result (Answer × Database)}
    → Leaves Founded r
    → is_bootstrapped (commit db r).0 ≡ true
    → Founded (commit db r).1
unfolding commit
commit-Founded db (raised f) h = absurd (ground arith)
commit-Founded db (left founded) h = founded

after_exists :
    (exist : Bool) (db : Database) {m : Result (Answer × Database)}
    → is_bootstrapped
        (commit db (if exist then ok (Answer.bootstrap_already_completed, db) else m)).0
      ≡ true
    → Leaves Founded m
    → (exist ≡ false)
      × Founded (commit db (if exist then ok (Answer.bootstrap_already_completed, db) else m)).1
unfolding commit
after_exists true db h l = absurd (ground arith)
after_exists false db h l = (refl, commit-Founded db l h)

after_token :
    (check : Result (Unit {0})) (exist : Bool) (db : Database) {m : Result (Answer × Database)}
    → let r = check >> (if exist then ok (Answer.bootstrap_already_completed, db) else m) in
      is_bootstrapped (commit db r).0 ≡ true
      → Leaves Founded m
      → (exist ≡ false) × Founded (commit db r).1
unfolding commit ◌>>◌ ◌>>=◌
after_token (raises f) exist db h l = absurd (ground arith)
after_token (ok u) exist db h l = after_exists exist db h l

after_enabled :
    (disabled : Bool) (check : Result (Unit {0})) (exist : Bool) (db : Database)
    {m : Result (Answer × Database)}
    → let r =
        if disabled
        then ok (Answer.bootstrap_disabled, db)
        else check >> (if exist then ok (Answer.bootstrap_already_completed, db) else m) in
      is_bootstrapped (commit db r).0 ≡ true
      → Leaves Founded m
      → (exist ≡ false) × Founded (commit db r).1
unfolding commit
after_enabled true check exist db h l = absurd (ground arith)
after_enabled false check exist db h l = after_token check exist db h l

-- A successful bootstrap has found no organization, and leaves one.
serve_bootstrap-Founded :
    (env : Env) (d : Drawn) (credentials : Option Text) (body : BootstrapRequest) (db : Database)
    → is_bootstrapped (serve_bootstrap env d credentials body db).0 ≡ true
    → (organizations_exist db ≡ false) × Founded (serve_bootstrap env d credentials body db).1
unfolding serve_bootstrap bootstrap
serve_bootstrap-Founded env d credentials body db h =
    after_enabled (not env.cortex_bootstrap_enabled) (check_token env credentials)
      (organizations_exist db) db h (create_first-Founded env d body db)

-- No bootstrap succeeds once there is an organization.
bootstraps-none :
    (env : Env) (events : List Event) (db : Database) → Founded db → bootstraps env events db ≡ 0
unfolding bootstraps
bootstraps-none env [] db h = refl
bootstraps-none env (boot d credentials body ∷ rest) db h =
    let next =
      bootstraps-none env rest (after env (boot d credentials body) db)
        (Changes-Founded (after-Changes env (boot d credentials body) db) h) in
    elim (Bool-cases (is_bootstrapped (serve_bootstrap env d credentials body db).0)) [
      | inl e ↦ absurd (ground (arith, h, (serve_bootstrap-Founded env d credentials body db e).0))
      | inr e ↦ rw e (omega (arith, next))
    ]
bootstraps-none env (request d credentials r ∷ rest) db h =
    bootstraps-none env rest _ (Changes-Founded (after-Changes env (request d credentials r) db) h)
bootstraps-none env (used now key_id ∷ rest) db h =
    bootstraps-none env rest _ (Changes-Founded (after-Changes env (used now key_id) db) h)

-- In any history the bootstrap endpoint succeeds at most once.
pub bootstraps-le : (env : Env) (events : List Event) (db : Database) → bootstraps env events db ≤ 1
unfolding bootstraps after
bootstraps-le env [] db = omega arith
bootstraps-le env (boot d credentials body ∷ rest) db =
    elim (Bool-cases (is_bootstrapped (serve_bootstrap env d credentials body db).0)) [
      | inl e ↦
          rw
            (
              e,
              bootstraps-none env rest (after env (boot d credentials body) db)
                  (serve_bootstrap-Founded env d credentials body db e).1,
            )
            (omega arith)
      | inr e ↦
          rw e (omega (arith, bootstraps-le env rest (after env (boot d credentials body) db)))
    ]
bootstraps-le env (request d credentials r ∷ rest) db = bootstraps-le env rest _
bootstraps-le env (used now key_id ∷ rest) db = bootstraps-le env rest _
