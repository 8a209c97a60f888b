-- ===== src/Auth/Integrity.antt =====
-- The integrity of the database: identifiers are unique, and the organization of each team and the
-- team of each key exist.
use cortex_gateway.Prelude.{
  All, ◌≡◌, refl, inl, inr, false, List, [], ◌∷◌, ◌++◌, if◌then◌else◌, Bool-cases, keep, is_empty,
  Text, text_eq,
}
use cortex_gateway.Auth.{Organization, Team, ApiKey, Database, Env}
use cortex_gateway.Auth.Service.{organization_rows, team_rows, update_key}
use cortex_gateway.Auth.Endpoints.{Event, after, run}
use cortex_gateway.Auth.Changes.{
  Change, add_organization, add_team, add_key, change_key, Changes, done, more, Evolves,
}
use cortex_gateway.Auth.Effects.{after-Changes}
use cortex_gateway.Auth.Tables.{
  Unique, Unique-append, Unique-map, keep-append, All-map, All-image, is_empty-append, All-append,
}

pub record IsValid (db : Database) : Type 0 where
  pub organization_ids : Unique (λ (o : Organization). o.id) db.organizations
  pub team_ids : Unique (λ (t : Team). t.id) db.teams
  pub key_ids : Unique (λ (k : ApiKey). k.id) db.api_keys
  pub teams_owned :
      All (λ (t : Team). is_empty (organization_rows t.organization_id db) ≡ false) db.teams
  pub keys_owned : All (λ (k : ApiKey). is_empty (team_rows k.team_id db) ≡ false) db.api_keys

abbrev changed : Text → (ApiKey → ApiKey) → ApiKey → ApiKey
changed id change k = if text_eq k.id id then change k else k

pub changed-Evolves :
    (id : Text) (change : ApiKey → ApiKey)
    → ((x : ApiKey) → Evolves x (change x))
    → (k : ApiKey) → Evolves k (changed id change k)
changed-Evolves id change keeps k = elim (Bool-cases (text_eq k.id id)) [
  | inl e ↦ rw e (keeps k)
  | inr e ↦ rw e record {
    id = refl;
    team_id = refl;
    key_hash = refl;
    role = refl;
    expires_at = refl;
    revoked = λ r. r;
  }
]

organization_rows-add :
    (id : Text) (o : Organization) (db : Database)
    → is_empty (organization_rows id db) ≡ false
    → is_empty (organization_rows id (record db { organizations = db.organizations ++ o ∷ [] }))
      ≡ false
unfolding organization_rows
organization_rows-add id o db h =
    rw (keep-append (λ (x : Organization). text_eq x.id id) db.organizations (o ∷ []))
      (is_empty-append (keep (λ (x : Organization). text_eq x.id id) db.organizations) _ h)

team_rows-add :
    (id : Text) (t : Team) (db : Database)
    → is_empty (team_rows id db) ≡ false
    → is_empty (team_rows id (record db { teams = db.teams ++ t ∷ [] })) ≡ false
unfolding team_rows
team_rows-add id t db h =
    rw (keep-append (λ (x : Team). text_eq x.id id) db.teams (t ∷ []))
      (is_empty-append (keep (λ (x : Team). text_eq x.id id) db.teams) _ h)

update_key-IsValid :
    (db : Database)
    → IsValid db
    → (id : Text) (change : ApiKey → ApiKey) → ((x : ApiKey) → Evolves x (change x))
    → IsValid (update_key id change db)
unfolding update_key organization_rows team_rows
update_key-IsValid db v id change keeps = record {
  organization_ids = v.organization_ids;
  team_ids = v.team_ids;
  key_ids =
      Unique-map (λ (k : ApiKey). k.id) (changed id change) db.api_keys
        (λ k. (changed-Evolves id change keeps k).id) v.key_ids;
  teams_owned = v.teams_owned;
  keys_owned =
      All-image (λ (k : ApiKey). is_empty (team_rows k.team_id db) ≡ false) (changed id change)
        db.api_keys (λ k h. rw ((changed-Evolves id change keeps k).team_id) h) v.keys_owned;
}

module _ {P : Text → Type 0} where
  Change-IsValid : {db u : Database} → IsValid db → Change P db u → IsValid u
  unfolding team_rows organization_rows
  Change-IsValid {db} v (add_organization o fresh e) = rw e record {
    organization_ids =
        Unique-append (λ (x : Organization). x.id) db.organizations o fresh v.organization_ids;
    team_ids = v.team_ids;
    key_ids = v.key_ids;
    teams_owned =
        All-map _ _ db.teams (λ (t : Team). organization_rows-add t.organization_id o db)
          v.teams_owned;
    keys_owned = v.keys_owned;
  }
  Change-IsValid {db} v (add_team t fresh owned e) = rw e record {
    organization_ids = v.organization_ids;
    team_ids = Unique-append (λ (x : Team). x.id) db.teams t fresh v.team_ids;
    key_ids = v.key_ids;
    teams_owned = All-append _ db.teams v.teams_owned owned;
    keys_owned =
        All-map _ _ db.api_keys (λ (k : ApiKey). team_rows-add k.team_id t db) v.keys_owned;
  }
  Change-IsValid {db} v (add_key k fresh owned p e) = rw e record {
    organization_ids = v.organization_ids;
    team_ids = v.team_ids;
    key_ids = Unique-append (λ (x : ApiKey). x.id) db.api_keys k fresh v.key_ids;
    teams_owned = v.teams_owned;
    keys_owned = All-append _ db.api_keys v.keys_owned owned;
  }
  Change-IsValid {db} v (change_key k change m p keeps e) =
      rw e (update_key-IsValid db v k.id change keeps)

  pub Changes-IsValid : {db u : Database} → IsValid db → Changes P db u → IsValid u
  Changes-IsValid v done = v
  Changes-IsValid v (more cs c) = Change-IsValid (Changes-IsValid v cs) c

-- Every event keeps identifiers unique and every team and key owned.
pub run-IsValid :
    (env : Env) (events : List Event) (db : Database) → IsValid db → IsValid (run env events db)
unfolding run
run-IsValid env [] db v = v
run-IsValid env (e ∷ rest) db v =
    run-IsValid env rest (after env e db) (Changes-IsValid v (after-Changes env e db))
