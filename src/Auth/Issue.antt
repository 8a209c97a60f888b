-- ===== src/Auth/Issue.antt =====
-- The authentication of a key that has just been created.
use cortex_gateway.Prelude.{
  ℕ, ◌≡◌, refl, sym, ap, ◌∙◌, inl, inr, Bool, true, false, Option, none, some, List, [], ◌∷◌, ◌++◌,
  arith, ltb, if◌then◌else◌, Bool-cases, keep, any, In, Text, starts_with, text_eq, text_eq_refl,
}
use cortex_gateway.Auth.{
  RequestContext, Team, ApiKey, Database, Failure, authentication, Result, ok, raises, ◌>>=◌, ◌>>◌,
  raise_if, is_active, Env, generate_api_key, hash_api_key, verify_api_key, scalar_one_or_none,
  integrity,
}
use cortex_gateway.Auth.Service.{
  team_rows, create_api_key, new_key, flat_map, joined, keys_by_hash, or_refused, context_of,
  authenticate,
}
use cortex_gateway.Auth.Changes.{
  Change, done, more, Anyone, Leaves, raised, left, create_api_key-Leaves,
}
use cortex_gateway.Auth.Integrity.{IsValid, Changes-IsValid}
use cortex_gateway.Auth.Found.{joined-one, context_of_lem, ok-injective}
use cortex_gateway.Auth.Tables.{keep-append, keep-none, In-last, keep-one}

accepted :
    {A : Type 0} (b : Bool) (e : Failure) (a c : A) → (if b then raises e else ok a) ≡ ok c → a ≡ c
accepted true e a c h = absurd (ground arith)
accepted false e a c h = ok-injective h

-- What creating a key returns and leaves.
create_api_key-ok :
    (env : Env) (id : Text) (now : ℕ) (random_part team_id name role : Text) (expires_at : Option ℕ)
    (db u : Database) {k : ApiKey} {plaintext : Text}
    → create_api_key env id now random_part team_id name role expires_at db ≡ ok ((k, plaintext), u)
    → let key = new_key env id now (generate_api_key random_part) team_id name role expires_at in
      (plaintext ≡ generate_api_key random_part)
      × (k ≡ key)
      × (u ≡ record db { api_keys = db.api_keys ++ key ∷ [] })
unfolding create_api_key
create_api_key-ok env id now random_part team_id name role expires_at db u {k} {plaintext} e =
    let all = sym (accepted _ integrity _ _ e) in
    (
      ap (λ (x : (ApiKey × Text) × Database). x.0.1) all,
      ap (λ (x : (ApiKey × Text) × Database). x.0.0) all,
      ap (λ (x : (ApiKey × Text) × Database). x.1) all,
    )

created-IsValid :
    {u db : Database} {A : Type 0} {a : A} {r : Result (A × Database)}
    → IsValid db
    → Leaves (Change Anyone db) r
    → r ≡ ok (a, u)
    → IsValid u
created-IsValid v (raised f) q = absurd (ground arith)
created-IsValid {a = a} v (left change) q =
    rw (← ap (λ x. x.1) (ok-injective q)) (Changes-IsValid v (more done change))

-- A key authenticates when one row has its hash and the row is active.
pub authenticate-one :
    (env : Env) (now : ℕ) (random_part : Text) (db : Database) (k : ApiKey)
    → joined db k ≡ k ∷ []
    → text_eq (hash_api_key env (generate_api_key random_part)) k.key_hash ≡ true
    → keep
        (λ (x : ApiKey). text_eq x.key_hash (hash_api_key env (generate_api_key random_part)))
        db.api_keys
      ≡ k ∷ []
    → authenticate env now (generate_api_key random_part) db
      ≡ (if is_active now k then context_of k db else raises authentication)
unfolding authenticate keys_by_hash flat_map scalar_one_or_none or_refused ◌>>=◌ ◌>>◌ raise_if
    verify_api_key generate_api_key starts_with
authenticate-one env now random_part db k one e rows = elim (Bool-cases (is_active now k)) [
  | inl active ↦ rw (rows, one, e, active)
  | inr off ↦ rw (rows, one, e, off)
]

-- The rows with the hash of a new key, when it was in no row before.
only_new :
    (env : Env) (db : Database) (key : ApiKey) (hash : Text)
    → key.key_hash ≡ hash
    → any (λ (x : ApiKey). text_eq x.key_hash hash) db.api_keys ≡ false
    → keep (λ (x : ApiKey). text_eq x.key_hash hash) (db.api_keys ++ key ∷ []) ≡ key ∷ []
only_new env db key hash e fresh = rw (
  keep-append (λ (x : ApiKey). text_eq x.key_hash hash) db.api_keys (key ∷ []),
  keep-none (λ (x : ApiKey). text_eq x.key_hash hash) db.api_keys fresh,
  e,
  text_eq_refl hash,
)

authenticate_added :
    (env : Env) (db : Database) (t : Team) (id random_part name role : Text) (now later : ℕ)
    (expires_at : Option ℕ)
    → let u : Database = record db {
      api_keys =
          db.api_keys
          ++ new_key env id now (generate_api_key random_part) t.id name role expires_at ∷ [];
    } in
      IsValid u
      → In t db.teams
      → any
          (λ (x : ApiKey). text_eq x.key_hash (hash_api_key env (generate_api_key random_part)))
          db.api_keys
        ≡ false
      → authenticate env later (generate_api_key random_part) u ≡ (
          if elim expires_at [ some e ↦ ltb later e | none ↦ true ]
          then ok record {
            organization_id = t.organization_id;
            team_id = t.id;
            api_key_id = id;
            role = role;
          }
          else raises authentication)
unfolding is_active new_key team_rows
authenticate_added env db t id random_part name role now later expires_at v m fresh =
    let key : ApiKey =
      new_key env id now (generate_api_key random_part) t.id name role expires_at in
    let u : Database = record db { api_keys = db.api_keys ++ key ∷ [] } in
    let n : In key u.api_keys = In-last key db.api_keys in
    let (t', o, trows, orows, ctx) = context_of_lem u key v n in
    let same : t'.organization_id ≡ t.organization_id =
      ap (λ (xs : List Team). elim xs [ [] ↦ [] | x ∷ rest ↦ x.organization_id ])
        (sym trows ∙ keep-one (λ (x : Team). x.id) v.team_ids m) in
    authenticate-one env later random_part u key (joined-one u key v n)
      (text_eq_refl (hash_api_key env (generate_api_key random_part)))
      (only_new env db key (hash_api_key env (generate_api_key random_part)) refl fresh)
    ∙ ap (λ (r : Result RequestContext). if is_active later key then r else raises authentication)
        (ctx
          ∙ ap
              (λ (o : Text).
                ok record { organization_id = o; team_id = t.id; api_key_id = id; role = role })
              same)

-- From its creation until it expires, the returned plaintext authenticates as the team for which it
-- was created, the organization of that team, the key and its role; from its expiry on it is
-- refused. The hash of the plaintext is in no row of the database before.
pub created_key_authenticates :
    (env : Env) (db u : Database) (t : Team) (k : ApiKey)
    (plaintext id random_part name role : Text) (now later : ℕ) (expires_at : Option ℕ)
    → IsValid db
    → In t db.teams
    → any (λ (x : ApiKey). text_eq x.key_hash (hash_api_key env plaintext)) db.api_keys ≡ false
    → create_api_key env id now random_part t.id name role expires_at db ≡ ok ((k, plaintext), u)
    → authenticate env later plaintext u ≡ (
        if elim expires_at [ some e ↦ ltb later e | none ↦ true ]
        then ok record {
          organization_id = t.organization_id;
          team_id = t.id;
          api_key_id = id;
          role = role;
        }
        else raises authentication)
unfolding is_active
created_key_authenticates env db u t k plaintext id random_part name role now later expires_at v m
      fresh e =
    let (pe, ke, ue) = create_api_key-ok env id now random_part t.id name role expires_at db u e in
    let valid =
      created-IsValid v
        (create_api_key-Leaves Anyone env id now random_part t.id name role expires_at db tt) e in
    rw (pe, ue)
      (authenticate_added env db t id random_part name role now later expires_at (rw ue at valid) m
        (rw pe at fresh))
