-- ===== src/Auth/Found.antt =====
-- The row that an authentication finds, and the context that it makes of it.
use cortex_gateway.Prelude.{
  ℕ, ◌≡◌, refl, ap, ◌∙◌, Bool, true, false, Option, none, some, List, [], ◌∷◌, ◌++◌, arith, In,
  here, there, keep-In, All-In, Text, text_eq, text_eq_refl,
}
use cortex_gateway.Auth.{
  RequestContext, Organization, Team, ApiKey, Database, Failure, authentication, Result, ok, raises,
  ◌>>=◌, ◌>>◌, raise_if, is_active, Env, hash_api_key, scalar_one_or_none,
}
use cortex_gateway.Auth.Service.{
  organization_rows, team_rows, flat_map, joined, keys_by_hash, or_refused, get_team,
  get_organization, context_of, authenticate,
}
use cortex_gateway.Auth.Integrity.{IsValid}
use cortex_gateway.Auth.Tables.{keep-found, In-append}

-- The team of a key and the organization of that team are found, once each.
pub owners :
    (db : Database) (k : ApiKey)
    → IsValid db
    → In k db.api_keys
    → (t : Team) × (o : Organization) × (t.id ≡ k.team_id)
      × (o.id ≡ t.organization_id)
      × (team_rows k.team_id db ≡ t ∷ [])
      × (organization_rows t.organization_id db ≡ o ∷ [])
unfolding team_rows organization_rows
owners db k v m =
    let (t, tm, te, trows) =
      keep-found (λ (x : Team). x.id) k.team_id db.teams v.team_ids (All-In _ v.keys_owned m) in
    let (o, om, oe, orows) =
      keep-found (λ (x : Organization). x.id) t.organization_id db.organizations v.organization_ids
        (All-In _ v.teams_owned tm) in
    (t, o, te, oe, trows, orows)

pub joined-one : (db : Database) (k : ApiKey) → IsValid db → In k db.api_keys → joined db k ≡ k ∷ []
unfolding joined flat_map
joined-one db k v m = let (t, o, te, oe, trows, orows) = owners db k v m in rw (trows, orows)

-- The context is that of the key's team and its organization.
pub context_of_lem :
    (db : Database) (k : ApiKey)
    → IsValid db
    → In k db.api_keys
    → (t : Team) × (o : Organization) × (team_rows k.team_id db ≡ t ∷ [])
      × (organization_rows t.organization_id db ≡ o ∷ [])
      × (context_of k db
          ≡ ok record {
            organization_id = t.organization_id;
            team_id = k.team_id;
            api_key_id = k.id;
            role = k.role;
          })
unfolding context_of get_team get_organization scalar_one_or_none or_refused ◌>>=◌
context_of_lem db k v m =
    let (t, o, te, oe, trows, orows) = owners db k v m in
    (t, o, trows, orows, rw (trows, orows, te, oe))

In-skip : {B : Type 0} {b : B} (xs : List B) {ys : List B} → In b ys → In b (xs ++ ys)
In-skip [] m = m
In-skip (x ∷ xs) m = there (In-skip xs m)

In-flat_map :
    {A B : Type 0} (f : A → List B) {a : A} {b : B} {xs : List A}
    → In a xs
    → In b (f a)
    → In b (flat_map f xs)
unfolding flat_map
In-flat_map f (here {xs = xs}) m = In-append (flat_map f xs) m
In-flat_map f (there {x = x} n) m = In-skip (f x) (In-flat_map f n m)

pub keys_by_hash-In :
    (env : Env) (db : Database) (k : ApiKey) (plaintext : Text)
    → IsValid db
    → In k db.api_keys
    → k.key_hash ≡ hash_api_key env plaintext
    → In k (keys_by_hash (hash_api_key env plaintext) db)
unfolding keys_by_hash
keys_by_hash-In env db k plaintext v m e =
    In-flat_map (joined db)
      (keep-In (λ (x : ApiKey). text_eq x.key_hash (hash_api_key env plaintext)) m
        (rw e (text_eq_refl (hash_api_key env plaintext))))
      (rw (joined-one db k v m) here)

-- What a step that succeeds has gone through.
pub bind-ok :
    {A B : Type 0} {b : B} (m : Result A) (f : A → Result B)
    → m >>= f ≡ ok b
    → (a : A) × (m ≡ ok a) × (f a ≡ ok b)
unfolding ◌>>=◌
bind-ok (raises e) f h = absurd (ground arith)
bind-ok (ok a) f h = (a, refl, h)

pub guard-ok :
    {B : Type 0} {b : B} (test : Bool) (e : Failure) (m : Result B)
    → raise_if test e >> m ≡ ok b
    → (test ≡ false) × (m ≡ ok b)
unfolding ◌>>=◌ ◌>>◌ raise_if
guard-ok true e m h = absurd (ground arith)
guard-ok false e m h = (refl, h)

pub or_refused-ok : {A : Type 0} {a : A} (o : Option A) → or_refused o ≡ ok a → o ≡ some a
unfolding or_refused
or_refused-ok none h = absurd (ground arith)
or_refused-ok (some a) h = ground arith

pub one-ok : {A : Type 0} {a : A} (xs : List A) → scalar_one_or_none xs ≡ ok (some a) → xs ≡ a ∷ []
unfolding scalar_one_or_none
one-ok [] h = absurd (ground arith)
one-ok (a ∷ []) h = ground arith
one-ok (a ∷ b ∷ rest) h = absurd (ground arith)

-- What an authentication found when it succeeds.
pub authenticate-found :
    (env : Env) (now : ℕ) (plaintext : Text) (db : Database) {c : RequestContext}
    → authenticate env now plaintext db ≡ ok c
    → (k : ApiKey) × (keys_by_hash (hash_api_key env plaintext) db ≡ k ∷ [])
      × (is_active now k ≡ true)
      × (context_of k db ≡ ok c)
unfolding authenticate
authenticate-found env now plaintext db e =
    let (wellformed, e1) = guard-ok _ authentication _ e in
    let (found, scalar, e2) =
      bind-ok (scalar_one_or_none (keys_by_hash (hash_api_key env plaintext) db)) _ e1 in
    let (k, refused, e3) = bind-ok (or_refused found) _ e2 in
    let (verified, e4) = guard-ok _ authentication _ e3 in
    let (active, e5) = guard-ok _ authentication _ e4 in
    (
      k,
      one-ok (keys_by_hash (hash_api_key env plaintext) db)
          (scalar ∙ ap ok (or_refused-ok found refused)),
      ground (arith, active),
      e5,
    )

pub ok-injective : {A : Type 0} {a b : A} → ok a ≡ ok b → a ≡ b
ok-injective {a = a} e = ap (λ r. elim r [ ok x ↦ x | raises f ↦ a ]) e
