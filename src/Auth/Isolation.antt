-- ===== src/Auth/Isolation.antt =====
-- Who can change the keys of a team.
use cortex_gateway.Prelude.{
  In-uncons, ◌≡◌, refl, sym, ◌∙◌, ◌⊎◌, inl, inr, Bool, true, false, ◌&&◌, Option, List, [], ◌∷◌,
  map, arith, Bool-cases, and_true, keep, In, here, there, keep-In, Text, codes, text_eq,
  text_eq_iff, text_eq_refl,
}
use mathlib.Core.List.{append-nil}
use cortex_gateway.Auth.{RequestContext, ApiKey, Database, Env, Result, ok, raises}
use cortex_gateway.Auth.Service.{team_keys, update_key}
use cortex_gateway.Auth.Endpoints.{Drawn, Request, get_request_context, serve}
use cortex_gateway.Auth.Changes.{
  Change, add_organization, add_team, add_key, change_key, Changes, done, more,
}
use cortex_gateway.Auth.Integrity.{IsValid, Changes-IsValid}
use cortex_gateway.Auth.Effects.{serve-Changes}
use cortex_gateway.Auth.Tables.{keep-one, keep-append}
use cortex_gateway.Auth.Found.{ok-injective}

-- A change of rows that the test rejects before and after is not seen behind the test.
keep-map :
    {A : Type 0} (test : A → Bool) (g : A → A) (xs : List A)
    → ((x : A) → In x xs → (g x ≡ x) ⊎ ((test x ≡ false) × (test (g x) ≡ false)))
    → keep test (map g xs) ≡ keep test xs
keep-map test g [] h = refl
keep-map test g (x ∷ xs) h = elim (h x here) [
  | inl e ↦ rw (e, keep-map test g xs (λ y m. h y (there m)))
  | inr (e, f) ↦ rw (e, f, keep-map test g xs (λ y m. h y (there m)))
]

Unique-same :
    (db : Database) {k l : ApiKey}
    → IsValid db
    → In k db.api_keys
    → In l db.api_keys
    → l.id ≡ k.id
    → l ≡ k
Unique-same db {k} {l} v m n e =
    elim (In-uncons (
      rw (keep-one (λ (x : ApiKey). x.id) v.key_ids m) at
        (keep-In (λ (x : ApiKey). text_eq x.id k.id) n (rw e (text_eq_refl k.id))))) [
          | inl same ↦ sym same
          | inr none_left ↦ elim none_left [ ]
        ]

module _ (team : Text) where
  abbrev Other : Text → Type 0
  Other t = text_eq t team ≡ false

  Change-Other :
      {db u : Database} → IsValid db → Change Other db u → team_keys team u ≡ team_keys team db
  unfolding team_keys update_key
  Change-Other v (add_organization o fresh e) = rw e refl
  Change-Other v (add_team t fresh owned e) = rw e refl
  Change-Other {db} v (add_key k fresh owned p e) =
      rw (e, keep-append (λ (x : ApiKey). text_eq x.team_id team) db.api_keys (k ∷ []), p)
        (append-nil (keep (λ (x : ApiKey). text_eq x.team_id team) db.api_keys))
  Change-Other {db} v (change_key k change m p keeps e) = rw e (
      keep-map _ _ db.api_keys (λ l n. elim (Bool-cases (text_eq l.id k.id)) [
        | inl same ↦ inr (
            rw (Unique-same db v m n ((text_eq_iff l.id k.id).0 same))
              (p, rw (text_eq_refl k.id, (keeps k).team_id) p))
        | inr other ↦ inl (rw other)
      ]))

  Changes-Other :
      {db u : Database} → IsValid db → Changes Other db u → team_keys team u ≡ team_keys team db
  Changes-Other v done = refl
  Changes-Other v (more cs c) = Change-Other (Changes-IsValid v cs) c ∙ Changes-Other v cs

-- A request leaves the keys of a team as they are, or it carries an active key of an admin of that
-- very team. The write of `last_used_at` that a request starts, and the bootstrap, are events of
-- their own and no part of this request.
pub keys_change_by_own_admin :
    (env : Env) (d : Drawn) (credentials : Option Text) (r : Request) (db : Database) (team : Text)
    → IsValid db
    → (team_keys team (serve env d credentials r db).1 ≡ team_keys team db)
      ⊎ ((c : RequestContext) × (get_request_context env d.now credentials db ≡ ok c)
          × (c.team_id ≡ team)
          × (c.role ≡ codes "admin"))
keys_change_by_own_admin env d credentials r db team v =
    go (get_request_context env d.now credentials db) refl
  where
    not_own :
        {c : RequestContext} (c' : RequestContext)
        → c ≡ c'
        → (text_eq c.team_id team && text_eq c.role (codes "admin")) ≡ false
        → text_eq c'.role (codes "admin") ≡ true
        → text_eq c'.team_id team ≡ false
    not_own c' same h admin = ground (arith, rw same at h)

    go :
        (found : Result RequestContext)
        → get_request_context env d.now credentials db ≡ found
        → (team_keys team (serve env d credentials r db).1 ≡ team_keys team db)
          ⊎ ((c : RequestContext) × (get_request_context env d.now credentials db ≡ ok c)
              × (c.team_id ≡ team)
              × (c.role ≡ codes "admin"))
    go (raises f) e = inl (
        Changes-Other team v (
          serve-Changes (Other team) env d db credentials r
            (λ c q admin. absurd (ground (arith, e, q)))))
    go (ok c) e = elim (Bool-cases (text_eq c.team_id team && text_eq c.role (codes "admin"))) [
      | inl both ↦
          let (own, admin) = and_true _ _ both in
          inr
            (c, e, (text_eq_iff c.team_id team).0 own, (text_eq_iff c.role (codes "admin")).0 admin)
      | inr not_both ↦ inl (
          Changes-Other team v (
            serve-Changes (Other team) env d db credentials r
              (λ c' q admin. not_own c' (ok-injective (sym e ∙ q)) not_both admin)))
    ]
