-- ===== src/Admin/Users/Impersonation.antt =====
-- app/admin/users.py: whom an administrator can act as, and what the token says.
use lite_iam.Prelude.{
  ℕ, Text, ◌+◌, ◌≡◌, ◌≢◌, refl, true, false, Option, some, arith, lookup, ap, ◌==◌,
}
use lite_iam.Literals
use lite_iam.Tokens.{write_token, Keys, Stamp, TenantRecord, Claims, token_payload}
use lite_iam.External.{External}
use lite_iam.Settings.{Settings}
use lite_iam.Models.{User}
use lite_iam.Database.{Db, get_session, ok, Session, open_session, Result, ◌>>◌, ◌>>=◌}
use lite_iam.Admin.Users.{
  impersonate_user, impersonation_ttl, impersonation_claims, find, is_target, impersonable,
  impersonate, String, raise_if, target_of, http, Handler, gets, not, pure, or_raise,
}
use lite_iam.Database.Runs.{find_holds, bind_ok, raise_if_ok, or_raise_ok}

-- An account of the tenant that the administrator may act as.
abbrev pub IsOrdinary : User → ℕ → Db → User → Type 0
IsOrdinary actor user_id db target =
    (find (is_target user_id actor.tenant_id) db.users ≡ some target)
    × (target.id ≢ actor.id)
    × (target.tenant_id ≡ actor.tenant_id)
    × (target.is_superuser ≡ false)
    × (target.is_active ≡ true)

ok_of : {A : Type 0} {a b : A} → Path (Result A) (ok a) (ok b) → a ≡ b
ok_of same = cc same

target_of_ok :
    (actor : User) (user_id : ℕ) (own : String) (db : Db) (t : User)
    → (target_of actor user_id own (open_session db)).0 ≡ ok t
    → (actor.is_superuser ≡ true)
      × ((user_id == actor.id) ≡ false)
      × (find (is_target user_id actor.tenant_id) db.users ≡ some t)
target_of_ok actor user_id own db t done =
    let e = http 404 "User not found in your tenant" in
    let lookup_target : Handler User =
      gets (λ d. find (is_target user_id actor.tenant_id) d.users) >>= λ found. or_raise found e in
    let (super, guarded) =
      raise_if_ok (not actor.is_superuser) (http 403 "Superuser access required")
        (raise_if (user_id == actor.id) (http 400 own) >> lookup_target) (open_session db) t done in
    let (other, looked_up) =
      raise_if_ok (user_id == actor.id) (http 400 own) lookup_target (open_session db) t guarded in
    (
      ground arith,
      other,
      or_raise_ok (find (is_target user_id actor.tenant_id) db.users) e (open_session db) t
          looked_up,
    )

-- The last two guards.
permitted :
    (s : Session) (t target : User)
    → ((raise_if t.is_superuser (http 403 "Superusers cannot impersonate other superusers")
          >> (raise_if (not t.is_active) (http 400 "Cannot impersonate an inactive user")
              >> pure t))
        s).0
      ≡ ok target
    → (t.is_superuser ≡ false) × (t.is_active ≡ true) × (t ≡ target)
permitted s t target done =
    let last =
      raise_if (not t.is_active) (http 400 "Cannot impersonate an inactive user") >> pure t in
    let (ordinary, rest) =
      raise_if_ok t.is_superuser (http 403 "Superusers cannot impersonate other superusers") last s
        target done in
    let (active, returned) =
      raise_if_ok (not t.is_active) (http 400 "Cannot impersonate an inactive user") (pure t) s
        target rest in
    (ordinary, ground arith, ok_of returned)

impersonable_ok :
    (actor : User) (user_id : ℕ) (db : Db) (target : User)
    → (impersonable actor user_id (open_session db)).0 ≡ ok target
    → (actor.is_superuser ≡ true) × IsOrdinary actor user_id db target
unfolding impersonable
impersonable_ok actor user_id db target done =
    let (t, s, ran, rest) =
      bind_ok (target_of actor user_id "Cannot impersonate yourself") _ (open_session db) target
        done in
    let (super, other, found) = target_of_ok actor user_id _ db t (ap (λ r. r.0) ran) in
    let (ordinary, active, same) = permitted s t target rest in
    let passes = find_holds (is_target user_id actor.tenant_id) db.users t found in
    let elsewhere : t.id ≢ actor.id = ground arith in
    let inside : t.tenant_id ≡ actor.tenant_id = ground arith in
    (super, rw⁻¹ same (found, elsewhere, inside, ordinary, active))

module _ (x : External) (cfg : Settings) (keys : Keys) (stamp : Stamp) (tenant : TenantRecord)
    (shown : Text) (ip_address : Option Text) (actor : User) (user_id : ℕ) (db : Db) where
  -- The claims of the token.
  abbrev pub claims_for : User → Claims
  claims_for target =
      token_payload x cfg keys stamp tenant (some impersonation_ttl)
        (impersonation_claims x shown actor) target

  -- The token that is written for an account.
  abbrev pub token_for : User → Text
  token_for target =
      write_token x cfg keys stamp tenant (some impersonation_ttl)
        (impersonation_claims x shown actor) target

  -- It is for the account, for an hour, and names the administrator, whatever the tenant's claims.
  abbrev pub Says : User → Type 0
  Says target =
      (token_for target ≡ x.jwt_encode keys.private_pem keys.kid (claims_for target))
      × (lookup Literals.sub (claims_for target) ≡ some (x.str_uuid target.id))
      × (lookup Literals.exp (claims_for target) ≡ some (stamp.now + impersonation_ttl))
      × (lookup Literals.impersonator_id (claims_for target) ≡ some (x.str_uuid actor.id))

  token_for-Says : (target : User) → Says target
  unfolding write_token
  token_for-Says target = (refl, refl, refl, refl)

  impersonate_ok :
      (s : Session) (target : User) (token : Text)
      → (impersonate x cfg keys stamp tenant shown ip_address actor target s).0 ≡ ok token
      → token ≡ token_for target
  unfolding impersonate
  impersonate_ok s target token done = ground arith

  -- If an impersonation returns a token, the actor is a superuser and the target is another account
  -- of its tenant, active and no superuser. The token is the one signed for the target: it names
  -- the target as its subject and the actor as impersonator and expires an hour later, whatever
  -- custom claims the tenant has.
  pub impersonation_sound :
      (token : Text)
      → (get_session (impersonate_user x cfg keys stamp tenant shown ip_address actor user_id) db).0
        ≡ ok token
      → (actor.is_superuser ≡ true)
        × ((target : User) × IsOrdinary actor user_id db target
            × (token ≡ token_for target)
            × Says target)
  unfolding impersonate_user
  impersonation_sound token done =
      let (target, s, ran, rest) =
        bind_ok (impersonable actor user_id)
          (impersonate x cfg keys stamp tenant shown ip_address actor) (open_session db) token
          done in
      let (super, ordinary) = impersonable_ok actor user_id db target (ap (λ r. r.0) ran) in
      (super, (target, ordinary, impersonate_ok s target token rest, token_for-Says target))
