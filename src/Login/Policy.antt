-- ===== src/Login/Policy.antt =====
-- app/admin/users.py with the login: a tenant's demand for a second factor.
use lite_iam.Prelude.{◌≡◌, refl, Bool, true, some, ◌==◌, arith, ap, ◌∙◌, ◌⊎◌, inl, inr}
use lite_iam.Settings.{Settings}
use lite_iam.Login.{LoginRequest, LoginResponse, Services, login}
use lite_iam.Admin.Users.{set_tenant_mfa_policy}
use lite_iam.External.{External}
use lite_iam.Models.{User, Tenant}
use lite_iam.Database.{Db, get_session, get_tenant, open_session, ok}
use lite_iam.Database.Runs.{find-update_where}
use lite_iam.Login.Sound.{IsKeyed, IsTrusted, login_sound, IsAnswered, Same, pending_reply}

-- The tables after the policy was set.
abbrev pub with_policy : User → Bool → Db → Db
with_policy actor require_mfa db = (get_session (set_tenant_mfa_policy actor require_mfa) db).1

policy_is_stored :
    (actor : User) (require_mfa : Bool) (t : Tenant) (db : Db)
    → actor.is_superuser ≡ true
    → get_tenant actor.tenant_id db ≡ some t
    → get_tenant actor.tenant_id (with_policy actor require_mfa db)
      ≡ some (record t { require_mfa = require_mfa })
unfolding set_tenant_mfa_policy
policy_is_stored actor require_mfa t db super found = ground (
  arith,
  find-update_where (λ u. u.id == actor.tenant_id) (λ u. record u { require_mfa = require_mfa })
      db.tenants t (λ a. refl) found,
)

-- An account of a tenant with the demand, by the reply that it got.
bound :
    (x : External) (cfg : Settings) (services : Services) (request : LoginRequest) (db : Db)
    (u : User) (r : LoginResponse)
    → IsAnswered x cfg services request db u r
    → (t : Tenant) → get_tenant u.tenant_id db ≡ some t
    → t.require_mfa ≡ true
    → (u.is_totp_enabled ≡ true)
      × (IsTrusted x cfg services request db u
          ⊎ ((w : User) × Same x cfg services request db u w
              × (r ≡ pending_reply x cfg services request db w)))
bound x cfg services request db u r (w, same, inl (full, (device, policy))) t stored demands =
    let on = policy t stored demands in (on, inl (device on))
bound x cfg services request db u r (w, same, inr (pending, on)) t stored demands =
    (on, inr (w, same, pending))

-- After a superuser has demanded a second factor for its tenant, a login that returns has found an
-- account by the address, and if this is of the tenant, it has TOTP; and either it came from a
-- trusted device, or the reply is the one that carries no full token, only the account's pending
-- token. Conditions: the tenant is stored, and the lookup by address returns the row that stands
-- under its id.
pub policy_binds_login :
    (x : External) (cfg : Settings) (services : Services) (request : LoginRequest) (actor : User)
    (t : Tenant) (db : Db) (r : LoginResponse)
    → actor.is_superuser ≡ true
    → get_tenant actor.tenant_id db ≡ some t
    → let db' = with_policy actor true db in
      IsKeyed x cfg services request db'
      → (login x cfg services request (open_session db')).0 ≡ ok r
      → (u : User) × (services.get_by_email request.email db' ≡ some u)
        × (u.tenant_id ≡ actor.tenant_id
            → (u.is_totp_enabled ≡ true)
              × (IsTrusted x cfg services request db' u
                  ⊎ ((w : User) × Same x cfg services request db' u w
                      × (r ≡ pending_reply x cfg services request db' w))))
policy_binds_login x cfg services request actor t db r super found keyed returned =
    let db' = with_policy actor true db in
    let stored = policy_is_stored actor true t db super found in
    let (u, tenant, known, active, gate, (free, right, who, reply)) =
      login_sound x cfg services request db' r keyed returned in
    (
      u,
      known,
      λ own.
          bound x cfg services request db' u r reply (record t { require_mfa = true })
            (ap (λ n. get_tenant n db') own ∙ stored) refl,
    )
