-- ===== src/Login/Lockout.antt =====
-- The lockout of `login`, and the alert on a new address.
use lite_iam.Prelude.{
  Text, ℕ, ◌+◌, ◌-◌, ◌<◌, ◌≤◌, ◌≡◌, refl, false, Option, none, some, [], arith, leb, if◌then◌else◌,
  ap, ◌==◌, ◌&&◌, ◌∙◌,
}
use lite_iam.Models.{User, Tenant}
use lite_iam.Settings.{Settings}
use lite_iam.External.{External}
use lite_iam.Database.{Db, Session, ok, err, http, http_retry, get_user, get_session, open_session}
use lite_iam.Database.Runs.{get_user-update}
use lite_iam.Login.{
  LoginRequest, Services, lockout_seconds, max_failures, active_tenant, logged_in, explicit_tenant,
  resolved, refuse, resolve, gate, check_lockout, check_password, record_success, login, is_new_ip,
  true, check_ip_policy, find,
}
use lite_iam.Login.Sound.{PassesGate}

module _ (x : External) (cfg : Settings) (services : Services) (request : LoginRequest)
    (db : Db) where
  -- The request names this account and no tenant, and passes the gates before the lockout.
  abbrev pub Reaches : User → Tenant → Type 0
  Reaches u t =
      (request.tenant_id ≡ none)
      × (request.within_limit ≡ true)
      × (services.get_by_email request.email db ≡ some u)
      × (active_tenant x cfg services request (some u.tenant_id) db ≡ some t)
      × PassesGate x cfg services request db u t

  -- The stages before the lockout then pass.
  resolve_finds :
      (u : User) (t : Tenant)
      → Reaches u t
      → resolve x cfg services request (open_session db) ≡ (ok (u, t), open_session db)
  unfolding resolve explicit_tenant resolved refuse
  resolve_finds u t (no_tenant, allowed, found, active, passed) = ground arith

  gate_passes :
      (u : User) (t : Tenant) (s : Session)
      → PassesGate x cfg services request db u t
      → gate x cfg services request u t s ≡ (ok tt, s)
  unfolding gate
  gate_passes u t s passed = ground arith

  -- The row after a wrong password.
  abbrev pub counted : ℕ → User → User
  counted count u = record u {
    failed_login_count = count + 1;
    locked_until =
        if leb max_failures (count + 1) then some (request.now + lockout_seconds) else none;
  }

-- While a lockout runs, a login is refused with the seconds that are left, whatever the password,
-- and its request changes no table.
pub locked_out :
    (x : External) (cfg : Settings) (services : Services) (request : LoginRequest) (db : Db)
    (u : User) (t : Tenant) (until : ℕ)
    → Reaches x cfg services request db u t
    → u.locked_until ≡ some until
    → request.now < until
    → get_session (login x cfg services request) db
      ≡ (err (http_retry 423 (until - request.now)), db)
unfolding login resolve explicit_tenant resolved refuse gate check_lockout
locked_out x cfg services request db u t until (no_tenant, allowed, found, active, passed) locked
      early =
    ground arith

-- A wrong password on an account that is not locked is answered with 400 and counted in the
-- account's row; from the fifth on the row is locked for 900 seconds.
pub wrong_password_counts :
    (x : External) (cfg : Settings) (services : Services) (request : LoginRequest) (db : Db)
    (u : User) (t : Tenant)
    → Reaches x cfg services request db u t
    → get_user u.id db ≡ some u
    → u.locked_until ≡ none
    → x.argon2_verify u.hashed_password request.password ≡ false
    → let (r, db') = get_session (login x cfg services request) db in
      (r ≡ err (http 400 "Invalid email or password"))
      × (get_user u.id db' ≡ some (counted x cfg services request db u.failed_login_count u))
unfolding login check_lockout check_password resolve gate
wrong_password_counts x cfg services request db u t reach row free wrong =
    rw
      (
        reach.1,
        resolve_finds x cfg services request db u t reach,
        gate_passes x cfg services request db u t (open_session db) reach.4,
        free,
        wrong,
      )
      (
        refl,
        get_user-update (counted x cfg services request db u.failed_login_count) u.id db.users u
            (λ a. refl) row,
      )

same_ip :
    (x : External) (cfg : Settings) (services : Services) (request : LoginRequest)
    (ip : Option Text)
    → is_new_ip x cfg services request ip ip ≡ false
same_ip x cfg services request none = refl
same_ip x cfg services request (some ip) = ground arith

-- After a right password, whatever address the account had before, the row gets the new address and
-- its counters reset where they were set, and neither the new-address alert is sent nor an audit
-- row written.
pub record_success_silent :
    (x : External) (cfg : Settings) (services : Services) (request : LoginRequest) (db : Db)
    (u : User)
    → get_user u.id db ≡ some u
    → let (r, s) = record_success x cfg services request u (open_session db) in
      (r ≡ ok (logged_in x cfg services request u u))
      × (get_user u.id s.saved ≡ some (logged_in x cfg services request u u))
      × (s.live.audit ≡ db.audit)
      × (s.spawned ≡ [])
unfolding record_success
record_success_silent x cfg services request db u row =
    let stored =
      get_user-update (logged_in x cfg services request u) u.id db.users u (λ a. refl) row in
    rw (stored, same_ip x cfg services request request.ip_address) (refl, stored, refl, refl)

-- A wrong password changes no tenant.
wrong_password-tenants :
    (x : External) (cfg : Settings) (services : Services) (request : LoginRequest) (db : Db)
    (u : User) (t : Tenant)
    → Reaches x cfg services request db u t
    → u.locked_until ≡ none
    → x.argon2_verify u.hashed_password request.password ≡ false
    → (get_session (login x cfg services request) db).1.tenants ≡ db.tenants
unfolding login check_lockout check_password resolve gate
wrong_password-tenants x cfg services request db u t reach free wrong =
    rw
      (
        reach.1,
        resolve_finds x cfg services request db u t reach,
        gate_passes x cfg services request db u t (open_session db) reach.4,
        free,
        wrong,
      )
      refl

-- Take a request that names no tenant and reaches the password check of an account that is not
-- locked and has at least four failures, with a wrong password. Then every later login for the
-- account before 900 seconds have passed is refused with 423 and the seconds that are left,
-- whatever its password, and its request changes no table. Conditions: the account's row is stored
-- under its id; the later login is within the rate limit, names no tenant, and is let in by the IP
-- policy of the account's tenant; and its lookup by address returns the row that is then stored
-- under the account's id.
pub fifth_failure_locks :
    (x : External) (cfg : Settings) (services : Services) (request later : LoginRequest) (db : Db)
    (u : User) (t : Tenant)
    → Reaches x cfg services request db u t
    → get_user u.id db ≡ some u
    → u.locked_until ≡ none
    → 4 ≤ u.failed_login_count
    → x.argon2_verify u.hashed_password request.password ≡ false
    → let db' = (get_session (login x cfg services request) db).1 in
      services.get_by_email later.email db' ≡ get_user u.id db'
      → later.tenant_id ≡ none
      → later.within_limit ≡ true
      → (check_ip_policy x later.ip_address t).0 ≡ true
      → later.now < request.now + lockout_seconds
      → get_session (login x cfg services later) db'
        ≡ (err (http_retry 423 (request.now + lockout_seconds - later.now)), db')
fifth_failure_locks x cfg services request later db u t reach row free many wrong keyed no_tenant
      allowed admitted early =
    let (no_tenant', allowed', found, active, (is_active, admitted', verified)) = reach in
    let db' = (get_session (login x cfg services request) db).1 in
    let (refused, stored) =
      wrong_password_counts x cfg services request db u t reach row free wrong in
    let tenants = wrong_password-tenants x cfg services request db u t reach free wrong in
    let active' = ap (find (λ t. (t.id == u.tenant_id) && t.is_active)) tenants ∙ active in
    locked_out x cfg services later db' (counted x cfg services request db u.failed_login_count u) t
      (request.now + lockout_seconds)
      (no_tenant, allowed, keyed ∙ stored, active', (is_active, admitted, verified)) (ground arith)
      early
