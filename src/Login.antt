-- ===== src/Login.antt =====
-- `login` of app/api/v1/auth.py: password login with the gates before it, the lockout, and the
-- step-up to the second factor. The handler is cut into the stages that its comments name.
--
-- `get_by_email` is the lookup of fastapi-users. Metrics and the constant-time dummy check change no
-- state and are left out. An UPDATE through the session also refreshes the loaded `user` object
-- (SQLAlchemy's `synchronize_session`), so what the handler reads from it afterwards is the new row.
pub mod Stages
pub mod Sound
mod Lockout
mod Policy
mod Tests
use lite_iam.Prelude.{
  ℕ, suc, Text, ◌+◌, ◌-◌, Bool, true, false, not, ◌&&◌, ◌||◌, Option, none, some, ltb, leb, ◌==◌,
  if◌then◌else◌, truthy, truthy?, is_some, find, bind?,
}
use lite_iam.Models.{User, Tenant, user_login_failed, user_login_new_ip, token_issued}
use lite_iam.Settings.{Settings}
use lite_iam.External.{External}
use lite_iam.Database.{
  Db, Handler, http, http_retry, internal, pure, raise, gets, or_raise, raise_if, when, commit,
  emit, get_user, get_tenant, update_user, spawn, new_ip_login_alert, record_login, ◌>>=◌, ◌>>◌,
}
use lite_iam.IpPolicy.{check_ip_policy}
use lite_iam.Devices.{is_trusted_device}
use lite_iam.Mfa.{requires_mfa}

abbrev pub max_failures : ℕ
max_failures = 5

abbrev pub lockout_seconds : ℕ
lockout_seconds = 900

pub record LoginRequest : Type 0 where
  pub email : Text
  pub password : Text
  pub tenant_id : Option Text
  pub ip_address : Option Text
  pub device_cookie : Option Text
  -- Whether slowapi's limit of 10 a minute lets the request in.
  pub within_limit : Bool
  pub now : ℕ

pub data AuthStage : Type 0 where
  complete mfa_pending : AuthStage

pub record LoginResponse : Type 0 where
  pub access_token : Text
  pub auth_stage : AuthStage
  pub user_id : ℕ

-- What the handler calls outside this component: the lookup and the two signers.
pub record Services : Type 0 where
  pub get_by_email : Text → Db → Option User
  pub write_token : User → Text
  pub write_mfa_pending_token : User → Text

module _ (x : External) (cfg : Settings) (services : Services) (request : LoginRequest) where
  -- `uuid.UUID(body.tenant_id)` where a tenant is named
  explicit_tenant : Option Text → Handler (Option ℕ)
  explicit_tenant none = pure none
  explicit_tenant (some tenant_id) =
      if truthy tenant_id
      then elim (x.as_uuid tenant_id) [
        | none ↦ raise (http 400 "Invalid tenant_id")
        | some id ↦ pure (some id)
      ]
      else pure none

  -- The failed login is recorded, and the caller learns nothing more.
  refuse : Option ℕ → Option ℕ → Handler (User × Tenant)
  refuse tenant_id subject_id = do
    emit user_login_failed tenant_id subject_id request.ip_address
    raise (http 400 "Invalid email or password")

  abbrev tenant_id_of : Option ℕ → Option User → Option ℕ
  tenant_id_of (some id) user = some id
  tenant_id_of none user = bind? user (λ u. some u.tenant_id)

  abbrev pub active_tenant : Option ℕ → Db → Option Tenant
  active_tenant none db = none
  active_tenant (some id) db = find (λ t. (t.id == id) && t.is_active) db.tenants

  abbrev belongs : Option ℕ → User → Bool
  belongs none user = true
  belongs (some id) user = user.tenant_id == id

  -- The account and its active tenant, where the tenant that was named is the account's.
  resolved : Option ℕ → Option User → Option Tenant → Handler (User × Tenant)
  resolved explicit (some user) (some tenant) =
      if belongs explicit user
      then pure (user, tenant)
      else refuse (tenant_id_of explicit (some user)) (some user.id)
  resolved explicit user tenant = refuse (tenant_id_of explicit user) none

  resolve : Handler (User × Tenant)
  unfolding explicit_tenant resolved refuse
  resolve = do
    explicit ← explicit_tenant request.tenant_id
    user ← gets (services.get_by_email request.email)
    tenant ← gets (active_tenant (tenant_id_of explicit user))
    resolved explicit user tenant

  -- The gates before the password: active account, IP policy, verified address.
  gate : User → Tenant → Handler (Unit {0})
  unfolding check_ip_policy
  gate user tenant = do
    raise_if (not user.is_active) (http 400 "Account is disabled")
    when (not (check_ip_policy x request.ip_address tenant).0) do
      emit user_login_failed (some user.tenant_id) (some user.id) request.ip_address
      raise (http 403 "Access denied: your IP address is not permitted for this account")
    raise_if (cfg.require_email_verification && not user.is_verified)
        (http 403 "Email address not verified. Check your inbox for a verification link.")

  -- The lockout of the account. One that has expired is cleared, and the row read again.
  check_lockout : User → Handler User
  check_lockout user = elim user.locked_until [
    | none ↦ pure user
    | some locked_until ↦
        if ltb request.now locked_until
        then raise (http_retry 423 (locked_until - request.now))
        else do
          update_user user.id (λ u. record u { failed_login_count = 0; locked_until = none })
          commit
          found ← gets (get_user user.id)
          or_raise found internal
  ]

  -- A wrong password is counted, and from the fifth on the account is locked.
  check_password : User → Handler (Unit {0})
  check_password user =
      if x.argon2_verify user.hashed_password request.password then pure tt else do
        let new_count = user.failed_login_count + 1
        update_user user.id (λ u. record u {
          failed_login_count = new_count;
          locked_until =
              if leb max_failures new_count then some (request.now + lockout_seconds) else none;
        })
        commit
        emit user_login_failed (some user.tenant_id) (some user.id) request.ip_address
        raise (http 400 "Invalid email or password")

  -- The columns that a success writes; the counters only where the loaded account has them set.
  abbrev pub logged_in : User → User → User
  logged_in user u =
      let counted = not (user.failed_login_count == 0) || is_some user.locked_until in
      record u {
        failed_login_count = if counted then 0 else u.failed_login_count;
        locked_until = if counted then none else u.locked_until;
        last_login_ip = request.ip_address;
        last_login_at = some request.now;
      }

  abbrev pub is_new_ip : Option Text → Option Text → Bool
  is_new_ip (some ip) (some previous) = truthy ip && truthy previous && not (ip == previous)
  is_new_ip ip previous = false

  -- The counters are reset, the address is stored, and an alert sent if it is new. The previous
  -- address is read from the row after it has been written.
  pub record_success : User → Handler User
  record_success user = do
    update_user user.id (logged_in user)
    commit
    found ← gets (get_user user.id)
    user ← or_raise found internal
    when (is_new_ip request.ip_address user.last_login_ip) do
      emit user_login_new_ip (some user.tenant_id) (some user.id) request.ip_address
      spawn (new_ip_login_alert user.email)
    pure user

  -- A device cookie, where there is one, decides whether the second factor is skipped.
  trusted : User → Handler Bool
  unfolding is_trusted_device
  trusted user = elim request.device_cookie [
    | none ↦ pure false
    | some cookie ↦
        if truthy cookie then is_trusted_device x user.id cookie request.now else pure false
  ]

  issue : User → Handler LoginResponse
  issue user = do
    emit token_issued (some user.tenant_id) (some user.id) request.ip_address
    pure (record {
      access_token = services.write_token user;
      auth_stage = complete;
      user_id = user.id;
    })

  -- The tenant's demand for a second factor, and the step-up.
  step_up : User → Handler LoginResponse
  unfolding trusted issue requires_mfa
  step_up user = do
    tenant ← gets (get_tenant user.tenant_id)
    raise_if (elim tenant [ none ↦ false | some t ↦ t.require_mfa ] && not user.is_totp_enabled)
        (http 403 "Multi-factor authentication is required for this organisation.")
    skip ← trusted user
    if requires_mfa user && not skip
        then pure (record {
          access_token = services.write_mfa_pending_token user;
          auth_stage = mfa_pending;
          user_id = user.id;
        })
        else if requires_mfa user
        then issue user
        else do response ← issue user; spawn (record_login user.email); pure response

  pub login : Handler LoginResponse
  login = do
    raise_if (not request.within_limit) (http 429 "Rate limit exceeded")
    (user, tenant) ← resolve
    gate user tenant
    user ← check_lockout user
    check_password user
    user ← record_success user
    step_up user
