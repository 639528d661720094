-- ===== src/StepUp.antt =====
-- `totp_verify`, `mfa_backup_verify` and `totp_disable` of app/api/v1/auth.py: from a pending token
-- and a code to a full token, and the removal of TOTP.
--
-- The fields of the account that a token is written from (its id, address and tenant) are not
-- changed by the check of the code, so the token is that of the row as it was loaded. The random
-- cookie and the device's id are arguments, and whether slowapi's limit lets the request in is a field
-- of it; metrics are left out.
mod Sound
mod Complete
mod Tests
use lite_iam.Prelude.{
  ℕ, Text, Bool, true, false, not, Option, none, some, truthy, if◌then◌else◌, lookup,
}
use lite_iam.Database.{
  ◌>>=◌, ◌>>◌, internal, Handler, gets, get_tenant, raise_if, http, or_raise, pure, raise, get_user,
  emit,
}
use lite_iam.Literals
use lite_iam.Literals.{tenant_id}
use lite_iam.Models.{User, Tenant, token_issued}
use lite_iam.External.{External}
use lite_iam.Settings.{Settings}
use lite_iam.Tokens.{Keys, read_mfa_pending_token}
use lite_iam.Devices.{create_trusted_device}
use lite_iam.Mfa.Totp.{verify_backup_code, verify_totp}

pub record StepUpRequest : Type 0 where
  pub pending_token : Text
  pub code : Text
  pub remember_device : Bool
  pub ip_address : Option Text
  pub now : ℕ
  pub within_limit : Bool

-- The full token, and the cookie of the device where it is to be remembered.
pub record StepUpResponse : Type 0 where
  pub access_token : Text
  pub device_token : Option Text

module _ (x : External) (cfg : Settings) (keys : Keys) (write_token : User → Text)
    (device_token : Text) (device_id : ℕ) (request : StepUpRequest) where
  -- The account that a pending token stands for. A payload without a subject, or with one that is
  -- no id, raises.
  pub pending_user : Handler (ℕ × User)
  pending_user = do
    raise_if (not (truthy request.pending_token)) (http 400 "pending_token is required")
    payload ←
        or_raise (read_mfa_pending_token x keys request.now request.pending_token)
          (http 401 "Invalid or expired MFA pending token")
    sub ← or_raise (lookup Literals.sub payload) internal
    user_id ← or_raise (x.as_uuid sub) internal
    found ← gets (get_user user_id)
    user ← or_raise found (http 401 "User not found or inactive")
    raise_if (not user.is_active) (http 401 "User not found or inactive")
    pure (user_id, user)

  -- The full token is written, and the device remembered if that was asked for.
  pub grant : ℕ → User → Handler StepUpResponse
  unfolding create_trusted_device
  grant user_id user = do
    emit token_issued (some user.tenant_id) (some user.id) request.ip_address
    if request.remember_device
        then (do
          cookie ← create_trusted_device x user_id user.tenant_id device_token device_id request.now
          pure (record { access_token = write_token user; device_token = some cookie }))
        else pure (record { access_token = write_token user; device_token = none })

  pub totp_verify : Handler StepUpResponse
  totp_verify = do
    raise_if (not request.within_limit) (http 429 "Rate limit exceeded")
    (user_id, user) ← pending_user
    verify_totp x cfg user_id request.code request.ip_address request.now
    grant user_id user

  pub mfa_backup_verify : Handler StepUpResponse
  mfa_backup_verify = do
    raise_if (not request.within_limit) (http 429 "Rate limit exceeded")
    (user_id, user) ← pending_user
    verify_backup_code x user_id request.code request.ip_address
    grant user_id user

abbrev demands_mfa : Option Tenant → Bool
demands_mfa none = false
demands_mfa (some tenant) = tenant.require_mfa

-- `totp_disable`. The UPDATE names a column `totp_secret`, which the table of users does not have
-- (it has `totp_secret_enc`), so building the statement raises and what follows it is not reached.
pub totp_disable : User → Handler (Unit {0})
totp_disable current_user = do
  tenant ← gets (get_tenant current_user.tenant_id)
  raise_if (demands_mfa tenant)
      (http 403 "MFA is required by your organisation and cannot be disabled. ")
  if not current_user.is_totp_enabled then pure tt else raise internal
