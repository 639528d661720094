-- ===== src/Models/Account.antt =====
-- app/models/user.py, tenant.py, trusted_device.py and audit.py with the events of core/events.py.
use lite_iam.Prelude.{ℕ, Text, Bool, Option, List}

pub record User : Type 0 where
  pub id : ℕ
  pub email : Text
  pub hashed_password : Text
  pub is_active : Bool
  pub is_superuser : Bool
  pub is_verified : Bool
  pub tenant_id : ℕ
  pub is_totp_enabled : Bool
  pub totp_secret_enc : Option Text
  pub totp_failure_count : ℕ
  pub totp_last_failure_at : Option ℕ
  pub totp_last_used_code : Option Text
  pub failed_login_count : ℕ
  pub locked_until : Option ℕ
  pub totp_backup_codes : Option (List Text)
  pub password_history : Option (List Text)
  pub last_login_ip : Option Text
  pub last_login_at : Option ℕ

pub record Tenant : Type 0 where
  pub id : ℕ
  pub slug : Text
  pub name : Text
  pub is_active : Bool
  pub ip_allowlist : Option (List Text)
  pub ip_blocklist : Option (List Text)
  pub require_mfa : Bool
  pub custom_jwt_claims : Option (List (Text × Text))
  pub audit_log_retention_days : ℕ
  pub email_from_address : Option Text
  pub email_from_name : Option Text

pub record TrustedDevice : Type 0 where
  pub id : ℕ
  pub user_id : ℕ
  pub tenant_id : ℕ
  pub device_token_hash : Text
  pub expires_at : ℕ
  pub created_at : ℕ

pub data AuthEvent : Type 0 where
  user_created user_updated user_deleted user_login user_login_new_ip user_login_failed : AuthEvent
  user_password_changed user_password_reset user_email_verified : AuthEvent
  user_invited user_invitation_accepted : AuthEvent
  mfa_enrolled mfa_challenged mfa_failed mfa_backup_code_used mfa_disabled : AuthEvent
  user_email_changed token_issued token_revoked : AuthEvent
  passkey_registered passkey_used passkey_revoked : AuthEvent
  magic_link_sent magic_link_used email_otp_sent email_otp_used email_otp_failed : AuthEvent
  oauth_linked tenant_created webhook_created webhook_deleted session_revoked ip_blocked : AuthEvent

pub record AuditLog : Type 0 where
  pub event : AuthEvent
  pub tenant_id : Option ℕ
  pub subject_id : Option ℕ
  pub ip_address : Option Text
