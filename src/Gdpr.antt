-- ===== src/Gdpr.antt =====
-- app/api/v1/gdpr.py: what a user exports, and the erasure of an account.
--
-- The audit table of the model is in the order of its events, so the newest first is its reverse.
-- `not PasskeyCredential.is_revoked` is `not_attribute`, as in the passkeys.
mod Rows
mod Erasure
mod Listed
mod Tests
use mathlib.Core.List.{reverse}
use lite_iam.Prelude.{
  ℕ, Text, Bool, true, false, ◌&&◌, Option, none, some, List, ◌==◌, sql_eq, take, select_where,
  update_where, delete_where, not_attribute,
}
use lite_iam.Models.{User, PasskeyCredential, TrustedDevice, AuditLog, user_updated, user_deleted}
use lite_iam.Database.{◌>>=◌, ◌>>◌, Handler, gets, emit, modify, pure, commit, update_user}

pub record Export : Type 0 where
  pub id : ℕ
  pub email : Text
  pub is_verified : Bool
  pub is_active : Bool
  pub tenant_id : ℕ
  pub security_keys : List PasskeyCredential
  pub trusted_devices : List TrustedDevice
  pub audit_log : List AuditLog

abbrev pub keys_of : ℕ → PasskeyCredential → Bool
keys_of user_id p = (p.user_id == user_id) && not_attribute

pub export_my_data : User → Handler Export
export_my_data user = do
  passkeys ← gets (λ db. select_where (keys_of user.id) db.passkeys)
  devices ← gets (λ db. select_where (λ d. d.user_id == user.id) db.devices)
  audit_events ←
      gets (λ db. take 500 (reverse (select_where (λ a. sql_eq a.subject_id user.id) db.audit)))
  emit user_updated (some user.tenant_id) (some user.id) none
  commit
  pure (record {
    id = user.id;
    email = user.email;
    is_verified = user.is_verified;
    is_active = user.is_active;
    tenant_id = user.tenant_id;
    security_keys = passkeys;
    trusted_devices = devices;
    audit_log = audit_events;
  })

-- The row of the account after its erasure, with f"deleted+{user.id}@deleted.local" as its address.
abbrev pub anonymous : Text → User → User
anonymous anon_email u = record u {
  email = anon_email;
  hashed_password = 0;
  is_active = false;
  is_verified = false;
}

unfoldable pub erase_my_account : Text → User → Handler (Unit {0})
erase_my_account anon_email user = do
  modify λ db. record db {
    passkeys =
        update_where (λ p. p.user_id == user.id) (λ p. record p { is_revoked = true }) db.passkeys;
  }
  modify λ db. record db { devices = delete_where (λ d. d.user_id == user.id) db.devices }
  update_user user.id (anonymous anon_email)
  emit user_deleted (some user.tenant_id) (some user.id) none
  commit
