-- ===== src/Mfa/Totp.antt =====
-- app/mfa/totp.py: TOTP secrets and codes. `now` is the time of the request, random values are
-- arguments, and the provisioning URI is left out, since pyotp makes it from the secret.
pub mod Challenge
mod Lockout
pub mod Backup
pub mod Accepts
mod Enrolment
mod Tests
use lite_iam.Prelude.{
  ℕ, Text, ◌+◌, ◌-◌, Bool, true, false, not, ◌&&◌, ◌||◌, Option, none, some, List, [], ◌∷◌, map,
  ltb, leb, ◌==◌, if◌then◌else◌, truthy?, sql_eq, contains, remove, or_empty, is_empty,
}
use lite_iam.Models.{User, mfa_enrolled, mfa_failed, mfa_challenged}
use lite_iam.Settings.{Settings}
use lite_iam.External.{External}
use lite_iam.Database.{
  Handler, http, http_retry, internal, pure, raise, gets, or_raise, raise_if, when, commit, emit,
  get_user, update_user, ◌>>=◌, ◌>>◌,
}

abbrev pub lockout_window_seconds : ℕ
lockout_window_seconds = 60

-- `_decrypt_secret`
abbrev decrypt_secret : External → Option Text → Handler Text
decrypt_secret x none = raise internal
decrypt_secret x (some enc) =
    or_raise (x.decrypt enc) (http 500 "TOTP secret decryption failed — key rotation issue")

-- Returns the secret that the authenticator app is given.
pub enroll_totp : External → ℕ → Text → Handler Text
enroll_totp x user_id secret = do
  user ← or_raise (← gets (get_user user_id)) (http 404 "User not found")
  raise_if user.is_totp_enabled (http 409 "TOTP already enrolled for this user")
  update_user user_id (λ u. record u { totp_secret_enc = some (x.encrypt secret) })
  commit
  pure secret

-- `codes` are the eight random plaintexts of `generate_backup_codes`.
pub verify_and_activate_totp :
    External → ℕ → Text → Option Text → ℕ → List Text → Handler (List Text)
verify_and_activate_totp x user_id code ip_address now codes = do
  user ← or_raise (← gets (get_user user_id)) (http 400 "TOTP not enrolled")
  raise_if (not (truthy? user.totp_secret_enc)) (http 400 "TOTP not enrolled")
  raise_if user.is_totp_enabled (http 409 "TOTP already active — use verify_totp instead")
  secret ← decrypt_secret x user.totp_secret_enc
  raise_if (not (x.totp_verify secret code now)) (http 400 "Invalid TOTP code")
  update_user user_id (λ u. record u {
    is_totp_enabled = true;
    totp_failure_count = 0;
    totp_backup_codes = some (map x.sha256 codes);
  })
  emit mfa_enrolled (some user.tenant_id) (some user.id) ip_address
  commit
  pure codes

-- The cooldown after too many failures. A stale counter is reset, and the row read again.
check_cooldown : Settings → User → ℕ → Handler User
check_cooldown cfg user now =
    if leb cfg.totp_max_failures user.totp_failure_count
    then elim user.totp_last_failure_at [
      | none ↦ raise (http 429 "Too many failed TOTP attempts. Try again later.")
      | some last_failure ↦
          if ltb now (last_failure + lockout_window_seconds)
          then (do
            emit mfa_failed (some user.tenant_id) (some user.id) none
            raise (http_retry 429 (lockout_window_seconds + last_failure - now)))
          else do
            update_user user.id
                (λ u. record u { totp_failure_count = 0; totp_last_failure_at = none })
            commit
            or_raise (← gets (get_user user.id)) internal
    ]
    else pure user

-- A wrong code is counted.
reject_code : User → Option Text → ℕ → Handler Bool
reject_code user ip_address now = do
  update_user user.id (λ u. record u {
    totp_failure_count = u.totp_failure_count + 1;
    totp_last_failure_at = some now;
  })
  commit
  emit mfa_failed (some user.tenant_id) (some user.id) ip_address
  raise (http 400 "Invalid TOTP code")

-- A valid code is accepted unless it is the one that was accepted last.
accept_code : User → Text → Option Text → Handler Bool
accept_code user code ip_address = do
  raise_if (sql_eq user.totp_last_used_code code)
      (http 400 "TOTP code already used. Wait for the next code.")
  update_user user.id (λ u. record u {
    totp_failure_count = 0;
    totp_last_failure_at = none;
    totp_last_used_code = some code;
  })
  commit
  emit mfa_challenged (some user.tenant_id) (some user.id) ip_address
  pure true

pub verify_totp : External → Settings → ℕ → Text → Option Text → ℕ → Handler Bool
verify_totp x cfg user_id code ip_address now = do
  user ← or_raise (← gets (get_user user_id)) (http 400 "TOTP not configured for this user")
  raise_if (not user.is_totp_enabled || not (truthy? user.totp_secret_enc))
      (http 400 "TOTP not configured for this user")
  user ← check_cooldown cfg user now
  secret ← decrypt_secret x user.totp_secret_enc
  if x.totp_verify secret code now
      then accept_code user code ip_address
      else reject_code user ip_address now

-- `codes if codes else None`
abbrev none_if_empty : List Text → Option (List Text)
none_if_empty [] = none
none_if_empty (c ∷ codes) = some (c ∷ codes)

pub verify_backup_code : External → ℕ → Text → Option Text → Handler Bool
verify_backup_code x user_id code ip_address = do
  user ← or_raise (← gets (get_user user_id)) (http 400 "TOTP not configured for this user")
  raise_if (not user.is_totp_enabled) (http 400 "TOTP not configured for this user")
  let codes = or_empty user.totp_backup_codes
  raise_if (is_empty codes) (http 400 "No backup codes available — contact support")
  let hashed = x.sha256 (x.strip_upper code)
  raise_if (not (contains codes hashed)) (http 400 "Invalid backup code")
  update_user user_id (λ u. record u { totp_backup_codes = none_if_empty (remove codes hashed) })
  commit
  emit mfa_challenged (some user.tenant_id) (some user.id) ip_address
  pure true
