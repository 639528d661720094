-- ===== src/Mfa/Totp/Challenge.antt =====
-- The login challenge, `verify_totp`: what it accepts, counts and refuses.
use lite_iam.Prelude.{
  ℕ, suc, Text, ◌+◌, ◌-◌, ◌≤◌, ◌<◌, ◌≡◌, ◌≢◌, ◌⊎◌, refl, Bool, true, false, Option, none, some,
  arith, update_where, ◌==◌,
}
use lite_iam.Models.{User}
use lite_iam.Settings.{Settings}
use lite_iam.External.{External}
use lite_iam.Database.{Db, Result, ok, err, http, http_retry, get_session, get_user}
use lite_iam.Database.Runs.{get_user-update}
use lite_iam.Mfa.Totp.{
  verify_totp, check_cooldown, accept_code, reject_code, lockout_window_seconds,
}

-- No cooldown is running: few failures, or the last of them at least a window ago.
abbrev pub IsOpen : Settings → User → ℕ → Type 0
IsOpen cfg u now =
    (u.totp_failure_count < cfg.totp_max_failures)
    ⊎ ((last : ℕ) × (u.totp_last_failure_at ≡ some last) × (last + lockout_window_seconds ≤ now))

-- The row after a success, and after a reset of the counter.
abbrev pub accepted : Text → User → User
accepted code u = record u {
  totp_failure_count = 0;
  totp_last_failure_at = none;
  totp_last_used_code = some code;
}

abbrev pub reset : User → User
reset u = record u { totp_failure_count = 0; totp_last_failure_at = none }

abbrev pub failed_at : ℕ → User → User
failed_at now u = record u {
  totp_failure_count = u.totp_failure_count + 1;
  totp_last_failure_at = some now;
}

module _ (x : External) (cfg : Settings) (code : Text) (ip_address : Option Text) (now : ℕ) where
  -- The tables and the reply of one challenge.
  abbrev pub challenge : ℕ → Db → Result Bool × Db
  challenge user_id db = get_session (verify_totp x cfg user_id code ip_address now) db

  -- Too many failures, the last one less than a window ago: refused, and nothing is kept.
  pub verify_totp_cooldown :
      (db : Db) (u : User) (last enc : ℕ)
      → get_user u.id db ≡ some u
      → u.is_totp_enabled ≡ true
      → u.totp_secret_enc ≡ some (suc enc)
      → cfg.totp_max_failures ≤ u.totp_failure_count
      → u.totp_last_failure_at ≡ some last
      → now < last + lockout_window_seconds
      → challenge u.id db ≡ (err (http_retry 429 (lockout_window_seconds + last - now)), db)
  unfolding verify_totp check_cooldown
  verify_totp_cooldown db u last enc found enabled enrolled many at recent = ground arith

  -- A challenge that does not succeed leaves no audit row.
  pub verify_totp-audit :
      (user_id : ℕ) (db : Db)
      → (challenge user_id db).0 ≢ ok true
      → (challenge user_id db).1.audit ≡ db.audit
  unfolding verify_totp check_cooldown accept_code reject_code
  verify_totp-audit user_id db failed = ground arith

  -- If a TOTP challenge succeeds for an account whose secret decrypts, then the code is right for
  -- the secret at that time, TOTP is enabled, the code is not the one accepted last, and no
  -- cooldown is running; and the row left has its counter reset and the code stored as the last
  -- one.
  pub verify_totp_ok :
      (db : Db) (u : User) (enc secret : ℕ)
      → get_user u.id db ≡ some u
      → u.totp_secret_enc ≡ some enc
      → x.decrypt enc ≡ some secret
      → (challenge u.id db).0 ≡ ok true
      → (x.totp_verify secret code now ≡ true)
        × (u.is_totp_enabled ≡ true)
        × (u.totp_last_used_code ≢ some code)
        × IsOpen cfg u now
        × (get_user u.id (challenge u.id db).1 ≡ some (accepted code u))
  unfolding verify_totp check_cooldown accept_code reject_code
  verify_totp_ok db u enc secret found enrolled decrypted done =
      let reloaded = get_user-update reset u.id db.users u (λ a. refl) in
      (
        ground (arith, reloaded),
        ground arith,
        ground (arith, reloaded),
        ground arith,
        ground (
          arith,
          reloaded,
          get_user-update (accepted code) u.id db.users u (λ a. refl),
          get_user-update (accepted code) u.id (update_where (λ v. v.id == u.id) reset db.users)
              (reset u) (λ a. refl),
        ),
      )

  -- A wrong code outside a cooldown is counted, from 1 again where the counter was stale.
  pub verify_totp_wrong :
      (db : Db) (u : User) (enc secret : ℕ)
      → get_user u.id db ≡ some u
      → u.is_totp_enabled ≡ true
      → u.totp_secret_enc ≡ some (suc enc)
      → x.decrypt (suc enc) ≡ some secret
      → x.totp_verify secret code now ≡ false
      → u.totp_failure_count < cfg.totp_max_failures
      → ((challenge u.id db).0 ≡ err (http 400 "Invalid TOTP code"))
        × (get_user u.id (challenge u.id db).1 ≡ some (failed_at now u))
  unfolding verify_totp check_cooldown accept_code reject_code
  verify_totp_wrong db u enc secret found enabled enrolled decrypted wrong few =
      ground (arith, get_user-update (failed_at now) u.id db.users u (λ a. refl))
