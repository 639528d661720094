-- ===== src/Mfa/Totp/Accepts.antt =====
-- app/mfa/totp.py: what a challenge that returns has been shown, whatever the account's row holds.
use lite_iam.Prelude.{
  ℕ, Text, ◌≡◌, ◌≢◌, refl, Bool, true, Option, some, inl, inr, contains, Option-cases, arith, ◌∙◌,
  ap, suc, ◌<◌,
}
use lite_iam.External.{External}
use lite_iam.Database.{Db, get_user, get_session, ok, Session, open_session}
use lite_iam.Models.{User}
use lite_iam.Settings.{Settings}
use lite_iam.Mfa.Totp.Challenge.{IsOpen, reset, verify_totp_ok}
use lite_iam.Mfa.Totp.{verify_backup_code, verify_totp, check_cooldown, accept_code, reject_code}
use lite_iam.Mfa.Totp.Backup.{backup_codes}
use lite_iam.Database.Runs.{get_user-update}

-- A code that is right for the account's secret, not the one accepted last, outside a cooldown.
abbrev pub ShowsTotp : External → Settings → Text → ℕ → User → Type 0
ShowsTotp x cfg code now u =
    (enc : Text) × (secret : Text) × (u.totp_secret_enc ≡ some enc)
    × (x.decrypt enc ≡ some secret)
    × (x.totp_verify secret code now ≡ true)
    × (u.is_totp_enabled ≡ true)
    × (u.totp_last_used_code ≢ some code)
    × IsOpen cfg u now

-- A right code that is not the last one, with failures below the limit.
abbrev pub IsRight : External → Settings → Text → ℕ → User → Type 0
IsRight x cfg code now u =
    (enc : ℕ) × (secret : Text) × (u.totp_secret_enc ≡ some (suc enc))
    × (x.decrypt (suc enc) ≡ some secret)
    × (x.totp_verify secret code now ≡ true)
    × (u.is_totp_enabled ≡ true)
    × (u.totp_last_used_code ≢ some code)
    × (u.totp_failure_count < cfg.totp_max_failures)

-- A backup code of the account.
abbrev pub ShowsBackup : External → Text → User → Type 0
ShowsBackup x code u =
    (u.is_totp_enabled ≡ true) × (contains (backup_codes u) (x.sha256 (x.strip_upper code)) ≡ true)

module _ (x : External) (code : Text) (ip_address : Option Text) (db : Db) (u : User) (b : Bool)
    (found : get_user u.id db ≡ some u) where
  -- No challenge returns false.
  totp_returns_true :
      (cfg : Settings) (now : ℕ)
      → (get_session (verify_totp x cfg u.id code ip_address now) db).0 ≡ ok b
      → b ≡ true
  unfolding verify_totp check_cooldown accept_code reject_code
  totp_returns_true cfg now done = ground arith

  pub verify_totp_accepts :
      (cfg : Settings) (now : ℕ)
      → (get_session (verify_totp x cfg u.id code ip_address now) db).0 ≡ ok b
      → ShowsTotp x cfg code now u
  unfolding verify_totp check_cooldown
  verify_totp_accepts cfg now done = elim (Option-cases u.totp_secret_enc) [
    | inl missing ↦ absurd (ground arith)
    | inr (enc, stored) ↦ elim (Option-cases (x.decrypt enc)) [
      | inl unreadable ↦ absurd (ground (arith, get_user-update reset u.id db.users u (λ a. refl)))
      | inr (secret, decrypted) ↦
          let holds = totp_returns_true cfg now done in
          let (right, enabled, fresh, calm, row) =
            verify_totp_ok x cfg code ip_address now db u enc secret found stored decrypted
              (done ∙ ap ok holds) in
          (enc, secret, stored, decrypted, right, enabled, fresh, calm)
    ]
  ]

  pub verify_backup_code_accepts :
      (get_session (verify_backup_code x u.id code ip_address) db).0 ≡ ok b → ShowsBackup x code u
  unfolding verify_backup_code
  verify_backup_code_accepts done = ground arith

  -- A right code is accepted.
  pub verify_totp_completes :
      (cfg : Settings) (now : ℕ)
      → IsRight x cfg code now u
      → (s : Session) × (verify_totp x cfg u.id code ip_address now (open_session db)
          ≡ (ok true, s))
  unfolding verify_totp check_cooldown accept_code
  verify_totp_completes cfg now (enc, secret, stored, decrypted, right, enabled, fresh, few) =
      ((verify_totp x cfg u.id code ip_address now (open_session db)).1, ground arith)
