-- ===== src/Mfa/Totp/Enrolment.antt =====
-- From a fresh secret to an active second factor.
use lite_iam.Prelude.{
  ℕ, suc, Text, ◌≡◌, refl, true, false, Option, some, List, map, arith, ◌==◌, update_where,
}
use lite_iam.Models.{User}
use lite_iam.External.{External}
use lite_iam.Database.{Db, ok, get_session, get_user}
use lite_iam.Database.Runs.{get_user-update}
use lite_iam.Mfa.Totp.{enroll_totp, verify_and_activate_totp}

abbrev pub with_secret : External → Text → User → User
with_secret x secret u = record u { totp_secret_enc = some (x.encrypt secret) }

-- The row of a user whose secret has been stored and whose first code was right.
abbrev pub enrolled : External → Text → List Text → User → User
enrolled x secret codes u = record u {
  totp_secret_enc = some (x.encrypt secret);
  is_totp_enabled = true;
  totp_failure_count = 0;
  totp_backup_codes = some (map x.sha256 codes);
}

-- A user without the factor who enrols and then gives a right code has it switched on, with the
-- secret encrypted and the hashes of the backup codes stored. That a ciphertext decrypts to its
-- text and is not empty is Fernet's.
pub enroll_activates :
    (x : External) (ip_address : Option Text) (code secret enc now : ℕ) (codes : List Text)
    (db : Db) (u : User)
    → get_user u.id db ≡ some u
    → u.is_totp_enabled ≡ false
    → x.encrypt secret ≡ suc enc
    → x.decrypt (suc enc) ≡ some secret
    → x.totp_verify secret code now ≡ true
    → let db' = (get_session (enroll_totp x u.id secret) db).1 in
      let (r, db'') = get_session (verify_and_activate_totp x u.id code ip_address now codes) db' in
      (r ≡ ok codes) × (get_user u.id db'' ≡ some (enrolled x secret codes u))
unfolding enroll_totp verify_and_activate_totp
enroll_activates x ip_address code secret enc now codes db u found fresh sealed opened right =
    ground (
      arith,
      get_user-update (with_secret x secret) u.id db.users u (λ a. refl),
      get_user-update (λ v. enrolled x secret codes v) u.id
          (update_where (λ v. v.id == u.id) (with_secret x secret) db.users)
          (with_secret x secret u) (λ a. refl),
      get_user-update
          (λ v. record v {
            is_totp_enabled = true;
            totp_failure_count = 0;
            totp_backup_codes = some (map x.sha256 codes);
          })
          u.id (update_where (λ v. v.id == u.id) (with_secret x secret) db.users)
          (with_secret x secret u) (λ a. refl),
    )
