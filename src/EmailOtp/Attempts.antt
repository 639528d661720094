-- ===== src/EmailOtp/Attempts.antt =====
-- What becomes of a code that is entered.
use lite_iam.Prelude.{
  ℕ, Text, ◌+◌, ◌≤◌, ◌<◌, ◌≡◌, refl, true, false, none, some, List, [], ◌∷◌, arith, ◌==◌, ◌++◌,
  if◌then◌else◌, ◌⊎◌, Bool-cases, inl, inr,
}
use lite_iam.EmailOtp.{
  find_last, max_attempts, rejected, hash, is_claimed, check_code, is_active_otp, verify_email_otp,
  External, User, EmailOtp, count_where, find, SignedIn, email_otp_failed, leb,
}
use lite_iam.Database.{Db, get_session, err, Result, Error}
use lite_iam.Models.{AuditLog}
use lite_iam.Database.Runs.{find-update_where}

module _ (x : External) (write_token write_mfa_pending_token : User → Text) where
  none_active :
      (email : Text) (now : ℕ) (rows : List EmailOtp)
      → find_last (is_active_otp x write_token write_mfa_pending_token email now) rows ≡ none
  none_active email now [] = refl
  none_active email now (r ∷ rows) = ground (arith, none_active email now rows)

  none_claimed :
      (id : ℕ) (rows : List EmailOtp)
      → count_where (is_claimed x write_token write_mfa_pending_token id) rows ≡ 0
  none_claimed id [] = refl
  none_claimed id (r ∷ rows) = ground (arith, none_claimed id rows)

  -- Whatever codes are stored, the handler refuses every code with 400 and changes nothing.
  pub verify_email_otp_refuses :
      (email code : Text) (now : ℕ) (db : Db)
      → get_session (verify_email_otp x write_token write_mfa_pending_token email code now) db
        ≡ (err rejected, db)
  unfolding verify_email_otp
  verify_email_otp_refuses email code now db = rw (none_active email now db.email_otps) refl

  -- The row of a code that was entered wrongly, or once too often.
  abbrev pub attempted : EmailOtp → ℕ → EmailOtp → EmailOtp
  attempted row now r =
      if leb max_attempts row.attempts
      then record r { used_at = some now }
      else record r { attempts = row.attempts + 1 }

  -- What the handler does with a row.
  abbrev pub entered : Text → Text → EmailOtp → ℕ → Db → Result SignedIn × Db
  entered email code row now db =
      get_session (check_code x write_token write_mfa_pending_token email code row now) db

  -- The audit row of a failure.
  abbrev pub otp_failed : EmailOtp → AuditLog
  otp_failed row = record {
    event = email_otp_failed;
    tenant_id = some row.tenant_id;
    subject_id = none;
    ip_address = none;
  }

  -- From the stored row of a code on, a wrong code, or any code after five attempts, is refused.
  -- The row is left with one attempt more, or as used where there had been five, and the failure
  -- stays in the audit log.
  pub check_code_counts :
      (email code : Text) (row : EmailOtp) (now : ℕ) (db : Db)
      → find (λ r. r.id == row.id) db.email_otps ≡ some row
      → ((row.code_hash == hash x email code) ≡ false) ⊎ (max_attempts ≤ row.attempts)
      → (r : Error) × ((entered email code row now db).0 ≡ err r)
        × (find (λ r. r.id == row.id) (entered email code row now db).1.email_otps
            ≡ some (attempted row now row))
        × ((entered email code row now db).1.audit ≡ db.audit ++ otp_failed row ∷ [])
  unfolding check_code
  check_code_counts email code row now db found wrong =
      elim (Bool-cases (leb max_attempts row.attempts)) [
        | inl full ↦ rw full (
          _,
          refl,
          find-update_where (λ r. r.id == row.id) (λ r. record r { used_at = some now })
              db.email_otps row (λ a. refl) found,
          refl,
        )
        | inr fewer ↦
            let differs : (row.code_hash == hash x email code) ≡ false = ground arith in
            rw (fewer, differs)
              (
                _,
                refl,
                find-update_where (λ r. r.id == row.id)
                    (λ r. record r { attempts = row.attempts + 1 }) db.email_otps row (λ a. refl)
                    found,
                refl,
              )
      ]

  -- From the row on, a right code with attempts left is refused too, and nothing changes: the UPDATE
  -- that claims the row matches none.
  pub check_code_refuses_right :
      (email code : Text) (row : EmailOtp) (now : ℕ) (db : Db)
      → row.attempts < max_attempts
      → row.code_hash ≡ hash x email code
      → entered email code row now db ≡ (err rejected, db)
  unfolding check_code
  check_code_refuses_right email code row now db few right =
      let fewer : leb max_attempts row.attempts ≡ false = ground arith in
      let equal : (row.code_hash == hash x email code) ≡ true = ground arith in
      rw (fewer, equal, none_claimed) refl
