-- ===== src/EmailOtp/Tests.antt =====
-- The code 42 of Ada, entered as 43.
use lite_iam.Prelude.{ℕ, ◌+◌, ◌*◌, ◌≡◌, refl, none, [], ◌∷◌}
use lite_iam.Fixtures.{plain, ada, with_user}
use lite_iam.Database.{Db, get_session, ok}
use lite_iam.EmailOtp.{send_email_otp}
use lite_iam.Models.{EmailOtp, User}

abbrev row : EmailOtp
row = record {
  id = 31;
  code_hash = 1000 * 11 + 42;
  email = 11;
  tenant_id = 3;
  attempts = 4;
  expires_at = 700;
  used_at = none;
  ip_address = none;
}

abbrev tables : Db
tables = record (with_user ada) { email_otps = row ∷ [] }

abbrev token : User → ℕ
token u = 500 + u.id

-- A code is stored and mailed for an active account.
sends : (get_session (send_email_otp plain 11 none 42 31 100) (with_user ada)).0 ≡ ok tt
unfolding send_email_otp
sends = refl
