-- ===== src/EmailOtp.antt =====
-- app/api/v1/email_otp.py: signing in with a six-digit code that was mailed. The random code and the
-- row's id are arguments. Rows stand in the order of their creation, so the most recent row that a
-- query finds is the last that passes.
--
-- `EmailOTP.used_at is None` in the lookup, and again in the UPDATE that claims the code, is
-- Python's identity test: `attribute_is_none`.
mod Attempts
mod Tests
use lite_iam.Prelude.{
  ℕ, Text, ◌+◌, ◌*◌, Bool, true, false, not, ◌&&◌, Option, none, some, List, [], ◌∷◌, ◌++◌, ltb,
  leb, ◌==◌, if◌then◌else◌, attribute_is_none, find, update_where, count_where,
}
use lite_iam.Database.{
  ◌>>=◌, ◌>>◌, Error, internal, Handler, http, gets, modify, pure, emit, or_raise, commit, raise,
  spawn, email_otp_mail,
}
use lite_iam.Models.{EmailOtp, User, email_otp_failed, email_otp_sent, email_otp_used}
use lite_iam.External.{External}
use lite_iam.MagicLink.{SignedIn, sign_in, is_account, give_up}

abbrev pub otp_ttl : ℕ
otp_ttl = 10 * 60

abbrev pub max_attempts : ℕ
max_attempts = 5

abbrev pub rejected : Error
rejected = http 400 "Code is invalid, expired, or already used."

-- `order_by(created_at.desc())`, then the first.
abbrev pub find_last : {A : Type 0} → (A → Bool) → List A → Option A
find_last p [] = none
find_last p (a ∷ rest) = elim (find_last p rest) [
  | none ↦ if p a then some a else none
  | some b ↦ some b
]

module _ (x : External) where
  -- `_hash`
  abbrev pub hash : Text → Text → Text
  hash email code = x.sha256 (x.colon email code)

  abbrev pub new_otp : Text → User → Option Text → Text → ℕ → ℕ → EmailOtp
  new_otp email user ip_address code id now = record {
    id = id;
    code_hash = hash email code;
    email = email;
    tenant_id = user.tenant_id;
    attempts = 0;
    expires_at = now + otp_ttl;
    used_at = none;
    ip_address = ip_address;
  }

  abbrev send_to : Text → Option Text → Text → ℕ → ℕ → Option User → Handler (Unit {0})
  send_to email ip_address code id now none = pure tt
  send_to email ip_address code id now (some user) = do
    modify λ db. record db {
      email_otps = db.email_otps ++ new_otp email user ip_address code id now ∷ [];
    }
    emit email_otp_sent (some user.tenant_id) (some user.id) none
    commit
    spawn (email_otp_mail email code)

  -- `send_email_otp_endpoint`
  pub send_email_otp : Text → Option Text → Text → ℕ → ℕ → Handler (Unit {0})
  send_email_otp email ip_address code id now = do
    user ← gets (λ db. find (is_account email) db.users)
    send_to email ip_address code id now user

abbrev update_otp : ℕ → (EmailOtp → EmailOtp) → Handler (Unit {0})
update_otp id f =
    modify λ db. record db { email_otps = update_where (λ r. r.id == id) f db.email_otps }

module _ (x : External) (write_token write_mfa_pending_token : User → Text) where
  -- Too many attempts: the code is burnt.
  burn : EmailOtp → ℕ → Handler SignedIn
  burn row now = do
    update_otp row.id (λ r. record r { used_at = some now })
    emit email_otp_failed (some row.tenant_id) none none
    commit
    raise (http 400 "Too many incorrect attempts. Request a new code.")

  -- A wrong code is counted.
  count_attempt : EmailOtp → Handler SignedIn
  count_attempt row = do
    update_otp row.id (λ r. record r { attempts = row.attempts + 1 })
    emit email_otp_failed (some row.tenant_id) none none
    commit
    raise rejected

  -- `update(…).where(id == row.id, used_at is None)` and its `rowcount`.
  abbrev pub is_claimed : ℕ → EmailOtp → Bool
  is_claimed id r = (r.id == id) && attribute_is_none

  -- The code is claimed, and the account signed in.
  claim : Text → EmailOtp → ℕ → Handler SignedIn
  unfolding sign_in
  claim email row now = do
    rowcount ← gets (λ db. count_where (is_claimed row.id) db.email_otps)
    modify λ db. record db {
      email_otps =
          update_where (is_claimed row.id) (λ r. record r { used_at = some now }) db.email_otps;
    }
    if not (rowcount == 1) then give_up x write_token write_mfa_pending_token rejected else do
      user ← gets (λ db. find (is_account email) db.users)
      elim user [
        | none ↦ give_up x write_token write_mfa_pending_token rejected
        | some user ↦ sign_in x write_token write_mfa_pending_token email_otp_used user
      ]

  -- `verify_email_otp_endpoint` from the row on.
  pub check_code : Text → Text → EmailOtp → ℕ → Handler SignedIn
  unfolding burn count_attempt claim
  check_code email code row now =
      if leb max_attempts row.attempts
      then burn row now
      else if not (row.code_hash == hash x email code)
      then count_attempt row
      else claim email row now

  abbrev pub is_active_otp : Text → ℕ → EmailOtp → Bool
  is_active_otp email now r = (r.email == email) && attribute_is_none && ltb now r.expires_at

  -- `verify_email_otp_endpoint`
  pub verify_email_otp : Text → Text → ℕ → Handler SignedIn
  verify_email_otp email code now = do
    found ← gets (λ db. find_last (is_active_otp email now) db.email_otps)
    row ← or_raise found rejected
    check_code email code row now
