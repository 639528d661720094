-- ===== src/Password/Manager.antt =====
-- app/identity/password.py: the hooks of `UserManager` and its password helper.
--
-- argon2 and the responses of the breach list are parameters. fastapi-users has stored the new hash
-- when it calls `on_after_update` and `on_after_reset_password`. The links in the mails are left out.
mod History
mod Breaches
mod Tests
use lite_iam.Prelude.{
  ℕ, Text, Bool, true, false, Option, none, some, List, [], ◌∷◌, ◌==◌, ltb, if◌then◌else◌, truthy,
  ◌&&◌,
}
use lite_iam.Models.{User, user_created, user_login, user_password_reset, user_password_changed}
use lite_iam.Settings.{Settings}
use lite_iam.Database.{
  Handler, ◌>>◌, ◌>>=◌, pure, emit, spawn, password_changed_alert, password_reset_mail,
  verification_mail,
}
use lite_iam.Password.{push_password_history}

-- A line of the breach list: not of two parts, or a suffix with a count that is a number or not.
pub data Line : Type 0 where
  other_line : Line
  entry : Text → Option ℕ → Line

abbrev pub has_suffix : Text → List Line → Bool
has_suffix suffix [] = false
has_suffix suffix (other_line ∷ rest) = has_suffix suffix rest
has_suffix suffix (entry s count ∷ rest) =
    let later = has_suffix suffix rest in
    if s == suffix
    then elim count [ none ↦ false | some n ↦ if ltb 0 n then true else later ]
    else later

-- `_check_hibp`, of the status and the lines that the list answered, if it did: whether it raises.
pub check_hibp : Text → Option (ℕ × List Line) → Bool
check_hibp suffix none = false
check_hibp suffix (some (status, lines)) = (status == 200) && has_suffix suffix lines

-- What the hooks read of a request; `forwarded` is the first address of X-Forwarded-For, stripped.
pub record Caller : Type 0 where
  pub host : Option Text
  pub forwarded : Option Text
  pub user_agent : Option Text

abbrev forwarded_or_host : Option Text → Option Text → Option Text
forwarded_or_host none host = host
forwarded_or_host (some address) host = some address

-- `_get_ip`, with TRUST_X_FORWARDED_FOR.
pub get_ip : Bool → Option Caller → Option Text
get_ip trust none = none
get_ip trust (some c) = if trust then forwarded_or_host c.forwarded c.host else c.host

-- `_get_ua`
pub get_ua : Option Caller → Option Text
get_ua none = none
get_ua (some c) = c.user_agent

module _ (trust : Bool) where
  pub on_after_register : User → Option Caller → Handler (Unit {0})
  unfolding get_ip
  on_after_register user request =
      emit user_created (some user.tenant_id) (some user.id) (get_ip trust request)

  pub on_after_login : User → Option Caller → Handler (Unit {0})
  unfolding get_ip
  on_after_login user request =
      emit user_login (some user.tenant_id) (some user.id) (get_ip trust request)

  pub on_after_reset_password : Settings → User → Option Caller → Handler (Unit {0})
  unfolding get_ip push_password_history
  on_after_reset_password cfg user request = do
    push_password_history cfg user
    emit user_password_reset (some user.tenant_id) (some user.id) (get_ip trust request)

  -- `on_after_update`, with whether the update has a password.
  pub on_after_update : Settings → User → Bool → Option Caller → Handler (Unit {0})
  unfolding get_ip push_password_history
  on_after_update cfg user false request = pure tt
  on_after_update cfg user true request = do
    push_password_history cfg user
    emit user_password_changed (some user.tenant_id) (some user.id) (get_ip trust request)
    spawn (password_changed_alert user.email)

pub on_after_request_verify : User → Text → Handler (Unit {0})
on_after_request_verify user token = spawn (verification_mail user.email token)

pub on_after_forgot_password : User → Text → Handler (Unit {0})
on_after_forgot_password user token = spawn (password_reset_mail user.email token)

-- `verify_and_update` of `_Argon2PasswordHelper`.
module _ (verifies : Text → Text → Bool) (needs_rehash : Text → Bool) (hash : Text → Text) where
  pub verify_and_update : Text → Text → Bool × Option Text
  verify_and_update plain hashed =
      if verifies hashed plain
      then (true, if needs_rehash hashed then some (hash plain) else none)
      else (false, none)
