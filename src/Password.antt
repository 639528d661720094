-- ===== src/Password.antt =====
-- app/identity/password.py: what passwords are accepted, and the history of an account.
--
-- A password is the list of its character codes. Whether argon2 verifies it against a hash and
-- whether the breach list has it are parameters; a breach list that cannot be reached counts as a
-- no, as in the source. fastapi-users stores the new hash before it calls `on_after_update`.
pub mod Manager
mod Policy
mod Tests
use lite_iam.Prelude.{
  ℕ, Text, ◌-◌, Bool, true, false, not, ◌&&◌, ◌||◌, Option, none, some, List, [], ◌∷◌, ◌++◌, ltb,
  leb, ◌==◌, if◌then◌else◌, truthy, or_empty, length, drop,
}
use lite_iam.Models.{User}
use lite_iam.Settings.{Settings}
use lite_iam.Database.{Handler, pure, commit, update_user, ◌>>◌}

abbrev pub Password : Type 0
Password = List ℕ

-- `InvalidPasswordException` by its reason.
pub data Invalid : Type 0 where
  too_short no_uppercase no_lowercase no_digit no_special breached reused : Invalid

abbrev pub any : {A : Type 0} → (A → Bool) → List A → Bool
any p [] = false
any p (a ∷ rest) = p a || any p rest

-- `[A-Z]`, `[a-z]`, `[0-9]` and `[^A-Za-z0-9]`
abbrev pub is_upper : ℕ → Bool
is_upper c = leb 65 c && leb c 90

abbrev pub is_lower : ℕ → Bool
is_lower c = leb 97 c && leb c 122

abbrev pub is_digit : ℕ → Bool
is_digit c = leb 48 c && leb c 57

abbrev pub is_special : ℕ → Bool
is_special c = not (is_upper c || is_lower c || is_digit c)

-- `history[-depth:]`, for a positive depth.
abbrev pub last : ℕ → List Text → List Text
last depth history = drop (length history - depth) history

-- The hashes that a new password must not match: the history and the hash in force.
abbrev pub hashes : User → List Text
hashes user =
    if truthy user.hashed_password
    then or_empty user.password_history ++ user.hashed_password ∷ []
    else or_empty user.password_history

module _ (verifies : Text → Password → Bool) (is_breached : Password → Bool) (cfg : Settings) where
  abbrev pub is_reused : Password → Option User → Bool
  is_reused password none = false
  is_reused password (some user) =
      ltb 0 cfg.password_history_depth
      && any (λ h. verifies h password) (last cfg.password_history_depth (hashes user))

  -- `validate_password`: `none` where nothing is raised.
  unfoldable pub validate_password : Password → Option User → Option Invalid
  validate_password password user =
      if ltb (length password) 8
      then some too_short
      else if not (any is_upper password)
      then some no_uppercase
      else if not (any is_lower password)
      then some no_lowercase
      else if not (any is_digit password)
      then some no_digit
      else if not (any is_special password)
      then some no_special
      else if is_breached password
      then some breached
      else if is_reused password user
      then some reused
      else none

module _ (cfg : Settings) where
  -- `_push_password_history`
  pub push_password_history : User → Handler (Unit {0})
  push_password_history user =
      if not (ltb 0 cfg.password_history_depth) || not (truthy user.hashed_password)
      then pure tt
      else do
        update_user user.id (λ u. record u {
          password_history = some (
              last cfg.password_history_depth
                (or_empty user.password_history ++ user.hashed_password ∷ []));
        })
        commit
