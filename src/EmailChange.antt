-- ===== src/EmailChange.antt =====
-- app/api/v1/email_change.py: a change of address, confirmed at the new one. The random token and the
-- row's id are arguments, and the reply is left out.
--
-- `not EmailChangeRequest.is_used` is Python's `not` on a class attribute: `not_attribute`. The
-- column `email` of the accounts is unique: writing an address that another account has raises.
mod Confirm
use lite_iam.Prelude.{
  ℕ, Text, ◌+◌, ◌*◌, Bool, true, false, not, ◌&&◌, Option, none, some, List, [], ◌∷◌, ◌++◌, ltb,
  ◌==◌, if◌then◌else◌, is_some, find, not_attribute, update_where,
}
use lite_iam.Database.{
  ◌>>=◌, ◌>>◌, Error, Handler, internal, gets, http, modify, raise_if, or_raise, update_user, emit,
  commit, spawn, email_change_complete, email_change_mails, pure,
}
use lite_iam.External.{External}
use lite_iam.Models.{EmailChangeRequest, User, user_email_changed, user_updated}

abbrev pub change_ttl : ℕ
change_ttl = 24 * 3600

abbrev pub invalid_token : Error
invalid_token = http 400 "Invalid or expired email change token"

-- The UPDATE of an address under the unique constraint.
abbrev pub set_email : ℕ → Text → Handler (Unit {0})
set_email user_id email = do
  taken ← gets (λ db. is_some (find (λ u. (u.email == email) && not (u.id == user_id)) db.users))
  raise_if taken internal
  update_user user_id (λ u. record u { email = email })

module _ (x : External) where
  abbrev pub new_request : User → Text → Text → ℕ → ℕ → EmailChangeRequest
  new_request user new_email raw_token id now = record {
    id = id;
    user_id = user.id;
    tenant_id = user.tenant_id;
    new_email = new_email;
    token_hash = x.sha256 raw_token;
    expires_at = now + change_ttl;
    is_used = false;
  }

  -- The requests that a new one makes invalid.
  abbrev pub is_superseded : ℕ → EmailChangeRequest → Bool
  is_superseded user_id r = (r.user_id == user_id) && not_attribute

  pub request_email_change : User → Text → Text → ℕ → ℕ → Handler (Unit {0})
  request_email_change user new_email raw_token id now = do
    let new_email = x.strip (x.lower new_email)
    raise_if (new_email == x.lower user.email)
        (http 400 "New email must differ from the current email")
    modify λ db. record db {
      email_changes =
          update_where (is_superseded user.id) (λ r. record r { is_used = true }) db.email_changes
          ++ new_request user new_email raw_token id now ∷ [];
    }
    emit user_updated (some user.tenant_id) (some user.id) none
    commit
    spawn (email_change_mails new_email user.email)

  -- `confirm_email_change` from the row on.
  pub apply_change : User → EmailChangeRequest → Handler Text
  apply_change user req = do
    modify λ db. record db {
      email_changes =
          update_where (λ r. r.id == req.id) (λ r. record r { is_used = true }) db.email_changes;
    }
    set_email user.id req.new_email
    emit user_email_changed (some user.tenant_id) (some user.id) none
    commit
    spawn (email_change_complete user.email req.new_email)
    pure req.new_email

  abbrev pub is_confirmable : ℕ → Text → ℕ → EmailChangeRequest → Bool
  is_confirmable user_id token now r =
      (r.token_hash == x.sha256 token)
      && (r.user_id == user_id)
      && not_attribute
      && ltb now r.expires_at

  pub confirm_email_change : User → Text → ℕ → Handler Text
  confirm_email_change user token now = do
    found ← gets (λ db. find (is_confirmable user.id token now) db.email_changes)
    req ← or_raise found invalid_token
    apply_change user req
