-- ===== src/Sessions.antt =====
-- app/api/v1/sessions.py: a user's sessions, which are rows of `oauth_tokens`.
--
-- `not OAuthToken.revoked` in two of the queries is Python's `not` on a class attribute:
-- `not_attribute`. The blacklisting of a token's id is the code of `destroy_token` again, in a `try`
-- that swallows every exception: `destroyed_jti`. After an id that the table has already, the session
-- needs a rollback: later statements fail too, and the commit raises. The first failure is therefore
-- modelled as the request's.
mod Remote
mod Tests
use lite_iam.Prelude.{
  ℕ, Text, Bool, ◌&&◌, Option, none, some, List, [], ◌∷◌, ◌==◌, not_attribute, select_where,
  if◌then◌else◌, ltb, map, is_empty, find, update_where, true,
}
use lite_iam.Database.{
  ◌>>=◌, ◌>>◌, Handler, internal, gets, pure, or_raise, http, modify, emit, commit,
}
use lite_iam.Models.{OauthToken, User, RevokedToken, token_revoked}
use lite_iam.External.{External}
use lite_iam.Tokens.{Keys, destroyed_jti}
use lite_iam.Revocation.{revoke_token}

pub record SessionInfo : Type 0 where
  pub session_id : ℕ
  pub client_id : Text
  pub scope : Text
  pub access_token_expires_at : ℕ
  pub refresh_token_expires_at : Option ℕ
  pub token_family_id : Option ℕ

abbrev pub session_info : OauthToken → SessionInfo
session_info row = record {
  session_id = row.id;
  client_id = row.client_id;
  scope = row.scope;
  access_token_expires_at = row.access_token_expires_at;
  refresh_token_expires_at = row.refresh_token_expires_at;
  token_family_id = row.token_family_id;
}

abbrev pub is_listed : ℕ → ℕ → OauthToken → Bool
is_listed user_id now r =
    (r.user_id == user_id) && not_attribute && ltb now r.access_token_expires_at

pub list_sessions : User → ℕ → Handler (List SessionInfo)
list_sessions user now = do
  sessions ← gets (λ db. select_where (is_listed user.id now) db.tokens)
  pure (map session_info sessions)

abbrev blacklist_jti : Option (Text × ℕ) → Handler (Unit {0})
blacklist_jti none = pure tt
blacklist_jti (some (jti, exp)) = revoke_token jti exp

-- The row `id` of the user.
abbrev pub is_own : ℕ → ℕ → OauthToken → Bool
is_own user_id id r = (r.id == id) && (r.user_id == user_id)

module _ (x : External) (keys : Keys) where
  -- `revoke_session` of a row that was found.
  revoke_found : User → ℕ → ℕ → OauthToken → Handler (Unit {0})
  unfolding revoke_token
  revoke_found user now id row = if row.revoked then pure tt else do
    modify λ db. record db {
      tokens = update_where (λ r. r.id == id) (λ r. record r { revoked = true }) db.tokens;
    }
    blacklist_jti (destroyed_jti x keys now row.access_token)
    emit token_revoked (some user.tenant_id) (some user.id) none
    commit

  pub revoke_session : User → Text → ℕ → Handler (Unit {0})
  unfolding revoke_found
  revoke_session user session_id now = do
    id ← or_raise (x.as_uuid session_id) (http 400 "Invalid session_id")
    found ← gets (λ db. find (is_own user.id id) db.tokens)
    row ← or_raise found (http 404 "Session not found")
    revoke_found user now id row

  -- `update(…).where(user_id == user.id, not OAuthToken.revoked)`
  abbrev pub is_live_of : ℕ → OauthToken → Bool
  is_live_of user_id r = (r.user_id == user_id) && not_attribute

  abbrev blacklist_all : ℕ → List OauthToken → Handler (Unit {0})
  blacklist_all now [] = pure tt
  blacklist_all now (row ∷ rows) = do
    blacklist_jti (destroyed_jti x keys now row.access_token)
    blacklist_all now rows

  pub revoke_all_sessions : User → ℕ → Handler (Unit {0})
  revoke_all_sessions user now = do
    rows ← gets (λ db. select_where (is_live_of user.id) db.tokens)
    if is_empty rows then pure tt else do
      modify λ db. record db {
        tokens = update_where (is_live_of user.id) (λ r. record r { revoked = true }) db.tokens;
      }
      blacklist_all now rows
      emit token_revoked (some user.tenant_id) (some user.id) none
      commit
