-- ===== src/Pat/Endpoints.antt =====
-- app/api/v1/tokens.py: the tokens of a user. A token is `aai_` and a random text, the value; its
-- hash is taken without the prefix. Rows stand in the order of their creation. The bounds of the
-- body's fields are the framework's, except for the expiry, which the rows depend on.
use lite_iam.Prelude.{
  ℕ, Text, ◌+◌, ◌*◌, Bool, true, false, not, ◌&&◌, Option, none, some, List, [], ◌∷◌, ◌++◌, ◌==◌,
  contains, if◌then◌else◌, leb, truthy, find, select_where, count_where, update_where,
}
use lite_iam.Database.{
  ◌>>=◌, ◌>>◌, Handler, gets, raise_if, http, or_raise, modify, emit, commit, spawn,
  pat_created_alert, pure,
}
use lite_iam.Literals
use lite_iam.Models.{PersonalAccessToken, User, token_issued, token_revoked}
use lite_iam.External.{External}

abbrev pub max_tokens_per_user : ℕ
max_tokens_per_user = 25

abbrev pub max_expiry_days : ℕ
max_expiry_days = 365

abbrev pub valid_scopes : List Text
valid_scopes = Literals.api_read ∷ Literals.api_write ∷ Literals.admin ∷ []

-- `not (set(xs) - set(ys))`
abbrev pub is_subset : List Text → List Text → Bool
is_subset [] ys = true
is_subset (a ∷ xs) ys = contains ys a && is_subset xs ys

pub record TokenCreate : Type 0 where
  pub name : Text
  pub scopes : List Text
  pub expires_in_days : Option ℕ

abbrev pub is_active_of : ℕ → PersonalAccessToken → Bool
is_active_of user_id p = (p.user_id == user_id) && p.is_active

-- `Field(default=90, ge=1, le=365)`
abbrev pub is_expiry : Option ℕ → Bool
is_expiry none = true
is_expiry (some days) = leb 1 days && leb days max_expiry_days

abbrev pub expiry : ℕ → Option ℕ → Option ℕ
expiry now none = none
expiry now (some days) = if truthy days then some (now + days * 86400) else none

module _ (x : External) where
  abbrev pub new_pat : User → TokenCreate → Text → ℕ → ℕ → PersonalAccessToken
  new_pat user body value id now = record {
    id = id;
    user_id = user.id;
    tenant_id = user.tenant_id;
    name = body.name;
    token_hash = x.sha256 value;
    scopes = body.scopes;
    expires_at = expiry now body.expires_in_days;
    is_active = true;
  }

  -- `create_token`: the reply shows the value once.
  unfoldable pub create_token : User → TokenCreate → Text → ℕ → ℕ → Handler Text
  create_token user body value id now = do
    raise_if (not (is_expiry body.expires_in_days)) (http 422 "expires_in_days")
    raise_if (not (is_subset body.scopes valid_scopes)) (http 400 "Invalid scopes")
    count ← gets (λ db. count_where (is_active_of user.id) db.pats)
    raise_if (leb max_tokens_per_user count) (http 400 "Maximum of 25 active tokens per user")
    modify λ db. record db { pats = db.pats ++ new_pat user body value id now ∷ [] }
    emit token_issued (some user.tenant_id) (some user.id) none
    commit
    spawn (pat_created_alert user.email)
    pure value

-- `list_tokens`, the newest first in the source.
unfoldable pub list_tokens : User → Handler (List PersonalAccessToken)
list_tokens user = gets (λ db. select_where (is_active_of user.id) db.pats)

abbrev pub is_own_pat : ℕ → ℕ → PersonalAccessToken → Bool
is_own_pat user_id token_id p = (p.id == token_id) && (p.user_id == user_id)

-- `revoke_token`
unfoldable pub revoke_token : User → ℕ → Handler (Unit {0})
revoke_token user token_id = do
  found ← gets (λ db. find (is_own_pat user.id token_id) db.pats)
  pat ← or_raise found (http 404 "Token not found")
  modify λ db. record db {
    pats = update_where (λ p. p.id == token_id) (λ p. record p { is_active = false }) db.pats;
  }
  emit token_revoked (some user.tenant_id) (some user.id) none
  commit
