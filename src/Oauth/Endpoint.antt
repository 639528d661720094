-- ===== src/Oauth/Endpoint.antt =====
-- `token`, `revoke` and `introspect` of app/server/endpoints.py: the endpoints over the grants.
pub mod Guards
use lite_iam.Prelude.{
  ℕ, Text, ◌+◌, Bool, true, false, not, ◌&&◌, ◌||◌, Option, none, some, List, [], ◌∷◌, ◌==◌,
  if◌then◌else◌, truthy?, sql_eq, find, update_where, lookup,
}
use lite_iam.Models.{User, OauthClient, OauthToken, token_revoked}
use lite_iam.Settings.{Settings}
use lite_iam.External.{External}
use lite_iam.Database.{
  Handler, http, pure, raise, raise_if, gets, modify, commit, emit, ◌>>=◌, ◌>>◌,
}
use lite_iam.Literals
use lite_iam.Tokens.{Claims, Keys, Stamp, decode_token, destroyed_jti}
use lite_iam.Revocation.{revoke_token}
use lite_iam.Oauth.Client.{get_client, check_grant_type, authenticate_client}
use lite_iam.Oauth.Grant.{Fresh, TokenResponse, handle_code_grant, handle_refresh_grant}

-- The form of the token endpoint and its Authorization header.
pub record TokenRequest : Type 0 where
  pub grant_type : Text
  pub client_id : Text
  pub client_secret : Option Text
  pub authorization : Text
  pub code : Option Text
  pub redirect_uri : Option Text
  pub code_verifier : Option Text
  pub refresh_token : Option Text
  pub scope : Option Text

-- `scope or "openid"`
abbrev pub scope_or_openid : Option Text → Text
scope_or_openid none = Literals.openid
scope_or_openid (some scope) = if truthy? (some scope) then scope else Literals.openid

module _ (x : External) (cfg : Settings) (keys : Keys) (stamp : Stamp) where
  -- A machine's token names the client, and no user.
  abbrev pub machine_payload : Option Text → OauthClient → Claims
  machine_payload scope client =
      (Literals.iss, stamp.base_url)
      ∷ (Literals.sub, x.client_subject client.client_id)
      ∷ (Literals.aud, Literals.audience)
      ∷ (Literals.iat, stamp.now)
      ∷ (Literals.nbf, stamp.now)
      ∷ (Literals.exp, stamp.now + cfg.access_token_lifetime_seconds)
      ∷ (Literals.jti, stamp.jti)
      ∷ (Literals.client_id, client.client_id)
      ∷ (Literals.auth_stage, Literals.complete)
      ∷ (Literals.scope, scope_or_openid scope)
      ∷ []

  -- `_handle_client_credentials`
  unfoldable pub handle_client_credentials : Option Text → OauthClient → Handler TokenResponse
  unfolding check_grant_type
  handle_client_credentials scope client = do
    raise_if (not (check_grant_type client Literals.client_credentials))
        (http 400 "Client not authorized for client_credentials")
    pure (record {
      access_token = x.jwt_encode keys.private_pem keys.kid (machine_payload scope client);
      refresh_token = none;
      scope = some (scope_or_openid scope);
      id_token = none;
    })

  -- `token`
  pub token : (User → Text) → Fresh → TokenRequest → Handler TokenResponse
  unfolding get_client
  token write_token fresh request = do
    client ← get_client request.client_id
    authenticate_client x client request.client_id request.client_secret request.authorization
    if request.grant_type == Literals.authorization_code
        then handle_code_grant x cfg write_token fresh stamp.now request.code request.redirect_uri
            request.code_verifier client
        else if request.grant_type == Literals.refresh_token
        then handle_refresh_grant x cfg write_token fresh stamp.now request.refresh_token client
        else if request.grant_type == Literals.client_credentials
        then handle_client_credentials request.scope client
        else raise (http 400 "Unsupported grant_type")

-- The id of a signed token is blacklisted.
abbrev revoke_jti : Option (Text × ℕ) → Handler (Unit {0})
revoke_jti none = pure tt
revoke_jti (some (jti, exp)) = revoke_token jti exp

-- The token row, where there is one, is revoked.
abbrev revoke_row : Option OauthToken → Handler (Unit {0})
revoke_row none = pure tt
revoke_row (some row) = if row.revoked then pure tt else do
  modify λ db. record db {
    tokens = update_where (λ r. r.id == row.id) (λ r. record r { revoked = true }) db.tokens;
  }
  emit token_revoked none (some row.user_id) none

abbrev pub is_token : Text → OauthToken → Bool
is_token token r = sql_eq r.refresh_token token || (r.access_token == token)

-- `revoke`: an access token, a refresh token, or neither. The blacklisting is in a `try` that
-- swallows every exception, and the query after it raises where the flush failed.
pub revoke : External → Keys → ℕ → Text → Handler (Unit {0})
unfolding revoke_token
revoke x keys now token = do
  revoke_jti (destroyed_jti x keys now token)
  row ← gets (λ db. find (is_token token) db.tokens)
  revoke_row row
  commit

-- What `introspect` says of a token.
pub data Introspection : Type 0 where
  inactive : Introspection
  active : (sub tenant_id scope exp iat auth_stage : Option Text) → Introspection

-- `payload.get("scope", "openid")`
abbrev scope_claim : Claims → Option Text
scope_claim payload = elim (lookup Literals.scope payload) [
  | none ↦ some Literals.openid
  | some scope ↦ some scope
]

-- `introspect`
pub introspect : External → Keys → ℕ → Text → Introspection
introspect x keys now token = elim (decode_token x keys true now token) [
  | none ↦ inactive
  | some payload ↦
      active (lookup Literals.sub payload) (lookup Literals.tenant_id payload) (scope_claim payload)
        (lookup Literals.exp payload) (lookup Literals.iat payload)
        (lookup Literals.auth_stage payload)
]
