-- ===== src/Oauth/Grant.antt =====
-- The token endpoint: the code and the refresh grant.
--
-- `not OAuthAuthorizationCode.used` in the lookup of a code is Python's `not` on a class
-- attribute, which is the constant False, and not the column's negation: `not_attribute`.
pub mod Codes
pub mod Families
pub mod Theft
use lite_iam.Prelude.{
  not_attribute, ℕ, Text, ◌+◌, Bool, true, false, not, ◌&&◌, ◌||◌, Option, none, some, List, [],
  ◌∷◌, ◌++◌, ◌==◌, ltb, if◌then◌else◌, truthy?, sql_eq, is_some, find, update_where,
}
use lite_iam.Models.{User, OauthClient, AuthorizationCode, OauthToken, token_issued}
use lite_iam.Settings.{Settings}
use lite_iam.External.{External}
use lite_iam.Database.{
  Handler, http, pure, raise, gets, or_raise, raise_if, when, modify, commit, emit, get_user, ◌>>=◌,
  ◌>>◌,
}
use lite_iam.Literals
use lite_iam.Oauth.Client.{pkce_verify, get_client, authenticate_client, check_grant_type}

-- What a request draws at random: a row id, a family id, a refresh token.
pub record Fresh : Type 0 where
  pub row_id : ℕ
  pub family_id : ℕ
  pub refresh_token : Text

-- The claims of the id token that come from the user and the code.
pub record IdToken : Type 0 where
  pub sub : ℕ
  pub aud : Text
  pub email : Text
  pub email_verified : Bool
  pub tenant_id : ℕ
  pub nonce : Option Text

pub record TokenResponse : Type 0 where
  pub access_token : Text
  pub refresh_token : Option Text
  pub scope : Option Text
  pub id_token : Option IdToken

-- `_make_id_token`
make_id_token : User → Text → Option Text → IdToken
make_id_token user client_id nonce = record {
  sub = user.id;
  aud = client_id;
  email = user.email;
  email_verified = user.is_verified;
  tenant_id = user.tenant_id;
  nonce = if truthy? nonce then nonce else none;
}

abbrev pub expired : ℕ → Option ℕ → Bool
expired now none = false
expired now (some at) = ltb at now

module _ (x : External) (cfg : Settings) (write_token : User → Text) (fresh : Fresh) (now : ℕ) where
  -- The token row of a redeemed code.
  abbrev pub first_row : OauthClient → AuthorizationCode → User → OauthToken
  first_row client auth_code user =
      let offline = x.has_substring Literals.offline_access auth_code.scope in
      record {
        id = fresh.row_id;
        access_token = write_token user;
        refresh_token = if offline then some fresh.refresh_token else none;
        client_id = client.client_id;
        user_id = user.id;
        scope = auth_code.scope;
        access_token_expires_at = now + cfg.access_token_lifetime_seconds;
        refresh_token_expires_at =
            if offline then some (now + cfg.refresh_token_lifetime_seconds) else none;
        revoked = false;
        token_family_id = if offline then some fresh.family_id else none;
      }

  -- The PKCE part of `_handle_code_grant`.
  check_pkce : OauthClient → AuthorizationCode → Option Text → Handler (Unit {0})
  check_pkce client auth_code code_verifier = elim code_verifier [
    | none ↦ raise (http 400 "PKCE code_verifier required")
    | some verifier ↦ elim auth_code.code_challenge [
      | none ↦ raise (http 400 "PKCE code_verifier required")
      | some challenge ↦ do
        raise_if (not (truthy? (some verifier)) || not (truthy? (some challenge)))
            (http 400 "PKCE code_verifier required")
        verified ← pkce_verify x verifier challenge (elim auth_code.code_challenge_method [
          | none ↦ Literals.s256_method
          | some method ↦ if truthy? (some method) then method else Literals.s256_method
        ])
        raise_if (not verified) (http 400 "PKCE verification failed")
    ]
  ]

  -- `_handle_code_grant` from the row on.
  unfoldable pub redeem_code :
      OauthClient → AuthorizationCode → Option Text → Option Text → Handler TokenResponse
  unfolding check_pkce pkce_verify make_id_token
  redeem_code client auth_code redirect_uri code_verifier = do
    raise_if (ltb auth_code.expires_at now) (http 400 "Authorization code has expired")
    raise_if (not (sql_eq redirect_uri auth_code.redirect_uri)) (http 400 "redirect_uri mismatch")
    when client.require_pkce (check_pkce client auth_code code_verifier)
    modify λ db. record db {
      codes = update_where (λ c. c.id == auth_code.id) (λ c. record c { used = true }) db.codes;
    }
    found ← gets (get_user auth_code.user_id)
    user ← or_raise found (http 400 "User not found or inactive")
    raise_if (not user.is_active) (http 400 "User not found or inactive")
    let row = first_row client auth_code user
    modify λ db. record db { tokens = db.tokens ++ row ∷ [] }
    emit token_issued (some user.tenant_id) (some user.id) none
    commit
    pure (record {
      access_token = write_token user;
      refresh_token = row.refresh_token;
      scope = some auth_code.scope;
      id_token =
          if x.has_substring Literals.openid auth_code.scope
          then some (make_id_token user client.client_id auth_code.nonce)
          else none;
    })

  -- `_handle_code_grant`
  pub handle_code_grant :
      Option Text → Option Text → Option Text → OauthClient → Handler TokenResponse
  unfolding redeem_code
  handle_code_grant code redirect_uri code_verifier client = do
    raise_if (not (truthy? code)) (http 400 "code is required")
    row ← gets (λ db.
        find (λ c. sql_eq code c.code && (c.client_id == client.client_id) && not_attribute)
          db.codes)
    auth_code ← or_raise row (http 400 "Invalid or expired authorization code")
    redeem_code client auth_code redirect_uri code_verifier

  -- A row is presented again after its rotation: its whole family is revoked, and that is
  -- committed before the error is raised.
  revoke_family : OauthClient → OauthToken → Handler TokenResponse
  revoke_family client token_row = do
    elim token_row.token_family_id [
      | none ↦ pure tt
      | some family ↦ do
        modify λ db. record db {
          tokens =
              update_where
                (λ r. sql_eq r.token_family_id family && (r.client_id == client.client_id))
                (λ r. record r { revoked = true }) db.tokens;
        }
        commit
    ]
    raise (
        http 401
          "Refresh token already used — possible token theft detected. Please sign in again.")

  -- The row that replaces a rotated one, in the same family.
  abbrev pub next_row : OauthClient → OauthToken → User → OauthToken
  next_row client token_row user = record {
    id = fresh.row_id;
    access_token = write_token user;
    refresh_token = some fresh.refresh_token;
    client_id = client.client_id;
    user_id = user.id;
    scope = token_row.scope;
    access_token_expires_at = now + cfg.access_token_lifetime_seconds;
    refresh_token_expires_at = some (now + cfg.refresh_token_lifetime_seconds);
    revoked = false;
    token_family_id = token_row.token_family_id;
  }

  rotate : OauthClient → OauthToken → Handler TokenResponse
  rotate client token_row = do
    raise_if (expired now token_row.refresh_token_expires_at) (http 400 "Refresh token has expired")
    found ← gets (get_user token_row.user_id)
    user ← or_raise found (http 400 "User not found or inactive")
    raise_if (not user.is_active) (http 400 "User not found or inactive")
    modify λ db. record db {
      tokens =
          update_where (λ r. r.id == token_row.id) (λ r. record r { revoked = true }) db.tokens
          ++ next_row client token_row user ∷ [];
    }
    emit token_issued (some user.tenant_id) (some user.id) none
    commit
    pure (record {
      access_token = write_token user;
      refresh_token = some fresh.refresh_token;
      scope = none;
      id_token = none;
    })

  -- `_handle_refresh_grant`
  unfoldable pub handle_refresh_grant : Option Text → OauthClient → Handler TokenResponse
  unfolding rotate revoke_family
  handle_refresh_grant none client = raise (http 400 "refresh_token is required")
  handle_refresh_grant (some refresh_token) client = do
    raise_if (not (truthy? (some refresh_token))) (http 400 "refresh_token is required")
    row ← gets (λ db.
        find (λ r. sql_eq r.refresh_token refresh_token && (r.client_id == client.client_id))
          db.tokens)
    token_row ← or_raise row (http 400 "Invalid refresh token")
    if token_row.revoked then revoke_family client token_row else rotate client token_row
