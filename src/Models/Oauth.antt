-- ===== src/Models/Oauth.antt =====
-- app/models/client.py and app/models/token.py: the tables of the OAuth server.
use lite_iam.Prelude.{ℕ, Text, Bool, Option, List}

pub record OauthClient : Type 0 where
  pub id : ℕ
  pub client_id : Text
  pub client_secret_enc : Option Text
  pub redirect_uris : List Text
  pub allowed_scopes : List Text
  pub grant_types : List Text
  pub require_pkce : Bool
  pub auto_approve : Bool
  pub is_active : Bool

pub record AuthorizationCode : Type 0 where
  pub id : ℕ
  pub code : Text
  pub client_id : Text
  pub user_id : ℕ
  pub redirect_uri : Text
  pub scope : Text
  pub code_challenge : Option Text
  pub code_challenge_method : Option Text
  pub nonce : Option Text
  pub expires_at : ℕ
  pub used : Bool

pub record OauthToken : Type 0 where
  pub id : ℕ
  pub access_token : Text
  pub refresh_token : Option Text
  pub client_id : Text
  pub user_id : ℕ
  pub scope : Text
  pub access_token_expires_at : ℕ
  pub refresh_token_expires_at : Option ℕ
  pub revoked : Bool
  pub token_family_id : Option ℕ
