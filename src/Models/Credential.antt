-- ===== src/Models/Credential.antt =====
-- app/models/signing_key.py, passkey.py, passkey_challenge.py, idp_config.py and the OAuthAccount of
-- user.py: keys and credentials.
use lite_iam.Prelude.{ℕ, Text, Bool, Option, List}

pub record SigningKey : Type 0 where
  pub kid : Text
  pub private_key_enc : Text
  pub public_key_pem : Text
  pub is_current : Bool
  pub expires_at : ℕ

pub record PasskeyCredential : Type 0 where
  pub id : ℕ
  pub user_id : ℕ
  pub credential_id : Text
  pub public_key : Text
  pub sign_count : ℕ
  pub device_name : Option Text
  pub aaguid : Option Text
  pub is_revoked : Bool
  pub created_at : ℕ
  pub last_used_at : Option ℕ

pub record PasskeyChallenge : Type 0 where
  pub id : ℕ
  pub user_id : ℕ
  pub challenge : Text
  pub purpose : Text
  pub expires_at : ℕ

pub record OauthAccount : Type 0 where
  pub id : ℕ
  pub user_id : ℕ
  pub oauth_name : Text
  pub account_id : Text
  pub account_email : Text
  pub access_token_enc : Text

pub record TenantIdpConfig : Type 0 where
  pub id : ℕ
  pub tenant_id : ℕ
  pub discovery_url : Text
  pub client_id : Text
  pub client_secret_enc : Text
  pub jit_enabled : Bool
  pub role_mapping : List (Text × Text)
  pub is_active : Bool
