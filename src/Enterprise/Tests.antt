-- ===== src/Enterprise/Tests.antt =====
-- A sign-in to the tenant 3 with the state 1, signed at 100, and a provider that vouches for the
-- address 15.
use lite_iam.Prelude.{ℕ, Text, ◌+◌, ◌≡◌, refl, true, none, some, [], ◌∷◌, find}
use lite_iam.Fixtures.{plain, ada, with_user}
use lite_iam.Models.{TenantIdpConfig}
use lite_iam.Database.{Db, ok, open_session}
use lite_iam.Social.{Codec}
use lite_iam.Enterprise.{
  Provider, UserInfo, handle_callback, sign_in_at, provision, verify_enterprise_state,
  get_tenant_idp_config, ask_provider, is_active_config_of,
}
use lite_iam.Enterprise.Exchange.{HasAnswered}
use lite_iam.Enterprise.Callback.{enterprise_sound, VouchesFor, IsAccountOf}
use lite_iam.Social.{new_user, upsert_oauth_user}

abbrev codec : Codec
codec = record {
  payload = λ tenant_id nonce ts. tenant_id + nonce + ts;
  sign = λ secret_key payload. secret_key + payload;
  encode = λ payload sig. 1;
  decode = λ state. some (3, 51, 100, 9 + (3 + 51 + 100));
  show_int = λ n. n;
  as_int = λ t. some t;
  nonce_key = λ nonce. nonce;
}

abbrev info : UserInfo
info = record { email = some 15; sub = some 16; groups = some (21 ∷ []); roles = none }

abbrev okta : Provider
okta = record {
  metadata = λ url. some (record {
    authorization_endpoint = some 31;
    token_endpoint = some 32;
    userinfo_endpoint = some 33;
  });
  exchange = λ endpoint code client_id client_secret. some (some 34);
  userinfo = λ endpoint access_token. some info;
  provider_name = λ tenant_id. 35;
  authorize_url = λ endpoint client_id state. 36;
  hex = λ tenant_id. tenant_id;
}

abbrev config : TenantIdpConfig
config = record {
  id = 41;
  tenant_id = 3;
  discovery_url = 42;
  client_id = 43;
  client_secret_enc = 44;
  jit_enabled = true;
  role_mapping = (21, 22) ∷ [];
  is_active = true;
}

abbrev tables : Db
tables = record (with_user ada) { idp_configs = config ∷ [] }

returns :
    (handle_callback plain codec 9 okta 5 1 150 2 6 (open_session tables)).0
    ≡ ok (new_user 2 15 3, config, info)
unfolding handle_callback verify_enterprise_state sign_in_at get_tenant_idp_config ask_provider
    provision upsert_oauth_user
returns = refl

enterprise_sound_example :
    (tenant_id : ℕ) × (email : Text) × (access_token : Text) × VouchesFor plain codec 9 okta 5 1 150
      2 6 tenant_id
    × (find (is_active_config_of tenant_id) tables.idp_configs ≡ some config)
    × HasAnswered plain codec 9 okta 5 config access_token info
    × (info.email ≡ some email)
    × IsAccountOf plain codec 9 okta 5 1 150 2 6 tenant_id email tables (new_user 2 15 3)
enterprise_sound_example =
    enterprise_sound plain codec 9 okta 5 1 150 2 6 tables (new_user 2 15 3) config info returns
