-- ===== src/Enterprise/Idp.antt =====
-- app/api/v1/enterprise.py: the configuration of a tenant's provider, by superusers.
use lite_iam.Prelude.{
  ℕ, Text, Bool, true, not, List, [], ◌∷◌, ◌++◌, ◌==◌, is_some, truthy, find, update_where,
}
use lite_iam.Models.{User, TenantIdpConfig}
use lite_iam.External.{External}
use lite_iam.Database.{◌>>=◌, ◌>>◌, Handler, gets, or_raise, raise_if, http, modify, pure, commit}
use lite_iam.Enterprise.{is_config_of}

-- The body of the two writes.
pub record IdpConfigIn : Type 0 where
  pub tenant_id : ℕ
  pub discovery_url : Text
  pub client_id : Text
  pub client_secret : Text
  pub jit_enabled : Bool
  pub role_mapping : List (Text × Text)

abbrev pub new_config : External → ℕ → IdpConfigIn → TenantIdpConfig
new_config x id body = record {
  id = id;
  tenant_id = body.tenant_id;
  discovery_url = body.discovery_url;
  client_id = body.client_id;
  client_secret_enc = x.encrypt body.client_secret;
  jit_enabled = body.jit_enabled;
  role_mapping = body.role_mapping;
  is_active = true;
}

-- `current_superuser`
abbrev superuser : User → Handler (Unit {0})
superuser user = do
  raise_if (not user.is_active) (http 401 "Unauthorized")
  raise_if (not user.is_superuser) (http 403 "Forbidden")

unfoldable pub configure_idp : External → User → ℕ → IdpConfigIn → Handler ℕ
configure_idp x admin id body = do
  superuser admin
  existing ← gets (λ db. find (is_config_of body.tenant_id) db.idp_configs)
  raise_if (is_some existing) (http 409 "IDP config already exists for tenant")
  modify λ db. record db { idp_configs = db.idp_configs ++ new_config x id body ∷ [] }
  commit
  pure id

abbrev rewritten : External → IdpConfigIn → TenantIdpConfig → TenantIdpConfig
rewritten x body c = record c {
  discovery_url = body.discovery_url;
  client_id = body.client_id;
  client_secret_enc = x.encrypt body.client_secret;
  jit_enabled = body.jit_enabled;
  role_mapping = body.role_mapping;
}

unfoldable pub update_idp_config : External → User → ℕ → IdpConfigIn → Handler (Unit {0})
update_idp_config x admin tenant_id body = do
  superuser admin
  found ← gets (λ db. find (is_config_of tenant_id) db.idp_configs)
  config ← or_raise found (http 404 "IDP config not found")
  modify λ db. record db {
    idp_configs = update_where (λ c. c.id == config.id) (rewritten x body) db.idp_configs;
  }
  commit

-- What a superuser reads back: never the secret.
pub record IdpConfigOut : Type 0 where
  pub tenant_id : ℕ
  pub discovery_url : Text
  pub client_id : Text
  pub jit_enabled : Bool
  pub role_mapping : List (Text × Text)
  pub has_client_secret : Bool

abbrev pub config_out : TenantIdpConfig → IdpConfigOut
config_out c = record {
  tenant_id = c.tenant_id;
  discovery_url = c.discovery_url;
  client_id = c.client_id;
  jit_enabled = c.jit_enabled;
  role_mapping = c.role_mapping;
  has_client_secret = truthy c.client_secret_enc;
}

unfoldable pub get_idp_config : User → ℕ → Handler IdpConfigOut
get_idp_config admin tenant_id = do
  superuser admin
  found ← gets (λ db. find (is_config_of tenant_id) db.idp_configs)
  config ← or_raise found (http 404 "IDP config not found")
  pure (config_out config)
