-- ===== src/Enterprise.antt =====
-- app/identity/enterprise.py and app/api/v1/enterprise.py: signing in with a tenant's own provider.
--
-- The state's encodings are the codec of app/identity/social.py. The answers of the provider are a
-- parameter, `none` where the status is not 200. The roles of a user's groups are added to the
-- policies of the worker that serves the request.
pub mod Idp
mod State
mod Exchange
mod Callback
mod Roles
mod Config
mod Tests
use lite_iam.Prelude.{
  ℕ, Text, ◌+◌, Bool, true, false, not, ◌&&◌, Option, none, some, List, [], ◌∷◌, ◌++◌, ◌==◌, ltb,
  is_some, if◌then◌else◌, truthy, find, update_where, lookup, or_empty, is_empty,
}
use lite_iam.Models.{User, TenantIdpConfig}
use lite_iam.External.{External}
use lite_iam.Database.{
  ◌>>=◌, ◌>>◌, Handler, Result, Session, ok, err, internal, gets, or_raise, raise_if, http, modify,
  pure, commit, raise, Error,
}
use lite_iam.Social.{Codec, upsert_oauth_user}
use lite_iam.Social.Callback.{truthy_or_raise}
use lite_iam.Authz.{Casbin, System, grouping, safe_add, apply_at}

abbrev pub state_max_age : ℕ
state_max_age = 300

pub record Metadata : Type 0 where
  pub authorization_endpoint : Option Text
  pub token_endpoint : Option Text
  pub userinfo_endpoint : Option Text

-- The claims of userinfo that are read.
pub record UserInfo : Type 0 where
  pub email : Option Text
  pub sub : Option Text
  pub groups : Option (List Text)
  pub roles : Option (List Text)

pub record Provider : Type 0 where
  -- fetch_oidc_metadata of a discovery URL
  pub metadata : Text → Option Metadata
  -- the token request: endpoint, code, client id, client secret; the access token, if there is one
  pub exchange : Text → Text → Text → Text → Option (Option Text)
  -- the userinfo request: endpoint, access token
  pub userinfo : Text → Text → Option UserInfo
  -- f"enterprise:{tenant_id}"
  pub provider_name : ℕ → Text
  -- f"{authorization_endpoint}?{urlencode(params)}" of the client id and the state
  pub authorize_url : Text → Text → Text → Text
  -- tenant_id.hex
  pub hex : ℕ → Text

-- `_make_enterprise_state`
unfoldable pub make_enterprise_state : External → Codec → Text → ℕ → Text → ℕ → Text
make_enterprise_state x codec secret_key tenant_id nonce now =
    let payload = codec.payload (x.str_uuid tenant_id) nonce (codec.show_int now) in
    codec.encode payload (codec.sign secret_key payload)

abbrev pub check_state : Codec → Text → ℕ → Text × Text × Text × Text → Handler Text
check_state codec secret_key now (tenant_id, nonce, ts, sig) = do
  raise_if (not (sig == codec.sign secret_key (codec.payload tenant_id nonce ts)))
      (http 400 "Invalid enterprise OAuth state signature")
  at ← or_raise (codec.as_int ts) internal
  raise_if (ltb (at + state_max_age) now) (http 400 "Enterprise OAuth state expired")
  pure tenant_id

-- `_verify_enterprise_state`
unfoldable pub verify_enterprise_state : Codec → Text → ℕ → Text → Handler Text
verify_enterprise_state codec secret_key now state = do
  parts ← or_raise (codec.decode state) (http 400 "Malformed enterprise OAuth state")
  check_state codec secret_key now parts

abbrev pub is_config_of : ℕ → TenantIdpConfig → Bool
is_config_of tenant_id c = c.tenant_id == tenant_id

abbrev pub is_active_config_of : ℕ → TenantIdpConfig → Bool
is_active_config_of tenant_id c = (c.tenant_id == tenant_id) && c.is_active

unfoldable pub get_tenant_idp_config : ℕ → Handler TenantIdpConfig
get_tenant_idp_config tenant_id = do
  found ← gets (λ db. find (is_active_config_of tenant_id) db.idp_configs)
  or_raise found (http 404 "No IDP configured for tenant")

-- `userinfo.get("groups", userinfo.get("roles", []))`
abbrev pub idp_groups : UserInfo → List Text
idp_groups u = elim u.groups [ none ↦ or_empty u.roles | some groups ↦ groups ]

abbrev pub or_default : Option Text → Text → Text
or_default none d = d
or_default (some t) d = t

module _ (x : External) (codec : Codec) (secret_key : Text) (idp : Provider) where
  unfoldable pub build_authorize_url : ℕ → Text → ℕ → Handler Text
  unfolding get_tenant_idp_config make_enterprise_state
  build_authorize_url tenant_id nonce now = do
    config ← get_tenant_idp_config tenant_id
    metadata ←
        or_raise (idp.metadata config.discovery_url) (http 502 "Failed to fetch OIDC metadata")
    endpoint ←
        truthy_or_raise metadata.authorization_endpoint
          (http 502 "IDP discovery missing authorization_endpoint")
    pure (
        idp.authorize_url endpoint config.client_id
          (make_enterprise_state x codec secret_key tenant_id nonce now))

  unfoldable pub enterprise_login : Text → Text → ℕ → Handler Text
  unfolding build_authorize_url
  enterprise_login tenant_id nonce now = do
    tid ← or_raise (x.as_uuid tenant_id) (http 400 "Invalid tenant_id")
    build_authorize_url tid nonce now

  -- The two requests of the exchange, with the client's secret.
  abbrev pub exchange_at : Text → TenantIdpConfig → Text → Text → Handler (Text × UserInfo)
  exchange_at code config token_endpoint userinfo_endpoint = do
    client_secret ← or_raise (x.decrypt config.client_secret_enc) internal
    token_data ←
        or_raise (idp.exchange token_endpoint code config.client_id client_secret)
          (http 400 "Enterprise IDP token exchange failed")
    access_token ← or_raise token_data internal
    userinfo ←
        or_raise (idp.userinfo userinfo_endpoint access_token)
          (http 400 "Failed to fetch enterprise userinfo")
    pure (access_token, userinfo)

  -- The exchange of the code: the access token and what the provider says of its user.
  unfoldable pub ask_provider : Text → TenantIdpConfig → Handler (Text × UserInfo)
  ask_provider code config = do
    metadata ←
        or_raise (idp.metadata config.discovery_url) (http 502 "Failed to fetch OIDC metadata")
    token_endpoint ←
        truthy_or_raise metadata.token_endpoint (http 502 "IDP discovery missing endpoints")
    userinfo_endpoint ←
        truthy_or_raise metadata.userinfo_endpoint (http 502 "IDP discovery missing endpoints")
    exchange_at code config token_endpoint userinfo_endpoint

  -- The account that is made or found for what the provider says, with the ids that the upserts
  -- draw.
  unfoldable pub provision :
      ℕ → ℕ → ℕ → TenantIdpConfig → Text × UserInfo → Handler (User × TenantIdpConfig × UserInfo)
  provision user_id link_id tenant_id config (access_token, userinfo) = do
    email ← truthy_or_raise userinfo.email (http 400 "IDP did not return an email claim")
    user ←
        upsert_oauth_user x user_id link_id email tenant_id (idp.provider_name config.tenant_id)
          (or_default userinfo.sub email) access_token
    pure (user, config, userinfo)

  unfoldable pub sign_in_at : Text → ℕ → ℕ → ℕ → Handler (User × TenantIdpConfig × UserInfo)
  sign_in_at code user_id link_id tenant_id = do
    config ← get_tenant_idp_config tenant_id
    answer ← ask_provider code config
    provision user_id link_id tenant_id config answer

  -- `handle_callback` up to the roles.
  unfoldable pub handle_callback :
      Text → Text → ℕ → ℕ → ℕ → Handler (User × TenantIdpConfig × UserInfo)
  handle_callback code state now user_id link_id = do
    tenant_id_str ← verify_enterprise_state codec secret_key now state
    tenant_id ← or_raise (x.as_uuid tenant_id_str) internal
    sign_in_at code user_id link_id tenant_id

  module _ {Model Store : Type 0} (c : Casbin Model Store) (write_token : User → Text) where
    -- The internal role of a group, if it has one.
    abbrev pub add_role :
        ℕ → User → TenantIdpConfig → Option Text → System Model Store → System Model Store
    add_role w user config none s = s
    add_role w user config (some role) s =
        if truthy role
        then (apply_at c
            (safe_add c (grouping (x.str_uuid user.id) role (idp.hex config.tenant_id))) w s).1
        else s

    -- `_apply_role_mapping` at the worker `w`.
    unfoldable pub apply_roles :
        ℕ → User → TenantIdpConfig → List Text → System Model Store → System Model Store
    apply_roles w user config [] s = s
    apply_roles w user config (group ∷ groups) s =
        apply_roles w user config groups
          (add_role w user config (lookup group config.role_mapping) s)

    abbrev pub apply_role_mapping :
        ℕ → User → TenantIdpConfig → UserInfo → System Model Store → System Model Store
    apply_role_mapping w user config userinfo s =
        if is_empty config.role_mapping
        then s
        else apply_roles w user config (idp_groups userinfo) s

    abbrev pub mapped :
        ℕ
        → System Model Store
        → Result (User × TenantIdpConfig × UserInfo) × Session
        → (Result Text × Session) × System Model Store
    mapped w sys (err e, s) = ((err e, s), sys)
    mapped w sys (ok (user, config, userinfo), s) =
        ((ok (write_token user), s), apply_role_mapping w user config userinfo sys)

    -- The reply and the session, and the policies of the workers.
    unfoldable pub enterprise_callback :
        ℕ
        → Text
        → Text
        → ℕ
        → ℕ
        → ℕ
        → System Model Store
        → Session
        → (Result Text × Session) × System Model Store
    enterprise_callback w code state now user_id link_id sys s =
        mapped w sys (handle_callback code state now user_id link_id s)
