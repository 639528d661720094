-- ===== src/Enterprise/Config.antt =====
-- app/api/v1/enterprise.py: what a superuser configures, and what the sign-in then uses.
use lite_iam.Prelude.{ℕ, ◌≡◌, refl, true, none, find, arith, ◌∷◌, [], truthy}
use lite_iam.Models.{User}
use lite_iam.External.{External}
use lite_iam.Database.{Db, ok, get_session}
use lite_iam.Database.Runs.{find-append_none}
use lite_iam.Enterprise.{
  get_tenant_idp_config, is_config_of, is_active_config_of, List, TenantIdpConfig,
}
use lite_iam.Enterprise.Idp.{IdpConfigIn, configure_idp, get_idp_config, new_config}

weaker :
    (tenant_id : ℕ) (configs : List TenantIdpConfig)
    → find (is_config_of tenant_id) configs ≡ none
    → find (is_active_config_of tenant_id) configs ≡ none
weaker tenant_id [] absent = refl
weaker tenant_id (c ∷ configs) absent = ground (arith, weaker tenant_id configs)

module _ (x : External) (admin : User) (id : ℕ) (body : IdpConfigIn) (db : Db) where
  abbrev pub configured : Db
  configured = (get_session (configure_idp x admin id body) db).1

  pub configure_then_read :
      admin.is_active ≡ true
      → admin.is_superuser ≡ true
      → find (is_config_of body.tenant_id) db.idp_configs ≡ none
      → (get_session (get_idp_config admin body.tenant_id) configured ≡ (
        ok (record {
          tenant_id = body.tenant_id;
          discovery_url = body.discovery_url;
          client_id = body.client_id;
          jit_enabled = body.jit_enabled;
          role_mapping = body.role_mapping;
          has_client_secret = truthy (x.encrypt body.client_secret);
        }),
        configured,
      ))
        × (get_session (get_tenant_idp_config body.tenant_id) configured
            ≡ (ok (new_config x id body), configured))
  unfolding configure_idp get_idp_config get_tenant_idp_config
  configure_then_read active chief absent =
      rw (active, chief, absent)
        (
          rw
              (find-append_none (is_config_of body.tenant_id) db.idp_configs
                (new_config x id body ∷ []) absent)
              (ground arith),
          rw
              (find-append_none (is_active_config_of body.tenant_id) db.idp_configs
                (new_config x id body ∷ []) (weaker body.tenant_id db.idp_configs absent))
              (ground arith),
        )
