-- ===== src/Enterprise/Callback.antt =====
-- app/identity/enterprise.py: what a sign-in with a tenant's provider was let in by.
use lite_iam.Prelude.{
  ℕ, Text, ◌+◌, ◌≡◌, ◌≤◌, refl, true, none, some, find, arith, Option-cases, Bool-cases, inl, inr,
  truthy, ap, ◌⊎◌,
}
use lite_iam.Models.{User, TenantIdpConfig}
use lite_iam.External.{External}
use lite_iam.Database.{Db, Result, ok, Session, open_session}
use lite_iam.Social.{Codec, upsert_oauth_user, has_email}
use lite_iam.Database.Runs.{bind_ok, Result-cases}
use lite_iam.Enterprise.{
  Provider, UserInfo, handle_callback, verify_enterprise_state, get_tenant_idp_config, ask_provider,
  state_max_age, is_active_config_of, or_default, provision, sign_in_at,
}
use lite_iam.Social.Account.{upsert_oauth_user_lem}
use lite_iam.Enterprise.Exchange.{or_raise_ran, HasAnswered, ask_provider-still, ask_provider_sound}
use lite_iam.Enterprise.State.{verify_enterprise_state_sound}

config_ran :
    (tenant_id : ℕ) (s s' : Session) (config : TenantIdpConfig)
    → get_tenant_idp_config tenant_id s ≡ (ok config, s')
    → (find (is_active_config_of tenant_id) s.live.idp_configs ≡ some config) × (s' ≡ s)
unfolding get_tenant_idp_config
config_ran tenant_id s s' config ran = or_raise_ran _ _ s s' config ran

module _ (x : External) (codec : Codec) (secret_key : Text) (idp : Provider) (code state : Text)
    (now user_id link_id : ℕ) where
  -- What a state says of a sign-in at this time.
  abbrev pub VouchesFor : ℕ → Type 0
  VouchesFor tenant_id =
      (t nonce ts : Text) × (at : ℕ) × (codec.decode state
        ≡ some (t, nonce, ts, codec.sign secret_key (codec.payload t nonce ts)))
      × (codec.as_int ts ≡ some at)
      × (now ≤ at + state_max_age)
      × (x.as_uuid t ≡ some tenant_id)

  -- The account that a sign-in reaches: a new one, or the tenant's own with the address.
  abbrev pub IsAccountOf : ℕ → Text → Db → User → Type 0
  IsAccountOf tenant_id email db user =
      (user.email ≡ email)
      × (user.tenant_id ≡ tenant_id)
      × (user.is_active ≡ true)
      × ((find (has_email email) db.users ≡ none)
          ⊎ ((u : User) × (find (has_email email) db.users ≡ some u)
              × (user ≡ record u { is_active = true })))

  upsert_sound :
      (email : Text) (tenant_id : ℕ) (provider sub access_token : Text) (db : Db) (user : User)
      → (upsert_oauth_user x user_id link_id email tenant_id provider sub access_token
          (open_session db)).0
        ≡ ok user
      → IsAccountOf tenant_id email db user
  upsert_sound email tenant_id provider sub access_token db user done =
      elim (upsert_oauth_user_lem x user_id link_id email tenant_id provider sub access_token db) [
        | inl (user', (replies, at, own, active, stored, linked), origin) ↦
            let same : user' ≡ user = cc in rw⁻¹ same (at, own, active, origin)
        | inr (u, found, foreign, refused) ↦
            absurd (ground (arith, ap (λ (p : Result User × Db). p.0) refused))
      ]

  -- The reply of the upsert.
  abbrev upserted_as : ℕ → Text → TenantIdpConfig → Text → UserInfo → Db → Result User
  upserted_as tenant_id email c access_token info db =
      (upsert_oauth_user x user_id link_id email tenant_id (idp.provider_name c.tenant_id)
        (or_default info.sub email) access_token (open_session db)).0

  -- The provider gave the account's address.
  provision_sound :
      (tenant_id : ℕ) (c : TenantIdpConfig) (access_token : Text) (info : UserInfo) (db : Db)
      (user : User) (config : TenantIdpConfig) (userinfo : UserInfo)
      → (provision x codec secret_key idp user_id link_id tenant_id c
          (access_token, info)
          (open_session db)).0
        ≡ ok (user, config, userinfo)
      → (email : Text) × (config ≡ c)
        × (userinfo ≡ info)
        × (userinfo.email ≡ some email)
        × IsAccountOf tenant_id email db user
  unfolding provision
  provision_sound tenant_id c access_token info db user config userinfo done =
      elim (Option-cases info.email) [
        | inl absent ↦ absurd (ground arith)
        | inr (email, given) ↦ elim (Bool-cases (truthy email)) [
          | inr empty ↦ absurd (ground arith)
          | inl full ↦ elim (Result-cases (upserted_as tenant_id email c access_token info db)) [
            | inr (e, failed) ↦ absurd (ground arith)
            | inl (u, reached) ↦
                let whole : (provision x codec secret_key idp user_id link_id tenant_id c
                      (access_token, info) (open_session db)).0
                    ≡ ok (u, c, info) =
                  rw (given, full, reached) refl in
                let same : u ≡ user = cc in
                (
                  email,
                  cc,
                  cc,
                  cc,
                  rw⁻¹ same (upsert_sound email tenant_id _ _ access_token db u reached),
                )
          ]
        ]
      ]

  -- From a tenant whose state was accepted.
  sign_in_at_sound :
      (tenant_id : ℕ) (db : Db) (user : User) (config : TenantIdpConfig) (userinfo : UserInfo)
      → (sign_in_at x codec secret_key idp code user_id link_id tenant_id (open_session db)).0
        ≡ ok (user, config, userinfo)
      → (email : Text) × (access_token : Text) × (find
            (is_active_config_of tenant_id)
            db.idp_configs
          ≡ some config)
        × HasAnswered x codec secret_key idp code config access_token userinfo
        × (userinfo.email ≡ some email)
        × IsAccountOf tenant_id email db user
  unfolding sign_in_at
  sign_in_at_sound tenant_id db user config userinfo done =
      let (c, s', ran, rest) =
        bind_ok (get_tenant_idp_config tenant_id) _ (open_session db) (user, config, userinfo)
          done in
      let (configured, still) = config_ran tenant_id (open_session db) s' c ran in
      let rest' = rw still at rest in
      elim (Result-cases (ask_provider x codec secret_key idp code c (open_session db)).0) [
        | inr (e, failed) ↦ absurd (ground arith)
        | inl ((access_token, info), answered) ↦
            let asked : ask_provider x codec secret_key idp code c (open_session db)
                ≡ (ok (access_token, info), open_session db) =
              ground (arith, ask_provider-still x codec secret_key idp code c (open_session db)) in
            let (email, same, told, at, account) =
              provision_sound tenant_id c access_token info db user config userinfo
                (rw asked at rest') in
            (
              email,
              access_token,
              rw same configured,
              rw (same, told)
                  (ask_provider_sound x codec secret_key idp code c access_token info
                    (open_session db) answered),
              at,
              account,
            )
      ]

  -- If signing in with a tenant's provider returns an account, then the state decodes to parts with
  -- the right signature and a time at most five minutes ago, and names a tenant; the configuration
  -- is the tenant's first active one. Its provider's metadata names both endpoints, the exchange of
  -- the request's code with the client's id and decrypted secret gave an access token, and the
  -- userinfo for this token is what is returned and has an address. The account is the stored one
  -- with the address, of this tenant, or a new one.
  pub enterprise_sound :
      (db : Db) (user : User) (config : TenantIdpConfig) (userinfo : UserInfo)
      → (handle_callback x codec secret_key idp code state now user_id link_id (open_session db)).0
        ≡ ok (user, config, userinfo)
      → (tenant_id : ℕ) × (email : Text) × (access_token : Text) × VouchesFor tenant_id
        × (find (is_active_config_of tenant_id) db.idp_configs ≡ some config)
        × HasAnswered x codec secret_key idp code config access_token userinfo
        × (userinfo.email ≡ some email)
        × IsAccountOf tenant_id email db user
  unfolding handle_callback
  enterprise_sound db user config userinfo done =
      let (t, s', ran, rest) =
        bind_ok (verify_enterprise_state codec secret_key now state) _ (open_session db)
          (user, config, userinfo) done in
      let (still, nonce, ts, at, decoded, read, early) =
        verify_enterprise_state_sound codec secret_key state t now (open_session db) s' ran in
      let rest' = rw still at rest in
      elim (Option-cases (x.as_uuid t)) [
        | inl malformed ↦ absurd (ground arith)
        | inr (tenant_id, parsed) ↦
            let (email, access_token, configured, answered, given, account) =
              sign_in_at_sound tenant_id db user config userinfo (rw parsed at rest') in
            (
              tenant_id,
              email,
              access_token,
              (t, nonce, ts, at, decoded, read, early, parsed),
              configured,
              answered,
              given,
              account,
            )
      ]
