-- ===== src/Enterprise/Exchange.antt =====
-- app/identity/enterprise.py: what the provider was asked for, and what it answered.
use lite_iam.Prelude.{
  Text, ◌≡◌, true, none, some, arith, Option-cases, Bool-cases, inl, inr, Option, truthy,
}
use lite_iam.Models.{TenantIdpConfig}
use lite_iam.External.{External}
use lite_iam.Database.{ok, Session, Error, or_raise, http}
use lite_iam.Social.{Codec}
use lite_iam.Database.Runs.{bind_ok}
use lite_iam.Enterprise.{Metadata, exchange_at, Provider, UserInfo, ask_provider, truthy_or_raise}

pub or_raise_ran :
    {A : Type 0} (o : Option A) (e : Error) (s s' : Session) (a : A)
    → or_raise o e s ≡ (ok a, s')
    → (o ≡ some a) × (s' ≡ s)
or_raise_ran none e s s' a ran = absurd (ground arith)
or_raise_ran (some b) e s s' a ran = (ground arith, ground arith)

truthy_ran :
    (o : Option Text) (e : Error) (s s' : Session) (t : Text)
    → truthy_or_raise o e s ≡ (ok t, s')
    → (o ≡ some t) × (truthy t ≡ true) × (s' ≡ s)
truthy_ran none e s s' t ran = absurd (ground arith)
truthy_ran (some u) e s s' t ran = elim (Bool-cases (truthy u)) [
  | inl full ↦ (ground arith, ground arith, ground arith)
  | inr empty ↦ absurd (ground arith)
]

module _ (x : External) (codec : Codec) (secret_key : Text) (idp : Provider) (code : Text) where
  pub ask_provider-still :
      (config : TenantIdpConfig) (s : Session)
      → (ask_provider x codec secret_key idp code config s).1 ≡ s
  unfolding ask_provider
  ask_provider-still config s = ground arith

  -- The provider of the configuration answered: its metadata names the endpoints, the exchange of
  -- the code with the client's id and secret gave the access token, and userinfo gave this for it.
  abbrev pub HasAnswered : TenantIdpConfig → Text → UserInfo → Type 0
  HasAnswered config access_token userinfo =
      (md : Metadata) × (token_endpoint : Text) × (userinfo_endpoint : Text) × (secret : Text)
      × (idp.metadata config.discovery_url ≡ some md)
      × (md.token_endpoint ≡ some token_endpoint)
      × (md.userinfo_endpoint ≡ some userinfo_endpoint)
      × (x.decrypt config.client_secret_enc ≡ some secret)
      × (idp.exchange token_endpoint code config.client_id secret ≡ some (some access_token))
      × (idp.userinfo userinfo_endpoint access_token ≡ some userinfo)

  -- The last steps of the exchange, at the endpoints.
  exchange_sound :
      (config : TenantIdpConfig) (token_endpoint userinfo_endpoint access_token : Text)
      (info : UserInfo) (s : Session)
      → (exchange_at x codec secret_key idp code config token_endpoint userinfo_endpoint s).0
        ≡ ok (access_token, info)
      → (secret : Text) × (x.decrypt config.client_secret_enc ≡ some secret)
        × (idp.exchange token_endpoint code config.client_id secret ≡ some (some access_token))
        × (idp.userinfo userinfo_endpoint access_token ≡ some info)
  exchange_sound config token_endpoint userinfo_endpoint access_token info s done =
      elim (Option-cases (x.decrypt config.client_secret_enc)) [
        | inl closed ↦ absurd (ground arith)
        | inr (secret, opened) ↦
            elim (Option-cases (idp.exchange token_endpoint code config.client_id secret)) [
              | inl failed ↦ absurd (ground arith)
              | inr (data', exchanged) ↦ elim (Option-cases data') [
                | inl empty ↦ absurd (ground arith)
                | inr (t, given) ↦ elim (Option-cases (idp.userinfo userinfo_endpoint t)) [
                  | inl failed ↦ absurd (ground arith)
                  | inr (u, told) ↦ (secret, opened, ground arith, ground arith)
                ]
              ]
            ]
      ]

  pub ask_provider_sound :
      (config : TenantIdpConfig) (access_token : Text) (info : UserInfo) (s : Session)
      → (ask_provider x codec secret_key idp code config s).0 ≡ ok (access_token, info)
      → HasAnswered config access_token info
  unfolding ask_provider
  ask_provider_sound config access_token info s done =
      let (md, s1, ran1, rest1) =
        bind_ok
          (or_raise (idp.metadata config.discovery_url) (http 502 "Failed to fetch OIDC metadata"))
          _ s (access_token, info) done in
      let (described, still1) = or_raise_ran _ _ s s1 md ran1 in
      let (token_endpoint, s2, ran2, rest2) =
        bind_ok (truthy_or_raise md.token_endpoint (http 502 "IDP discovery missing endpoints")) _
          s1 (access_token, info) rest1 in
      let (at, full1, still2) = truthy_ran md.token_endpoint _ s1 s2 token_endpoint ran2 in
      let (userinfo_endpoint, s3, ran3, rest3) =
        bind_ok (truthy_or_raise md.userinfo_endpoint (http 502 "IDP discovery missing endpoints"))
          _ s2 (access_token, info) rest2 in
      let (at', full2, still3) = truthy_ran md.userinfo_endpoint _ s2 s3 userinfo_endpoint ran3 in
      let (secret, opened, exchanged, told) =
        exchange_sound config token_endpoint userinfo_endpoint access_token info s3 rest3 in
      (md, token_endpoint, userinfo_endpoint, secret, described, at, at', opened, exchanged, told)
