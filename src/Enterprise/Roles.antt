-- ===== src/Enterprise/Roles.antt =====
-- app/identity/enterprise.py: the roles that a sign-in adds, and the other workers.
use lite_iam.Prelude.{
  none, some, ap, ℕ, Text, ◌≡◌, ◌≢◌, refl, List, [], ◌∷◌, Bool-cases, inl, inr, lookup, arith,
  is_empty, Option, ◌∙◌, ap,
}
use lite_iam.Models.{User, TenantIdpConfig}
use lite_iam.External.{External}
use lite_iam.Database.{Session, ok, err, Result}
use lite_iam.Social.{Codec}
use lite_iam.Authz.{Casbin, System, enforce}
use lite_iam.Enterprise.{
  Provider, UserInfo, apply_roles, enterprise_callback, handle_callback, idp_groups, mapped, Bool,
  add_role, some,
}

module _ (x : External) (codec : Codec) (secret_key : Text) (idp : Provider) {Model Store : Type 0}
    (c : Casbin Model Store) (write_token : User → Text) (v w : ℕ) (apart : v ≢ w) where
  -- What a worker decides by, and whether a reload of its policies is pending.
  abbrev view : System Model Store → Option Model × Bool
  view s = (s.enforcers v, s.pending v)

  add_role-view :
      (user : User) (config : TenantIdpConfig) (role : Option Text) (s : System Model Store)
      → view (add_role x codec secret_key idp c write_token w user config role s) ≡ view s
  add_role-view user config none s = refl
  add_role-view user config (some role) s = ground arith

  apply_roles-view :
      (user : User) (config : TenantIdpConfig) (groups : List Text) (s : System Model Store)
      → view (apply_roles x codec secret_key idp c write_token w user config groups s) ≡ view s
  unfolding apply_roles
  apply_roles-view user config [] s = refl
  apply_roles-view user config (group ∷ groups) s =
      apply_roles-view user config groups _
      ∙ add_role-view user config (lookup group config.role_mapping) s

  mapped-view :
      (sys : System Model Store) (r : Result (User × TenantIdpConfig × UserInfo)) (s : Session)
      → view (mapped x codec secret_key idp c write_token w sys (r, s)).1 ≡ view sys
  mapped-view sys (err e) s = refl
  mapped-view sys (ok (user, config, userinfo)) s =
      elim (Bool-cases (is_empty config.role_mapping)) [
        | inl none_mapped ↦ rw none_mapped refl
        | inr some_mapped ↦ rw some_mapped (apply_roles-view user config (idp_groups userinfo) sys)
      ]

  pub roles_stay_local :
      (code state : Text) (now user_id link_id : ℕ) (sys : System Model Store) (s : Session)
      → let (reply, sys') =
          enterprise_callback x codec secret_key idp c write_token w code state now user_id link_id
            sys s in
        (sys'.pending v ≡ sys.pending v)
        × ((sub domain obj act : Text)
            → enforce c (sys'.enforcers v) sub domain obj act
              ≡ enforce c (sys.enforcers v) sub domain obj act)
  unfolding enterprise_callback
  roles_stay_local code state now user_id link_id sys s =
      let ran = handle_callback x codec secret_key idp code state now user_id link_id s in
      let same = mapped-view sys ran.0 ran.1 in
      (
        ap (λ (p : Option Model × Bool). p.1) same,
        λ sub domain obj act.
            ap (λ (p : Option Model × Bool). enforce c p.0 sub domain obj act) same,
      )
