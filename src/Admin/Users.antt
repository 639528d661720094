-- ===== src/Admin/Users.antt =====
-- app/admin/users.py: the users of an administrator's tenant.
mod Patch
mod Impersonation
mod Tests
use lite_iam.Prelude.{
  ℕ, Text, Bool, true, false, ◌&&◌, Option, none, some, List, [], ◌∷◌, ◌==◌, String, find,
}
use lite_iam.Database.{◌>>=◌, ◌>>◌, internal, Handler, raise_if, update_user, pure, emit}
use lite_iam.Literals
use lite_iam.Models.{User, user_updated}
use lite_iam.External.{External}
use lite_iam.Admin.{require_superuser, commit, not, update_tenant, http, gets, or_raise}
use lite_iam.Settings.{Settings}
use lite_iam.Tokens.{Claims, Keys, Stamp, TenantRecord, write_token}

pub record UserPatch : Type 0 where
  pub is_active : Option Bool
  pub is_superuser : Option Bool

abbrev pub is_target : ℕ → ℕ → User → Bool
is_target user_id tenant_id u = (u.id == user_id) && (u.tenant_id == tenant_id)

-- The guards that both handlers have, and the row that they act on.
abbrev pub target_of : User → ℕ → String → Handler User
target_of actor user_id own = do
  raise_if (not actor.is_superuser) (http 403 "Superuser access required")
  raise_if (user_id == actor.id) (http 400 own)
  found ← gets (λ db. find (is_target user_id actor.tenant_id) db.users)
  or_raise found (http 404 "User not found in your tenant")

-- `if body.f is not None: target.f = body.f`
abbrev pub patched : UserPatch → User → User
patched body u = record u {
  is_active = elim body.is_active [ none ↦ u.is_active | some b ↦ b ];
  is_superuser = elim body.is_superuser [ none ↦ u.is_superuser | some b ↦ b ];
}

pub patch_user : User → ℕ → UserPatch → Handler User
patch_user actor user_id body = do
  target ← target_of actor user_id "Cannot modify your own account via this endpoint"
  update_user target.id (patched body)
  commit
  pure (patched body target)

abbrev pub impersonation_ttl : ℕ
impersonation_ttl = 3600

-- The extra claims of an impersonation; `shown` is the text of `True`.
abbrev pub impersonation_claims : External → Text → User → Claims
impersonation_claims x shown actor =
    (Literals.impersonated, shown)
    ∷ (Literals.impersonator_id, x.str_uuid actor.id)
    ∷ (Literals.impersonator_email, actor.email)
    ∷ []

-- The guards of `impersonate_user`: whom the administrator may act as.
pub impersonable : User → ℕ → Handler User
impersonable actor user_id = do
  target ← target_of actor user_id "Cannot impersonate yourself"
  raise_if target.is_superuser (http 403 "Superusers cannot impersonate other superusers")
  raise_if (not target.is_active) (http 400 "Cannot impersonate an inactive user")
  pure target

module _ (x : External) (cfg : Settings) (keys : Keys) (stamp : Stamp) (tenant : TenantRecord)
    (shown : Text) (ip_address : Option Text) (actor : User) where
  -- What follows the guards: the token and the audit row.
  pub impersonate : User → Handler Text
  impersonate target = do
    let token =
        write_token x cfg keys stamp tenant (some impersonation_ttl)
          (impersonation_claims x shown actor) target
    emit user_updated (some actor.tenant_id) (some target.id) ip_address
    commit
    pure token

  pub impersonate_user : ℕ → Handler Text
  impersonate_user user_id = do target ← impersonable actor user_id; impersonate target

unfoldable pub set_tenant_mfa_policy : User → Bool → Handler (Unit {0})
set_tenant_mfa_policy actor require_mfa = do
  require_superuser actor
  update_tenant actor.tenant_id (λ t. record t { require_mfa = require_mfa })
