-- ===== src/Admin/JwtClaims.antt =====
-- app/admin/jwt_claims.py: the custom claims of a tenant. The values are texts: the type check of
-- a value is the framework's parsing here. The length of a key is the library's.
mod Carried
mod Tests
use lite_iam.Prelude.{
  ℕ, Text, Bool, true, false, ◌&&◌, Option, none, some, List, [], ◌∷◌, ◌==◌, not, contains, leb,
  length, truthy, or_empty,
}
use lite_iam.Database.{◌>>=◌, ◌>>◌, internal, Handler, raise_if, pure}
use lite_iam.Tokens.{Claims, reserved_claims}
use lite_iam.External.{External}
use lite_iam.Models.{User}
use lite_iam.Admin.{require_superuser, http, tenant_at, update_tenant}

abbrev pub max_claims : ℕ
max_claims = 20

abbrev pub max_key_length : ℕ
max_key_length = 64

module _ (len : Text → ℕ) where
  abbrev pub is_valid_claim : Text × Text → Bool
  is_valid_claim (k, v) =
      not (contains reserved_claims k) && (truthy k && leb (len k) max_key_length)

  abbrev pub all_valid : Claims → Bool
  all_valid [] = true
  all_valid (c ∷ claims) = is_valid_claim c && all_valid claims

  -- `validate_claims`, whose failure is a 422 of the framework.
  abbrev pub is_valid_write : Claims → Bool
  is_valid_write claims = all_valid claims && leb (length claims) max_claims

-- `body.claims or None`
abbrev pub or_none : Claims → Option Claims
or_none [] = none
or_none (c ∷ claims) = some (c ∷ claims)

module _ (x : External) where
  pub get_jwt_claims : User → Text → Handler Claims
  get_jwt_claims user tenant_id = do
    require_superuser user
    (tid, tenant) ← tenant_at x tenant_id
    pure (or_empty tenant.custom_jwt_claims)

  pub set_jwt_claims : (Text → ℕ) → User → Text → Claims → Handler Claims
  set_jwt_claims len user tenant_id claims = do
    raise_if (not (is_valid_write len claims)) (http 422 "Invalid claims")
    require_superuser user
    (tid, tenant) ← tenant_at x tenant_id
    update_tenant tid (λ t. record t { custom_jwt_claims = or_none claims })
    pure claims

  pub clear_jwt_claims : User → Text → Handler (Unit {0})
  clear_jwt_claims user tenant_id = do
    require_superuser user
    (tid, tenant) ← tenant_at x tenant_id
    update_tenant tid (λ t. record t { custom_jwt_claims = none })
