-- ===== src/Signup.antt =====
-- `create_tenant`, `_unique_tenant_slug` and `signup` of app/api/v1/auth.py: new organisations and
-- their owners. The ids, the random suffixes, the hash of the password, its length and the regular
-- expression of `_slugify` are the libraries', and so arguments. The columns `slug` of the tenants
-- and `email` of the users are unique: a commit that breaks this raises.
mod Unique
mod Tests
use lite_iam.Prelude.{
  ℕ, Text, Bool, true, false, not, ◌&&◌, ◌||◌, Option, none, some, List, [], ◌∷◌, ◌++◌, ◌==◌,
  if◌then◌else◌, is_some, find, truthy, ltb,
}
use lite_iam.Database.{
  ◌>>=◌, ◌>>◌, Db, Error, internal, Handler, http, modify, raise_if, gets, commit, rollback, emit,
  raise, pure,
}
use lite_iam.Social.{has_email, new_user}
use lite_iam.Models.{Tenant, User, tenant_created, user_created}
use lite_iam.External.{External}
use lite_iam.Settings.{Settings}

abbrev pub has_slug : Text → Tenant → Bool
has_slug slug t = t.slug == slug

abbrev pub new_tenant : ℕ → Text → Text → Tenant
new_tenant id slug name = record {
  id = id;
  slug = slug;
  name = name;
  is_active = true;
  ip_allowlist = none;
  ip_blocklist = none;
  require_mfa = false;
  custom_jwt_claims = none;
  audit_log_retention_days = 90;
  email_from_address = none;
  email_from_name = none;
}

abbrev pub add_tenant : Tenant → Handler (Unit {0})
add_tenant t = modify λ db. record db { tenants = db.tenants ++ t ∷ [] }

-- `create_tenant`; a race on the slug is outside a request that runs whole.
pub create_tenant : User → ℕ → Text → Text → Handler Tenant
create_tenant admin id slug name = do
  raise_if (not admin.is_superuser) (http 403 "Forbidden")
  existing ← gets (λ db. find (has_slug slug) db.tenants)
  raise_if (is_some existing) (http 409 "Tenant with this slug already exists")
  add_tenant (new_tenant id slug name)
  commit
  emit tenant_created (some id) none none
  pure (new_tenant id slug name)

-- The tries of `_unique_tenant_slug`: the slug while it is free, else the next one, and in the end
-- a longer one that is not looked up.
pub unique_slug : (Text → Text) → Text → List Text → Text → Db → Text
unique_slug suffixed slug [] last db = suffixed last
unique_slug suffixed slug (random ∷ randoms) last db =
    let next = unique_slug suffixed (suffixed random) randoms last db in
    if is_some (find (has_slug slug) db.tenants) then next else slug

pub record SignupRequest : Type 0 where
  pub email : Text
  pub password : Text
  pub organisation_name : Text

-- What is drawn and computed outside: ids, five suffixes and the last, the hash.
pub record Drawn : Type 0 where
  pub tenant_id : ℕ
  pub user_id : ℕ
  pub randoms : List Text
  pub last : Text
  pub hashed_password : Text

pub record SignupResponse : Type 0 where
  pub tenant_id : ℕ
  pub organisation_slug : Text
  pub email : Text
  pub email_verification_required : Bool

abbrev pub min_password_length : ℕ
min_password_length = 12

abbrev pub email_taken : Error
email_taken = http 409 "An account with this email already exists"

module _ (x : External) (cfg : Settings) (len : Text → ℕ) (slugify : Text → Text)
    (suffixed : Text → Text → Text) (drawn : Drawn) (body : SignupRequest) where
  abbrev pub org_name : Text
  org_name = x.strip body.organisation_name

  -- The first user of the organisation, who is no administrator of the platform.
  abbrev pub owner : User
  owner = record (new_user drawn.user_id body.email drawn.tenant_id) {
    hashed_password = drawn.hashed_password;
    is_verified = not cfg.require_email_verification;
  }

  -- The commit of both rows under the unique slugs.
  pub create_organisation : Text → Handler (Unit {0})
  create_organisation slug = do
    taken ← gets (λ db. is_some (find (has_slug slug) db.tenants))
    add_tenant (new_tenant drawn.tenant_id slug org_name)
    modify λ db. record db { users = db.users ++ owner ∷ [] }
    if taken then (do rollback; raise email_taken) else commit

  abbrev base : Text
  base = slugify org_name

  pub signup : Handler SignupResponse
  signup = do
    raise_if (not (truthy org_name)) (http 422 "Organisation name is required")
    raise_if (ltb (len body.password) min_password_length)
        (http 422 "Password must be at least 12 characters")
    existing ← gets (λ db. find (has_email body.email) db.users)
    raise_if (is_some existing) email_taken
    slug ← gets (unique_slug (suffixed base) base drawn.randoms drawn.last)
    create_organisation slug
    emit tenant_created (some drawn.tenant_id) (some drawn.user_id) none
    emit user_created (some drawn.tenant_id) (some drawn.user_id) none
    pure (record {
      tenant_id = drawn.tenant_id;
      organisation_slug = slug;
      email = body.email;
      email_verification_required = cfg.require_email_verification;
    })
