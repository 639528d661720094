-- ===== src/Admin.antt =====
-- app/admin: what a superuser changes. Logging is left out.
pub mod Users
pub mod IpPolicy
pub mod JwtClaims
pub mod EmailSender
pub mod Webhooks
pub mod Audit
use lite_iam.Prelude.{ℕ, Text, Bool, not, Option, ◌==◌, update_where}
use lite_iam.Database.{
  ◌>>=◌, ◌>>◌, internal, Handler, modify, or_raise, raise_if, http, commit, gets, get_tenant, pure,
}
use lite_iam.Models.{Tenant, User}
use lite_iam.External.{External}

-- `if not actor.is_superuser: raise …`
abbrev pub require_superuser : User → Handler (Unit {0})
require_superuser actor = raise_if (not actor.is_superuser) (http 403 "Superuser required")

-- The tenant that a path names, and its id.
abbrev pub tenant_at : External → Text → Handler (ℕ × Tenant)
tenant_at x tenant_id = do
  tid ← or_raise (x.as_uuid tenant_id) (http 400 "Invalid tenant_id")
  found ← gets (get_tenant tid)
  tenant ← or_raise found (http 404 "Tenant not found")
  pure (tid, tenant)

-- `update(Tenant).where(Tenant.id == tid).values(…)` and the commit.
abbrev pub update_tenant : ℕ → (Tenant → Tenant) → Handler (Unit {0})
update_tenant tid f = do
  modify λ db. record db { tenants = update_where (λ t. t.id == tid) f db.tenants }
  commit
